-- ===== src/Password/Hex.antt =====
-- The hexadecimal text determines the digest, and fits the callers' buffers.
use mathlib.Core.Option.{some-injective}
use sync_server.Base.{
  ◌↔◌, ℕ, ◌+◌, ◌*◌, ◌/◌, ◌%◌, ◌^◌, ◌≤◌, ◌<◌, ◌≡◌, refl, ap, Option, some, [], ◌∷◌, arith, Bytes,
  length, All,
}
use sync_server.Password.{hexdig, hex_encode, hash_password}

abbrev pub IsByte : ℕ → Type 0
IsByte b = b < 256

length-hex_encode : (d : Bytes) → length (hex_encode d) ≡ 2 * length d
unfolding hex_encode
length-hex_encode [] = refl
length-hex_encode (p ∷ d) = omega (arith, length-hex_encode d)

hexdig-injective : (m n : ℕ) → m < 16 → n < 16 → hexdig m ≡ hexdig n → m ≡ n
unfolding hexdig
hexdig-injective m n a b h = ground arith

byte_digits :
    (p q : ℕ) → p < 256 → q < 256 → p / 2 ^ 4 % 16 ≡ q / 2 ^ 4 % 16 → p % 16 ≡ q % 16 → p ≡ q
byte_digits p q a b high low = omega arith

-- Two digests with one hexadecimal text are equal.
pub hex_encode-injective :
    (d e : Bytes) → All IsByte d → All IsByte e → hex_encode d ≡ hex_encode e → d ≡ e
unfolding hex_encode
hex_encode-injective [] [] a b h = refl
hex_encode-injective [] (q ∷ e) a b h = cc
hex_encode-injective (p ∷ d) [] a b h = cc
hex_encode-injective (p ∷ d) (q ∷ e) a b h = ground (
  arith,
  hexdig-injective (p / 2 ^ 4 % 16) (q / 2 ^ 4 % 16),
  hexdig-injective (p % 16) (q % 16),
  byte_digits p q a.0 b.0,
  hex_encode-injective d e a.1 b.1,
)

module _ (digest : Bytes → Option Bytes) where
  -- A digest of at most 511 bytes fits `char hashed[1024]` with its NUL; SHA3-512 has 64.
  pub hash_password_fits :
      (password d h : Bytes)
      → digest password ≡ some d
      → length d ≤ 511
      → hash_password digest password ≡ some h
      → length h + 1 ≤ 1024
  unfolding hash_password
  hash_password_fits password d h e small r = ground (arith, length-hex_encode d)

  pub hash_password_of_digest :
      (p d : Bytes) → digest p ≡ some d → hash_password digest p ≡ some (hex_encode d)
  unfolding hash_password
  hash_password_of_digest p d h = ground arith

  -- Two passwords have one stored text exactly when they have one digest.
  pub hash_password_iff :
      (p q d e : Bytes)
      → digest p ≡ some d
      → digest q ≡ some e
      → All IsByte d
      → All IsByte e
      → (hash_password digest p ≡ hash_password digest q) ↔ (d ≡ e)
  hash_password_iff p q d e hp hq bd be =
      rw (hash_password_of_digest p d hp, hash_password_of_digest q e hq)
        (
          λ same. hex_encode-injective d e bd be (some-injective _ _ same),
          λ same. ap (λ x. some (hex_encode x)) same,
        )
