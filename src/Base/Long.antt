-- ===== src/Base/Long.antt =====
-- `sprintf` of a `long long` with `%lld`, and `atol`.
use mathlib.Core.List.{append-nil}
use sync_server.Base.{
  ℕ, suc, ◌^◌, ◌<◌, ◌≡◌, refl, Bool, true, false, Option, none, some, [], ◌∷◌, arith, Bytes, ltb,
  leb, ◌==◌, if◌then◌else◌, ℤ, pos, negsuc,
}
use sync_server.Base.Decimal.{
  digits, is_space, negate, read_digits, read_digits-digits, Numeric, digits-Numeric,
}

-- A `long long` has at most nineteen digits.
unfoldable pub print_long : ℤ → Bytes
unfolding digits
print_long (pos n) = digits 19 n
print_long (negsuc n) = b'-' ∷ digits 19 (suc n)

-- A value that is no `long` is undefined: `none`.
as_long : Bool → ℕ → Option ℤ
as_long minus n =
    if minus
    then (if leb n (2 ^ 63) then some (negate n) else none)
    else (if ltb n (2 ^ 63) then some (pos n) else none)

signed_long : Bytes → Option ℤ
unfolding as_long read_digits
signed_long [] = some (pos 0)
signed_long (c ∷ s) =
    if c == b'-'
    then as_long Bool.true (read_digits 0 s)
    else if c == b'+'
    then as_long Bool.false (read_digits 0 s)
    else as_long Bool.false (read_digits 0 (c ∷ s))

-- Leading blanks, a sign, and digits up to the first other byte.
unfoldable pub atol : Bytes → Option ℤ
unfolding signed_long is_space
atol [] = some (pos 0)
atol (c ∷ s) = let rest = atol s in if is_space c then rest else signed_long (c ∷ s)

-- The values of a `long`.
abbrev pub IsLong : ℤ → Type 0
IsLong (pos n) = n < 2 ^ 63
IsLong (negsuc n) = n < 2 ^ 63

atol-Numeric : (s : Bytes) → Numeric s → atol s ≡ as_long false (read_digits 0 s)
unfolding atol
atol-Numeric [] h = absurd h
atol-Numeric (c ∷ s) h = ground arith

atol-minus : (s : Bytes) → atol (b'-' ∷ s) ≡ as_long true (read_digits 0 s)
unfolding atol
atol-minus s = refl

digits_read : (n : ℕ) → n < 10 ^ 19 → read_digits 0 (digits 19 n) ≡ n
unfolding read_digits
digits_read n h = rw append-nil at (read_digits-digits 19 n [] h)

-- What `%lld` prints, `atol` reads back.
pub atol-print_long : (z : ℤ) → IsLong z → atol (print_long z) ≡ some z
unfolding print_long as_long
atol-print_long (pos n) h =
    rw (atol-Numeric (digits 19 n) (digits-Numeric 18 n), digits_read n (omega arith))
      (ground arith)
atol-print_long (negsuc n) h =
    rw (atol-minus (digits 19 (suc n)), digits_read (suc n) (omega arith)) (ground arith)
