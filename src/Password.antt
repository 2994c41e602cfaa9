-- ===== src/Password.antt =====
-- `sync_handler::hash_password` (sync_handler.cpp): the SHA3-512 digest of the password, in
-- hexadecimal. OpenSSL's digest is the parameter `digest`; `none` is a call of it that fails.
pub mod Hex
mod Tests
use sync_server.Base.{
  ℕ, ◌+◌, ◌-◌, ◌*◌, ◌/◌, ◌%◌, ◌^◌, Option, none, some, [], ◌∷◌, Bytes, codes, ltb, if◌then◌else◌,
}

-- `hexdig[n]` for n below 16
hexdig : ℕ → ℕ
hexdig n = if ltb n 10 then b'0' + n else b'a' + (n - 10)

-- `hexdig[(*p >> 4) & 0xf]` and `hexdig[*p & 0xf]` for each byte
unfoldable pub hex_encode : Bytes → Bytes
unfolding hexdig
hex_encode [] = []
hex_encode (p ∷ digest) = hexdig (p / 2 ^ 4 % 16) ∷ hexdig (p % 16) ∷ hex_encode digest

module _ (digest : Bytes → Option Bytes) where
  -- `none` is `return false`.
  unfoldable pub hash_password : Bytes → Option Bytes
  unfolding hex_encode
  hash_password password = elim (digest password) [ none ↦ none | some d ↦ some (hex_encode d) ]
