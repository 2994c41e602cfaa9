-- ===== src/Base/Tokens.antt =====
-- `strtok` and `strtok_r` with one delimiter, and `strstr` of one byte: what they return and where
-- they go on, as suffixes of the text. The bytes that they overwrite are not shown.
use mathlib.Core.Option.{some-injective}
use sync_server.Base.{
  ℕ, ◌≤◌, ◌<◌, ap, length, ◌≡◌, ◌≢◌, refl, Bool, false, ◌||◌, Option, none, some, [], ◌∷◌, ◌++◌,
  arith, Bytes, ◌==◌, if◌then◌else◌, All,
}

unfoldable pub skip : ℕ → Bytes → Bytes
skip d [] = []
skip d (c ∷ s) = let rest = skip d s in if c == d then rest else c ∷ s

-- The text up to the next delimiter, and what follows that.
unfoldable pub until : ℕ → Bytes → Bytes × Bytes
until d [] = ([], [])
until d (c ∷ s) = let (t, rest) = until d s in if c == d then ([], s) else (c ∷ t, rest)

token_at : ℕ → Bytes → Option (Bytes × Bytes)
token_at d [] = none
token_at d (c ∷ s) = some (until d (c ∷ s))

-- `none` is `NULL`; otherwise the token and the text that the next call goes on with.
unfoldable pub strtok : ℕ → Bytes → Option (Bytes × Bytes)
unfolding skip until token_at
strtok d s = token_at d (skip d s)

unfoldable pub contains_byte : ℕ → Bytes → Bool
contains_byte d [] = false
contains_byte d (c ∷ s) = c == d || contains_byte d s

module _ (d : ℕ) where
  until-token : (t s : Bytes) → All (λ c. c ≢ d) t → until d (t ++ (d ∷ s)) ≡ (t, s)
  unfolding until
  until-token [] s h = ground arith
  until-token (c ∷ t) s h = ground (arith, until-token t s h.1)

  until-All : (t : Bytes) → All (λ c. c ≢ d) t → until d t ≡ (t, [])
  unfolding until
  until-All [] h = refl
  until-All (c ∷ t) h = ground (arith, until-All t h.1)

  -- A token ends at the delimiter behind it.
  pub strtok-token :
      (t s : Bytes) → t ≢ [] → All (λ c. c ≢ d) t → strtok d (t ++ (d ∷ s)) ≡ some (t, s)
  unfolding strtok
  strtok-token [] s n h = absurd (n refl)
  strtok-token (c ∷ t) s n h = ground (arith, until-token (c ∷ t) s h)

  -- The last token ends with the text.
  pub strtok_last : (t : Bytes) → t ≢ [] → All (λ c. c ≢ d) t → strtok d t ≡ some (t, [])
  unfolding strtok
  strtok_last [] n h = absurd (n refl)
  strtok_last (c ∷ t) n h = ground (arith, until-All (c ∷ t) h)

  -- Delimiters in front of a token are passed over.
  pub strtok-delimiter : (s : Bytes) → strtok d (d ∷ s) ≡ strtok d s
  unfolding strtok
  strtok-delimiter s = ground arith

  skip-le : (s : Bytes) → length (skip d s) ≤ length s
  unfolding skip
  skip-le [] = omega arith
  skip-le (c ∷ s) = ground (arith, skip-le s)

  until-le : (s : Bytes) → length (until d s).1 ≤ length s
  unfolding until
  until-le [] = omega arith
  until-le (c ∷ s) = ground (arith, until-le s)

  until-lt : (c : ℕ) (s : Bytes) → length (until d (c ∷ s)).1 ≤ length s
  unfolding until
  until-lt c s = ground (arith, until-le s)

  token_at-shorter : (s t rest : Bytes) → token_at d s ≡ some (t, rest) → length rest < length s
  unfolding token_at
  token_at-shorter [] t rest e = cc
  token_at-shorter (c ∷ s) t rest e =
      let r : (until d (c ∷ s)).1 ≡ rest = ap (λ p. p.1) (some-injective _ _ e) in
      omega (arith, until-lt c s, ap length r)

  -- Each token takes a byte of the text at least.
  pub strtok-shorter : (s t rest : Bytes) → strtok d s ≡ some (t, rest) → length rest < length s
  unfolding strtok
  strtok-shorter s t rest e = omega (arith, token_at-shorter (skip d s) t rest e, skip-le s)
