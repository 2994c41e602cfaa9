-- ===== src/Email/Local.antt =====
-- The part before the `@`.
use sync_server.Base.{
  ℕ, ◌+◌, ◌≤◌, ◌<◌, ◌≡◌, ◌≢◌, ◌⊎◌, inl, inr, ap, Bool, true, some, [], ◌∷◌, ◌++◌, arith, Bytes,
  length, All,
}
use mathlib.Core.Path.{ap₂}
use sync_server.Email.{scan_local, is_part_char}

-- No two dots in a row, none at the front if the byte before is a dot, none at the end.
abbrev pub DotsApart : ℕ → Bytes → Type 0
DotsApart last [] = last ≢ b'.'
DotsApart last (c ∷ s) = ((c ≢ b'.') ⊎ (last ≢ b'.')) × DotsApart c s

abbrev pub IsLocalChar : ℕ → Type 0
IsLocalChar c = (is_part_char c ≡ true) × (c ≢ b'@')

-- One round of the first loop that ends in success.
scan_local_step :
    (i : ℕ) (valid : Bool) (last c : ℕ) (s r : Bytes)
    → scan_local i valid last (c ∷ s) ≡ some (true, r)
    → ((c ≡ b'@') × (last ≢ b'.') × (valid ≡ true) × (s ≡ r))
      ⊎ ((IsLocalChar c)
          × ((c ≢ b'.') ⊎ (last ≢ b'.'))
          × (i < 64)
          × (scan_local (i + 1) true c s ≡ some (true, r)))
unfolding scan_local
scan_local_step i valid last c s r h = ground arith

-- What the first loop has read when it meets the `@`.
abbrev pub Scanned : ℕ → Bool → ℕ → Bytes → Bytes → Bytes → Type 0
Scanned i valid last l s r =
    (s ≡ l ++ b'@' ∷ r)
    × (i + length l ≤ 64)
    × All IsLocalChar l
    × DotsApart last l
    × ((valid ≡ true) ⊎ (l ≢ []))

pub scan_local-Scanned :
    (i : ℕ) (valid : Bool) (last : ℕ) (s r : Bytes)
    → i ≤ 64
    → scan_local i valid last s ≡ some (true, r)
    → r ≢ []
    → (l : Bytes) × Scanned i valid last l s r
scan_local-Scanned i valid last [] r b h n = absurd (n (unfold scan_local in cc))
scan_local-Scanned i valid last (c ∷ s) r b h n = elim (scan_local_step i valid last c s r h) [
  | inl (at, dot, ok, e) ↦ ([], (ap₂ ◌∷◌ at e, omega arith, tt, dot, inl ok))
  | inr (char, dot, fits, more) ↦
      let (l, (e, len, chars, dots, _)) =
        scan_local-Scanned (i + 1) true c s r (omega arith) more n in
      (c ∷ l, (ap (◌∷◌ c) e, omega arith, (char, chars), (dot, dots), inr (λ q. cc)))
]
