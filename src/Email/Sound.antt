-- ===== src/Email/Sound.antt =====
-- What an address that `verify_email` accepts looks like.
use sync_server.Base.{
  ℕ, suc, zero, ◌+◌, ◌≤◌, ◌<◌, ◌≡◌, ◌≢◌, refl, inl, inr, Bool, true, false, Option, some, none, [],
  ◌∷◌, ◌++◌, arith, Bytes, length, All,
}
use sync_server.Email.{scan_local, scan_domain, verify_domain, verify_email}
use sync_server.Email.Local.{IsLocalChar, DotsApart, scan_local-Scanned}
use sync_server.Email.Domain.{IsDomain, scan_domain-IsDomain}

pub record IsLocal (l : Bytes) : Type 0 where
  pub some_char : l ≢ []
  pub fits : length l ≤ 64
  pub chars : All IsLocalChar l
  pub dots : DotsApart b'.' l

verify_domain_inv :
    (o : Option (Bool × Bytes))
    → verify_domain o ≡ true
    → (d : Bytes) × (o ≡ some (true, d)) × (scan_domain 0 0 b'.' true false d ≡ true)
unfolding verify_domain
verify_domain_inv none h = cc
verify_domain_inv (some (true, d)) h = (d, refl, h)
verify_domain_inv (some (false, d)) h = cc

verify_email_inv :
    (email : Bytes)
    → verify_email email ≡ true
    → (d : Bytes) × (scan_local 0 false b'.' email ≡ some (true, d))
      × (scan_domain 0 0 b'.' true false d ≡ true)
verify_email_inv email h = verify_domain_inv _ (unfold verify_email in h)

domain_not_empty : (d : Bytes) → scan_domain 0 0 b'.' true false d ≡ true → d ≢ []
unfolding scan_domain
domain_not_empty [] h e = cc
domain_not_empty (c ∷ d) h e = cc

-- An accepted address is `local@domain`. The local part has 1 to 64 characters of the allowed
-- ones, no `@`, and no dot first, last or next to a dot. The domain has at most 254 characters of
-- the allowed ones, one more than `domain_l_max`, no `@`, no dot or hyphen first or next to a dot or
-- a hyphen, and ends in a label of one or more letters. Its first label has at most 64 characters if
-- it is the only one and 63 if not, and a later label at most 63 if it is the last and 62 if not.
pub verify_email_sound :
    (email : Bytes)
    → verify_email email ≡ true
    → (l : Bytes) × (d : Bytes) × (email ≡ l ++ b'@' ∷ d) × IsLocal l × IsDomain 0 b'.' 63 [] d
verify_email_sound email h =
    let (d, front, back) = verify_email_inv email h in
    let (l, (e, len, chars, dots, valid)) =
      scan_local-Scanned 0 false b'.' email d (omega arith) front (domain_not_empty d back) in
    (
      l,
      d,
      e,
      record {
        some_char = elim valid [ inl x ↦ cc | inr n ↦ n ];
        fits = omega arith;
        chars = chars;
        dots = dots;
      },
      scan_domain-IsDomain 0 0 b'.' 63 true false [] d (omega arith) refl (omega arith)
          (λ _. tt, λ e. cc) back,
    )

abbrev pub letters : ℕ → Bytes
letters zero = []
letters (suc n) = b'a' ∷ letters n

scan_domain-letters :
    (n k last : ℕ) → k + n ≤ 64 → scan_domain k k last true true (letters n) ≡ true
unfolding scan_domain
scan_domain-letters zero k last h = refl
scan_domain-letters (suc n) k last h = ground (arith, scan_domain-letters n (k + 1) b'a')

-- A domain of one label of up to 64 letters is accepted: one more than `label_l_max`.
pub verify_email-letters : (n : ℕ) → n < 64 → verify_email (b'a' ∷ b'@' ∷ letters (suc n)) ≡ true
unfolding verify_email
verify_email-letters n h = scan_domain-letters n 1 b'a' (omega arith)
