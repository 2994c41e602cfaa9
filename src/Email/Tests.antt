-- ===== src/Email/Tests.antt =====
-- `verify_email` at concrete addresses.
use sync_server.Base.{◌≡◌, refl, true, false, codes, Bytes, ◌++◌, ◌∷◌, []}
use sync_server.Email.{verify_email}
use sync_server.Email.Domain.{IsDomain}
use sync_server.Email.Sound.{IsLocal, verify_email_sound}

accepts : verify_email (codes "first.last@mail.example.com") ≡ true
unfolding verify_email
accepts = refl

rejects_two_dots : verify_email (codes "first..last@example.com") ≡ false
unfolding verify_email
rejects_two_dots = refl

rejects_digits_at_the_end : verify_email (codes "a@10.0.0.1") ≡ false
unfolding verify_email
rejects_digits_at_the_end = refl

verify_email_sound_example :
    (l : Bytes) × (d : Bytes) × (codes "first.last@mail.example.com" ≡ l ++ b'@' ∷ d)
    × IsLocal l
    × IsDomain 0 b'.' 63 [] d
verify_email_sound_example = verify_email_sound (codes "first.last@mail.example.com") accepts
