-- ===== src/Email.antt =====
-- `sync_handler::verify_email` (sync_handler.cpp): each loop is a function of what is left of the
-- text and of the loop's variables.
pub mod Local
pub mod Domain
pub mod Sound
mod Tests
use sync_server.Base.{
  ℕ, ◌+◌, Bool, true, false, ◌&&◌, ◌||◌, Option, none, some, [], ◌∷◌, Bytes, ltb, leb, ◌==◌,
  if◌then◌else◌,
}

abbrev pub is_alpha : ℕ → Bool
is_alpha c = (leb b'a' c && leb c b'z') || (leb b'A' c && leb c b'Z')

-- The characters of a part. A byte from 128 on is negative as a `char`, and in no range either way.
pub is_part_char : ℕ → Bool
is_part_char c =
    (leb b']' c && leb c b'~')
    || (leb b'?' c && leb c b'[')
    || c == b'!'
    || c == b'='
    || (leb b'#' c && leb c b'\'')
    || (leb b'*' c && leb c b'+')
    || (leb b'-' c && leb c b'9')

abbrev local_l_max : ℕ
local_l_max = 64

abbrev domain_l_max : ℕ
domain_l_max = 253

abbrev label_l_max : ℕ
label_l_max = 63

-- The first loop, at `i`, `local_valid` and `last_char`: `none` is `return false`, and otherwise
-- `local_valid` and the text behind the `@` come back (`[]` if there is no `@`).
pub scan_local : ℕ → Bool → ℕ → Bytes → Option (Bool × Bytes)
unfolding is_part_char
scan_local i local_valid last_char [] = some (local_valid, [])
scan_local i local_valid last_char (c ∷ s) =
    let rest = scan_local (i + 1) true c s in
    if c == b'@'
    then (if last_char == b'.' then none else some (local_valid, s))
    else if (c == b'.' && last_char == b'.') || leb local_l_max i
    then none
    else if is_part_char c
    then rest
    else none

-- The second loop, at `domain_length`, `label_length`, `last_char`, `all_alpha`, `domain_valid`.
pub scan_domain : ℕ → ℕ → ℕ → Bool → Bool → Bytes → Bool
unfolding is_part_char
scan_domain dl ll last_char all_alpha domain_valid [] = domain_valid && all_alpha
scan_domain dl ll last_char all_alpha domain_valid (c ∷ s) =
    let at_dot = scan_domain (dl + 1) 1 c true false s in
    let at_hyphen = scan_domain (dl + 1) (ll + 1) c false false s in
    let at_other = scan_domain (dl + 1) (ll + 1) c (all_alpha && is_alpha c) true s in
    if ltb domain_l_max dl || ltb label_l_max ll || c == b'@'
    then false
    else if c == b'.'
    then (if last_char == b'.' || last_char == b'-' then false else at_dot)
    else if c == b'-'
    then (if last_char == b'.' || last_char == b'-' then false else at_hyphen)
    else if is_part_char c
    then at_other
    else false

-- From the end of the first loop on.
verify_domain : Option (Bool × Bytes) → Bool
unfolding scan_domain
verify_domain none = false
verify_domain (some (local_valid, domain)) =
    if local_valid then scan_domain 0 0 b'.' true false domain else false

unfoldable pub verify_email : Bytes → Bool
unfolding scan_local verify_domain
verify_email email = verify_domain (scan_local 0 false b'.' email)
