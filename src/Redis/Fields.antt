-- ===== src/Redis/Fields.antt =====
-- The fields of an account, as `get_accounts_for_user` (RedisStore.cpp) reads them.
use sync_server.Base.{
  ◌≡◌, refl, Bool, true, false, Option, none, some, List, [], ◌∷◌, Bytes, ℤ, ◌==◌, if◌then◌else◌,
}
use sync_server.Base.Long.{atol, IsLong, atol-print_long}
use sync_server.Store.{Account}
use sync_server.Redis.{fields_of, flag}

-- The variables of the loop, which keep what an earlier account has left in them.
pub record Fields : Type 0 where
  pub account_name : Option Bytes
  pub password : Option Bytes
  pub old_password : Option Bytes
  pub user_name : Option Bytes
  pub url : Option Bytes
  pub update_time : Option ℤ
  pub deleted : Option Bool

abbrev pub no_fields : Fields
no_fields = record {
  account_name = none;
  password = none;
  old_password = none;
  user_name = none;
  url = none;
  update_time = none;
  deleted = none;
}

abbrev first_is_one : Bytes → Bool
first_is_one [] = false
first_is_one (c ∷ s) = c == b'1'

-- The last branch, by the second byte of the key.
by_second : Bytes → Bytes → Fields → Option Fields
unfolding atol
by_second [] value f = some f
by_second (c ∷ s) value f =
    if c == b's'
    then some (record f { user_name = some value })
    else if c == b'r'
    then some (record f { url = some value })
    else if c == b'p'
    then some (record f { update_time = atol value })
    else some f

-- One key and its value; the second byte of an empty key is no memory of the key.
set_field : Bytes → Bytes → Fields → Option Fields
unfolding by_second
set_field [] value f = none
set_field (c ∷ key) value f =
    if c == b'a'
    then some (record f { account_name = some value })
    else if c == b'p'
    then some (record f { password = some value })
    else if c == b'o'
    then some (record f { old_password = some value })
    else if c == b'd'
    then some (record f { deleted = some (first_is_one value) })
    else by_second key value f

abbrev next_field : (Fields → Option Fields) → Option Fields → Option Fields
next_field rest none = none
next_field rest (some f) = rest f

-- The loop over the elements, two at a time.
unfoldable pub read_fields : List Bytes → Fields → Option Fields
unfolding set_field
read_fields (key ∷ value ∷ elements) f = next_field (read_fields elements) (set_field key value f)
read_fields _ f = some f

abbrev with_text : Option Bytes → (Bytes → Option Account) → Option Account
with_text none rest = none
with_text (some v) rest = rest v

abbrev with_rest : Option ℤ → Option Bool → (ℤ → Bool → Account) → Option Account
with_rest (some t) (some d) rest = some (rest t d)
with_rest _ _ rest = none

-- The account that is put into the map; `none` reads a variable without a value.
unfoldable pub account_from : Bytes → Fields → Option Account
account_from user f = with_text f.account_name λ name. with_text f.password λ password.
    with_text f.old_password λ old_password. with_text f.user_name λ user_name.
      with_text f.url λ url. with_rest f.update_time f.deleted λ t d. record {
        account_name = name;
        account_uuid = user;
        user_name = user_name;
        password = password;
        old_password = old_password;
        url = url;
        update_time = t;
        deleted = d;
      }

abbrev pub flatten : List (Bytes × Bytes) → List Bytes
flatten [] = []
flatten ((key, value) ∷ fields) = key ∷ value ∷ flatten fields

pub read_back : Option Fields → Bytes → Option Account
unfolding account_from
read_back none user = none
read_back (some f) user = account_from user f

flag_read : (d : Bool) → first_is_one (flag d) ≡ d
flag_read true = refl
flag_read false = refl

-- An account that `upsert_accounts_for_user` writes is read back as it was, whatever the variables
-- of the loop held before, if its time is a `long`.
pub read_fields-fields_of :
    (a : Account) (f : Fields)
    → IsLong a.update_time
    → read_back (read_fields (flatten (fields_of a)) f) a.account_uuid ≡ some a
unfolding read_fields read_back fields_of
read_fields-fields_of a f h = rw (atol-print_long a.update_time h, flag_read a.deleted)
