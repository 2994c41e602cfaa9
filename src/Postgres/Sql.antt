-- ===== src/Postgres/Sql.antt =====
-- The statement of `upsert_accounts_for_user` (data_store_connection.cpp), written into a buffer that
-- grows, with `increase_buffer` (data_store_connection.h).
use sync_server.Base.{
  ℕ, ◌+◌, ◌-◌, ◌*◌, ◌/◌, ◌%◌, ◌^◌, Bool, true, false, Option, none, some, List, [], ◌∷◌, ◌++◌,
  Bytes, codes, ltb, length, if◌then◌else◌,
}
use sync_server.Base.Long.{print_long}
use sync_server.Store.{Account}

abbrev pub upsert_account_prepare_1 : Bytes
upsert_account_prepare_1 = codes "INSERT INTO Accounts as a VALUES "

abbrev pub upsert_account_prepare_2 : Bytes
upsert_account_prepare_2 =
    codes "on conflict (account_name, account_uuid) DO UPDATE "
    ++ codes "SET user_name = EXCLUDED.user_name, password = EXCLUDED.password, old_password = "
    ++ codes "EXCLUDED.old_password, url = EXCLUDED.url, update_time = EXCLUDED.update_time, "
    ++ codes "deleted = EXCLUDED.deleted WHERE EXCLUDED.update_time > a.update_time"

-- `buf`, of `sz` bytes, with the text up to `indx`.
pub record Buffer : Type 0 where
  pub sz : ℕ
  pub text : Bytes

-- The text and its NUL are written behind what is there; `none` is a write past the end.
unfoldable pub put : Bytes → Buffer → Option Buffer
put s b =
    if ltb (length b.text + length s) b.sz then some (record b { text = b.text ++ s }) else none

-- `(unsigned int)(sz * 1.25)` is a quarter more, exactly.
unfoldable pub increase_buffer : ℕ → Buffer → Buffer
increase_buffer needed b =
    let grown = (needed + b.sz * 5 / 4) % 2 ^ 32 in
    if ltb ((b.sz + 2 ^ 32 - length b.text) % 2 ^ 32) ((needed + 20) % 2 ^ 32)
    then record b { sz = (grown + grown % 8) % 2 ^ 32 }
    else b

abbrev pub flag_text : Bool → Bytes
flag_text true = codes "true"
flag_text false = codes "false"

abbrev pub comma : Bytes
comma = codes "', '"

-- "('%s', '%s', '%s', '%s', '%s', '%s', %ld, %s)"
unfoldable pub row : Bytes → Account → Bytes
unfolding print_long
row user a =
    codes "('"
    ++ a.account_name
    ++ comma
    ++ user
    ++ comma
    ++ a.user_name
    ++ comma
    ++ a.password
    ++ comma
    ++ a.old_password
    ++ comma
    ++ a.url
    ++ codes "', "
    ++ print_long a.update_time
    ++ codes ", "
    ++ flag_text a.deleted
    ++ codes ")"

unfoldable pub texts : Account → ℕ
texts a =
    length a.account_name
    + length a.user_name
    + length a.password
    + length a.old_password
    + length a.url

unfoldable pub then_put : Option Buffer → (Buffer → Option Buffer) → Option Buffer
then_put none f = none
then_put (some b) f = f b

-- One round of the loop, after the separator.
unfoldable pub add_row : Bytes → Account → Buffer → Option Buffer
unfolding put increase_buffer row texts
add_row user a b = put (row user a) (increase_buffer ((texts a + 70) % 2 ^ 32) b)

unfoldable pub separate : Bool → Buffer → Option Buffer
unfolding put
separate first b = if first then some b else put (codes ", ") b

unfoldable pub add_rows : Bytes → Bool → List Account → Buffer → Option Buffer
unfolding add_row separate then_put
add_rows user first [] b = some b
add_rows user first (a ∷ accounts) b =
    then_put (separate first b) (λ b1. then_put (add_row user a b1) (add_rows user false accounts))

unfoldable pub upsert_buffer : Bytes → List Account → Option Buffer
unfolding add_rows then_put put increase_buffer
upsert_buffer user accounts =
    then_put
      (put upsert_account_prepare_1
        (record { sz = (500 + 100 * length accounts) % 2 ^ 32; text = [] }))
      (λ b.
        then_put (add_rows user true accounts b)
          (λ b1. put upsert_account_prepare_2 (increase_buffer 300 b1)))
