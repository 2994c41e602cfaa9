-- ===== src/Handler/Accounts.antt =====
-- `handle_delete`, `handle_sync_initial` and `handle_sync_final`.
pub mod Auth
pub mod Throws
pub mod Delete
pub mod Final
pub mod Initial
use sync_server.Base.{
  ℕ, Bool, true, false, Option, none, some, List, [], ◌∷◌, Bytes, codes, ℤ, pos, if◌then◌else◌,
}
use sync_server.Exec.{
  Outcome, ok, err, then_with, Exn, fault, Exec, http_error, pure, raise, lift, try, get_state,
  ◌>>=◌, ◌>>◌, require,
}
use sync_server.Http.{http_400, http_403, http_500}
use sync_server.Json.{JsonLib, or_json}
use sync_server.Map.{Map, get, erase}
use sync_server.Store.{User, Account}
use sync_server.Sync.{SyncDoc, read_rounds, send_rest}
use sync_server.Handler.State.{UserInfo, State, Server, call, user_path, pass_path, json_to}
use sync_server.Handler.Password.{verify_password}

abbrev pub account_deleted : Bytes
account_deleted = codes "{ msg: \"Account has been deleted\" }"

abbrev pub sync_final_resp : Bytes
sync_final_resp = codes "{ msg : \"Sync Final Complete\" }"

-- A key that `operator[]` had to make would have no user in it.
abbrev found_user : Option UserInfo → Outcome User
found_user none = err fault
found_user (some i) = ok i.user

user_of : Map UserInfo → Option Bytes → Outcome User
user_of infos none = err fault
user_of infos (some email) = found_user (get email infos)

abbrev pub empty_doc : ℤ → SyncDoc
empty_doc cts = record {
  response_code = pos 0;
  lock_time = cts;
  send_accounts_to_server_list = [];
  accounts_to_send_back_to_client = [];
}

-- An account of the final request: the pointers are stored, and read by the store.
pub record Sent : Type 0 where
  pub account_name : Option Bytes
  pub user_name : Option Bytes
  pub password : Option Bytes
  pub old_password : Option Bytes
  pub url : Option Bytes
  pub update_time : ℤ
  pub deleted : Bool

abbrev pub or_fault {ℓ} : {A : Type ℓ} → Option A → Outcome A
or_fault none = err fault
or_fault (some a) = ok a

abbrev pub account_of : Bytes → Sent → Outcome Account
account_of email a = then_with (or_fault a.account_name) λ name.
    then_with (or_fault a.user_name) λ user_name. then_with (or_fault a.password) λ password.
      then_with (or_fault a.old_password) λ old_password. then_with (or_fault a.url) λ url.
        ok (record {
          account_name = name;
          account_uuid = email;
          user_name = user_name;
          password = password;
          old_password = old_password;
          url = url;
          update_time = a.update_time;
          deleted = a.deleted;
        })

-- The store reads every field of every account.
unfoldable pub accounts_of : Bytes → List Sent → Outcome (List Account)
accounts_of email [] = ok []
accounts_of email (a ∷ rest) =
    then_with (account_of email a)
      λ account. then_with (accounts_of email rest) λ accounts. ok (account ∷ accounts)

module _ {S : Type 0} (sv : Server S) where
  abbrev lib : JsonLib
  lib = sv.lib

  -- The document, and the two pointers that it gives for the user and the password.
  abbrev pub Request : Type 0
  Request = sv.lib.Doc × Option Bytes × Option Bytes

  unfoldable pub read_request : Bytes → Outcome Request
  read_request request = then_with (or_json (sv.lib.parse request)) λ doc.
      then_with (or_json (sv.lib.get_string_value doc user_path)) λ email.
        then_with (or_json (sv.lib.get_string_value doc pass_path))
          λ password. ok (doc, email, password)

  -- `if (!verify_password(email, password)) throw …HTTP_403`
  pub authorise : Option Bytes → Option Bytes → Exec (State S) (Unit {0})
  unfolding verify_password
  authorise email password = do
    s ← get_state
    verified ← lift (verify_password sv.digest s.user_infos email password)
    require verified (http_error http_403)

  pub forget_user : Option Bytes → Exec (State S) (Unit {0})
  forget_user none s = (err fault, s)
  forget_user (some email) s = (ok tt, record s { user_infos = erase email s.user_infos })

  -- After the password has been verified.
  pub delete_account : Option Bytes → Exec (State S) Bytes
  unfolding forget_user
  delete_account email = do
    s ← get_state
    user ← lift (user_of s.user_infos email)
    deleted ← call (sv.data_store.delete_user user)
    require deleted (http_error http_500)
    forget_user email
    pure account_deleted

  pub handle_delete : Bytes → Exec (State S) Bytes
  unfolding read_request authorise delete_account
  handle_delete request = do
    r ← try (lift (read_request request)) (json_to (http_error http_400))
    let (doc, email, password) = r
    authorise email password
    delete_account email

  -- A null email is verified only against an empty map, and then fails: the store gets a text.
  abbrev pub email_of : Option Bytes → Outcome Bytes
  email_of none = err fault
  email_of (some email) = ok email

  -- The comparison with the store's accounts; `cts` is `current_time_sec()`.
  pub compare_accounts : ℤ → sv.lib.Doc → Bytes → Exec (State S) Bytes
  compare_accounts cts doc email = do
    accounts ← call (sv.data_store.get_accounts_for_user email)
    count ← lift (or_json (sv.lib.get_elements_count doc (codes "accounts")))
    p ← lift (read_rounds sv.lib doc count 0 (accounts, empty_doc cts))
    let (rest, resp_doc) = p
    pure (sv.stringify_sync (send_rest rest resp_doc))

  -- The whole body stands in the `try` block.
  pub handle_sync_initial : ℤ → Bytes → Exec (State S) Bytes
  unfolding read_request authorise compare_accounts
  handle_sync_initial cts request =
      try
        (do
          r ← lift (read_request request)
          let (doc, email, password) = r
          authorise email password
          e ← lift (email_of email)
          compare_accounts cts doc e)
        (json_to (http_error http_400))

  read_sent : sv.lib.Obj → Outcome Sent
  read_sent o = then_with (or_json (sv.lib.get_string_field o (codes "accountName"))) λ name.
      then_with (or_json (sv.lib.get_string_field o (codes "userName"))) λ user_name.
        then_with (or_json (sv.lib.get_string_field o (codes "password"))) λ password.
          then_with (or_json (sv.lib.get_string_field o (codes "oldPassword"))) λ old_password.
            then_with (or_json (sv.lib.get_string_field o (codes "url"))) λ url.
              then_with (or_json (sv.lib.get_long_field o (codes "updateTime"))) λ update_time.
                then_with (or_json (sv.lib.get_bool_field o (codes "deleted"))) λ deleted.
                  ok (record {
                    account_name = name;
                    user_name = user_name;
                    password = password;
                    old_password = old_password;
                    url = url;
                    update_time = update_time;
                    deleted = deleted;
                  })

  -- `while (typ == object)`: the first element that is no object ends the loop.
  pub read_all_sent : List (Option sv.lib.Obj) → Outcome (List Sent)
  unfolding read_sent
  read_all_sent [] = ok []
  read_all_sent (none ∷ rest) = ok []
  read_all_sent (some o ∷ rest) =
      then_with (read_sent o) λ a. then_with (read_all_sent rest) λ accounts. ok (a ∷ accounts)

  unfoldable pub read_final : Bytes → Exec (State S) (Bytes × List Sent)
  unfolding read_request authorise read_all_sent
  read_final request = do
    r ← lift (read_request request)
    let (doc, email, password) = r
    authorise email password
    elements ← lift (or_json (sv.lib.get_array doc (codes "/accounts")))
    accounts ← lift (read_all_sent elements)
    e ← lift (email_of email)
    pure (e, accounts)

  -- The last synchronisation is recorded only if every account was stored.
  pub store_accounts : ℤ → Bytes → List Account → Exec (State S) Bytes
  store_accounts relock_time email accounts = do
    stored ← call (sv.data_store.upsert_accounts_for_user email accounts)
    require stored (http_error http_500)
    updated ← call (sv.data_store.update_last_sync_for_user email relock_time)
    require updated (http_error http_500)
    pure sync_final_resp

  -- A request that does not parse is answered with 403 here.
  unfoldable pub handle_sync_final : ℤ → Bytes → Exec (State S) Bytes
  unfolding read_final store_accounts accounts_of
  handle_sync_final relock_time request = do
    r ← try (read_final request) (json_to (http_error http_403))
    let (email, sent) = r
    accounts ← lift (accounts_of email sent)
    store_accounts relock_time email accounts
