-- ===== src/Handler/Register.antt =====
-- `handle_register` and `handle_config`.
pub mod Outcomes
pub mod Throws
use sync_server.Base.{
  Bool, true, false, not, Option, none, some, [], ◌∷◌, Bytes, codes, ℤ, pos, if◌then◌else◌,
}
use sync_server.Email.{verify_email}
use sync_server.Exec.{
  Outcome, ok, err, Exn, fault, Exec, http_error, http_error_with, pure, raise, lift, try,
  get_state, ◌>>=◌, ◌>>◌, require,
}
use sync_server.Http.{http_400, http_500}
use sync_server.Json.{or_json}
use sync_server.Map.{Map, get, contains, put, erase}
use sync_server.Password.{hash_password}
use sync_server.Store.{User}
use sync_server.Handler.State.{
  UserInfo, State, ConfigDoc, Server, call, email_path, pass_path, json_to,
}

abbrev invalid_email : Bytes
invalid_email = codes "{ error: \"Invalid Email\" }"

abbrev non_null : Option Bytes → Outcome Bytes
non_null none = err fault
non_null (some p) = ok p

-- A hash that fails leaves `hashedPassword` as it was on the stack, and `User` reads it.
abbrev hash_result : Option Bytes → Outcome Bytes
hash_result none = err fault
hash_result (some h) = ok h

module _ {S : Type 0} (sv : Server S) where
  -- The document that tells a client where to synchronise.
  pub config_doc : Bytes → Bytes → ConfigDoc
  config_doc email password = record {
    bucket = codes "PassvaultServiceRegistration/service/sync-accounts";
    port = sv.config.bind_port;
    protocol = codes "https";
    user_name = email;
    password = password;
    server = sv.config.bind_address;
  }

  unfoldable pub handle_config : Exec (State S) Bytes
  unfolding config_doc
  handle_config = pure (sv.stringify_config (config_doc (codes "xxx@xxx.com") (codes "xxx")))

  unfoldable pub read_register : Bytes → Exec (State S) (Option Bytes × Option Bytes)
  read_register request = do
    doc ← lift (or_json (sv.lib.parse request))
    email ← lift (or_json (sv.lib.get_string_value doc email_path))
    password ← lift (or_json (sv.lib.get_string_value doc pass_path))
    pure (email, password)

  pub hashed : Bytes → Outcome Bytes
  hashed password = hash_result (hash_password sv.digest password)

  -- `user_infos[user.account_uuid] = User_info{user, current_t}`
  pub add_user : User → ℤ → Exec (State S) (Unit {0})
  add_user user now s = (
    ok tt,
    record s {
      user_infos =
          put user.account_uuid (record { user = user; lock_time = now; cv_vector = [] })
            s.user_infos;
    },
  )

  pub remove_user : Bytes → Exec (State S) (Unit {0})
  remove_user id s = (ok tt, record s { user_infos = erase id s.user_infos })

  -- The check for the account, its entry in the map, and its creation in the store.
  pub create_account : User → ℤ → Exec (State S) (Unit {0})
  unfolding add_user remove_user
  create_account user now = do
    s ← get_state
    require (not (contains user.account_uuid s.user_infos)) (http_error http_500)
    add_user user now
    created ← call (sv.data_store.create_user user)
    if created then pure tt else do remove_user user.account_uuid; raise (http_error http_500)

  register_with : ℤ → Bytes → Bytes → Exec (State S) Bytes
  unfolding create_account hashed config_doc
  register_with now email password = do
    hash ← lift (hashed password)
    create_account
        (record { account_uuid = email; account_password = hash; account_last_sync = pos 1 }) now
    pure (sv.stringify_config (config_doc email password))

  -- `now` is `current_time_ms()`.
  pub handle_register : ℤ → Bytes → Exec (State S) Bytes
  unfolding read_register register_with
  handle_register now request = do
    (e, p) ← try (read_register request) (json_to (http_error http_400))
    email ← lift (non_null e)
    require (verify_email email) (http_error_with http_400 invalid_email)
    password ← lift (non_null p)
    register_with now email password
