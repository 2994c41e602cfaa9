-- ===== src/Handler/Register/Throws.antt =====
-- `handle_register` throws no `jsonP_exception`.
use sync_server.Base.{Option, none, some, Bytes, ℤ}
use sync_server.Exec.{http_error, try}
use sync_server.Exec.Throws.{Only, Throws, Throws-try, Throws-all, throws_rules}
use sync_server.Http.{http_400}
use sync_server.Password.{hash_password}
use sync_server.Store.{User}
use sync_server.Handler.State.{Server, json_to}
use sync_server.Handler.Quiet.{NotJson, quiet_rules, IsQuiet, NotJson-json_to}
use sync_server.Handler.Register.{
  handle_register, read_register, register_with, create_account, hash_result, hashed, non_null,
  add_user, remove_user,
}

hash_case : (o : Option Bytes) → Only NotJson (hash_result o)
hash_case none = tt
hash_case (some h) = tt

non_null-Only : (o : Option Bytes) → Only NotJson (non_null o)
non_null-Only none = tt
non_null-Only (some p) = tt

module _ {S : Type 0} (sv : Server S) (quiet : IsQuiet sv) where
  read-Throws :
      (request : Bytes)
      → Throws NotJson (try (read_register sv request) (json_to (http_error http_400)))
  read-Throws request = Throws-try _ _ (NotJson-json_to http_400) (Throws-all _)

  add_user-Throws : (u : User) (now : ℤ) → Throws NotJson (add_user sv u now)
  unfolding add_user
  add_user-Throws u now = record { at = λ s. tt }

  remove_user-Throws : (id : Bytes) → Throws NotJson (remove_user sv id)
  unfolding remove_user
  remove_user-Throws id = record { at = λ s. tt }

  create_account-Throws : (u : User) (now : ℤ) → Throws NotJson (create_account sv u now)
  unfolding create_account
  create_account-Throws u now =
      search (throws_rules, quiet_rules, quiet.creates, add_user-Throws, remove_user-Throws) depth
        12

  hashed-Only : (p : Bytes) → Only NotJson (hashed sv p)
  unfolding hashed
  hashed-Only p = hash_case (hash_password sv.digest p)

  register_with-Throws : (now : ℤ) (e p : Bytes) → Throws NotJson (register_with sv now e p)
  unfolding register_with
  register_with-Throws now e p = search (throws_rules, hashed-Only, create_account-Throws)

  pub handle_register-Throws :
      (now : ℤ) (request : Bytes) → Throws NotJson (handle_register sv now request)
  unfolding handle_register
  handle_register-Throws now request =
      search (throws_rules, quiet_rules, read-Throws, non_null-Only, register_with-Throws) depth 14
