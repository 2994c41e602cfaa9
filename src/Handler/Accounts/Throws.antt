-- ===== src/Handler/Accounts/Throws.antt =====
-- The requests on accounts throw no `jsonP_exception`.
use sync_server.Base.{Option, none, some, List, [], ◌∷◌, Bytes, ℤ}
use sync_server.Exec.{Outcome, ok, err, http_error, lift, try, then_with}
use sync_server.Exec.Throws.{Only, Throws, Throws-try, Throws-all, throws_rules}
use sync_server.Http.{http_400, http_403}
use sync_server.Map.{Map}
use sync_server.Store.{Account}
use sync_server.Handler.State.{UserInfo, State, Server, json_to}
use sync_server.Handler.Password.{verify_password-Only}
use sync_server.Handler.Quiet.{NotJson, quiet_rules, IsQuiet, NotJson-json_to}
use sync_server.Handler.Accounts.{
  Sent, read_request, authorise, found_user, user_of, forget_user, delete_account, handle_delete,
  handle_sync_initial, accounts_of, account_of, or_fault, read_final, store_accounts,
  handle_sync_final,
}

Only-then_with {ℓ κ} :
    {A : Type ℓ} {B : Type κ} (r : Outcome A) (f : A → Outcome B)
    → Only NotJson r
    → ((a : A) → Only NotJson (f a))
    → Only NotJson (then_with r f)
Only-then_with (ok a) f h k = k a
Only-then_with (err e) f h k = h

or_fault-Only {ℓ} : {A : Type ℓ} (o : Option A) → Only NotJson (or_fault o)
or_fault-Only none = tt
or_fault-Only (some a) = tt

account_of-Only : (e : Bytes) (a : Sent) → Only NotJson (account_of e a)
account_of-Only e a = Only-then_with _ _ (or_fault-Only a.account_name) λ _.
    Only-then_with _ _ (or_fault-Only a.user_name) λ _.
      Only-then_with _ _ (or_fault-Only a.password) λ _.
        Only-then_with _ _ (or_fault-Only a.old_password)
          λ _. Only-then_with _ _ (or_fault-Only a.url) λ _. tt

accounts_of-Only : (e : Bytes) (l : List Sent) → Only NotJson (accounts_of e l)
unfolding accounts_of
accounts_of-Only e [] = tt
accounts_of-Only e (a ∷ l) =
    Only-then_with _ _ (account_of-Only e a) λ _. Only-then_with _ _ (accounts_of-Only e l) λ _. tt

found-Only : (o : Option UserInfo) → Only NotJson (found_user o)
found-Only none = tt
found-Only (some i) = tt

user_of-Only : (m : Map UserInfo) (e : Option Bytes) → Only NotJson (user_of m e)
unfolding user_of
user_of-Only m none = tt
user_of-Only m (some e) = found-Only _

module _ {S : Type 0} (sv : Server S) (quiet : IsQuiet sv) where
  authorise-Throws : (e p : Option Bytes) → Throws NotJson (authorise sv e p)
  unfolding authorise
  authorise-Throws e p = search (throws_rules, quiet_rules, verify_password-Only sv.digest) depth 10

  forget_user-Throws : (e : Option Bytes) → Throws NotJson (forget_user sv e)
  unfolding forget_user
  forget_user-Throws none = record { at = λ s. tt }
  forget_user-Throws (some e) = record { at = λ s. tt }

  delete_account-Throws : (e : Option Bytes) → Throws NotJson (delete_account sv e)
  unfolding delete_account
  delete_account-Throws e =
      search (throws_rules, quiet_rules, quiet.deletes, user_of-Only, forget_user-Throws) depth 14

  read-Throws :
      (request : Bytes)
      → Throws {S = State S} NotJson
          (try (lift (read_request sv request)) (json_to (http_error http_400)))
  read-Throws request = Throws-try _ _ (NotJson-json_to http_400) (Throws-all _)

  pub handle_delete-Throws : (request : Bytes) → Throws NotJson (handle_delete sv request)
  unfolding handle_delete
  handle_delete-Throws request =
      search (throws_rules, read-Throws, authorise-Throws, delete_account-Throws) depth 10

  pub handle_sync_initial-Throws :
      (now : ℤ) (request : Bytes) → Throws NotJson (handle_sync_initial sv now request)
  unfolding handle_sync_initial
  handle_sync_initial-Throws now request = Throws-try _ _ (NotJson-json_to http_400) (Throws-all _)

  read_final-Throws :
      (request : Bytes)
      → Throws NotJson (try (read_final sv request) (json_to (http_error http_403)))
  read_final-Throws request = Throws-try _ _ (NotJson-json_to http_403) (Throws-all _)

  store_accounts-Throws :
      (now : ℤ) (e : Bytes) (l : List Account) → Throws NotJson (store_accounts sv now e l)
  unfolding store_accounts
  store_accounts-Throws now e l =
      search (throws_rules, quiet_rules, quiet.upserts, quiet.updates) depth 14

  pub handle_sync_final-Throws :
      (now : ℤ) (request : Bytes) → Throws NotJson (handle_sync_final sv now request)
  unfolding handle_sync_final
  handle_sync_final-Throws now request =
      search (throws_rules, read_final-Throws, accounts_of-Only, store_accounts-Throws) depth 10
