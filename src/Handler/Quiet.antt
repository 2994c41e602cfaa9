-- ===== src/Handler/Quiet.antt =====
-- Exceptions that are no `jsonP_exception`, and stores that throw none.
use sync_server.Base.{Option, none, some, List, Bytes, ℤ}
use sync_server.Exec.{
  Exn, reply, text, json, fault, thrown, Exec, http_error, http_error_with, get_state,
}
use sync_server.Exec.Throws.{Throws}
use sync_server.Http.{Status}
use sync_server.Store.{User, Account}
use sync_server.Handler.State.{Server, call, json_to}

abbrev pub NotJson : Exn → Type 0
NotJson json = ⊥
NotJson _ = Unit {0}

NotJson-thrown : (r : Option Bytes) → NotJson (thrown r)
NotJson-thrown none = tt
NotJson-thrown (some r) = tt

pub NotJson-http_error : (s : Status) → NotJson (http_error s)
unfolding http_error
NotJson-http_error s = NotJson-thrown _

pub NotJson-http_error_with : (s : Status) (m : Bytes) → NotJson (http_error_with s m)
unfolding http_error_with
NotJson-http_error_with s m = NotJson-thrown _

-- `catch (jsonP_exception &)` lets no `jsonP_exception` through.
pub NotJson-json_to : (s : Status) (e : Exn) → Unit {0} → NotJson (json_to (http_error s) e)
NotJson-json_to s (reply m) h = tt
NotJson-json_to s (text m) h = tt
NotJson-json_to s json h = NotJson-http_error s
NotJson-json_to s fault h = tt

pub Throws-get_state {ℓ} : {S : Type ℓ} {P : Exn → Type 0} → Throws P (get_state {S = S})
Throws-get_state = record { at = λ s. tt }

pub Throws-call : {S A : Type 0} {P : Exn → Type 0} (m : Exec S A) → Throws P m → Throws P (call m)
Throws-call m h = record { at = λ s. h.at s.store }

pub ruleset quiet_rules =
    (NotJson-http_error, NotJson-http_error_with, Throws-get_state, Throws-call)

-- A store throws `const char *` and no `jsonP_exception`: it does not use the JSON library.
pub record IsQuiet {S : Type 0} (sv : Server S) : Type 0 where
  pub creates : (u : User) → Throws NotJson (sv.data_store.create_user u)
  pub deletes : (u : User) → Throws NotJson (sv.data_store.delete_user u)
  pub upserts :
      (e : Bytes) (l : List Account) → Throws NotJson (sv.data_store.upsert_accounts_for_user e l)
  pub updates : (e : Bytes) (t : ℤ) → Throws NotJson (sv.data_store.update_last_sync_for_user e t)
