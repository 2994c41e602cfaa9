-- ===== src/Handler/Dispatch/Exceptions.antt =====
-- What leaves `handle_request` as an exception.
use sync_server.Base.{Bytes, Option, none, some}
use sync_server.Exec.{Exn, reply, text, json, fault, thrown, http_error}
use sync_server.Exec.Throws.{Throws, Throws-try, Throws-pure}
use sync_server.Http.{Status, http_500}
use sync_server.Handler.State.{Server, text_to}
use sync_server.Handler.Quiet.{NotJson, IsQuiet}
use sync_server.Handler.Register.{handle_config}
use sync_server.Handler.Register.Throws.{handle_register-Throws}
use sync_server.Handler.Accounts.Throws.{
  handle_delete-Throws, handle_sync_initial-Throws, handle_sync_final-Throws,
}
use sync_server.Handler.Dispatch.{
  Now, OperationType, RequestType, dispatch, handle_request, register_config, delete_user,
  sync_initial, sync_final, post, get,
}

-- A `register_server_exception`, or no defined behaviour.
abbrev pub IsReply : Exn → Type 0
IsReply (reply r) = Unit {0}
IsReply fault = Unit {0}
IsReply _ = ⊥

IsReply-thrown : (r : Option Bytes) → IsReply (thrown r)
IsReply-thrown none = tt
IsReply-thrown (some r) = tt

pub IsReply-http_error : (s : Status) → IsReply (http_error s)
unfolding http_error
IsReply-http_error s = IsReply-thrown _

IsReply-text_to : (s : Status) (e : Exn) → NotJson e → IsReply (text_to (http_error s) e)
IsReply-text_to s (reply r) h = tt
IsReply-text_to s (text m) h = IsReply-http_error s
IsReply-text_to s json h = h
IsReply-text_to s fault h = tt

module _ {S : Type 0} (sv : Server S) (quiet : IsQuiet sv) where
  dispatch-Throws :
      (now : Now) (op_type : OperationType) (request : Bytes) (http_type : RequestType)
      → Throws NotJson (dispatch sv now op_type request http_type)
  unfolding dispatch handle_config
  dispatch-Throws now register_config request post = handle_register-Throws sv quiet now.ms request
  dispatch-Throws now register_config request get = Throws-pure _
  dispatch-Throws now delete_user request http_type = handle_delete-Throws sv quiet request
  dispatch-Throws now sync_initial request http_type =
      handle_sync_initial-Throws sv quiet now.sec request
  dispatch-Throws now sync_final request http_type =
      handle_sync_final-Throws sv quiet now.sec request

  -- If the store throws no `jsonP_exception`, then whatever the request, `handle_request` returns a
  -- reply, or throws a `register_server_exception`, which the service thread catches, or has no
  -- defined behaviour: no `const char *` and no `jsonP_exception` leaves it.
  pub handle_request-Throws :
      (now : Now) (op_type : OperationType) (request : Bytes) (http_type : RequestType)
      → Throws IsReply (handle_request sv now op_type request http_type)
  unfolding handle_request
  handle_request-Throws now op_type request http_type =
      Throws-try _ _ (IsReply-text_to http_500) (dispatch-Throws now op_type request http_type)
