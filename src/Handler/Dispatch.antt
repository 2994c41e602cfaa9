-- ===== src/Handler/Dispatch.antt =====
-- `handle_request`.
pub mod Exceptions
use sync_server.Base.{Bytes, ℤ}
use sync_server.Exec.{Exec, http_error, try}
use sync_server.Http.{http_500}
use sync_server.Handler.State.{State, Server, text_to}
use sync_server.Handler.Register.{handle_register, handle_config}
use sync_server.Handler.Accounts.{handle_delete, handle_sync_initial, handle_sync_final}

-- `request_type` and `operation_type` (Config.h)
pub data RequestType : Type 0 where
  post get : RequestType

pub data OperationType : Type 0 where
  register_config delete_user sync_initial sync_final : OperationType

-- What the clock shows to a handler: milliseconds to a registration, seconds to a synchronisation.
pub record Now : Type 0 where
  pub ms : ℤ
  pub sec : ℤ

module _ {S : Type 0} (sv : Server S) where
  -- Every value of `operation_type` has its branch, so that the last `else` is never taken.
  unfoldable pub dispatch : Now → OperationType → Bytes → RequestType → Exec (State S) Bytes
  dispatch now register_config request post = handle_register sv now.ms request
  dispatch now register_config request get = handle_config sv
  dispatch now delete_user request http_type = handle_delete sv request
  dispatch now sync_initial request http_type = handle_sync_initial sv now.sec request
  dispatch now sync_final request http_type = handle_sync_final sv now.sec request

  unfoldable pub handle_request : Now → OperationType → Bytes → RequestType → Exec (State S) Bytes
  unfolding dispatch
  handle_request now op_type request http_type =
      try (dispatch now op_type request http_type) (text_to (http_error http_500))
