-- ===== src/Handler/Accounts/Auth.antt =====
-- No account is read or written, and no user removed, without the password.
use sync_server.Base.{◌≡◌, false, Option, Bytes, ℤ}
use sync_server.Exec.{ok, err, http_error}
use sync_server.Http.{http_403}
use sync_server.Handler.State.{State, Server, json_to-http_error}
use sync_server.Handler.Password.{verify_password}
use sync_server.Handler.Accounts.{
  read_request, handle_delete, handle_sync_initial, handle_sync_final,
}

module _ {S : Type 0} (sv : Server S) (request : Bytes) (doc : sv.lib.Doc)
    (email password : Option Bytes) (s : State S)
    (parsed : read_request sv request ≡ ok (doc, email, password)) where
  -- A request to delete or to synchronise whose password is wrong, or whose user is not known, is
  -- answered with 403, and changes neither the map of users nor the store.
  pub refused_without_password :
      (now : ℤ)
      → verify_password sv.digest s.user_infos email password ≡ ok false
      → (handle_delete sv request s ≡ (err (http_error http_403), s))
        × (handle_sync_initial sv now request s ≡ (err (http_error http_403), s))
        × (handle_sync_final sv now request s ≡ (err (http_error http_403), s))
  unfolding handle_delete handle_sync_initial handle_sync_final
  refused_without_password now wrong = (
    rw (parsed, handle_delete) (rw wrong),
    rw (parsed, handle_sync_initial) (rw wrong (rw json_to-http_error)),
    rw (parsed, handle_sync_final) (rw wrong (rw json_to-http_error)),
  )
