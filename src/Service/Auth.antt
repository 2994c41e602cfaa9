-- ===== src/Service/Auth.antt =====
-- A request without the password, from the bytes of the connection to the answer.
use sync_server.Base.{◌≡◌, ◌≢◌, refl, ◌∙◌, true, false, Option, List, Bytes}
use sync_server.Exec.{ok, err, http_error}
use sync_server.Http.{http_403, close_con, build_default_reply}
use sync_server.Handler.State.{State, Server, text_to-http_error}
use sync_server.Handler.Password.{verify_password}
use sync_server.Handler.Accounts.{read_request}
use sync_server.Handler.Accounts.Auth.{refused_without_password}
use sync_server.Handler.Dispatch.{
  Now, post, OperationType, register_config, delete_user, sync_initial, sync_final, dispatch,
  handle_request,
}
use sync_server.Request.Receive.{Read}
use sync_server.Service.Whole.{Sent, serve_sent}
use sync_server.Service.Thread.{refused, reply_with, serve}

module _ {S : Type 0} (sv : Server S) (now : Now) (request : Bytes) (doc : sv.lib.Doc)
    (email password : Option Bytes) (s : State S)
    (parsed : read_request sv request ≡ ok (doc, email, password))
    (wrong : verify_password sv.digest s.user_infos email password ≡ ok false) where
  handle_request-refused :
      (op : OperationType)
      → op ≢ register_config
      → handle_request sv now op request post s ≡ (err (http_error http_403), s)
  unfolding handle_request dispatch
  handle_request-refused register_config other = absurd (other refl)
  handle_request-refused delete_user other =
      rw ((refused_without_password sv request doc email password s parsed now.sec wrong).0)
        (rw text_to-http_error refl)
  handle_request-refused sync_initial other =
      rw ((refused_without_password sv request doc email password s parsed now.sec wrong).1)
        (rw text_to-http_error refl)
  handle_request-refused sync_final other =
      rw ((refused_without_password sv request doc email password s parsed now.sec wrong).2)
        (rw text_to-http_error refl)

  refused_reply :
      (op : OperationType)
      → op ≢ register_config
      → reply_with sv (handle_request sv now op request post s)
        ≡ (refused (build_default_reply http_403 close_con), s)
  unfolding reply_with http_error build_default_reply
  refused_reply op other = rw (handle_request-refused op other) refl

  -- A post to delete or to synchronise whose password is wrong, or whose user is not known, and whose
  -- JSON comes with the header or after it, is answered with 403 and closed; neither the map of users
  -- nor the store changes.
  pub serve_without_password :
      (op : OperationType) (first second : List Read)
      → op ≢ register_config
      → Sent op request first second
      → serve sv true now first second s ≡ (refused (build_default_reply http_403 close_con), s)
  serve_without_password op first second other sent =
      serve_sent sv now op request first second s sent ∙ refused_reply op other
