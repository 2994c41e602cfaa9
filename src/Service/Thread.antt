-- ===== src/Service/Thread.antt =====
-- One round of the loop of `service_thread` (server.cpp), from the handshake to the reply. What
-- `SSL_read` returns while the header is read, and while the rest is, are arguments.
use sync_server.Base.{
  Bool, Option, none, some, List, Bytes, ℤ, pos, pos_part, ltb, ltb_ℤ, length, [], if◌then◌else◌,
}
use sync_server.Exec.{Outcome, ok, err, Exn, reply, text, json, fault}
use sync_server.Http.{http_200, http_400, keep_alive, close_con, build_reply, build_default_reply}
use sync_server.Handler.State.{State, Server}
use sync_server.Handler.Dispatch.{Now, RequestType, post, get, OperationType, handle_request}
use sync_server.Request.{Parsed, parse_header}
use sync_server.Request.Receive.{
  Read, Incoming, null, blocked, overflow, received, read_incoming_bytes,
}
use sync_server.Service.Memory.{c_str, embedded}

-- What becomes of the client. `answered` and `silent` put it back, `closed` closes it, with what was
-- written before; `waiting` waits for the network, `undefined` has no defined behaviour, and
-- `terminated` is an exception that nothing catches.
pub data Served : Type 0 where
  answered : Bytes → Served
  silent : Served
  closed : Option Bytes → Served
  waiting undefined terminated : Served

-- `catch (register_server_exception &ex)`
abbrev pub caught : Exn → Served
caught (reply r) = closed (some r)
caught (text m) = terminated
caught json = terminated
caught fault = undefined

-- `none` is `strlen(NULL)`.
abbrev pub written : Option Bytes → Served
written none = undefined
written (some r) = answered r

abbrev pub refused : Option Bytes → Served
refused none = undefined
refused (some r) = closed (some r)

unfoldable pub bad_request : Served
unfolding build_default_reply
bad_request = refused (build_default_reply http_400 close_con)

module _ {S : Type 0} (sv : Server S) where
  unfoldable pub reply_with : Outcome Bytes × State S → Served × State S
  unfolding build_reply
  reply_with (ok m, s) = (written (build_reply http_200 keep_alive (some m)), s)
  reply_with (err e, s) = (caught e, s)

  -- `request`, which is `NULL` or shorter than two bytes, or is handled.
  unfoldable pub serve_request : Now → OperationType → Option Bytes → State S → Served × State S
  unfolding reply_with bad_request handle_request
  serve_request now op_type none s = (bad_request, s)
  serve_request now op_type (some request) s =
      if ltb (length request) 2
      then (bad_request, s)
      else reply_with (handle_request sv now op_type request post s)

  -- The rest of the request is read from the connection.
  unfoldable pub serve_incoming : Now → OperationType → Incoming → State S → Served × State S
  unfolding serve_request c_str
  serve_incoming now op_type null s = serve_request now op_type none s
  serve_incoming now op_type blocked s = (waiting, s)
  serve_incoming now op_type overflow s = (undefined, s)
  serve_incoming now op_type (received t) s = serve_request now op_type (some (c_str t)) s

  unfoldable pub serve_post :
      Now → OperationType → ℤ → Option Bytes → List Read → State S → Served × State S
  unfolding serve_request serve_incoming read_incoming_bytes bad_request
  serve_post now op_type content_length (some embed_json) second s =
      if ltb_ℤ content_length (pos 2)
      then (bad_request, s)
      else serve_request now op_type (some embed_json) s
  serve_post now op_type content_length none second s =
      if ltb_ℤ content_length (pos 2)
      then (bad_request, s)
      else serve_incoming now op_type (read_incoming_bytes (pos_part content_length) second) s

  unfoldable pub serve_parsed :
      Now → RequestType → OperationType → ℤ → Bytes → List Read → State S → Served × State S
  unfolding serve_post embedded reply_with handle_request
  serve_parsed now post op_type content_length header second s =
      serve_post now op_type content_length (embedded post header) second s
  serve_parsed now get op_type content_length header second s =
      reply_with (handle_request sv now op_type [] get s)

  unfoldable pub serve_header :
      Now → Bytes → List Read → Outcome (Option Parsed) → State S → Served × State S
  unfolding serve_parsed
  serve_header now header second (err e) s = (caught e, s)
  serve_header now header second (ok none) s = (silent, s)
  serve_header now header second (ok (some p)) s =
      serve_parsed now p.request_type p.op_type p.content_length header second s

  unfoldable pub serve_read : Now → List Read → Incoming → State S → Served × State S
  unfolding serve_header parse_header c_str
  serve_read now second null s = (closed none, s)
  serve_read now second blocked s = (waiting, s)
  serve_read now second overflow s = (undefined, s)
  serve_read now second (received t) s =
      serve_header now (c_str t) second (parse_header (c_str t)) s

  -- The flag says whether there is a session, or the handshake gives one.
  unfoldable pub serve : Bool → Now → List Read → List Read → State S → Served × State S
  unfolding serve_read read_incoming_bytes
  serve session now first second s =
      if session then serve_read now second (read_incoming_bytes 0 first) s else (closed none, s)
