-- ===== src/Service/Safety.antt =====
-- No exception leaves the thread that serves a client, where nothing would catch it.
use sync_server.Base.{
  ◌≢◌, Bool, true, false, Option, none, some, List, [], Bytes, ltb, ltb_ℤ, length, ℤ, pos, pos_part,
  if◌then◌else◌,
}
use sync_server.Exec.{Outcome, ok, err, Exn, reply, text, json, fault}
use sync_server.Exec.Throws.{Only}
use sync_server.Http.{http_200, http_400, keep_alive, close_con, build_reply, build_default_reply}
use sync_server.Handler.State.{State, Server}
use sync_server.Handler.Quiet.{IsQuiet}
use sync_server.Handler.Dispatch.{Now, RequestType, post, get, OperationType, handle_request}
use sync_server.Handler.Dispatch.Exceptions.{IsReply, handle_request-Throws}
use sync_server.Request.{Parsed, parse_header}
use sync_server.Request.Throws.{parse_header-Only}
use sync_server.Request.Receive.{
  Read, Incoming, null, blocked, overflow, received, read_incoming_bytes,
}
use sync_server.Service.Memory.{c_str, embedded}
use sync_server.Service.Thread.{
  Served, terminated, caught, written, refused, bad_request, reply_with, serve_request,
  serve_incoming, serve_post, serve_parsed, serve_header, serve_read, serve,
}

-- No exception ends the server.
abbrev GoesOn : Served → Type 0
GoesOn terminated = ⊥
GoesOn _ = Unit {0}

refused-GoesOn : (r : Option Bytes) → GoesOn (refused r)
refused-GoesOn none = tt
refused-GoesOn (some r) = tt

bad_request-GoesOn : GoesOn bad_request
unfolding bad_request
bad_request-GoesOn = refused-GoesOn (build_default_reply http_400 close_con)

written-GoesOn : (r : Option Bytes) → GoesOn (written r)
written-GoesOn none = tt
written-GoesOn (some r) = tt

caught-GoesOn : (e : Exn) → IsReply e → GoesOn (caught e)
caught-GoesOn (reply r) h = tt
caught-GoesOn (text m) h = h
caught-GoesOn json h = h
caught-GoesOn fault h = tt

module _ {S : Type 0} (sv : Server S) (quiet : IsQuiet sv) (now : Now) where
  reply_with-GoesOn : (r : Outcome Bytes × State S) → Only IsReply r.0 → GoesOn (reply_with sv r).0
  unfolding reply_with
  reply_with-GoesOn (ok m, s) h = written-GoesOn (build_reply http_200 keep_alive (some m))
  reply_with-GoesOn (err e, s) h = caught-GoesOn e h

  handled-GoesOn :
      (op : OperationType) (request : Bytes) (type : RequestType) (s : State S)
      → GoesOn (reply_with sv (handle_request sv now op request type s)).0
  handled-GoesOn op request type s =
      reply_with-GoesOn (handle_request sv now op request type s)
        ((handle_request-Throws sv quiet now op request type).at s)

  if-GoesOn :
      (b : Bool) (x y : Served × State S) → GoesOn x.0 → GoesOn y.0 → GoesOn (if b then x else y).0
  if-GoesOn true x y h k = h
  if-GoesOn false x y h k = k

  serve_request-GoesOn :
      (op : OperationType) (o : Option Bytes) (s : State S) → GoesOn (serve_request sv now op o s).0
  unfolding serve_request
  serve_request-GoesOn op none s = bad_request-GoesOn
  serve_request-GoesOn op (some request) s =
      if-GoesOn (ltb (length request) 2) _ _ bad_request-GoesOn (handled-GoesOn op request post s)

  serve_incoming-GoesOn :
      (op : OperationType) (i : Incoming) (s : State S) → GoesOn (serve_incoming sv now op i s).0
  unfolding serve_incoming
  serve_incoming-GoesOn op null s = serve_request-GoesOn op none s
  serve_incoming-GoesOn op blocked s = tt
  serve_incoming-GoesOn op overflow s = tt
  serve_incoming-GoesOn op (received t) s = serve_request-GoesOn op (some (c_str t)) s

  serve_post-GoesOn :
      (op : OperationType) (n : ℤ) (o : Option Bytes) (second : List Read) (s : State S)
      → GoesOn (serve_post sv now op n o second s).0
  unfolding serve_post
  serve_post-GoesOn op n none second s =
      if-GoesOn (ltb_ℤ n (pos 2)) _ _ bad_request-GoesOn
        (serve_incoming-GoesOn op (read_incoming_bytes (pos_part n) second) s)
  serve_post-GoesOn op n (some embed_json) second s =
      if-GoesOn (ltb_ℤ n (pos 2)) _ _ bad_request-GoesOn
        (serve_request-GoesOn op (some embed_json) s)

  serve_parsed-GoesOn :
      (type : RequestType) (op : OperationType) (n : ℤ) (header : Bytes) (second : List Read)
      (s : State S)
      → GoesOn (serve_parsed sv now type op n header second s).0
  unfolding serve_parsed
  serve_parsed-GoesOn post op n header second s =
      serve_post-GoesOn op n (embedded post header) second s
  serve_parsed-GoesOn get op n header second s = handled-GoesOn op [] get s

  serve_header-GoesOn :
      (header : Bytes) (second : List Read) (r : Outcome (Option Parsed)) (s : State S)
      → Only IsReply r
      → GoesOn (serve_header sv now header second r s).0
  unfolding serve_header
  serve_header-GoesOn header second (err e) s h = caught-GoesOn e h
  serve_header-GoesOn header second (ok none) s h = tt
  serve_header-GoesOn header second (ok (some p)) s h =
      serve_parsed-GoesOn p.request_type p.op_type p.content_length header second s

  serve_read-GoesOn :
      (second : List Read) (i : Incoming) (s : State S) → GoesOn (serve_read sv now second i s).0
  unfolding serve_read
  serve_read-GoesOn second null s = tt
  serve_read-GoesOn second blocked s = tt
  serve_read-GoesOn second overflow s = tt
  serve_read-GoesOn second (received t) s =
      serve_header-GoesOn (c_str t) second (parse_header (c_str t)) s (parse_header-Only (c_str t))

  -- If the store throws no JSON exception, then whatever the connection gives and whatever state the
  -- server is in, no exception leaves the thread that serves a client, which would end the server.
  pub serve_goes_on :
      (session : Bool) (first second : List Read) (s : State S)
      → (serve sv session now first second s).0 ≢ terminated
  unfolding serve
  serve_goes_on true first second s e =
      rw e at (serve_read-GoesOn second (read_incoming_bytes 0 first) s)
  serve_goes_on false first second s e = cc
