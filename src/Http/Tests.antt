-- ===== src/Http/Tests.antt =====
-- Replies at concrete inputs.
use sync_server.Base.{◌≡◌, refl, none, some, codes, length, ◌≤◌, ◌+◌, Bytes, true, pos, arith}
use sync_server.Http.{
  http_200, http_503, keep_alive, close_con, build_reply, build_default_reply, render,
  reply_capacity, effective_message,
}
use sync_server.Http.Bounds.{build_reply_fits}
use sync_server.Http.Client.{read_reply, read_reply-build_reply}

null_message_crashes : build_default_reply http_200 keep_alive ≡ none
unfolding build_default_reply
null_message_crashes = refl

server_busy :
    build_default_reply http_503 close_con
    ≡ some (render http_503 close_con (codes "{ error: \"Server Busy\" }"))
unfolding build_default_reply
server_busy = refl

server_busy_reply :
    build_reply http_503 close_con none
    ≡ some (render http_503 close_con (codes "{ error: \"Server Busy\" }"))
unfolding build_reply
server_busy_reply = refl

given : effective_message http_200 (some (codes "{}")) ≡ some (codes "{}")
unfolding effective_message
given = refl

build_reply_fits_example :
    length (render http_503 close_con (codes "{ error: \"Server Busy\" }")) + 1
    ≤ reply_capacity none
build_reply_fits_example = build_reply_fits http_503 close_con none _ server_busy_reply

read_reply-build_reply_example :
    (r : Bytes) × (build_reply http_200 keep_alive (some (codes "{}")) ≡ some r)
    × (read_reply r
        ≡ some (record {
          code = some (pos 200);
          keeps_open = true;
          content_length = some (pos 2);
          body = codes "{}";
        }))
read_reply-build_reply_example =
    read_reply-build_reply http_200 keep_alive (some (codes "{}")) (codes "{}") given (omega arith)
