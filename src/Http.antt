-- ===== src/Http.antt =====
-- config_http.h and config_http.cpp: the replies that the server writes, and the bytes that it
-- allocates for them.
pub mod Bounds
pub mod Client
mod Tests
use sync_server.Base.{
  ℕ, ◌+◌, Option, none, some, List, [], ◌∷◌, ◌++◌, Bytes, codes, length, ltb, if◌then◌else◌,
}
use sync_server.Base.Decimal.{print_unsigned}

pub data Status : Type 0 where
  http_200 http_400 http_403 http_500 http_503 : Status

pub data Connection : Type 0 where
  keep_alive close_con : Connection

abbrev crlf : Bytes
crlf = 13 ∷ 10 ∷ []

-- HTTP_200_HDR and so on
abbrev status_line : Status → Bytes
status_line http_200 = codes "HTTP/1.1 200 OK" ++ crlf
status_line http_400 = codes "HTTP/1.1 400 Bad Request" ++ crlf
status_line http_403 = codes "HTTP/1.1 403 Forbidden" ++ crlf
status_line http_500 = codes "HTTP/1.1 500 Internal Server Error" ++ crlf
status_line http_503 = codes "HTTP/1.1 503 Service Unavailable" ++ crlf

-- HTTP_400_MSG and so on; there is none for 200
abbrev default_message : Status → Option Bytes
default_message http_200 = none
default_message http_400 = some (codes "{ error: \"Bad Request\" }")
default_message http_403 = some (codes "{ error: \"Unauthorized\" }")
default_message http_500 = some (codes "{ error: \"Internal Server Error\" }")
default_message http_503 = some (codes "{ error: \"Server Busy\" }")

abbrev http_content_type : Bytes
http_content_type = codes "Content-Type: application/json" ++ crlf

-- http_connection_close and http_connection_keep_alive
abbrev connection_line : Connection → Bytes
connection_line close_con = codes "Connection: close" ++ crlf
connection_line keep_alive = codes "Connection: keep-alive" ++ crlf

abbrev http_content_length : Bytes
http_content_length = codes "Content-Length: "

abbrev msg_size : ℕ
msg_size = 166

abbrev strlen_or_zero : Option Bytes → ℕ
strlen_or_zero none = 0
strlen_or_zero (some m) = length m

-- The size that is passed to `malloc`.
pub reply_capacity : Option Bytes → ℕ
reply_capacity msg =
    let msg_l = strlen_or_zero msg in if ltb 0 msg_l then msg_size + msg_l else msg_size + 40

-- The `msg` that is written: status 200 writes what it was given, the others fall back on their own.
pub effective_message : Status → Option Bytes → Option Bytes
effective_message http_200 msg = msg
effective_message status msg = if ltb (strlen_or_zero msg) 1 then default_message status else msg

-- The bytes up to the number behind `Content-Length: `.
abbrev head : Status → Connection → Bytes
head status con =
    status_line status ++ (http_content_type ++ (connection_line con ++ http_content_length))

render : Status → Connection → Bytes → Bytes
render status con msg =
    head status con ++ (print_unsigned (length msg) ++ (13 ∷ 10 ∷ 13 ∷ 10 ∷ msg))

-- `build_reply`; `none` is `strlen(NULL)`.
unfoldable pub build_reply : Status → Connection → Option Bytes → Option Bytes
unfolding render effective_message
build_reply status con msg = elim (effective_message status msg) [
  | none ↦ none
  | some m ↦ some (render status con m)
]

-- The two-argument overload.
unfoldable pub build_default_reply : Status → Connection → Option Bytes
unfolding build_reply
build_default_reply status con = build_reply status con none
