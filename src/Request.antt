-- ===== src/Request.antt =====
-- server.cpp: `verify_request` and `parse_header`, which read the header of a request, and
-- `read_incoming_bytes`, which reads it from the connection.
pub mod Receive
pub mod Render
pub mod Routes
pub mod Throws
mod Tests
use sync_server.Base.{
  ℕ, zero, suc, Bool, ◌&&◌, ◌||◌, Option, none, some, Bytes, codes, beq, ℤ, pos, if◌then◌else◌,
  length,
}
use sync_server.Base.Decimal.{atoi}
use sync_server.Base.Tokens.{strtok}
use sync_server.Exec.{Outcome, ok, err, fault, http_error, then_with}
use sync_server.Http.{http_400}
use sync_server.Handler.Dispatch.{
  RequestType, post, get, OperationType, register_config, delete_user, sync_initial, sync_final,
}

-- REGISTER_CONFIG, DELETE_USER, SYNC_INITIAL and SYNC_FINAL (Config.h)
abbrev pub path : OperationType → Bytes
path register_config = codes "/PassvaultServiceRegistration/service/registerV1/sync-server"
path delete_user = codes "/PassvaultServiceRegistration/service/deleteAccount/sync-server"
path sync_initial = codes "/PassvaultServiceRegistration/service/sync-accounts/sync-initial"
path sync_final = codes "/PassvaultServiceRegistration/service/sync-accounts/sync-final"

pub post_operation : Bytes → Outcome (RequestType × OperationType)
unfolding beq
post_operation operation =
    if beq operation (path register_config)
    then ok (post, register_config)
    else if beq operation (path delete_user)
    then ok (post, delete_user)
    else if beq operation (path sync_initial)
    then ok (post, sync_initial)
    else if beq operation (path sync_final)
    then ok (post, sync_final)
    else err (http_error http_400)

-- It never returns false: every other request is thrown out with 400.
pub verify_request : Bytes → Bytes → Outcome (RequestType × OperationType)
unfolding post_operation
verify_request method operation =
    if beq method (codes "POST")
    then post_operation operation
    else if beq method (codes "GET") && beq operation (path register_config)
    then ok (get, register_config)
    else err (http_error http_400)

abbrev pub is_content_length : Bytes → Bool
is_content_length word = beq word (codes "Content-Length:") || beq word (codes "content-length:")

as_length : Option ℤ → Outcome ℤ
as_length none = err fault
as_length (some n) = ok n

-- The second word of the line; `rest` is what the loop goes on with where there is none.
unfoldable pub value_of : Option (Bytes × Bytes) → Outcome ℤ → Outcome ℤ
unfolding as_length atoi
value_of none rest = rest
value_of (some (value, more)) rest = as_length (atoi value)

unfoldable pub length_in : Option (Bytes × Bytes) → Outcome ℤ → Outcome ℤ
unfolding value_of strtok
length_in none rest = rest
length_in (some (word, more)) rest =
    if is_content_length word then value_of (strtok b' ' more) rest else rest

-- The loop over the lines that are left, which leaves `contentLength` as it is if no line gives it.
pub read_length : ℕ → Bytes → ℤ → Outcome ℤ
unfolding length_in strtok
read_length zero s content_length = ok content_length
read_length (suc fuel) s content_length = elim (strtok b'\n' s) [
  | none ↦ ok content_length
  | some (line, more) ↦ length_in (strtok b' ' line) (read_length fuel more content_length)
]

-- What `parse_header` writes to its reference parameters.
pub record Parsed : Type 0 where
  pub request_type : RequestType
  pub op_type : OperationType
  pub content_length : ℤ

-- Each line takes a byte at least, so that the length of the text is fuel enough.
pub content_length_of : RequestType → Bytes → Outcome ℤ
unfolding read_length
content_length_of post lines = read_length (length lines) lines (pos 0)
content_length_of get lines = ok (pos 0)

-- From the first line's two words on.
pub header_of : Bytes → Bytes → Bytes → Outcome (Option Parsed)
unfolding verify_request content_length_of
header_of method operation lines = then_with (verify_request method operation) λ (type, op).
    then_with (content_length_of type lines)
      λ n. ok (some (record { request_type = type; op_type = op; content_length = n }))

second_word : Bytes → Option (Bytes × Bytes) → Bytes → Outcome (Option Parsed)
unfolding header_of
second_word method none lines = ok none
second_word method (some (operation, more)) lines = header_of method operation lines

pub first_word : Option (Bytes × Bytes) → Bytes → Outcome (Option Parsed)
unfolding second_word strtok
first_word none lines = ok none
first_word (some (method, more)) lines = second_word method (strtok b' ' more) lines

-- `none` is `return false`.
unfoldable pub parse_header : Bytes → Outcome (Option Parsed)
unfolding first_word strtok
parse_header header = elim (strtok b'\n' header) [
  | none ↦ ok none
  | some (line, lines) ↦ first_word (strtok b' ' line) lines
]
