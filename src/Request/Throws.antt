-- ===== src/Request/Throws.antt =====
-- What leaves `parse_header` as an exception.
use sync_server.Base.{
  ℕ, zero, suc, Bool, true, false, Option, none, some, Bytes, length, ℤ, pos, if◌then◌else◌,
  Option-cases, inl, inr,
}
use sync_server.Base.Tokens.{strtok}
use sync_server.Base.Decimal.{atoi}
use sync_server.Exec.{Outcome, ok, err, then_with}
use sync_server.Exec.Throws.{Only}
use sync_server.Http.{http_400}
use sync_server.Handler.Dispatch.{RequestType, post, get, OperationType}
use sync_server.Handler.Dispatch.Exceptions.{IsReply, IsReply-http_error}
use sync_server.Request.{
  parse_header, verify_request, read_length, length_in, value_of, header_of, content_length_of,
  first_word, second_word, is_content_length, as_length,
}
use sync_server.Request.Routes.{Answered, verify_request-Answered}

as_length-Only : (o : Option ℤ) → Only IsReply (as_length o)
unfolding as_length
as_length-Only none = tt
as_length-Only (some n) = tt

value_of-Only :
    (o : Option (Bytes × Bytes)) (r : Outcome ℤ) → Only IsReply r → Only IsReply (value_of o r)
unfolding value_of
value_of-Only none r h = h
value_of-Only (some (value, more)) r h = as_length-Only (atoi value)

Only-if :
    {A : Type 0} (b : Bool) (x y : Outcome A)
    → Only IsReply x
    → Only IsReply y
    → Only IsReply (if b then x else y)
Only-if true x y h k = h
Only-if false x y h k = k

length_in-Only :
    (o : Option (Bytes × Bytes)) (r : Outcome ℤ) → Only IsReply r → Only IsReply (length_in o r)
unfolding length_in
length_in-Only none r h = h
length_in-Only (some (word, more)) r h =
    Only-if (is_content_length word) (value_of (strtok b' ' more) r) r
      (value_of-Only (strtok b' ' more) r h) h

read_length-Only : (fuel : ℕ) (s : Bytes) (n : ℤ) → Only IsReply (read_length fuel s n)
unfolding read_length
read_length-Only zero s n = tt
read_length-Only (suc fuel) s n = elim (Option-cases (strtok b'\n' s)) [
  | inl e ↦ rw (e, read_length) tt
  | inr ((line, more), e) ↦
      rw (e, read_length)
        (length_in-Only (strtok b' ' line) (read_length fuel more n) (read_length-Only fuel more n))
]

content_length_of-Only :
    (type : RequestType) (lines : Bytes) → Only IsReply (content_length_of type lines)
unfolding content_length_of
content_length_of-Only post lines = read_length-Only (length lines) lines (pos 0)
content_length_of-Only get lines = tt

Only-then_with :
    {A B : Type 0} (r : Outcome A) (f : A → Outcome B)
    → Only IsReply r
    → ((a : A) → Only IsReply (f a))
    → Only IsReply (then_with r f)
Only-then_with (ok a) f h k = k a
Only-then_with (err e) f h k = h

Answered-Only :
    (m operation : Bytes) (r : Outcome (RequestType × OperationType))
    → Answered m operation r
    → Only IsReply r
Answered-Only m operation (ok a) h = tt
Answered-Only m operation (err e) h = rw h.0 (IsReply-http_error http_400)

header_of-Only : (method operation lines : Bytes) → Only IsReply (header_of method operation lines)
unfolding header_of
header_of-Only method operation lines =
    Only-then_with (verify_request method operation) _
      (Answered-Only method operation _ (verify_request-Answered method operation))
      (λ (type, op).
        Only-then_with (content_length_of type lines) _ (content_length_of-Only type lines)
          (λ n. tt))

second_word-Only :
    (method : Bytes) (o : Option (Bytes × Bytes)) (lines : Bytes)
    → Only IsReply (second_word method o lines)
unfolding second_word
second_word-Only method none lines = tt
second_word-Only method (some (operation, more)) lines = header_of-Only method operation lines

first_word-Only : (o : Option (Bytes × Bytes)) (lines : Bytes) → Only IsReply (first_word o lines)
unfolding first_word
first_word-Only none lines = tt
first_word-Only (some (method, more)) lines = second_word-Only method (strtok b' ' more) lines

-- Whatever the header, `parse_header` returns, or throws a `register_server_exception`, or has no
-- defined behaviour.
pub parse_header-Only : (header : Bytes) → Only IsReply (parse_header header)
unfolding parse_header
parse_header-Only header = elim (Option-cases (strtok b'\n' header)) [
  | inl e ↦ rw (e, parse_header) tt
  | inr ((line, lines), e) ↦ rw (e, parse_header) (first_word-Only (strtok b' ' line) lines)
]
