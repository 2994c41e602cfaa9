-- ===== src/Request/Tests.antt =====
-- A header with another line, a text in two parts, and connections that fail.
use sync_server.Base.{beq, ◌≡◌, refl, ◌++◌, [], ◌∷◌, Bytes, codes, false, pos, some, arith}
use sync_server.Base.Tokens.{strtok}
use sync_server.Exec.{ok}
use sync_server.Handler.Dispatch.{post, sync_final}
use sync_server.Request.Routes.{Answered, verify_request-Answered}
use sync_server.Request.{path, verify_request, parse_header, length_in}
use sync_server.Request.Receive.{
  received, Parts, got, reads_of, read_incoming_bytes, read_incoming_bytes-parts,
}
use sync_server.Request.Render.{IsOther, render_post, parse_header-render_post}

abbrev host : Bytes
host = codes "Host: vault"

host-IsOther : IsOther host
unfolding strtok beq length_in
host-IsOther = record { some_byte = λ e. cc; one_line = omega arith; other = λ rest. refl }

parse_header-render_post_example :
    parse_header (render_post sync_final (codes "HTTP/1.1") (host ∷ []) 42 (codes "{}"))
    ≡ ok (some (record { request_type = post; op_type = sync_final; content_length = pos 42 }))
parse_header-render_post_example =
    parse_header-render_post sync_final (codes "HTTP/1.1") (host ∷ []) 42 (codes "{}") (omega arith)
      (host-IsOther, tt) (omega arith)

abbrev half : Parts
half = (codes "{ ab", false) ∷ []

read_incoming_bytes-parts_example :
    read_incoming_bytes 6 (reads_of half (got (codes " }") false ∷ []))
    ≡ received (codes "{ ab" ++ codes " }")
read_incoming_bytes-parts_example =
    read_incoming_bytes-parts 6 half (codes " }") [] (refl, tt) (omega arith) (omega arith)

verify_request-Answered_example :
    Answered (codes "GET") (path sync_final) (verify_request (codes "GET") (path sync_final))
verify_request-Answered_example = verify_request-Answered (codes "GET") (path sync_final)
