-- ===== src/Request/Render.antt =====
-- The header of a request that a client sends, and what `parse_header` reads in it.
use sync_server.Base.{
  ℕ, zero, suc, ◌+◌, ◌^◌, ◌≤◌, ◌<◌, ◌≡◌, ◌≢◌, refl, sym, ap, ◌∙◌, true, some, List, [], ◌∷◌, ◌++◌,
  arith, Bytes, codes, beq, ltb, length, length-append, All, All-map, All-append, ℤ, pos,
  Option-cases, inl, inr,
}
use sync_server.Base.Decimal.{atoi-print_unsigned, print_unsigned, print_unsigned-All, read_digits}
use sync_server.Base.Tokens.{strtok, strtok-token, strtok_last, strtok-shorter}
use sync_server.Exec.{Outcome, ok}
use sync_server.Handler.Dispatch.{
  post, OperationType, register_config, delete_user, sync_initial, sync_final,
}
use sync_server.Request.{
  path, verify_request, value_of, length_in, read_length, parse_header, first_word, header_of,
  content_length_of,
}

-- One round of the loop.
read_step :
    (fuel : ℕ) (s line more : Bytes) (n : ℤ)
    → strtok b'\n' s ≡ some (line, more)
    → read_length (suc fuel) s n ≡ length_in (strtok b' ' line) (read_length fuel more n)
unfolding read_length
read_step fuel s line more n e = rw (e, read_length)

read_length_two :
    (f g : ℕ) (s : Bytes) (n : ℤ)
    → length s ≤ f
    → length s ≤ g
    → read_length f s n ≡ read_length g s n
unfolding read_length strtok
read_length_two zero zero s n h k = refl
read_length_two zero (suc g) [] n h k = refl
read_length_two zero (suc g) (c ∷ s) n h k = absurd (omega arith)
read_length_two (suc f) zero [] n h k = refl
read_length_two (suc f) zero (c ∷ s) n h k = absurd (omega arith)
read_length_two (suc f) (suc g) s n h k = elim (Option-cases (strtok b'\n' s)) [
  | inl e ↦ rw (e, read_length)
  | inr ((line, more), e) ↦
      let shorter = strtok-shorter b'\n' s line more e in
      read_step f s line more n e
      ∙ ap (length_in (strtok b' ' line)) (read_length_two f g more n (omega arith) (omega arith))
      ∙ sym (read_step g s line more n e)
]

-- The loop over the lines of a header ends: every fuel from the length of the text on gives the same
-- result.
pub read_length-fuel :
    (fuel : ℕ) (s : Bytes) (n : ℤ)
    → length s ≤ fuel
    → read_length fuel s n ≡ read_length (length s) s n
read_length-fuel fuel s n h = read_length_two fuel (length s) s n h (omega arith)

-- A line of a header that is no `Content-Length`, without its line end.
pub record IsOther (line : Bytes) : Type 0 where
  pub some_byte : line ≢ []
  pub one_line : All (λ b. b ≢ b'\n') line
  pub other : (rest : Outcome ℤ) → length_in (strtok b' ' line) rest ≡ rest

abbrev pub join_lines : List Bytes → Bytes → Bytes
join_lines [] s = s
join_lines (line ∷ lines) s = line ++ b'\n' ∷ join_lines lines s

abbrev pub length_line : ℕ → Bytes
length_line n = codes "Content-Length:" ++ b' ' ∷ (print_unsigned n ++ 13 ∷ [])

pub plain_digits :
    (d n : ℕ) → ltb d b'0' ≡ true → 13 ≢ d → All (λ b. b ≢ d) (print_unsigned n ++ 13 ∷ [])
plain_digits d n low other =
    All-append (λ b. b ≢ d) (print_unsigned n) (13 ∷ [])
      (All-map (print_unsigned n) (λ a h. ground arith) (print_unsigned-All n)) (other, tt)

pub number_some : (n : ℕ) → print_unsigned n ++ 13 ∷ [] ≢ []
number_some n e =
    let l : length (print_unsigned n ++ 13 ∷ []) ≡ 0 = ap length e in
    omega (arith, length-append (print_unsigned n) (13 ∷ []))

value_read :
    (n : ℕ) (rest : Outcome ℤ)
    → n < 2 ^ 31
    → value_of (strtok b' ' (print_unsigned n ++ 13 ∷ [])) rest ≡ ok (pos n)
unfolding value_of read_digits
value_read n rest h =
    rw
      (strtok_last b' ' (print_unsigned n ++ 13 ∷ []) (number_some n)
        (plain_digits b' ' n refl (omega arith)))
      (rw (atoi-print_unsigned n (13 ∷ []) h refl))

pub length_word :
    (n : ℕ)
    → strtok b' ' (length_line n) ≡ some (codes "Content-Length:", print_unsigned n ++ 13 ∷ [])
length_word n =
    strtok-token b' ' (codes "Content-Length:") (print_unsigned n ++ 13 ∷ []) (λ e. cc)
      (omega arith)

length_line_read :
    (n : ℕ) (rest : Outcome ℤ)
    → n < 2 ^ 31
    → length_in (strtok b' ' (length_line n)) rest ≡ ok (pos n)
unfolding length_in beq
length_line_read n rest h = ap (λ o. length_in o rest) (length_word n) ∙ value_read n rest h

read_lines :
    (fuel : ℕ) (lines : List Bytes) (n : ℕ) (rest : Bytes)
    → length lines < fuel
    → All IsOther lines
    → n < 2 ^ 31
    → read_length fuel (join_lines lines (length_line n ++ b'\n' ∷ rest)) (pos 0) ≡ ok (pos n)
unfolding read_length
read_lines zero lines n rest enough others h = absurd (omega arith)
read_lines (suc fuel) [] n rest enough others h =
    read_step fuel (length_line n ++ b'\n' ∷ rest) (length_line n) rest (pos 0) (
      strtok-token b'\n' (length_line n) rest (λ e. cc)
        (All-append (λ b. b ≢ b'\n') (codes "Content-Length: ") _ (omega arith)
          (plain_digits b'\n' n refl (omega arith))))
    ∙ length_line_read n (read_length fuel rest (pos 0)) h
read_lines (suc fuel) (line ∷ lines) n rest enough others h =
    let (one, more) = others in
    read_step fuel (line ++ b'\n' ∷ join_lines lines (length_line n ++ b'\n' ∷ rest)) line
      (join_lines lines (length_line n ++ b'\n' ∷ rest)) (pos 0)
      (strtok-token b'\n' line _ one.some_byte one.one_line)
    ∙ one.other _
    ∙ read_lines fuel lines n rest (omega arith) more h

abbrev pub request_line : Bytes → OperationType → Bytes → Bytes
request_line method op version = method ++ b' ' ∷ (path op ++ b' ' ∷ version)

pub length-join_lines :
    (lines : List Bytes) (s : Bytes) → length lines + length s ≤ length (join_lines lines s)
length-join_lines [] s = omega arith
length-join_lines (line ∷ lines) s =
    omega (arith, length-append line (b'\n' ∷ join_lines lines s), length-join_lines lines s)

path_plain : (op : OperationType) (d : ℕ) → ltb d b'-' ≡ true → All (λ b. b ≢ d) (path op)
path_plain register_config d h = ground arith
path_plain delete_user d h = ground arith
path_plain sync_initial d h = ground arith
path_plain sync_final d h = ground arith

routed : (op : OperationType) → verify_request (codes "POST") (path op) ≡ ok (post, op)
unfolding verify_request beq
routed register_config = refl
routed delete_user = refl
routed sync_initial = refl
routed sync_final = refl

pub request_line_plain :
    (op : OperationType) (version : Bytes)
    → All (λ b. b ≢ b'\n') version
    → All (λ b. b ≢ b'\n') (request_line (codes "POST") op version)
request_line_plain op version h =
    All-append (λ b. b ≢ b'\n') (codes "POST ") _ (omega arith)
      (All-append (λ b. b ≢ b'\n') (path op) (b' ' ∷ version) (path_plain op b'\n' refl)
        (omega arith, h))

path_some : (op : OperationType) → path op ≢ []
path_some register_config e = cc
path_some delete_user e = cc
path_some sync_initial e = cc
path_some sync_final e = cc

-- The first line, and the two words in it.
parse_lines :
    (header method operation more lines : Bytes) {line words : Bytes}
    → strtok b'\n' header ≡ some (line, lines)
    → strtok b' ' line ≡ some (method, words)
    → strtok b' ' words ≡ some (operation, more)
    → parse_header header ≡ header_of method operation lines
unfolding parse_header first_word
parse_lines header method operation more lines l m o = rw (l, parse_header) (rw m (rw o))

header_of_post :
    (op : OperationType) (operation lines : Bytes) (n : ℕ)
    → verify_request (codes "POST") operation ≡ ok (post, op)
    → read_length (length lines) lines (pos 0) ≡ ok (pos n)
    → header_of (codes "POST") operation lines
      ≡ ok (some (record { request_type = post; op_type = op; content_length = pos n }))
unfolding header_of content_length_of
header_of_post op operation lines n v r = rw (v, header_of) (rw r)

-- The request that a client posts: the line with the operation, other lines, the length, the rest.
abbrev pub render_post : OperationType → Bytes → List Bytes → ℕ → Bytes → Bytes
render_post op version lines n rest =
    request_line (codes "POST") op version
    ++ b'\n' ∷ join_lines lines (length_line n ++ b'\n' ∷ rest)

-- A post of one of the four operations, with any lines before its `Content-Length` and anything
-- behind it, is read as that operation and that length.
pub parse_header-render_post :
    (op : OperationType) (version : Bytes) (lines : List Bytes) (n : ℕ) (rest : Bytes)
    → All (λ b. b ≢ b'\n') version
    → All IsOther lines
    → n < 2 ^ 31
    → parse_header (render_post op version lines n rest)
      ≡ ok (some (record { request_type = post; op_type = op; content_length = pos n }))
parse_header-render_post op version lines n rest plain others h =
    let tail = join_lines lines (length_line n ++ b'\n' ∷ rest) in
    parse_lines _ (codes "POST") (path op) version tail
      (strtok-token b'\n' (request_line (codes "POST") op version) tail (λ e. cc)
        (request_line_plain op version plain))
      (strtok-token b' ' (codes "POST") (path op ++ b' ' ∷ version) (λ e. cc) (omega arith))
      (strtok-token b' ' (path op) version (path_some op) (path_plain op b' ' refl))
    ∙ header_of_post op (path op) tail n (routed op) (
        read_lines (length tail) lines n rest
          (omega (
            arith,
            length-join_lines lines (length_line n ++ b'\n' ∷ rest),
            length-append (length_line n) (b'\n' ∷ rest),
          ))
          others h)
