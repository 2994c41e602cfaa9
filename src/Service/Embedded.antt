-- ===== src/Service/Embedded.antt =====
-- The JSON that comes with the header of a post (server.cpp 631), after `parse_header` has cut the
-- header.
use mathlib.Core.List.{append_assoc}
use sync_server.Base.{
  ℕ, suc, ◌+◌, ◌≡◌, ◌≢◌, refl, ap, sym, ◌∙◌, false, none, some, List, [], ◌∷◌, ◌++◌, Bytes, codes,
  length, length-append, arith, All, All-append, All-map, if◌then◌else◌,
}
use sync_server.Base.Decimal.{print_unsigned, print_unsigned-All}
use sync_server.Handler.Dispatch.{
  post, OperationType, register_config, delete_user, sync_initial, sync_final,
}
use sync_server.Request.{path}
use sync_server.Request.Render.{
  IsOther, join_lines, length_line, request_line, request_line_plain, render_post,
  length-join_lines,
}
use sync_server.Service.Memory.{
  c_str, before, from, cut_words, cut_lines, header_memory, drop, has_brace, embedded,
}
use sync_server.Service.Cut.{
  IsCut, line-IsCut, cut_lines-IsCut, cut_line-line, length-cut_words, before-append, drop-before,
}

-- No JSON in a text.
abbrev pub IsPlain : Bytes → Type 0
IsPlain t = All (λ b. b ≢ b'{') t

pub has_brace-append : (t s : Bytes) → IsPlain t → has_brace (t ++ s) ≡ has_brace s
unfolding has_brace
has_brace-append [] s h = refl
has_brace-append (c ∷ t) s h = ground (arith, has_brace-append t s h.1)

pub c_str_lem : (s : Bytes) → All (λ b. b ≢ 0) s → c_str s ≡ s
unfolding c_str
c_str_lem [] h = refl
c_str_lem (c ∷ s) h = ground (arith, c_str_lem s h.1)

pub from-append : (t s : Bytes) → IsPlain t → from b'{' (t ++ b'{' ∷ s) ≡ b'{' ∷ s
unfolding from
from-append [] s h = refl
from-append (c ∷ t) s h = ground (arith, from-append t s h.1)

pub has_no_brace : (t : Bytes) → IsPlain t → has_brace t ≡ false
unfolding has_brace
has_no_brace [] h = refl
has_no_brace (c ∷ t) h = ground (arith, has_no_brace t h.1)

drop-append :
    (head t s : Bytes) (n : ℕ) → length head ≡ length t → drop (length t + n) (head ++ s) ≡ drop n s
unfolding drop
drop-append [] [] s n h = ap (λ k. drop k s) (omega arith)
drop-append [] (c ∷ t) s n h = absurd (omega arith)
drop-append (b ∷ head) [] s n h = absurd (omega arith)
drop-append (b ∷ head) (c ∷ t) s n h =
    let one : suc (length t) + n ≡ suc (length t + n) = omega arith in
    rw one (drop-append head t s n (omega arith))

join_lines-append :
    (lines : List Bytes) (s rest : Bytes)
    → join_lines lines (s ++ rest) ≡ join_lines lines s ++ rest
join_lines-append [] s rest = refl
join_lines-append (line ∷ lines) s rest =
    ap (λ t. line ++ b'\n' ∷ t) (join_lines-append lines s rest)
    ∙ sym (append_assoc line (b'\n' ∷ join_lines lines s) rest)

path-IsPlain : (op : OperationType) → IsPlain (path op)
path-IsPlain register_config = omega arith
path-IsPlain delete_user = omega arith
path-IsPlain sync_initial = omega arith
path-IsPlain sync_final = omega arith

request_line-IsPlain :
    (op : OperationType) (version : Bytes)
    → IsPlain version
    → IsPlain (request_line (codes "POST") op version)
request_line-IsPlain op version h =
    All-append (λ b. b ≢ b'{') (codes "POST ") _ (omega arith)
      (All-append (λ b. b ≢ b'{') (path op) (b' ' ∷ version) (path-IsPlain op) (omega arith, h))

length_line-IsPlain : (n : ℕ) → IsPlain (length_line n ++ b'\n' ∷ [])
length_line-IsPlain n =
    All-append (λ b. b ≢ b'{') (length_line n) _
      (All-append (λ b. b ≢ b'{') (codes "Content-Length: ") _ (omega arith)
        (All-append (λ b. b ≢ b'{') (print_unsigned n) (13 ∷ [])
          (All-map (print_unsigned n) (λ a h. ground arith) (print_unsigned-All n))
          (omega arith, tt)))
      (omega arith, tt)

join_lines-IsPlain :
    (lines : List Bytes) (s : Bytes) → All IsPlain lines → IsPlain s → IsPlain (join_lines lines s)
join_lines-IsPlain [] s h k = k
join_lines-IsPlain (line ∷ lines) s h k =
    All-append (λ b. b ≢ b'{') line _ h.0 (omega arith, join_lines-IsPlain lines s h.1 k)

-- What goes before the JSON.
abbrev head_of : OperationType → Bytes → List Bytes → ℕ → Bytes
head_of op version lines n =
    request_line (codes "POST") op version ++ b'\n' ∷ join_lines lines (length_line n ++ b'\n' ∷ [])

head_of-append :
    (op : OperationType) (version : Bytes) (lines : List Bytes) (n : ℕ) (rest : Bytes)
    → render_post op version lines n rest ≡ head_of op version lines n ++ rest
head_of-append op version lines n rest =
    ap (λ t. request_line (codes "POST") op version ++ b'\n' ∷ t)
      (ap (join_lines lines) (sym (append_assoc (length_line n) (b'\n' ∷ []) rest))
        ∙ join_lines-append lines (length_line n ++ b'\n' ∷ []) rest)
    ∙ sym (
        append_assoc (request_line (codes "POST") op version)
          (b'\n' ∷ join_lines lines (length_line n ++ b'\n' ∷ [])) rest)

head_of-IsPlain :
    (op : OperationType) (version : Bytes) (lines : List Bytes) (n : ℕ)
    → IsPlain version
    → All IsPlain lines
    → IsPlain (head_of op version lines n)
head_of-IsPlain op version lines n v l =
    All-append (λ b. b ≢ b'{') (request_line (codes "POST") op version) _
      (request_line-IsPlain op version v)
      (omega arith, join_lines-IsPlain lines _ l (length_line-IsPlain n))

head_of-IsCut :
    (op : OperationType) (version : Bytes) (lines : List Bytes) (n : ℕ) (rest : Bytes)
    → All (λ b. b ≢ b'\n') version
    → All IsOther lines
    → IsCut
        (head_of op version lines n)
        (header_memory post (render_post op version lines n rest))
        rest
unfolding header_memory
head_of-IsCut op version lines n rest one_line others =
    let line = request_line (codes "POST") op version in
    let tail = join_lines lines (length_line n ++ b'\n' ∷ rest) in
    rw
      (cut_line-line (cut_words 2 false) (λ s. cut_lines (length s) s) line tail (λ e. cc)
        (request_line_plain op version one_line))
      (line-IsCut (cut_words 2 false line) line _ _ rest (length-cut_words 2 false line) (
        cut_lines-IsCut (length tail) lines n rest
          (omega (
            arith,
            length-join_lines lines (length_line n ++ b'\n' ∷ rest),
            length-append (length_line n) (b'\n' ∷ rest),
          ))
          others))

embedded_in :
    (t s memory : Bytes)
    → IsPlain t
    → IsCut t memory s
    → drop (length (before b'{' (t ++ s))) memory ≡ from b'{' s
embedded_in t s memory plain cut =
    rw (cut.same, before-append b'{' t s plain, length-append t (before b'{' s))
      (drop-append cut.head t s (length (before b'{' s)) cut.size ∙ drop-before b'{' s)

embedded_cut :
    (t s : Bytes)
    → IsPlain t
    → IsCut t (header_memory post (t ++ s)) s
    → embedded post (t ++ s) ≡ (if has_brace s then some (c_str (from b'{' s)) else none)
unfolding embedded
embedded_cut t s plain cut =
    rw (has_brace-append t s plain, embedded_in t s (header_memory post (t ++ s)) plain cut) refl

-- Where no line up to the one with the length has a brace, the JSON of a post is what follows that
-- line from its first brace on, up to the first NUL; `parse_header` has cut none of it.
pub embedded-render_post :
    (op : OperationType) (version : Bytes) (lines : List Bytes) (n : ℕ) (rest : Bytes)
    → All (λ b. b ≢ b'\n') version
    → All IsOther lines
    → IsPlain version
    → All IsPlain lines
    → embedded post (render_post op version lines n rest)
      ≡ (if has_brace rest then some (c_str (from b'{' rest)) else none)
embedded-render_post op version lines n rest one_line others v l =
    rw (head_of-append op version lines n rest) (
      embedded_cut (head_of op version lines n) rest (head_of-IsPlain op version lines n v l) (
        rw (head_of-append op version lines n rest) at
          (head_of-IsCut op version lines n rest one_line others)))
