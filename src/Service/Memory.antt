-- ===== src/Service/Memory.antt =====
-- What `parse_header` (server.cpp) leaves in the memory of the header, where `strtok_r` puts a NUL
-- behind each token, and the JSON that may stand there: `embed_json` points to the first brace.
use sync_server.Base.{
  ℕ, zero, suc, Bool, true, false, ◌&&◌, Option, none, some, [], ◌∷◌, ◌++◌, Bytes, beq, ◌==◌,
  if◌then◌else◌, length,
}
use sync_server.Base.Tokens.{strtok}
use sync_server.Handler.Dispatch.{RequestType, post, get}
use sync_server.Request.{is_content_length}

-- The text up to the first NUL.
unfoldable pub c_str : Bytes → Bytes
c_str [] = []
c_str (c ∷ s) = let rest = c_str s in if c == 0 then [] else c ∷ rest

-- The bytes before the first `d`, and the rest from it on.
unfoldable pub before : ℕ → Bytes → Bytes
before d [] = []
before d (c ∷ s) = let rest = before d s in if c == d then [] else c ∷ rest

unfoldable pub from : ℕ → Bytes → Bytes
from d [] = []
from d (c ∷ s) = let rest = from d s in if c == d then c ∷ s else rest

-- The delimiters in front.
unfoldable pub leading : ℕ → Bytes → Bytes
leading d [] = []
leading d (c ∷ s) = let rest = leading d s in if c == d then c ∷ rest else []

unfoldable pub behind : ℕ → Bytes → Bytes
behind d [] = []
behind d (c ∷ s) = let rest = behind d s in if c == d then rest else c ∷ s

-- The memory of a line after `n` calls of `strtok_r` with a blank; the flag says whether a token has
-- begun.
unfoldable pub cut_words : ℕ → Bool → Bytes → Bytes
cut_words zero begun s = s
cut_words (suc n) begun [] = []
cut_words (suc n) begun (c ∷ s) =
    let on = cut_words (suc n) true s in
    let blank = cut_words (suc n) false s in
    let cut = cut_words n false s in
    if c == b' ' then (if begun then 0 ∷ cut else c ∷ blank) else c ∷ on

-- The end of a line is overwritten too.
unfoldable pub cut_end : (Bytes → Bytes) → Bytes → Bytes
cut_end rest [] = []
cut_end rest (c ∷ s) = 0 ∷ rest s

-- The line that the next call of `strtok_r` gives, from the delimiters in front of it on.
unfoldable pub cut_line : (Bytes → Bytes) → (Bytes → Bytes) → Bytes → Bytes
unfolding leading behind before from cut_end
cut_line line rest s =
    let t = behind b'\n' s in
    leading b'\n' s ++ (line (before b'\n' t) ++ cut_end rest (from b'\n' t))

abbrev pub has_value : Option (Bytes × Bytes) → Bool
has_value none = false
has_value (some (value, more)) = true

abbrev pub names_length : Option (Bytes × Bytes) → Bool
names_length none = false
names_length (some (word, more)) = is_content_length word

abbrev pub value_in : Option (Bytes × Bytes) → Bool
value_in none = false
value_in (some (word, more)) = is_content_length word && has_value (strtok b' ' more)

-- The lines of the loop, which ends with the line that gives the length.
unfoldable pub cut_lines : ℕ → Bytes → Bytes
unfolding cut_line cut_words strtok beq
cut_lines zero s = s
cut_lines (suc fuel) s = elim (strtok b'\n' s) [
  | none ↦ s
  | some (line, more) ↦
      let ends = value_in (strtok b' ' line) in
      let words = if names_length (strtok b' ' line) then 2 else 1 in
      cut_line (cut_words words false)
        (λ rest. elim ends [ true ↦ rest | false ↦ cut_lines fuel rest ]) s
]

abbrev cut_rest : RequestType → Bytes → Bytes
cut_rest post s = cut_lines (length s) s
cut_rest get s = s

-- The memory after `parse_header` has returned true.
unfoldable pub header_memory : RequestType → Bytes → Bytes
unfolding cut_line cut_words cut_lines
header_memory type header = cut_line (cut_words 2 false) (cut_rest type) header

unfoldable pub drop : ℕ → Bytes → Bytes
drop zero s = s
drop (suc n) [] = []
drop (suc n) (c ∷ s) = drop n s

unfoldable pub has_brace : Bytes → Bool
has_brace [] = false
has_brace (c ∷ s) = let rest = has_brace s in if c == b'{' then true else rest

-- `embed_json`, read after `parse_header`; `none` is `NULL`.
unfoldable pub embedded : RequestType → Bytes → Option Bytes
unfolding has_brace before header_memory drop c_str
embedded type header =
    if has_brace header
    then some (c_str (drop (length (before b'{' header)) (header_memory type header)))
    else none
