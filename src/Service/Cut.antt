-- ===== src/Service/Cut.antt =====
-- What `parse_header` leaves of the memory of a header whose lines are given.
use mathlib.Core.List.{append_assoc}
use sync_server.Base.{
  ℕ, zero, suc, ◌<◌, ◌≡◌, ◌≢◌, refl, sym, ◌∙◌, Bool, true, false, Option, none, some, List, [], ◌∷◌,
  ◌++◌, Bytes, codes, beq, ◌==◌, length, length-append, arith, All, All-append, Bool-cases, inl,
  inr, if◌then◌else◌, ℤ, pos,
}
use sync_server.Base.Decimal.{print_unsigned}
use sync_server.Base.Tokens.{strtok, strtok-token, strtok_last}
use sync_server.Exec.{Outcome, ok}
use sync_server.Request.{is_content_length, length_in, value_of}
use sync_server.Request.Render.{
  IsOther, join_lines, length_line, length_word, plain_digits, number_some,
}
use sync_server.Service.Memory.{
  before, from, leading, behind, cut_words, cut_end, cut_line, value_in, names_length, has_value,
  cut_lines, drop,
}

-- A line that is no delimiter in front, and its end.
module _ (d : ℕ) where
  before-line : (t s : Bytes) → All (λ c. c ≢ d) t → before d (t ++ d ∷ s) ≡ t
  unfolding before
  before-line [] s h = ground arith
  before-line (c ∷ t) s h = ground (arith, before-line t s h.1)

  from-line : (t s : Bytes) → All (λ c. c ≢ d) t → from d (t ++ d ∷ s) ≡ d ∷ s
  unfolding from
  from-line [] s h = ground arith
  from-line (c ∷ t) s h = ground (arith, from-line t s h.1)

  pub before-append : (t s : Bytes) → All (λ c. c ≢ d) t → before d (t ++ s) ≡ t ++ before d s
  unfolding before
  before-append [] s h = refl
  before-append (c ∷ t) s h = ground (arith, before-append t s h.1)

  pub drop-before : (s : Bytes) → drop (length (before d s)) s ≡ from d s
  unfolding drop before from
  drop-before [] = refl
  drop-before (c ∷ s) = elim (Bool-cases (c == d)) [
    | inl e ↦ rw e refl
    | inr e ↦ rw e (drop-before s)
  ]

pub cut_line-line :
    (line rest : Bytes → Bytes) (t s : Bytes)
    → t ≢ []
    → All (λ b. b ≢ b'\n') t
    → cut_line line rest (t ++ b'\n' ∷ s) ≡ line t ++ 0 ∷ rest s
unfolding cut_line leading behind cut_end
cut_line-line line rest [] s some_byte h = absurd (some_byte refl)
cut_line-line line rest (c ∷ t) s some_byte h =
    let first : c == b'\n' ≡ false = ground (arith, h.0) in
    rw first (rw (before-line b'\n' (c ∷ t) s h, from-line b'\n' (c ∷ t) s h) refl)

pub length-cut_words : (n : ℕ) (begun : Bool) (s : Bytes) → length (cut_words n begun s) ≡ length s
unfolding cut_words
length-cut_words zero begun s = refl
length-cut_words (suc n) begun [] = refl
length-cut_words (suc n) begun (c ∷ s) = ground (
  arith,
  length-cut_words (suc n) true s,
  length-cut_words (suc n) false s,
  length-cut_words n false s,
)

value_of-has_value :
    (o : Option (Bytes × Bytes)) (r q : Outcome ℤ)
    → has_value o ≡ true
    → value_of o r ≡ value_of o q
unfolding value_of
value_of-has_value none r q h = cc
value_of-has_value (some (value, more)) r q h = refl

-- Whatever the loop would go on with, a line that gives the length gives it.
length_in-value_in :
    (o : Option (Bytes × Bytes)) (r q : Outcome ℤ)
    → value_in o ≡ true
    → length_in o r ≡ length_in o q
unfolding length_in value_of
length_in-value_in none r q h = cc
length_in-value_in (some (word, more)) r q h = elim (Bool-cases (is_content_length word)) [
  | inl names ↦ rw names (value_of-has_value (strtok b' ' more) r q (rw names at h))
  | inr other ↦ absurd (cc)
]

two_lengths : ◌≢◌ {A = Outcome ℤ} (ok (pos 0)) (ok (pos 1))
two_lengths e = cc

other-value_in : (line : Bytes) → IsOther line → value_in (strtok b' ' line) ≡ false
other-value_in line other = elim (Bool-cases (value_in (strtok b' ' line))) [
  | inl yes_value ↦ absurd (
      two_lengths (
        sym (other.other (ok (pos 0)))
        ∙ length_in-value_in (strtok b' ' line) (ok (pos 0)) (ok (pos 1)) yes_value
        ∙ other.other (ok (pos 1))))
  | inr no_value ↦ no_value
]

length_line-value_in : (n : ℕ) → value_in (strtok b' ' (length_line n)) ≡ true
unfolding beq
length_line-value_in n = rw (length_word n) (
    rw
      (strtok_last b' ' (print_unsigned n ++ 13 ∷ []) (number_some n)
        (plain_digits b' ' n refl (omega arith)))
      refl)

length_line-names_length : (n : ℕ) → names_length (strtok b' ' (length_line n)) ≡ true
unfolding beq
length_line-names_length n = rw (length_word n) refl

cut_step :
    (fuel : ℕ) (t s : Bytes)
    → t ≢ []
    → All (λ b. b ≢ b'\n') t
    → cut_lines (suc fuel) (t ++ b'\n' ∷ s)
      ≡ cut_words (if names_length (strtok b' ' t) then 2 else 1) false t
        ++ 0 ∷ elim (value_in (strtok b' ' t)) [ true ↦ s | false ↦ cut_lines fuel s ]
unfolding cut_lines
cut_step fuel t s some_byte h =
    rw (strtok-token b'\n' t s some_byte h, cut_lines)
      (cut_line-line (cut_words (if names_length (strtok b' ' t) then 2 else 1) false)
        (λ rest. elim (value_in (strtok b' ' t)) [ true ↦ rest | false ↦ cut_lines fuel rest ]) t s
        some_byte h)

-- The bytes of `t` may have changed, and what follows has not.
pub record IsCut (t memory rest : Bytes) : Type 0 where
  pub head : Bytes
  pub same : memory ≡ head ++ rest
  pub size : length head ≡ length t

-- One more line in front.
pub line-IsCut :
    (w t u memory rest : Bytes)
    → length w ≡ length t
    → IsCut u memory rest
    → IsCut (t ++ b'\n' ∷ u) (w ++ 0 ∷ memory) rest
line-IsCut w t u memory rest h cut = record {
  head = w ++ 0 ∷ cut.head;
  same = rw cut.same (sym (append_assoc w (0 ∷ cut.head) rest));
  size = omega (arith, length-append w (0 ∷ cut.head), length-append t (b'\n' ∷ u), cut.size);
}

pub length_line_plain : (n : ℕ) → All (λ b. b ≢ b'\n') (length_line n)
length_line_plain n =
    All-append (λ b. b ≢ b'\n') (codes "Content-Length: ") _ (omega arith)
      (plain_digits b'\n' n refl (omega arith))

-- The lines up to the one with the length, which are what changes.
pub cut_lines-IsCut :
    (fuel : ℕ) (lines : List Bytes) (n : ℕ) (rest : Bytes)
    → length lines < fuel
    → All IsOther lines
    → IsCut
        (join_lines lines (length_line n ++ b'\n' ∷ []))
        (cut_lines fuel (join_lines lines (length_line n ++ b'\n' ∷ rest)))
        rest
cut_lines-IsCut zero lines n rest enough others = absurd (omega arith)
cut_lines-IsCut (suc fuel) [] n rest enough others =
    rw
      (
        cut_step fuel (length_line n) rest (λ e. cc) (length_line_plain n),
        length_line-names_length n,
        length_line-value_in n,
      )
      (line-IsCut (cut_words 2 false (length_line n)) (length_line n) [] rest rest
        (length-cut_words 2 false (length_line n)) (record { head = []; same = refl; size = refl }))
cut_lines-IsCut (suc fuel) (line ∷ lines) n rest enough others =
    let (one, more) = others in
    rw (cut_step fuel line _ one.some_byte one.one_line, other-value_in line one)
      (line-IsCut _ line _ _ rest
        (length-cut_words (if names_length (strtok b' ' line) then 2 else 1) false line)
        (cut_lines-IsCut fuel lines n rest (omega arith) more))
