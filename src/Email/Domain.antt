-- ===== src/Email/Domain.antt =====
-- The part behind the `@`.
use sync_server.Base.{
  refl, List, length-append, ==_iff, Bool-cases, ℕ, ◌+◌, ◌≤◌, ◌≡◌, ◌≢◌, ◌⊎◌, inl, inr, Bool, true,
  false, [], ◌∷◌, ◌++◌, arith, Bytes, length, All, All-append, ◌==◌, ◌&&◌, if◌then◌else◌,
}
use sync_server.Email.{scan_domain, is_part_char, is_alpha}

abbrev pub IsDomainChar : ℕ → Type 0
IsDomainChar c = (is_part_char c ≡ true) × (c ≢ b'@')

-- Neither a dot nor a hyphen follows a dot or a hyphen.
abbrev pub MarksApart : ℕ → Bytes → Type 0
MarksApart last [] = Unit {0}
MarksApart last (c ∷ s) =
    (((c ≢ b'.') × (c ≢ b'-')) ⊎ ((last ≢ b'.') × (last ≢ b'-'))) × MarksApart c s

-- The text behind the last dot, `label` being what stands before `s`.
abbrev pub last_label : Bytes → Bytes → Bytes
last_label label [] = label
last_label label (c ∷ s) = last_label (if c == b'.' then [] else label ++ (c ∷ [])) s

abbrev IsAlpha : ℕ → Type 0
IsAlpha c = is_alpha c ≡ true

-- What the loop's two flags say of the label that it is in.
abbrev Flags : Bool → Bool → Bytes → Type 0
Flags all_alpha domain_valid label =
    (all_alpha ≡ true → All IsAlpha label) × (domain_valid ≡ true → label ≢ [])

abbrev pub IsTopLabel : Bytes → Type 0
IsTopLabel label = All IsAlpha label × (label ≢ [])

-- One round of the second loop that ends in success: the tests that it passed, and its next call.
scan_domain_step :
    (dl ll last : ℕ) (aa dv : Bool) (c : ℕ) (s : Bytes)
    → scan_domain dl ll last aa dv (c ∷ s) ≡ true
    → (dl ≤ 253)
      × (ll ≤ 63)
      × IsDomainChar c
      × (((c ≢ b'.') × (c ≢ b'-')) ⊎ ((last ≢ b'.') × (last ≢ b'-')))
      × (((c ≡ b'.') × (scan_domain (dl + 1) 1 c true false s ≡ true))
          ⊎ ((c ≡ b'-') × (scan_domain (dl + 1) (ll + 1) c false false s ≡ true))
          ⊎ ((c ≢ b'.') × (scan_domain (dl + 1) (ll + 1) c (aa && is_alpha c) true s ≡ true)))
unfolding scan_domain
scan_domain_step dl ll last aa dv c s h = ground arith

append_cons-ne-nil : (l : Bytes) (c : ℕ) → l ++ (c ∷ []) ≢ []
append_cons-ne-nil [] c e = cc
append_cons-ne-nil (x ∷ l) c e = cc

next-Flags :
    (aa dv : Bool) (c : ℕ) (label : Bytes)
    → c ≢ b'.'
    → Flags aa dv label
    → Flags (aa && is_alpha c) true (label ++ (c ∷ []))
next-Flags aa dv c label h f = (
  λ e. All-append IsAlpha label (c ∷ []) (f.0 (ground arith)) (ground arith),
  λ _. append_cons-ne-nil label c,
)

-- The texts between the dots, `label` being what stands before `s`.
abbrev pub labels : Bytes → Bytes → List Bytes
labels label [] = label ∷ []
labels label (c ∷ s) = if c == b'.' then label ∷ labels [] s else labels (label ++ (c ∷ [])) s

-- The first label has at most `n` characters, a later one at most 62, and the last one more.
abbrev pub LabelsFit : ℕ → List Bytes → Type 0
LabelsFit n [] = Unit {0}
LabelsFit n (l ∷ []) = length l ≤ n + 1
LabelsFit n (l ∷ m ∷ ls) = (length l ≤ n) × LabelsFit 62 (m ∷ ls)

first-LabelsFit :
    (n : ℕ) (first label s : Bytes)
    → length first ≤ n
    → LabelsFit 62 (labels label s)
    → LabelsFit n (first ∷ labels label s)
first-LabelsFit n first label [] h f = (h, f)
first-LabelsFit n first label (c ∷ s) h f = elim (Bool-cases (c == b'.')) [
  | inl dot ↦ rw dot (h, rw dot at f)
  | inr other ↦ rw other (first-LabelsFit n first (label ++ (c ∷ [])) s h (rw other at f))
]

-- What the loop accepts of `s`, behind `dl` characters of the domain, of which the last is `last` and
-- those behind the last dot are `label`, which may have `n` characters before a dot.
pub record IsDomain (dl last n : ℕ) (label s : Bytes) : Type 0 where
  pub fits : dl + length s ≤ 254
  pub labels_fit : LabelsFit n (labels label s)
  pub chars : All IsDomainChar s
  pub marks : MarksApart last s
  pub top : IsTopLabel (last_label label s)

dot-IsDomain :
    (dl last n c : ℕ) (label s : Bytes)
    → c ≡ b'.'
    → length label ≤ n
    → IsDomainChar c
    → ((c ≢ b'.') × (c ≢ b'-')) ⊎ ((last ≢ b'.') × (last ≢ b'-'))
    → IsDomain (dl + 1) c 62 [] s
    → IsDomain dl last n label (c ∷ s)
dot-IsDomain dl last n c label s e h char mark rest =
    let dot : c == b'.' ≡ true = (==_iff c b'.').1 e in
    record {
      fits = let g = rest.fits in omega arith;
      labels_fit = rw dot (first-LabelsFit n label [] s h rest.labels_fit);
      chars = (char, rest.chars);
      marks = (mark, rest.marks);
      top = rw dot rest.top;
    }

other-IsDomain :
    (dl last n c : ℕ) (label s : Bytes)
    → c ≢ b'.'
    → IsDomainChar c
    → ((c ≢ b'.') × (c ≢ b'-')) ⊎ ((last ≢ b'.') × (last ≢ b'-'))
    → IsDomain (dl + 1) c n (label ++ (c ∷ [])) s
    → IsDomain dl last n label (c ∷ s)
other-IsDomain dl last n c label s e char mark rest =
    let other : c == b'.' ≡ false = ground arith in
    record {
      fits = let g = rest.fits in omega arith;
      labels_fit = rw other rest.labels_fit;
      chars = (char, rest.chars);
      marks = (mark, rest.marks);
      top = rw other rest.top;
    }

-- A later label starts at 1 in `label_length`, which the loop increments behind a dot too.
pub scan_domain-IsDomain :
    (dl ll last n : ℕ) (aa dv : Bool) (label s : Bytes)
    → dl ≤ 254
    → ll + n ≡ length label + 63
    → length label ≤ n + 1
    → Flags aa dv label
    → scan_domain dl ll last aa dv s ≡ true
    → IsDomain dl last n label s
scan_domain-IsDomain dl ll last n aa dv label [] b l small f h =
    let both : (dv ≡ true) × (aa ≡ true) = unfold scan_domain in ground arith in
    record {
      fits = omega arith;
      labels_fit = small;
      chars = tt;
      marks = tt;
      top = (f.0 both.1, f.1 both.0);
    }
scan_domain-IsDomain dl ll last n aa dv label (c ∷ s) b l small f h =
    let (short, short_label, char, mark, next) = scan_domain_step dl ll last aa dv c s h in
    elim next [
      | inl dot ↦
          let rest =
            scan_domain-IsDomain (dl + 1) 1 c 62 true false [] s (omega arith) refl (omega arith)
              (λ _. tt, λ e. cc) dot.1 in
          dot-IsDomain dl last n c label s dot.0 (omega arith) char mark rest
      | inr (inl hyphen) ↦ other-IsDomain dl last n c label s (omega (arith, hyphen.0)) char mark (
          scan_domain-IsDomain (dl + 1) (ll + 1) c n false false (label ++ (c ∷ [])) s (omega arith)
            (omega (arith, length-append label (c ∷ [])))
            (omega (arith, length-append label (c ∷ []))) (λ e. cc, λ e. cc) hyphen.1)
      | inr (inr other) ↦ other-IsDomain dl last n c label s other.0 char mark (
          scan_domain-IsDomain (dl + 1) (ll + 1) c n (aa && is_alpha c) true (label ++ (c ∷ [])) s
            (omega arith) (omega (arith, length-append label (c ∷ [])))
            (omega (arith, length-append label (c ∷ []))) (next-Flags aa dv c label other.0 f)
            other.1)
    ]
