-- ===== src/Base/Decimal.antt =====
-- `sprintf` of an unsigned number in decimal, and `atoi`.
use sync_server.Base.{
  ℕ, zero, suc, ◌+◌, ◌-◌, ◌*◌, ◌/◌, ◌%◌, ◌^◌, ◌≤◌, ◌<◌, ◌≡◌, refl, Bool, true, false, ◌&&◌, ◌||◌,
  Option, none, some, ltb→lt, [], ◌∷◌, ◌++◌, arith, Bytes, ltb, leb, ◌==◌, if◌then◌else◌, length,
  length-append, All, All-append, ℤ, pos, negsuc, Bool-cases, inl, inr, codes,
}
use native.Mathlib.Nat.{pow-suc}
use mathlib.Core.List.{append-nil, append_assoc}

-- The digits of a number below 10 ^ fuel, without leading zeros.
unfoldable pub digits : ℕ → ℕ → Bytes
digits zero n = []
digits (suc fuel) n =
    let high = digits fuel (n / 10) ++ (b'0' + n % 10) ∷ [] in
    if ltb n 10 then (b'0' + n) ∷ [] else high

-- `%u`: an `unsigned int` has at most ten digits.
unfoldable pub print_unsigned : ℕ → Bytes
unfolding digits
print_unsigned n = digits 10 (n % 2 ^ 32)

pub length-digits-le : (fuel n : ℕ) → length (digits fuel n) ≤ fuel
unfolding digits
length-digits-le zero n = omega arith
length-digits-le (suc fuel) n = ground (
  arith,
  length-append (digits fuel (n / 10)) ((b'0' + n % 10) ∷ []),
  length-digits-le fuel (n / 10),
)

pub length-print_unsigned-le : (n : ℕ) → length (print_unsigned n) ≤ 10
unfolding print_unsigned
length-print_unsigned-le n = length-digits-le 10 (n % 2 ^ 32)

abbrev pub is_digit : ℕ → Bool
is_digit c = leb b'0' c && leb c b'9'

-- The value of the leading digits, after those read so far.
unfoldable pub read_digits : ℕ → Bytes → ℕ
read_digits n [] = n
read_digits n (c ∷ s) =
    let rest = read_digits (n * 10 + (c - b'0')) s in if is_digit c then rest else n

unfoldable pub is_space : ℕ → Bool
is_space c = c == b' ' || (leb 9 c && leb c 13)

abbrev pub negate : ℕ → ℤ
negate zero = pos 0
negate (suc n) = negsuc n

-- The behaviour of `atoi` is undefined where the value is no `int`: that is `none`.
as_int : Bool → ℕ → Option ℤ
as_int minus n =
    if minus
    then (if leb n (2 ^ 31) then some (negate n) else none)
    else (if ltb n (2 ^ 31) then some (pos n) else none)

signed : Bytes → Option ℤ
unfolding as_int read_digits
signed [] = some (pos 0)
signed (c ∷ s) =
    if c == b'-'
    then as_int Bool.true (read_digits 0 s)
    else if c == b'+'
    then as_int Bool.false (read_digits 0 s)
    else as_int Bool.false (read_digits 0 (c ∷ s))

-- Leading blanks, a sign, and digits up to the first other byte.
unfoldable pub atoi : Bytes → Option ℤ
unfolding signed is_space
atoi [] = some (pos 0)
atoi (c ∷ s) = let rest = atoi s in if is_space c then rest else signed (c ∷ s)

read_one : (n : ℕ) (s : Bytes) → n < 10 → read_digits 0 ((b'0' + n) ∷ s) ≡ read_digits n s
unfolding read_digits
read_one n s h = let e : 0 * 10 + (b'0' + n - b'0') ≡ n = omega arith in ground arith

read_last : (n : ℕ) (s : Bytes) → read_digits (n / 10) ((b'0' + n % 10) ∷ s) ≡ read_digits n s
unfolding read_digits
read_last n s = ground arith

tenth : (fuel n : ℕ) → n < 10 ^ suc fuel → n / 10 < 10 ^ fuel
tenth fuel n h = let e : 10 ^ suc fuel ≡ 10 ^ fuel * 10 = pow-suc 10 fuel in omega arith

-- Reading the digits of `n` before `s` goes on from `n`.
pub read_digits-digits :
    (fuel n : ℕ) (s : Bytes) → n < 10 ^ fuel → read_digits 0 (digits fuel n ++ s) ≡ read_digits n s
unfolding digits
read_digits-digits zero n s h = let e : n ≡ 0 = omega arith in rw e
read_digits-digits (suc fuel) n s h = elim (Bool-cases (ltb n 10)) [
  | inl small ↦ rw small (read_one n s (ltb→lt n 10 small))
  | inr large ↦
      rw (large, append_assoc, read_digits-digits fuel (n / 10) _ (tenth fuel n h)) (read_last n s)
]

-- The text begins with a digit.
abbrev pub Numeric : Bytes → Type 0
Numeric [] = ⊥
Numeric (c ∷ s) = is_digit c ≡ true

pub Numeric-append : (s t : Bytes) → Numeric s → Numeric (s ++ t)
Numeric-append (c ∷ s) t h = h
Numeric-append [] t h = absurd h

pub digits-Numeric : (fuel n : ℕ) → Numeric (digits (suc fuel) n)
unfolding digits
digits-Numeric zero n = ground arith
digits-Numeric (suc fuel) n = ground (
  arith,
  Numeric-append (digits (suc fuel) (n / 10)) ((b'0' + n % 10) ∷ []) (digits-Numeric fuel (n / 10)),
)

atoi-Numeric : (s : Bytes) → Numeric s → atoi s ≡ as_int false (read_digits 0 s)
unfolding atoi
atoi-Numeric [] h = absurd h
atoi-Numeric (c ∷ s) h = ground arith

-- What `%u` prints, `atoi` reads back, up to the first byte behind it that is no digit.
pub atoi-print_unsigned :
    (n : ℕ) (s : Bytes)
    → n < 2 ^ 31
    → read_digits n s ≡ n
    → atoi (print_unsigned n ++ s) ≡ some (pos n)
unfolding print_unsigned as_int
atoi-print_unsigned n s h stop =
    let e : n % 2 ^ 32 ≡ n = omega arith in
    rw
      (
        e,
        atoi-Numeric _ (Numeric-append (digits 10 n) s (digits-Numeric 9 n)),
        read_digits-digits 10 n s (omega arith),
        stop,
      )
      (ground arith)

abbrev pub IsDigit : ℕ → Type 0
IsDigit c = (b'0' ≤ c) × (c ≤ b'9')

digits-All : (fuel n : ℕ) → All IsDigit (digits fuel n)
unfolding digits
digits-All zero n = tt
digits-All (suc fuel) n = elim (Bool-cases (ltb n 10)) [
  | inl small ↦ rw small ((omega arith, omega (arith, ltb→lt n 10 small)), tt)
  | inr large ↦ rw large (
      All-append IsDigit (digits fuel (n / 10)) _ (digits-All fuel (n / 10))
        ((omega arith, omega arith), tt))
]

-- A printed number holds no byte but digits.
pub print_unsigned-All : (n : ℕ) → All IsDigit (print_unsigned n)
unfolding print_unsigned
print_unsigned-All n = digits-All 10 (n % 2 ^ 32)

pub atoi-print_unsigned_self : (n : ℕ) → n < 2 ^ 31 → atoi (print_unsigned n) ≡ some (pos n)
unfolding read_digits
atoi-print_unsigned_self n h = rw (append-nil) at (atoi-print_unsigned n [] h refl)

atoi_runs : atoi (codes " -12x") ≡ some (negsuc 11)
unfolding atoi
atoi_runs = refl
