-- ===== src/Config/File.antt =====
-- The constructor `Config::Config` (Config.cpp): the lines of the file, and what is done with each.
use mathlib.Core.List.{append_assoc}
use mathlib.Core.Path.{fun_ext}
use sync_server.Base.{
  ℕ, ◌+◌, ◌-◌, ◌≤◌, ◌<◌, ◌≡◌, ◌≢◌, refl, ap, sym, ◌∙◌, true, ◌||◌, Option, none, some, List, [],
  ◌∷◌, ◌++◌, arith, Bytes, beq, ◌==◌, if◌then◌else◌, length, length-append, All, All-append,
  Bool-cases, inl, inr,
}
use sync_server.Base.Tokens.{strtok, contains_byte, strtok-token}
use sync_server.Config.{Config, default_config, Key, key_of, assign, set_known, set_key_value}
use sync_server.Config.Keys.{name, key_of-name}

-- `fgets(line, 1023, file)` reads at most 1022 bytes.
abbrev line_size : ℕ
line_size = 1022

abbrev flush : Bytes → List Bytes
flush [] = []
flush line = line ∷ []

-- The results of `fgets` up to the end of the file; `room` bytes are left of this line's buffer.
read_lines : ℕ → Bytes → Bytes → List Bytes
read_lines room line [] = flush line
read_lines room line (c ∷ s) =
    let ended = (line ++ (c ∷ [])) ∷ read_lines line_size [] s in
    let longer = read_lines (room - 1) (line ++ (c ∷ [])) s in
    if c == b'\n' || room == 1 then ended else longer

abbrev token_of : Option (Bytes × Bytes) → Option Bytes
token_of none = none
token_of (some (t, rest)) = some t

abbrev set_token : Option (Bytes × Bytes) → Config → Option Config
set_token none c = some c
set_token (some (key, rest)) c = set_key_value key (token_of (strtok b'\n' rest)) c

-- One round of the loop.
pub set_line : Bytes → Config → Option Config
unfolding contains_byte
set_line line c = if contains_byte b'=' line then set_token (strtok b'=' line) c else some c

abbrev pub continue : (Config → Option Config) → Option Config → Option Config
continue f none = none
continue f (some c) = f c

load_lines : List Bytes → Config → Option Config
unfolding set_line
load_lines [] c = some c
load_lines (line ∷ lines) c = continue (load_lines lines) (set_line line c)

-- `none` is a file that cannot be opened: the defaults stay.
pub load : Option Bytes → Option Config
unfolding load_lines read_lines
load none = some default_config
load (some file) = load_lines (read_lines line_size [] file) default_config

contains_byte-append : (d : ℕ) (t s : Bytes) → contains_byte d (t ++ (d ∷ s)) ≡ true
unfolding contains_byte
contains_byte-append d [] s = ground arith
contains_byte-append d (c ∷ t) s = ground (arith, contains_byte-append d t s)

-- A line that begins with `#` changes nothing, whatever follows.
pub set_line_comment : (s : Bytes) (c : Config) → set_line (b'#' ∷ s) c ≡ some c
unfolding set_line set_key_value strtok key_of beq
set_line_comment s c = elim (Bool-cases (contains_byte b'=' (b'#' ∷ s))) [
  | inl there ↦ rw there
  | inr absent ↦ rw absent
]

name_plain :
    (k : Key) → (name k ≢ []) × All (λ b. b ≢ b'=') (name k) × All (λ b. b ≢ b'\n') (name k)
name_plain Key.bind_address_key = (λ e. cc, omega arith, omega arith)
name_plain _ = (λ e. cc, omega arith, omega arith)

-- A value that one line of a settings file can hold.
pub record IsValue (k : Key) (v : Bytes) : Type 0 where
  pub some_byte : v ≢ []
  pub one_line : All (λ b. b ≢ b'\n') v
  pub fits : length (name k) + length v ≤ 1020

abbrev render_line : Key → Bytes → Bytes
render_line k v = name k ++ (b'=' ∷ (v ++ (b'\n' ∷ [])))

strtok-value :
    (v : Bytes)
    → v ≢ []
    → All (λ b. b ≢ b'\n') v
    → token_of (strtok b'\n' (v ++ (b'\n' ∷ []))) ≡ some v
strtok-value v n h = rw (strtok-token b'\n' v [] n h)

set_key_value-name :
    (k : Key) (v : Bytes) (c : Config) → set_key_value (name k) (some v) c ≡ assign k v c
unfolding set_key_value set_known
set_key_value-name k v c = rw (key_of-name k, set_key_value)

set_line-render :
    (k : Key) (v : Bytes) (c : Config) → IsValue k v → set_line (render_line k v) c ≡ assign k v c
unfolding set_line
set_line-render k v c valid =
    let (some_char, no_equals, _) = name_plain k in
    rw
      (
        contains_byte-append b'=' (name k) _,
        strtok-token b'=' (name k) _ some_char no_equals,
        strtok-value v valid.some_byte valid.one_line,
      )
      (set_key_value-name k v c)

-- A line that fits the buffer is read whole.
read_lines-line :
    (room : ℕ) (line t s : Bytes)
    → All (λ b. b ≢ b'\n') t
    → length t < room
    → read_lines room line (t ++ (b'\n' ∷ s))
      ≡ (line ++ (t ++ (b'\n' ∷ []))) ∷ read_lines line_size [] s
unfolding read_lines
read_lines-line room line [] s h fits = ground arith
read_lines-line room line (c ∷ t) s h fits = ground (
  arith,
  read_lines-line (room - 1) (line ++ (c ∷ [])) t s h.1,
  append_assoc line (c ∷ []) (t ++ (b'\n' ∷ [])),
)

abbrev pub Entries : Type 0
Entries = List (Key × Bytes)

abbrev pub AreValues : Entries → Type 0
AreValues = All (λ e. IsValue e.0 e.1)

abbrev pub render : Entries → Bytes
render [] = []
render ((k, v) ∷ es) = name k ++ (b'=' ∷ (v ++ (b'\n' ∷ render es)))

abbrev pub assign_all : Entries → Config → Option Config
assign_all [] c = some c
assign_all ((k, v) ∷ es) c = continue (assign_all es) (assign k v c)

read_lines-render :
    (k : Key) (v : Bytes) (s : Bytes)
    → IsValue k v
    → read_lines line_size [] (name k ++ (b'=' ∷ (v ++ (b'\n' ∷ s))))
      ≡ render_line k v ∷ read_lines line_size [] s
read_lines-render k v s valid =
    let (_, _, one_line) = name_plain k in
    ap (read_lines line_size []) (sym (append_assoc (name k) (b'=' ∷ v) (b'\n' ∷ s)))
    ∙ read_lines-line line_size [] (name k ++ b'=' ∷ v) s
        (All-append (λ b. b ≢ b'\n') (name k) (b'=' ∷ v) one_line (omega arith, valid.one_line))
        (omega (arith, length-append (name k) (b'=' ∷ v), valid.fits))
    ∙ ap (λ l. l ∷ read_lines line_size [] s) (append_assoc (name k) (b'=' ∷ v) (b'\n' ∷ []))

load_lines-render :
    (es : Entries) (c : Config)
    → AreValues es
    → load_lines (read_lines line_size [] (render es)) c ≡ assign_all es c
unfolding load_lines
load_lines-render [] c h = unfold read_lines in refl
load_lines-render ((k, v) ∷ es) c h = rw (read_lines-render k v (render es) h.0) (
    rw (set_line-render k v c h.0, load_lines)
      (ap (λ f. continue f (assign k v c)) (fun_ext (λ d. load_lines-render es d h.1))))

-- A settings file written as one `key=value` line for each entry loads as the assignments of the
-- entries in their order, on top of the defaults; it is undefined exactly where one of them is.
pub load-render :
    (es : Entries) → AreValues es → load (some (render es)) ≡ assign_all es default_config
unfolding load
load-render es h = load_lines-render es default_config h
