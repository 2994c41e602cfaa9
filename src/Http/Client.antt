-- ===== src/Http/Client.antt =====
-- A client's reading of a reply, written from RFC 7230 and not from the server's code: the status
-- code, the connection option, the length and the body behind the blank line.
use sync_server.Base.{
  All-map, ℕ, ◌<◌, ◌^◌, ◌≡◌, ◌≢◌, refl, Bool, true, false, Option, none, some, [], ◌∷◌, ◌++◌, arith,
  Bytes, codes, ◌==◌, if◌then◌else◌, length, ℤ, pos, All,
}
use sync_server.Base.Decimal.{print_unsigned, atoi, atoi-print_unsigned_self, print_unsigned-All}
use sync_server.Http.{
  Status, Connection, http_200, http_400, http_403, http_500, http_503, keep_alive, close_con, head,
  render, build_reply, effective_message,
}

-- The rest of the text behind a prefix.
strip : Bytes → Bytes → Option Bytes
strip [] s = some s
strip (p ∷ ps) [] = none
strip (p ∷ ps) (c ∷ s) = if p == c then strip ps s else none

-- The rest of the text behind the first occurrence of a pattern.
after : Bytes → Bytes → Option Bytes
unfolding strip
after pat [] = none
after pat (c ∷ s) =
    let rest = after pat s in elim (strip pat (c ∷ s)) [ none ↦ rest | some r ↦ some r ]

-- The header, and the body behind the first blank line.
split_blank : Bytes → Option (Bytes × Bytes)
unfolding strip
split_blank [] = none
split_blank (c ∷ s) =
    let rest = split_blank s in
    elim (strip (13 ∷ 10 ∷ 13 ∷ 10 ∷ []) (c ∷ s)) [
      | none ↦ elim rest [ none ↦ none | some (h, b) ↦ some (c ∷ h, b) ]
      | some b ↦ some ([], b)
    ]

pub record Reply : Type 0 where
  pub code : Option ℤ
  pub keeps_open : Bool
  pub content_length : Option ℤ
  pub body : Bytes

abbrev read_number : Option Bytes → Option ℤ
read_number none = none
read_number (some s) = atoi s

abbrev found : Option Bytes → Bool
found none = false
found (some s) = true

abbrev line : Bytes → Bytes
line s = 13 ∷ 10 ∷ s

read_head : Bytes → Bytes → Reply
unfolding after
read_head h b = record {
  code = read_number (strip (codes "HTTP/1.1 ") h);
  keeps_open = found (after (line (codes "Connection: keep-alive")) h);
  content_length = read_number (after (line (codes "Content-Length: ")) h);
  body = b;
}

pub read_reply : Bytes → Option Reply
unfolding split_blank read_head
read_reply s = elim (split_blank s) [ none ↦ none | some (h, b) ↦ some (read_head h b) ]

abbrev pub code_of : Status → ℕ
code_of http_200 = 200
code_of http_400 = 400
code_of http_403 = 403
code_of http_500 = 500
code_of http_503 = 503

abbrev pub is_keep_alive : Connection → Bool
is_keep_alive keep_alive = true
is_keep_alive close_con = false

split_blank-digits :
    (ds m : Bytes)
    → All (λ d. d ≢ 13) ds
    → split_blank (ds ++ (13 ∷ 10 ∷ 13 ∷ 10 ∷ m)) ≡ some (ds, m)
unfolding split_blank
split_blank-digits [] m h = refl
split_blank-digits (d ∷ ds) m h = ground (arith, split_blank-digits ds m h.1)

-- No header of the server holds a blank line.
split_blank-head :
    (s : Status) (c : Connection) (x h b : Bytes)
    → split_blank x ≡ some (h, b)
    → split_blank (head s c ++ x) ≡ some (head s c ++ h, b)
unfolding split_blank
split_blank-head http_200 keep_alive x h b e = rw e
split_blank-head http_400 keep_alive x h b e = rw e
split_blank-head http_403 keep_alive x h b e = rw e
split_blank-head http_500 keep_alive x h b e = rw e
split_blank-head http_503 keep_alive x h b e = rw e
split_blank-head http_200 close_con x h b e = rw e
split_blank-head http_400 close_con x h b e = rw e
split_blank-head http_403 close_con x h b e = rw e
split_blank-head http_500 close_con x h b e = rw e
split_blank-head http_503 close_con x h b e = rw e

after-digits : (p ds : Bytes) → All (λ d. d ≢ 13) ds → after (13 ∷ p) ds ≡ none
unfolding after
after-digits p [] h = refl
after-digits p (d ∷ ds) h = ground (arith, after-digits p ds h.1)

module _ (ds b : Bytes) (n : ℕ) (numeric : All (λ d. d ≢ 13) ds)
    (value : atoi ds ≡ some (pos n)) where
  reading : Status → Connection → Reply
  reading s c = record {
    code = some (pos (code_of s));
    keeps_open = is_keep_alive c;
    content_length = some (pos n);
    body = b;
  }

  unset : after (line (codes "Connection: keep-alive")) ds ≡ none
  unset = after-digits (10 ∷ codes "Connection: keep-alive") ds numeric

  read_head-head : (s : Status) (c : Connection) → read_head (head s c ++ ds) b ≡ reading s c
  unfolding read_head atoi reading
  read_head-head http_200 keep_alive = rw value
  read_head-head http_400 keep_alive = rw value
  read_head-head http_403 keep_alive = rw value
  read_head-head http_500 keep_alive = rw value
  read_head-head http_503 keep_alive = rw value
  read_head-head http_200 close_con = rw (value, unset)
  read_head-head http_400 close_con = rw (value, unset)
  read_head-head http_403 close_con = rw (value, unset)
  read_head-head http_500 close_con = rw (value, unset)
  read_head-head http_503 close_con = rw (value, unset)

digits_plain : (n : ℕ) → All (λ c. c ≢ 13) (print_unsigned n)
digits_plain n = All-map (print_unsigned n) (λ a h. ground arith) (print_unsigned-All n)

-- A reply of less than 2 GB reads back as what it was built from: the status code, the connection
-- option, a Content-Length equal to the length of the body, and the body.
pub read_reply-build_reply :
    (s : Status) (c : Connection) (msg : Option Bytes) (m : Bytes)
    → effective_message s msg ≡ some m
    → length m < 2 ^ 31
    → (r : Bytes) × (build_reply s c msg ≡ some r)
      × (read_reply r
          ≡ some (record {
            code = some (pos (code_of s));
            keeps_open = is_keep_alive c;
            content_length = some (pos (length m));
            body = m;
          }))
unfolding build_reply read_reply reading
read_reply-build_reply s c msg m e h =
    let ds = print_unsigned (length m) in
    let plain = digits_plain (length m) in
    (
      render s c m,
      rw (e, build_reply),
      rw (split_blank-head s c _ ds m (split_blank-digits ds m plain), read_reply)
          (rw (read_head-head ds m (length m) plain (atoi-print_unsigned_self (length m) h) s c)),
    )
