-- ===== src/Request/Receive.antt =====
-- `read_incoming_bytes` (server.cpp).
use mathlib.Core.Path.{subst}
use mathlib.Core.List.{append-nil, append_assoc}
use sync_server.Base.{
  zero, suc, sym, ◌∙◌, length-append, ℕ, ◌+◌, ◌-◌, ◌%◌, ◌^◌, ◌≤◌, ◌<◌, ◌≡◌, refl, Bool, true, false,
  ◌||◌, List, [], ◌∷◌, ◌++◌, arith, Bytes, ltb, leb, ◌==◌, if◌then◌else◌, length,
}

-- What one call of `SSL_read` returns, and `SSL_has_pending` after it: bytes, 0 or -1.
pub data Read : Type 0 where
  got : Bytes → Bool → Read
  nothing : Bool → Read
  failed : Read

-- `blocked` waits for the connection; `overflow` writes outside of the buffer.
pub data Incoming : Type 0 where
  null blocked overflow : Incoming
  received : Bytes → Incoming

abbrev ssl_read_attempts : ℕ
ssl_read_attempts = 10

-- The end of the function, for a buffer of `size` bytes that holds `buf`, with `i` bytes counted.
unfoldable pub finish : ℕ → ℕ → Bytes → Incoming
finish size i buf =
    if ltb i 1 then null else if i % 1024 == 0 || ltb i size then received buf else overflow

abbrev drop_last : Bytes → Bytes
drop_last [] = []
drop_last (c ∷ []) = []
drop_last (c ∷ d ∷ s) = c ∷ drop_last (d ∷ s)

-- -1 is added to the unsigned counter, and ends the loop.
abbrev after_failure : Bool → ℕ → Bytes → Incoming
after_failure last i buf =
    if last then null else finish (i + 1024) ((i + (2 ^ 32 - 1)) % 2 ^ 32) (drop_last buf)

-- The loop: what `SSL_read` returns, in turn, the attempts and the bytes so far, which are fewer
-- than 2 ^ 32 and counted by `i`. Both callers pass a length that is no negative number.
unfoldable pub receive : ℕ → List Read → ℕ → Bytes → Incoming
unfolding finish
receive content_length [] attempt buf = blocked
receive content_length (got bytes pending ∷ reads) attempt buf =
    let i = length buf in
    let rest = receive content_length reads attempt (buf ++ bytes) in
    if ltb (i + length bytes) content_length || pending
    then rest
    else finish (i + 1024) (i + length bytes) (buf ++ bytes)
receive content_length (nothing pending ∷ reads) attempt buf =
    let i = length buf in
    let rest = receive content_length reads (attempt + 1) buf in
    if leb ssl_read_attempts attempt
    then null
    else if ltb i content_length || pending
    then rest
    else finish (i + 1024) i buf
receive content_length (failed ∷ reads) attempt buf =
    after_failure (leb ssl_read_attempts attempt) (length buf) buf

unfoldable pub read_incoming_bytes : ℕ → List Read → Incoming
unfolding receive
read_incoming_bytes content_length reads = receive content_length reads 0 []

-- Parts of a text that do not end the loop, with what is pending behind each.
abbrev pub Parts : Type 0
Parts = List (Bytes × Bool)

abbrev pub joined : Parts → Bytes
joined [] = []
joined ((bytes, pending) ∷ parts) = bytes ++ joined parts

abbrev pub reads_of : Parts → List Read → List Read
reads_of [] reads = reads
reads_of ((bytes, pending) ∷ parts) reads = got bytes pending ∷ reads_of parts reads

-- Behind each part, the text is short of the length, or bytes are pending.
abbrev pub GoesOn : ℕ → ℕ → Parts → Type 0
GoesOn n i [] = Unit {0}
GoesOn n i ((bytes, pending) ∷ parts) =
    ((ltb (i + length bytes) n || pending) ≡ true) × GoesOn n (i + length bytes) parts

receive-reads_of :
    (n : ℕ) (parts : Parts) (reads : List Read) (attempt : ℕ) (buf : Bytes)
    → GoesOn n (length buf) parts
    → receive n (reads_of parts reads) attempt buf ≡ receive n reads attempt (buf ++ joined parts)
unfolding receive
receive-reads_of n [] reads attempt buf h = rw (append-nil buf)
receive-reads_of n ((bytes, pending) ∷ parts) reads attempt buf h = rw h.0 (
    receive-reads_of n parts reads attempt (buf ++ bytes)
      (subst (λ i. GoesOn n i parts) (sym (length-append buf bytes)) h.1)
    ∙ rw (append_assoc buf bytes (joined parts)))

-- A text that comes in parts, of which only the last ends the loop, is received whole, unless its
-- last part fills the buffer and its length is no multiple of 1024: then the NUL is written one
-- byte behind the buffer.
pub read_incoming_bytes-parts :
    (n : ℕ) (parts : Parts) (last : Bytes) (reads : List Read)
    → GoesOn n 0 parts
    → 0 < length last
    → n ≤ length (joined parts) + length last
    → read_incoming_bytes n (reads_of parts (got last false ∷ reads)) ≡ (
        if (length (joined parts) + length last) % 1024 == 0 || ltb (length last) 1024
        then received (joined parts ++ last)
        else overflow)
unfolding read_incoming_bytes receive finish
read_incoming_bytes-parts n parts last reads on full enough =
    rw (receive-reads_of n parts (got last false ∷ reads) 0 [] on) (ground arith)

-- When a read fails with -1, the text so far comes back without its last byte; if there was only
-- one byte, nothing comes back, and if there was none, the NUL is written outside of the buffer.
pub read_incoming_bytes-failed :
    (n : ℕ) (parts : Parts) (reads : List Read)
    → GoesOn n 0 parts
    → length (joined parts) < 2 ^ 32
    → read_incoming_bytes n (reads_of parts (failed ∷ reads)) ≡ (
        if length (joined parts) == 0
        then overflow
        else if length (joined parts) == 1
        then null
        else received (drop_last (joined parts)))
unfolding read_incoming_bytes receive finish
read_incoming_bytes-failed n parts reads on small =
    rw (receive-reads_of n parts (failed ∷ reads) 0 [] on) (ground arith)

abbrev pub idle : ℕ → List Read
idle zero = []
idle (suc k) = nothing false ∷ idle k

receive-idle :
    (n k attempt : ℕ) (buf : Bytes)
    → length buf < n
    → attempt + k ≡ ssl_read_attempts
    → receive n (idle (suc k)) attempt buf ≡ null
unfolding receive
receive-idle n zero attempt buf short e = ground arith
receive-idle n (suc k) attempt buf short e = ground (arith, receive-idle n k (attempt + 1) buf)

-- A connection that gives no more bytes is given up after the eleventh such read.
pub read_incoming_bytes-idle :
    (n : ℕ) (parts : Parts)
    → GoesOn n 0 parts
    → length (joined parts) < n
    → read_incoming_bytes n (reads_of parts (idle 11)) ≡ null
unfolding read_incoming_bytes
read_incoming_bytes-idle n parts on short =
    rw (receive-reads_of n parts (idle 11) 0 [] on) (receive-idle n 10 0 (joined parts) short refl)
