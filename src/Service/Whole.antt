-- ===== src/Service/Whole.antt =====
-- A request that comes whole: from the bytes of the connection to the handler and its reply.
use sync_server.Base.{
  ℕ, ◌+◌, ◌^◌, ◌≤◌, ◌<◌, ◌≡◌, ◌≢◌, refl, ◌∙◌, true, false, none, some, List, ◌∷◌, ◌++◌, Bytes,
  arith, ltb, ltb_ℤ, length, All, pos, if◌then◌else◌,
}
use sync_server.Handler.State.{State, Server}
use sync_server.Handler.Dispatch.{Now, post, OperationType, handle_request}
use sync_server.Request.{parse_header}
use sync_server.Request.Receive.{
  Read, got, received, Parts, joined, reads_of, GoesOn, read_incoming_bytes,
  read_incoming_bytes-parts,
}
use sync_server.Request.Render.{IsOther, render_post, parse_header-render_post}
use sync_server.Service.Memory.{c_str, from, has_brace}
use sync_server.Service.Embedded.{
  IsPlain, has_brace-append, c_str_lem, from-append, has_no_brace, embedded-render_post,
}
use sync_server.Service.Thread.{
  reply_with, serve_request, serve_incoming, serve_post, serve_parsed, serve_header, serve_read,
  serve,
}

-- The lines of the header of a post, with no brace in them.
pub record IsPost (version : Bytes) (lines : List Bytes) (n : ℕ) : Type 0 where
  pub one_line : All (λ b. b ≢ b'\n') version
  pub others : All IsOther lines
  pub plain_version : IsPlain version
  pub plain_lines : All IsPlain lines
  pub low : 2 ≤ n
  pub high : n < 2 ^ 31

-- A text in parts, which is received whole.
pub record ComesWhole (n : ℕ) (parts : Parts) (last text : Bytes) : Type 0 where
  pub whole : joined parts ++ last ≡ text
  pub on : GoesOn n 0 parts
  pub some_byte : 0 < length last
  pub enough : n ≤ length (joined parts) + length last
  pub fits : length last < 1024
  pub no_nul : All (λ b. b ≢ 0) text

-- The two ways in which a client sends the JSON of a post: with the header, or after it. The header
-- has any other lines before its length, and no brace up to the JSON.
pub data Sent (op : OperationType) (json : Bytes) : List Read → List Read → Type 0 where
  with_header :
      (version : Bytes) (lines : List Bytes) (n : ℕ) (gap rest : Bytes) (parts : Parts)
      (last : Bytes) (reads second : List Read)
      → IsPost version lines n
      → IsPlain gap
      → json ≡ b'{' ∷ rest
      → 1 ≤ length rest
      → All (λ b. b ≢ 0) (b'{' ∷ rest)
      → ComesWhole 0 parts last (render_post op version lines n (gap ++ b'{' ∷ rest))
      → Sent op json (reads_of parts (got last false ∷ reads)) second
  after_header :
      (version : Bytes) (lines : List Bytes) (n : ℕ) (gap : Bytes) (parts parts' : Parts)
      (last last' : Bytes) (reads reads' : List Read)
      → IsPost version lines n
      → IsPlain gap
      → 2 ≤ length json
      → ComesWhole 0 parts last (render_post op version lines n gap)
      → ComesWhole n parts' last' json
      → Sent op json
          (reads_of parts (got last false ∷ reads))
          (reads_of parts' (got last' false ∷ reads'))

receives :
    (n : ℕ) (parts : Parts) (last text : Bytes) (reads : List Read)
    → ComesWhole n parts last text
    → read_incoming_bytes n (reads_of parts (got last false ∷ reads)) ≡ received text
receives n parts last text reads h =
    read_incoming_bytes-parts n parts last reads h.on h.some_byte h.enough
    ∙ rw h.whole (ground (arith, h.fits))

module _ {S : Type 0} (sv : Server S) (now : Now) (op : OperationType) where
  serve-received :
      (first : List Read) (second : List Read) (text : Bytes) (s : State S)
      → read_incoming_bytes 0 first ≡ received text
      → All (λ b. b ≢ 0) text
      → serve sv true now first second s ≡ serve_header sv now text second (parse_header text) s
  unfolding serve serve_read
  serve-received first second text s e h = rw e (rw (c_str_lem text h) refl)

  serve_header-post :
      (version : Bytes) (lines : List Bytes) (n : ℕ) (rest : Bytes) (second : List Read)
      (s : State S)
      → IsPost version lines n
      → serve_header sv now
          (render_post op version lines n rest)
          second
          (parse_header (render_post op version lines n rest))
          s
        ≡ serve_post sv now op
            (pos n)
            (if has_brace rest then some (c_str (from b'{' rest)) else none)
            second
            s
  unfolding serve_header serve_parsed
  serve_header-post version lines n rest second s h =
      rw (parse_header-render_post op version lines n rest h.one_line h.others h.high) (
        rw
          (embedded-render_post op version lines n rest h.one_line h.others h.plain_version
            h.plain_lines)
          refl)

  serve_request-handled :
      (request : Bytes) (s : State S)
      → 2 ≤ length request
      → serve_request sv now op (some request) s
        ≡ reply_with sv (handle_request sv now op request post s)
  unfolding serve_request
  serve_request-handled request s h =
      let long : ltb (length request) 2 ≡ false = ground arith in rw long refl

  serve_post-embedded :
      (n : ℕ) (json : Bytes) (second : List Read) (s : State S)
      → 2 ≤ n
      → 2 ≤ length json
      → serve_post sv now op (pos n) (some json) second s
        ≡ reply_with sv (handle_request sv now op json post s)
  unfolding serve_post
  serve_post-embedded n json second s low h =
      let long : ltb_ℤ (pos n) (pos 2) ≡ false = ground arith in
      rw long (serve_request-handled json s h)

  serve_post-separate :
      (n : ℕ) (parts : Parts) (last json : Bytes) (reads : List Read) (s : State S)
      → 2 ≤ n
      → ComesWhole n parts last json
      → 2 ≤ length json
      → serve_post sv now op (pos n) none (reads_of parts (got last false ∷ reads)) s
        ≡ reply_with sv (handle_request sv now op json post s)
  unfolding serve_post serve_incoming
  serve_post-separate n parts last json reads s low comes h =
      let long : ltb_ℤ (pos n) (pos 2) ≡ false = ground arith in
      rw long (
        rw (receives n parts last json reads comes)
          (rw (c_str_lem json comes.no_nul) (serve_request-handled json s h)))

  serve_with_header :
      (version : Bytes) (lines : List Bytes) (n : ℕ) (gap json : Bytes) (parts : Parts)
      (last : Bytes) (reads second : List Read) (s : State S)
      → IsPost version lines n
      → IsPlain gap
      → 1 ≤ length json
      → ComesWhole 0 parts last (render_post op version lines n (gap ++ b'{' ∷ json))
      → All (λ b. b ≢ 0) (b'{' ∷ json)
      → serve sv true now (reads_of parts (got last false ∷ reads)) second s
        ≡ reply_with sv (handle_request sv now op (b'{' ∷ json) post s)
  unfolding has_brace
  serve_with_header version lines n gap json parts last reads second s is_post plain some_byte comes
        no_nul =
      serve-received (reads_of parts (got last false ∷ reads)) second _ s
        (receives 0 parts last _ reads comes) comes.no_nul
      ∙ serve_header-post version lines n (gap ++ b'{' ∷ json) second s is_post
      ∙ rw
          (
            has_brace-append gap (b'{' ∷ json) plain,
            from-append gap json plain,
            c_str_lem (b'{' ∷ json) no_nul,
          )
          (serve_post-embedded n (b'{' ∷ json) second s is_post.low (omega arith))

  serve_after_header :
      (version : Bytes) (lines : List Bytes) (n : ℕ) (gap json : Bytes) (parts parts' : Parts)
      (last last' : Bytes) (reads reads' : List Read) (s : State S)
      → IsPost version lines n
      → IsPlain gap
      → 2 ≤ length json
      → ComesWhole 0 parts last (render_post op version lines n gap)
      → ComesWhole n parts' last' json
      → serve sv true now
          (reads_of parts (got last false ∷ reads))
          (reads_of parts' (got last' false ∷ reads'))
          s
        ≡ reply_with sv (handle_request sv now op json post s)
  serve_after_header version lines n gap json parts parts' last last' reads reads' s is_post plain
        long comes comes' =
      serve-received (reads_of parts (got last false ∷ reads)) _ _ s
        (receives 0 parts last _ reads comes) comes.no_nul
      ∙ serve_header-post version lines n gap _ s is_post
      ∙ rw (has_no_brace gap plain)
          (serve_post-separate n parts' last' json reads' s is_post.low comes' long)

  -- A post of one of the four operations whose JSON comes with the header, or after it, in any parts
  -- that are received whole, is answered with what the handler of its operation makes of exactly that
  -- JSON.
  pub serve_sent :
      (json : Bytes) (first second : List Read) (s : State S)
      → Sent op json first second
      → serve sv true now first second s ≡ reply_with sv (handle_request sv now op json post s)
  serve_sent json _ _ s (with_header version lines n gap rest parts last reads second h p e l z c) =
      rw e (serve_with_header version lines n gap rest parts last reads second s h p l c z)
  serve_sent json _ _ s
        (after_header version lines n gap parts parts' last last' reads reads' h p l c c') =
      serve_after_header version lines n gap json parts parts' last last' reads reads' s h p l c c'
