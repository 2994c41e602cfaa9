-- ===== src/Http/Bounds.antt =====
-- The reply fits the buffer that `build_reply` allocates.
use sync_server.Base.{
  ◌+◌, ◌≤◌, ◌≡◌, Option, none, some, ◌∷◌, ◌++◌, arith, Bytes, length, length-append, Option-cases,
  inl, inr,
}
use sync_server.Base.Decimal.{print_unsigned, length-print_unsigned-le}
use sync_server.Http.{
  Status, Connection, http_200, http_400, http_403, http_500, http_503, keep_alive, close_con, head,
  render, build_reply, effective_message, reply_capacity,
}

length-head-le : (s : Status) (c : Connection) → length (head s c) ≤ 108
length-head-le http_200 keep_alive = omega arith
length-head-le http_400 keep_alive = omega arith
length-head-le http_403 keep_alive = omega arith
length-head-le http_500 keep_alive = omega arith
length-head-le http_503 keep_alive = omega arith
length-head-le http_200 close_con = omega arith
length-head-le http_400 close_con = omega arith
length-head-le http_403 close_con = omega arith
length-head-le http_500 close_con = omega arith
length-head-le http_503 close_con = omega arith

length-render-le :
    (s : Status) (c : Connection) (m : Bytes) → length (render s c m) ≤ length m + 122
unfolding render
length-render-le s c m =
    let tail = 13 ∷ 10 ∷ 13 ∷ 10 ∷ m in
    omega (
      arith,
      length-append (head s c) (print_unsigned (length m) ++ tail),
      length-append (print_unsigned (length m)) tail,
      length-head-le s c,
      length-print_unsigned-le (length m),
    )

-- A message of the caller's leaves at least its own length, a message of the server's at most 40.
effective_message-fits :
    (s : Status) (msg : Option Bytes) (m : Bytes)
    → effective_message s msg ≡ some m
    → length m + 123 ≤ reply_capacity msg
unfolding effective_message reply_capacity
effective_message-fits http_200 none m h = cc
effective_message-fits http_200 (some x) m h = ground arith
effective_message-fits s none m h = ground arith
effective_message-fits s (some x) m h = ground arith

-- Whatever reply `build_reply` makes, it and its terminating NUL fit the bytes that were allocated.
pub build_reply_fits :
    (s : Status) (c : Connection) (msg : Option Bytes) (r : Bytes)
    → build_reply s c msg ≡ some r
    → length r + 1 ≤ reply_capacity msg
unfolding build_reply
build_reply_fits s c msg r h = elim (Option-cases (effective_message s msg)) [
  | inl e ↦ ground arith
  | inr (m, e) ↦ ground (arith, length-render-le s c m, effective_message-fits s msg m)
]
