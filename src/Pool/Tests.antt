-- ===== src/Pool/Tests.antt =====
-- A pool on a network that lets its first tests fail: its state is how many are left to fail.
use sync_server.Base.{
  Option, if◌then◌else◌, ℕ, zero, suc, ◌<◌, ◌≡◌, ◌≢◌, refl, true, none, some, [], ◌∷◌, arith, ◌==◌,
  pos,
}
use sync_server.Pool.Replies.{after, is_there}
use sync_server.Pool.{Pool, exhausted, get_connection}
use sync_server.Redis.{are_reply_errors, Redis, Command, Reply, ping, text}
use sync_server.Pool.Count.{IsPool, Held, get_connection-Held}
use sync_server.Pool.Fuel.{IsBounded, get_connection_ends}

abbrev pred : ℕ → ℕ
pred zero = zero
pred (suc n) = n

abbrev answer : Command → ℕ → Option Reply × ℕ
answer ping w = (if w == 0 then some (text []) else none, pred w)
answer k w = (some (text []), w)

-- Connections are numbers, and 7 is a bad one.
abbrev network : Redis ℕ
network = record {
  Conn = ℕ;
  connect = λ w. (some 1, w);
  err = λ c w. c == 7;
  command = λ c k w. answer k w;
  append = λ c k w. w;
  get_reply = λ c w. (if w == 0 then none else some (text []), pred w);
  free = λ c w. w;
}

abbrev pool : Pool network
pool = record {
  connections = 2 ∷ 7 ∷ [];
  current_connections = pos 3;
  max_connections = pos 4;
  world = 2;
}

pool-IsPool : IsPool network 4 1 pool
pool-IsPool = record { limit = refl; counted = refl; bounded = omega arith }

ping_fails :
    (c w : ℕ)
    → are_reply_errors (network.command c ping w).0 ≡ true
    → (network.command c ping w).1 < w
unfolding are_reply_errors
ping_fails c zero e = cc
ping_fails c (suc w) e = omega arith

network-IsBounded : IsBounded network (λ w. w)
network-IsBounded = record {
  fails = ping_fails;
  passes = λ c w. ground arith;
  connects = λ w. omega arith;
  auths = λ c w. omega arith;
  frees = λ c w. omega arith;
}

get_connection-Held_example : Held network 4 1 (get_connection network 3 true pool)
get_connection-Held_example = get_connection-Held network 3 4 1 true pool pool-IsPool

get_connection_ends_example : (get_connection network 3 true pool).0 ≢ exhausted
get_connection_ends_example =
    get_connection_ends network (λ w. w) network-IsBounded 3 true pool (omega arith)

replies_there : (i : ℕ) → i < 2 → is_there network 1 i 2 ≡ true
unfolding after
replies_there zero h = refl
replies_there (suc zero) h = refl
replies_there (suc (suc i)) h = absurd (omega arith)
