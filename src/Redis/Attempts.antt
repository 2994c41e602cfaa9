-- ===== src/Redis/Attempts.antt =====
-- The loop that the operations of RedisStore.cpp share: take a connection, try, give the connection
-- back, and begin again while there are attempts left.
use sync_server.Base.{
  ℕ, zero, suc, Bool, true, false, ◌||◌, none, some, List, [], ◌∷◌, length, if◌then◌else◌,
}
use sync_server.Redis.{Redis, Command}
use sync_server.Pool.{
  Pool, Result, connection, thrown, waiting, exhausted, get_connection, release_connection,
  eat_pipeline_replies,
}

-- What one attempt comes to, with the variables that the loop carries. A failed attempt says whether
-- it sets `testConn`. `undefined` reads memory that holds no value.
pub data Attempt (A : Type 0) : Type 0 where
  succeeded : A → Attempt A
  failed : Bool → A → Attempt A
  undefined : Attempt A

-- What the operation returns; `stuck` waits for a connection.
pub data Ran (A : Type 0) : Type 0 where
  ran : Bool → A → Ran A
  stuck faulted : Ran A

module _ {W : Type 0} (redis : Redis W) where
  abbrev pub Body : Type 0 → Type 0
  Body A = A → redis.Conn → W → Attempt A × W

  -- The rest of the loop: `testConn`, the variables, and the pool.
  abbrev pub Rest : Type 0 → Type 0
  Rest A = Bool → A → Pool redis → Ran A × Pool redis

  module _ {A : Type 0} where
    unfoldable pub attempted : Rest A → Bool → Attempt A → Pool redis → Ran A × Pool redis
    attempted rest test (succeeded a) p = (ran true a, p)
    attempted rest test (failed tests a) p = rest (test || tests) a p
    attempted rest test undefined p = (faulted, p)

    unfoldable pub worked :
        Rest A → Bool → redis.Conn → Pool redis → Attempt A × W → Ran A × Pool redis
    unfolding attempted release_connection
    worked rest test c p (r, w) =
        attempted rest test r (release_connection redis (some c) (record p { world = w }))

    -- `on_throw` is the value that `success` has when `getConnection` throws, and `tests` says
    -- whether the handler sets `testConn`.
    unfoldable pub tried :
        Rest A → Bool → Bool → Body A → Bool → A → Result redis × Pool redis → Ran A × Pool redis
    unfolding worked release_connection
    tried rest on_throw tests body test a (connection c, p) =
        worked rest test c p (body a c p.world)
    tried rest on_throw tests body test a (thrown, p) =
        let q = release_connection redis none p in
        if on_throw then (ran true a, q) else rest (test || tests) a q
    tried rest on_throw tests body test a (waiting, p) = (stuck, p)
    tried rest on_throw tests body test a (exhausted, p) = (stuck, p)

    -- `fuel` is what `getConnection` gets.
    unfoldable pub attempts : ℕ → ℕ → Bool → Bool → Body A → Rest A
    unfolding tried get_connection
    attempts fuel zero on_throw tests body test a p = (ran false a, p)
    attempts fuel (suc n) on_throw tests body test a p =
        tried (attempts fuel n on_throw tests body) on_throw tests body test a
          (get_connection redis fuel test p)

  unfoldable pub append_all : List Command → redis.Conn → W → W
  append_all [] c w = w
  append_all (k ∷ commands) c w = append_all commands c (redis.append c k w)

  -- The commands are sent, and a reply to each is waited for.
  unfoldable pub pipeline : List Command → redis.Conn → W → Bool × W
  unfolding append_all eat_pipeline_replies
  pipeline commands c w = eat_pipeline_replies redis (length commands) c (append_all commands c w)

  unfoldable pub judged : {A : Type 0} → A → Bool × W → Attempt A × W
  judged a (success, w) = (if success then succeeded a else failed true a, w)

  -- An attempt that is a pipeline.
  unfoldable pub piped : List Command → Body (Unit {0})
  unfolding pipeline judged
  piped commands a c w = judged a (pipeline commands c w)
