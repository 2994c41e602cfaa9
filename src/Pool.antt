-- ===== src/Pool.antt =====
-- The pool of connections of RedisStore.cpp, and the connection manager of IDataStore.h.
pub mod Count
pub mod Fuel
pub mod Manager
pub mod Replies
mod Tests
use sync_server.Redis.{Redis, Reply, are_reply_errors, ping, auth}
use sync_server.Base.{
  inc, dec, ℕ, zero, suc, ◌+◌, ◌-◌, ◌*◌, ◌/◌, Bool, true, false, ◌||◌, Option, none, some, List, [],
  ◌∷◌, ◌≡◌, refl, length, ltb, ◌==◌, if◌then◌else◌, ℤ, pos, negsuc, ltb_ℤ,
}

module _ {W : Type 0} (redis : Redis W) where
  abbrev Conn : Type 0
  Conn = redis.Conn

  -- The back of the vector stands first.
  pub record Pool : Type 0 where
    pub connections : List Conn
    pub current_connections : ℤ
    pub max_connections : ℤ
    pub world : W

  -- `waiting` waits for a connection to come back, and `exhausted` has no fuel left.
  pub data Result : Type 0 where
    connection : Conn → Result
    thrown waiting exhausted : Result

  unfoldable pub authenticated : Conn → Option Reply × W → Option Conn × W
  unfolding are_reply_errors
  authenticated c (reply, w) =
      if are_reply_errors reply then (none, redis.free c w) else (some c, w)

  unfoldable pub connected : Option Conn × W → Option Conn × W
  unfolding authenticated
  connected (none, w) = (none, w)
  connected (some c, w) =
      if redis.err c w then (none, redis.free c w) else authenticated c (redis.command c auth w)

  unfoldable pub create_connection : W → Option Conn × W
  unfolding connected
  create_connection w = connected (redis.connect w)

  unfoldable pub created : Option Conn × W → Pool → Result × Pool
  created (some c, w) p =
      (connection c, record p { current_connections = inc p.current_connections; world = w })
  created (none, w) p = (thrown, record p { world = w })

  -- A call that waits goes on as the first branch does, when there is a connection again.
  unfoldable pub get_with : (Conn → Pool → Result × Pool) → Bool → Pool → Result × Pool
  unfolding created create_connection
  get_with test test_conn p = elim p.connections [
    | c ∷ rest ↦
        let q = record p { connections = rest } in if test_conn then test c q else (connection c, q)
    | [] ↦
        if ltb_ℤ p.current_connections p.max_connections
        then created (create_connection p.world) p
        else (waiting, p)
  ]

  unfoldable pub release_connection : Option Conn → Pool → Pool
  release_connection none p = record p { current_connections = dec p.current_connections }
  release_connection (some c) p =
      if redis.err c p.world
      then record p {
        current_connections = dec p.current_connections;
        world = redis.free c p.world;
      }
      else record p { connections = c ∷ p.connections }

  unfoldable pub again : (Conn → Pool → Result × Pool) → Result × Pool → Result × Pool
  again test (connection c, p) = test c p
  again test (thrown, p) = (thrown, p)
  again test (waiting, p) = (waiting, p)
  again test (exhausted, p) = (exhausted, p)

  -- After the test command: a bad connection is given back, and the next one is tested.
  unfoldable pub pinged :
      (Conn → Pool → Result × Pool) → Conn → Pool → Option Reply × W → Result × Pool
  unfolding get_with release_connection again are_reply_errors
  pinged test c p (reply, w) =
      if are_reply_errors reply
      then again test (get_with test true (release_connection (some c) (record p { world = w })))
      else (connection c, record p { world = w })

  -- Each round, and each call inside of it, takes one of the fuel.
  unfoldable pub test_connection : ℕ → Conn → Pool → Result × Pool
  unfolding pinged
  test_connection zero c p = (exhausted, p)
  test_connection (suc fuel) c p = pinged (test_connection fuel) c p (redis.command c ping p.world)

  unfoldable pub get_connection : ℕ → Bool → Pool → Result × Pool
  unfolding get_with test_connection
  get_connection fuel test_conn p = get_with (test_connection fuel) test_conn p

  unfoldable pub add_connection : Option Conn × W → Pool → Pool
  add_connection (none, w) p = record p { world = w }
  add_connection (some c, w) p = record p {
    connections = c ∷ p.connections;
    current_connections = inc p.current_connections;
    world = w;
  }

  -- The loop of `initialize`.
  unfoldable pub fill : ℕ → Pool → Pool
  unfolding add_connection create_connection
  fill zero p = p
  fill (suc n) p = fill n (add_connection (create_connection p.world) p)

  -- The store starts if there is a connection.
  unfoldable pub initialize : ℕ → ℤ → W → Bool × Pool
  unfolding fill
  initialize min max w =
      let p = fill min (record {
        connections = [];
        current_connections = pos 0;
        max_connections = max;
        world = w;
      }) in
      (ltb 0 (length p.connections), p)

  unfoldable pub go_on : Option Reply × W → (W → Bool × W) → Bool × W
  go_on (some reply, w) rest = rest w
  go_on (none, w) rest = (false, w)

  -- The replies of a pipeline, up to the first that is not there; a reply that is an error counts.
  unfoldable pub eat_pipeline_replies : ℕ → Conn → W → Bool × W
  unfolding go_on
  eat_pipeline_replies zero c w = (true, w)
  eat_pipeline_replies (suc cnt) c w = go_on (redis.get_reply c w) (eat_pipeline_replies cnt c)
