-- ===== src/Pool/Fuel.antt =====
-- How long `getConnection` goes on.
use sync_server.Base.{
  ℕ, zero, suc, ◌≤◌, ◌<◌, ◌≡◌, ◌≢◌, refl, Bool, true, false, Option, none, some, List, [], ◌∷◌,
  Bool-cases, inl, inr, arith, ltb_ℤ,
}
use sync_server.Pool.{
  Pool, Result, connection, thrown, waiting, exhausted, connected, authenticated, create_connection,
  created, get_with, release_connection, again, pinged, test_connection, get_connection,
}
use sync_server.Redis.{Reply, are_reply_errors, Redis, Reply, ping, auth}

-- The network lets only so many tests fail: each failure lowers `failures`, and no call raises it.
pub record IsBounded {W : Type 0} (redis : Redis W) (failures : W → ℕ) : Type 0 where
  pub fails :
      (c : redis.Conn) (w : W)
      → are_reply_errors (redis.command c ping w).0 ≡ true
      → failures (redis.command c ping w).1 < failures w
  pub passes : (c : redis.Conn) (w : W) → failures (redis.command c ping w).1 ≤ failures w
  pub connects : (w : W) → failures (redis.connect w).1 ≤ failures w
  pub auths : (c : redis.Conn) (w : W) → failures (redis.command c auth w).1 ≤ failures w
  pub frees : (c : redis.Conn) (w : W) → failures (redis.free c w) ≤ failures w

module _ {W : Type 0} (redis : Redis W) (failures : W → ℕ) (h : IsBounded redis failures) where
  -- No failure is added, and with fuel for the failures that are left, the fuel is not exhausted.
  abbrev Ends : ℕ → Result redis × Pool redis → ℕ → Type 0
  Ends before (r, p) fuel = (failures p.world ≤ before) × (before < fuel → r ≢ exhausted)

  abbrev AllEnd : (redis.Conn → Pool redis → Result redis × Pool redis) → ℕ → Type 0
  AllEnd test fuel = (c : redis.Conn) (p : Pool redis) → Ends (failures p.world) (test c p) fuel

  authenticated-le :
      (c : redis.Conn) (r : Option Reply × W) → failures (authenticated redis c r).1 ≤ failures r.1
  unfolding authenticated
  authenticated-le c (reply, w) = elim (Bool-cases (are_reply_errors reply)) [
    | inl bad ↦ rw bad (h.frees c w)
    | inr good ↦ rw good (omega arith)
  ]

  connected-le : (r : Option redis.Conn × W) → failures (connected redis r).1 ≤ failures r.1
  unfolding connected
  connected-le (none, w) = omega arith
  connected-le (some c, w) = elim (Bool-cases (redis.err c w)) [
    | inl bad ↦ rw bad (h.frees c w)
    | inr good ↦ rw good (omega (arith, authenticated-le c (redis.command c auth w), h.auths c w))
  ]

  created-Ends :
      (before fuel : ℕ) (r : Option redis.Conn × W) (p : Pool redis)
      → failures r.1 ≤ before
      → Ends before (created redis r p) fuel
  unfolding created
  created-Ends before fuel (none, w) p le = (le, λ small e. cc)
  created-Ends before fuel (some c, w) p le = (le, λ small e. cc)

  get_with-Ends :
      (test : redis.Conn → Pool redis → Result redis × Pool redis) (fuel before : ℕ)
      → AllEnd test fuel
      → (test_conn : Bool) (p : Pool redis) (l : List redis.Conn) → p.connections ≡ l
      → failures p.world ≤ before
      → Ends before (get_with redis test test_conn p) fuel
  unfolding get_with create_connection
  get_with-Ends test fuel before ends true p (c ∷ rest) e le =
      let (a, b) = ends c (record p { connections = rest }) in
      rw (e, get_with) (omega arith, λ small. b (omega arith))
  get_with-Ends test fuel before ends false p (c ∷ rest) e le = rw (e, get_with) (le, λ small e. cc)
  get_with-Ends test fuel before ends test_conn p [] e le =
      elim (Bool-cases (ltb_ℤ p.current_connections p.max_connections)) [
        | inl room ↦
            rw (e, get_with)
              (rw room (
                created-Ends before fuel (create_connection redis p.world) p
                  (omega (arith, connected-le (redis.connect p.world), h.connects p.world))))
        | inr full ↦ rw (e, get_with) (rw full (le, λ small e. cc))
      ]

  again-Ends :
      (test : redis.Conn → Pool redis → Result redis × Pool redis) (fuel before : ℕ)
      → AllEnd test fuel
      → (r : Result redis × Pool redis) → Ends before r fuel
      → Ends before (again redis test r) fuel
  unfolding again
  again-Ends test fuel before ends (connection c, p) (le, ends_here) =
      let (a, b) = ends c p in (omega arith, λ small. b (omega arith))
  again-Ends test fuel before ends (thrown, p) (le, ends_here) = (le, ends_here)
  again-Ends test fuel before ends (waiting, p) (le, ends_here) = (le, ends_here)
  again-Ends test fuel before ends (exhausted, p) (le, ends_here) = (le, ends_here)

  released-le :
      (c : redis.Conn) (p : Pool redis)
      → failures (release_connection redis (some c) p).world ≤ failures p.world
  unfolding release_connection
  released-le c p = elim (Bool-cases (redis.err c p.world)) [
    | inl bad ↦ rw bad (h.frees c p.world)
    | inr good ↦ rw good (omega arith)
  ]

  -- A test that fails leaves fuel enough for the next one.
  pinged-Ends :
      (test : redis.Conn → Pool redis → Result redis × Pool redis) (fuel before : ℕ)
      → AllEnd test fuel
      → (c : redis.Conn) (p : Pool redis) (r : Option Reply × W) → failures r.1 ≤ before
      → (are_reply_errors r.0 ≡ true → failures r.1 < before)
      → Ends before (pinged redis test c p r) (suc fuel)
  unfolding pinged
  pinged-Ends test fuel before ends c p (reply, w) le less =
      let q = release_connection redis (some c) (record p { world = w }) in
      let (a, b) = again-Ends test fuel (failures w) ends (get_with redis test true q) (
        get_with-Ends test fuel (failures w) ends true q q.connections refl
          (released-le c (record p { world = w }))) in
      elim (Bool-cases (are_reply_errors reply)) [
        | inl bad ↦
            let fewer : failures w < before = less bad in
            rw bad (omega arith, λ small. b (omega arith))
        | inr good ↦ rw good (le, λ small e. cc)
      ]

  test_connection-Ends : (fuel : ℕ) → AllEnd (test_connection redis fuel) fuel
  unfolding test_connection
  test_connection-Ends zero c p = (omega arith, λ small. absurd (omega arith))
  test_connection-Ends (suc fuel) c p =
      pinged-Ends (test_connection redis fuel) fuel (failures p.world) (test_connection-Ends fuel) c
        p (redis.command c ping p.world) (h.passes c p.world) (h.fails c p.world)

  -- If the network lets only so many tests fail, `getConnection` comes to an end: with more fuel than
  -- failures it returns a connection, throws, or waits for one to be given back.
  pub get_connection_ends :
      (fuel : ℕ) (test_conn : Bool) (p : Pool redis)
      → failures p.world < fuel
      → (get_connection redis fuel test_conn p).0 ≢ exhausted
  unfolding get_connection
  get_connection_ends fuel test_conn p small =
      (get_with-Ends (test_connection redis fuel) fuel (failures p.world)
          (test_connection-Ends fuel) test_conn p p.connections refl (omega arith)).1
        small
