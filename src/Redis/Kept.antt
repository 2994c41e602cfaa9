-- ===== src/Redis/Kept.antt =====
-- The operations give back every connection that they take.
use sync_server.Base.{
  ℕ, zero, suc, ◌≡◌, ◌≢◌, refl, Bool, true, false, ◌||◌, Option, none, some, List, [], ◌∷◌, is_some,
  Bool-cases, inl, inr, ltb_ℤ,
}
use sync_server.Redis.{Redis, Reply, are_reply_errors}
use sync_server.Redis.Attempts.{
  Attempt, succeeded, failed, undefined, Ran, stuck, Body, Rest, attempted, worked, tried, attempts,
}
use sync_server.Pool.{
  Pool, Result, connection, thrown, waiting, exhausted, create_connection, created, get_with, again,
  pinged, test_connection, get_connection, release_connection,
}
use sync_server.Pool.Count.{IsPool, Held, get_connection-Held, release_connection-IsPool}

module _ {W : Type 0} (redis : Redis W)
    (connects : (w : W) → is_some (create_connection redis w).0 ≡ true) where
  abbrev Test : Type 0
  Test = redis.Conn → Pool redis → Result redis × Pool redis

  abbrev NeverThrows : Test → Type 0
  NeverThrows test = (c : redis.Conn) (p : Pool redis) → (test c p).0 ≢ thrown

  created_given :
      (o : Option redis.Conn × W) (p : Pool redis)
      → is_some o.0 ≡ true
      → (created redis o p).0 ≢ thrown
  unfolding created
  created_given (some c, w) p h e = cc
  created_given (none, w) p h e = cc

  get_with_given :
      (test : Test)
      → NeverThrows test
      → (test_conn : Bool) (p : Pool redis) (l : List redis.Conn) → p.connections ≡ l
      → (get_with redis test test_conn p).0 ≢ thrown
  unfolding get_with
  get_with_given test never true p (c ∷ rest) e =
      rw (e, get_with) (never c (record p { connections = rest }))
  get_with_given test never false p (c ∷ rest) e = rw (e, get_with) (λ x. cc)
  get_with_given test never test_conn p [] e =
      elim (Bool-cases (ltb_ℤ p.current_connections p.max_connections)) [
        | inl room ↦
            rw (e, get_with)
              (rw room (created_given (create_connection redis p.world) p (connects p.world)))
        | inr full ↦ rw (e, get_with) (rw full (λ x. cc))
      ]

  again_given :
      (test : Test)
      → NeverThrows test
      → (r : Result redis × Pool redis) → r.0 ≢ thrown
      → (again redis test r).0 ≢ thrown
  unfolding again
  again_given test never (connection c, p) h = never c p
  again_given test never (thrown, p) h = h
  again_given test never (waiting, p) h = h
  again_given test never (exhausted, p) h = h

  pinged_given :
      (test : Test)
      → NeverThrows test
      → (c : redis.Conn) (p : Pool redis) (r : Option Reply × W)
      → (pinged redis test c p r).0 ≢ thrown
  unfolding pinged
  pinged_given test never c p (reply, w) = elim (Bool-cases (are_reply_errors reply)) [
    | inl bad ↦ rw bad (
        again_given test never _ (
          get_with_given test never true
            (release_connection redis (some c) (record p { world = w })) _ refl))
    | inr good ↦ rw good (λ x. cc)
  ]

  test_connection_given : (fuel : ℕ) → NeverThrows (test_connection redis fuel)
  unfolding test_connection
  test_connection_given zero c p = λ e. cc
  test_connection_given (suc fuel) c p =
      pinged_given (test_connection redis fuel) (test_connection_given fuel) c p _

  get_connection_given :
      (fuel : ℕ) (test_conn : Bool) (p : Pool redis)
      → (get_connection redis fuel test_conn p).0 ≢ thrown
  unfolding get_connection
  get_connection_given fuel test_conn p =
      get_with_given (test_connection redis fuel) (test_connection_given fuel) test_conn p _ refl

  module _ {A : Type 0} where
    -- An operation that returns.
    abbrev pub Kept : ℕ → ℕ → Ran A × Pool redis → Type 0
    Kept m k (stuck, p) = Unit {0}
    Kept m k (_, p) = IsPool redis m k p

    abbrev Keeps : ℕ → ℕ → Rest redis A → Type 0
    Keeps m k rest =
        (test : Bool) (a : A) (p : Pool redis) → IsPool redis m k p → Kept m k (rest test a p)

    attempted-Kept :
        (m k : ℕ) (rest : Rest redis A)
        → Keeps m k rest
        → (test : Bool) (r : Attempt A) (p : Pool redis) → IsPool redis m k p
        → Kept m k (attempted redis rest test r p)
    unfolding attempted
    attempted-Kept m k rest keeps test (succeeded a) p h = h
    attempted-Kept m k rest keeps test (failed tests a) p h = keeps (test || tests) a p h
    attempted-Kept m k rest keeps test undefined p h = h

    worked-Kept :
        (m k : ℕ) (rest : Rest redis A)
        → Keeps m k rest
        → (test : Bool) (c : redis.Conn) (p : Pool redis) (r : Attempt A × W)
        → IsPool redis m (suc k) p
        → Kept m k (worked redis rest test c p r)
    unfolding worked
    worked-Kept m k rest keeps test c p (r, w) h = attempted-Kept m k rest keeps test r _ (
        release_connection-IsPool redis m k c (record p { world = w })
          (record { limit = h.limit; counted = h.counted; bounded = h.bounded }))

    tried-Kept :
        (m k : ℕ) (rest : Rest redis A)
        → Keeps m k rest
        → (on_throw tests : Bool) (body : Body redis A) (test : Bool) (a : A)
        → (r : Result redis × Pool redis) → Held redis m k r
        → r.0 ≢ thrown
        → Kept m k (tried redis rest on_throw tests body test a r)
    unfolding tried
    tried-Kept m k rest keeps on_throw tests body test a (connection c, p) h given =
        worked-Kept m k rest keeps test c p (body a c p.world) h
    tried-Kept m k rest keeps on_throw tests body test a (thrown, p) h given = absurd (given refl)
    tried-Kept m k rest keeps on_throw tests body test a (waiting, p) h given = tt
    tried-Kept m k rest keeps on_throw tests body test a (exhausted, p) h given = tt

    -- On a network that gives every connection that is asked for, an operation that returns has given
    -- back the connections of all its attempts, and the pool's counter is right, whatever the
    -- attempts do.
    pub attempts-Kept :
        (fuel n m k : ℕ) (on_throw tests : Bool) (body : Body redis A) (test : Bool) (a : A)
        → (p : Pool redis) → IsPool redis m k p
        → Kept m k (attempts redis fuel n on_throw tests body test a p)
    unfolding attempts
    attempts-Kept fuel zero m k on_throw tests body test a p h = h
    attempts-Kept fuel (suc n) m k on_throw tests body test a p h =
        tried-Kept m k (attempts redis fuel n on_throw tests body)
          (attempts-Kept fuel n m k on_throw tests body) on_throw tests body test a
          (get_connection redis fuel test p) (get_connection-Held redis fuel m k test p h)
          (get_connection_given fuel test p)
