-- ===== src/Pool/Count.antt =====
-- The counter of the pool's connections.
use sync_server.Base.{
  inc, dec, ℕ, zero, suc, ◌+◌, ◌≤◌, ◌<◌, ◌≡◌, refl, ap, sym, ◌∙◌, Bool, true, false, Option, none,
  some, List, [], ◌∷◌, Bool-cases, inl, inr, arith, length, pos, ltb_ℤ, ltb,
}
use sync_server.Pool.{
  Pool, Result, connection, thrown, waiting, exhausted, create_connection, created, get_with,
  release_connection, again, pinged, test_connection, get_connection, add_connection, fill,
  initialize,
}
use sync_server.Redis.{Reply, are_reply_errors, Redis, Reply, ping}

module _ {W : Type 0} (redis : Redis W) where
  -- With `k` connections handed out, the counter is the number of all connections, and that is no
  -- more than the maximum `m`.
  pub record IsPool (m k : ℕ) (p : Pool redis) : Type 0 where
    pub limit : p.max_connections ≡ pos m
    pub counted : p.current_connections ≡ pos (k + length p.connections)
    pub bounded : k + length p.connections ≤ m

  -- A connection that is returned is handed out, and so is the one that a test holds.
  abbrev pub Held : ℕ → ℕ → Result redis × Pool redis → Type 0
  Held m k (connection c, p) = IsPool m (suc k) p
  Held m k (exhausted, p) = IsPool m (suc k) p
  Held m k (_, p) = IsPool m k p

  suc_sum : (a b : ℕ) → suc a + b ≡ suc (a + b)
  suc_sum a b = omega arith

  sum_suc : (a b : ℕ) → suc a + b ≡ a + suc b
  sum_suc a b = omega arith

  ltb_ℤ-pos : (a b : ℕ) → ltb_ℤ (pos a) (pos b) ≡ ltb a b
  ltb_ℤ-pos a b = ground arith

  -- A connection that is given back is in the pool again, or, if it is bad, counted no more.
  pub release_connection-IsPool :
      (m k : ℕ) (c : redis.Conn) (p : Pool redis)
      → IsPool m (suc k) p
      → IsPool m k (release_connection redis (some c) p)
  unfolding release_connection
  release_connection-IsPool m k c p h = elim (Bool-cases (redis.err c p.world)) [
    | inl bad ↦ rw bad (record {
      limit = h.limit;
      counted = ap dec (h.counted ∙ ap pos (suc_sum k (length p.connections)));
      bounded = omega (arith, h.bounded);
    })
    | inr good ↦ rw good (record {
      limit = h.limit;
      counted = h.counted ∙ ap pos (sum_suc k (length p.connections));
      bounded = omega (arith, h.bounded);
    })
  ]

  created-Held :
      (m k : ℕ) (o : Option redis.Conn × W) (p : Pool redis)
      → IsPool m k p
      → k + length p.connections < m
      → Held m k (created redis o p)
  unfolding created
  created-Held m k (none, w) p h room = record {
    limit = h.limit;
    counted = h.counted;
    bounded = h.bounded;
  }
  created-Held m k (some c, w) p h room = record {
    limit = h.limit;
    counted = ap inc h.counted ∙ ap pos (sym (suc_sum k (length p.connections)));
    bounded = omega arith;
  }

  room_left :
      (m k : ℕ) (p : Pool redis)
      → IsPool m k p
      → ltb_ℤ p.current_connections p.max_connections ≡ true
      → k + length p.connections < m
  room_left m k p h e =
      let l : ltb (k + length p.connections) m ≡ true =
        sym (ltb_ℤ-pos (k + length p.connections) m)
        ∙ sym (ap (λ a. ltb_ℤ a (pos m)) h.counted)
        ∙ sym (ap (ltb_ℤ p.current_connections) h.limit)
        ∙ e in
      ground arith

  -- What a test of a connection keeps, it keeps for the next one.
  abbrev Keeps : (redis.Conn → Pool redis → Result redis × Pool redis) → Type 0
  Keeps test =
      (m k : ℕ) (c : redis.Conn) (p : Pool redis) → IsPool m (suc k) p → Held m k (test c p)

  again-Held :
      (test : redis.Conn → Pool redis → Result redis × Pool redis)
      → Keeps test
      → (m k : ℕ) (r : Result redis × Pool redis) → Held m k r
      → Held m k (again redis test r)
  unfolding again
  again-Held test keeps m k (connection c, p) h = keeps m k c p h
  again-Held test keeps m k (thrown, p) h = h
  again-Held test keeps m k (waiting, p) h = h
  again-Held test keeps m k (exhausted, p) h = h

  popped :
      (m k : ℕ) (c : redis.Conn) (rest : List redis.Conn) (p : Pool redis)
      → p.connections ≡ c ∷ rest
      → IsPool m k p
      → IsPool m (suc k) (record p { connections = rest })
  popped m k c rest p e h =
      let l : length p.connections ≡ suc (length rest) = ap length e in
      record {
        limit = h.limit;
        counted = h.counted ∙ ap pos (omega arith);
        bounded = omega (arith, h.bounded);
      }

  get_with-Held :
      (test : redis.Conn → Pool redis → Result redis × Pool redis)
      → Keeps test
      → (m k : ℕ) (test_conn : Bool) (p : Pool redis) (l : List redis.Conn) → p.connections ≡ l
      → IsPool m k p
      → Held m k (get_with redis test test_conn p)
  unfolding get_with
  get_with-Held test keeps m k true p (c ∷ rest) e h =
      rw (e, get_with) (keeps m k c (record p { connections = rest }) (popped m k c rest p e h))
  get_with-Held test keeps m k false p (c ∷ rest) e h = rw (e, get_with) (popped m k c rest p e h)
  get_with-Held test keeps m k test_conn p [] e h =
      elim (Bool-cases (ltb_ℤ p.current_connections p.max_connections)) [
        | inl room ↦
            rw (e, get_with)
              (rw room
                (created-Held m k (create_connection redis p.world) p h (room_left m k p h room)))
        | inr full ↦ rw (e, get_with) (rw full h)
      ]

  pinged-Held :
      (test : redis.Conn → Pool redis → Result redis × Pool redis)
      → Keeps test
      → (m k : ℕ) (c : redis.Conn) (p : Pool redis) (r : Option Reply × W) → IsPool m (suc k) p
      → Held m k (pinged redis test c p r)
  unfolding pinged
  pinged-Held test keeps m k c p (reply, w) h =
      let here : IsPool m (suc k) (record p { world = w }) = record {
        limit = h.limit;
        counted = h.counted;
        bounded = h.bounded;
      } in
      let q = release_connection redis (some c) (record p { world = w }) in
      elim (Bool-cases (are_reply_errors reply)) [
        | inl bad ↦ rw bad (
            again-Held test keeps m k (get_with redis test true q) (
              get_with-Held test keeps m k true q q.connections refl
                (release_connection-IsPool m k c (record p { world = w }) here)))
        | inr good ↦ rw good here
      ]

  test_connection-Held : (fuel : ℕ) → Keeps (test_connection redis fuel)
  unfolding test_connection
  test_connection-Held zero m k c p h = h
  test_connection-Held (suc fuel) m k c p h =
      pinged-Held (test_connection redis fuel) (test_connection-Held fuel) m k c p
        (redis.command c ping p.world) h

  -- A call of `getConnection` hands out one connection more, or, when it throws or waits, none; the
  -- counter stays the number of all connections, and below the maximum.
  pub get_connection-Held :
      (fuel m k : ℕ) (test_conn : Bool) (p : Pool redis)
      → IsPool m k p
      → Held m k (get_connection redis fuel test_conn p)
  unfolding get_connection
  get_connection-Held fuel m k test_conn p h =
      get_with-Held (test_connection redis fuel) (test_connection-Held fuel) m k test_conn p
        p.connections refl h

  released_null :
      (m k : ℕ) (r : Result redis × Pool redis)
      → Held m (suc k) r
      → r.0 ≡ thrown
      → (release_connection redis none r.1).current_connections
        ≡ pos (k + length (release_connection redis none r.1).connections)
  unfolding release_connection
  released_null m k (connection c, p) h e = absurd (cc)
  released_null m k (exhausted, p) h e = absurd (cc)
  released_null m k (waiting, p) h e = absurd (cc)
  released_null m k (thrown, p) h e = ap dec (h.counted ∙ ap pos (suc_sum k (length p.connections)))

  -- When `getConnection` throws, and its caller gives the null pointer back that it still has, the
  -- counter is one less than the number of all connections, of which `suc k` are handed out.
  pub release_thrown :
      (fuel m k : ℕ) (test_conn : Bool) (p : Pool redis)
      → IsPool m (suc k) p
      → (get_connection redis fuel test_conn p).0 ≡ thrown
      → let q = release_connection redis none (get_connection redis fuel test_conn p).1 in
        q.current_connections ≡ pos (k + length q.connections)
  release_thrown fuel m k test_conn p h e =
      released_null m k (get_connection redis fuel test_conn p)
        (get_connection-Held fuel m (suc k) test_conn p h) e

  add_connection-IsPool :
      (m : ℕ) (o : Option redis.Conn × W) (p : Pool redis)
      → IsPool m 0 p
      → length p.connections < m
      → IsPool m 0 (add_connection redis o p)
        × (length (add_connection redis o p).connections ≤ suc (length p.connections))
  unfolding add_connection
  add_connection-IsPool m (none, w) p h room =
      (record { limit = h.limit; counted = h.counted; bounded = h.bounded }, omega arith)
  add_connection-IsPool m (some c, w) p h room = (
    record {
      limit = h.limit;
      counted =
          ap inc h.counted
          ∙ ap pos (sym (suc_sum 0 (length p.connections)) ∙ sum_suc 0 (length p.connections));
      bounded = omega arith;
    },
    omega arith,
  )

  fill-IsPool :
      (m n : ℕ) (p : Pool redis)
      → IsPool m 0 p
      → length p.connections + n ≤ m
      → IsPool m 0 (fill redis n p)
  unfolding fill
  fill-IsPool m zero p h small = h
  fill-IsPool m (suc n) p h small =
      let (inv, le) = add_connection-IsPool m (create_connection redis p.world) p h (omega arith) in
      fill-IsPool m n _ inv (omega arith)

  -- The pool starts with its counter right, if the minimum is no more than the maximum, and the store
  -- starts exactly if there is a connection.
  pub initialize-IsPool :
      (min m : ℕ) (w : W)
      → min ≤ m
      → let r = initialize redis min (pos m) w in
        IsPool m 0 r.1 × (r.0 ≡ ltb 0 (length r.1.connections))
  unfolding initialize
  initialize-IsPool min m w le = (
    fill-IsPool m min _ (record { limit = refl; counted = refl; bounded = omega arith })
        (omega arith),
    refl,
  )
