-- ===== src/Postgres/Outcomes.antt =====
-- What starting the Postgres store gives, and what becomes of connections that fail.
use sync_server.Base.{
  ℕ, zero, suc, ◌+◌, ◌≤◌, ◌≡◌, refl, ap, ◌∙◌, Bool, true, false, Option, none, some, List, [], ◌∷◌,
  ◌++◌, pos, dec, ltb, ltb_ℤ, length, arith, All,
}
use sync_server.Config.{Config}
use sync_server.Postgres.{Libpq, is_result_ok}
use sync_server.Postgres.Pool.{
  Connections, failed, connect, connected, prepared, create_prepared_statements, get_connection,
  get_with, uncount, add_prepared, add_connection, fill, initialize, as_size_t,
}
use sync_server.Postgres.Execute.{Call, judged, tried, execute}
use sync_server.Postgres.Count.{IsCounted, released, uncounted, IsCounted-world, dec-inc}

module _ {W : Type 0} (pq : Libpq W) where
  add_prepared-IsCounted :
      (m k : ℕ) (conn : pq.PgConn) (p : Connections pq) (r : Bool × W)
      → IsCounted pq m (suc k) p
      → IsCounted pq m k (add_prepared pq conn p r)
  unfolding add_prepared
  add_prepared-IsCounted m k conn p (true, w) h =
      released pq m k conn _ (IsCounted-world pq m (suc k) p w h)
  add_prepared-IsCounted m k conn p (false, w) h =
      uncounted pq m k _ (IsCounted-world pq m (suc k) p _ h)

  add_connection-IsCounted :
      (m k : ℕ) (p : Connections pq) (r : Option pq.PgConn × W)
      → IsCounted pq m (suc k) p
      → IsCounted pq m k (add_connection pq p r)
  unfolding add_connection
  add_connection-IsCounted m k p (some conn, w) h =
      add_prepared-IsCounted m k conn p (create_prepared_statements pq conn w) h
  add_connection-IsCounted m k p (none, w) h =
      uncounted pq m k _ (IsCounted-world pq m (suc k) p w h)

  fill-IsCounted :
      (m n : ℕ) (p : Connections pq) → IsCounted pq m n p → IsCounted pq m 0 (fill pq n p)
  unfolding fill
  fill-IsCounted m zero p h = h
  fill-IsCounted m (suc n) p h =
      fill-IsCounted m n _ (add_connection-IsCounted m n p (connect pq p.config p.world) h)

  idle_left :
      (m : ℕ) (p : Connections pq)
      → IsCounted pq m 0 p
      → ltb_ℤ (pos 0) p.current_connections ≡ ltb 0 (length p.connections)
  idle_left m p h = ap (ltb_ℤ (pos 0)) h.counted ∙ ground arith

  -- With a minimum of connections that is no more than the maximum, the store starts with as many
  -- connections as it counts, none of them in use, whichever of them fail, and it says that it has
  -- started if and only if there is one.
  pub initialize-IsCounted :
      (n m : ℕ) (config : Config) (w : W)
      → config.db_min_connections ≡ pos n
      → config.db_max_connections ≡ pos m
      → n ≤ m
      → IsCounted pq m 0 (initialize pq config w).1
        × ((initialize pq config w).0 ≡ ltb 0 (length (initialize pq config w).1.connections))
  unfolding initialize
  initialize-IsCounted n m config w low high le =
      let rounds : as_size_t config.db_min_connections ≡ n = ap as_size_t low in
      let counted =
        fill-IsCounted m (as_size_t config.db_min_connections)
          (record {
            world = w;
            config = config;
            connections = [];
            current_connections = config.db_min_connections;
            max_connections = config.db_max_connections;
          })
          (record { limit = high; counted = low ∙ ap pos (omega arith); bounded = omega arith }) in
      (counted, idle_left m _ counted)

  -- A connection is made but its statements are not: the counter goes down by one.
  pub get_connection-unprepared :
      (p : Connections pq) (conn : pq.PgConn) (w w' : W)
      → p.connections ≡ []
      → ltb_ℤ p.current_connections p.max_connections ≡ true
      → connect pq p.config p.world ≡ (some conn, w)
      → create_prepared_statements pq conn w ≡ (false, w')
      → ((get_connection pq p).0 ≡ failed)
        × ((get_connection pq p).1.current_connections ≡ dec p.current_connections)
  unfolding get_with connected prepared
  get_connection-unprepared p conn w w' idle room made bad =
      rw (idle, get_with)
        (rw room (rw made (rw bad (refl, ap dec (dec-inc p.current_connections)))))

  suc_sum : (a b : ℕ) → suc a + b ≡ suc (a + b)
  suc_sum a b = omega arith

  zero_sum : (a : ℕ) → 0 + a ≡ a
  zero_sum a = omega arith

  -- The counter and the state after these connections have been closed.
  unfoldable pub finished : (W → W) → List pq.PgConn → Connections pq → Connections pq
  finished after [] p = p
  finished after (conn ∷ dead) p =
      finished after dead (uncount pq (record p { world = pq.finish conn (after p.world) }))

  -- When the connections that are idle have all gone bad, so that every call on them fails and only
  -- changes the state by `after`, then each costs an attempt: a wrapper closes one after the other
  -- and goes on with the attempts that are left.
  pub execute-finished :
      (call : Call pq) (after : W → W) (n : ℕ) (dead rest : List pq.PgConn) (p : Connections pq)
      → ((conn : pq.PgConn) (w : W) → (call conn w).1 ≡ after w)
      → All
          (λ conn.
            (w : W)
            → (is_result_ok (pq.result_status (call conn w).0) ≡ false)
              × (pq.is_connection_ok conn (after w) ≡ false))
          dead
      → execute pq (length dead + n) call (record p { connections = dead ++ rest })
        ≡ execute pq n call (record (finished after dead p) { connections = rest })
  unfolding execute finished tried judged get_with
  execute-finished call after n [] rest p changes bad = rw (zero_sum n) refl
  execute-finished call after n (conn ∷ dead) rest p changes bad =
      let gone = uncount pq (record p { world = pq.finish conn (after p.world) }) in
      let (fails, down) = bad.0 p.world in
      rw (suc_sum (length dead) n, tried, judged, changes conn p.world)
        (rw (fails, down) (execute-finished call after n dead rest gone changes bad.1))
