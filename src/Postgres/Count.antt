-- ===== src/Postgres/Count.antt =====
-- The counter of the Postgres connections: what taking one, a wrapper and `initialize` do to it.
use sync_server.Base.{
  ℕ, zero, suc, ◌+◌, ◌≤◌, ◌<◌, ◌≡◌, refl, ap, sym, ◌∙◌, ◌⊎◌, inl, inr, Bool, true, false, Option,
  none, some, List, [], ◌∷◌, ℤ, pos, negsuc, inc, dec, ltb, ltb_ℤ, length, arith, Bool-cases,
}
use sync_server.Postgres.{Libpq, is_result_ok}
use sync_server.Postgres.Pool.{
  Connections, Taken, taken, failed, blocked, connected, prepared, get_with, release_connection,
  uncount,
}
use sync_server.Postgres.Execute.{Executed, thrown, Call, Rest, judged, tried, execute}

pub dec-inc : (z : ℤ) → dec (inc z) ≡ z
dec-inc (pos n) = refl
dec-inc (negsuc zero) = refl
dec-inc (negsuc (suc n)) = refl

inc-dec : (z : ℤ) → inc (dec z) ≡ z
inc-dec (pos zero) = refl
inc-dec (pos (suc n)) = refl
inc-dec (negsuc n) = refl

module _ {W : Type 0} (pq : Libpq W) where
  -- With `k` connections in use the counter is the number of all connections, and that is no more
  -- than the maximum `m`.
  pub record IsCounted (m k : ℕ) (p : Connections pq) : Type 0 where
    pub limit : p.max_connections ≡ pos m
    pub counted : p.current_connections ≡ pos (k + length p.connections)
    pub bounded : k + length p.connections ≤ m

  -- The counter is one too low.
  abbrev pub IsShort : ℕ → ℕ → Connections pq → Type 0
  IsShort m k p = IsCounted m k (record p { current_connections = inc p.current_connections })

  abbrev pub Held : ℕ → ℕ → Taken pq × Connections pq → Type 0
  Held m k (taken conn, p) = IsCounted m (suc k) p
  Held m k (failed, p) = IsCounted m k p ⊎ IsShort m k p
  Held m k (blocked, p) = IsCounted m k p

  abbrev pub Kept : ℕ → ℕ → Executed pq × Connections pq → Type 0
  Kept m k (thrown, p) = IsCounted m k p ⊎ IsShort m k p
  Kept m k (_, p) = IsCounted m k p

  -- Only the connections and the counters matter.
  pub IsCounted-world :
      (m k : ℕ) (p : Connections pq) (w : W)
      → IsCounted m k p
      → IsCounted m k (record p { world = w })
  IsCounted-world m k p w h = record { limit = h.limit; counted = h.counted; bounded = h.bounded }

  suc_sum : (a b : ℕ) → suc a + b ≡ suc (a + b)
  suc_sum a b = omega arith

  pub released :
      (m k : ℕ) (conn : pq.PgConn) (p : Connections pq)
      → IsCounted m (suc k) p
      → IsCounted m k (release_connection pq conn p)
  released m k conn p h = record {
    limit = h.limit;
    counted = h.counted ∙ ap pos (omega arith);
    bounded = omega (arith, h.bounded);
  }

  pub uncounted :
      (m k : ℕ) (p : Connections pq) → IsCounted m (suc k) p → IsCounted m k (uncount pq p)
  uncounted m k p h = record {
    limit = h.limit;
    counted = ap dec (h.counted ∙ ap pos (suc_sum k (length p.connections)));
    bounded = omega (arith, h.bounded);
  }

  pub ltb_ℤ-pos : (a b : ℕ) → ltb_ℤ (pos a) (pos b) ≡ ltb a b
  ltb_ℤ-pos a b = ground arith

  room_left :
      (m k : ℕ) (p : Connections pq)
      → IsCounted m k p
      → ltb_ℤ p.current_connections p.max_connections ≡ true
      → k + length p.connections < m
  room_left m k p h e =
      let l : ltb (k + length p.connections) m ≡ true =
        sym (ltb_ℤ-pos (k + length p.connections) m)
        ∙ sym (ap (λ a. ltb_ℤ a (pos m)) h.counted)
        ∙ sym (ap (ltb_ℤ p.current_connections) h.limit)
        ∙ e in
      ground arith

  -- A new connection is in use as soon as it is counted.
  opened :
      (m k : ℕ) (p : Connections pq)
      → IsCounted m k p
      → k + length p.connections < m
      → IsCounted m (suc k) (record p { current_connections = inc p.current_connections })
  opened m k p h room = record {
    limit = h.limit;
    counted = ap inc h.counted ∙ ap pos (sym (suc_sum k (length p.connections)));
    bounded = omega arith;
  }

  prepared-Held :
      (m k : ℕ) (conn : pq.PgConn) (p : Connections pq) (r : Bool × W)
      → IsCounted m (suc k) p
      → Held m k (prepared pq conn p r)
  unfolding prepared
  prepared-Held m k conn p (true, w) h = IsCounted-world m (suc k) p w h
  prepared-Held m k conn p (false, w) h =
      let one = uncounted m k p h in
      inr (record {
        limit = one.limit;
        counted = inc-dec (dec p.current_connections) ∙ one.counted;
        bounded = one.bounded;
      })

  connected-Held :
      (m k : ℕ) (p : Connections pq) (r : Option pq.PgConn × W)
      → IsCounted m (suc k) p
      → Held m k (connected pq p r)
  unfolding connected
  connected-Held m k p (some conn, w) h = prepared-Held m k conn p _ h
  connected-Held m k p (none, w) h = inl (IsCounted-world m k _ w (uncounted m k p h))

  get_with-Held :
      (m k : ℕ) (p : Connections pq) (l : List pq.PgConn)
      → p.connections ≡ l
      → IsCounted m k p
      → Held m k (get_with pq p l)
  unfolding get_with
  get_with-Held m k p (conn ∷ rest) e h =
      let l : length p.connections ≡ suc (length rest) = ap length e in
      record {
        limit = h.limit;
        counted = h.counted ∙ ap pos (omega arith);
        bounded = omega (arith, h.bounded);
      }
  get_with-Held m k p [] e h = elim (Bool-cases (ltb_ℤ p.current_connections p.max_connections)) [
    | inl room ↦ rw room (connected-Held m k _ _ (opened m k p h (room_left m k p h room)))
    | inr full ↦ rw full h
  ]

  -- What the rest of the loop keeps.
  Keeps : Rest pq → Type 0
  Keeps rest = (m k : ℕ) (p : Connections pq) → IsCounted m k p → Kept m k (rest p)

  judged-Kept :
      (rest : Rest pq)
      → Keeps rest
      → (m k : ℕ) (conn : pq.PgConn) (p : Connections pq) (r : pq.PgResult × W)
      → IsCounted m (suc k) p
      → Kept m k (judged pq rest conn p r)
  unfolding judged Keeps
  judged-Kept rest keeps m k conn p (res, w) h =
      let kept = released m k conn (record p { world = w }) (IsCounted-world m (suc k) p w h) in
      let gone = uncounted m k _ (IsCounted-world m (suc k) p (pq.finish conn w) h) in
      elim (Bool-cases (is_result_ok (pq.result_status res))) [
        | inl good ↦ rw good kept
        | inr bad ↦ elim (Bool-cases (pq.is_connection_ok conn w)) [
          | inl up ↦ rw (bad, up) (keeps m k _ kept)
          | inr down ↦ rw (bad, down) (keeps m k _ gone)
        ]
      ]

  tried-Kept :
      (rest : Rest pq) (call : Call pq)
      → Keeps rest
      → (m k : ℕ) (r : Taken pq × Connections pq) → Held m k r
      → Kept m k (tried pq rest call r)
  unfolding tried
  tried-Kept rest call keeps m k (taken conn, p) h = judged-Kept rest keeps m k conn p _ h
  tried-Kept rest call keeps m k (failed, p) h = h
  tried-Kept rest call keeps m k (blocked, p) h = h

  -- A wrapper gives back every connection that it takes and keeps the counter, whether it returns a
  -- result, throws or waits; only where it throws can the counter end one too low.
  pub execute-Kept :
      (n : ℕ) (call : Call pq) (m k : ℕ) (p : Connections pq)
      → IsCounted m k p
      → Kept m k (execute pq n call p)
  unfolding execute Keeps
  execute-Kept zero call m k p h = inl h
  execute-Kept (suc n) call m k p h =
      tried-Kept (execute pq n call) call (execute-Kept n call) m k _ (get_with-Held m k p _ refl h)
