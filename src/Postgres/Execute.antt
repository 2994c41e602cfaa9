-- ===== src/Postgres/Execute.antt =====
-- `PQexec_wrapper` and `PQexecPrepared_wrapper` of data_store_connection.cpp, which differ in the call
-- they make.
use sync_server.Base.{ℕ, zero, suc, List, Bytes, if◌then◌else◌}
use sync_server.Postgres.{Libpq, is_result_ok}
use sync_server.Postgres.Pool.{
  Connections, Taken, taken, failed, blocked, get_connection, get_with, release_connection, uncount,
}

-- The loop `for (size_t i{0}; i < 3; i++)`.
abbrev pub exec_attempts : ℕ
exec_attempts = 3

module _ {W : Type 0} (pq : Libpq W) where
  -- What a wrapper does; `stuck` waits for another thread.
  pub data Executed : Type 0 where
    executed : pq.PgResult → Executed
    thrown stuck : Executed

  abbrev pub Call : Type 0
  Call = pq.PgConn → W → pq.PgResult × W

  -- The rest of the loop.
  abbrev pub Rest : Type 0
  Rest = Connections pq → Executed × Connections pq

  unfoldable pub judged :
      Rest → pq.PgConn → Connections pq → pq.PgResult × W → Executed × Connections pq
  judged rest conn p (res, w) =
      let q = record p { world = w } in
      let kept = rest (release_connection pq conn q) in
      let gone = rest (uncount pq (record p { world = pq.finish conn w })) in
      if is_result_ok (pq.result_status res)
      then (executed res, release_connection pq conn q)
      else if pq.is_connection_ok conn w
      then kept
      else gone

  unfoldable pub tried : Rest → Call → Taken pq × Connections pq → Executed × Connections pq
  unfolding judged
  tried rest call (taken conn, p) = judged rest conn p (call conn p.world)
  tried rest call (failed, p) = (thrown, p)
  tried rest call (blocked, p) = (stuck, p)

  -- With so many attempts left.
  unfoldable pub execute : ℕ → Call → Rest
  unfolding tried get_with
  execute zero call p = (thrown, p)
  execute (suc n) call p = tried (execute n call) call (get_connection pq p)

  abbrev pub exec_wrapper : Bytes → Rest
  exec_wrapper sql = execute exec_attempts (λ conn. pq.exec conn sql)

  abbrev pub exec_prepared_wrapper : Bytes → List Bytes → Rest
  exec_prepared_wrapper pre values =
      execute exec_attempts (λ conn. pq.exec_prepared conn pre values)
