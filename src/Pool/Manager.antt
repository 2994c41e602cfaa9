-- ===== src/Pool/Manager.antt =====
-- The connection manager of IDataStore.h, which closes connections that have been idle.
use sync_server.Base.{ℕ, ◌+◌, ◌-◌, ◌*◌, ◌/◌, ◌≤◌, ◌<◌, ◌||◌, arith, ltb, ◌==◌, if◌then◌else◌}

-- CONNECTION_THREAD_MAGIC
abbrev pub magic_number : ℕ
magic_number = 2

-- `(curr - minConn) * 0.4`, or all of the difference if that is below 1. A double's 0.4 is above 2/5
-- by less than what a product of this size is rounded by.
unfoldable pub to_close : ℕ → ℕ → ℕ
to_close curr min_conn =
    let part = (curr - min_conn) * 2 / 5 in if ltb part 1 then curr - min_conn else part

-- One round of the loop, at the counters of the pool and its vector's size: how many connections
-- are closed, and the counter of rounds that it goes on with. `in_use > 0.2 * curr` is `5 * in_use >
-- curr`. A counter that is not reset here is reset once connections have been closed.
unfoldable pub manager_round : ℕ → ℕ → ℕ → ℕ → ℕ × ℕ
unfolding to_close
manager_round min_conn curr size counter =
    let in_use = curr - size in
    let n = to_close curr min_conn in
    if ltb curr min_conn
    then (0, counter)
    else if curr == min_conn || ltb curr (5 * in_use)
    then (0, 0)
    else if ltb (counter + 1) magic_number
    then (0, counter + 1)
    else (n, if ltb 0 n then 0 else counter + 1)

-- The manager closes no more connections than the vector holds, so that `back` and `pop_back` find
-- one, and leaves at least the minimum, for a counter that is the number of all connections.
pub manager_round-le :
    (min_conn curr size counter : ℕ)
    → size ≤ curr
    → let n = (manager_round min_conn curr size counter).0 in
      (n ≤ size) × (min_conn ≤ curr → min_conn + n ≤ curr)
unfolding manager_round to_close
manager_round-le min_conn curr size counter le = (ground arith, λ h. ground arith)

-- Connections are closed only at the `magic_number`th round in a row without a reset.
pub manager_round_counts :
    (min_conn curr size counter : ℕ)
    → 0 < (manager_round min_conn curr size counter).0
    → (magic_number ≤ counter + 1) × (min_conn < curr) × (5 * (curr - size) ≤ curr)
unfolding manager_round to_close
manager_round_counts min_conn curr size counter h = (ground arith, ground arith, ground arith)
