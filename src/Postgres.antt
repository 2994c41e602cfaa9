-- ===== src/Postgres.antt =====
-- libpq, the Postgres client library, as data_store_connection.cpp uses it. The library is a
-- parameter.
pub mod Pool
pub mod Execute
pub mod Count
pub mod Sql
pub mod Fits
pub mod Heap
pub mod HeapFits
pub mod Injected
pub mod Store
pub mod StoreLaws
mod Tests
pub mod Outcomes
use sync_server.Base.{ℕ, Bool, List, Bytes, true, false}

-- `ExecStatusType`; the code asks for two of its values.
pub data ExecStatus : Type 0 where
  command_ok tuples_ok other_status : ExecStatus

-- `W` is the state of the servers and of the network. A `PGresult` is a value: `PQclear` is left out.
pub record Libpq (W : Type 0) : Type 1 where
  pub PgConn : Type 0
  pub PgResult : Type 0
  pub connectdb : Bytes → W → PgConn × W
  -- `PQstatus(conn) == CONNECTION_OK`
  pub is_connection_ok : PgConn → W → Bool
  pub finish : PgConn → W → W
  pub prepare : PgConn → Bytes → Bytes → ℕ → W → PgResult × W
  pub exec : PgConn → Bytes → W → PgResult × W
  pub exec_prepared : PgConn → Bytes → List Bytes → W → PgResult × W
  pub result_status : PgResult → ExecStatus
  pub ntuples : PgResult → ℕ
  pub getvalue : PgResult → ℕ → ℕ → Bytes

abbrev pub is_command_ok : ExecStatus → Bool
is_command_ok command_ok = true
is_command_ok _ = false

-- `PGRES_COMMAND_OK` or `PGRES_TUPLES_OK`
abbrev pub is_result_ok : ExecStatus → Bool
is_result_ok other_status = false
is_result_ok _ = true
