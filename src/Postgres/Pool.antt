-- ===== src/Postgres/Pool.antt =====
-- The connections of data_store_connection.cpp: making one, taking one, giving it back.
use sync_server.Base.{
  ℕ, zero, suc, Bool, true, false, ◌&&◌, Option, none, some, List, [], ◌∷◌, ◌++◌, Bytes, codes, ℤ,
  pos, negsuc, ◌-◌, ◌^◌, inc, dec, ltb_ℤ, if◌then◌else◌,
}
use sync_server.Config.{Config}
use sync_server.Postgres.{Libpq, is_command_ok}

-- CONNECT_ATTEMPTS
abbrev pub connect_attempts : ℕ
connect_attempts = 10

abbrev pub conn_info : Config → Bytes
conn_info config =
    codes "host="
    ++ config.db_server
    ++ codes " port="
    ++ config.db_port
    ++ codes " dbname="
    ++ config.db_name
    ++ codes " user="
    ++ config.db_username
    ++ codes " password="
    ++ config.db_password

abbrev create_user_prepare : Bytes
create_user_prepare = codes "INSERT INTO users VALUES ($1::text, $2::text, $3::bigint, $4::numeric)"

abbrev delete_user_prepare : Bytes
delete_user_prepare = codes "DELETE from users WHERE account_uuid = $1::text"

abbrev update_user_last_sync_prepare : Bytes
update_user_last_sync_prepare =
    codes "UPDATE Users SET account_last_sync = $1::bigint WHERE account_uuid = $2::text"

abbrev get_accounts_for_user_prepare : Bytes
get_accounts_for_user_prepare = codes "SELECT * FROM accounts where account_uuid = $1::text"

abbrev pub create_user_pre : Bytes
create_user_pre = codes "create_user_pre"

abbrev pub delete_user_pre : Bytes
delete_user_pre = codes "delete_user_pre"

abbrev pub update_last_sync_time_pre : Bytes
update_last_sync_time_pre = codes "update_last_sync_time_prepare"

abbrev pub get_accounts_for_user_pre : Bytes
get_accounts_for_user_pre = codes "get_accounts_for_user_pre"

-- An `int` that is compared with a `size_t`.
abbrev pub as_size_t : ℤ → ℕ
as_size_t (pos n) = n
as_size_t (negsuc n) = 2 ^ 64 - suc n

module _ {W : Type 0} (pq : Libpq W) where
  -- The fields of the store. The head of `connections` is the vector's back.
  pub record Connections : Type 0 where
    pub world : W
    pub config : Config
    pub connections : List pq.PgConn
    pub current_connections : ℤ
    pub max_connections : ℤ

  -- What `get_connection` does; `blocked` waits for another thread.
  pub data Taken : Type 0 where
    taken : pq.PgConn → Taken
    failed blocked : Taken

  -- The loop of `connect`, with so many attempts left; `none` is a throw.
  unfoldable pub connect_from : ℕ → Bytes → W → Option pq.PgConn × W
  connect_from zero info w = (none, w)
  connect_from (suc n) info w =
      let (conn, w') = pq.connectdb info w in
      let rest = connect_from n info (pq.finish conn w') in
      if pq.is_connection_ok conn w' then (some conn, w') else rest

  abbrev pub connect : Config → W → Option pq.PgConn × W
  connect config = connect_from connect_attempts (conn_info config)

  prepare : pq.PgConn → Bytes → Bytes → ℕ → W → Bool × W
  prepare conn prep_name prep_def count w =
      let (res, w') = pq.prepare conn prep_name prep_def count w in
      (is_command_ok (pq.result_status res), w')

  unfoldable pub create_prepared_statements : pq.PgConn → W → Bool × W
  unfolding prepare
  create_prepared_statements conn w =
      let (b1, w1) = prepare conn create_user_pre create_user_prepare 4 w in
      let (b2, w2) = prepare conn delete_user_pre delete_user_prepare 1 w1 in
      let (b3, w3) = prepare conn update_last_sync_time_pre update_user_last_sync_prepare 2 w2 in
      let (b4, w4) = prepare conn get_accounts_for_user_pre get_accounts_for_user_prepare 1 w3 in
      let (res, w5) = pq.exec conn (codes "select * from pg_prepared_statements") w4 in
      (b1 && b2 && b3 && b4, w5)

  abbrev pub release_connection : pq.PgConn → Connections → Connections
  release_connection conn p = record p { connections = conn ∷ p.connections }

  abbrev pub uncount : Connections → Connections
  uncount p = record p { current_connections = dec p.current_connections }

  -- A failed `createPreparedStatements` counts the connection out and throws, and the handler of the
  -- same `try` counts it out again.
  unfoldable pub prepared : pq.PgConn → Connections → Bool × W → Taken × Connections
  prepared conn p (true, w) = (taken conn, record p { world = w })
  prepared conn p (false, w) = (failed, uncount (uncount (record p { world = pq.finish conn w })))

  unfoldable pub connected : Connections → Option pq.PgConn × W → Taken × Connections
  unfolding prepared create_prepared_statements
  connected p (some conn, w) = prepared conn p (create_prepared_statements conn w)
  connected p (none, w) = (failed, uncount (record p { world = w }))

  -- With the connections that are idle.
  unfoldable pub get_with : Connections → List pq.PgConn → Taken × Connections
  unfolding connected connect_from
  get_with p (conn ∷ connections) = (taken conn, record p { connections = connections })
  get_with p [] =
      if ltb_ℤ p.current_connections p.max_connections
      then connected (record p { current_connections = inc p.current_connections })
          (connect p.config p.world)
      else (blocked, p)

  abbrev pub get_connection : Connections → Taken × Connections
  get_connection p = get_with p p.connections

  -- One round of the loop of `initialize`.
  unfoldable pub add_prepared : pq.PgConn → Connections → Bool × W → Connections
  add_prepared conn p (true, w) = release_connection conn (record p { world = w })
  add_prepared conn p (false, w) = uncount (record p { world = pq.finish conn w })

  unfoldable pub add_connection : Connections → Option pq.PgConn × W → Connections
  unfolding add_prepared create_prepared_statements
  add_connection p (some conn, w) = add_prepared conn p (create_prepared_statements conn w)
  add_connection p (none, w) = uncount (record p { world = w })

  unfoldable pub fill : ℕ → Connections → Connections
  unfolding add_connection connect_from
  fill zero p = p
  fill (suc n) p = fill n (add_connection p (connect p.config p.world))

  -- The threads that it starts are not part of it.
  unfoldable pub initialize : Config → W → Bool × Connections
  unfolding fill
  initialize config w =
      let p = fill (as_size_t config.db_min_connections) (record {
        world = w;
        config = config;
        connections = [];
        current_connections = config.db_min_connections;
        max_connections = config.db_max_connections;
      }) in
      (ltb_ℤ (pos 0) p.current_connections, p)

  -- The destructor.
  unfoldable pub finish_all : List pq.PgConn → W → W
  finish_all [] w = w
  finish_all (conn ∷ connections) w = finish_all connections (pq.finish conn w)
