-- ===== src/Stores/Tests/Down.antt =====
-- A registration while Postgres is down.
use sync_server.Base.{◌≡◌, refl, true, false, some, [], ◌∷◌, codes, beq, pos}
use sync_server.Config.{default_config}
use sync_server.Email.{verify_email}
use sync_server.Exec.{ok, err, text, http_error}
use sync_server.Http.{http_500}
use sync_server.Map.{get}
use sync_server.Password.{hash_password}
use sync_server.Postgres.{Libpq, tuples_ok}
use sync_server.Postgres.Pool.{Connections, create_user_pre, get_with, connected, connect_from}
use sync_server.Postgres.Execute.{exec_prepared_wrapper, execute, tried, thrown}
use sync_server.Handler.State.{State, Server}
use sync_server.Handler.Password.{verify_password}
use sync_server.Handler.Register.{handle_register, read_register}
use sync_server.Handler.Register.Outcomes.{IsNew}
use sync_server.Stores.OverPostgres.{postgres_store, over_postgres, handle_register-create_user}
use sync_server.Stores.Tests.{bob, lib, hash}

-- No connection is ever good.
abbrev postgres : Libpq (Unit {0})
postgres = record {
  PgConn = Unit {0};
  PgResult = Unit {0};
  connectdb = λ info w. (tt, w);
  is_connection_ok = λ conn w. false;
  finish = λ conn w. w;
  prepare = λ conn name sql count w. (tt, w);
  exec = λ conn sql w. (tt, w);
  exec_prepared = λ conn pre values w. (tt, w);
  result_status = λ res. tuples_ok;
  ntuples = λ res. 0;
  getvalue = λ res i j. [];
}

abbrev no_connections : Connections postgres
no_connections = record {
  world = tt;
  config = default_config;
  connections = [];
  current_connections = pos 0;
  max_connections = pos 4;
}

abbrev postgres_server : Server (Connections postgres)
postgres_server = record {
  lib = lib;
  stringify_config = λ d. d.user_name;
  stringify_sync = λ d. codes "sync";
  digest = λ p. some p;
  data_store = postgres_store postgres [];
  config = default_config;
}

abbrev nobody : State (Connections postgres)
nobody = record { user_infos = []; store = no_connections }

abbrev over_pq : Server (Connections postgres)
over_pq = over_postgres postgres [] postgres_server

new : IsNew over_pq [] bob (codes "pw") hash nobody
unfolding read_register verify_email hash_password get beq
new = record { parsed = refl; address = refl; hashes = refl; unknown = refl }

refused :
    exec_prepared_wrapper postgres create_user_pre
      (bob ∷ hash ∷ [] ∷ codes "1.00" ∷ [])
      no_connections
    ≡ (thrown, no_connections)
unfolding execute tried get_with connected connect_from
refused = refl

abbrev after : State (Connections postgres)
after = (handle_register over_pq (pos 1) [] nobody).1

-- The same request once more.
parsed_again : read_register over_pq [] after ≡ (ok (some bob, some (codes "pw")), after)
unfolding read_register beq
parsed_again = refl

hashed_again : hash_password over_pq.digest (codes "pw") ≡ some hash
unfolding hash_password
hashed_again = refl

handle_register-create_user_example :
    ((handle_register over_pq (pos 1) [] nobody).0 ≡ err (text (codes "Error in ::createUser")))
    × (after.store ≡ no_connections)
    × (verify_password over_pq.digest after.user_infos (some bob) (some (codes "pw")) ≡ ok true)
    × (handle_register over_pq (pos 2) [] after ≡ (err (http_error http_500), after))
handle_register-create_user_example =
    handle_register-create_user postgres [] postgres_server [] bob (codes "pw") hash nobody (pos 1)
      no_connections [] (codes "pw") hash (pos 2) new refused parsed_again hashed_again
