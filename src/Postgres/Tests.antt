-- ===== src/Postgres/Tests.antt =====
-- A server that answers every call with one row, and accounts of several lengths.
use sync_server.Base.{
  ℕ, zero, suc, ◌≡◌, refl, true, false, [], ◌∷◌, ◌++◌, Bytes, codes, length, arith, pos,
  if◌then◌else◌, ◌==◌,
}
use sync_server.Config.{default_config}
use sync_server.Store.{User, Account}
use sync_server.Postgres.{Libpq, tuples_ok}
use sync_server.Postgres.Pool.{Connections, get_accounts_for_user_pre, get_with}
use sync_server.Postgres.Execute.{
  executed, exec_prepared_wrapper, exec_wrapper, execute, tried, judged,
}
use sync_server.Postgres.Sql.{upsert_account_prepare_1, upsert_account_prepare_2, row, texts}
use sync_server.Postgres.Fits.{upsert_text, all_texts}
use sync_server.Postgres.Injected.{injected, upsert_text-injected}
use sync_server.Postgres.Heap.{total}
use sync_server.Postgres.HeapFits.{rows_map}
use sync_server.Postgres.Store.{
  returned, threw, from_option, then_store, get_all_users, get_accounts_for_user,
  upsert_accounts_for_user, create_user, update_last_sync_for_user, delete_user, delete_old_users,
  delete_history,
}
use sync_server.Postgres.StoreLaws.{
  IsNearly, operations-IsNearly, get_accounts_for_user-rows_map,
  upsert_accounts_for_user-upsert_text,
}

-- Each value is the text that the result is, but for the time.
abbrev server : Libpq ℕ
server = record {
  PgConn = ℕ;
  PgResult = Bytes;
  connectdb = λ info w. (w, suc w);
  is_connection_ok = λ conn w. true;
  finish = λ conn w. w;
  prepare = λ conn name sql count w. ([], w);
  exec = λ conn sql w. (codes "one", w);
  exec_prepared = λ conn pre values w. (codes "one", w);
  result_status = λ res. tuples_ok;
  ntuples = λ res. 1;
  getvalue = λ res i j. if j == 6 then codes "5" else res;
}

abbrev connections : Connections server
connections = record {
  world = 7;
  config = default_config;
  connections = 3 ∷ [];
  current_connections = pos 2;
  max_connections = pos 4;
}

abbrev user : User
user = record {
  account_uuid = codes "bob@x";
  account_password = codes "hash";
  account_last_sync = pos 5;
}

abbrev filler : ℕ → Bytes
filler zero = []
filler (suc n) = b'a' ∷ filler n

length-filler : (n : ℕ) → length (filler n) ≡ n
length-filler zero = refl
length-filler (suc n) = omega (arith, length-filler n)

abbrev account : ℕ → Account
account n = record {
  account_name = codes "mail";
  account_uuid = codes "bob@x";
  user_name = codes "bob";
  password = codes "secret";
  old_password = [];
  url = filler n;
  update_time = pos 5;
  deleted = false;
}

operations-IsNearly_example :
    IsNearly server 4 1 (get_all_users server connections).1
    × IsNearly server 4 1 (get_accounts_for_user server (codes "bob@x") connections).1
    × IsNearly server 4 1
        (upsert_accounts_for_user server (codes "bob@x") (account 3 ∷ []) connections).1
    × IsNearly server 4 1 (create_user server [] user connections).1
    × IsNearly server 4 1 (update_last_sync_for_user server (codes "bob@x") (pos 9) connections).1
    × IsNearly server 4 1 (delete_user server user connections).1
    × IsNearly server 4 1 (delete_old_users server (pos 9) connections).1
    × IsNearly server 4 1 (delete_history server (pos 9) connections).1
operations-IsNearly_example =
    operations-IsNearly server 4 1 connections user (codes "bob@x") [] (account 3 ∷ []) (pos 9)
      (record { limit = refl; counted = refl; bounded = omega arith })

given :
    exec_prepared_wrapper server get_accounts_for_user_pre (codes "bob@x" ∷ []) connections
    ≡ (executed (codes "one"), connections)
unfolding execute tried judged get_with
given = refl

get_accounts_for_user-rows_map_example :
    get_accounts_for_user server (codes "bob@x") connections
    ≡ (from_option (rows_map server (codes "one") 1 0 []), connections)
unfolding total
get_accounts_for_user-rows_map_example =
    get_accounts_for_user-rows_map server (codes "bob@x") connections connections (codes "one")
      given (λ i. omega arith)

upsert_accounts_for_user-upsert_text_example :
    upsert_accounts_for_user server (codes "bob@x") (account 3 ∷ []) connections
    ≡ then_store server
        (λ res. returned true)
        (threw (codes "Error in ::upsert_accounts_for_user"))
        (exec_wrapper server (upsert_text (codes "bob@x") (account 3 ∷ [])) connections)
unfolding all_texts texts
upsert_accounts_for_user-upsert_text_example =
    upsert_accounts_for_user-upsert_text server (codes "bob@x") (account 3) [] connections
      (omega arith) (omega arith)

upsert_text-injected_example :
    upsert_text (codes "eve@x") (injected (account 3) (codes "bob@x") (account 4) ∷ [])
    ≡ upsert_account_prepare_1
      ++ row (codes "eve@x") (account 3)
      ++ codes ", "
      ++ row (codes "bob@x") (account 4)
      ++ upsert_account_prepare_2
upsert_text-injected_example =
    upsert_text-injected (codes "eve@x") (codes "bob@x") (account 3) (account 4)
