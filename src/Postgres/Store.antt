-- ===== src/Postgres/Store.antt =====
-- The operations of data_store_connection.cpp.
use sync_server.Base.{
  ℕ, zero, suc, ◌+◌, Bool, true, false, Option, none, some, List, [], ◌∷◌, ◌++◌, Bytes, codes, ℤ,
  ltb, if◌then◌else◌,
}
use sync_server.Base.Long.{print_long, atol}
use sync_server.Map.{Map}
use sync_server.Store.{User, Account}
use sync_server.Postgres.{Libpq}
use sync_server.Postgres.Pool.{
  Connections, create_user_pre, delete_user_pre, update_last_sync_time_pre,
  get_accounts_for_user_pre,
}
use sync_server.Postgres.Execute.{
  Executed, executed, thrown, stuck, execute, exec_wrapper, exec_prepared_wrapper,
}
use sync_server.Postgres.Sql.{Buffer, upsert_buffer}
use sync_server.Postgres.Heap.{first_heap, read_rows}

-- What an operation does. `waits` is for another thread to give a connection back, and `undefined`
-- has no defined behaviour.
pub data Stored (A : Type 0) : Type 0 where
  returned : A → Stored A
  threw : Bytes → Stored A
  waits undefined : Stored A

abbrev pub from_option : {A : Type 0} → Option A → Stored A
from_option none = undefined
from_option (some a) = returned a

module _ {W : Type 0} (pq : Libpq W) where
  -- What becomes of a wrapper's result, and of its throw.
  unfoldable pub then_store :
      {A : Type 0}
      → (pq.PgResult → Stored A)
      → Stored A
      → Executed pq × Connections pq
      → Stored A × Connections pq
  then_store f handler (executed res, p) = (f res, p)
  then_store f handler (thrown, p) = (handler, p)
  then_store f handler (stuck, p) = (waits, p)

  add_user : pq.PgResult → ℕ → Option ℤ → List User → Option (List User)
  add_user res j none users = none
  add_user res j (some time) users = some (
      record {
        account_uuid = pq.getvalue res j 0;
        account_password = pq.getvalue res j 1;
        account_last_sync = time;
      }
      ∷ users)

  then_users : Option (List User) → (List User → Option (List User)) → Option (List User)
  then_users none f = none
  then_users (some users) f = f users

  -- Each row goes to the front.
  unfoldable pub read_users : pq.PgResult → ℕ → ℕ → List User → Option (List User)
  unfolding then_users add_user atol
  read_users res zero j users = some users
  read_users res (suc n) j users =
      then_users (add_user res j (atol (pq.getvalue res j 2)) users) (read_users res n (j + 1))

  unfoldable pub get_all_users : Connections pq → Stored (List User) × Connections pq
  unfolding then_store read_users execute
  get_all_users p =
      then_store (λ res. from_option (read_users res (pq.ntuples res) 0 [])) (returned [])
        (exec_wrapper pq (codes "SELECT * FROM users") p)

  unfoldable pub get_accounts_for_user :
      Bytes → Connections pq → Stored (Map Account) × Connections pq
  unfolding then_store read_rows execute
  get_accounts_for_user user p =
      then_store
        (λ res. from_option (read_rows pq res (pq.ntuples res) 0 (first_heap (pq.ntuples res)) []))
        (threw (codes "Error in ::get_accounts_for_user"))
        (exec_prepared_wrapper pq get_accounts_for_user_pre (user ∷ []) p)

  unfoldable pub upsert_sql : Option Buffer → Connections pq → Stored Bool × Connections pq
  unfolding then_store execute
  upsert_sql none p = (undefined, p)
  upsert_sql (some b) p =
      then_store (λ res. returned true) (threw (codes "Error in ::upsert_accounts_for_user"))
        (exec_wrapper pq b.text p)

  unfoldable pub upsert_accounts_for_user :
      Bytes → List Account → Connections pq → Stored Bool × Connections pq
  unfolding upsert_sql upsert_buffer
  upsert_accounts_for_user user [] p = (returned true, p)
  upsert_accounts_for_user user (a ∷ accounts) p = upsert_sql (upsert_buffer user (a ∷ accounts)) p

  -- `stale` is what the memory holds that `std::to_string(user.account_last_sync)` has left: the
  -- pointer to it is kept, and the string is not.
  unfoldable pub create_user : Bytes → User → Connections pq → Stored Bool × Connections pq
  unfolding then_store execute
  create_user stale user p =
      then_store (λ res. returned true) (threw (codes "Error in ::createUser"))
        (exec_prepared_wrapper pq create_user_pre
          (user.account_uuid ∷ user.account_password ∷ stale ∷ codes "1.00" ∷ []) p)

  unfoldable pub update_last_sync_for_user :
      Bytes → ℤ → Connections pq → Stored Bool × Connections pq
  unfolding then_store execute print_long
  update_last_sync_for_user user lock_time p =
      then_store (λ res. returned true) (returned false)
        (exec_prepared_wrapper pq update_last_sync_time_pre (print_long lock_time ∷ user ∷ []) p)

  unfoldable pub delete_user : User → Connections pq → Stored Bool × Connections pq
  unfolding then_store execute
  delete_user user p =
      then_store (λ res. returned true) (threw (codes "Error in ::delete_user"))
        (exec_prepared_wrapper pq delete_user_pre (user.account_uuid ∷ []) p)

  -- The second statement, if the first has found anything.
  unfoldable pub then_purge : Bytes → Executed pq × Connections pq → Executed pq × Connections pq
  unfolding execute
  then_purge sql (executed res, p) =
      let purged = exec_wrapper pq sql p in
      if ltb 0 (pq.ntuples res) then purged else (executed res, p)
  then_purge sql (thrown, p) = (thrown, p)
  then_purge sql (stuck, p) = (stuck, p)

  unfoldable pub purge : Bytes → Bytes → Connections pq → Stored (Unit {0}) × Connections pq
  unfolding then_store then_purge execute
  purge select delete p =
      then_store (λ res. returned tt) (returned tt) (then_purge delete (exec_wrapper pq select p))

  unfoldable pub delete_old_users : ℤ → Connections pq → Stored (Unit {0}) × Connections pq
  unfolding purge print_long
  delete_old_users time_ms =
      purge
        (codes "SELECT account_uuid, account_name FROM accounts WHERE update_time < "
          ++ print_long time_ms)
        (codes "DELETE FROM accounts WHERE update_time < " ++ print_long time_ms)

  unfoldable pub delete_history : ℤ → Connections pq → Stored (Unit {0}) × Connections pq
  unfolding purge print_long
  delete_history time_sec =
      purge
        (codes "SELECT account_uuid, account_name FROM history WHERE insert_time < "
          ++ print_long time_sec)
        (codes "DELETE FROM history WHERE insert_time < " ++ print_long time_sec)
