-- ===== src/Stores/OverRedis.antt =====
-- The handlers over RedisStore.cpp.
use sync_server.Base.{ℕ, ◌≡◌, ap, ◌∙◌, Bool, true, false, none, List, Bytes, ℤ}
use sync_server.Exec.{Outcome, ok, err, fault}
use sync_server.Map.{Map}
use sync_server.Store.{Account, DataStore}
use sync_server.Redis.{Redis}
use sync_server.Redis.Attempts.{Ran, ran}
use sync_server.Redis.Store.{
  Reading, create_user, delete_user, get_accounts_for_user, get_all_users,
  update_last_sync_for_user, upsert_accounts_for_user,
}
use sync_server.Redis.Outcomes.{stored_thrown}
use sync_server.Pool.{Pool, thrown, get_connection, release_connection}
use sync_server.Handler.State.{State, Server}
use sync_server.Handler.Accounts.{Sent, accounts_of, read_final, handle_sync_final, sync_final_resp}
use sync_server.Handler.Accounts.Final.{to_store_accounts, recorded-eq}

-- `success`
abbrev pub success_of : {A P : Type 0} → Ran A × P → Outcome Bool × P
success_of (ran success a, p) = (ok success, p)
success_of (_, p) = (err fault, p)

-- What is returned whether or not it has succeeded.
abbrev pub value_of : {A B P : Type 0} → (A → B) → Ran A × P → Outcome B × P
value_of f (ran success a, p) = (ok (f a), p)
value_of f (_, p) = (err fault, p)

abbrev map_of : Reading → Map Account
map_of (fields, m) = m

module _ {W : Type 0} (redis : Redis W) where
  -- `fuel` is what a test of a connection gets, `rounds` how often `getAllUsers` tries, and `now` the
  -- clock that it reads.
  unfoldable pub redis_store : ℕ → ℕ → ℤ → DataStore (Pool redis)
  unfolding create_user delete_user get_accounts_for_user get_all_users update_last_sync_for_user
      upsert_accounts_for_user
  redis_store fuel rounds now = record {
    get_all_users = λ p. value_of (λ users. users) (get_all_users redis fuel now rounds p);
    create_user = λ u p. success_of (create_user redis fuel u p);
    delete_user = λ u p. success_of (delete_user redis fuel u p);
    get_accounts_for_user = λ user p. value_of map_of (get_accounts_for_user redis fuel user p);
    upsert_accounts_for_user =
        λ user accounts p. success_of (upsert_accounts_for_user redis fuel user accounts p);
    update_last_sync_for_user =
        λ user time p. success_of (update_last_sync_for_user redis fuel user time p);
  }

  module _ (fuel rounds : ℕ) (clock : ℤ) (sv : Server (Pool redis)) where
    -- The server with this store.
    abbrev pub over_redis : Server (Pool redis)
    over_redis = record sv { data_store = redis_store fuel rounds clock }

    -- A final synchronisation with the right password, while no connection to Redis can be had, is
    -- answered as complete, and the store has been sent nothing: only the attempts to connect have
    -- changed its state.
    pub handle_sync_final-stored_thrown :
        (now : ℤ) (request email : Bytes) (sent : List Sent) (accounts : List Account)
        (s : State (Pool redis)) (q r : Pool redis)
        → read_final over_redis request s ≡ (ok (email, sent), s)
        → accounts_of email sent ≡ ok accounts
        → get_connection redis fuel false s.store ≡ (thrown, q)
        → get_connection redis fuel false (release_connection redis none q) ≡ (thrown, r)
        → handle_sync_final over_redis now request s
          ≡ (ok sync_final_resp, record s { store = release_connection redis none r })
    unfolding redis_store
    handle_sync_final-stored_thrown now request email sent accounts s q r read solid first second =
        let upsert = (stored_thrown redis fuel email accounts now s.store q first).0 in
        let update =
          (stored_thrown redis fuel email accounts now (release_connection redis none q) r
            second).1 in
        to_store_accounts over_redis now request email sent accounts s read solid
        ∙ recorded-eq over_redis now email accounts s (release_connection redis none q)
            (ap success_of upsert) (ok true) (release_connection redis none r)
            (ap success_of update)
