-- ===== src/Stores/OverPostgres.antt =====
-- The handlers over data_store_connection.cpp.
use sync_server.Base.{◌≡◌, ap, true, [], ◌∷◌, Bytes, ℤ, some, codes}
use sync_server.Exec.{Outcome, ok, err, fault, text, http_error}
use sync_server.Http.{http_500}
use sync_server.Map.Laws.{get-put_same}
use sync_server.Password.{hash_password}
use sync_server.Store.{DataStore}
use sync_server.Postgres.{Libpq}
use sync_server.Postgres.Pool.{Connections, create_user_pre}
use sync_server.Postgres.Execute.{thrown, exec_prepared_wrapper}
use sync_server.Postgres.Store.{
  Stored, returned, threw, then_store, create_user, delete_user, get_accounts_for_user,
  get_all_users, update_last_sync_for_user, upsert_accounts_for_user,
}
use sync_server.Handler.State.{State, Server}
use sync_server.Handler.Password.{verify_password}
use sync_server.Handler.Register.{handle_register, read_register}
use sync_server.Handler.Register.Outcomes.{
  IsNew, new_info, register_thrown, register_thrown_state, register_known,
}

abbrev pub outcome_of : {A P : Type 0} → Stored A × P → Outcome A × P
outcome_of (returned a, p) = (ok a, p)
outcome_of (threw e, p) = (err (text e), p)
outcome_of (_, p) = (err fault, p)

module _ {W : Type 0} (pq : Libpq W) where
  -- `stale` is what `createUser` sends for the time of the last synchronisation.
  unfoldable pub postgres_store : Bytes → DataStore (Connections pq)
  unfolding create_user delete_user get_accounts_for_user get_all_users update_last_sync_for_user
      upsert_accounts_for_user
  postgres_store stale = record {
    get_all_users = λ p. outcome_of (get_all_users pq p);
    create_user = λ u p. outcome_of (create_user pq stale u p);
    delete_user = λ u p. outcome_of (delete_user pq u p);
    get_accounts_for_user = λ user p. outcome_of (get_accounts_for_user pq user p);
    upsert_accounts_for_user = λ user l p. outcome_of (upsert_accounts_for_user pq user l p);
    update_last_sync_for_user = λ user t p. outcome_of (update_last_sync_for_user pq user t p);
  }

  module _ (stale : Bytes) (sv : Server (Connections pq)) where
    -- The server with this store.
    abbrev pub over_postgres : Server (Connections pq)
    over_postgres = record sv { data_store = postgres_store stale }

    -- A registration, of a user that is not known, whose creation the Postgres store does not confirm:
    -- the exception of `createUser` passes on, and nothing more is sent to the database, neither to
    -- create the user nor to take the user back. From then on the password is accepted all the same,
    -- and any registration of that email that comes next is answered with 500 and changes nothing.
    pub handle_register-create_user :
        (request email password hash : Bytes) (s : State (Connections pq)) (now : ℤ)
        (q : Connections pq) (request' password' hash' : Bytes) (later : ℤ)
        → IsNew over_postgres request email password hash s
        → exec_prepared_wrapper pq create_user_pre
            (email ∷ hash ∷ stale ∷ codes "1.00" ∷ [])
            s.store
          ≡ (thrown, q)
        → read_register over_postgres request' (handle_register over_postgres now request s).1
          ≡ (ok (some email, some password'), (handle_register over_postgres now request s).1)
        → hash_password sv.digest password' ≡ some hash'
        → let (r, after) = handle_register over_postgres now request s in
          (r ≡ err (text (codes "Error in ::createUser")))
          × (after.store ≡ q)
          × (verify_password sv.digest after.user_infos (some email) (some password) ≡ ok true)
          × (handle_register over_postgres later request' after
              ≡ (err (http_error http_500), after))
    unfolding postgres_store create_user then_store
    handle_register-create_user request email password hash s now q request' password' hash' later
          new refused parsed hashes =
        let threw_it =
          ap
            (λ r.
              outcome_of
                (then_store pq (λ res. returned true) (threw (codes "Error in ::createUser")) r))
            refused in
        let x = text (codes "Error in ::createUser") in
        let state =
          register_thrown_state over_postgres request email password hash s now new x q threw_it in
        (
          ap (λ r. r.0) state,
          ap (λ r. r.1.store) state,
          (register_thrown over_postgres request email password hash s now new x q threw_it).1,
          register_known over_postgres request' email password' hash' _ later
              (new_info over_postgres email hash now) parsed new.address hashes
              (rw state (get-put_same email (new_info over_postgres email hash now) s.user_infos)),
        )
