-- ===== src/Postgres/StoreLaws.antt =====
-- The operations of data_store_connection.cpp: what they do to the connections, and what they send
-- and read.
use sync_server.Base.{
  ℕ, ◌+◌, ◌*◌, ◌^◌, ◌≤◌, ◌<◌, ◌≡◌, refl, ap, ◌∙◌, ◌⊎◌, inl, inr, true, Option, none, some, List, [],
  ◌∷◌, Bytes, codes, length, arith, ℤ, ltb, Bool-cases,
}
use sync_server.Store.{User, Account}
use sync_server.Postgres.{Libpq}
use sync_server.Postgres.Pool.{Connections, get_accounts_for_user_pre}
use sync_server.Postgres.Execute.{
  Executed, executed, thrown, stuck, exec_attempts, exec_wrapper, exec_prepared_wrapper,
}
use sync_server.Postgres.Count.{IsCounted, IsShort, Kept, execute-Kept}
use sync_server.Postgres.Sql.{Buffer, upsert_buffer}
use sync_server.Postgres.Fits.{upsert_text, all_texts}
use sync_server.Postgres.Fits.Rows.{upsert_buffer-upsert_text}
use sync_server.Postgres.Heap.{row_values, total, first_heap}
use sync_server.Postgres.HeapFits.{rows_map, read_rows-rows_map}
use sync_server.Postgres.Store.{
  Stored, returned, threw, from_option, then_store, then_purge, purge, get_all_users,
  get_accounts_for_user, upsert_sql, upsert_accounts_for_user, create_user,
  update_last_sync_for_user, delete_user, delete_old_users, delete_history,
}

module _ {W : Type 0} (pq : Libpq W) (m k : ℕ) where
  -- The counter is right, or one too low.
  abbrev pub IsNearly : Connections pq → Type 0
  IsNearly p = IsCounted pq m k p ⊎ IsShort pq m k p

  nearly : (r : Executed pq × Connections pq) → Kept pq m k r → IsNearly r.1
  nearly (executed res, p) h = inl h
  nearly (thrown, p) h = h
  nearly (stuck, p) h = inl h

  then_store-IsNearly :
      {A : Type 0} (f : pq.PgResult → Stored A) (handler : Stored A)
      (r : Executed pq × Connections pq)
      → Kept pq m k r
      → IsNearly (then_store pq f handler r).1
  unfolding then_store
  then_store-IsNearly f handler (executed res, p) h = inl h
  then_store-IsNearly f handler (thrown, p) h = h
  then_store-IsNearly f handler (stuck, p) h = inl h

  then_purge-Kept :
      (sql : Bytes) (r : Executed pq × Connections pq)
      → Kept pq m k r
      → Kept pq m k (then_purge pq sql r)
  unfolding then_purge
  then_purge-Kept sql (executed res, p) h = elim (Bool-cases (ltb 0 (pq.ntuples res))) [
    | inl found ↦ rw found (execute-Kept pq exec_attempts (λ conn. pq.exec conn sql) m k p h)
    | inr nothing ↦ rw nothing h
  ]
  then_purge-Kept sql (thrown, p) h = h
  then_purge-Kept sql (stuck, p) h = h

  exec-Kept :
      (sql : Bytes) (p : Connections pq) → IsCounted pq m k p → Kept pq m k (exec_wrapper pq sql p)
  exec-Kept sql = execute-Kept pq exec_attempts (λ conn. pq.exec conn sql) m k

  exec_prepared-Kept :
      (pre : Bytes) (values : List Bytes) (p : Connections pq)
      → IsCounted pq m k p
      → Kept pq m k (exec_prepared_wrapper pq pre values p)
  exec_prepared-Kept pre values =
      execute-Kept pq exec_attempts (λ conn. pq.exec_prepared conn pre values) m k

  purge-IsNearly :
      (select delete : Bytes) (p : Connections pq)
      → IsCounted pq m k p
      → IsNearly (purge pq select delete p).1
  unfolding purge
  purge-IsNearly select delete p h =
      then_store-IsNearly _ _ _ (then_purge-Kept delete _ (exec-Kept select p h))

  upsert_sql-IsNearly :
      (b : Option Buffer) (p : Connections pq) → IsCounted pq m k p → IsNearly (upsert_sql pq b p).1
  unfolding upsert_sql
  upsert_sql-IsNearly none p h = inl h
  upsert_sql-IsNearly (some b) p h = then_store-IsNearly _ _ _ (exec-Kept b.text p h)

  upsert-IsNearly :
      (user : Bytes) (accounts : List Account) (p : Connections pq)
      → IsCounted pq m k p
      → IsNearly (upsert_accounts_for_user pq user accounts p).1
  unfolding upsert_accounts_for_user
  upsert-IsNearly user [] p h = inl h
  upsert-IsNearly user (a ∷ accounts) p h =
      upsert_sql-IsNearly (upsert_buffer user (a ∷ accounts)) p h

  -- Each operation of the store, whatever the server does, gives back the connections that it takes:
  -- those that are counted are afterwards those in use elsewhere and those that are idle, or one
  -- fewer.
  pub operations-IsNearly :
      (p : Connections pq) (user : User) (name stale : Bytes) (accounts : List Account) (time : ℤ)
      → IsCounted pq m k p
      → IsNearly (get_all_users pq p).1
        × IsNearly (get_accounts_for_user pq name p).1
        × IsNearly (upsert_accounts_for_user pq name accounts p).1
        × IsNearly (create_user pq stale user p).1
        × IsNearly (update_last_sync_for_user pq name time p).1
        × IsNearly (delete_user pq user p).1
        × IsNearly (delete_old_users pq time p).1
        × IsNearly (delete_history pq time p).1
  unfolding get_all_users get_accounts_for_user create_user update_last_sync_for_user delete_user
      delete_old_users delete_history
  operations-IsNearly p user name stale accounts time h = (
    then_store-IsNearly _ _ _ (exec-Kept _ p h),
    then_store-IsNearly _ _ _ (exec_prepared-Kept _ _ p h),
    upsert-IsNearly name accounts p h,
    then_store-IsNearly _ _ _ (exec_prepared-Kept _ _ p h),
    then_store-IsNearly _ _ _ (exec_prepared-Kept _ _ p h),
    then_store-IsNearly _ _ _ (exec_prepared-Kept _ _ p h),
    purge-IsNearly _ _ p h,
    purge-IsNearly _ _ p h,
  )

module _ {W : Type 0} (pq : Libpq W) where
  -- What the server's answer has is what the caller gets: if the texts of each row have no more than
  -- 1018 bytes together, the accounts that are returned are those of the rows.
  pub get_accounts_for_user-rows_map :
      (user : Bytes) (p q : Connections pq) (res : pq.PgResult)
      → exec_prepared_wrapper pq get_accounts_for_user_pre (user ∷ []) p ≡ (executed res, q)
      → ((i : ℕ) → total (row_values pq res i) ≤ 1018)
      → get_accounts_for_user pq user p ≡ (from_option (rows_map pq res (pq.ntuples res) 0 []), q)
  unfolding get_accounts_for_user then_store
  get_accounts_for_user-rows_map user p q res given small =
      let read =
        read_rows-rows_map pq res (pq.ntuples res) 0 (first_heap (pq.ntuples res)) [] small
          (omega arith) (omega arith) in
      rw (given, read) refl

  -- With a user's name of no more than 34 bytes and texts that together stay well below 2 ^ 32, one
  -- statement is sent, and it is the one that has a row for each account.
  pub upsert_accounts_for_user-upsert_text :
      (user : Bytes) (a : Account) (accounts : List Account) (p : Connections pq)
      → length user ≤ 34
      → 4 * all_texts (a ∷ accounts) + 3000 < 2 ^ 32
      → upsert_accounts_for_user pq user (a ∷ accounts) p
        ≡ then_store pq
            (λ res. returned true)
            (threw (codes "Error in ::upsert_accounts_for_user"))
            (exec_wrapper pq (upsert_text user (a ∷ accounts)) p)
  unfolding upsert_accounts_for_user upsert_sql
  upsert_accounts_for_user-upsert_text user a accounts p short small =
      let (b, given, text) = upsert_buffer-upsert_text user (a ∷ accounts) short small in
      ap (λ o. upsert_sql pq o p) given
      ∙ ap
          (λ sql.
            then_store pq (λ res. returned true)
              (threw (codes "Error in ::upsert_accounts_for_user")) (exec_wrapper pq sql p))
          text
