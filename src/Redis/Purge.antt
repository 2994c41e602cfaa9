-- ===== src/Redis/Purge.antt =====
-- `deleteOldUsers` of RedisStore.cpp, which holds a connection while it calls the other operations.
use sync_server.Base.{
  ℕ, zero, suc, ◌≡◌, refl, Bool, true, false, none, some, List, [], ◌∷◌, Bytes, ℤ, ltb_ℤ, All,
  if◌then◌else◌,
}
use sync_server.Map.{Map}
use sync_server.Store.{User, Account}
use sync_server.Redis.{Redis, del, accounts_key}
use sync_server.Redis.Attempts.{Ran, ran, stuck, faulted, pipeline}
use sync_server.Redis.Store.{
  Reading, delete_commands, get_all_users, get_accounts_for_user, max_attempts,
}
use sync_server.Pool.{
  Pool, Result, connection, thrown, waiting, exhausted, get_connection, release_connection,
}

abbrev account_names : Map Account → List Bytes
account_names [] = []
account_names ((key, a) ∷ m) = a.account_name ∷ account_names m

module _ {W : Type 0} (redis : Redis W) (fuel : ℕ) (clock time : ℤ) where
  -- The list of a user's accounts is deleted once the accounts are.
  forget_list : Bytes → redis.Conn → Pool redis → Bool × W → Bool × Pool redis
  unfolding pipeline
  forget_list user c p (true, w) =
      let (success, w') = pipeline redis (del (accounts_key user) ∷ []) c w in
      (success, record p { world = w' })
  forget_list user c p (false, w) = (false, record p { world = w })

  delete_read : Bytes → redis.Conn → Ran Reading × Pool redis → Ran (Unit {0}) × Pool redis
  unfolding forget_list pipeline
  delete_read user c (ran read (fields, m), p) =
      let (success, q) =
        forget_list user c p (pipeline redis (delete_commands user (account_names m)) c p.world) in
      (ran success tt, q)
  delete_read user c (stuck, p) = (stuck, p)
  delete_read user c (faulted, p) = (faulted, p)

  -- One user of the loop.
  delete_old : redis.Conn → User → Pool redis → Ran (Unit {0}) × Pool redis
  unfolding delete_read get_accounts_for_user
  delete_old c u p =
      if ltb_ℤ u.account_last_sync time
      then delete_read u.account_uuid c (get_accounts_for_user redis fuel u.account_uuid p)
      else (ran true tt, p)

  -- The loop ends at the first user whose accounts are not deleted.
  then_users :
      (Pool redis → Ran (Unit {0}) × Pool redis)
      → Ran (Unit {0}) × Pool redis
      → Ran (Unit {0}) × Pool redis
  then_users rest (ran true a, p) = rest p
  then_users rest (r, p) = (r, p)

  delete_all : redis.Conn → List User → Pool redis → Ran (Unit {0}) × Pool redis
  unfolding then_users delete_old
  delete_all c [] p = (ran true tt, p)
  delete_all c (u ∷ users) p = then_users (delete_all c users) (delete_old c u p)

  abbrev Rest : Type 0
  Rest = Bool → Pool redis → Ran (Unit {0}) × Pool redis

  purged : Rest → redis.Conn → Ran (Unit {0}) × Pool redis → Ran (Unit {0}) × Pool redis
  unfolding release_connection
  purged rest c (ran success a, p) =
      let q = release_connection redis (some c) p in
      let again = rest true q in if success then (ran true tt, q) else again
  purged rest c (stuck, p) = (stuck, p)
  purged rest c (faulted, p) = (faulted, p)

  with_connection : Rest → List User → Result redis × Pool redis → Ran (Unit {0}) × Pool redis
  unfolding purged delete_all release_connection
  with_connection rest users (connection c, p) = purged rest c (delete_all c users p)
  with_connection rest users (thrown, p) = rest true (release_connection redis none p)
  with_connection rest users (waiting, p) = (stuck, p)
  with_connection rest users (exhausted, p) = (stuck, p)

  with_users : Rest → Bool → Ran (List User) × Pool redis → Ran (Unit {0}) × Pool redis
  unfolding with_connection get_connection
  with_users rest test (ran success users, p) =
      with_connection rest users (get_connection redis fuel test p)
  with_users rest test (stuck, p) = (stuck, p)
  with_users rest test (faulted, p) = (faulted, p)

  -- With so many attempts left.
  delete_old_from : ℕ → Rest
  unfolding with_users get_all_users
  delete_old_from zero test p = (ran false tt, p)
  delete_old_from (suc n) test p =
      with_users (delete_old_from n) test (get_all_users redis fuel clock (suc max_attempts) p)

  unfoldable pub delete_old_users : Pool redis → Ran (Unit {0}) × Pool redis
  unfolding delete_old_from
  delete_old_users p = delete_old_from (suc max_attempts) false p

  delete_all-young :
      (c : redis.Conn) (users : List User) (p : Pool redis)
      → All (λ u. ltb_ℤ u.account_last_sync time ≡ false) users
      → delete_all c users p ≡ (ran true tt, p)
  unfolding delete_all delete_old then_users
  delete_all-young c [] p young = refl
  delete_all-young c (u ∷ users) p young = rw (young.0) (delete_all-young c users p young.1)

  -- If every user that is loaded has synchronised since the given time, nothing is deleted: the
  -- connection is taken and given back.
  pub delete_old_users-young :
      (users : List User) (success : Bool) (c : redis.Conn) (p q r : Pool redis)
      → get_all_users redis fuel clock (suc max_attempts) p ≡ (ran success users, q)
      → get_connection redis fuel false q ≡ (connection c, r)
      → All (λ u. ltb_ℤ u.account_last_sync time ≡ false) users
      → delete_old_users p ≡ (ran true tt, release_connection redis (some c) r)
  unfolding delete_old_users delete_old_from with_users with_connection purged
  delete_old_users-young users success c p q r loaded given young =
      rw (loaded, with_users)
        (rw (given, with_connection) (rw (delete_all-young c users r young, purged) refl))
