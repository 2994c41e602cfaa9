-- ===== src/Redis/Outcomes.antt =====
-- What the operations leave in a Redis server.
use mathlib.Core.List.{append_assoc}
use sync_server.Base.{
  ℕ, suc, ◌≡◌, refl, ap, ◌∙◌, Bool, true, false, Option, none, some, List, [], ◌∷◌, ◌++◌, arith,
  Bytes, codes, beq, beq_refl, beq_iff, ℤ, Bool-cases, inl, inr, length, length-append,
  if◌then◌else◌,
}
use sync_server.Map.{get}
use sync_server.Map.Laws.{get-put}
use sync_server.Store.{User, Account}
use sync_server.Redis.{Redis, Command, accounts_key, account_key, sync_key, users_key}
use sync_server.Redis.Attempts.{ran, Rest, attempted, worked, attempts, pipeline, judged, piped}
use sync_server.Redis.Server.{Db, execute, execute_all, IsServer, pipeline-db}
use sync_server.Redis.Store.{
  create_commands, create_user, update_last_sync_for_user, upsert_accounts_for_user,
}
use sync_server.Pool.{Pool, connection, thrown, get_connection, release_connection}

-- What the store knows of its users.
abbrev pub password_of : Bytes → Db → Option Bytes
password_of user d = get user (d.hashes users_key)

key_differs : (user : Bytes) → beq (accounts_key user) users_key ≡ false
key_differs user = elim (Bool-cases (beq (accounts_key user) users_key)) [
  | inl e ↦
      let l : length (accounts_key user) ≡ 5 =
        ap length ((beq_iff (accounts_key user) users_key).0 e) in
      absurd (omega (arith, length-append user (codes ".accounts")))
  | inr e ↦ e
]

sync_differs : (user : Bytes) → beq (sync_key user) users_key ≡ false
sync_differs user = elim (Bool-cases (beq (sync_key user) users_key)) [
  | inl e ↦
      let l : length (sync_key user) ≡ 5 = ap length ((beq_iff (sync_key user) users_key).0 e) in
      absurd (omega (arith, length-append user (codes ".lastSync")))
  | inr e ↦ e
]

-- The three commands of `createUser`: the user has the password, no other user has changed, and the
-- list of the user's accounts is empty.
created_db :
    (u : User) (d : Db)
    → let d' = execute_all execute (create_commands u) d in
      ((j : Bytes)
        → password_of j d'
          ≡ (if beq u.account_uuid j then some u.account_password else password_of j d))
      × (d'.hashes (accounts_key u.account_uuid) ≡ [])
unfolding execute_all execute beq
created_db u d = (
  λ j.
      rw (key_differs u.account_uuid, sync_differs u.account_uuid)
        (get-put u.account_uuid j u.account_password (d.hashes users_key)),
  rw (beq_refl (accounts_key u.account_uuid)),
)

unchanged_all : (commands : List Command) (d : Db) → execute_all (λ k e. e) commands d ≡ d
unfolding execute_all
unchanged_all [] d = refl
unchanged_all (k ∷ commands) d = unchanged_all commands d

module _ {W : Type 0} (redis : Redis W) (db : W → Db) where
  worked-judged :
      (rest : Rest redis (Unit {0})) (test : Bool) (c : redis.Conn) (q : Pool redis) (r : Bool × W)
      → r.0 ≡ true
      → worked redis rest test c q (judged redis tt r)
        ≡ (ran true tt, release_connection redis (some c) (record q { world = r.1 }))
  unfolding worked judged attempted
  worked-judged rest test c q (true, w) h = refl
  worked-judged rest test c q (false, w) h = absurd (cc)

  released-db :
      ((c : redis.Conn) (w : W) → db (redis.free c w) ≡ db w)
      → (c : redis.Conn) (p : Pool redis)
      → db (release_connection redis (some c) p).world ≡ db p.world
  unfolding release_connection
  released-db frees c p = elim (Bool-cases (redis.err c p.world)) [
    | inl bad ↦ rw bad (frees c p.world)
    | inr good ↦ rw good
  ]

  -- A connection with nothing pending, on which every reply to the commands comes.
  pub record IsServed (commands : List Command) (fuel : ℕ) (pending : redis.Conn → W → List Command)
      (c : redis.Conn) (p q : Pool redis) : Type 0 where
    pub taken : get_connection redis fuel false p ≡ (connection c, q)
    pub idle : pending c q.world ≡ []
    pub replied : (pipeline redis commands c q.world).0 ≡ true

  module _ (pending : redis.Conn → W → List Command) (effect : Command → Db → Db)
      (server : IsServer redis db pending effect) where
    -- The operation then succeeds at its first attempt, with the effect of its commands.
    piped-db :
        (commands : List Command) (fuel n : ℕ) (on_throw tests : Bool) (c : redis.Conn)
        → (p q : Pool redis) → IsServed commands fuel pending c p q
        → let r = attempts redis fuel (suc n) on_throw tests (piped redis commands) false tt p in
          (r.0 ≡ ran true tt) × (db r.1.world ≡ execute_all effect commands (db q.world))
    unfolding attempts piped
    piped-db commands fuel n on_throw tests c p q served =
        let e =
          worked-judged (attempts redis fuel n on_throw tests (piped redis commands)) false c q
            (pipeline redis commands c q.world) served.replied in
        rw (served.taken, attempts)
          (
            ap (λ r. r.0) e,
            ap (λ r. db r.1.world) e
                ∙ released-db server.free_db c _
                ∙ pipeline-db redis db pending effect server commands c q.world served.idle
                    served.replied,
          )

  -- On a server that accepts its commands, a user that is created has the password in the store, and
  -- no account; no other user's password changes.
  pub create_user_done :
      (pending : redis.Conn → W → List Command)
      → IsServer redis db pending execute
      → (fuel : ℕ) (u : User) (c : redis.Conn) (p q : Pool redis)
      → IsServed (create_commands u) fuel pending c p q
      → let r = create_user redis fuel u p in
        (r.0 ≡ ran true tt)
        × ((j : Bytes)
            → password_of j (db r.1.world) ≡ (
                if beq u.account_uuid j
                then some u.account_password
                else password_of j (db q.world)))
        × ((db r.1.world).hashes (accounts_key u.account_uuid) ≡ [])
  unfolding create_user
  create_user_done pending server fuel u c p q served =
      let (done, e) =
        piped-db pending execute server (create_commands u) fuel 2 false false c p q served in
      let (passwords, empty) = created_db u (db q.world) in
      (
        done,
        λ j. ap (password_of j) e ∙ passwords j,
        ap (λ d. d.hashes (accounts_key u.account_uuid)) e ∙ empty,
      )

  -- On a server that answers every command with an error, the operation reports success too, and the
  -- store is as it was.
  pub create_user_refused :
      (pending : redis.Conn → W → List Command)
      → IsServer redis db pending (λ k d. d)
      → (fuel : ℕ) (u : User) (c : redis.Conn) (p q : Pool redis)
      → IsServed (create_commands u) fuel pending c p q
      → let r = create_user redis fuel u p in (r.0 ≡ ran true tt) × (db r.1.world ≡ db q.world)
  unfolding create_user
  create_user_refused pending server fuel u c p q served =
      let (done, e) =
        piped-db pending (λ k d. d) server (create_commands u) fuel 2 false false c p q served in
      (done, e ∙ unchanged_all (create_commands u) (db q.world))

module _ {W : Type 0} (redis : Redis W) where
  -- When no connection can be had, both operations of the final synchronisation report success, and
  -- have sent nothing.
  pub stored_thrown :
      (fuel : ℕ) (user : Bytes) (accounts : List Account) (time : ℤ) (p q : Pool redis)
      → get_connection redis fuel false p ≡ (thrown, q)
      → (upsert_accounts_for_user redis fuel user accounts p
          ≡ (ran true tt, release_connection redis none q))
        × (update_last_sync_for_user redis fuel user time p
            ≡ (ran true tt, release_connection redis none q))
  unfolding upsert_accounts_for_user update_last_sync_for_user attempts
  stored_thrown fuel user accounts time p q none_given =
      (rw (none_given, attempts), rw (none_given, attempts))

-- The keys of two users' accounts are one, where one user's name goes on like a key of the other's:
-- the account `n` of `u.account.v` is the account `v.account.n` of `u`.
pub account_key_shared :
    (u v n : Bytes)
    → account_key (u ++ codes ".account." ++ v) n ≡ account_key u (v ++ codes ".account." ++ n)
account_key_shared u v n = simp append_assoc
