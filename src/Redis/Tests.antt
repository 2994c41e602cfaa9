-- ===== src/Redis/Tests.antt =====
-- A server with one connection, that keeps the commands that it has not answered.
use sync_server.Base.{
  ◌≡◌, refl, true, false, Option, none, some, List, [], ◌∷◌, ◌++◌, arith, Bytes, codes, beq, pos,
  is_some, if◌then◌else◌,
}
use sync_server.Store.{User, Account}
use sync_server.Redis.{Redis, Command, Reply, accounts_key, fields_of, other}
use sync_server.Redis.Attempts.{ran, append_all, pipeline, Body, attempts, failed}
use sync_server.Redis.Fields.{no_fields, read_fields, flatten, read_back, read_fields-fields_of}
use sync_server.Redis.Kept.{Kept, attempts-Kept}
use sync_server.Redis.Server.{Db, execute, IsServer}
use sync_server.Redis.Store.{create_commands, create_user}
use sync_server.Redis.Outcomes.{password_of, IsServed, create_user_done}
use sync_server.Pool.{Pool, create_connection, get_connection, eat_pipeline_replies}
use sync_server.Pool.Count.{IsPool}

abbrev Net : Type 0
Net = Db × List Command

abbrev answered : (Command → Db → Db) → Reply → Net → Option Reply × Net
answered effect r (d, []) = (none, (d, []))
answered effect r (d, k ∷ commands) = (some r, (effect k d, commands))

abbrev redis : (Command → Db → Db) → Reply → Redis Net
redis effect r = record {
  Conn = Unit {0};
  connect = λ w. (some tt, w);
  err = λ c w. false;
  command = λ c k w. (some other, w);
  append = λ c k w. (w.0, w.1 ++ k ∷ []);
  get_reply = λ c w. answered effect r w;
  free = λ c w. w;
}

abbrev content : Net → Db
content w = w.0

answered-pending :
    (effect : Command → Db → Db) (r : Reply) (k : Command) (rest : List Command) (d : Db)
    → (l : List Command) → l ≡ k ∷ rest
    → (answered effect r (d, l)).1 ≡ (effect k d, rest)
answered-pending effect r k rest d l e = rw e

redis-IsServer :
    (effect : Command → Db → Db) (r : Reply) → IsServer (redis effect r) content (λ c w. w.1) effect
redis-IsServer effect r = record {
  append_pending = λ c k w. refl;
  append_db = λ c k w. refl;
  reply_pending = λ c k rest w e there. rw (answered-pending effect r k rest w.0 w.1 e);
  reply_db = λ c k rest w e there. rw (answered-pending effect r k rest w.0 w.1 e);
  free_db = λ c w. refl;
}

abbrev nothing_there : Db
nothing_there = record { hashes = λ k. []; texts = λ k. none }

abbrev pool : (effect : Command → Db → Db) (r : Reply) → Pool (redis effect r)
pool effect r = record {
  connections = tt ∷ [];
  current_connections = pos 1;
  max_connections = pos 4;
  world = (nothing_there, []);
}

abbrev taken_pool : (effect : Command → Db → Db) (r : Reply) → Pool (redis effect r)
taken_pool effect r = record {
  connections = [];
  current_connections = pos 1;
  max_connections = pos 4;
  world = (nothing_there, []);
}

abbrev bob : User
bob = record {
  account_uuid = codes "bob@site.com";
  account_password = codes "7077";
  account_last_sync = pos 1;
}

served :
    (effect : Command → Db → Db) (r : Reply)
    → IsServed
        (redis effect r)
        content
        (create_commands bob)
        1
        (λ c w. w.1)
        tt
        (pool effect r)
        (taken_pool effect r)
unfolding get_connection pipeline append_all eat_pipeline_replies
served effect r = record { taken = refl; idle = refl; replied = refl }

create_user_done_example :
    let p = create_user (redis execute other) 1 bob (pool execute other) in
    (p.0 ≡ ran true tt)
    × ((j : Bytes)
        → password_of j (content p.1.world) ≡ (
            if beq bob.account_uuid j
            then some bob.account_password
            else password_of j nothing_there))
    × ((content p.1.world).hashes (accounts_key bob.account_uuid) ≡ [])
create_user_done_example =
    create_user_done (redis execute other) content (λ c w. w.1) (redis-IsServer execute other) 1 bob
      tt (pool execute other) (taken_pool execute other) (served execute other)

abbrev bank : Account
bank = record {
  account_name = codes "bank";
  account_uuid = codes "bob@site.com";
  user_name = codes "b";
  password = codes "x";
  old_password = codes "y";
  url = codes "u";
  update_time = pos 3;
  deleted = true;
}

read_fields-fields_of_example :
    read_back (read_fields (flatten (fields_of bank)) no_fields) bank.account_uuid ≡ some bank
read_fields-fields_of_example = read_fields-fields_of bank no_fields (omega arith)

connected : (w : Net) → is_some (create_connection (redis execute other) w).0 ≡ true
unfolding create_connection
connected w = refl

pool-IsPool :
    IsPool (redis execute other) 4 2 (record (pool execute other) { current_connections = pos 3 })
pool-IsPool = record { limit = refl; counted = refl; bounded = omega arith }

-- An attempt that always fails.
abbrev fails : Body (redis execute other) (Unit {0})
fails a c w = (failed true a, w)

attempts-Kept_example : Kept (redis execute other) connected 4 2 (
    attempts
      (redis execute other)
      3
      4
      false
      false
      fails
      false
      tt
      (record (pool execute other) { current_connections = pos 3 }))
attempts-Kept_example =
    attempts-Kept (redis execute other) connected 3 4 4 2 false false fails false tt
      (record (pool execute other) { current_connections = pos 3 }) pool-IsPool
