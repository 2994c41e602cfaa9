-- ===== src/Redis/Server.antt =====
-- What a Redis server does with the commands, as its documentation has it.
use mathlib.Core.List.{append-nil, append_assoc}
use sync_server.Base.{
  ◌≡◌, refl, sym, ap, ◌∙◌, Bool, true, Option, none, some, List, [], ◌∷◌, ◌++◌, Bytes, beq, is_some,
  length, if◌then◌else◌,
}
use sync_server.Map.{Map, put, erase}
use sync_server.Redis.{Redis, Command, Reply, hset, hmset, set, hdel, del}
use sync_server.Redis.Attempts.{append_all, pipeline}
use sync_server.Pool.{go_on, eat_pipeline_replies}

-- The keys that hold a hash, and those that hold a text.
pub record Db : Type 0 where
  pub hashes : Bytes → Map Bytes
  pub texts : Bytes → Option Bytes

abbrev pub update {ℓ} : {A : Type ℓ} → Bytes → A → (Bytes → A) → Bytes → A
update k a f j = if beq k j then a else f j

abbrev put_all : List (Bytes × Bytes) → Map Bytes → Map Bytes
put_all [] m = m
put_all ((field, value) ∷ fields) m = put_all fields (put field value m)

unfoldable pub execute : Command → Db → Db
execute (hset key field value) d = record d {
  hashes = update key (put field value (d.hashes key)) d.hashes;
}
execute (hmset key fields) d = record d {
  hashes = update key (put_all fields (d.hashes key)) d.hashes;
}
execute (hdel key field) d = record d { hashes = update key (erase field (d.hashes key)) d.hashes }
execute (set key value) d = record {
  hashes = update key [] d.hashes;
  texts = update key (some value) d.texts;
}
execute (del key) d = record { hashes = update key [] d.hashes; texts = update key none d.texts }
execute _ d = d

unfoldable pub execute_all : (Command → Db → Db) → List Command → Db → Db
execute_all effect [] d = d
execute_all effect (k ∷ commands) d = execute_all effect commands (effect k d)

-- A server with the content `db`, for which each connection has commands that are sent and not
-- answered: a command takes effect when its reply comes, in the order of the commands. `effect` is
-- `execute` for a server that accepts them, and nothing for one that answers errors.
pub record IsServer {W : Type 0} (redis : Redis W) (db : W → Db)
    (pending : redis.Conn → W → List Command) (effect : Command → Db → Db) : Type 0 where
  pub append_pending :
      (c : redis.Conn) (k : Command) (w : W)
      → pending c (redis.append c k w) ≡ pending c w ++ k ∷ []
  pub append_db : (c : redis.Conn) (k : Command) (w : W) → db (redis.append c k w) ≡ db w
  pub reply_pending :
      (c : redis.Conn) (k : Command) (rest : List Command) (w : W)
      → pending c w ≡ k ∷ rest
      → is_some (redis.get_reply c w).0 ≡ true
      → pending c (redis.get_reply c w).1 ≡ rest
  pub reply_db :
      (c : redis.Conn) (k : Command) (rest : List Command) (w : W)
      → pending c w ≡ k ∷ rest
      → is_some (redis.get_reply c w).0 ≡ true
      → db (redis.get_reply c w).1 ≡ effect k (db w)
  pub free_db : (c : redis.Conn) (w : W) → db (redis.free c w) ≡ db w

module _ {W : Type 0} (redis : Redis W) (db : W → Db) (pending : redis.Conn → W → List Command)
    (effect : Command → Db → Db) (server : IsServer redis db pending effect) where
  append_all-pending :
      (commands : List Command) (c : redis.Conn) (w : W)
      → pending c (append_all redis commands c w) ≡ pending c w ++ commands
  unfolding append_all
  append_all-pending [] c w = rw (append-nil (pending c w))
  append_all-pending (k ∷ commands) c w =
      append_all-pending commands c (redis.append c k w)
      ∙ rw (server.append_pending c k w, append_assoc (pending c w) (k ∷ []) commands)

  append_all-db :
      (commands : List Command) (c : redis.Conn) (w : W) → db (append_all redis commands c w) ≡ db w
  unfolding append_all
  append_all-db [] c w = refl
  append_all-db (k ∷ commands) c w =
      append_all-db commands c (redis.append c k w) ∙ server.append_db c k w

  go_on-true :
      (r : Option Reply × W) (rest : W → Bool × W)
      → (go_on redis r rest).0 ≡ true
      → (is_some r.0 ≡ true) × (go_on redis r rest ≡ rest r.1)
  unfolding go_on
  go_on-true (some reply, w) rest h = (refl, refl)
  go_on-true (none, w) rest h = absurd (cc)

  eat_pipeline_replies-db :
      (commands : List Command) (c : redis.Conn) (w : W)
      → pending c w ≡ commands
      → (eat_pipeline_replies redis (length commands) c w).0 ≡ true
      → db (eat_pipeline_replies redis (length commands) c w).1 ≡ execute_all effect commands (db w)
  unfolding eat_pipeline_replies execute_all
  eat_pipeline_replies-db [] c w waiting h = refl
  eat_pipeline_replies-db (k ∷ commands) c w waiting h =
      let (there, e) =
        go_on-true (redis.get_reply c w) (eat_pipeline_replies redis (length commands) c) h in
      ap (λ r. db r.1) e
      ∙ eat_pipeline_replies-db commands c (redis.get_reply c w).1
          (server.reply_pending c k commands w waiting there) (sym (ap (λ r. r.0) e) ∙ h)
      ∙ ap (execute_all effect commands) (server.reply_db c k commands w waiting there)

  -- A pipeline that succeeds, on a connection with nothing pending, has had its effect, command by
  -- command.
  pub pipeline-db :
      (commands : List Command) (c : redis.Conn) (w : W)
      → pending c w ≡ []
      → (pipeline redis commands c w).0 ≡ true
      → db (pipeline redis commands c w).1 ≡ execute_all effect commands (db w)
  unfolding pipeline
  pipeline-db commands c w idle h =
      eat_pipeline_replies-db commands c (append_all redis commands c w)
        (append_all-pending commands c w ∙ ap (λ l. l ++ commands) idle) h
      ∙ ap (execute_all effect commands) (append_all-db commands c w)
