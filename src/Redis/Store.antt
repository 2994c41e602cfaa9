-- ===== src/Redis/Store.antt =====
-- The operations of RedisStore.cpp, each an attempt that is made up to four times, `createUser` up to
-- three times. `fuel` is what a test of a connection gets.
use sync_server.Base.{
  ℕ, zero, suc, Bool, true, false, Option, none, some, List, [], ◌∷◌, Bytes, codes, ℤ, pos, ltb_ℤ,
  length, ◌==◌, if◌then◌else◌,
}
use sync_server.Base.Long.{print_long, atol}
use sync_server.Map.{Map, emplace}
use sync_server.Store.{User, Account}
use sync_server.Redis.{
  Redis, Command, hset, hmset, set, get, hdel, del, hgetall, hkeys, Reply, text, array,
  are_reply_errors, accounts_key, account_key, sync_key, users_key, fields_of,
}
use sync_server.Redis.Attempts.{
  Attempt, succeeded, failed, undefined, Ran, Body, attempts, append_all, pipeline, judged, piped,
}
use sync_server.Redis.Fields.{Fields, no_fields, read_fields, account_from}
use sync_server.Pool.{Pool}

-- REDIS_MAX_ATTEMPS; `attempt++ <= 3` from 1 on is true three times.
abbrev pub max_attempts : ℕ
max_attempts = 3

abbrev pub create_commands : User → List Command
create_commands u =
    hset users_key u.account_uuid u.account_password
    ∷ set (sync_key u.account_uuid) (print_long u.account_last_sync)
    ∷ del (accounts_key u.account_uuid)
    ∷ []

abbrev pub sync_commands : Bytes → ℤ → List Command
sync_commands user time = set (sync_key user) (print_long time) ∷ []

abbrev pub upsert_commands : Bytes → List Account → List Command
upsert_commands user [] = []
upsert_commands user (a ∷ accounts) =
    hset (accounts_key user) a.account_name (codes "1")
    ∷ hmset (account_key user a.account_name) (fields_of a)
    ∷ upsert_commands user accounts

abbrev pub delete_commands : Bytes → List Bytes → List Command
delete_commands user [] = []
delete_commands user (name ∷ names) = del (account_key user name) ∷ delete_commands user names

abbrev forget_commands : Bytes → List Command
forget_commands user = del (accounts_key user) ∷ hdel users_key user ∷ del (sync_key user) ∷ []

abbrev get_commands : Bytes → List Bytes → List Command
get_commands user [] = []
get_commands user (name ∷ names) = hgetall (account_key user name) ∷ get_commands user names

abbrev pub account_members : ℕ
account_members = 14

-- `reply->element`, of which only an array has any
abbrev elements : Reply → List Bytes
elements (array l) = l
elements _ = []

-- What `get_accounts_for_user` carries: the fields read last, and the map.
abbrev pub Reading : Type 0
Reading = Fields × Map Account

module _ {W : Type 0} (redis : Redis W) where
  unfoldable pub create_user : ℕ → User → Pool redis → Ran (Unit {0}) × Pool redis
  unfolding attempts piped
  create_user fuel u p =
      attempts redis fuel max_attempts false false (piped redis (create_commands u)) false tt p

  -- A throw of `getConnection` leaves `success` true here, and in the next one.
  unfoldable pub update_last_sync_for_user :
      ℕ → Bytes → ℤ → Pool redis → Ran (Unit {0}) × Pool redis
  unfolding attempts piped
  update_last_sync_for_user fuel user time p =
      attempts redis fuel (suc max_attempts) true false (piped redis (sync_commands user time))
        false tt p

  unfoldable pub upsert_accounts_for_user :
      ℕ → Bytes → List Account → Pool redis → Ran (Unit {0}) × Pool redis
  unfolding attempts piped
  upsert_accounts_for_user fuel user accounts p =
      attempts redis fuel (suc max_attempts) true false
        (piped redis (upsert_commands user accounts)) false tt p

  -- Once the accounts are deleted, their list and the user are.
  forget : Bytes → redis.Conn → Bool × W → Attempt (Unit {0}) × W
  unfolding pipeline judged
  forget user c (true, w) = judged redis tt (pipeline redis (forget_commands user) c w)
  forget user c (false, w) = (failed true tt, w)

  delete_named : Bytes → redis.Conn → Reply → W → Attempt (Unit {0}) × W
  unfolding forget pipeline
  delete_named user c (array names) w =
      forget user c (pipeline redis (delete_commands user names) c w)
  delete_named user c _ w = (failed true tt, w)

  delete_listed : Bytes → redis.Conn → Option Reply × W → Attempt (Unit {0}) × W
  unfolding delete_named are_reply_errors
  delete_listed user c (none, w) = (failed true tt, w)
  delete_listed user c (some r, w) =
      if are_reply_errors (some r) then (failed true tt, w) else delete_named user c r w

  delete_body : Bytes → Body redis (Unit {0})
  unfolding delete_listed
  delete_body user a c w = delete_listed user c (redis.command c (hkeys (accounts_key user)) w)

  unfoldable pub delete_user : ℕ → User → Pool redis → Ran (Unit {0}) × Pool redis
  unfolding attempts delete_body
  delete_user fuel u p =
      attempts redis fuel (suc max_attempts) false false (delete_body u.account_uuid) false tt p

  put_account : Fields → Map Account → Option Account → Option Reading
  unfolding emplace
  put_account f m none = none
  put_account f m (some a) = some (f, emplace a.account_name a m)

  put_fields : Bytes → Map Account → Option Fields → Option Reading
  unfolding put_account account_from
  put_fields user m none = none
  put_fields user m (some f) = put_account f m (account_from user f)

  -- An array of another length is passed over.
  unfoldable pub read_account : Bytes → Reply → Reading → Option Reading
  unfolding put_fields read_fields
  read_account user r (f, m) =
      if length (elements r) == account_members
      then put_fields user m (read_fields (elements r) f)
      else some (f, m)

  then_read : (Reading → W → Attempt Reading × W) → Option Reading → W → Attempt Reading × W
  then_read rest none w = (undefined, w)
  then_read rest (some a) w = rest a w

  read_reply :
      Bytes → (Reading → W → Attempt Reading × W) → Reading → Option Reply × W → Attempt Reading × W
  unfolding then_read read_account
  read_reply user rest a (none, w) = (failed true a, w)
  read_reply user rest a (some r, w) = then_read rest (read_account user r a) w

  -- The replies to `n` commands.
  read_accounts : ℕ → Bytes → redis.Conn → Reading → W → Attempt Reading × W
  unfolding read_reply
  read_accounts zero user c a w = (succeeded a, w)
  read_accounts (suc n) user c a w =
      read_reply user (read_accounts n user c) a (redis.get_reply c w)

  get_named : Bytes → redis.Conn → Reading → Reply → W → Attempt Reading × W
  unfolding read_accounts append_all
  get_named user c a (array names) w =
      read_accounts (length names) user c a (append_all redis (get_commands user names) c w)
  get_named user c a _ w = (failed true a, w)

  get_listed : Bytes → redis.Conn → Reading → Option Reply × W → Attempt Reading × W
  unfolding get_named are_reply_errors
  get_listed user c a (none, w) = (failed true a, w)
  get_listed user c a (some r, w) =
      if are_reply_errors (some r) then (failed true a, w) else get_named user c a r w

  get_body : Bytes → Body redis Reading
  unfolding get_listed
  get_body user a c w = get_listed user c a (redis.command c (hkeys (accounts_key user)) w)

  -- The map comes back also when the attempts have failed.
  unfoldable pub get_accounts_for_user : ℕ → Bytes → Pool redis → Ran Reading × Pool redis
  unfolding attempts get_body
  get_accounts_for_user fuel user p =
      attempts redis fuel (suc max_attempts) false false (get_body user) false (no_fields, []) p

  -- A time below 1 is replaced by the clock's.
  abbrev known_time : ℤ → ℤ → ℤ
  known_time now time = if ltb_ℤ time (pos 1) then now else time

  add_loaded : Bytes → Bytes → List User → Option ℤ → Option (List User)
  add_loaded name password users none = none
  add_loaded name password users (some time) = some (
      record { account_uuid = name; account_password = password; account_last_sync = time } ∷ users)

  abbrev timed : ℤ → Option ℤ → Option ℤ
  timed now none = none
  timed now (some time) = some (known_time now time)

  -- The reply to GET; a reply without a text is read through a null pointer.
  load_reply : ℤ → Bytes → Bytes → List User → Reply → Option (List User)
  unfolding add_loaded atol
  load_reply now name password users (text s) = add_loaded name password users (timed now (atol s))
  load_reply now name password users _ = none

  then_load :
      (List User → W → Attempt (List User) × W) → Option (List User) → W → Attempt (List User) × W
  then_load rest none w = (undefined, w)
  then_load rest (some users) w = rest users w

  load_one :
      ℤ
      → Bytes
      → Bytes
      → (List User → W → Attempt (List User) × W)
      → List User
      → Option Reply × W
      → Attempt (List User) × W
  unfolding then_load load_reply are_reply_errors
  load_one now name password rest users (none, w) = (failed false users, w)
  load_one now name password rest users (some r, w) =
      if are_reply_errors (some r)
      then (failed false users, w)
      else then_load rest (load_reply now name password users r) w

  -- The users and passwords of USERS, two elements at a time; each goes to the front.
  load_all : ℤ → redis.Conn → List Bytes → List User → W → Attempt (List User) × W
  unfolding load_one
  load_all now c [] users w = (succeeded users, w)
  load_all now c (name ∷ []) users w = (undefined, w)
  load_all now c (name ∷ password ∷ elements) users w =
      load_one now name password (load_all now c elements) users
        (redis.command c (get (sync_key name)) w)

  load_reply_all : ℤ → redis.Conn → List User → Reply → W → Attempt (List User) × W
  unfolding load_all
  load_reply_all now c users (array l) w = load_all now c l users w
  load_reply_all now c users _ w = (succeeded users, w)

  load_listed : ℤ → redis.Conn → List User → Option Reply × W → Attempt (List User) × W
  unfolding load_reply_all are_reply_errors
  load_listed now c users (none, w) = (failed true users, w)
  load_listed now c users (some r, w) =
      if are_reply_errors (some r) then (failed true users, w) else load_reply_all now c users r w

  load_body : ℤ → Body redis (List User)
  unfolding load_listed
  load_body now users c w = load_listed now c users (redis.command c (hgetall users_key) w)

  -- `getAllUsers(tryForever)`: for ever is `rounds` attempts here, and otherwise there are four.
  unfoldable pub get_all_users : ℕ → ℤ → ℕ → Pool redis → Ran (List User) × Pool redis
  unfolding attempts load_body
  get_all_users fuel now rounds p = attempts redis fuel rounds false true (load_body now) false [] p
