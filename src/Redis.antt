-- ===== src/Redis.antt =====
-- hiredis, the Redis client library, as RedisStore.cpp uses it, and the commands that RedisStore.h
-- names. The library is a parameter.
pub mod Attempts
pub mod Fields
pub mod Store
pub mod Purge
pub mod Kept
pub mod Server
pub mod Outcomes
mod Tests
use sync_server.Base.{
  ℕ, Bool, true, false, Option, none, some, List, [], ◌∷◌, ◌++◌, Bytes, codes, ℤ, if◌then◌else◌,
}
use sync_server.Base.Long.{print_long}
use sync_server.Store.{Account}

-- What `redisCommand` and `redisGetReply` give: an error, a text, an array of texts, another reply.
-- A null pointer is `none` of it.
pub data Reply : Type 0 where
  error other : Reply
  text : Bytes → Reply
  array : List Bytes → Reply

unfoldable pub are_reply_errors : Option Reply → Bool
are_reply_errors none = true
are_reply_errors (some error) = true
are_reply_errors (some _) = false

pub data Command : Type 0 where
  ping auth : Command
  hset : Bytes → Bytes → Bytes → Command
  hmset : Bytes → List (Bytes × Bytes) → Command
  set : Bytes → Bytes → Command
  get : Bytes → Command
  hdel : Bytes → Bytes → Command
  del : Bytes → Command
  hgetall : Bytes → Command
  hkeys : Bytes → Command

-- "%s.accounts", "%s.account.%s", "%s.lastSync" and "USERS"
abbrev pub accounts_key : Bytes → Bytes
accounts_key user = user ++ codes ".accounts"

abbrev pub account_key : Bytes → Bytes → Bytes
account_key user name = user ++ codes ".account." ++ name

abbrev pub sync_key : Bytes → Bytes
sync_key user = user ++ codes ".lastSync"

abbrev pub users_key : Bytes
users_key = codes "USERS"

-- `(account.deleted) ? 1 : 0`
abbrev pub flag : Bool → Bytes
flag deleted = if deleted then codes "1" else codes "0"

-- The fields that REDIS_CMD_SETACCOUNT writes, in its order.
unfoldable pub fields_of : Account → List (Bytes × Bytes)
fields_of a =
    (codes "account_name", a.account_name)
    ∷ (codes "user_name", a.user_name)
    ∷ (codes "password", a.password)
    ∷ (codes "old_password", a.old_password)
    ∷ (codes "url", a.url)
    ∷ (codes "update_time", print_long a.update_time)
    ∷ (codes "deleted", flag a.deleted)
    ∷ []

-- The calls of hiredis, over the state `W` of the network. A connection is a `redisContext *`.
pub record Redis (W : Type 0) : Type 1 where
  pub Conn : Type 0
  -- `redisConnect`; `none` is `NULL`.
  pub connect : W → Option Conn × W
  -- `c->err != REDIS_OK`
  pub err : Conn → W → Bool
  pub command : Conn → Command → W → Option Reply × W
  -- `redisAppendCommand`
  pub append : Conn → Command → W → W
  -- `redisGetReply`; `none` is another result than `REDIS_OK`.
  pub get_reply : Conn → W → Option Reply × W
  pub free : Conn → W → W
