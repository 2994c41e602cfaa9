-- ===== src/Stores/Tests.antt =====
-- The handlers over a store that is down. Every text of a document is the same but its password.
mod Down
use sync_server.Base.{
  ◌≡◌, refl, Bool, true, false, Option, none, some, [], ◌∷◌, ◌++◌, Bytes, codes, beq, pos,
  if◌then◌else◌,
}
use sync_server.Config.{default_config}
use sync_server.Email.{verify_email}
use sync_server.Exec.{Outcome, ok, err, text}
use sync_server.Json.{JsonLib}
use sync_server.Map.{get}
use sync_server.Password.{hash_password}
use sync_server.Store.{Account}
use sync_server.Redis.{Redis}
use sync_server.Pool.{
  Pool, thrown, get_connection, release_connection, get_with, created, create_connection, connected,
}
use sync_server.Handler.State.{State, Server}
use sync_server.Handler.Password.{verify_password}
use sync_server.Handler.Register.{handle_register, read_register}
use sync_server.Handler.Register.Outcomes.{IsNew}
use sync_server.Handler.Accounts.{
  Sent, read_request, read_final, accounts_of, handle_sync_final, sync_final_resp,
}
use sync_server.Stores.OverRedis.{redis_store, over_redis, handle_sync_final-stored_thrown}

abbrev pub bob : Bytes
bob = codes "bob@site.com"

abbrev pub lib : JsonLib
lib = record {
  Doc = Bytes;
  Obj = Unit {0};
  parse = λ r. some r;
  get_string_value =
      λ r path. some (some (if beq path (codes "/password") then codes "pw" else bob));
  get_long_value = λ r path. some (pos 7);
  get_elements_count = λ r path. some 1;
  get_array = λ r path. some (some tt ∷ []);
  get_string_field = λ o key. some (some bob);
  get_long_field = λ o key. some (pos 7);
  get_bool_field = λ o key. some false;
}

-- "pw" in hexadecimal
abbrev pub hash : Bytes
hash = codes "7077"

abbrev redis : Redis (Unit {0})
redis = record {
  Conn = Unit {0};
  connect = λ w. (none, w);
  err = λ c w. false;
  command = λ c k w. (none, w);
  append = λ c k w. w;
  get_reply = λ c w. (none, w);
  free = λ c w. w;
}

abbrev empty_pool : Pool redis
empty_pool = record {
  connections = [];
  current_connections = pos 0;
  max_connections = pos 4;
  world = tt;
}

abbrev redis_server : Server (Pool redis)
redis_server = record {
  lib = lib;
  stringify_config = λ d. d.user_name;
  stringify_sync = λ d. codes "sync";
  digest = λ p. some p;
  data_store = redis_store redis 1 1 (pos 0);
  config = default_config;
}

abbrev known : State (Pool redis)
known = record {
  user_infos =
      (
        bob,
        record {
          user = record { account_uuid = bob; account_password = hash; account_last_sync = pos 1 };
          lock_time = pos 0;
          cv_vector = [];
        },
      )
      ∷ [];
  store = empty_pool;
}

abbrev sent : Sent
sent = record {
  account_name = some bob;
  user_name = some bob;
  password = some bob;
  old_password = some bob;
  url = some bob;
  update_time = pos 7;
  deleted = false;
}

abbrev stored_account : Account
stored_account = record {
  account_name = bob;
  account_uuid = bob;
  user_name = bob;
  password = bob;
  old_password = bob;
  url = bob;
  update_time = pos 7;
  deleted = false;
}

abbrev over : Server (Pool redis)
over = over_redis redis 1 1 (pos 0) redis_server

sent_read : read_final over [] known ≡ (ok (bob, sent ∷ []), known)
unfolding read_final read_request beq verify_password get hash_password
sent_read = refl

sent_solid : accounts_of bob (sent ∷ []) ≡ ok (stored_account ∷ [])
unfolding accounts_of
sent_solid = refl

first_thrown : get_connection redis 1 false empty_pool ≡ (thrown, empty_pool)
unfolding get_connection get_with created create_connection connected
first_thrown = refl

abbrev again_pool : Pool redis
again_pool = release_connection redis none empty_pool

second_thrown : get_connection redis 1 false again_pool ≡ (thrown, again_pool)
unfolding get_connection get_with created create_connection connected release_connection
second_thrown = refl

handle_sync_final-stored_thrown_example :
    handle_sync_final over (pos 9) [] known
    ≡ (ok sync_final_resp, record known { store = release_connection redis none again_pool })
handle_sync_final-stored_thrown_example =
    handle_sync_final-stored_thrown redis 1 1 (pos 0) redis_server (pos 9) [] bob (sent ∷ [])
      (stored_account ∷ []) known empty_pool again_pool sent_read sent_solid first_thrown
      second_thrown
