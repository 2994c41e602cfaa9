-- ===== src/Service/Lifecycle/Tests.antt =====
-- A user who comes and goes, at a server that reads the same user and password in every document.
use sync_server.Base.{
  ◌≡◌, refl, true, false, none, some, [], ◌∷◌, Bytes, codes, beq, pos, if◌then◌else◌, arith,
}
use sync_server.Base.Decimal.{print_unsigned}
use sync_server.Config.{default_config}
use sync_server.Email.{verify_email}
use sync_server.Exec.{ok}
use sync_server.Http.{http_200, keep_alive, build_reply}
use sync_server.Json.{JsonLib}
use sync_server.Map.{get, erase}
use sync_server.Password.{hash_password}
use sync_server.Store.{DataStore}
use sync_server.Handler.State.{State, Server}
use sync_server.Handler.Register.{read_register, config_doc}
use sync_server.Handler.Register.Outcomes.{IsNew, with_user}
use sync_server.Handler.Accounts.{read_request, account_deleted}
use sync_server.Handler.Dispatch.{register_config, delete_user}
use sync_server.Request.Receive.{got}
use sync_server.Service.Lifecycle.{register_then_delete}
use sync_server.Service.Tests.{host, today, rendered, version-IsPost, in_one, deletion}
use sync_server.Service.Thread.{written, serve}
use sync_server.Service.Whole.{Sent, with_header}

abbrev bob : Bytes
bob = codes "bob@site.com"

abbrev lib : JsonLib
lib = record {
  Doc = Bytes;
  Obj = Unit {0};
  parse = λ r. some r;
  get_string_value =
      λ r path. some (some (if beq path (codes "/password") then codes "pw" else bob));
  get_long_value = λ r path. some (pos 7);
  get_elements_count = λ r path. some 0;
  get_array = λ r path. some [];
  get_string_field = λ o key. some none;
  get_long_field = λ o key. some (pos 7);
  get_bool_field = λ o key. some false;
}

-- It counts its calls.
abbrev data_store : DataStore Bytes
data_store = record {
  get_all_users = λ s. (ok [], s);
  create_user = λ u s. (ok true, 1 ∷ s);
  delete_user = λ u s. (ok true, 2 ∷ s);
  get_accounts_for_user = λ e s. (ok [], s);
  upsert_accounts_for_user = λ e l s. (ok true, s);
  update_last_sync_for_user = λ e t s. (ok true, s);
}

abbrev sv : Server Bytes
sv = record {
  lib = lib;
  stringify_config = λ d. d.user_name;
  stringify_sync = λ d. codes "sync";
  digest = λ p. some p;
  data_store = data_store;
  config = default_config;
}

abbrev nobody : State Bytes
nobody = record { user_infos = []; store = [] }

-- "pw" in hexadecimal
abbrev hash : Bytes
hash = codes "7077"

new : IsNew sv (codes "{}") bob (codes "pw") hash nobody
unfolding read_register verify_email hash_password get beq
new = record { parsed = refl; address = refl; hashes = refl; unknown = refl }

registration :
    Sent register_config
      (codes "{}")
      (got (rendered register_config (codes "\r\n{}")) false ∷ [])
      []
unfolding print_unsigned
registration =
    with_header (codes "HTTP/1.1") (host ∷ []) 2 (codes "\r\n") (codes "}") []
      (rendered register_config (codes "\r\n{}")) [] [] version-IsPost (omega arith) refl
      (omega arith) (omega arith)
      (in_one 0 (rendered register_config (codes "\r\n{}")) (omega arith) (omega arith)
        (omega arith) (omega arith))

parsed : read_request sv (codes "{}") ≡ ok (codes "{}", some bob, some (codes "pw"))
unfolding read_request beq
parsed = refl

abbrev known : State Bytes
known = with_user sv bob hash (pos 9000) nobody (1 ∷ [])

register_then_delete_example :
    (serve sv true today (got (rendered register_config (codes "\r\n{}")) false ∷ []) [] nobody ≡ (
      written (
          build_reply http_200 keep_alive
            (some (sv.stringify_config (config_doc sv bob (codes "pw"))))),
      known,
    ))
    × (serve sv true today (got (rendered delete_user (codes "\r\n{}")) false ∷ []) [] known ≡ (
      written (build_reply http_200 keep_alive (some account_deleted)),
      record { user_infos = erase bob known.user_infos; store = 2 ∷ 1 ∷ [] },
    ))
    × ((j : Bytes) → get j (erase bob known.user_infos) ≡ get j nobody.user_infos)
register_then_delete_example =
    register_then_delete sv bob (codes "pw") hash nobody today today (codes "{}") (codes "{}")
      (codes "{}") (1 ∷ []) (2 ∷ 1 ∷ []) _ _ _ _ new parsed refl refl registration deletion
