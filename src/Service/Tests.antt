-- ===== src/Service/Tests.antt =====
-- A server whose store is `Unit`, and posts to it.
use sync_server.Base.{
  ℕ, ◌≤◌, ◌<◌, ◌≡◌, ◌≢◌, refl, length, All, true, false, none, some, [], ◌∷◌, Bytes, codes, beq,
  pos, arith,
}
use sync_server.Base.Decimal.{print_unsigned}
use sync_server.Base.Tokens.{strtok}
use sync_server.Config.{default_config}
use sync_server.Exec.{ok}
use sync_server.Http.{http_403, close_con, build_default_reply}
use sync_server.Json.{JsonLib}
use sync_server.Store.{DataStore}
use sync_server.Handler.State.{State, Server}
use sync_server.Handler.Password.{verify_password}
use sync_server.Handler.Quiet.{IsQuiet}
use sync_server.Handler.Accounts.{read_request}
use sync_server.Handler.Dispatch.{
  Now, post, OperationType, delete_user, sync_initial, handle_request,
}
use sync_server.Map.{get}
use sync_server.Request.{length_in}
use sync_server.Request.Receive.{got, failed}
use sync_server.Request.Render.{IsOther, render_post}
use sync_server.Service.Auth.{serve_without_password}
use sync_server.Service.Safety.{serve_goes_on}
use sync_server.Service.Whole.{IsPost, ComesWhole, Sent, with_header, after_header, serve_sent}
use sync_server.Service.Thread.{refused, terminated, reply_with, serve}

-- Every text of a document is "x".
abbrev lib : JsonLib
lib = record {
  Doc = Bytes;
  Obj = Unit {0};
  parse = λ r. some r;
  get_string_value = λ r path. some (some (codes "x"));
  get_long_value = λ r path. some (pos 7);
  get_elements_count = λ r path. some 0;
  get_array = λ r path. some [];
  get_string_field = λ o key. some none;
  get_long_field = λ o key. some (pos 7);
  get_bool_field = λ o key. some false;
}

abbrev data_store : DataStore (Unit {0})
data_store = record {
  get_all_users = λ s. (ok [], s);
  create_user = λ u s. (ok true, s);
  delete_user = λ u s. (ok true, s);
  get_accounts_for_user = λ e s. (ok [], s);
  upsert_accounts_for_user = λ e l s. (ok true, s);
  update_last_sync_for_user = λ e t s. (ok true, s);
}

abbrev sv : Server (Unit {0})
sv = record {
  lib = lib;
  stringify_config = λ d. codes "config";
  stringify_sync = λ d. codes "sync";
  digest = λ p. some p;
  data_store = data_store;
  config = default_config;
}

sv-IsQuiet : IsQuiet sv
sv-IsQuiet = record {
  creates = λ u. record { at = λ s. tt };
  deletes = λ u. record { at = λ s. tt };
  upserts = λ e l. record { at = λ s. tt };
  updates = λ e t. record { at = λ s. tt };
}

abbrev nobody : State (Unit {0})
nobody = record { user_infos = []; store = tt }

abbrev pub today : Now
today = record { ms = pos 9000; sec = pos 9 }

abbrev pub host : Bytes
host = codes "Host: vault"

host-IsOther : IsOther host
unfolding strtok beq length_in
host-IsOther = record { some_byte = λ e. cc; one_line = omega arith; other = λ rest. refl }

pub version-IsPost : IsPost (codes "HTTP/1.1") (host ∷ []) 2
version-IsPost = record {
  one_line = omega arith;
  others = (host-IsOther, tt);
  plain_version = omega arith;
  plain_lines = (omega arith, tt);
  low = omega arith;
  high = omega arith;
}

abbrev pub rendered : OperationType → Bytes → Bytes
rendered op rest = render_post op (codes "HTTP/1.1") (host ∷ []) 2 rest

pub in_one :
    (n : ℕ) (text : Bytes)
    → 0 < length text
    → n ≤ length text
    → length text < 1024
    → All (λ b. b ≢ 0) text
    → ComesWhole n [] text text
in_one n text some_byte enough fits no_nul = record {
  whole = refl;
  on = tt;
  some_byte = some_byte;
  enough = omega arith;
  fits = fits;
  no_nul = no_nul;
}

pub deletion :
    Sent delete_user (codes "{}") (got (rendered delete_user (codes "\r\n{}")) false ∷ []) []
unfolding print_unsigned
deletion =
    with_header (codes "HTTP/1.1") (host ∷ []) 2 (codes "\r\n") (codes "}") []
      (rendered delete_user (codes "\r\n{}")) [] [] version-IsPost (omega arith) refl (omega arith)
      (omega arith)
      (in_one 0 (rendered delete_user (codes "\r\n{}")) (omega arith) (omega arith) (omega arith)
        (omega arith))

synchronisation :
    Sent sync_initial
      (codes "{}")
      (got (rendered sync_initial (codes "\r\n")) false ∷ [])
      (got (codes "{}") false ∷ [])
unfolding print_unsigned
synchronisation =
    after_header (codes "HTTP/1.1") (host ∷ []) 2 (codes "\r\n") [] []
      (rendered sync_initial (codes "\r\n")) (codes "{}") [] [] version-IsPost (omega arith)
      (omega arith)
      (in_one 0 (rendered sync_initial (codes "\r\n")) (omega arith) (omega arith) (omega arith)
        (omega arith))
      (in_one 2 (codes "{}") (omega arith) (omega arith) (omega arith) (omega arith))

serve_sent_example :
    serve sv true today
      (got (rendered sync_initial (codes "\r\n")) false ∷ [])
      (got (codes "{}") false ∷ [])
      nobody
    ≡ reply_with sv (handle_request sv today sync_initial (codes "{}") post nobody)
serve_sent_example = serve_sent sv today sync_initial (codes "{}") _ _ nobody synchronisation

wrong : verify_password sv.digest nobody.user_infos (some (codes "x")) (some (codes "x")) ≡ ok false
unfolding verify_password get
wrong = refl

serve_without_password_example :
    serve sv true today (got (rendered delete_user (codes "\r\n{}")) false ∷ []) [] nobody
    ≡ (refused (build_default_reply http_403 close_con), nobody)
unfolding read_request
serve_without_password_example =
    serve_without_password sv today (codes "{}") (codes "{}") (some (codes "x")) (some (codes "x"))
      nobody refl wrong delete_user _ _ (λ e. cc) deletion

serve_goes_on_example :
    (serve sv true today (got (codes "GET") false ∷ []) (failed ∷ []) nobody).0 ≢ terminated
serve_goes_on_example =
    serve_goes_on sv sv-IsQuiet today true (got (codes "GET") false ∷ []) (failed ∷ []) nobody
