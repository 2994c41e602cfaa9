-- ===== src/Handler/Tests.antt =====
-- The handlers at a small server: every text of a document is the same but its password, and the
-- store answers every call with its state.
use sync_server.Base.{
  ◌≡◌, refl, Bool, true, false, Option, some, [], ◌∷◌, ◌++◌, Bytes, codes, beq, pos, if◌then◌else◌,
}
use sync_server.Base.Decimal.{print_unsigned}
use sync_server.Config.{default_config}
use sync_server.Email.{verify_email}
use sync_server.Exec.{Outcome, ok, err, http_error}
use sync_server.Http.{http_403, http_500}
use sync_server.Json.{JsonLib}
use sync_server.Map.{Map, get}
use sync_server.Password.{hash_password}
use sync_server.Store.{Account, DataStore}
use sync_server.Sync.Reconcile.{Request, wanted, returned, unnamed}
use sync_server.Sync.Reading.{entries}
use sync_server.Handler.State.{State, Server}
use sync_server.Handler.Password.{verify_password}
use sync_server.Handler.Register.{read_register, handle_register, config_doc}
use sync_server.Handler.Register.Outcomes.{
  IsNew, new_info, with_user, register_created, register_refused,
}
use sync_server.Handler.Accounts.{
  Sent, read_request, read_final, accounts_of, handle_delete, handle_sync_initial,
  handle_sync_final, account_deleted, sync_final_resp,
}
use sync_server.Handler.Accounts.Auth.{refused_without_password}
use sync_server.Handler.Accounts.Delete.{IsDeletion, delete_succeeds}
use sync_server.Handler.Accounts.Final.{StoredAndRecorded, handle_sync_final_ok}
use sync_server.Handler.Accounts.Initial.{IsInitial, handle_sync_initial_reply}

abbrev bob : Bytes
bob = codes "bob@site.com"

abbrev lib : JsonLib
lib = record {
  Doc = Bytes;
  Obj = Unit {0};
  parse = λ r. some r;
  get_string_value =
      λ r path. some (some (if beq path (codes "/password") then codes "pw" else bob));
  get_long_value = λ r path. some (pos 7);
  get_elements_count = λ r path. some 1;
  get_array = λ r path. some (some tt ∷ []);
  get_string_field = λ o key. some (some bob);
  get_long_field = λ o key. some (pos 7);
  get_bool_field = λ o key. some false;
}

abbrev bank : Account
bank = record {
  account_name = codes "bank";
  account_uuid = bob;
  user_name = codes "b";
  password = codes "x";
  old_password = codes "y";
  url = codes "u";
  update_time = pos 3;
  deleted = false;
}

abbrev data_store : DataStore (Outcome Bool)
data_store = record {
  get_all_users = λ s. (ok [], s);
  create_user = λ u s. (s, s);
  delete_user = λ u s. (s, s);
  get_accounts_for_user = λ e s. (ok ((codes "bank", bank) ∷ []), s);
  upsert_accounts_for_user = λ e l s. (s, s);
  update_last_sync_for_user = λ e t s. (s, s);
}

abbrev sv : Server (Outcome Bool)
sv = record {
  lib = lib;
  stringify_config = λ d. d.user_name;
  stringify_sync = λ d. codes "sync";
  digest = λ p. some p;
  data_store = data_store;
  config = default_config;
}

-- "pw" in hexadecimal
abbrev hash : Bytes
hash = codes "7077"

abbrev nobody : Outcome Bool → State (Outcome Bool)
nobody answer = record { user_infos = []; store = answer }

abbrev somebody : Bytes → Outcome Bool → State (Outcome Bool)
somebody stored answer = record {
  user_infos = (bob, new_info sv bob stored (pos 0)) ∷ [];
  store = answer;
}

new : (answer : Outcome Bool) → IsNew sv [] bob (codes "pw") hash (nobody answer)
unfolding read_register verify_email hash_password get beq
new answer = record { parsed = refl; address = refl; hashes = refl; unknown = refl }

abbrev registered : State (Outcome Bool)
registered = with_user sv bob hash (pos 1) (nobody (ok true)) (ok true)

register_created_example :
    (handle_register sv (pos 1) [] (nobody (ok true))
      ≡ (ok (sv.stringify_config (config_doc sv bob (codes "pw"))), registered))
    × (verify_password sv.digest registered.user_infos (some bob) (some (codes "pw")) ≡ ok true)
    × ((j : Bytes)
        → beq bob j ≡ false
        → get j registered.user_infos ≡ get j (nobody (ok true)).user_infos)
register_created_example =
    register_created sv [] bob (codes "pw") hash (nobody (ok true)) (pos 1) (new (ok true))
      (ok true) refl

abbrev refused : Outcome Bytes × State (Outcome Bool)
refused = handle_register sv (pos 1) [] (nobody (ok false))

register_refused_example :
    (refused.0 ≡ err (http_error http_500))
    × ((j : Bytes) → get j refused.1.user_infos ≡ get j (nobody (ok false)).user_infos)
register_refused_example =
    register_refused sv [] bob (codes "pw") hash (nobody (ok false)) (pos 1) (new (ok false))
      (ok false) refl

parsed : read_request sv [] ≡ ok ([], some bob, some (codes "pw"))
unfolding read_request beq
parsed = refl

-- The password of the document is "pw".
abbrev stranger : State (Outcome Bool)
stranger = somebody (codes "00") (ok true)

wrong : verify_password sv.digest stranger.user_infos (some bob) (some (codes "pw")) ≡ ok false
unfolding verify_password get beq hash_password
wrong = refl

refused_without_password_example :
    (handle_delete sv [] stranger ≡ (err (http_error http_403), stranger))
    × (handle_sync_initial sv (pos 7) [] stranger ≡ (err (http_error http_403), stranger))
    × (handle_sync_final sv (pos 7) [] stranger ≡ (err (http_error http_403), stranger))
refused_without_password_example =
    refused_without_password sv [] [] (some bob) (some (codes "pw")) stranger parsed (pos 7) wrong

abbrev friend : Outcome Bool → State (Outcome Bool)
friend answer = somebody hash answer

right :
    (answer : Outcome Bool)
    → verify_password sv.digest (friend answer).user_infos (some bob) (some (codes "pw")) ≡ ok true
unfolding verify_password get beq hash_password
right answer = refl

deletion :
    (answer : Outcome Bool) → IsDeletion sv [] bob (new_info sv bob hash (pos 0)) (friend answer)
unfolding get beq
deletion answer = record {
  doc = [];
  password = some (codes "pw");
  parsed = parsed;
  known = refl;
  verified = right answer;
}

delete_succeeds_example :
    let s' = (handle_delete sv [] (friend (ok true))).1 in
    ((handle_delete sv [] (friend (ok true))).0 ≡ ok account_deleted)
    × ((pw : Option Bytes) → verify_password sv.digest s'.user_infos (some bob) pw ≡ ok false)
    × ((j : Bytes) → beq bob j ≡ false → get j s'.user_infos ≡ get j (friend (ok true)).user_infos)
delete_succeeds_example =
    delete_succeeds sv [] bob (new_info sv bob hash (pos 0)) (friend (ok true)) (deletion (ok true))
      (ok true) refl

-- The client has the account at time 7, and the store at time 3.
abbrev client : Request
client = (bob, pos 7) ∷ []

initial : IsInitial sv [] bob client (friend (ok true))
unfolding print_unsigned beq
initial = record {
  doc = [];
  password = some (codes "pw");
  parsed = parsed;
  verified = right (ok true);
  counted = refl;
  holds = (refl, refl, tt);
  distinct = (tt, tt);
}

abbrev stored : Map Account
stored = (codes "bank", bank) ∷ []

handle_sync_initial_reply_example : handle_sync_initial sv (pos 9) [] (friend (ok true)) ≡ (
  ok (
      sv.stringify_sync (record {
        response_code = pos 0;
        lock_time = pos 9;
        send_accounts_to_server_list = wanted stored client;
        accounts_to_send_back_to_client = returned stored client ++ entries (unnamed stored client);
      })),
  friend (ok true),
)
handle_sync_initial_reply_example =
    handle_sync_initial_reply sv (pos 9) [] bob client (friend (ok true)) initial stored (ok true)
      refl

abbrev sent : Sent
sent = record {
  account_name = some bob;
  user_name = some bob;
  password = some bob;
  old_password = some bob;
  url = some bob;
  update_time = pos 7;
  deleted = false;
}

abbrev stored_account : Account
stored_account = record {
  account_name = bob;
  account_uuid = bob;
  user_name = bob;
  password = bob;
  old_password = bob;
  url = bob;
  update_time = pos 7;
  deleted = false;
}

sent_read : read_final sv [] (friend (ok true)) ≡ (ok (bob, sent ∷ []), friend (ok true))
unfolding read_final read_request beq verify_password get hash_password
sent_read = refl

sent_solid : accounts_of bob (sent ∷ []) ≡ ok (stored_account ∷ [])
unfolding accounts_of
sent_solid = refl

final_answer :
    handle_sync_final sv (pos 9) [] (friend (ok true)) ≡ (ok sync_final_resp, friend (ok true))
unfolding handle_sync_final read_final read_request beq accounts_of verify_password get
    hash_password
final_answer = refl

handle_sync_final_ok_example :
    (sync_final_resp ≡ sync_final_resp)
    × StoredAndRecorded sv (pos 9) bob (stored_account ∷ []) (friend (ok true)) (friend (ok true))
handle_sync_final_ok_example =
    handle_sync_final_ok sv (pos 9) [] bob (sent ∷ []) (stored_account ∷ []) (friend (ok true))
      (friend (ok true)) sync_final_resp sent_read sent_solid final_answer
