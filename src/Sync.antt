-- ===== src/Sync.antt =====
-- The comparison at the core of `handle_sync_initial` (sync_handler.cpp): the client's names and
-- times against the store's accounts.
pub mod Reconcile
pub mod Reading
pub mod Converge
mod Tests
use sync_server.Base.{
  ℕ, zero, suc, ◌+◌, Bool, Option, none, some, List, [], ◌∷◌, ◌++◌, Bytes, codes, ℤ, ltb_ℤ,
  if◌then◌else◌,
}
use sync_server.Base.Decimal.{print_unsigned}
use sync_server.Exec.{Outcome, ok, err, then_with}
use sync_server.Json.{JsonLib, or_json, deref}
use sync_server.Map.{Map, get, erase}
use sync_server.Store.{Account}

-- One element of `accountsToSendBackToClient`.
pub record Entry : Type 0 where
  pub account_name : Bytes
  pub deleted : Bool
  pub password : Bytes
  pub old_password : Bytes
  pub update_time : ℤ
  pub user_name : Bytes
  pub url : Bytes

-- The response document.
pub record SyncDoc : Type 0 where
  pub response_code : ℤ
  pub lock_time : ℤ
  pub send_accounts_to_server_list : List Bytes
  pub accounts_to_send_back_to_client : List Entry

pub entry_of : Bytes → Account → Entry
entry_of name a = record {
  account_name = name;
  deleted = a.deleted;
  password = a.password;
  old_password = a.old_password;
  update_time = a.update_time;
  user_name = a.user_name;
  url = a.url;
}

pub ask_for : Bytes → SyncDoc → SyncDoc
ask_for name d = record d {
  send_accounts_to_server_list = d.send_accounts_to_server_list ++ name ∷ [];
}

pub send_back : Entry → SyncDoc → SyncDoc
send_back e d = record d {
  accounts_to_send_back_to_client = d.accounts_to_send_back_to_client ++ e ∷ [];
}

-- The store has an account of that name: compare the times.
compare_times : Bytes → ℤ → Account → SyncDoc → SyncDoc
unfolding ask_for send_back
compare_times name update_time a d =
    if ltb_ℤ a.update_time update_time
    then ask_for name d
    else if ltb_ℤ update_time a.update_time
    then send_back (entry_of name a) d
    else d

-- What the loop carries: the accounts that are left in the map, and the response.
abbrev pub Progress : Type 0
Progress = Map Account × SyncDoc

-- One round of the loop, for a name and a time that were read without an error.
pub round : Bytes → ℤ → Progress → Progress
unfolding compare_times
round name update_time (accounts, d) = elim (get name accounts) [
  | none ↦ (accounts, ask_for name d)
  | some a ↦ (erase name accounts, compare_times name update_time a d)
]

-- "whatever is left in map should be sent back to client"
pub send_rest : Map Account → SyncDoc → SyncDoc
unfolding send_back
send_rest [] d = d
send_rest ((key, a) ∷ rest) d = send_rest rest (send_back (entry_of a.account_name a) d)

-- `acct_name_src` and `update_time_src` with the index printed in
abbrev name_path : ℕ → Bytes
name_path i = codes "/accounts/" ++ print_unsigned i ++ codes "/accountName"

abbrev time_path : ℕ → Bytes
time_path i = codes "/accounts/" ++ print_unsigned i ++ codes "/updateTime"

module _ (lib : JsonLib) where
  -- The time is read only if the store has an account of that name.
  read_time : lib.Doc → ℕ → Option Account → Outcome ℤ
  read_time doc i none = ok (ℤ.pos 0)
  read_time doc i (some a) = or_json (lib.get_long_value doc (time_path i))

  read_round : lib.Doc → ℕ → Progress → Outcome Progress
  unfolding round read_time
  read_round doc i (accounts, d) =
      then_with (deref (lib.get_string_value doc (name_path i))) λ name.
        then_with (read_time doc i (get name accounts))
          λ update_time. ok (round name update_time (accounts, d))

  -- `for (int i=0; i < mem_cnt; i++)`: `count` rounds from `i` on.
  pub read_rounds : lib.Doc → ℕ → ℕ → Progress → Outcome Progress
  unfolding read_round
  read_rounds doc zero i p = ok p
  read_rounds doc (suc count) i p =
      then_with (read_round doc i p) λ p'. read_rounds doc count (i + 1) p'
