-- ===== src/Store.antt =====
-- The interface `IDataStore` (IDataStore.h), and the users and accounts that it keeps.
use sync_server.Base.{Bool, List, Bytes, ℤ}
use sync_server.Exec.{Exec}
use sync_server.Map.{Map}

-- `struct Account`
pub record Account : Type 0 where
  pub account_name : Bytes
  pub account_uuid : Bytes
  pub user_name : Bytes
  pub password : Bytes
  pub old_password : Bytes
  pub url : Bytes
  pub update_time : ℤ
  pub deleted : Bool

-- `struct User` of Config.h
pub record User : Type 0 where
  pub account_uuid : Bytes
  pub account_password : Bytes
  pub account_last_sync : ℤ

-- The virtual methods that `sync_handler` calls, over the state `S` of an implementation.
pub record DataStore (S : Type 0) : Type 0 where
  pub get_all_users : Exec S (List User)
  pub create_user : User → Exec S Bool
  pub delete_user : User → Exec S Bool
  pub get_accounts_for_user : Bytes → Exec S (Map Account)
  pub upsert_accounts_for_user : Bytes → List Account → Exec S Bool
  pub update_last_sync_for_user : Bytes → ℤ → Exec S Bool
