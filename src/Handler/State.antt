-- ===== src/Handler/State.antt =====
-- What a handler works on, and what it calls that is not part of this repository.
use sync_server.Base.{ℕ, ◌≡◌, refl, Option, none, some, List, Bytes, codes, ℤ}
use sync_server.Config.{Config}
use sync_server.Exec.{Exec, Exn, text, json, thrown, http_error}
use sync_server.Http.{Status}
use sync_server.Json.{JsonLib}
use sync_server.Map.{Map}
use sync_server.Store.{User, DataStore}
use sync_server.Sync.{SyncDoc}

-- `struct User_info` (Config.h); a condition variable is the number of the handler that owns it.
pub record UserInfo : Type 0 where
  pub user : User
  pub lock_time : ℤ
  pub cv_vector : List ℕ

pub record State (S : Type 0) : Type 0 where
  pub user_infos : Map UserInfo
  pub store : S

-- The document of the replies to a registration and to a request for the settings.
pub record ConfigDoc : Type 0 where
  pub bucket : Bytes
  pub port : ℤ
  pub protocol : Bytes
  pub user_name : Bytes
  pub password : Bytes
  pub server : Bytes

-- `digest` is OpenSSL's SHA3-512, and the two `stringify` are jsonP's printer on the documents that
-- the handlers build.
pub record Server (S : Type 0) : Type 1 where
  pub lib : JsonLib
  pub stringify_config : ConfigDoc → Bytes
  pub stringify_sync : SyncDoc → Bytes
  pub digest : Bytes → Option Bytes
  pub data_store : DataStore S
  pub config : Config

abbrev pub call : {S A : Type 0} → Exec S A → Exec (State S) A
call m s = let (r, t) = m s.store in (r, record s { store = t })

abbrev pub email_path : Bytes
email_path = codes "/email"

abbrev pub user_path : Bytes
user_path = codes "/user"

abbrev pub pass_path : Bytes
pass_path = codes "/password"

-- `catch (jsonP_exception &ex) { throw e; }`
abbrev pub json_to : Exn → Exn → Exn
json_to e json = e
json_to e x = x

-- `catch (const char *error) { throw e; }`
abbrev pub text_to : Exn → Exn → Exn
text_to e (text m) = e
text_to e x = x

-- A reply that is thrown passes the handlers of the other exceptions.
json_to-thrown : (e : Exn) (r : Option Bytes) → json_to e (thrown r) ≡ thrown r
json_to-thrown e none = refl
json_to-thrown e (some r) = refl

text_to-thrown : (e : Exn) (r : Option Bytes) → text_to e (thrown r) ≡ thrown r
text_to-thrown e none = refl
text_to-thrown e (some r) = refl

pub json_to-http_error : (e : Exn) (s : Status) → json_to e (http_error s) ≡ http_error s
unfolding http_error
json_to-http_error e s = json_to-thrown e _

pub text_to-http_error : (e : Exn) (s : Status) → text_to e (http_error s) ≡ http_error s
unfolding http_error
text_to-http_error e s = text_to-thrown e _
