-- ===== src/Config.antt =====
-- Config.h and Config.cpp: the settings, their defaults, and what one `key=value` of the file does.
pub mod File
pub mod Keys
pub mod Settings
pub mod Frame
mod Tests
use sync_server.Base.{
  Bool, true, false, Option, none, some, Bytes, codes, beq, if◌then◌else◌, ℤ, pos,
}
use sync_server.Base.Decimal.{atoi}

pub data StoreType : Type 0 where
  postgres_store redis_store : StoreType

-- `store_type` has no initial value: `none` is a value that nothing has written.
pub record Config : Type 0 where
  pub bind_address : Bytes
  pub bind_port : ℤ
  pub service_threads : ℤ
  pub max_service_threads : ℤ
  pub ssl : Bool
  pub server_cert : Bytes
  pub server_key : Bytes
  pub server_max_connections : ℤ
  pub server_keep_alive : ℤ
  pub server_use_keep_alive_cleaner : Bool
  pub server_tcp_back_log : ℤ
  pub max_account_pending_ops : ℤ
  pub db_server : Bytes
  pub db_port : Bytes
  pub db_password : Bytes
  pub db_username : Bytes
  pub db_name : Bytes
  pub db_min_connections : ℤ
  pub db_max_connections : ℤ
  pub db_cleaner : Bool
  pub db_cleaner_interval : ℤ
  pub db_cleaner_purge_days : ℤ
  pub db_cleaner_history_purge_days : ℤ
  pub redis_server : Bytes
  pub redis_port : ℤ
  pub redis_username : Bytes
  pub redis_password : Bytes
  pub redis_min_connections : ℤ
  pub redis_max_connections : ℤ
  pub redis_cleaner : Bool
  pub redis_cleaner_interval : ℤ
  pub redis_cleaner_purge_days : ℤ
  pub redis_cleaner_history_purge_days : ℤ
  pub store_type : Option StoreType

-- The initialisers of the class, from the defaults at the top of Config.h.
abbrev pub default_config : Config
default_config = record {
  bind_address = codes "ALL";
  bind_port = pos 9999;
  service_threads = pos 10;
  max_service_threads = pos 10;
  ssl = true;
  server_cert = codes "cert.pem";
  server_key = codes "key.pem";
  server_max_connections = pos 200;
  server_keep_alive = pos 30;
  server_use_keep_alive_cleaner = false;
  server_tcp_back_log = pos 100;
  max_account_pending_ops = pos 3;
  db_server = codes "localhost";
  db_port = codes "5432";
  db_password = codes "password";
  db_username = codes "user";
  db_name = codes "passvault";
  db_min_connections = pos 10;
  db_max_connections = pos 100;
  db_cleaner = true;
  db_cleaner_interval = pos 1;
  db_cleaner_purge_days = pos 30;
  db_cleaner_history_purge_days = pos 30;
  redis_server = codes "redis";
  redis_port = pos 6379;
  redis_username = codes "redis";
  redis_password = codes "redis";
  redis_min_connections = pos 10;
  redis_max_connections = pos 200;
  redis_cleaner = true;
  redis_cleaner_interval = pos 1;
  redis_cleaner_purge_days = pos 30;
  redis_cleaner_history_purge_days = pos 30;
  store_type = none;
}

-- The keys that `setKeyValue` knows.
pub data Key : Type 0 where
  bind_address_key bind_port_key service_threads_key max_service_threads_key ssl_key : Key
  server_cert_key server_key_key db_server_key db_port_key db_password_key db_username_key : Key
  db_name_key db_cleaner_key db_cleaner_interval_key db_cleaner_purge_days_key : Key
  db_cleaner_history_purge_days_key server_max_connections_key server_keep_alive_key : Key
  server_use_keep_alive_cleaner_key server_tcp_back_log_key max_account_pending_ops_key : Key
  db_max_connections_key db_min_connections_key redis_server_key redis_port_key : Key
  redis_username_key redis_password_key redis_min_connections_key : Key
  redis_max_connections_key redis_cleaner_key redis_cleaner_interval_key : Key
  redis_cleaner_purge_days_key redis_cleaner_history_purge_days_key : Key

-- The chain of `strcmp(key, …) == 0`, in the order of the source.
pub key_of : Bytes → Option Key
key_of key =
    if beq key (codes "bind_address")
    then some bind_address_key
    else if beq key (codes "bind_port")
    then some bind_port_key
    else if beq key (codes "service_threads")
    then some service_threads_key
    else if beq key (codes "max_service_threads")
    then some max_service_threads_key
    else if beq key (codes "ssl")
    then some ssl_key
    else if beq key (codes "server_cert")
    then some server_cert_key
    else if beq key (codes "server_key")
    then some server_key_key
    else if beq key (codes "db_server")
    then some db_server_key
    else if beq key (codes "db_port")
    then some db_port_key
    else if beq key (codes "db_password")
    then some db_password_key
    else if beq key (codes "db_username")
    then some db_username_key
    else if beq key (codes "db_name")
    then some db_name_key
    else if beq key (codes "db_cleaner")
    then some db_cleaner_key
    else if beq key (codes "db_cleaner_interval")
    then some db_cleaner_interval_key
    else if beq key (codes "db_cleaner_purge_days")
    then some db_cleaner_purge_days_key
    else if beq key (codes "db_cleaner_history_purge_days")
    then some db_cleaner_history_purge_days_key
    else if beq key (codes "server_max_connections")
    then some server_max_connections_key
    else if beq key (codes "server_keep_alive")
    then some server_keep_alive_key
    else if beq key (codes "server_use_keep_alive_cleaner")
    then some server_use_keep_alive_cleaner_key
    else if beq key (codes "server_tcp_back_log")
    then some server_tcp_back_log_key
    else if beq key (codes "max_account_pending_ops")
    then some max_account_pending_ops_key
    else if beq key (codes "db_max_connections")
    then some db_max_connections_key
    else if beq key (codes "db_min_connections")
    then some db_min_connections_key
    else if beq key (codes "redis_server")
    then some redis_server_key
    else if beq key (codes "redis_port")
    then some redis_port_key
    else if beq key (codes "redis_username")
    then some redis_username_key
    else if beq key (codes "redis_password")
    then some redis_password_key
    else if beq key (codes "redis_min_connections")
    then some redis_min_connections_key
    else if beq key (codes "redis_max_connections")
    then some redis_max_connections_key
    else if beq key (codes "redis_cleaner")
    then some redis_cleaner_key
    else if beq key (codes "redis_cleaner_interval")
    then some redis_cleaner_interval_key
    else if beq key (codes "redis_cleaner_purge_days")
    then some redis_cleaner_purge_days_key
    else if beq key (codes "redis_cleaner_history_purge_days")
    then some redis_cleaner_history_purge_days_key
    else none

-- `atoi` of a value that is no `int` is undefined, and so is the setting.
abbrev pub with_int : (ℤ → Config) → Bytes → Option Config
with_int update value = elim (atoi value) [ none ↦ none | some n ↦ some (update n) ]

abbrev pub is_true : Bytes → Bool
is_true value = beq value (codes "true")

-- The body of the branch of a key, for a value that is no null pointer.
pub assign : Key → Bytes → Config → Option Config
unfolding beq
assign bind_address_key v c = some (record c { bind_address = v })
assign bind_port_key v c = with_int (λ n. record c { bind_port = n }) v
assign service_threads_key v c = with_int (λ n. record c { service_threads = n }) v
assign max_service_threads_key v c = with_int (λ n. record c { max_service_threads = n }) v
assign ssl_key v c = some (record c { ssl = is_true v })
assign server_cert_key v c = some (record c { server_cert = v })
assign server_key_key v c = some (record c { server_key = v })
assign db_server_key v c = some (record c { db_server = v; store_type = some postgres_store })
assign db_port_key v c = some (record c { db_port = v })
assign db_password_key v c = some (record c { db_password = v })
assign db_username_key v c = some (record c { db_username = v })
assign db_name_key v c = some (record c { db_name = v })
assign db_cleaner_key v c = some (record c { db_cleaner = is_true v })
assign db_cleaner_interval_key v c = with_int (λ n. record c { db_cleaner_interval = n }) v
assign db_cleaner_purge_days_key v c = with_int (λ n. record c { db_cleaner_purge_days = n }) v
assign db_cleaner_history_purge_days_key v c =
    with_int (λ n. record c { db_cleaner_history_purge_days = n }) v
assign server_max_connections_key v c = with_int (λ n. record c { server_max_connections = n }) v
assign server_keep_alive_key v c = with_int (λ n. record c { server_keep_alive = n }) v
assign server_use_keep_alive_cleaner_key v c =
    some (record c { server_use_keep_alive_cleaner = is_true v })
assign server_tcp_back_log_key v c = with_int (λ n. record c { server_tcp_back_log = n }) v
assign max_account_pending_ops_key v c = with_int (λ n. record c { max_account_pending_ops = n }) v
assign db_max_connections_key v c = with_int (λ n. record c { db_max_connections = n }) v
assign db_min_connections_key v c = with_int (λ n. record c { db_min_connections = n }) v
assign redis_server_key v c = some (record c { redis_server = v; store_type = some redis_store })
assign redis_port_key v c = with_int (λ n. record c { redis_port = n }) v
assign redis_username_key v c = some (record c { redis_username = v })
assign redis_password_key v c = some (record c { redis_password = v })
assign redis_min_connections_key v c = with_int (λ n. record c { redis_min_connections = n }) v
assign redis_max_connections_key v c = with_int (λ n. record c { redis_max_connections = n }) v
assign redis_cleaner_key v c = some (record c { redis_cleaner = is_true v })
assign redis_cleaner_interval_key v c = with_int (λ n. record c { redis_cleaner_interval = n }) v
assign redis_cleaner_purge_days_key v c =
    with_int (λ n. record c { redis_cleaner_purge_days = n }) v
assign redis_cleaner_history_purge_days_key v c =
    with_int (λ n. record c { redis_cleaner_history_purge_days = n }) v

-- A null value reaches `std::string::operator=`, `atoi` or `strcmp`: undefined, which is `none`.
pub set_known : Key → Option Bytes → Config → Option Config
unfolding assign
set_known key none c = none
set_known key (some value) c = assign key value c

-- `setKeyValue`: an unknown key changes nothing, also with a null value.
pub set_key_value : Bytes → Option Bytes → Config → Option Config
unfolding key_of set_known
set_key_value key value c = elim (key_of key) [ none ↦ some c | some k ↦ set_known k value c ]
