-- ===== src/Config/Settings.antt =====
-- Settings by their keys: a write of one field leaves the settings of the other keys.
use sync_server.Base.{◌≡◌, ◌≢◌, refl, some, Bytes, Bool, ℤ}
use sync_server.Config.{
  Config, Key, postgres_store, redis_store, bind_address_key, bind_port_key, service_threads_key,
  max_service_threads_key, ssl_key, server_cert_key, server_key_key, db_server_key, db_port_key,
  db_password_key, db_username_key, db_name_key, db_cleaner_key, db_cleaner_interval_key,
  db_cleaner_purge_days_key, db_cleaner_history_purge_days_key, server_max_connections_key,
  server_keep_alive_key, server_use_keep_alive_cleaner_key, server_tcp_back_log_key,
  max_account_pending_ops_key, db_max_connections_key, db_min_connections_key, redis_server_key,
  redis_port_key, redis_username_key, redis_password_key, redis_min_connections_key,
  redis_max_connections_key, redis_cleaner_key, redis_cleaner_interval_key,
  redis_cleaner_purge_days_key, redis_cleaner_history_purge_days_key,
}

pub data Setting : Type 0 where
  text : Bytes → Setting
  number : ℤ → Setting
  flag : Bool → Setting

abbrev pub setting : Key → Config → Setting
setting bind_address_key c = text c.bind_address
setting bind_port_key c = number c.bind_port
setting service_threads_key c = number c.service_threads
setting max_service_threads_key c = number c.max_service_threads
setting ssl_key c = flag c.ssl
setting server_cert_key c = text c.server_cert
setting server_key_key c = text c.server_key
setting db_server_key c = text c.db_server
setting db_port_key c = text c.db_port
setting db_password_key c = text c.db_password
setting db_username_key c = text c.db_username
setting db_name_key c = text c.db_name
setting db_cleaner_key c = flag c.db_cleaner
setting db_cleaner_interval_key c = number c.db_cleaner_interval
setting db_cleaner_purge_days_key c = number c.db_cleaner_purge_days
setting db_cleaner_history_purge_days_key c = number c.db_cleaner_history_purge_days
setting server_max_connections_key c = number c.server_max_connections
setting server_keep_alive_key c = number c.server_keep_alive
setting server_use_keep_alive_cleaner_key c = flag c.server_use_keep_alive_cleaner
setting server_tcp_back_log_key c = number c.server_tcp_back_log
setting max_account_pending_ops_key c = number c.max_account_pending_ops
setting db_max_connections_key c = number c.db_max_connections
setting db_min_connections_key c = number c.db_min_connections
setting redis_server_key c = text c.redis_server
setting redis_port_key c = number c.redis_port
setting redis_username_key c = text c.redis_username
setting redis_password_key c = text c.redis_password
setting redis_min_connections_key c = number c.redis_min_connections
setting redis_max_connections_key c = number c.redis_max_connections
setting redis_cleaner_key c = flag c.redis_cleaner
setting redis_cleaner_interval_key c = number c.redis_cleaner_interval
setting redis_cleaner_purge_days_key c = number c.redis_cleaner_purge_days
setting redis_cleaner_history_purge_days_key c = number c.redis_cleaner_history_purge_days

pub bind_address_others :
    (c : Config) (x : Bytes) (j : Key)
    → j ≢ bind_address_key
    → setting j (record c { bind_address = x }) ≡ setting j c
bind_address_others c x bind_address_key h = absurd (h refl)
bind_address_others c x _ h = refl

pub bind_port_others :
    (c : Config) (x : ℤ) (j : Key)
    → j ≢ bind_port_key
    → setting j (record c { bind_port = x }) ≡ setting j c
bind_port_others c x bind_port_key h = absurd (h refl)
bind_port_others c x _ h = refl

pub service_threads_others :
    (c : Config) (x : ℤ) (j : Key)
    → j ≢ service_threads_key
    → setting j (record c { service_threads = x }) ≡ setting j c
service_threads_others c x service_threads_key h = absurd (h refl)
service_threads_others c x _ h = refl

pub max_service_threads_others :
    (c : Config) (x : ℤ) (j : Key)
    → j ≢ max_service_threads_key
    → setting j (record c { max_service_threads = x }) ≡ setting j c
max_service_threads_others c x max_service_threads_key h = absurd (h refl)
max_service_threads_others c x _ h = refl

pub ssl_others :
    (c : Config) (x : Bool) (j : Key) → j ≢ ssl_key → setting j (record c { ssl = x }) ≡ setting j c
ssl_others c x ssl_key h = absurd (h refl)
ssl_others c x _ h = refl

pub server_cert_others :
    (c : Config) (x : Bytes) (j : Key)
    → j ≢ server_cert_key
    → setting j (record c { server_cert = x }) ≡ setting j c
server_cert_others c x server_cert_key h = absurd (h refl)
server_cert_others c x _ h = refl

pub server_key_others :
    (c : Config) (x : Bytes) (j : Key)
    → j ≢ server_key_key
    → setting j (record c { server_key = x }) ≡ setting j c
server_key_others c x server_key_key h = absurd (h refl)
server_key_others c x _ h = refl

pub db_server_others :
    (c : Config) (x : Bytes) (j : Key)
    → j ≢ db_server_key
    → setting j (record c { db_server = x; store_type = some postgres_store }) ≡ setting j c
db_server_others c x db_server_key h = absurd (h refl)
db_server_others c x _ h = refl

pub db_port_others :
    (c : Config) (x : Bytes) (j : Key)
    → j ≢ db_port_key
    → setting j (record c { db_port = x }) ≡ setting j c
db_port_others c x db_port_key h = absurd (h refl)
db_port_others c x _ h = refl

pub db_password_others :
    (c : Config) (x : Bytes) (j : Key)
    → j ≢ db_password_key
    → setting j (record c { db_password = x }) ≡ setting j c
db_password_others c x db_password_key h = absurd (h refl)
db_password_others c x _ h = refl

pub db_username_others :
    (c : Config) (x : Bytes) (j : Key)
    → j ≢ db_username_key
    → setting j (record c { db_username = x }) ≡ setting j c
db_username_others c x db_username_key h = absurd (h refl)
db_username_others c x _ h = refl

pub db_name_others :
    (c : Config) (x : Bytes) (j : Key)
    → j ≢ db_name_key
    → setting j (record c { db_name = x }) ≡ setting j c
db_name_others c x db_name_key h = absurd (h refl)
db_name_others c x _ h = refl

pub db_cleaner_others :
    (c : Config) (x : Bool) (j : Key)
    → j ≢ db_cleaner_key
    → setting j (record c { db_cleaner = x }) ≡ setting j c
db_cleaner_others c x db_cleaner_key h = absurd (h refl)
db_cleaner_others c x _ h = refl

pub db_cleaner_interval_others :
    (c : Config) (x : ℤ) (j : Key)
    → j ≢ db_cleaner_interval_key
    → setting j (record c { db_cleaner_interval = x }) ≡ setting j c
db_cleaner_interval_others c x db_cleaner_interval_key h = absurd (h refl)
db_cleaner_interval_others c x _ h = refl

pub db_cleaner_purge_days_others :
    (c : Config) (x : ℤ) (j : Key)
    → j ≢ db_cleaner_purge_days_key
    → setting j (record c { db_cleaner_purge_days = x }) ≡ setting j c
db_cleaner_purge_days_others c x db_cleaner_purge_days_key h = absurd (h refl)
db_cleaner_purge_days_others c x _ h = refl

pub db_cleaner_history_purge_days_others :
    (c : Config) (x : ℤ) (j : Key)
    → j ≢ db_cleaner_history_purge_days_key
    → setting j (record c { db_cleaner_history_purge_days = x }) ≡ setting j c
db_cleaner_history_purge_days_others c x db_cleaner_history_purge_days_key h = absurd (h refl)
db_cleaner_history_purge_days_others c x _ h = refl

pub server_max_connections_others :
    (c : Config) (x : ℤ) (j : Key)
    → j ≢ server_max_connections_key
    → setting j (record c { server_max_connections = x }) ≡ setting j c
server_max_connections_others c x server_max_connections_key h = absurd (h refl)
server_max_connections_others c x _ h = refl

pub server_keep_alive_others :
    (c : Config) (x : ℤ) (j : Key)
    → j ≢ server_keep_alive_key
    → setting j (record c { server_keep_alive = x }) ≡ setting j c
server_keep_alive_others c x server_keep_alive_key h = absurd (h refl)
server_keep_alive_others c x _ h = refl

pub server_use_keep_alive_cleaner_others :
    (c : Config) (x : Bool) (j : Key)
    → j ≢ server_use_keep_alive_cleaner_key
    → setting j (record c { server_use_keep_alive_cleaner = x }) ≡ setting j c
server_use_keep_alive_cleaner_others c x server_use_keep_alive_cleaner_key h = absurd (h refl)
server_use_keep_alive_cleaner_others c x _ h = refl

pub server_tcp_back_log_others :
    (c : Config) (x : ℤ) (j : Key)
    → j ≢ server_tcp_back_log_key
    → setting j (record c { server_tcp_back_log = x }) ≡ setting j c
server_tcp_back_log_others c x server_tcp_back_log_key h = absurd (h refl)
server_tcp_back_log_others c x _ h = refl

pub max_account_pending_ops_others :
    (c : Config) (x : ℤ) (j : Key)
    → j ≢ max_account_pending_ops_key
    → setting j (record c { max_account_pending_ops = x }) ≡ setting j c
max_account_pending_ops_others c x max_account_pending_ops_key h = absurd (h refl)
max_account_pending_ops_others c x _ h = refl

pub db_max_connections_others :
    (c : Config) (x : ℤ) (j : Key)
    → j ≢ db_max_connections_key
    → setting j (record c { db_max_connections = x }) ≡ setting j c
db_max_connections_others c x db_max_connections_key h = absurd (h refl)
db_max_connections_others c x _ h = refl

pub db_min_connections_others :
    (c : Config) (x : ℤ) (j : Key)
    → j ≢ db_min_connections_key
    → setting j (record c { db_min_connections = x }) ≡ setting j c
db_min_connections_others c x db_min_connections_key h = absurd (h refl)
db_min_connections_others c x _ h = refl

pub redis_server_others :
    (c : Config) (x : Bytes) (j : Key)
    → j ≢ redis_server_key
    → setting j (record c { redis_server = x; store_type = some redis_store }) ≡ setting j c
redis_server_others c x redis_server_key h = absurd (h refl)
redis_server_others c x _ h = refl

pub redis_port_others :
    (c : Config) (x : ℤ) (j : Key)
    → j ≢ redis_port_key
    → setting j (record c { redis_port = x }) ≡ setting j c
redis_port_others c x redis_port_key h = absurd (h refl)
redis_port_others c x _ h = refl

pub redis_username_others :
    (c : Config) (x : Bytes) (j : Key)
    → j ≢ redis_username_key
    → setting j (record c { redis_username = x }) ≡ setting j c
redis_username_others c x redis_username_key h = absurd (h refl)
redis_username_others c x _ h = refl

pub redis_password_others :
    (c : Config) (x : Bytes) (j : Key)
    → j ≢ redis_password_key
    → setting j (record c { redis_password = x }) ≡ setting j c
redis_password_others c x redis_password_key h = absurd (h refl)
redis_password_others c x _ h = refl

pub redis_min_connections_others :
    (c : Config) (x : ℤ) (j : Key)
    → j ≢ redis_min_connections_key
    → setting j (record c { redis_min_connections = x }) ≡ setting j c
redis_min_connections_others c x redis_min_connections_key h = absurd (h refl)
redis_min_connections_others c x _ h = refl

pub redis_max_connections_others :
    (c : Config) (x : ℤ) (j : Key)
    → j ≢ redis_max_connections_key
    → setting j (record c { redis_max_connections = x }) ≡ setting j c
redis_max_connections_others c x redis_max_connections_key h = absurd (h refl)
redis_max_connections_others c x _ h = refl

pub redis_cleaner_others :
    (c : Config) (x : Bool) (j : Key)
    → j ≢ redis_cleaner_key
    → setting j (record c { redis_cleaner = x }) ≡ setting j c
redis_cleaner_others c x redis_cleaner_key h = absurd (h refl)
redis_cleaner_others c x _ h = refl

pub redis_cleaner_interval_others :
    (c : Config) (x : ℤ) (j : Key)
    → j ≢ redis_cleaner_interval_key
    → setting j (record c { redis_cleaner_interval = x }) ≡ setting j c
redis_cleaner_interval_others c x redis_cleaner_interval_key h = absurd (h refl)
redis_cleaner_interval_others c x _ h = refl

pub redis_cleaner_purge_days_others :
    (c : Config) (x : ℤ) (j : Key)
    → j ≢ redis_cleaner_purge_days_key
    → setting j (record c { redis_cleaner_purge_days = x }) ≡ setting j c
redis_cleaner_purge_days_others c x redis_cleaner_purge_days_key h = absurd (h refl)
redis_cleaner_purge_days_others c x _ h = refl

pub redis_cleaner_history_purge_days_others :
    (c : Config) (x : ℤ) (j : Key)
    → j ≢ redis_cleaner_history_purge_days_key
    → setting j (record c { redis_cleaner_history_purge_days = x }) ≡ setting j c
redis_cleaner_history_purge_days_others c x redis_cleaner_history_purge_days_key h = absurd (h refl)
redis_cleaner_history_purge_days_others c x _ h = refl
