-- ===== src/Config/Keys.antt =====
-- The names of the keys.
use sync_server.Base.{◌≡◌, refl, some, Bytes, codes, beq}
use sync_server.Config.{
  Key, key_of, bind_address_key, bind_port_key, service_threads_key, max_service_threads_key,
  ssl_key, server_cert_key, server_key_key, db_server_key, db_port_key, db_password_key,
  db_username_key, db_name_key, db_cleaner_key, db_cleaner_interval_key, db_cleaner_purge_days_key,
  db_cleaner_history_purge_days_key, server_max_connections_key, server_keep_alive_key,
  server_use_keep_alive_cleaner_key, server_tcp_back_log_key, max_account_pending_ops_key,
  db_max_connections_key, db_min_connections_key, redis_server_key, redis_port_key,
  redis_username_key, redis_password_key, redis_min_connections_key, redis_max_connections_key,
  redis_cleaner_key, redis_cleaner_interval_key, redis_cleaner_purge_days_key,
  redis_cleaner_history_purge_days_key,
}

abbrev pub name : Key → Bytes
name bind_address_key = codes "bind_address"
name bind_port_key = codes "bind_port"
name service_threads_key = codes "service_threads"
name max_service_threads_key = codes "max_service_threads"
name ssl_key = codes "ssl"
name server_cert_key = codes "server_cert"
name server_key_key = codes "server_key"
name db_server_key = codes "db_server"
name db_port_key = codes "db_port"
name db_password_key = codes "db_password"
name db_username_key = codes "db_username"
name db_name_key = codes "db_name"
name db_cleaner_key = codes "db_cleaner"
name db_cleaner_interval_key = codes "db_cleaner_interval"
name db_cleaner_purge_days_key = codes "db_cleaner_purge_days"
name db_cleaner_history_purge_days_key = codes "db_cleaner_history_purge_days"
name server_max_connections_key = codes "server_max_connections"
name server_keep_alive_key = codes "server_keep_alive"
name server_use_keep_alive_cleaner_key = codes "server_use_keep_alive_cleaner"
name server_tcp_back_log_key = codes "server_tcp_back_log"
name max_account_pending_ops_key = codes "max_account_pending_ops"
name db_max_connections_key = codes "db_max_connections"
name db_min_connections_key = codes "db_min_connections"
name redis_server_key = codes "redis_server"
name redis_port_key = codes "redis_port"
name redis_username_key = codes "redis_username"
name redis_password_key = codes "redis_password"
name redis_min_connections_key = codes "redis_min_connections"
name redis_max_connections_key = codes "redis_max_connections"
name redis_cleaner_key = codes "redis_cleaner"
name redis_cleaner_interval_key = codes "redis_cleaner_interval"
name redis_cleaner_purge_days_key = codes "redis_cleaner_purge_days"
name redis_cleaner_history_purge_days_key = codes "redis_cleaner_history_purge_days"

-- Every key is known by its name.
pub key_of-name : (k : Key) → key_of (name k) ≡ some k
unfolding key_of beq
key_of-name bind_address_key = refl
key_of-name bind_port_key = refl
key_of-name service_threads_key = refl
key_of-name max_service_threads_key = refl
key_of-name ssl_key = refl
key_of-name server_cert_key = refl
key_of-name server_key_key = refl
key_of-name db_server_key = refl
key_of-name db_port_key = refl
key_of-name db_password_key = refl
key_of-name db_username_key = refl
key_of-name db_name_key = refl
key_of-name db_cleaner_key = refl
key_of-name db_cleaner_interval_key = refl
key_of-name db_cleaner_purge_days_key = refl
key_of-name db_cleaner_history_purge_days_key = refl
key_of-name server_max_connections_key = refl
key_of-name server_keep_alive_key = refl
key_of-name server_use_keep_alive_cleaner_key = refl
key_of-name server_tcp_back_log_key = refl
key_of-name max_account_pending_ops_key = refl
key_of-name db_max_connections_key = refl
key_of-name db_min_connections_key = refl
key_of-name redis_server_key = refl
key_of-name redis_port_key = refl
key_of-name redis_username_key = refl
key_of-name redis_password_key = refl
key_of-name redis_min_connections_key = refl
key_of-name redis_max_connections_key = refl
key_of-name redis_cleaner_key = refl
key_of-name redis_cleaner_interval_key = refl
key_of-name redis_cleaner_purge_days_key = refl
key_of-name redis_cleaner_history_purge_days_key = refl
