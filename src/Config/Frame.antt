-- ===== src/Config/Frame.antt =====
-- A key writes its own setting, and no other.
use mathlib.Core.Option
use mathlib.Core.Option.{some-injective}
use mathlib.Core.Path.{subst}
use sync_server.Base.{
  ◌≡◌, ◌≢◌, ◌⊎◌, refl, Option, none, some, arith, Bytes, ℤ, Option-cases, inl, inr,
}
use sync_server.Base.Decimal.{atoi}
use sync_server.Config.{
  Config, Key, StoreType, postgres_store, redis_store, key_of, set_known, set_key_value, assign,
  with_int, is_true, bind_address_key, bind_port_key, service_threads_key, max_service_threads_key,
  ssl_key, server_cert_key, server_key_key, db_server_key, db_port_key, db_password_key,
  db_username_key, db_name_key, db_cleaner_key, db_cleaner_interval_key, db_cleaner_purge_days_key,
  db_cleaner_history_purge_days_key, server_max_connections_key, server_keep_alive_key,
  server_use_keep_alive_cleaner_key, server_tcp_back_log_key, max_account_pending_ops_key,
  db_max_connections_key, db_min_connections_key, redis_server_key, redis_port_key,
  redis_username_key, redis_password_key, redis_min_connections_key, redis_max_connections_key,
  redis_cleaner_key, redis_cleaner_interval_key, redis_cleaner_purge_days_key,
  redis_cleaner_history_purge_days_key,
}
use sync_server.Config.Settings.{
  Setting, text, number, flag, setting, bind_address_others, bind_port_others,
  service_threads_others, max_service_threads_others, ssl_others, server_cert_others,
  server_key_others, db_server_others, db_port_others, db_password_others, db_username_others,
  db_name_others, db_cleaner_others, db_cleaner_interval_others, db_cleaner_purge_days_others,
  db_cleaner_history_purge_days_others, server_max_connections_others, server_keep_alive_others,
  server_use_keep_alive_cleaner_others, server_tcp_back_log_others, max_account_pending_ops_others,
  db_max_connections_others, db_min_connections_others, redis_server_others, redis_port_others,
  redis_username_others, redis_password_others, redis_min_connections_others,
  redis_max_connections_others, redis_cleaner_others, redis_cleaner_interval_others,
  redis_cleaner_purge_days_others, redis_cleaner_history_purge_days_others,
}

-- What a value means to a key: texts as they are, numbers by `atoi`, flags by `true`.
abbrev pub meaning : Key → Bytes → Option Setting
meaning bind_address_key v = some (text v)
meaning bind_port_key v = Option.map number (atoi v)
meaning service_threads_key v = Option.map number (atoi v)
meaning max_service_threads_key v = Option.map number (atoi v)
meaning ssl_key v = some (flag (is_true v))
meaning server_cert_key v = some (text v)
meaning server_key_key v = some (text v)
meaning db_server_key v = some (text v)
meaning db_port_key v = some (text v)
meaning db_password_key v = some (text v)
meaning db_username_key v = some (text v)
meaning db_name_key v = some (text v)
meaning db_cleaner_key v = some (flag (is_true v))
meaning db_cleaner_interval_key v = Option.map number (atoi v)
meaning db_cleaner_purge_days_key v = Option.map number (atoi v)
meaning db_cleaner_history_purge_days_key v = Option.map number (atoi v)
meaning server_max_connections_key v = Option.map number (atoi v)
meaning server_keep_alive_key v = Option.map number (atoi v)
meaning server_use_keep_alive_cleaner_key v = some (flag (is_true v))
meaning server_tcp_back_log_key v = Option.map number (atoi v)
meaning max_account_pending_ops_key v = Option.map number (atoi v)
meaning db_max_connections_key v = Option.map number (atoi v)
meaning db_min_connections_key v = Option.map number (atoi v)
meaning redis_server_key v = some (text v)
meaning redis_port_key v = Option.map number (atoi v)
meaning redis_username_key v = some (text v)
meaning redis_password_key v = some (text v)
meaning redis_min_connections_key v = Option.map number (atoi v)
meaning redis_max_connections_key v = Option.map number (atoi v)
meaning redis_cleaner_key v = some (flag (is_true v))
meaning redis_cleaner_interval_key v = Option.map number (atoi v)
meaning redis_cleaner_purge_days_key v = Option.map number (atoi v)
meaning redis_cleaner_history_purge_days_key v = Option.map number (atoi v)

-- The kind of store that a key selects, where it selects one.
abbrev pub selected : Key → Option StoreType → Option StoreType
selected db_server_key s = some postgres_store
selected redis_server_key s = some redis_store
selected k s = s

with_int_cases {ℓ} :
    (P : Config → Type ℓ) (f : ℤ → Config) (v : Bytes) (c : Config)
    → with_int f v ≡ some c
    → ((n : ℤ) → atoi v ≡ some n → P (f n))
    → P c
with_int_cases P f v c h k = elim (Option-cases (atoi v)) [
  | inl e ↦ absurd (ground arith)
  | inr (n, e) ↦ subst P (some-injective _ _ (rw (e, with_int) at h)) (k n e)
]

-- `c'` is `c` with the setting of `k` given by `v`, and nothing else changed.
pub record Assigned (k : Key) (v : Bytes) (c c' : Config) : Type 0 where
  pub own : meaning k v ≡ some (setting k c')
  pub others : (j : Key) → j ≢ k → setting j c' ≡ setting j c
  pub store : c'.store_type ≡ selected k c.store_type

-- A write of the settings file that is defined sets what its key names, and nothing else.
pub assign-Assigned :
    (k : Key) (v : Bytes) (c c' : Config) → assign k v c ≡ some c' → Assigned k v c c'
unfolding assign
assign-Assigned bind_address_key v c c' h =
    subst (Assigned bind_address_key v c) (some-injective _ _ h)
      (record { own = refl; others = bind_address_others c v; store = refl })
assign-Assigned bind_port_key v c c' h =
    with_int_cases (Assigned bind_port_key v c) _ v c' h
      λ n e. record { own = rw e; others = bind_port_others c n; store = refl }
assign-Assigned service_threads_key v c c' h =
    with_int_cases (Assigned service_threads_key v c) _ v c' h
      λ n e. record { own = rw e; others = service_threads_others c n; store = refl }
assign-Assigned max_service_threads_key v c c' h =
    with_int_cases (Assigned max_service_threads_key v c) _ v c' h
      λ n e. record { own = rw e; others = max_service_threads_others c n; store = refl }
assign-Assigned ssl_key v c c' h =
    subst (Assigned ssl_key v c) (some-injective _ _ h)
      (record { own = refl; others = ssl_others c (is_true v); store = refl })
assign-Assigned server_cert_key v c c' h =
    subst (Assigned server_cert_key v c) (some-injective _ _ h)
      (record { own = refl; others = server_cert_others c v; store = refl })
assign-Assigned server_key_key v c c' h =
    subst (Assigned server_key_key v c) (some-injective _ _ h)
      (record { own = refl; others = server_key_others c v; store = refl })
assign-Assigned db_server_key v c c' h =
    subst (Assigned db_server_key v c) (some-injective _ _ h)
      (record { own = refl; others = db_server_others c v; store = refl })
assign-Assigned db_port_key v c c' h =
    subst (Assigned db_port_key v c) (some-injective _ _ h)
      (record { own = refl; others = db_port_others c v; store = refl })
assign-Assigned db_password_key v c c' h =
    subst (Assigned db_password_key v c) (some-injective _ _ h)
      (record { own = refl; others = db_password_others c v; store = refl })
assign-Assigned db_username_key v c c' h =
    subst (Assigned db_username_key v c) (some-injective _ _ h)
      (record { own = refl; others = db_username_others c v; store = refl })
assign-Assigned db_name_key v c c' h =
    subst (Assigned db_name_key v c) (some-injective _ _ h)
      (record { own = refl; others = db_name_others c v; store = refl })
assign-Assigned db_cleaner_key v c c' h =
    subst (Assigned db_cleaner_key v c) (some-injective _ _ h)
      (record { own = refl; others = db_cleaner_others c (is_true v); store = refl })
assign-Assigned db_cleaner_interval_key v c c' h =
    with_int_cases (Assigned db_cleaner_interval_key v c) _ v c' h
      λ n e. record { own = rw e; others = db_cleaner_interval_others c n; store = refl }
assign-Assigned db_cleaner_purge_days_key v c c' h =
    with_int_cases (Assigned db_cleaner_purge_days_key v c) _ v c' h
      λ n e. record { own = rw e; others = db_cleaner_purge_days_others c n; store = refl }
assign-Assigned db_cleaner_history_purge_days_key v c c' h =
    with_int_cases (Assigned db_cleaner_history_purge_days_key v c) _ v c' h
      λ n e. record { own = rw e; others = db_cleaner_history_purge_days_others c n; store = refl }
assign-Assigned server_max_connections_key v c c' h =
    with_int_cases (Assigned server_max_connections_key v c) _ v c' h
      λ n e. record { own = rw e; others = server_max_connections_others c n; store = refl }
assign-Assigned server_keep_alive_key v c c' h =
    with_int_cases (Assigned server_keep_alive_key v c) _ v c' h
      λ n e. record { own = rw e; others = server_keep_alive_others c n; store = refl }
assign-Assigned server_use_keep_alive_cleaner_key v c c' h =
    subst (Assigned server_use_keep_alive_cleaner_key v c) (some-injective _ _ h) (record {
      own = refl;
      others = server_use_keep_alive_cleaner_others c (is_true v);
      store = refl;
    })
assign-Assigned server_tcp_back_log_key v c c' h =
    with_int_cases (Assigned server_tcp_back_log_key v c) _ v c' h
      λ n e. record { own = rw e; others = server_tcp_back_log_others c n; store = refl }
assign-Assigned max_account_pending_ops_key v c c' h =
    with_int_cases (Assigned max_account_pending_ops_key v c) _ v c' h
      λ n e. record { own = rw e; others = max_account_pending_ops_others c n; store = refl }
assign-Assigned db_max_connections_key v c c' h =
    with_int_cases (Assigned db_max_connections_key v c) _ v c' h
      λ n e. record { own = rw e; others = db_max_connections_others c n; store = refl }
assign-Assigned db_min_connections_key v c c' h =
    with_int_cases (Assigned db_min_connections_key v c) _ v c' h
      λ n e. record { own = rw e; others = db_min_connections_others c n; store = refl }
assign-Assigned redis_server_key v c c' h =
    subst (Assigned redis_server_key v c) (some-injective _ _ h)
      (record { own = refl; others = redis_server_others c v; store = refl })
assign-Assigned redis_port_key v c c' h =
    with_int_cases (Assigned redis_port_key v c) _ v c' h
      λ n e. record { own = rw e; others = redis_port_others c n; store = refl }
assign-Assigned redis_username_key v c c' h =
    subst (Assigned redis_username_key v c) (some-injective _ _ h)
      (record { own = refl; others = redis_username_others c v; store = refl })
assign-Assigned redis_password_key v c c' h =
    subst (Assigned redis_password_key v c) (some-injective _ _ h)
      (record { own = refl; others = redis_password_others c v; store = refl })
assign-Assigned redis_min_connections_key v c c' h =
    with_int_cases (Assigned redis_min_connections_key v c) _ v c' h
      λ n e. record { own = rw e; others = redis_min_connections_others c n; store = refl }
assign-Assigned redis_max_connections_key v c c' h =
    with_int_cases (Assigned redis_max_connections_key v c) _ v c' h
      λ n e. record { own = rw e; others = redis_max_connections_others c n; store = refl }
assign-Assigned redis_cleaner_key v c c' h =
    subst (Assigned redis_cleaner_key v c) (some-injective _ _ h)
      (record { own = refl; others = redis_cleaner_others c (is_true v); store = refl })
assign-Assigned redis_cleaner_interval_key v c c' h =
    with_int_cases (Assigned redis_cleaner_interval_key v c) _ v c' h
      λ n e. record { own = rw e; others = redis_cleaner_interval_others c n; store = refl }
assign-Assigned redis_cleaner_purge_days_key v c c' h =
    with_int_cases (Assigned redis_cleaner_purge_days_key v c) _ v c' h
      λ n e. record { own = rw e; others = redis_cleaner_purge_days_others c n; store = refl }
assign-Assigned redis_cleaner_history_purge_days_key v c c' h =
    with_int_cases (Assigned redis_cleaner_history_purge_days_key v c) _ v c' h λ n e. record {
      own = rw e;
      others = redis_cleaner_history_purge_days_others c n;
      store = refl;
    }

set_known_cases :
    (k : Key) (value : Option Bytes) (c c' : Config)
    → set_known k value c ≡ some c'
    → (v : Bytes) × (value ≡ some v) × Assigned k v c c'
unfolding set_known
set_known_cases k none c c' h = cc
set_known_cases k (some v) c c' h = (v, refl, assign-Assigned k v c c' h)

-- When `setKeyValue` ends in a defined state, either the key is unknown and nothing has changed, or
-- it is known, its value is there, and its setting alone has been given by that value; the kind
-- of store changes with `db_server` and `redis_server` only.
pub set_key_value_cases :
    (key : Bytes) (value : Option Bytes) (c c' : Config)
    → set_key_value key value c ≡ some c'
    → ((key_of key ≡ none) × (c ≡ c'))
      ⊎ ((k : Key) × (v : Bytes) × (key_of key ≡ some k) × (value ≡ some v) × Assigned k v c c')
unfolding set_key_value
set_key_value_cases key value c c' h = elim (Option-cases (key_of key)) [
  | inl e ↦ inl (e, some-injective _ _ (rw (e, set_key_value) at h))
  | inr (k, e) ↦
      let (v, given, a) = set_known_cases k value c c' (rw (e, set_key_value) at h) in
      inr (k, v, e, given, a)
]
