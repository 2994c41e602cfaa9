-- ===== src/Config/Tests.antt =====
-- Settings at concrete lines and files.
use sync_server.Base.{◌≡◌, refl, none, some, [], ◌∷◌, arith, codes, beq}
use sync_server.Config.{Key, default_config, key_of, set_key_value}
use sync_server.Config.File.{Entries, AreValues, load, render, assign_all, load-render}

missing_value_is_undefined : set_key_value (codes "db_port") none default_config ≡ none
unfolding set_key_value key_of beq
missing_value_is_undefined = refl

abbrev entries : Entries
entries =
    (Key.bind_port_key, codes "8443")
    ∷ (Key.redis_server_key, codes "127.0.0.1")
    ∷ (Key.redis_password_key, codes "a=b=c")
    ∷ []

entries-AreValues : AreValues entries
entries-AreValues = (
  record { some_byte = λ e. cc; one_line = omega arith; fits = omega arith },
  (
    record { some_byte = λ e. cc; one_line = omega arith; fits = omega arith },
    (record { some_byte = λ e. cc; one_line = omega arith; fits = omega arith }, tt),
  ),
)

load-render_example : load (some (render entries)) ≡ assign_all entries default_config
load-render_example = load-render entries entries-AreValues
