-- ===== src/Json.antt =====
-- The JSON library (jsonP), which is not part of this repository: a parsed document is read by
-- paths and keys, and a reply is printed. Nothing is assumed of it but the types of its calls.
use sync_server.Base.{ℕ, Bool, Option, none, some, List, Bytes, ℤ}
use sync_server.Exec.{Outcome, ok, err, json, fault}

pub record JsonLib : Type 1 where
  pub Doc : Type 0
  -- An object that is an element of an array.
  pub Obj : Type 0
  -- `none` is a `jsonP_exception`, here and below; a null pointer is `some none`.
  pub parse : Bytes → Option Doc
  pub get_string_value : Doc → Bytes → Option (Option Bytes)
  pub get_long_value : Doc → Bytes → Option ℤ
  pub get_elements_count : Doc → Bytes → Option ℕ
  -- What `get_object_id` and the calls of `get_next_array_element` give, in turn; an element that
  -- is no object is `none`.
  pub get_array : Doc → Bytes → Option (List (Option Obj))
  pub get_string_field : Obj → Bytes → Option (Option Bytes)
  pub get_long_field : Obj → Bytes → Option ℤ
  pub get_bool_field : Obj → Bytes → Option Bool

abbrev pub or_json {ℓ} : {A : Type ℓ} → Option A → Outcome A
or_json none = err json
or_json (some a) = ok a

-- A pointer that is read through at once.
abbrev pub deref {ℓ} : {A : Type ℓ} → Option (Option A) → Outcome A
deref none = err json
deref (some none) = err fault
deref (some (some a)) = ok a
