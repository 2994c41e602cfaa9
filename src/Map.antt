-- ===== src/Map.antt =====
-- `std::map<char *, V, cmp_key>` (Config.h): the entries in the order of their keys.
pub mod Laws
use sync_server.Base.{
  Bool, List, [], ◌∷◌, Option, none, some, Bytes, beq, strcmp_lt, is_some, if◌then◌else◌,
}

abbrev pub Map {ℓ} : Type ℓ → Type ℓ
Map V = List (Bytes × V)

module _ {ℓ} {V : Type ℓ} where
  -- `find(k)`
  unfoldable pub get : Bytes → Map V → Option V
  get k [] = none
  get k ((j, v) ∷ m) = if beq j k then some v else get k m

  -- `count(k) > 0`
  abbrev pub contains : Bytes → Map V → Bool
  contains k m = is_some (get k m)

  -- An entry goes before the first key that is not below its own.
  insert_sorted : Bytes → V → Map V → Map V
  insert_sorted k v [] = (k, v) ∷ []
  insert_sorted k v ((j, w) ∷ m) =
      if strcmp_lt j k then (j, w) ∷ insert_sorted k v m else (k, v) ∷ (j, w) ∷ m

  unfoldable pub erase : Bytes → Map V → Map V
  erase k [] = []
  erase k ((j, v) ∷ m) = let rest = erase k m in if beq j k then rest else (j, v) ∷ rest

  -- `m[k] = v`
  unfoldable pub put : Bytes → V → Map V → Map V
  unfolding insert_sorted erase
  put k v m = insert_sorted k v (erase k m)

  -- `m.emplace(k, v)`, which leaves an entry that is there
  unfoldable pub emplace : Bytes → V → Map V → Map V
  unfolding insert_sorted get
  emplace k v m = if contains k m then m else insert_sorted k v m
