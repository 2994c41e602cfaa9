-- ===== src/Map/Laws.antt =====
-- Reads after writes of a map.
use sync_server.Base.{
  ◌≡◌, refl, none, some, [], ◌∷◌, arith, Bytes, beq, beq_iff, beq_refl, if◌then◌else◌,
}
use sync_server.Map.{Map, get, contains, insert_sorted, erase, put, emplace}

module _ {ℓ} {V : Type ℓ} where
  pub get-erase :
      (k j : Bytes) (m : Map V) → get j (erase k m) ≡ (if beq k j then none else get j m)
  unfolding get erase
  get-erase k j [] = ground arith
  get-erase k j ((i, v) ∷ m) =
      ground (arith, get-erase k j m, beq_iff i k, beq_iff i j, beq_iff k j)

  pub erase_absent : (k : Bytes) (m : Map V) → get k m ≡ none → erase k m ≡ m
  unfolding get erase
  erase_absent k [] h = refl
  erase_absent k ((i, v) ∷ m) h = ground (arith, erase_absent k m)

  -- The position of an entry is of no account for reads, if its key is new.
  get-insert_sorted :
      (k j : Bytes) (v : V) (m : Map V)
      → get k m ≡ none
      → get j (insert_sorted k v m) ≡ (if beq k j then some v else get j m)
  unfolding get insert_sorted
  get-insert_sorted k j v [] h = refl
  get-insert_sorted k j v ((i, w) ∷ m) h =
      ground (arith, get-insert_sorted k j v m, beq_iff i k, beq_iff i j, beq_iff k j)

  pub get-put :
      (k j : Bytes) (v : V) (m : Map V) → get j (put k v m) ≡ (if beq k j then some v else get j m)
  unfolding put
  get-put k j v m =
      rw (get-insert_sorted k j v (erase k m) (rw (get-erase k k m, beq_refl k)))
        (ground (arith, get-erase k j m))

  pub get-put_same : (k : Bytes) (v : V) (m : Map V) → get k (put k v m) ≡ some v
  get-put_same k v m = rw (get-put k k v m, beq_refl k) refl

  pub get-emplace :
      (k j : Bytes) (v : V) (m : Map V)
      → get j (emplace k v m)
        ≡ (if contains k m then get j m else if beq k j then some v else get j m)
  unfolding emplace
  get-emplace k j v m = ground (arith, get-insert_sorted k j v m)

  pub ruleset map_laws = (get-erase, get-put, get-emplace)
