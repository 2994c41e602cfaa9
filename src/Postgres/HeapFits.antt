-- ===== src/Postgres/HeapFits.antt =====
-- When the accounts that are read fit the heaps that they are copied to.
use sync_server.Base.{
  ℕ, zero, suc, ◌+◌, ◌-◌, ◌%◌, ◌^◌, ◌≤◌, ◌<◌, ◌≡◌, refl, ap, ◌∙◌, true, Option, none, some, List,
  [], ◌∷◌, ◌++◌, Bytes, ltb, lt→ltb, ltb→lt, length, length-append, arith, Bool-cases, inl, inr,
}
use sync_server.Base.Long.{atol}
use sync_server.Map.{Map}
use sync_server.Store.{Account}
use sync_server.Postgres.{Libpq}
use sync_server.Postgres.Heap.{
  Heap, increase_list_buffer, copy, then_copy, copy_values, total, copy_row, row_values, put_row,
  then_rows, read_rows,
}

abbrev IsHeap : Heap → Type 0
IsHeap h = (length h.used ≤ h.sz) × (h.sz < 2 ^ 32)

copy_lem :
    (s : Bytes) (h : Heap)
    → length h.used + length s < h.sz
    → copy s h ≡ some (record h { used = h.used ++ s ++ 0 ∷ [] })
unfolding copy
copy_lem s h room = rw (lt→ltb _ _ room) refl

-- Each value takes its bytes and a NUL.
copy_values-IsHeap :
    (values : List Bytes) (h : Heap)
    → length h.used + total values + length values ≤ h.sz
    → h.sz < 2 ^ 32
    → (g : Heap) × (copy_values values h ≡ some g) × IsHeap g
unfolding copy_values total then_copy
copy_values-IsHeap [] h room most = (h, refl, (omega arith, most))
copy_values-IsHeap (s ∷ values) h room most =
    let h1 : Heap = record h { used = h.used ++ s ++ 0 ∷ [] } in
    let len : length h1.used ≡ length h.used + length s + 1 = simp length-append (omega arith) in
    let (g, given, ok) = copy_values-IsHeap values h1 (omega arith) most in
    (g, ap (λ o. then_copy o (copy_values values)) (copy_lem s h (omega arith)) ∙ given, ok)

free_room_le : (sz t : ℕ) → t ≤ sz → sz < 2 ^ 32 → (sz + 2 ^ 32 - t) % 2 ^ 32 ≡ sz - t
free_room_le sz t inside most = omega arith

copy_row-IsHeap :
    (values : List Bytes) (h : Heap)
    → total values + length values ≤ 1024
    → length values ≤ 6
    → IsHeap h
    → (g : Heap) × (copy_row values h ≡ some g) × IsHeap g
unfolding copy_row increase_list_buffer
copy_row-IsHeap values h small six ok =
    let needed : total values % 2 ^ 32 ≡ total values = omega arith in
    let free = free_room_le h.sz (length h.used) ok.0 ok.1 in
    elim (Bool-cases
      (ltb ((h.sz + 2 ^ 32 - length h.used) % 2 ^ 32) ((total values % 2 ^ 32 + 20) % 2 ^ 32))) [
        | inl short ↦
            let (g, given, kept) =
              copy_values-IsHeap values (record { sz = 1024; used = [] }) (omega arith)
                (omega arith) in
            (g, rw short given, kept)
        | inr wide ↦
            let (g, given, kept) = copy_values-IsHeap values h (ground arith) ok.1 in
            (g, rw wide given, kept)
      ]

copy_values-none :
    (values : List Bytes) (h : Heap)
    → length h.used ≤ h.sz
    → h.sz < length h.used + total values + length values
    → copy_values values h ≡ none
unfolding copy_values total then_copy copy
copy_values-none [] h inside short = absurd (omega arith)
copy_values-none (s ∷ values) h inside short =
    let h1 : Heap = record h { used = h.used ++ s ++ 0 ∷ [] } in
    let len : length h1.used ≡ length h.used + length s + 1 = simp length-append (omega arith) in
    elim (Bool-cases (ltb (length h.used + length s) h.sz)) [
      | inl room ↦
          let below = ltb→lt (length h.used + length s) h.sz room in
          rw room (copy_values-none values h1 (omega arith) (omega arith))
      | inr full ↦ rw full refl
    ]

copy_row-none :
    (values : List Bytes) (h : Heap)
    → length h.used ≤ h.sz
    → h.sz < 2 ^ 32
    → h.sz < length h.used + total values + 20
    → 1024 < total values + length values
    → total values + 20 < 2 ^ 32
    → copy_row values h ≡ none
unfolding copy_row increase_list_buffer
copy_row-none values h inside most short large whole =
    let free = free_room_le h.sz (length h.used) inside most in
    let test : ltb ((h.sz + 2 ^ 32 - length h.used) % 2 ^ 32)
          ((total values % 2 ^ 32 + 20) % 2 ^ 32)
        ≡ true =
      lt→ltb _ _ (omega arith) in
    rw test (copy_values-none values (record { sz = 1024; used = [] }) (omega arith) (omega arith))

module _ {W : Type 0} (pq : Libpq W) (res : pq.PgResult) where
  abbrev then_row :
      Option (Map Account) → (Map Account → Option (Map Account)) → Option (Map Account)
  then_row none f = none
  then_row (some m) f = f m

  -- The accounts of the rows, with no heap.
  unfoldable pub rows_map : ℕ → ℕ → Map Account → Option (Map Account)
  unfolding put_row atol
  rows_map zero i m = some m
  rows_map (suc n) i m =
      then_row (put_row pq res i (atol (pq.getvalue res i 6)) m) (rows_map n (i + 1))

  then_rows-some :
      (g : Heap) (o : Option (Map Account)) (f : Heap → Map Account → Option (Map Account))
      (r : Map Account → Option (Map Account))
      → ((m : Map Account) → f g m ≡ r m)
      → then_rows pq res (some g) o f ≡ then_row o r
  unfolding then_rows
  then_rows-some g none f r same = refl
  then_rows-some g (some m) f r same = same m

  -- If the texts of each row have no more than 1018 bytes together, then no copy goes past the end of
  -- a heap, however many rows there are and whatever has been copied: the accounts are those of the
  -- rows.
  pub read_rows-rows_map :
      (n i : ℕ) (h : Heap) (m : Map Account)
      → ((j : ℕ) → total (row_values pq res j) ≤ 1018)
      → length h.used ≤ h.sz
      → h.sz < 2 ^ 32
      → read_rows pq res n i h m ≡ rows_map n i m
  unfolding read_rows rows_map
  read_rows-rows_map zero i h m small inside most = refl
  read_rows-rows_map (suc n) i h m small inside most =
      let (g, given, ok) =
        copy_row-IsHeap (row_values pq res i) h (omega (arith, small i)) (omega arith)
          (inside, most) in
      let o = put_row pq res i (atol (pq.getvalue res i 6)) m in
      ap (λ c. then_rows pq res c o (read_rows pq res n (i + 1))) given
      ∙ then_rows-some g o (read_rows pq res n (i + 1)) (rows_map n (i + 1))
          (λ m1. read_rows-rows_map n (i + 1) g m1 small ok.0 ok.1)

  -- A row of more than 1018 bytes that the heap has no room for is written past the end of the new
  -- heap, which is too small for it too.
  pub read_rows-none :
      (n i : ℕ) (h : Heap) (m : Map Account)
      → length h.used ≤ h.sz
      → h.sz < 2 ^ 32
      → h.sz < length h.used + total (row_values pq res i) + 20
      → 1019 ≤ total (row_values pq res i)
      → total (row_values pq res i) + 20 < 2 ^ 32
      → read_rows pq res (suc n) i h m ≡ none
  unfolding read_rows then_rows
  read_rows-none n i h m inside most short large whole =
      ap
        (λ c.
          then_rows pq res c (put_row pq res i (atol (pq.getvalue res i 6)) m)
            (read_rows pq res n (i + 1)))
        (copy_row-none (row_values pq res i) h inside most short (omega arith) whole)
