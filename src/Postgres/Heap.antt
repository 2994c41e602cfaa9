-- ===== src/Postgres/Heap.antt =====
-- `increase_list_buffer` (IDataStore.h), and the loop of `get_accounts_for_user`
-- (data_store_connection.cpp) that copies the accounts it has read.
use sync_server.Base.{
  ℕ, zero, suc, ◌+◌, ◌-◌, ◌*◌, ◌%◌, ◌^◌, Bool, false, Option, none, some, List, [], ◌∷◌, ◌++◌,
  Bytes, ltb, ◌==◌, length, if◌then◌else◌, ℤ,
}
use sync_server.Base.Long.{atol}
use sync_server.Map.{Map, emplace}
use sync_server.Store.{Account}
use sync_server.Postgres.{Libpq}

-- The `Heap_List` that is written to, of `sz` bytes, with the bytes up to `indx`. The ones before it
-- are only read.
pub record Heap : Type 0 where
  pub sz : ℕ
  pub used : Bytes

unfoldable pub increase_list_buffer : ℕ → Heap → Heap
increase_list_buffer needed h =
    if ltb ((h.sz + 2 ^ 32 - length h.used) % 2 ^ 32) ((needed + 20) % 2 ^ 32)
    then record { sz = 1024; used = [] }
    else h

-- `strcpy`, the NUL included; `none` is a write past the end.
unfoldable pub copy : Bytes → Heap → Option Heap
copy s h =
    if ltb (length h.used + length s) h.sz
    then some (record h { used = h.used ++ s ++ 0 ∷ [] })
    else none

unfoldable pub then_copy : Option Heap → (Heap → Option Heap) → Option Heap
then_copy none f = none
then_copy (some h) f = f h

unfoldable pub copy_values : List Bytes → Heap → Option Heap
unfolding copy then_copy
copy_values [] h = some h
copy_values (s ∷ values) h = then_copy (copy s h) (copy_values values)

unfoldable pub total : List Bytes → ℕ
total [] = 0
total (s ∷ values) = length s + total values

-- One row of the result.
unfoldable pub copy_row : List Bytes → Heap → Option Heap
unfolding increase_list_buffer copy_values total
copy_row values h = copy_values values (increase_list_buffer (total values % 2 ^ 32) h)

abbrev pub first_heap : ℕ → Heap
first_heap rows = record { sz = rows * 256 % 2 ^ 32; used = [] }

unfoldable pub is_true_text : Bytes → Bool
is_true_text [] = false
is_true_text (c ∷ s) = c == b't'

module _ {W : Type 0} (pq : Libpq W) (res : pq.PgResult) where
  abbrev pub row_values : ℕ → List Bytes
  row_values i =
      pq.getvalue res i 0
      ∷ pq.getvalue res i 1
      ∷ pq.getvalue res i 2
      ∷ pq.getvalue res i 3
      ∷ pq.getvalue res i 4
      ∷ pq.getvalue res i 5
      ∷ []

  unfoldable pub put_row : ℕ → Option ℤ → Map Account → Option (Map Account)
  unfolding emplace is_true_text
  put_row i none m = none
  put_row i (some time) m = some (
      emplace (pq.getvalue res i 0)
        (record {
          account_name = pq.getvalue res i 0;
          account_uuid = pq.getvalue res i 1;
          user_name = pq.getvalue res i 2;
          password = pq.getvalue res i 3;
          old_password = pq.getvalue res i 4;
          url = pq.getvalue res i 5;
          update_time = time;
          deleted = is_true_text (pq.getvalue res i 7);
        })
        m)

  unfoldable pub then_rows :
      Option Heap
      → Option (Map Account)
      → (Heap → Map Account → Option (Map Account))
      → Option (Map Account)
  then_rows none o f = none
  then_rows (some h) none f = none
  then_rows (some h) (some m) f = f h m

  -- The rows from `i` on, `n` of them; `none` is a write past the end, or a time that is no `long`.
  unfoldable pub read_rows : ℕ → ℕ → Heap → Map Account → Option (Map Account)
  unfolding then_rows copy_row put_row atol
  read_rows zero i h m = some m
  read_rows (suc n) i h m =
      then_rows (copy_row (row_values i) h) (put_row i (atol (pq.getvalue res i 6)) m)
        (read_rows n (i + 1))
