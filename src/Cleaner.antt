-- ===== src/Cleaner.antt =====
-- `start_data_cleaner` and `get_next_run` (IDataStore.h): the thread that deletes old accounts.
mod Tests
use sync_server.Base.{
  Option, none, some, ◌^◌, ◌&&◌, ltb, leb, if◌then◌else◌, ℕ, suc, ◌+◌, ◌-◌, ◌≤◌, ◌*◌, ◌<◌, ◌≡◌,
  refl, Bool, true, false, arith, ℤ, pos, negsuc, ◌+ℤ◌, ◌-ℤ◌, ◌*ℤ◌, ltb_ℤ,
}

-- DAY_SEC, DAY_MIN
abbrev pub day_sec : ℤ
day_sec = pos 86400

abbrev pub day_min : ℤ
day_min = pos 1440

-- The members of `localtime` that are used.
pub record Tm : Type 0 where
  pub tm_hour : ℕ
  pub tm_min : ℕ

-- In minutes.
unfoldable pub get_next_run : Tm → ℤ
get_next_run local =
    (pos 59 -ℤ pos local.tm_min) +ℤ (pos 23 -ℤ pos local.tm_hour) *ℤ pos 60 +ℤ pos 2

-- An int; `none` is an overflow, which has no defined behaviour.
abbrev pub as_int : ℤ → Option ℤ
as_int n = if ltb_ℤ n (pos (2 ^ 31)) && ltb_ℤ (negsuc (2 ^ 31)) n then some n else none

abbrev pub added : ℤ → Option ℤ → Option ℤ
added a none = none
added a (some n) = some (a +ℤ n)

-- How long the thread sleeps after a run. The product is of two ints, and is too large also where
-- `1 - interval` is.
unfoldable pub next_run : ℤ → Tm → Option ℤ
unfolding get_next_run
next_run interval local = added (get_next_run local) (as_int (day_min *ℤ (pos 1 -ℤ interval)))

abbrev pub subtracted : ℤ → Option ℤ → Option ℤ
subtracted a none = none
subtracted a (some n) = some (a -ℤ n)

unfoldable pub history_delete_sec : ℤ → ℤ → Option ℤ
history_delete_sec curr_sec history_days = subtracted curr_sec (as_int (history_days *ℤ day_sec))

abbrev delete_both {ℓ} : {S : Type ℓ} → (ℤ → S → S) → (ℤ → S → S) → Option ℤ → S → Option S
delete_both delete_old_users delete_history none s = none
delete_both delete_old_users delete_history (some t) s =
    some (delete_history t (delete_old_users t s))

-- One run, with the store's `deleteOldUsers` and `deleteHistory`.
unfoldable pub run_cleaner {ℓ} : {S : Type ℓ} → (ℤ → S → S) → (ℤ → S → S) → ℤ → ℤ → S → Option S
unfolding history_delete_sec
run_cleaner delete_old_users delete_history curr_sec history_days s =
    delete_both delete_old_users delete_history (history_delete_sec curr_sec history_days) s

minutes_left :
    (h m : ℕ)
    → h < 24
    → m < 60
    → get_next_run (record { tm_hour = h; tm_min = m }) ≡ pos (59 - m + (23 - h) * 60 + 2)
unfolding get_next_run
minutes_left h m hour min =
    let hours : pos 23 -ℤ pos h ≡ pos (23 - h) = ground arith in
    let minutes : pos 59 -ℤ pos m ≡ pos (59 - m) = ground arith in
    rw (hours, minutes) (ground arith)

shorter : (d : ℕ) → day_min *ℤ (pos 1 -ℤ pos (d + 2)) ≡ negsuc (1440 * d + 1439)
shorter d = let less : pos 1 -ℤ pos (d + 2) ≡ negsuc d = ground arith in rw less (ground arith)

fits_int :
    (d : ℕ)
    → as_int (negsuc (1440 * d + 1439))
      ≡ (if leb (1440 * (d + 1)) (2 ^ 31) then some (negsuc (1440 * d + 1439)) else none)
fits_int d = ground arith

late : (k d : ℕ) → k ≤ 1441 → ltb_ℤ (pos 1) (pos k +ℤ negsuc (1440 * d + 1439)) ≡ false
late k d h = ground arith

added-if :
    (a n : ℤ) (b : Bool)
    → added a (if b then some n else none) ≡ (if b then some (a +ℤ n) else none)
added-if a n true = refl
added-if a n false = refl

-- At a time of the day, with an interval of one day the thread sleeps until 00:01 of the next day;
-- with an interval of more days it sleeps for no more than a minute, and mostly not at all, up to the
-- interval from which on the product with the minutes of a day is no int.
pub next_run_lem :
    (local : Tm) (days : ℕ)
    → local.tm_hour < 24
    → local.tm_min < 60
    → ((sleep : ℕ) × (next_run (pos 1) local ≡ some (pos sleep))
        × (local.tm_hour * 60 + local.tm_min + sleep ≡ 24 * 60 + 1))
      × ((sleep : ℤ) × (ltb_ℤ (pos 1) sleep ≡ false)
          × (next_run (pos (days + 2)) local
              ≡ (if leb (1440 * (days + 1)) (2 ^ 31) then some sleep else none)))
unfolding next_run
next_run_lem local days hour min =
    let left = minutes_left local.tm_hour local.tm_min hour min in
    let k = 59 - local.tm_min + (23 - local.tm_hour) * 60 + 2 in
    (
      (k, rw left (ground arith), omega arith),
      (
        pos k +ℤ negsuc (1440 * days + 1439),
        late k days (omega arith),
        rw (left, shorter days, fits_int days) (added-if (pos k) (negsuc (1440 * days + 1439)) _),
      ),
    )
