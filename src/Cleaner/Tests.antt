-- ===== src/Cleaner/Tests.antt =====
-- Half past ten in the evening.
use sync_server.Base.{refl, none, ◌≡◌, some, ℤ, ℕ, ◌+◌, ◌*◌, false, arith, pos, ltb_ℤ}
use sync_server.Cleaner.{history_delete_sec, Tm, next_run, next_run_lem}

abbrev evening : Tm
evening = record { tm_hour = 22; tm_min = 30 }

next_run_lem_example :
    ((sleep : ℕ) × (next_run (pos 1) evening ≡ some (pos sleep))
      × (22 * 60 + 30 + sleep ≡ 24 * 60 + 1))
    × ((sleep : ℤ) × (ltb_ℤ (pos 1) sleep ≡ false) × (next_run (pos 7) evening ≡ some sleep))
next_run_lem_example = next_run_lem evening 5 (omega arith) (omega arith)

-- 86400 * 24856 is no int.
too_many_days : history_delete_sec (pos 1600000000) (pos 24856) ≡ none
unfolding history_delete_sec
too_many_days = refl
