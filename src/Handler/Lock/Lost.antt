-- ===== src/Handler/Lock/Lost.antt =====
-- The notification that nobody hears: handler_mutex is not held when a handler is notified.
use sync_server.Base.{ℕ, ◌≡◌, refl, false, some, [], ◌∷◌, Bytes, ℤ, pos, ◌==◌, arith}
use sync_server.Map.{Map, get, put}
use sync_server.Map.Laws.{get-put_same}
use sync_server.Handler.State.{UserInfo}
use sync_server.Handler.Lock.{
  idle, free, taken, first, queued, waiting, releasing, leaving, holding, Handlers, set_phase,
  notify, goes, writes, finds_free, finds_taken, joins, queues, waits, stamps, unlocks, clears,
  leaves, moves, Reach, begin, next,
}

module _ (for_user : Bytes) (m : Map UserInfo) (info : UserInfo)
    (known : get for_user m ≡ some info) (unlocked : info.cv_vector ≡ []) (a b : ℕ) (t : ℤ)
    (other : a == b ≡ false) where
  begun : Handlers
  begun = record { user_infos = m; phases = λ j. idle }

  abbrev alone : UserInfo
  alone = record info { cv_vector = a ∷ [] }

  abbrev held : UserInfo
  held = record alone { lock_time = t }

  abbrev both : UserInfo
  both = record held { cv_vector = a ∷ b ∷ [] }

  abbrev cleared : UserInfo
  cleared = record both { lock_time = pos 0 }

  abbrev left : UserInfo
  left = record cleared { cv_vector = b ∷ [] }

  abbrev s1 : Handlers
  s1 = goes a free begun

  abbrev s2 : Handlers
  s2 = writes for_user alone a first s1

  abbrev s3 : Handlers
  s3 = writes for_user held a (holding t) s2

  abbrev s4 : Handlers
  s4 = goes b taken s3

  abbrev s5 : Handlers
  s5 = writes for_user both b queued s4

  abbrev s6 : Handlers
  s6 = goes a releasing s5

  abbrev s7 : Handlers
  s7 = writes for_user cleared a leaving s6

  abbrev s8 : Handlers
  s8 = record {
    user_infos = put for_user left s7.user_infos;
    phases = notify (some b) (set_phase a idle s7.phases);
  }

  held_by_first : Reach for_user s3
  unfolding begun
  held_by_first =
      let r1 : Reach for_user s1 =
        next (begin m info known unlocked) (moves a info known (finds_free refl unlocked)) in
      let r2 : Reach for_user s2 =
        rw unlocked at (next r1 (moves a info known (joins (ground arith)))) in
      next r2 (moves a alone (get-put_same for_user alone _) (stamps t (ground arith)))

  queued_behind : Reach for_user s5
  unfolding begun
  queued_behind =
      let r4 : Reach for_user s4 =
        next held_by_first
          (moves b held (get-put_same for_user held _) (finds_taken (ground arith) (λ e. cc))) in
      next r4 (moves b held (get-put_same for_user held _) (queues (ground arith)))

  unlocked_unheard : Reach for_user s8
  unfolding begun
  unlocked_unheard =
      let r6 : Reach for_user s6 =
        next queued_behind
          (moves a both (get-put_same for_user both _) (unlocks t (ground arith) refl)) in
      let r7 : Reach for_user s7 =
        next r6 (moves a both (get-put_same for_user both _) (clears (ground arith))) in
      next r7 (moves a cleared (get-put_same for_user cleared _) (leaves (ground arith)))

  -- For a user whom nobody has locked, and two handlers, there is a state that the handlers reach in
  -- which the second waits, alone in the queue, and all others are idle: the first has unlocked the user
  -- before the second began to wait, so that nobody is left to notify it.
  pub lost_wakeup :
      (s : Handlers) × (after : UserInfo) × Reach for_user s
      × (get for_user s.user_infos ≡ some after)
      × (after.cv_vector ≡ b ∷ [])
      × (s.phases b ≡ waiting)
      × ((j : ℕ) → j == b ≡ false → s.phases j ≡ idle)
  unfolding begun
  lost_wakeup = (
    goes b waiting s8,
    left,
    next unlocked_unheard (moves b left (get-put_same for_user left _) (waits (ground arith))),
    get-put_same for_user left _,
    refl,
    ground arith,
    λ j e. ground arith,
  )
