-- ===== src/Handler/Lock/Holders.antt =====
-- Two handlers that have locked one user.
use sync_server.Base.{ℕ, ◌≡◌, refl, false, some, [], ◌∷◌, ◌++◌, Bytes, ℤ, ◌==◌, arith}
use sync_server.Map.{Map, get}
use sync_server.Map.Laws.{get-put_same}
use sync_server.Handler.State.{UserInfo}
use sync_server.Handler.Lock.{
  idle, free, first, holding, Handlers, goes, writes, finds_free, joins, stamps, moves, Reach,
  begin, next,
}

module _ (for_user : Bytes) (m : Map UserInfo) (info : UserInfo)
    (known : get for_user m ≡ some info) (unlocked : info.cv_vector ≡ []) (a b : ℕ) (t u : ℤ)
    (other : a == b ≡ false) where
  begun : Handlers
  begun = record { user_infos = m; phases = λ j. idle }

  abbrev joined : UserInfo
  joined = record info { cv_vector = info.cv_vector ++ a ∷ [] }

  abbrev both : UserInfo
  both = record joined { cv_vector = joined.cv_vector ++ b ∷ [] }

  -- For a user whom no handler has locked, and two handlers and their times, there is a state that the
  -- handlers reach in which both have locked the user: both find the queue empty before either joins
  -- it, since user_infos_lock is not one lock for both.
  pub two_holders :
      (s : Handlers) × Reach for_user s × (s.phases a ≡ holding t) × (s.phases b ≡ holding u)
  unfolding begun
  two_holders =
      let s1 = goes a free begun in
      let r1 : Reach for_user s1 =
        next (begin m info known unlocked) (moves a info known (finds_free refl unlocked)) in
      let s2 = goes b free s1 in
      let r2 : Reach for_user s2 =
        next r1 (moves b info known (finds_free (ground arith) unlocked)) in
      let s3 = writes for_user joined a first s2 in
      let r3 : Reach for_user s3 = next r2 (moves a info known (joins (ground arith))) in
      let s4 = writes for_user both b first s3 in
      let r4 : Reach for_user s4 =
        next r3 (moves b joined (get-put_same for_user joined _) (joins (ground arith))) in
      let s5 = writes for_user (record both { lock_time = t }) a (holding t) s4 in
      let r5 : Reach for_user s5 =
        next r4 (moves a both (get-put_same for_user both _) (stamps t (ground arith))) in
      let s6 = writes for_user (record both { lock_time = u }) b (holding u) s5 in
      let r6 : Reach for_user s6 = next r5 (
        moves b (record both { lock_time = t })
          (get-put_same for_user (record both { lock_time = t }) _) (stamps u (ground arith))) in
      (s6, r6, ground arith, ground arith)
