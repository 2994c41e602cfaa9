-- ===== src/Handler/Lock.antt =====
-- `lock_user`, `relock_user` and `unlock_user` (sync_handler.cpp), which nothing calls any more: any
-- number of handlers that call them for one user. A condition variable is the number of its handler.
-- Each handler has a user_infos_lock of its own, as each service thread has its own handler, so that
-- it keeps no other handler out: each step is one access to the user's entry.
pub mod Holders
pub mod Lost
mod Tests
use sync_server.Base.{
  ℕ, ◌≡◌, ◌≢◌, Bool, true, false, Option, none, some, List, [], ◌∷◌, ◌++◌, Bytes, ℤ, pos, ◌==◌,
  if◌then◌else◌,
}
use sync_server.Map.{Map, get, put}
use sync_server.Handler.State.{UserInfo}

-- `erase(it)` for the first place of `me`
unfoldable pub remove_cv : ℕ → List ℕ → List ℕ
remove_cv me [] = []
remove_cv me (cv ∷ l) = let rest = remove_cv me l in if cv == me then l else cv ∷ rest

abbrev pub front : List ℕ → Option ℕ
front [] = none
front (cv ∷ l) = some cv

abbrev pub behind_front : List ℕ → List ℕ
behind_front [] = []
behind_front (cv ∷ l) = l

-- Where a handler is. In `lock_user`: it has found the queue empty or not (`free`, `taken`), is in the
-- queue and has the time to write (`first`), has let go of user_infos_lock (`queued`), waits, has been
-- notified, has woken behind another one (`misplaced`), and has returned with its time (`holding`). In
-- `unlock_user`: it has compared its time (`releasing`), and has set the time to 0 (`leaving`).
pub data Phase : Type 0 where
  idle free taken first queued waiting notified misplaced releasing leaving : Phase
  holding : ℤ → Phase

pub record Handlers : Type 0 where
  pub user_infos : Map UserInfo
  pub phases : ℕ → Phase

abbrev pub set_phase : ℕ → Phase → (ℕ → Phase) → ℕ → Phase
set_phase me p phases j = if j == me then p else phases j

abbrev pub is_waiting : Phase → Bool
is_waiting waiting = true
is_waiting notified = true
is_waiting _ = false

-- A handler that does not wait yet does not hear of it.
abbrev pub woken : Phase → Phase
woken waiting = notified
woken p = p

-- `notify_one`, if there is a front
abbrev pub notify : Option ℕ → (ℕ → Phase) → ℕ → Phase
notify none phases j = phases j
notify (some cv) phases j = if j == cv then woken (phases j) else phases j

-- The handler `me` goes on, with or without a write to the user's entry.
abbrev pub goes : ℕ → Phase → Handlers → Handlers
goes me p s = record s { phases = set_phase me p s.phases }

abbrev pub writes : Bytes → UserInfo → ℕ → Phase → Handlers → Handlers
writes for_user info me p s = record {
  user_infos = put for_user info s.user_infos;
  phases = set_phase me p s.phases;
}

-- What the handler `me` does next, when the user's entry is `info`.
pub data Move (for_user : Bytes) (s : Handlers) (info : UserInfo) (me : ℕ) : Handlers → Type 0 where
  finds_free : s.phases me ≡ idle → info.cv_vector ≡ [] → Move for_user s info me (goes me free s)
  finds_taken : s.phases me ≡ idle → info.cv_vector ≢ [] → Move for_user s info me (goes me taken s)
  joins :
      s.phases me ≡ free
      → Move for_user s info me
          (writes for_user (record info { cv_vector = info.cv_vector ++ me ∷ [] }) me first s)
  queues :
      s.phases me ≡ taken
      → Move for_user s info me
          (writes for_user (record info { cv_vector = info.cv_vector ++ me ∷ [] }) me queued s)
  waits : s.phases me ≡ queued → Move for_user s info me (goes me waiting s)
  -- also when nobody has notified it
  wakes_first :
      is_waiting (s.phases me) ≡ true
      → front info.cv_vector ≡ some me
      → Move for_user s info me (goes me first s)
  wakes_behind :
      (cv : ℕ)
      → is_waiting (s.phases me) ≡ true
      → front info.cv_vector ≡ some cv
      → cv == me ≡ false
      → Move for_user s info me (goes me misplaced s)
  gives_up :
      s.phases me ≡ misplaced
      → Move for_user s info me
          (writes for_user (record info { cv_vector = remove_cv me info.cv_vector }) me idle s)
  stamps :
      (now : ℤ)
      → s.phases me ≡ first
      → Move for_user s info me
          (writes for_user (record info { lock_time = now }) me (holding now) s)
  relocks :
      (t : ℤ)
      → s.phases me ≡ holding t
      → info.lock_time ≡ t
      → Move for_user s info me (goes me first s)
  fails_to_relock :
      (t : ℤ)
      → s.phases me ≡ holding t
      → info.lock_time ≢ t
      → Move for_user s info me (goes me idle s)
  unlocks :
      (t : ℤ)
      → s.phases me ≡ holding t
      → info.lock_time ≡ t
      → Move for_user s info me (goes me releasing s)
  fails_to_unlock :
      (t : ℤ)
      → s.phases me ≡ holding t
      → info.lock_time ≢ t
      → Move for_user s info me (goes me idle s)
  clears :
      s.phases me ≡ releasing
      → Move for_user s info me (writes for_user (record info { lock_time = pos 0 }) me leaving s)
  leaves :
      s.phases me ≡ leaving
      → Move for_user s info me (record {
        user_infos =
            put for_user (record info { cv_vector = behind_front info.cv_vector }) s.user_infos;
        phases = notify (front (behind_front info.cv_vector)) (set_phase me idle s.phases);
      })

-- A user who is not known is refused with 403, which changes nothing here.
pub data Step (for_user : Bytes) (s : Handlers) : Handlers → Type 0 where
  moves :
      (me : ℕ) (info : UserInfo) {t : Handlers}
      → get for_user s.user_infos ≡ some info
      → Move for_user s info me t
      → Step for_user s t

-- From a user whom no handler has locked or waits for.
pub data Reach (for_user : Bytes) : Handlers → Type 0 where
  begin :
      (m : Map UserInfo) (info : UserInfo)
      → get for_user m ≡ some info
      → info.cv_vector ≡ []
      → Reach for_user (record { user_infos = m; phases = λ j. idle })
  next : {s t : Handlers} → Reach for_user s → Step for_user s t → Reach for_user t
