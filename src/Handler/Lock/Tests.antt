-- ===== src/Handler/Lock/Tests.antt =====
-- Two handlers and one user.
use sync_server.Base.{ℕ, ◌≡◌, refl, false, some, [], ◌∷◌, Bytes, codes, pos, ◌==◌, beq}
use sync_server.Map.{Map, get}
use sync_server.Handler.State.{UserInfo}
use sync_server.Handler.Lock.{Handlers, idle, waiting, holding, Reach}
use sync_server.Handler.Lock.Holders.{two_holders}
use sync_server.Handler.Lock.Lost.{lost_wakeup}

abbrev bob : Bytes
bob = codes "bob@site.com"

abbrev info : UserInfo
info = record {
  user = record { account_uuid = bob; account_password = codes "00"; account_last_sync = pos 0 };
  lock_time = pos 0;
  cv_vector = [];
}

abbrev users : Map UserInfo
users = (bob, info) ∷ []

known : get bob users ≡ some info
unfolding get beq
known = refl

two_holders_example :
    (s : Handlers) × Reach bob s × (s.phases 1 ≡ holding (pos 7)) × (s.phases 2 ≡ holding (pos 8))
two_holders_example = two_holders bob users info known refl 1 2 (pos 7) (pos 8) refl

lost_wakeup_example :
    (s : Handlers) × (after : UserInfo) × Reach bob s
    × (get bob s.user_infos ≡ some after)
    × (after.cv_vector ≡ 2 ∷ [])
    × (s.phases 2 ≡ waiting)
    × ((j : ℕ) → j == 2 ≡ false → s.phases j ≡ idle)
lost_wakeup_example = lost_wakeup bob users info known refl 1 2 (pos 7) refl
