-- ===== src/Handler/Users.antt =====
-- The constructor `sync_handler::sync_handler`, which the first handler has load the users.
use sync_server.Base.{◌≡◌, refl, ◌∙◌, false, some, List, [], ◌∷◌, Bytes, pos, beq, beq_refl, All}
use sync_server.Exec.{ok, Exec, ◌>>=◌}
use sync_server.Map.{Map, get, put}
use sync_server.Map.Laws.{get-put}
use sync_server.Store.{User}
use sync_server.Handler.State.{UserInfo, State, Server, call}

abbrev pub loaded_info : User → UserInfo
loaded_info u = record { user = u; lock_time = pos 0; cv_vector = [] }

unfoldable pub load_users : List User → Map UserInfo → Map UserInfo
load_users [] infos = infos
load_users (u ∷ users) infos = load_users users (put u.account_uuid (loaded_info u) infos)

-- The body of `call_once`.
pub initialize_users : {S : Type 0} → Server S → Exec (State S) (Unit {0})
unfolding load_users
initialize_users sv = do
  users ← call sv.data_store.get_all_users
  λ s. (ok tt, record s { user_infos = load_users users s.user_infos })

abbrev pub Unlisted : Bytes → List User → Type 0
Unlisted email = All (λ u. beq u.account_uuid email ≡ false)

-- No two users have one identity, as the key of a store's table has it.
abbrev pub DistinctUsers : List User → Type 0
DistinctUsers [] = Unit {0}
DistinctUsers (u ∷ users) = Unlisted u.account_uuid users × DistinctUsers users

get-load_users :
    (users : List User) (email : Bytes) (infos : Map UserInfo)
    → Unlisted email users
    → get email (load_users users infos) ≡ get email infos
unfolding load_users
get-load_users [] email infos h = refl
get-load_users (u ∷ users) email infos h =
    get-load_users users email (put u.account_uuid (loaded_info u) infos) h.1 ∙ rw (get-put, h.0)

-- Every user of the store is known afterwards, under the hash that the store keeps.
pub load_users-All :
    (users : List User) (infos : Map UserInfo)
    → DistinctUsers users
    → All (λ u. get u.account_uuid (load_users users infos) ≡ some (loaded_info u)) users
unfolding load_users
load_users-All [] infos h = tt
load_users-All (u ∷ users) infos h = (
  get-load_users users u.account_uuid (put u.account_uuid (loaded_info u) infos) h.0
      ∙ rw (get-put, beq_refl),
  load_users-All users (put u.account_uuid (loaded_info u) infos) h.1,
)
