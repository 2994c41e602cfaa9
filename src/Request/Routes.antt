-- ===== src/Request/Routes.antt =====
-- The requests that `verify_request` lets through.
use sync_server.Base.{
  ◌≡◌, refl, Bool, true, false, ◌&&◌, Bytes, codes, beq, beq_iff, arith, if◌then◌else◌,
}
use sync_server.Exec.{Outcome, ok, err, http_error}
use sync_server.Http.{http_400}
use sync_server.Handler.Dispatch.{
  RequestType, post, get, OperationType, register_config, delete_user, sync_initial, sync_final,
}
use sync_server.Request.{path, post_operation, verify_request}

abbrev pub method : RequestType → Bytes
method post = codes "POST"
method get = codes "GET"

-- What may be asked for: any of the operations by a post, the settings also by a get.
abbrev pub IsServed : RequestType → OperationType → Type 0
IsServed post op = Unit {0}
IsServed get op = op ≡ register_config

-- A request as it is answered: with the type and operation that its words name, or with 400.
abbrev pub Answered : Bytes → Bytes → Outcome (RequestType × OperationType) → Type 0
Answered m operation (ok (type, op)) = (m ≡ method type) × (operation ≡ path op) × IsServed type op
Answered m operation (err e) =
    (e ≡ http_error http_400)
    × ((type : RequestType) (op : OperationType)
        → IsServed type op
        → beq m (method type) && beq operation (path op) ≡ false)

-- A request with the method of a post, and none of the four operations.
refused_post :
    (m operation : Bytes)
    → m ≡ codes "POST"
    → beq operation (path register_config) ≡ false
    → beq operation (path delete_user) ≡ false
    → beq operation (path sync_initial) ≡ false
    → beq operation (path sync_final) ≡ false
    → (type : RequestType) (op : OperationType) → IsServed type op
    → beq m (method type) && beq operation (path op) ≡ false
unfolding beq
refused_post m operation e a b c d post register_config s = rw (e, a)
refused_post m operation e a b c d post delete_user s = rw (e, b)
refused_post m operation e a b c d post sync_initial s = rw (e, c)
refused_post m operation e a b c d post sync_final s = rw (e, d)
refused_post m operation e a b c d get op s = rw e

-- A request with another method that does not get the settings.
refused_other :
    (m operation : Bytes)
    → beq m (codes "POST") ≡ false
    → beq m (codes "GET") && beq operation (path register_config) ≡ false
    → (type : RequestType) (op : OperationType) → IsServed type op
    → beq m (method type) && beq operation (path op) ≡ false
refused_other m operation h k post op s = rw h
refused_other m operation h k get op s = rw s k

branch :
    {A : Type 0} (P : A → Type 0) (b : Bool) {x y : A}
    → (b ≡ true → P x)
    → (b ≡ false → P y)
    → P (if b then x else y)
branch P true f g = f refl
branch P false f g = g refl

posted :
    (m operation : Bytes) (op : OperationType)
    → m ≡ codes "POST"
    → beq operation (path op) ≡ true
    → Answered m operation (ok (post, op))
posted m operation op e h = (e, (beq_iff operation (path op)).0 h, tt)

post_operation-Answered :
    (m operation : Bytes) → m ≡ codes "POST" → Answered m operation (post_operation operation)
unfolding post_operation
post_operation-Answered m operation e =
    let P : Outcome (RequestType × OperationType) → Type 0 = Answered m operation in
    branch P (beq operation (path register_config)) (posted m operation register_config e) λ a.
      branch P (beq operation (path delete_user)) (posted m operation delete_user e) λ b.
        branch P (beq operation (path sync_initial)) (posted m operation sync_initial e) λ c.
          branch P (beq operation (path sync_final)) (posted m operation sync_final e)
            λ d. (refl, refused_post m operation e a b c d)

got_settings :
    (m operation : Bytes)
    → beq m (codes "GET") && beq operation (path register_config) ≡ true
    → Answered m operation (ok (get, register_config))
got_settings m operation h = (
  ground (arith, beq_iff m (codes "GET")),
  ground (arith, beq_iff operation (path register_config)),
  refl,
)

-- What is let through is exactly a post of one of the four operations, or a get of the settings, and
-- everything else is answered with 400.
pub verify_request-Answered :
    (m operation : Bytes) → Answered m operation (verify_request m operation)
unfolding verify_request
verify_request-Answered m operation =
    let P : Outcome (RequestType × OperationType) → Type 0 = Answered m operation in
    branch P (beq m (codes "POST"))
      (λ h. post_operation-Answered m operation ((beq_iff m (codes "POST")).0 h))
      λ h.
        branch P (beq m (codes "GET") && beq operation (path register_config))
          (got_settings m operation) λ k. (refl, refused_other m operation h k)
