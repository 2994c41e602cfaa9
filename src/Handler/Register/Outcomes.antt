-- ===== src/Handler/Register/Outcomes.antt =====
-- What a registration leaves in the map of users, on each answer of the store.
use sync_server.Base.{
  ◌≡◌, refl, Bool, true, false, none, some, Bytes, ℤ, pos, [], beq_refl, beq_iff, ap, ◌∙◌, beq,
  arith,
}
use sync_server.Email.{verify_email}
use sync_server.Exec.{continue, pure, Outcome, ok, err, Exn, http_error}
use sync_server.Http.{http_500}
use sync_server.Map.{get, put, erase}
use sync_server.Map.Laws.{get-put, get-erase}
use sync_server.Password.{hash_password}
use sync_server.Store.{User}
use sync_server.Handler.State.{UserInfo, State, Server}
use sync_server.Handler.Password.{verify_password, verify_password-get}
use sync_server.Handler.Register.{
  config_doc, handle_register, read_register, register_with, create_account, hashed,
}

module _ {S : Type 0} (sv : Server S) where
  -- A registration that is well formed, and whose email is not in the map.
  pub record IsNew (request email password hash : Bytes) (s : State S) : Type 0 where
    pub parsed : read_register sv request s ≡ (ok (some email, some password), s)
    pub address : verify_email email ≡ true
    pub hashes : hash_password sv.digest password ≡ some hash
    pub unknown : get email s.user_infos ≡ none

  abbrev pub new_user : Bytes → Bytes → User
  new_user email hash = record {
    account_uuid = email;
    account_password = hash;
    account_last_sync = pos 1;
  }

  abbrev pub new_info : Bytes → Bytes → ℤ → UserInfo
  new_info email hash now = record { user = new_user email hash; lock_time = now; cv_vector = [] }

  -- The user's entry in the map, and the store as it is after the call.
  abbrev pub with_user : Bytes → Bytes → ℤ → State S → S → State S
  with_user email hash now s t = record {
    user_infos = put email (new_info email hash now) s.user_infos;
    store = t;
  }

  module _ (request email password hash : Bytes) (s : State S) (now : ℤ)
      (new : IsNew request email password hash s) where
    to_register_with : handle_register sv now request s ≡ register_with sv now email password s
    unfolding handle_register
    to_register_with = rw (new.parsed, handle_register) (rw (new.address))

    abbrev answered : Outcome Bool → S → Outcome Bytes × State S
    answered (ok true) t =
        (ok (sv.stringify_config (config_doc sv email password)), with_user email hash now s t)
    answered (ok false) t = (
      err (http_error http_500),
      record { user_infos = erase email (with_user email hash now s t).user_infos; store = t },
    )
    answered (err e) t = (err e, with_user email hash now s t)

    hashed_ok : hashed sv password ≡ ok hash
    unfolding hashed
    hashed_ok = rw (new.hashes, hashed)

    abbrev account_created : Outcome Bool → S → Outcome (Unit {0}) × State S
    account_created (ok true) t = (ok tt, with_user email hash now s t)
    account_created (ok false) t = (
      err (http_error http_500),
      record { user_infos = erase email (with_user email hash now s t).user_infos; store = t },
    )
    account_created (err e) t = (err e, with_user email hash now s t)

    create_account_answered :
        (r : Outcome Bool) (t : S)
        → sv.data_store.create_user (new_user email hash) s.store ≡ (r, t)
        → create_account sv (new_user email hash) now s ≡ account_created r t
    unfolding create_account
    create_account_answered (ok true) t e = rw (new.unknown, create_account) (rw e)
    create_account_answered (ok false) t e = rw (new.unknown, create_account) (rw e)
    create_account_answered (err x) t e = rw (new.unknown, create_account) (rw e)

    finished :
        (r : Outcome Bool) (t : S)
        → continue
            (account_created r t).0
            (λ _. pure (sv.stringify_config (config_doc sv email password)))
            (account_created r t).1
          ≡ answered r t
    finished (ok true) t = refl
    finished (ok false) t = refl
    finished (err x) t = refl

    register_answered :
        (r : Outcome Bool) (t : S)
        → sv.data_store.create_user (new_user email hash) s.store ≡ (r, t)
        → handle_register sv now request s ≡ answered r t
    unfolding register_with
    register_answered r t e =
        to_register_with
        ∙ rw (hashed_ok, register_with) (rw (create_account_answered r t e) (finished r t))

    -- The password of the registration is accepted from then on.
    user_verified :
        (t : S)
        → verify_password sv.digest
            (with_user email hash now s t).user_infos
            (some email)
            (some password)
          ≡ ok true
    user_verified t =
        verify_password-get sv.digest (with_user email hash now s t).user_infos email password hash
          (new_info email hash now) (rw (get-put, beq_refl)) new.hashes refl

    -- The store creates the user: the reply is the settings document, the password is accepted from
    -- then on, and no other user's entry changes.
    pub register_created :
        (t : S)
        → sv.data_store.create_user (new_user email hash) s.store ≡ (ok true, t)
        → (handle_register sv now request s ≡ (
          ok (sv.stringify_config (config_doc sv email password)),
          with_user email hash now s t,
        ))
          × (verify_password sv.digest
                (with_user email hash now s t).user_infos
                (some email)
                (some password)
              ≡ ok true)
          × ((j : Bytes)
              → beq email j ≡ false
              → get j (with_user email hash now s t).user_infos ≡ get j s.user_infos)
    register_created t e =
        (register_answered (ok true) t e, user_verified t, λ j other. rw (get-put, other))

    -- The store answers that it could not: the reply is 500, and every user's entry is what it was.
    pub register_refused :
        (t : S)
        → sv.data_store.create_user (new_user email hash) s.store ≡ (ok false, t)
        → ((handle_register sv now request s).0 ≡ err (http_error http_500))
          × ((j : Bytes)
              → get j (handle_register sv now request s).1.user_infos ≡ get j s.user_infos)
    register_refused t e = (
      ap (λ r. r.0) (register_answered (ok false) t e),
      λ j.
          rw (register_answered (ok false) t e)
            (rw (get-erase, get-put) (ground (arith, beq_iff email j, new.unknown))),
    )

    -- The store throws: the exception passes on, and the user stays in the map.
    pub register_thrown_state :
        (x : Exn) (t : S)
        → sv.data_store.create_user (new_user email hash) s.store ≡ (err x, t)
        → handle_register sv now request s ≡ (err x, with_user email hash now s t)
    register_thrown_state x t e = register_answered (err x) t e

    -- The password is then accepted, although the store has not confirmed the account.
    pub register_thrown :
        (x : Exn) (t : S)
        → sv.data_store.create_user (new_user email hash) s.store ≡ (err x, t)
        → ((handle_register sv now request s).0 ≡ err x)
          × (verify_password sv.digest
                (handle_register sv now request s).1.user_infos
                (some email)
                (some password)
              ≡ ok true)
    register_thrown x t e = (
      ap (λ r. r.0) (register_answered (err x) t e),
      rw (register_answered (err x) t e) (user_verified t),
    )

  module _ (request email password hash : Bytes) (s : State S) (now : ℤ) (info : UserInfo)
      (parsed : read_register sv request s ≡ (ok (some email, some password), s))
      (address : verify_email email ≡ true) (hashes : hash_password sv.digest password ≡ some hash)
      (known : get email s.user_infos ≡ some info) where
    known_hashed : hashed sv password ≡ ok hash
    unfolding hashed
    known_hashed = rw (hashes, hashed)

    account_known : create_account sv (new_user email hash) now s ≡ (err (http_error http_500), s)
    unfolding create_account
    account_known = rw (known, create_account) refl

    -- A user who is in the map is not registered again.
    pub register_known : handle_register sv now request s ≡ (err (http_error http_500), s)
    unfolding handle_register register_with
    register_known =
        rw (parsed, handle_register)
          (rw address (rw (known_hashed, register_with) (rw account_known refl)))
