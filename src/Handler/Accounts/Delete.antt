-- ===== src/Handler/Accounts/Delete.antt =====
-- What `handle_delete` leaves in the map of users, on each answer of the store.
use sync_server.Base.{◌≡◌, refl, Bool, true, false, Option, some, Bytes, beq, beq_refl, ◌∙◌}
use sync_server.Exec.{Outcome, Exn, ok, err, http_error}
use sync_server.Http.{http_500}
use sync_server.Map.{get, erase}
use sync_server.Map.Laws.{get-erase}
use sync_server.Handler.State.{UserInfo, State, Server}
use sync_server.Handler.Password.{verify_password, verify_password_unknown}
use sync_server.Handler.Accounts.{
  read_request, user_of, delete_account, handle_delete, account_deleted,
}

module _ {S : Type 0} (sv : Server S) where
  -- A request to delete a user of the map, with the right password.
  pub record IsDeletion (request email : Bytes) (info : UserInfo) (s : State S) : Type 0 where
    pub doc : sv.lib.Doc
    pub password : Option Bytes
    pub parsed : read_request sv request ≡ ok (doc, some email, password)
    pub known : get email s.user_infos ≡ some info
    pub verified : verify_password sv.digest s.user_infos (some email) password ≡ ok true

  module _ (request email : Bytes) (info : UserInfo) (s : State S)
      (d : IsDeletion request email info s) where
    abbrev answered : Outcome Bool → S → Outcome Bytes × State S
    answered (ok true) t =
        (ok account_deleted, record { user_infos = erase email s.user_infos; store = t })
    answered (ok false) t = (err (http_error http_500), record s { store = t })
    answered (err e) t = (err e, record s { store = t })

    user_known : user_of s.user_infos (some email) ≡ ok info.user
    unfolding user_of
    user_known = rw (d.known, user_of)

    delete_account-answered :
        (r : Outcome Bool) (t : S)
        → sv.data_store.delete_user info.user s.store ≡ (r, t)
        → delete_account sv (some email) s ≡ answered r t
    unfolding delete_account
    delete_account-answered (ok true) t e = rw (user_known, delete_account) (rw e)
    delete_account-answered (ok false) t e = rw (user_known, delete_account) (rw e)
    delete_account-answered (err x) t e = rw (user_known, delete_account) (rw e)

    to_delete_account : handle_delete sv request s ≡ delete_account sv (some email) s
    unfolding handle_delete
    to_delete_account = rw (d.parsed, handle_delete) (rw d.verified)

    pub handle_delete-deleted :
        (t : S)
        → sv.data_store.delete_user info.user s.store ≡ (ok true, t)
        → handle_delete sv request s
          ≡ (ok account_deleted, record { user_infos = erase email s.user_infos; store = t })
    handle_delete-deleted t e = to_delete_account ∙ delete_account-answered (ok true) t e

    -- The store deletes the user: from then on no password of that user is accepted, and no other
    -- user's entry has changed.
    pub delete_succeeds :
        (t : S)
        → sv.data_store.delete_user info.user s.store ≡ (ok true, t)
        → let s' = (handle_delete sv request s).1 in
          ((handle_delete sv request s).0 ≡ ok account_deleted)
          × ((pw : Option Bytes)
              → verify_password sv.digest s'.user_infos (some email) pw ≡ ok false)
          × ((j : Bytes) → beq email j ≡ false → get j s'.user_infos ≡ get j s.user_infos)
    delete_succeeds t e =
        rw (to_delete_account, delete_account-answered (ok true) t e)
          (
            refl,
            λ pw.
                verify_password_unknown sv.digest (erase email s.user_infos) email pw
                  (rw (get-erase, beq_refl)),
            λ j other. rw (get-erase, other),
          )

    -- The store does not, or throws: the request fails, with 500 or with the exception, and the map
    -- of users is unchanged.
    pub delete_fails :
        (t : S)
        → (sv.data_store.delete_user info.user s.store ≡ (ok false, t)
            → handle_delete sv request s ≡ (err (http_error http_500), record s { store = t }))
          × ((x : Exn)
              → sv.data_store.delete_user info.user s.store ≡ (err x, t)
              → handle_delete sv request s ≡ (err x, record s { store = t }))
    delete_fails t = (
      λ e. to_delete_account ∙ delete_account-answered (ok false) t e,
      λ x e. to_delete_account ∙ delete_account-answered (err x) t e,
    )
