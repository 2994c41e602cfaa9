-- ===== src/Service/Lifecycle.antt =====
-- A user's registration and deletion, from the bytes of the two requests to the two replies.
mod Tests
use sync_server.Base.{
  ◌≡◌, refl, ◌∙◌, sym, Bool, true, false, Option, none, some, List, Bytes, beq, beq_iff, beq_refl,
  Bool-cases, inl, inr, if◌then◌else◌,
}
use sync_server.Exec.{ok, Outcome}
use sync_server.Http.{http_200, keep_alive, build_reply}
use sync_server.Map.{Map, get, put, erase}
use sync_server.Map.Laws.{get-erase, get-put, get-put_same}
use sync_server.Handler.State.{State, Server, UserInfo}
use sync_server.Handler.Register.{config_doc, handle_register}
use sync_server.Handler.Register.Outcomes.{IsNew, new_user, new_info, with_user, register_created}
use sync_server.Handler.Accounts.{read_request, handle_delete, account_deleted}
use sync_server.Handler.Accounts.Delete.{IsDeletion, handle_delete-deleted}
use sync_server.Handler.Dispatch.{Now, post, register_config, delete_user, dispatch, handle_request}
use sync_server.Request.Receive.{Read}
use sync_server.Service.Whole.{Sent, serve_sent}
use sync_server.Service.Thread.{Served, written, reply_with, serve}

-- A new entry that is taken out again.
get_after :
    (email j : Bytes) (v : UserInfo) (m : Map UserInfo)
    → get email m ≡ none
    → get j (erase email (put email v m)) ≡ get j m
get_after email j v m unknown = elim (Bool-cases (beq email j)) [
  | inl same ↦
      rw (get-erase email j (put email v m), same) (rw ((beq_iff email j).0 same) at (sym unknown))
  | inr other ↦ rw (get-erase email j (put email v m), other) (rw (get-put email j v m, other) refl)
]

module _ {S : Type 0} (sv : Server S) where
  reply_ok :
      (m : Bytes) (s : State S)
      → reply_with sv (ok m, s) ≡ (written (build_reply http_200 keep_alive (some m)), s)
  unfolding reply_with
  reply_ok m s = refl

  registered :
      (now : Now) (request m : Bytes) (s t : State S)
      → handle_register sv now.ms request s ≡ (ok m, t)
      → handle_request sv now register_config request post s ≡ (ok m, t)
  unfolding handle_request dispatch
  registered now request m s t e = rw e refl

  deleted :
      (now : Now) (request m : Bytes) (s t : State S)
      → handle_delete sv request s ≡ (ok m, t)
      → handle_request sv now delete_user request post s ≡ (ok m, t)
  unfolding handle_request dispatch
  deleted now request m s t e = rw e refl

  module _ (email password hash : Bytes) (s : State S) (now later : Now) where
    abbrev known : S → State S
    known t = with_user sv email hash now.ms s t

    abbrev gone : S → S → State S
    gone t u = record { user_infos = erase email (known t).user_infos; store = u }

    -- A new user registers, and is deleted by a request with the same email and password, while the
    -- store accepts both: the first is answered with the settings document and the second as deleted,
    -- and every user's entry is afterwards what it was before.
    pub register_then_delete :
        (request request' : Bytes) (doc : sv.lib.Doc) (t u : S)
        (first second first' second' : List Read)
        → IsNew sv request email password hash s
        → read_request sv request' ≡ ok (doc, some email, some password)
        → sv.data_store.create_user (new_user sv email hash) s.store ≡ (ok true, t)
        → sv.data_store.delete_user (new_user sv email hash) t ≡ (ok true, u)
        → Sent register_config request first second
        → Sent delete_user request' first' second'
        → (serve sv true now first second s ≡ (
          written (
              build_reply http_200 keep_alive
                (some (sv.stringify_config (config_doc sv email password)))),
          known t,
        ))
          × (serve sv true later first' second' (known t)
              ≡ (written (build_reply http_200 keep_alive (some account_deleted)), gone t u))
          × ((j : Bytes) → get j (gone t u).user_infos ≡ get j s.user_infos)
    register_then_delete request request' doc t u first second first' second' new parsed created
          dropped sent sent' =
        let made = register_created sv request email password hash s now.ms new t created in
        (
          serve_sent sv now register_config request first second s sent
              ∙ rw (registered now request _ s (known t) made.0) (reply_ok _ (known t)),
          serve_sent sv later delete_user request' first' second' (known t) sent'
              ∙ rw
                  (deleted later request' _ (known t) (gone t u) (
                    handle_delete-deleted sv request' email (new_info sv email hash now.ms)
                      (known t)
                      (record {
                        doc = doc;
                        password = some password;
                        parsed = parsed;
                        known = get-put_same email (new_info sv email hash now.ms) s.user_infos;
                        verified = made.1;
                      })
                      u dropped))
                  (reply_ok _ (gone t u)),
          λ j. get_after email j (new_info sv email hash now.ms) s.user_infos new.unknown,
        )
