-- ===== src/Handler/Accounts/Initial.antt =====
-- The reply to an initial synchronisation.
use mathlib.Core.List.{append-nil}
use sync_server.Base.{◌≡◌, true, some, Option, ◌++◌, [], pos, Bytes, codes, ℤ, length, ap, ◌∙◌}
use sync_server.Exec.{ok, http_error, try}
use sync_server.Http.{http_400}
use sync_server.Map.{Map}
use sync_server.Store.{Account}
use sync_server.Sync.Reconcile.{
  Request, Distinct, rounds_lem, wanted, returned, unnamed, extend, extend-extend,
}
use sync_server.Sync.Reading.{Holds, entries, read_rounds-rounds, send_rest-eq}
use sync_server.Handler.State.{State, Server, json_to}
use sync_server.Handler.Password.{verify_password}
use sync_server.Handler.Accounts.{read_request, compare_accounts, handle_sync_initial, empty_doc}

module _ {S : Type 0} (sv : Server S) where
  -- A request with the right password, whose array holds these names and times.
  pub record IsInitial (request email : Bytes) (client : Request) (s : State S) : Type 0 where
    pub doc : sv.lib.Doc
    pub password : Option Bytes
    pub parsed : read_request sv request ≡ ok (doc, some email, password)
    pub verified : verify_password sv.digest s.user_infos (some email) password ≡ ok true
    pub counted : sv.lib.get_elements_count doc (codes "accounts") ≡ some (length client)
    pub holds : Holds sv.lib doc 0 client
    pub distinct : Distinct client

  module _ (now : ℤ) (request email : Bytes) (client : Request) (s : State S)
      (initial : IsInitial request email client s) where
    to_compare_accounts :
        handle_sync_initial sv now request s
        ≡ try (compare_accounts sv now initial.doc email) (json_to (http_error http_400)) s
    unfolding handle_sync_initial
    to_compare_accounts = rw (initial.parsed, handle_sync_initial) (rw initial.verified)

    compared :
        (accounts : Map Account) (t : S)
        → sv.data_store.get_accounts_for_user email s.store ≡ (ok accounts, t)
        → compare_accounts sv now initial.doc email s ≡ (
          ok (
              sv.stringify_sync (
                extend
                  (empty_doc now)
                  (wanted accounts client)
                  (returned accounts client ++ entries (unnamed accounts client)))),
          record s { store = t },
        )
    unfolding compare_accounts
    compared accounts t e =
        let looped =
          read_rounds-rounds sv.lib initial.doc client 0 (accounts, empty_doc now) initial.holds in
        rw (e, compare_accounts)
          (rw initial.counted (
            rw looped (
              rw (rounds_lem client accounts (empty_doc now) initial.distinct) (
                ap (λ d. (ok (sv.stringify_sync d), record s { store = t }))
                  (send_rest-eq (unnamed accounts client) _
                    ∙ extend-extend (empty_doc now) (wanted accounts client) []
                        (returned accounts client) (entries (unnamed accounts client))
                    ∙ rw (append-nil (wanted accounts client)))))))

    -- The reply asks for the names whose newest version the client has, and sends back the accounts
    -- of which the server has a newer version, in the order of the request, and behind them those
    -- that the request does not name. Versions of one time are left alone. The map of users is
    -- unchanged.
    pub handle_sync_initial_reply :
        (accounts : Map Account) (t : S)
        → sv.data_store.get_accounts_for_user email s.store ≡ (ok accounts, t)
        → handle_sync_initial sv now request s ≡ (
          ok (
              sv.stringify_sync (record {
                response_code = pos 0;
                lock_time = now;
                send_accounts_to_server_list = wanted accounts client;
                accounts_to_send_back_to_client =
                    returned accounts client ++ entries (unnamed accounts client);
              })),
          record s { store = t },
        )
    handle_sync_initial_reply accounts t e = to_compare_accounts ∙ rw (compared accounts t e)
