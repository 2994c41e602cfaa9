-- ===== src/Sync/Reconcile.antt =====
-- The loop over a map that it shortens, against lists that are read off the store's accounts.
use mathlib.Core.List.{append-nil, append_assoc}
use sync_server.Base.{
  ◌≡◌, refl, ap, ◌∙◌, Bool, true, false, Option, none, some, List, [], ◌∷◌, ◌++◌, arith, Bytes, beq,
  ℤ, ltb_ℤ, if◌then◌else◌, All, Option-cases, inl, inr,
}
use sync_server.Map.{Map, get, erase}
use sync_server.Map.Laws.{get-erase, erase_absent}
use sync_server.Store.{Account}
use sync_server.Sync.{Entry, SyncDoc, Progress, entry_of, ask_for, compare_times, round}

abbrev pub Request : Type 0
Request = List (Bytes × ℤ)

-- The loop, once the names and times are read.
unfoldable pub rounds : Request → Progress → Progress
rounds [] p = p
rounds ((name, time) ∷ request) p = rounds request (round name time p)

-- No name of the request is `name`.
abbrev pub Fresh : Bytes → Request → Type 0
Fresh name = All (λ c. beq name c.0 ≡ false)

abbrev pub Distinct : Request → Type 0
Distinct [] = Unit {0}
Distinct ((name, time) ∷ request) = Fresh name request × Distinct request

-- The client's version is the newer one, or the only one.
abbrev pub is_wanted : ℤ → Option Account → Bool
is_wanted time none = true
is_wanted time (some a) = ltb_ℤ a.update_time time

-- The server's version is the newer one.
abbrev pub is_returned : ℤ → Account → Bool
is_returned time a = ltb_ℤ time a.update_time

abbrev pub wanted_one : Bytes → ℤ → Option Account → List Bytes → List Bytes
wanted_one name time a names = if is_wanted time a then name ∷ names else names

abbrev pub returned_one : Bytes → ℤ → Option Account → List Entry → List Entry
returned_one name time none entries = entries
returned_one name time (some a) entries =
    if is_returned time a then entry_of name a ∷ entries else entries

-- The names whose newest version the client has.
unfoldable pub wanted : Map Account → Request → List Bytes
wanted accounts [] = []
wanted accounts ((name, time) ∷ request) =
    wanted_one name time (get name accounts) (wanted accounts request)

-- The accounts that client and server have, with the server's version newer.
unfoldable pub returned : Map Account → Request → List Entry
returned accounts [] = []
returned accounts ((name, time) ∷ request) =
    returned_one name time (get name accounts) (returned accounts request)

-- The accounts that the client does not name.
unfoldable pub unnamed : Map Account → Request → Map Account
unnamed accounts [] = accounts
unnamed accounts ((name, time) ∷ request) = unnamed (erase name accounts) request

abbrev pub extend : SyncDoc → List Bytes → List Entry → SyncDoc
extend d names entries = record d {
  send_accounts_to_server_list = d.send_accounts_to_server_list ++ names;
  accounts_to_send_back_to_client = d.accounts_to_send_back_to_client ++ entries;
}

wanted-erase :
    (name : Bytes) (accounts : Map Account) (request : Request)
    → Fresh name request
    → wanted (erase name accounts) request ≡ wanted accounts request
unfolding wanted
wanted-erase name accounts [] fresh = refl
wanted-erase name accounts ((n, t) ∷ request) fresh =
    rw (get-erase name n accounts, fresh.0)
      (ap (wanted_one n t (get n accounts)) (wanted-erase name accounts request fresh.1))

returned-erase :
    (name : Bytes) (accounts : Map Account) (request : Request)
    → Fresh name request
    → returned (erase name accounts) request ≡ returned accounts request
unfolding returned
returned-erase name accounts [] fresh = refl
returned-erase name accounts ((n, t) ∷ request) fresh =
    rw (get-erase name n accounts, fresh.0)
      (ap (returned_one n t (get n accounts)) (returned-erase name accounts request fresh.1))

compare_times-eq :
    (name : Bytes) (time : ℤ) (a : Account) (d : SyncDoc)
    → compare_times name time a d
      ≡ extend d (wanted_one name time (some a) []) (returned_one name time (some a) [])
unfolding compare_times
compare_times-eq name time a d =
    ground (
      arith,
      append-nil d.send_accounts_to_server_list,
      append-nil d.accounts_to_send_back_to_client,
    )

-- One round, read off the account of that name.
round-eq :
    (name : Bytes) (time : ℤ) (accounts : Map Account) (d : SyncDoc)
    → round name time (accounts, d) ≡ (
      erase name accounts,
      extend d
          (wanted_one name time (get name accounts) [])
          (returned_one name time (get name accounts) []),
    )
unfolding round ask_for
round-eq name time accounts d = elim (Option-cases (get name accounts)) [
  | inl e ↦
      rw (e, round)
        (rw (erase_absent name accounts e, append-nil d.accounts_to_send_back_to_client))
  | inr (a, e) ↦ rw (e, round) (rw (compare_times-eq name time a d))
]

wanted_one-append :
    (name : Bytes) (time : ℤ) (o : Option Account) (names : List Bytes)
    → wanted_one name time o [] ++ names ≡ wanted_one name time o names
wanted_one-append name time o names = ground arith

returned_one-append :
    (name : Bytes) (time : ℤ) (o : Option Account) (entries : List Entry)
    → returned_one name time o [] ++ entries ≡ returned_one name time o entries
returned_one-append name time o entries = ground arith

pub extend-extend :
    (d : SyncDoc) (ns ms : List Bytes) (es fs : List Entry)
    → extend (extend d ns es) ms fs ≡ extend d (ns ++ ms) (es ++ fs)
extend-extend d ns ms es fs = rw (
  append_assoc d.send_accounts_to_server_list ns ms,
  append_assoc d.accounts_to_send_back_to_client es fs,
)

-- On a request that names no account twice, the loop finds what the store's accounts, as they
-- were before it, say of each name, in the order of the request.
pub rounds_lem :
    (request : Request) (accounts : Map Account) (d : SyncDoc)
    → Distinct request
    → rounds request (accounts, d)
      ≡ (unnamed accounts request, extend d (wanted accounts request) (returned accounts request))
unfolding rounds unnamed wanted returned
rounds_lem [] accounts d h =
    rw (append-nil d.send_accounts_to_server_list, append-nil d.accounts_to_send_back_to_client)
rounds_lem ((name, time) ∷ request) accounts d h = rw (round-eq name time accounts d) (
    rounds_lem request (erase name accounts) _ h.1
    ∙ ap (λ e. (unnamed (erase name accounts) request, e))
        (rw (
          wanted-erase name accounts request h.0,
          returned-erase name accounts request h.0,
          extend-extend d (wanted_one name time (get name accounts) []) (wanted accounts request),
          wanted_one-append,
          returned_one-append,
        )))
