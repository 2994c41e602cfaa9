-- ===== src/Sync/Reading.antt =====
-- The rounds on a document that holds the names and times.
use mathlib.Core.List.{append-nil, append_assoc}
use sync_server.Base.{
  ℕ, ◌+◌, ◌≡◌, refl, ap, ◌∙◌, Option, none, some, List, [], ◌∷◌, Bytes, ℤ, length,
}
use sync_server.Exec.{ok, then_with}
use sync_server.Json.{JsonLib}
use sync_server.Map.{Map, get}
use sync_server.Store.{Account}
use sync_server.Sync.{
  Entry, SyncDoc, Progress, round, name_path, time_path, read_time, read_round, read_rounds,
  send_rest, entry_of,
}
use sync_server.Sync.Reconcile.{Request, rounds, extend}

-- The entries for a map's accounts, in the order of the map.
unfoldable pub entries : Map Account → List Entry
entries [] = []
entries ((key, a) ∷ rest) = entry_of a.account_name a ∷ entries rest

pub send_rest-eq : (m : Map Account) (d : SyncDoc) → send_rest m d ≡ extend d [] (entries m)
unfolding send_rest entries
send_rest-eq [] d =
    rw (append-nil d.send_accounts_to_server_list, append-nil d.accounts_to_send_back_to_client)
send_rest-eq ((key, a) ∷ rest) d =
    send_rest-eq rest _
    ∙ rw (
      append-nil d.send_accounts_to_server_list,
      append_assoc d.accounts_to_send_back_to_client (entry_of a.account_name a ∷ [])
          (entries rest),
    )

module _ (lib : JsonLib) (doc : lib.Doc) where
  -- From index `i` on, the array `/accounts` of the document holds these names and times.
  abbrev pub Holds : ℕ → Request → Type 0
  Holds i [] = Unit {0}
  Holds i ((name, time) ∷ request) =
      (lib.get_string_value doc (name_path i) ≡ some (some name))
      × (lib.get_long_value doc (time_path i) ≡ some time)
      × Holds (i + 1) request

  round_absent :
      (name : Bytes) (s t : ℤ) (accounts : Map Account) (d : SyncDoc)
      → get name accounts ≡ none
      → round name s (accounts, d) ≡ round name t (accounts, d)
  unfolding round
  round_absent name s t accounts d e = rw (e, round)

  timed_round :
      (i : ℕ) (name : Bytes) (time : ℤ) (accounts : Map Account) (d : SyncDoc) (o : Option Account)
      → get name accounts ≡ o
      → lib.get_long_value doc (time_path i) ≡ some time
      → then_with (read_time lib doc i o) (λ s. ok (round name s (accounts, d)))
        ≡ ok (round name time (accounts, d))
  unfolding read_time
  timed_round i name time accounts d none e t =
      ap ok (round_absent name (ℤ.pos 0) time accounts d e)
  timed_round i name time accounts d (some a) e t = rw t

  read_round-round :
      (i : ℕ) (name : Bytes) (time : ℤ) (p : Progress)
      → lib.get_string_value doc (name_path i) ≡ some (some name)
      → lib.get_long_value doc (time_path i) ≡ some time
      → read_round lib doc i p ≡ ok (round name time p)
  unfolding read_round
  read_round-round i name time (accounts, d) n t =
      rw (n, read_round) (timed_round i name time accounts d (get name accounts) refl t)

  pub read_rounds-rounds :
      (request : Request) (i : ℕ) (p : Progress)
      → Holds i request
      → read_rounds lib doc (length request) i p ≡ ok (rounds request p)
  unfolding read_rounds rounds
  read_rounds-rounds [] i p h = refl
  read_rounds-rounds ((name, time) ∷ request) i p h =
      rw (read_round-round i name time p h.0 h.1)
        (read_rounds-rounds request (i + 1) (round name time p) h.2)
