-- ===== src/Sync/Converge.antt =====
-- What both sides have after the two requests of a synchronisation.
use mathlib.Core.List.{append-nil}
use sync_server.Base.{
  ◌≡◌, inl, inr, refl, sym, ap, ◌∙◌, Bool, true, false, ◌&&◌, ◌||◌, Option, none, some, List, [],
  ◌∷◌, ◌++◌, arith, Bytes, beq, beq_iff, ℤ, pos, negsuc, ltb_ℤ, if◌then◌else◌, All, Bool-cases,
}
use sync_server.Map.{Map, get, erase}
use sync_server.Map.Laws.{get-erase}
use sync_server.Store.{Account}
use sync_server.Sync.{Entry, SyncDoc, entry_of, send_rest}
use sync_server.Sync.Reconcile.{
  rounds, rounds_lem, Request, Fresh, Distinct, wanted, returned, unnamed, wanted_one, returned_one,
  is_wanted, is_returned,
}
use sync_server.Sync.Reading.{entries, send_rest-eq}

-- The time that a client has for a name.
abbrev pub time_in : Bytes → Request → Option ℤ
time_in name [] = none
time_in name ((n, t) ∷ request) = if beq n name then some t else time_in name request

abbrev pub named : Bytes → List Bytes → Bool
named name [] = false
named name (n ∷ names) = beq n name || named name names

abbrev pub time_of : Option Account → Option ℤ
time_of none = none
time_of (some a) = some a.update_time

abbrev pub or_else : Option ℤ → Option ℤ → Option ℤ
or_else none b = b
or_else (some a) b = some a

-- The time of the first entry for a name.
abbrev pub entry_time : Bytes → List Entry → Option ℤ
entry_time name [] = none
entry_time name (e ∷ es) =
    if beq e.account_name name then some e.update_time else entry_time name es

-- The newer of two times, where there are two.
abbrev pub newest : Option ℤ → Option ℤ → Option ℤ
newest none b = b
newest (some a) none = some a
newest (some a) (some b) = if ltb_ℤ a b then some b else some a

abbrev is_asked : Option ℤ → Option Account → Bool
is_asked none o = false
is_asked (some t) o = is_wanted t o

abbrev sent_back : Option ℤ → Option Account → Option ℤ
sent_back none o = none
sent_back (some t) none = none
sent_back (some t) (some a) = if is_returned t a then some a.update_time else none

abbrev left : Option ℤ → Option Account → Option Account
left none o = o
left (some t) o = none

left-if :
    (b : Bool) (s : Option ℤ) (t : ℤ) (o : Option Account)
    → left s (if b then none else o) ≡ left (if b then some t else s) o
left-if true none t o = refl
left-if true (some s) t o = refl
left-if false s t o = refl

get-unnamed :
    (request : Request) (accounts : Map Account) (name : Bytes)
    → get name (unnamed accounts request) ≡ left (time_in name request) (get name accounts)
unfolding unnamed
get-unnamed [] accounts name = refl
get-unnamed ((n, t) ∷ request) accounts name =
    get-unnamed request (erase n accounts) name
    ∙ ap (left (time_in name request)) (get-erase n name accounts)
    ∙ left-if (beq n name) (time_in name request) t (get name accounts)

time_in-Fresh :
    (name : Bytes) (request : Request) → Fresh name request → time_in name request ≡ none
time_in-Fresh name [] h = refl
time_in-Fresh name ((n, t) ∷ request) h =
    ground (arith, time_in-Fresh name request h.1, beq_iff n name, beq_iff name n)

named-wanted_one :
    (name n : Bytes) (t : ℤ) (o : Option Account) (names : List Bytes)
    → named name (wanted_one n t o names) ≡ (beq n name && is_wanted t o) || named name names
named-wanted_one name n t o names = ground arith

named-wanted :
    (request : Request) (accounts : Map Account) (name : Bytes)
    → Distinct request
    → named name (wanted accounts request) ≡ is_asked (time_in name request) (get name accounts)
unfolding wanted
named-wanted [] accounts name h = refl
named-wanted ((n, t) ∷ request) accounts name h =
    named-wanted_one name n t (get n accounts) (wanted accounts request)
    ∙ ap (λ b. (beq n name && is_wanted t (get n accounts)) || b)
        (named-wanted request accounts name h.1)
    ∙ elim (Bool-cases (beq n name)) [
      | inl e ↦
          let same : n ≡ name = (beq_iff n name).0 e in
          rw (e, sym same, time_in-Fresh n request h.0) (ground arith)
      | inr e ↦ rw e
    ]

entry_time-returned_one :
    (name n : Bytes) (t : ℤ) (o : Option Account) (es : List Entry)
    → entry_time name (returned_one n t o es) ≡ (
        if beq n name
        then or_else (sent_back (some t) o) (entry_time name es)
        else entry_time name es)
unfolding entry_of
entry_time-returned_one name n t none es = ground arith
entry_time-returned_one name n t (some a) es = ground arith

or_else-none : (a : Option ℤ) → or_else a none ≡ a
or_else-none none = refl
or_else-none (some t) = refl

entry_time-returned :
    (request : Request) (accounts : Map Account) (name : Bytes)
    → Distinct request
    → entry_time name (returned accounts request)
      ≡ sent_back (time_in name request) (get name accounts)
unfolding returned
entry_time-returned [] accounts name h = refl
entry_time-returned ((n, t) ∷ request) accounts name h =
    entry_time-returned_one name n t (get n accounts) (returned accounts request)
    ∙ ap (λ s. if beq n name then or_else (sent_back (some t) (get n accounts)) s else s)
        (entry_time-returned request accounts name h.1)
    ∙ elim (Bool-cases (beq n name)) [
      | inl e ↦
          let same : n ≡ name = (beq_iff n name).0 e in
          rw (e, sym same, time_in-Fresh n request h.0)
            (or_else-none (sent_back (some t) (get n accounts)))
      | inr e ↦ rw e
    ]

-- Every account of the store stands under its own name.
abbrev pub IsKeyed : Map Account → Type 0
IsKeyed = All (λ p. p.1.account_name ≡ p.0)

erase-IsKeyed : (n : Bytes) (m : Map Account) → IsKeyed m → IsKeyed (erase n m)
unfolding erase
erase-IsKeyed n [] h = tt
erase-IsKeyed n ((k, a) ∷ m) h = elim (Bool-cases (beq k n)) [
  | inl e ↦ rw e (erase-IsKeyed n m h.1)
  | inr e ↦ rw e (h.0, erase-IsKeyed n m h.1)
]

unnamed-IsKeyed : (request : Request) (m : Map Account) → IsKeyed m → IsKeyed (unnamed m request)
unfolding unnamed
unnamed-IsKeyed [] m h = h
unnamed-IsKeyed ((n, t) ∷ request) m h = unnamed-IsKeyed request (erase n m) (erase-IsKeyed n m h)

entry_time-append :
    (name : Bytes) (xs ys : List Entry)
    → entry_time name (xs ++ ys) ≡ or_else (entry_time name xs) (entry_time name ys)
entry_time-append name [] ys = refl
entry_time-append name (e ∷ xs) ys = ground (arith, entry_time-append name xs ys)

entry_time-entries :
    (name : Bytes) (m : Map Account)
    → IsKeyed m
    → entry_time name (entries m) ≡ time_of (get name m)
unfolding entries get entry_of
entry_time-entries name [] h = refl
entry_time-entries name ((k, a) ∷ m) h =
    let rest = entry_time-entries name m h.1 in rw h.0 (ground arith)

-- The reply of the code's loop and of what follows it, from a document with empty lists.
abbrev pub reply_to : ℤ → Request → Map Account → SyncDoc
reply_to now request accounts =
    let p = rounds request (
      accounts,
      record {
        response_code = pos 0;
        lock_time = now;
        send_accounts_to_server_list = [];
        accounts_to_send_back_to_client = [];
      },
    ) in
    send_rest p.0 p.1

reply_to-eq :
    (now : ℤ) (request : Request) (accounts : Map Account)
    → Distinct request
    → reply_to now request accounts ≡ record {
      response_code = pos 0;
      lock_time = now;
      send_accounts_to_server_list = wanted accounts request;
      accounts_to_send_back_to_client =
          returned accounts request ++ entries (unnamed accounts request);
    }
reply_to-eq now request accounts distinct =
    ap (λ p. send_rest p.0 p.1) (rounds_lem request accounts _ distinct)
    ∙ send_rest-eq (unnamed accounts request) _
    ∙ rw (append-nil (wanted accounts request))

-- What the client has for a name, when it has taken over what the reply sends back.
abbrev pub client_after : Bytes → Request → SyncDoc → Option ℤ
client_after name request reply =
    or_else (entry_time name reply.accounts_to_send_back_to_client) (time_in name request)

-- What the server has for it, when the client's second request has brought what the reply asks for.
abbrev pub server_after : Bytes → Request → Map Account → SyncDoc → Option ℤ
server_after name request accounts reply =
    if named name reply.send_accounts_to_server_list
    then time_in name request
    else time_of (get name accounts)

client_newest :
    (s : Option ℤ) (o : Option Account)
    → or_else (or_else (sent_back s o) (time_of (left s o))) s ≡ newest s (time_of o)
client_newest none none = refl
client_newest none (some a) = refl
client_newest (some t) none = refl
client_newest (some t) (some a) = ground arith

ltb_ℤ-antisym : (a b : ℤ) → ltb_ℤ a b ≡ false → ltb_ℤ b a ≡ false → a ≡ b
ltb_ℤ-antisym (pos m) (pos n) h k = ap pos (ground arith)
ltb_ℤ-antisym (pos m) (negsuc n) h k = absurd (ground arith)
ltb_ℤ-antisym (negsuc m) (pos n) h k = absurd (ground arith)
ltb_ℤ-antisym (negsuc m) (negsuc n) h k = ap negsuc (ground arith)

ltb_ℤ-asym : (a b : ℤ) → ltb_ℤ a b ≡ true → ltb_ℤ b a ≡ false
ltb_ℤ-asym a b h = ground arith

server_newest :
    (s : Option ℤ) (o : Option Account)
    → (if is_asked s o then s else time_of o) ≡ newest s (time_of o)
server_newest none none = refl
server_newest none (some a) = refl
server_newest (some t) none = refl
server_newest (some t) (some a) =
    ground (arith, ltb_ℤ-asym t a.update_time, ltb_ℤ-antisym t a.update_time)

client_newest_reply :
    (request : Request) (accounts : Map Account) (name : Bytes)
    → Distinct request
    → IsKeyed accounts
    → or_else
        (entry_time name (returned accounts request ++ entries (unnamed accounts request)))
        (time_in name request)
      ≡ newest (time_in name request) (time_of (get name accounts))
client_newest_reply request accounts name distinct keyed =
    let s = time_in name request in
    let o = get name accounts in
    ap (λ x. or_else x s)
      (entry_time-append name (returned accounts request) (entries (unnamed accounts request))
        ∙ ap (λ x. or_else x (entry_time name (entries (unnamed accounts request))))
            (entry_time-returned request accounts name distinct)
        ∙ ap (or_else (sent_back s o)) (
            entry_time-entries name (unnamed accounts request)
              (unnamed-IsKeyed request accounts keyed)
            ∙ ap time_of (get-unnamed request accounts name)))
    ∙ client_newest s o

-- After both requests, client and server have one time for every name: the newest of the two that
-- they had, or the one that only one side had. The store's accounts stand under their names, the
-- client names no account twice, and each side has taken over what the other sent.
pub sides_agree :
    (now : ℤ) (request : Request) (accounts : Map Account) (name : Bytes)
    → Distinct request
    → IsKeyed accounts
    → (client_after name request (reply_to now request accounts)
        ≡ newest (time_in name request) (time_of (get name accounts)))
      × (server_after name request accounts (reply_to now request accounts)
          ≡ newest (time_in name request) (time_of (get name accounts)))
sides_agree now request accounts name distinct keyed =
    let reply = reply_to-eq now request accounts distinct in
    (
      ap (client_after name request) reply
          ∙ client_newest_reply request accounts name distinct keyed,
      ap (server_after name request accounts) reply
          ∙ ap (λ b. if b then time_in name request else time_of (get name accounts))
              (named-wanted request accounts name distinct)
          ∙ server_newest (time_in name request) (get name accounts),
    )
