-- ===== src/Server/Clients/Owned.antt =====
-- The queue of server.cpp holds pointers into `conn_map`. A client has at most one place in the queue
-- or with a service thread, and while it has one its entry stays in the map, in use and open.
use mathlib.Core.Path.{subst}
use sync_server.Base.{
  ℕ, ◌+◌, ◌-◌, ◌≤◌, ◌≡◌, refl, Bool, true, false, not, ◌&&◌, ◌||◌, Option, none, some, List, [],
  ◌∷◌, ◌++◌, ◌==◌, ==_iff, ℤ, is_some, if◌then◌else◌, Bool-cases, inl, inr, arith,
}
use sync_server.Server.Sessions.{
  ConnMeta, ConnMap, find, remove, mem, is_closable, find-remove, close_clients_lem,
}
use sync_server.Server.Clients.{
  Clients, set_meta, meta_at, remove_one, add_client, hang_up, enqueue, look_at, close_named,
  answer, put_back, drop_client, is_free, Step, accept, fails_to_accept, drops_failed, select, look,
  name_stale, close_stale, take, answered, returned, dropped, Reach, begin, next,
}

unfoldable pub count : ℕ → List ℕ → ℕ
count j [] = 0
count j (x ∷ l) = (if x == j then 1 else 0) + count j l

-- In use by a thread or the queue, and open.
abbrev pub is_busy : Option ConnMeta → Bool
is_busy none = false
is_busy (some c) = c.active && is_some c.socket

abbrev is_sound : Option ConnMeta → Bool
is_sound none = true
is_sound (some c) = c.active || is_some c.socket

abbrev IsOwned : ℕ → Option ConnMeta → Type 0
IsOwned n o = (n ≤ (if is_busy o then 1 else 0)) × (is_sound o ≡ true)

-- The places of the client `j`.
abbrev pub places : ℕ → Clients → ℕ
places j s = count j s.service_q + count j s.serving

abbrev IsClients : Clients → Type 0
IsClients s = (j : ℕ) → IsOwned (places j s) (find j s.sessions.conn_map)

pub find-set_meta :
    (fd j : ℕ) (c : ConnMeta) (m : ConnMap)
    → find j (set_meta fd c m) ≡ (if fd == j then some c else find j m)
unfolding set_meta find
find-set_meta fd j c m = ground (arith, find-remove fd j m)

count-append : (j : ℕ) (l k : List ℕ) → count j (l ++ k) ≡ count j l + count j k
unfolding count
count-append j [] k = ground arith
count-append j (x ∷ l) k = ground (arith, count-append j l k)

count-remove_one :
    (fd j : ℕ) (l : List ℕ) → count j (remove_one fd l) ≡ count j l - (if fd == j then 1 else 0)
unfolding count remove_one
count-remove_one fd j [] = ground arith
count-remove_one fd j (x ∷ l) = ground (arith, count-remove_one fd j l)

count-mem : (fd : ℕ) (l : List ℕ) → mem fd l ≡ true → 1 ≤ count fd l
unfolding count mem
count-mem fd [] h = ground arith
count-mem fd (x ∷ l) h = ground (arith, count-mem fd l)

IsOwned-same :
    (n : ℕ → ℕ) (o : ℕ → Option ConnMeta) (fd j : ℕ)
    → fd ≡ j
    → IsOwned (n fd) (o fd)
    → IsOwned (n j) (o j)
IsOwned-same n o fd j e = subst (λ k. IsOwned (n k) (o k)) e

-- One client's entry is set or removed, and those of the others keep their places.
module _ (fd : ℕ) (m : ConnMap) (n n' : ℕ → ℕ) (inv : (j : ℕ) → IsOwned (n j) (find j m))
    (kept : (j : ℕ) → (fd == j) ≡ false → n' j ≡ n j) where
  set_meta-IsOwned :
      (c : ConnMeta)
      → IsOwned (n' fd) (some c)
      → (j : ℕ) → IsOwned (n' j) (find j (set_meta fd c m))
  set_meta-IsOwned c h j = elim (Bool-cases (fd == j)) [
    | inl e ↦
        rw (find-set_meta fd j c m, e) (IsOwned-same n' (λ k. some c) fd j ((==_iff fd j).0 e) h)
    | inr e ↦ rw (find-set_meta fd j c m, e, kept j e) (inv j)
  ]

  remove-IsOwned : n' fd ≡ 0 → (j : ℕ) → IsOwned (n' j) (find j (remove fd m))
  remove-IsOwned h j = elim (Bool-cases (fd == j)) [
    | inl e ↦
        rw (find-remove fd j m, e)
          (IsOwned-same n' (λ k. none) fd j ((==_iff fd j).0 e) (rw h (omega arith, refl)))
    | inr e ↦ rw (find-remove fd j m, e, kept j e) (inv j)
  ]

closed_idle :
    (active : Bool) (socket : Option ℕ)
    → is_free (some (record { socket = socket; last_used = 0; active = active })) ≡ true
    → active && is_some socket ≡ false
closed_idle active none h = ground arith
closed_idle active (some fd) h = absurd cc

both :
    (n : ℕ) (a b : Bool)
    → n ≤ (if a && b then 1 else 0)
    → 1 ≤ n
    → (n ≡ 1) × ((a ≡ true) × (b ≡ true))
both n true true h k = (omega arith, (refl, refl))
both n true false h k = absurd (omega arith)
both n false b h k = absurd (omega arith)

free_idle : (o : Option ConnMeta) → is_free o ≡ true → is_busy o ≡ false
free_idle none h = refl
free_idle (some c) h = closed_idle c.active c.socket h

inactive_idle : (o : Option ConnMeta) → (meta_at o).active ≡ false → is_busy o ≡ false
inactive_idle none h = refl
inactive_idle (some c) h = rw h refl

inactive_open :
    (o : Option ConnMeta)
    → is_sound o ≡ true
    → (meta_at o).active ≡ false
    → is_some (meta_at o).socket ≡ true
inactive_open none h idle = refl
inactive_open (some c) h idle = grind arith

busy_active :
    (n : ℕ) (o : Option ConnMeta)
    → IsOwned n o
    → 1 ≤ n
    → (n ≡ 1) × (((meta_at o).active ≡ true) × (is_some (meta_at o).socket ≡ true))
busy_active n none h k = absurd (omega arith)
busy_active n (some c) h k = both n c.active (is_some c.socket) h.0 k

idle_none : (n : ℕ) (o : Option ConnMeta) → IsOwned n o → is_busy o ≡ false → n ≡ 0
idle_none n o h idle = grind arith

module _ (fd : ℕ) (s : Clients) (inv : IsClients s) where
  abbrev meta : ConnMeta
  meta = meta_at (find fd s.sessions.conn_map)

  add_client-IsClients :
      (now : ℕ) → is_free (find fd s.sessions.conn_map) ≡ true → IsClients (add_client fd now s)
  unfolding add_client count
  add_client-IsClients now free =
      let none_yet = idle_none (places fd s) _ (inv fd) (free_idle _ free) in
      set_meta-IsOwned fd s.sessions.conn_map (λ j. places j s)
        (λ j. places j (add_client fd now s)) inv
        (λ j e. rw (count-append j s.service_q (fd ∷ [])) (ground arith)) _
        (rw (count-append fd s.service_q (fd ∷ [])) (ground arith))

  hang_up-IsClients : meta.active ≡ false → IsClients (hang_up fd s)
  unfolding hang_up
  hang_up-IsClients idle =
      remove-IsOwned fd s.sessions.conn_map (λ j. places j s) (λ j. places j s) inv (λ j e. refl)
        (idle_none (places fd s) _ (inv fd) (inactive_idle _ idle))

  enqueue-IsClients : meta.active ≡ false → IsClients (enqueue fd s)
  unfolding enqueue count
  enqueue-IsClients idle =
      let none_yet = idle_none (places fd s) _ (inv fd) (inactive_idle _ idle) in
      let open_yet = inactive_open _ (inv fd).1 idle in
      set_meta-IsOwned fd s.sessions.conn_map (λ j. places j s) (λ j. places j (enqueue fd s)) inv
        (λ j e. rw (count-append j s.service_q (fd ∷ [])) (ground arith)) _
        (rw (count-append fd s.service_q (fd ∷ []), open_yet) (ground arith))

  served :
      mem fd s.serving ≡ true
      → (places fd s ≡ 1) × ((meta.active ≡ true) × (is_some meta.socket ≡ true))
  served m = let k = count-mem fd s.serving m in busy_active (places fd s) _ (inv fd) (omega arith)

  answer-IsClients : (now : ℕ) → mem fd s.serving ≡ true → IsClients (answer fd now s)
  unfolding answer
  answer-IsClients now m =
      let one = served m in
      let k = count-mem fd s.serving m in
      set_meta-IsOwned fd s.sessions.conn_map (λ j. places j s) (λ j. places j (answer fd now s))
        inv (λ j e. rw (count-remove_one fd j s.serving) (ground arith)) _
        (rw (count-remove_one fd fd s.serving, one.1.1) (ground arith))

  drop_client-IsClients : mem fd s.serving ≡ true → IsClients (drop_client fd s)
  unfolding drop_client
  drop_client-IsClients m =
      let one = served m in
      let k = count-mem fd s.serving m in
      set_meta-IsOwned fd s.sessions.conn_map (λ j. places j s) (λ j. places j (drop_client fd s))
        inv (λ j e. rw (count-remove_one fd j s.serving) (ground arith)) _
        (rw (count-remove_one fd fd s.serving, one.1.0) (ground arith))

closed-IsOwned :
    (b : Bool) (n : ℕ) (o : Option ConnMeta)
    → IsOwned n o
    → IsOwned n (if b && is_closable o then none else o)
closed-IsOwned true n none h = h
closed-IsOwned false n none h = h
closed-IsOwned b n (some c) h = elim (Bool-cases (b && not c.active)) [
  | inl idle ↦ rw idle (ground arith)
  | inr used ↦ rw used h
]

close_named-IsClients : (s : Clients) → IsClients s → IsClients (close_named s)
unfolding close_named
close_named-IsClients s inv j =
    rw (close_clients_lem s.clients_to_close j s.sessions).0
      (closed-IsOwned (mem j s.clients_to_close) (places j s) _ (inv j))

look_at-IsClients : (fd n : ℕ) (s : Clients) → IsClients s → IsClients (look_at fd n s)
unfolding look_at
look_at-IsClients fd n s inv =
    let s' = record s { read_fds = remove_one fd s.read_fds } in
    elim (Bool-cases (meta_at (find fd s.sessions.conn_map)).active) [
      | inl used ↦ rw used inv
      | inr idle ↦ elim (Bool-cases (n == 0)) [
        | inl eof ↦ rw (idle, eof) (hang_up-IsClients fd s' inv idle)
        | inr data_there ↦ rw (idle, data_there) (enqueue-IsClients fd s' inv idle)
      ]
    ]

module _ {max : ℤ} {keep_alive : ℕ} where
  Step-IsClients : {s t : Clients} → IsClients s → Step max keep_alive s t → IsClients t
  unfolding count put_back
  Step-IsClients {s} inv (accept fd now free room) = add_client-IsClients fd s inv now free
  Step-IsClients inv (fails_to_accept room) = inv
  Step-IsClients inv (drops_failed h) = inv
  Step-IsClients inv (select fds sub) = inv
  Step-IsClients {s} inv (look fd n m) = look_at-IsClients fd n s inv
  Step-IsClients inv (name_stale now max_fd) = inv
  Step-IsClients {s} inv close_stale = close_named-IsClients s inv
  Step-IsClients {s} inv (take fd rest e) =
      λ j. let h0 = inv j in let h = (rw e at h0) in (omega arith, h.1)
  Step-IsClients {s} inv (answered fd now m) = answer-IsClients fd s inv now m
  Step-IsClients inv (returned fd m) = inv
  Step-IsClients {s} inv (dropped fd m) = drop_client-IsClients fd s inv m

  reached : {s : Clients} → Reach max keep_alive s → IsClients s
  unfolding count find
  reached begin = λ j. (omega arith, refl)
  reached (next r step) = Step-IsClients (reached r) step

  -- In every state that the server reaches, a client has at most one place in the queue or with a
  -- service thread, and while it has one `conn_map` has its entry, marked in use and with an open
  -- socket.
  pub places_le :
      {s : Clients}
      → Reach max keep_alive s
      → (j : ℕ) → places j s ≤ (if is_busy (find j s.sessions.conn_map) then 1 else 0)
  places_le r j = (reached r j).0
