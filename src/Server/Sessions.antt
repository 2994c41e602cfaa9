-- ===== src/Server/Sessions.antt =====
-- `start_client_seesion_manager` and `close_clients` (server.cpp): connections that have been idle.
use sync_server.Base.{
  ℤ, dec, ℕ, zero, suc, ◌+◌, ◌≡◌, refl, length, ap, sym, ◌∙◌, Bool, true, false, not, ◌&&◌, Option,
  none, some, List, [], ◌∷◌, arith, ltb, leb, ◌==◌, if◌then◌else◌, Bool-cases, inl, inr,
}

-- `conn_meta` (server.h); the socket is the connection's descriptor, or -1, which is `none`, once it
-- is closed.
pub record ConnMeta : Type 0 where
  pub socket : Option ℕ
  pub last_used : ℕ
  pub active : Bool

-- `std::map<int, conn_meta>`
abbrev pub ConnMap : Type 0
ConnMap = List (ℕ × ConnMeta)

unfoldable pub find : ℕ → ConnMap → Option ConnMeta
find fd [] = none
find fd ((f, c) ∷ m) = if f == fd then some c else find fd m

unfoldable pub remove : ℕ → ConnMap → ConnMap
remove fd [] = []
remove fd ((f, c) ∷ m) = let rest = remove fd m in if f == fd then rest else (f, c) ∷ rest

abbrev is_open : Option ℕ → Bool
is_open none = false
is_open (some s) = ltb 0 s

-- `!active && socket > 0 && current_time - last_used >= keep_alive`
abbrev pub is_stale : ℕ → ℕ → Option ConnMeta → Bool
is_stale now keep_alive none = false
is_stale now keep_alive (some c) =
    not c.active && is_open c.socket && leb (keep_alive + c.last_used) now

-- The loop from `i` on, for `n` descriptors.
unfoldable pub stale_clients : ℕ → ℕ → ConnMap → ℕ → ℕ → List ℕ
stale_clients now keep_alive conns zero i = []
stale_clients now keep_alive conns (suc n) i =
    let rest = stale_clients now keep_alive conns n (i + 1) in
    if is_stale now keep_alive (find i conns) then i ∷ rest else rest

-- One round of the session manager: the list is made only when the last one has been worked off.
unfoldable pub session_round : ℕ → ℕ → ℕ → ConnMap → List ℕ → List ℕ
unfolding stale_clients
session_round now keep_alive max_fd conns clients_to_close =
    if ltb (length clients_to_close) 1
    then stale_clients now keep_alive conns (max_fd + 1) 0
    else clients_to_close

-- `connection_fds` are the descriptors that `select` waits for.
pub record Sessions : Type 0 where
  pub connection_fds : List ℕ
  pub conn_map : ConnMap
  pub closed : List ℕ
  pub current_connections : ℤ

unfoldable pub fd_clear : ℕ → List ℕ → List ℕ
fd_clear fd [] = []
fd_clear fd (f ∷ fds) = let rest = fd_clear fd fds in if f == fd then rest else f ∷ rest

unfoldable pub clear_all : List ℕ → List ℕ → List ℕ
unfolding fd_clear
clear_all [] fds = fds
clear_all (fd ∷ clients) fds = clear_all clients (fd_clear fd fds)

abbrev pub is_closable : Option ConnMeta → Bool
is_closable none = false
is_closable (some c) = not c.active

-- One client of the second loop.
unfoldable pub close_one : ℕ → Sessions → Sessions
unfolding find remove
close_one fd s =
    if is_closable (find fd s.conn_map)
    then record s {
      conn_map = remove fd s.conn_map;
      closed = fd ∷ s.closed;
      current_connections = dec s.current_connections;
    }
    else s

unfoldable pub close_all : List ℕ → Sessions → Sessions
unfolding close_one
close_all [] s = s
close_all (fd ∷ clients) s = close_all clients (close_one fd s)

unfoldable pub close_clients : List ℕ → Sessions → Sessions
unfolding clear_all close_all
close_clients clients s =
    close_all clients (record s { connection_fds = clear_all clients s.connection_fds })

unfoldable pub mem : ℕ → List ℕ → Bool
mem n [] = false
mem n (m ∷ l) = let rest = mem n l in if m == n then true else rest

stale_step :
    (a b : Bool) (n i fd : ℕ) (rest : List ℕ)
    → (i ≡ fd → a ≡ b)
    → mem fd rest ≡ (leb (i + 1) fd && ltb fd (i + 1 + n)) && b
    → mem fd (if a then i ∷ rest else rest) ≡ (leb i fd && ltb fd (i + suc n)) && b
unfolding mem
stale_step true b n i fd rest same e = ground (arith, same)
stale_step false b n i fd rest same e = ground (arith, same)

-- The clients that the search names are those, of the descriptors that it looks at, whose
-- connection is open, not in use, and has been idle for the time configured.
stale_clients_lem :
    (now keep_alive : ℕ) (conns : ConnMap) (n i fd : ℕ)
    → mem fd (stale_clients now keep_alive conns n i)
      ≡ (leb i fd && ltb fd (i + n)) && is_stale now keep_alive (find fd conns)
unfolding stale_clients mem
stale_clients_lem now keep_alive conns zero i fd = ground arith
stale_clients_lem now keep_alive conns (suc n) i fd =
    let same : i ≡ fd
        → is_stale now keep_alive (find i conns) ≡ is_stale now keep_alive (find fd conns) =
      ap (λ k. is_stale now keep_alive (find k conns)) in
    let rest = stale_clients_lem now keep_alive conns n (i + 1) fd in
    stale_step (is_stale now keep_alive (find i conns)) (is_stale now keep_alive (find fd conns)) n
      i fd (stale_clients now keep_alive conns n (i + 1)) same rest

-- When no client is left to close, a round names the clients, up to the largest descriptor, whose
-- connection is open, not in use, and has been idle for the time configured.
pub session_round_lem :
    (now keep_alive max_fd : ℕ) (conns : ConnMap) (fd : ℕ)
    → mem fd (session_round now keep_alive max_fd conns [])
      ≡ leb fd max_fd && is_stale now keep_alive (find fd conns)
unfolding session_round
session_round_lem now keep_alive max_fd conns fd =
    stale_clients_lem now keep_alive conns (max_fd + 1) 0 fd ∙ ground arith

pub find-remove :
    (fd j : ℕ) (m : ConnMap) → find j (remove fd m) ≡ (if fd == j then none else find j m)
unfolding find remove
find-remove fd j [] = ground arith
find-remove fd j ((f, c) ∷ m) = ground (arith, find-remove fd j m)

mem-fd_clear : (fd j : ℕ) (fds : List ℕ) → mem j (fd_clear fd fds) ≡ not (fd == j) && mem j fds
unfolding mem fd_clear
mem-fd_clear fd j [] = ground arith
mem-fd_clear fd j (f ∷ fds) = ground (arith, mem-fd_clear fd j fds)

mem-clear_all :
    (clients : List ℕ) (j : ℕ) (fds : List ℕ)
    → mem j (clear_all clients fds) ≡ not (mem j clients) && mem j fds
unfolding mem clear_all
mem-clear_all [] j fds = refl
mem-clear_all (fd ∷ clients) j fds =
    ground (arith, mem-clear_all clients j (fd_clear fd fds), mem-fd_clear fd j fds)

find-close_one :
    (fd j : ℕ) (s : Sessions)
    → find j (close_one fd s).conn_map
      ≡ (if (fd == j) && is_closable (find j s.conn_map) then none else find j s.conn_map)
unfolding close_one
find-close_one fd j s = elim (Bool-cases (is_closable (find fd s.conn_map))) [
  | inl closable ↦
      let same : fd ≡ j → is_closable (find j s.conn_map) ≡ true =
        λ e. ap (λ k. is_closable (find k s.conn_map)) (sym e) ∙ closable in
      rw closable (rw (find-remove fd j s.conn_map) (ground (arith, same)))
  | inr used ↦
      let same : fd ≡ j → is_closable (find j s.conn_map) ≡ false =
        λ e. ap (λ k. is_closable (find k s.conn_map)) (sym e) ∙ used in
      rw used (ground (arith, same))
]

closed_once :
    (a b : Bool) (o : Option ConnMeta)
    → (if b && is_closable (if a && is_closable o then none else o)
        then none
        else if a && is_closable o
        then none
        else o)
      ≡ (if (if a then true else b) && is_closable o then none else o)
closed_once true b o = elim (Bool-cases (is_closable o)) [
  | inl c ↦ rw c (ground arith)
  | inr c ↦ ground arith
]
closed_once false b o = refl

find-close_all :
    (clients : List ℕ) (j : ℕ) (s : Sessions)
    → find j (close_all clients s).conn_map
      ≡ (if mem j clients && is_closable (find j s.conn_map) then none else find j s.conn_map)
unfolding close_all mem
find-close_all [] j s = refl
find-close_all (fd ∷ clients) j s =
    rw (find-close_all clients j (close_one fd s), find-close_one fd j s)
      (closed_once (fd == j) (mem j clients) (find j s.conn_map))

fds-close_all :
    (clients : List ℕ) (s : Sessions) → (close_all clients s).connection_fds ≡ s.connection_fds
unfolding close_all close_one
fds-close_all [] s = refl
fds-close_all (fd ∷ clients) s =
    fds-close_all clients (close_one fd s)
    ∙ elim (Bool-cases (is_closable (find fd s.conn_map))) [ inl c ↦ rw c | inr c ↦ rw c ]

-- Of the clients that are named, those that no service thread works for are taken out of the map,
-- and those in use stay in it; all others keep their entries. No client that is named is waited for.
pub close_clients_lem :
    (clients : List ℕ) (j : ℕ) (s : Sessions)
    → (find j (close_clients clients s).conn_map
        ≡ (if mem j clients && is_closable (find j s.conn_map) then none else find j s.conn_map))
      × (mem j (close_clients clients s).connection_fds
          ≡ not (mem j clients) && mem j s.connection_fds)
unfolding close_clients
close_clients_lem clients j s = (
  find-close_all clients j (record s { connection_fds = clear_all clients s.connection_fds }),
  rw (fds-close_all clients (record s { connection_fds = clear_all clients s.connection_fds }))
      (mem-clear_all clients j s.connection_fds),
)
