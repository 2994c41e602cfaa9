-- ===== src/Server/Clients.antt =====
-- `server::start` and the service threads (server.cpp): how clients go from the descriptors that are
-- waited for to the queue, to a thread, and back. Each step is what one thread does at once.
pub mod Owned
pub mod Races
mod Tests
use sync_server.Base.{
  ◌-◌, ◌<◌, ℕ, zero, suc, ◌+◌, ◌≡◌, Bool, true, false, Option, none, some, List, [], ◌∷◌, ◌++◌, ltb,
  ◌==◌, ℤ, pos, inc, dec, ltb_ℤ, is_some, if◌then◌else◌,
}
use sync_server.Server.Sessions.{
  ConnMeta, ConnMap, Sessions, find, remove, fd_clear, mem, close_clients, session_round,
}

-- `failed` is the number of clients that `accept` has returned -1 for, and no thread has dropped yet:
-- they have the key -1 of `conn_map`, and no descriptor.
-- `read_fds` is what the last `select` has left to be looked at, `serving` the clients that a thread
-- works for, and `returning` those that a thread is about to put back.
pub record Clients : Type 0 where
  pub sessions : Sessions
  pub read_fds : List ℕ
  pub service_q : List ℕ
  pub serving : List ℕ
  pub returning : List ℕ
  pub clients_to_close : List ℕ
  pub failed : ℕ

-- `conn_map[fd] = c`
unfoldable pub set_meta : ℕ → ConnMeta → ConnMap → ConnMap
unfolding remove
set_meta fd c m = (fd, c) ∷ remove fd m

-- `conn_map[fd]`, which makes an entry of zeros where there is none
abbrev pub meta_at : Option ConnMeta → ConnMeta
meta_at none = record { socket = some 0; last_used = 0; active = false }
meta_at (some c) = c

unfoldable pub remove_one : ℕ → List ℕ → List ℕ
remove_one fd [] = []
remove_one fd (f ∷ l) = if f == fd then l else f ∷ remove_one fd l

-- A new connection, below the maximum.
unfoldable pub add_client : ℕ → ℕ → Clients → Clients
unfolding set_meta
add_client fd now s = record s {
  sessions = record s.sessions {
    conn_map =
        set_meta fd (record { socket = some fd; last_used = now; active = true })
          s.sessions.conn_map;
    current_connections = inc s.sessions.current_connections;
  };
  service_q = s.service_q ++ fd ∷ [];
}

-- The client has closed its side.
unfoldable pub hang_up : ℕ → Clients → Clients
unfolding remove fd_clear
hang_up fd s = record s {
  sessions = record s.sessions {
    connection_fds = fd_clear fd s.sessions.connection_fds;
    conn_map = remove fd s.sessions.conn_map;
    closed = fd ∷ s.sessions.closed;
    current_connections = dec s.sessions.current_connections;
  };
}

unfoldable pub enqueue : ℕ → Clients → Clients
unfolding set_meta fd_clear
enqueue fd s =
    let c = meta_at (find fd s.sessions.conn_map) in
    record s {
      sessions = record s.sessions {
        connection_fds = fd_clear fd s.sessions.connection_fds;
        conn_map = set_meta fd (record c { active = true }) s.sessions.conn_map;
      };
      service_q = s.service_q ++ fd ∷ [];
    }

-- One descriptor of the loop, with `n` bytes to read (0 also if it is closed).
unfoldable pub look_at : ℕ → ℕ → Clients → Clients
unfolding hang_up enqueue
look_at fd n s =
    let s' = record s { read_fds = remove_one fd s.read_fds } in
    let c = meta_at (find fd s.sessions.conn_map) in
    if c.active then s' else if n == 0 then hang_up fd s' else enqueue fd s'

-- The clients that the session manager has named are closed.
unfoldable pub close_named : Clients → Clients
unfolding close_clients
close_named s = record s {
  sessions = close_clients s.clients_to_close s.sessions;
  clients_to_close = [];
}

-- A service thread has answered: first the flag, then the descriptor.
unfoldable pub answer : ℕ → ℕ → Clients → Clients
unfolding set_meta remove_one
answer fd now s =
    let c = meta_at (find fd s.sessions.conn_map) in
    record s {
      sessions = record s.sessions {
        conn_map = set_meta fd (record c { last_used = now; active = false }) s.sessions.conn_map;
      };
      serving = remove_one fd s.serving;
      returning = fd ∷ s.returning;
    }

unfoldable pub put_back : ℕ → Clients → Clients
unfolding remove_one
put_back fd s = record s {
  sessions = record s.sessions { connection_fds = fd ∷ s.sessions.connection_fds };
  returning = remove_one fd s.returning;
}

-- `close_client` of a service thread, after an error.
unfoldable pub drop_client : ℕ → Clients → Clients
unfolding set_meta remove_one
drop_client fd s =
    let c = meta_at (find fd s.sessions.conn_map) in
    record s {
      sessions = record s.sessions {
        conn_map = set_meta fd (record c { socket = none }) s.sessions.conn_map;
        closed = fd ∷ s.sessions.closed;
        current_connections = dec s.sessions.current_connections;
      };
      serving = remove_one fd s.serving;
    }

-- The system gives a descriptor to a new connection only if it is not open.
abbrev pub is_free : Option ConnMeta → Bool
is_free none = true
is_free (some c) = elim c.socket [ none ↦ true | some fd ↦ false ]

-- `max` connections are accepted, and a client is idle after `keep_alive` seconds. `select` leaves any
-- of the descriptors that are waited for, and `max_fd` is the largest one so far.
pub data Step (max : ℤ) (keep_alive : ℕ) (s : Clients) : Clients → Type 0 where
  accept :
      (fd now : ℕ)
      → is_free (find fd s.sessions.conn_map) ≡ true
      → ltb_ℤ s.sessions.current_connections max ≡ true
      → Step max keep_alive s (add_client fd now s)
  -- The result of `accept` is not tested.
  fails_to_accept :
      ltb_ℤ s.sessions.current_connections max ≡ true
      → Step max keep_alive s (record s {
        sessions = record s.sessions { current_connections = inc s.sessions.current_connections };
        failed = s.failed + 1;
      })
  -- Its handshake fails.
  drops_failed :
      0 < s.failed
      → Step max keep_alive s (record s {
        sessions = record s.sessions { current_connections = dec s.sessions.current_connections };
        failed = s.failed - 1;
      })
  select :
      (fds : List ℕ)
      → ((fd : ℕ) → mem fd fds ≡ true → mem fd s.sessions.connection_fds ≡ true)
      → Step max keep_alive s (record s { read_fds = fds })
  look : (fd n : ℕ) → mem fd s.read_fds ≡ true → Step max keep_alive s (look_at fd n s)
  name_stale :
      (now max_fd : ℕ)
      → Step max keep_alive s (record s {
        clients_to_close =
            session_round now keep_alive max_fd s.sessions.conn_map s.clients_to_close;
      })
  close_stale : Step max keep_alive s (close_named s)
  take :
      (fd : ℕ) (rest : List ℕ)
      → s.service_q ≡ fd ∷ rest
      → Step max keep_alive s (record s { service_q = rest; serving = fd ∷ s.serving })
  answered : (fd now : ℕ) → mem fd s.serving ≡ true → Step max keep_alive s (answer fd now s)
  returned : (fd : ℕ) → mem fd s.returning ≡ true → Step max keep_alive s (put_back fd s)
  dropped : (fd : ℕ) → mem fd s.serving ≡ true → Step max keep_alive s (drop_client fd s)

-- No client yet.
abbrev pub start : Clients
start = record {
  sessions = record {
    connection_fds = [];
    conn_map = [];
    closed = [];
    current_connections = pos 0;
  };
  read_fds = [];
  service_q = [];
  serving = [];
  returning = [];
  clients_to_close = [];
  failed = 0;
}

pub data Reach (max : ℤ) (keep_alive : ℕ) : Clients → Type 0 where
  begin : Reach max keep_alive start
  next : {s t : Clients} → Reach max keep_alive s → Step max keep_alive s t → Reach max keep_alive t
