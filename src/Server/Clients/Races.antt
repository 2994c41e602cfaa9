-- ===== src/Server/Clients/Races.antt =====
-- What `server::start` does with clients that the session manager has named: they are named by one
-- thread and closed by another, and the descriptors of the last `select` are kept meanwhile.
use sync_server.Base.{ℕ, ◌≡◌, refl, true, false, none, [], ◌∷◌, dec, arith}
use sync_server.Server.Sessions.{
  ConnMeta, ConnMap, find, remove, clear_all, mem, is_closable, find-remove, close_clients,
  close_clients_lem, close_one, close_all,
}
use sync_server.Server.Clients.{Clients, set_meta, meta_at, look_at, hang_up, close_named, answer}
use sync_server.Server.Clients.Owned.{find-set_meta}

removed : (fd : ℕ) (m : ConnMap) → find fd (remove fd m) ≡ none
removed fd m = rw (find-remove fd fd m) (ground arith)

unused :
    (fd now : ℕ) (c : ConnMeta) (m : ConnMap)
    → is_closable (find fd (set_meta fd (record c { last_used = now; active = false }) m)) ≡ true
unused fd now c m = rw (find-set_meta fd fd _ m) (ground arith)

-- A client that is named and is not in use is closed; the loop then still finds its descriptor in
-- the result of the last `select`, with no entry and nothing to read, and closes it once more: the
-- number of connections goes down by two.
pub close_named-look_at :
    (fd : ℕ) (s : Clients)
    → s.clients_to_close ≡ fd ∷ []
    → is_closable (find fd s.sessions.conn_map) ≡ true
    → ((look_at fd 0 (close_named s)).sessions.closed ≡ fd ∷ fd ∷ s.sessions.closed)
      × ((look_at fd 0 (close_named s)).sessions.current_connections
          ≡ dec (dec s.sessions.current_connections))
unfolding look_at hang_up close_named close_clients close_all close_one clear_all
close_named-look_at fd s named idle =
    rw (named, idle) (rw (removed fd s.sessions.conn_map) (refl, refl))

-- A client that is named while a thread works for it is not closed then, but it is closed as soon as
-- the thread has cleared the flag, however recently it was used: its entry is gone, and the thread
-- still has to put its descriptor back.
pub answer-close_named :
    (fd now : ℕ) (s : Clients)
    → mem fd s.clients_to_close ≡ true
    → (find fd (close_named (answer fd now s)).sessions.conn_map ≡ none)
      × (mem fd (close_named (answer fd now s)).returning ≡ true)
unfolding answer close_named mem
answer-close_named fd now s named =
    let c = meta_at (find fd s.sessions.conn_map) in
    (
      rw
          (
            (close_clients_lem s.clients_to_close fd (answer fd now s).sessions).0,
            named,
            unused fd now c s.sessions.conn_map,
          )
          refl,
      ground arith,
    )
