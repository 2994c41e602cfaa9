-- ===== src/Server/Clients/Tests.antt =====
-- One client that is accepted and taken by a thread, and one that has been idle.
use sync_server.Base.{◌≤◌, ◌≡◌, refl, false, some, [], ◌∷◌, pos, dec, if◌then◌else◌}
use sync_server.Server.Sessions.{find}
use sync_server.Server.Clients.{
  Clients, Step, accept, take, Reach, begin, next, start, look_at, close_named, add_client,
}
use sync_server.Server.Clients.Owned.{places, is_busy, places_le}
use sync_server.Server.Clients.Races.{close_named-look_at}

abbrev accepted : Clients
accepted = add_client 5 100 start

abbrev taken : Clients
taken = record accepted { service_q = []; serving = 5 ∷ [] }

Step-taken : Step (pos 10) 30 accepted taken
unfolding add_client
Step-taken = take 5 [] refl

reach : Reach (pos 10) 30 taken
unfolding find
reach = next (next begin (accept 5 100 refl refl)) Step-taken

places_le_example : places 5 taken ≤ (if is_busy (find 5 taken.sessions.conn_map) then 1 else 0)
places_le_example = places_le reach 5

abbrev idle : Clients
idle = record {
  sessions = record {
    connection_fds = 5 ∷ [];
    conn_map = (5, record { socket = some 5; last_used = 100; active = false }) ∷ [];
    closed = [];
    current_connections = pos 1;
  };
  read_fds = 5 ∷ [];
  service_q = [];
  serving = [];
  returning = [];
  clients_to_close = 5 ∷ [];
  failed = 0;
}

close_named-look_at_example :
    ((look_at 5 0 (close_named idle)).sessions.closed ≡ 5 ∷ 5 ∷ [])
    × ((look_at 5 0 (close_named idle)).sessions.current_connections ≡ dec (dec (pos 1)))
unfolding find
close_named-look_at_example = close_named-look_at 5 idle refl refl
