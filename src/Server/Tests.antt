-- ===== src/Server/Tests.antt =====
-- Two clients, one of them in use.
use sync_server.Base.{
  ltb, ◌+◌, ◌≤◌, ◌*◌, pos, ◌≡◌, true, false, not, ◌&&◌, none, some, [], ◌∷◌, leb, if◌then◌else◌,
}
use sync_server.Server.Threads.{to_start, to_start-le}
use sync_server.Server.Sessions.{
  ConnMap, Sessions, find, mem, session_round, session_round_lem, is_stale, close_clients,
  close_clients_lem, is_closable,
}

abbrev clients : ConnMap
clients =
    (5, record { socket = some 5; last_used = 100; active = false })
    ∷ (6, record { socket = some 6; last_used = 100; active = true })
    ∷ []

abbrev sessions : Sessions
sessions = record {
  connection_fds = 5 ∷ 6 ∷ [];
  conn_map = clients;
  closed = [];
  current_connections = pos 2;
}

session_round_lem_example :
    mem 5 (session_round 150 30 7 clients []) ≡ leb 5 7 && is_stale 150 30 (find 5 clients)
session_round_lem_example = session_round_lem 150 30 7 clients 5

close_clients_lem_example :
    (find 6 (close_clients (5 ∷ 6 ∷ []) sessions).conn_map
      ≡ (if mem 6 (5 ∷ 6 ∷ []) && is_closable (find 6 clients) then none else find 6 clients))
    × (mem 6 (close_clients (5 ∷ 6 ∷ []) sessions).connection_fds
        ≡ not (mem 6 (5 ∷ 6 ∷ [])) && mem 6 (5 ∷ 6 ∷ []))
close_clients_lem_example = close_clients_lem (5 ∷ 6 ∷ []) 6 sessions

-- Nine threads of at most ten become thirteen.
to_start-le_example :
    let k = to_start 10 12 8 9 in (k ≡ 4) × (ltb 10 (9 + k) ≡ true) × (2 * (9 + k) ≤ 30)
to_start-le_example = to_start-le 10 12 8 9
