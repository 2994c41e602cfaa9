-- ===== src/Server/Lifetime/Tests.antt =====
-- A thread that is started, serves a client, and ends with the server; and one that is left waiting.
use sync_server.Base.{◌+◌, ◌≤◌, refl, false, [], arith}
use sync_server.Server.Lifetime.{
  count_off, counts_off, client, shut_thread_down, Threads, count_on, start_service_thread, push,
  send, take, done, Reach, begin, next, counts_on, starts, queues, tests, sends, takes, works,
  no_threads, shutdown_done,
}

abbrev last : Threads
last = record {
  current_thread_count = 1;
  active_threads = 1;
  service_q = [];
  idle = 0;
  busy = 0;
  ended = 1;
  starting = 0;
  retiring = 0;
  sending = false;
  sent = 1;
}

abbrev started : Threads
started = record no_threads { current_thread_count = 1; idle = 1 }

started-Reach : Reach started
unfolding count_on start_service_thread
started-Reach = next (next begin counts_on) (starts (omega arith))

reached : Reach last
unfolding push send take done
reached =
    let served =
      next (next (next started-Reach (queues 7)) (takes (client 7) [] (omega arith) refl))
        (works (omega arith)) in
    next (next (next served (tests (omega arith))) (sends refl))
      (takes shut_thread_down [] (omega arith) refl)

shutdown_done_example :
    (last.starting + last.idle + last.busy ≤ last.retiring) × (last.retiring ≤ 1)
shutdown_done_example = shutdown_done last reached (omega arith) refl

-- The manager has counted the only thread off: `shutdown` sends nothing, and the thread is left.
left_waiting : Reach (record no_threads { idle = 1; retiring = 1 })
unfolding count_off
left_waiting = next started-Reach (counts_off (omega arith) refl)
