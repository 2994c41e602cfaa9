-- ===== src/Server/Lifetime.antt =====
-- The service threads (server.cpp) from their start to their end: `start_service_thread`, the queue as
-- the threads read it, the messages to shut down, and the loop of `server::shutdown` that sends them.
mod Tests
use sync_server.Base.{
  ℕ, zero, suc, ◌+◌, ◌-◌, ◌≤◌, ◌<◌, ◌≡◌, refl, ap, Bool, true, false, List, [], ◌∷◌, ◌++◌, arith,
}

-- `shut_thread_down_meta` is the client whose `last_used` is END_IT.
pub data Message : Type 0 where
  client : ℕ → Message
  shut_thread_down : Message

-- `idle` threads wait for the queue, `busy` ones work for a client, and `ended` ones have left their
-- loop. `starting` threads are counted and not there yet, and `retiring` ones are counted off by the
-- manager, which has not sent their message yet. `sent` is `i` in the loop of `shutdown`, and `sending`
-- says that its condition has been tested, and the message not been sent.
pub record Threads : Type 0 where
  pub current_thread_count : ℕ
  pub active_threads : ℕ
  pub service_q : List Message
  pub idle : ℕ
  pub busy : ℕ
  pub ended : ℕ
  pub starting : ℕ
  pub retiring : ℕ
  pub sending : Bool
  pub sent : ℕ

-- `start_service_thread`: the count, then the thread.
unfoldable pub count_on : Threads → Threads
count_on s = record s {
  current_thread_count = s.current_thread_count + 1;
  starting = s.starting + 1;
}

unfoldable pub start_service_thread : Threads → Threads
start_service_thread s = record s { starting = s.starting - 1; idle = s.idle + 1 }

unfoldable pub push : Message → Threads → Threads
push m s = record s { service_q = s.service_q ++ m ∷ [] }

-- The thread manager: the count, without service_mutex, then the message.
unfoldable pub count_off : Threads → Threads
count_off s = record s {
  current_thread_count = s.current_thread_count - 1;
  retiring = s.retiring + 1;
}

unfoldable pub retire : Threads → Threads
unfolding push
retire s = push shut_thread_down (record s { retiring = s.retiring - 1 })

-- `shutdown`: the condition of the loop, without service_mutex, then the message.
unfoldable pub send : Threads → Threads
unfolding push
send s = push shut_thread_down (record s { sending = false; sent = s.sent + 1 })

-- The message in front, after `active_threads++`.
unfoldable pub take : Message → List Message → Threads → Threads
take (client fd) rest s = record s {
  active_threads = s.active_threads + 1;
  service_q = rest;
  idle = s.idle - 1;
  busy = s.busy + 1;
}
take shut_thread_down rest s = record s {
  active_threads = s.active_threads + 1;
  service_q = rest;
  idle = s.idle - 1;
  ended = s.ended + 1;
}

unfoldable pub done : Threads → Threads
done s = record s { active_threads = s.active_threads - 1; idle = s.idle + 1; busy = s.busy - 1 }

-- There is one manager, which counts a thread off only while there are some.
pub data Step (s : Threads) : Threads → Type 0 where
  counts_on : Step s (count_on s)
  starts : 0 < s.starting → Step s (start_service_thread s)
  queues : (fd : ℕ) → Step s (push (client fd) s)
  counts_off : 0 < s.current_thread_count → s.retiring ≡ 0 → Step s (count_off s)
  retires : 0 < s.retiring → Step s (retire s)
  tests : s.sent < s.current_thread_count → Step s (record s { sending = true })
  sends : s.sending ≡ true → Step s (send s)
  takes :
      (m : Message) (rest : List Message)
      → 0 < s.idle
      → s.service_q ≡ m ∷ rest
      → Step s (take m rest s)
  works : 0 < s.busy → Step s (done s)

abbrev pub no_threads : Threads
no_threads = record {
  current_thread_count = 0;
  active_threads = 0;
  service_q = [];
  idle = 0;
  busy = 0;
  ended = 0;
  starting = 0;
  retiring = 0;
  sending = false;
  sent = 0;
}

pub data Reach : Threads → Type 0 where
  begin : Reach no_threads
  next : {s t : Threads} → Reach s → Step s t → Reach t

-- The messages to shut down that are in the queue.
ends : List Message → ℕ
ends [] = 0
ends (client fd ∷ q) = ends q
ends (shut_thread_down ∷ q) = ends q + 1

ends-push : (q : List Message) (m : Message) → ends (q ++ m ∷ []) ≡ ends q + ends (m ∷ [])
unfolding ends
ends-push [] m = ground arith
ends-push (client fd ∷ q) m = ends-push q m
ends-push (shut_thread_down ∷ q) m = omega (arith, ends-push q m)

-- The threads that are there or on their way, and the messages of `shutdown`, are those counted, and
-- the messages in the queue or on their way; the threads that have ended count as active.
abbrev IsCounted : Threads → Type 0
IsCounted s =
    (s.starting + s.idle + s.busy + s.sent ≡ s.current_thread_count + s.retiring + ends s.service_q)
    × (s.active_threads ≡ s.busy + s.ended)
    × (s.retiring ≤ 1)

take-IsCounted :
    (m : Message) (rest : List Message) (s : Threads)
    → 0 < s.idle
    → s.service_q ≡ m ∷ rest
    → IsCounted s
    → IsCounted (take m rest s)
unfolding take ends
take-IsCounted (client fd) rest s some_idle e (counted, active, one) =
    let q : ends s.service_q ≡ ends rest = ap ends e in (omega arith, omega arith, one)
take-IsCounted shut_thread_down rest s some_idle e (counted, active, one) =
    let q : ends s.service_q ≡ ends rest + 1 = ap ends e in (omega arith, omega arith, one)

Step-IsCounted : (s t : Threads) → Step s t → IsCounted s → IsCounted t
unfolding count_on start_service_thread push count_off retire send done ends
Step-IsCounted s _ counts_on (counted, active, one) = (omega arith, active, one)
Step-IsCounted s _ (starts h) (counted, active, one) = (omega arith, active, one)
Step-IsCounted s _ (queues fd) (counted, active, one) =
    (omega (arith, ends-push s.service_q (client fd)), active, one)
Step-IsCounted s _ (counts_off h none_yet) (counted, active, one) =
    (omega arith, active, omega arith)
Step-IsCounted s _ (retires h) (counted, active, one) =
    (omega (arith, ends-push s.service_q shut_thread_down), active, omega arith)
Step-IsCounted s _ (tests h) counted = counted
Step-IsCounted s _ (sends h) (counted, active, one) =
    (omega (arith, ends-push s.service_q shut_thread_down), active, one)
Step-IsCounted s _ (takes m rest h e) counted = take-IsCounted m rest s h e counted
Step-IsCounted s _ (works h) (counted, active, one) = (omega arith, omega arith, one)

Reach-IsCounted : (s : Threads) → Reach s → IsCounted s
unfolding ends
Reach-IsCounted _ begin = (refl, refl, omega arith)
Reach-IsCounted _ (next reach step) = Step-IsCounted _ _ step (Reach-IsCounted _ reach)

-- When `shutdown` has sent as many messages as there are threads counted, and finds the queue empty,
-- then no service thread waits or is at work, but for one at most, and that only while the manager has
-- counted a thread off and not sent its message yet.
pub shutdown_done :
    (s : Threads)
    → Reach s
    → s.current_thread_count ≤ s.sent
    → s.service_q ≡ []
    → (s.starting + s.idle + s.busy ≤ s.retiring) × (s.retiring ≤ 1)
unfolding ends
shutdown_done s reach all empty =
    let (counted, active, one) = Reach-IsCounted s reach in
    let q : ends s.service_q ≡ 0 = ap ends empty in (omega arith, one)

-- `active_threads` is the number of threads at work and of those that have ended: it never falls below
-- the latter.
pub active_threads_lem : (s : Threads) → Reach s → s.active_threads ≡ s.busy + s.ended
active_threads_lem s reach = (Reach-IsCounted s reach).1
