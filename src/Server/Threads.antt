-- ===== src/Server/Threads.antt =====
-- `start_service_thread_manager` (server.cpp), which shuts down threads that are not needed, and the
-- start of more threads in `server::start`.
use native.Mathlib.Nat.{div-add-mod, mod-lt}
use sync_server.Base.{
  ◌||◌, Bool-cases, inl, inr, ℕ, zero, suc, ◌+◌, ◌-◌, ◌*◌, ◌/◌, ◌%◌, ◌≤◌, ◌<◌, ◌≡◌, refl, ◌∙◌,
  arith, ltb, ◌&&◌, true, if◌then◌else◌,
}

-- The variables of the loop: `current_thread_count`, `thread_check_counter`, and the messages to
-- shut down that have been pushed to `service_q`.
pub record Manager : Type 0 where
  pub current_thread_count : ℕ
  pub thread_check_counter : ℕ
  pub pushed : ℕ

abbrev pub checks : ℕ
checks = 20

pub shut_down : ℕ → Manager → Manager
shut_down to_shutdown m = record m {
  current_thread_count = m.current_thread_count - to_shutdown;
  thread_check_counter = 0;
  pushed = m.pushed + to_shutdown;
}

-- One round, with `service_threads` configured and `size` clients in the queue. `count / 0.2` is
-- `5 * count`; a negative number to shut down is none.
unfoldable pub manage : ℕ → ℕ → Manager → Manager
unfolding shut_down
manage service_threads size m =
    let counter = m.thread_check_counter in
    if ltb size (5 * m.current_thread_count)
    then (if ltb checks (counter + 1)
        then shut_down ((m.current_thread_count - service_threads) / 2) m
        else record m { thread_check_counter = counter + 1 })
    else record m { thread_check_counter = counter - 1 }

-- A round of the manager keeps at least the configured threads, counts a thread less for every
-- message that it pushes, and never counts more rounds than it checks for.
pub manage-le :
    (service_threads size : ℕ) (m : Manager)
    → service_threads ≤ m.current_thread_count
    → m.thread_check_counter ≤ checks
    → let n = manage service_threads size m in
      (service_threads ≤ n.current_thread_count)
      × (n.current_thread_count + n.pushed ≡ m.current_thread_count + m.pushed)
      × (n.thread_check_counter ≤ checks)
unfolding manage shut_down
manage-le service_threads size m h c = (ground arith, ground arith, ground arith)

-- `n` rounds with an empty queue.
unfoldable pub quiet_rounds : ℕ → ℕ → Manager → Manager
quiet_rounds zero service_threads m = m
quiet_rounds (suc n) service_threads m = quiet_rounds n service_threads (manage service_threads 0 m)

-- Rounds that only count.
counted :
    (n service_threads : ℕ) (m : Manager)
    → 0 < m.current_thread_count
    → m.thread_check_counter + n ≤ checks
    → quiet_rounds n service_threads m
      ≡ record m { thread_check_counter = m.thread_check_counter + n }
unfolding quiet_rounds manage
counted zero service_threads m some_thread few = ground arith
counted (suc n) service_threads m some_thread few =
    let one : manage service_threads 0 m
        ≡ record m { thread_check_counter = m.thread_check_counter + 1 } =
      ground arith in
    rw one (
      rw
        (counted n service_threads (record m { thread_check_counter = m.thread_check_counter + 1 })
          some_thread (omega arith))
        (ground arith))

quiet_rounds-suc :
    (n service_threads : ℕ) (m : Manager)
    → quiet_rounds (suc n) service_threads m
      ≡ manage service_threads 0 (quiet_rounds n service_threads m)
unfolding quiet_rounds
quiet_rounds-suc zero service_threads m = refl
quiet_rounds-suc (suc n) service_threads m =
    quiet_rounds-suc n service_threads (manage service_threads 0 m)

-- After 21 rounds with an empty queue, half of the threads above the configured number are shut
-- down, rounded down: a single thread above it stays.
pub quiet_rounds_shut :
    (service_threads : ℕ) (m : Manager)
    → 0 < m.current_thread_count
    → m.thread_check_counter ≡ 0
    → quiet_rounds 21 service_threads m
      ≡ shut_down ((m.current_thread_count - service_threads) / 2) m
unfolding manage shut_down
quiet_rounds_shut service_threads m some_thread fresh =
    quiet_rounds-suc 20 service_threads m
    ∙ rw (counted 20 service_threads m some_thread (omega arith)) (ground arith)

-- How many threads are started after a `select`, with `size` clients in the queue.
unfoldable pub to_start : ℕ → ℕ → ℕ → ℕ → ℕ
to_start max_service_threads size active_threads current_thread_count =
    if ltb current_thread_count max_service_threads
      && ltb current_thread_count size
      && ltb 0 active_threads
      && ltb (current_thread_count / active_threads) 2
    then (if ltb (current_thread_count / 2) max_service_threads
        then current_thread_count / 2
        else max_service_threads)
    else 0

small_quotient : (a q r n : ℕ) → a * q + r ≡ n → r < a → q < 2 → n < 2 * a
small_quotient a zero r n e l h = omega arith
small_quotient a (suc zero) r n e l h = omega arith
small_quotient a (suc (suc q)) r n e l h = absurd (omega arith)

half_busy : (n a : ℕ) → ltb 0 a && ltb (n / a) 2 ≡ true → n < 2 * a
half_busy n a h =
    let some_active : 0 < a = ground arith in
    let few : n / a < 2 = ground arith in
    small_quotient a (n / a) (n % a) n (div-add-mod n a) (mod-lt n some_active) few

few_times : (a q r n : ℕ) → a * q + r ≡ n → n < 2 * a → q < 2
few_times a zero r n e h = omega arith
few_times a (suc zero) r n e h = omega arith
few_times a (suc (suc q)) r n e h = absurd (grind arith)

busy_half : (n a : ℕ) → n < 2 * a → ltb 0 a && ltb (n / a) 2 ≡ true
busy_half n a h =
    let few : n / a < 2 = few_times a (n / a) (n % a) n (div-add-mod n a) h in ground arith

half_busy-eq : (n a : ℕ) → (ltb 0 a && ltb (n / a) 2) ≡ ltb n (2 * a)
half_busy-eq n a = elim (Bool-cases (ltb 0 a && ltb (n / a) 2)) [
  | inl busy ↦ let few = half_busy n a busy in rw busy (ground arith)
  | inr calm ↦ elim (Bool-cases (ltb n (2 * a))) [
    | inl few ↦ absurd (let busy = busy_half n a (ground arith) in cc)
    | inr many ↦ rw (calm, many) refl
  ]
]

to_start-eq :
    (max size active n : ℕ)
    → to_start max size active n
      ≡ (if ltb n max && ltb n size && ltb n (2 * active) then n / 2 else 0)
unfolding to_start
to_start-eq max size active n = rw (← half_busy-eq n active) (ground arith)

-- With more clients waiting than there are threads, of which there are fewer than the maximum and
-- more than half at work, half as many threads again are started, and otherwise none. The maximum is
-- then exceeded if it was before, or if half as many threads again are more than it; but from no more
-- than the maximum there never are more than half as many again as it.
pub to_start-le :
    (max size active n : ℕ)
    → let k = to_start max size active n in
      let more = ltb n max && ltb n size && ltb n (2 * active) in
      (k ≡ (if more then n / 2 else 0))
      × (ltb max (n + k) ≡ ltb max n || (more && ltb max (n + n / 2)))
      × (2 * (n + k) ≤ (if ltb max n then 2 * n else 3 * max))
to_start-le max size active n =
    rw (to_start-eq max size active n) (refl, ground arith, ground arith)
