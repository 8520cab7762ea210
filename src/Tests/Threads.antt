-- ===== src/Tests/Threads.antt =====
-- The thread pool.
use ssimulacra2_vulcan.Common.{
  ℕ, ◌^◌, ◌-◌, ◌≤◌, ◌≡◌, refl, true, List, [], ◌∷◌, length, false, ltb, leb, ◌&&◌, if◌then◌else◌,
  ◌≢◌, arith, inl, inr,
}
use ssimulacra2_vulcan.Threads.RunRange.{
  my_size, worker_step, step_at, run, start_workers, unreserved,
}
use ssimulacra2_vulcan.Threads.Once.{count, run-once}
use ssimulacra2_vulcan.Threads.Ends.{all_left, is_busy, IsDiligent, run-all}
use ssimulacra2_vulcan.Threads.Runner.{
  aborted, returns, starts, begin_runner, command_begin, command_end,
}
use ssimulacra2_vulcan.Threads.Barrier.{
  Event, arrives, wakes, finishes, starts as starts_command, passes, run_command, wait_command,
  waiting, working, history, happens, at, arrive, wake, finish, notify, arriving_threads, new_pool,
}
use ssimulacra2_vulcan.Threads.Calm.{AreCalm, IsCalm, may_wake_at, may_wake, busy_threads}
use ssimulacra2_vulcan.Threads.Pass.{barrier_waits}
use ssimulacra2_vulcan.Threads.Refines.{Starts, run_range-refines, begin_runner-Starts}

-- Two workers take turns at two tasks; the second one leaves last.
abbrev turns : List (ℕ × ℕ)
turns =
    (0, 0)
    ∷ (1, 0)
    ∷ (0, 0)
    ∷ (1, 0)
    ∷ (0, 0)
    ∷ (1, 0)
    ∷ (0, 0)
    ∷ (1, 0)
    ∷ (0, 0)
    ∷ (1, 0)
    ∷ (0, 0)
    ∷ (1, 0)
    ∷ (0, 0)
    ∷ (0, 0)
    ∷ []

turns-IsDiligent : IsDiligent 2 5 7 turns unreserved (start_workers 2)
unfolding IsDiligent all_left is_busy start_workers step_at worker_step my_size
turns-IsDiligent = (
  inr refl,
  (
    inr refl,
    (
      inr refl,
      (
        inr refl,
        (
          inr refl,
          (
            inr refl,
            (
              inr refl,
              (
                inr refl,
                (inr refl, (inr refl, (inr refl, (inr refl, (inl refl, (inl refl, tt)))))),
              ),
            ),
          ),
        ),
      ),
    ),
  ),
)

run-once_example :
    count 6 ((run 2 5 7 turns unreserved (start_workers 2)).0.calls)
    ≤ (if leb 5 6 && ltb 6 7 then 1 else 0)
run-once_example = run-once 2 5 7 (omega arith) (omega arith) (omega arith) (omega arith) turns 6

run-all_example :
    let (s, ws) = run 2 5 7 turns unreserved (start_workers 2) in
    (all_left ws ≡ true) × ((x : ℕ) → count x (s.calls) ≡ (if leb 5 x && ltb x 7 then 1 else 0))
run-all_example =
    run-all 2 5 7 (omega arith) (omega arith) (omega arith) (omega arith) turns turns-IsDiligent
      (omega arith)

run_range-refines_example :
    (command : ℕ) × (calls : List ℕ) × (begin_runner (λ n. 0) 2 0 5 7 ≡ starts command 1)
    × (all_left (
          (run 2
            (command_begin command)
            (command_end command)
            turns
            unreserved
            (start_workers 2)).1)
        ≡ true)
    × (begin_runner (λ n. 0) 0 0 5 7 ≡ returns 0 calls 0)
    × ((x : ℕ)
        → count x (
            (run 2
              (command_begin command)
              (command_end command)
              turns
              unreserved
              (start_workers 2)).0.calls)
          ≡ count x calls)
run_range-refines_example =
    run_range-refines (λ n. 0) 2 turns 5 7 (omega arith) (omega arith) (omega arith, omega arith)
      refl refl turns-IsDiligent (omega arith)

begin_runner-Starts_example :
    (begin_runner (λ n. 0) 2 0 5 7 ≢ aborted)
    × ((command depth : ℕ)
        → begin_runner (λ n. 0) 2 0 5 7 ≡ starts command depth
        → Starts 2 0 5 7 command depth)
begin_runner-Starts_example = begin_runner-Starts (λ n. 0) 2 0 5 7 (omega arith) (omega arith)

-- Without room below 2 ^ 32 the counter's sum with `begin` wraps around: of the range of the two largest tasks but one, the worker that
-- comes last runs task 0 as well.
wraps_around :
    (run 2
      (2 ^ 32 - 3)
      (2 ^ 32 - 1)
      ((0, 0)
        ∷ (0, 0)
        ∷ (0, 0)
        ∷ (0, 0)
        ∷ (0, 0)
        ∷ (0, 0)
        ∷ (0, 0)
        ∷ (0, 0)
        ∷ (0, 0)
        ∷ (0, 0)
        ∷ (1, 0)
        ∷ (1, 0)
        ∷ (1, 0)
        ∷ [])
      unreserved
      (start_workers 2)).0.calls
    ≡ (0 ∷ (2 ^ 32 - 2) ∷ (2 ^ 32 - 3) ∷ [])
unfolding run step_at worker_step my_size start_workers
wraps_around = refl

-- Two workers arrive, the barrier lets the main thread pass, a command starts them, and they run it and come back.
abbrev one_round : List Event
one_round =
    arrives 0
    ∷ arrives 1
    ∷ passes
    ∷ starts_command run_command
    ∷ wakes 1
    ∷ wakes 0
    ∷ finishes 0
    ∷ arrives 0
    ∷ finishes 1
    ∷ arrives 1
    ∷ []

one_round-AreCalm : AreCalm one_round (new_pool 2)
unfolding AreCalm IsCalm happens at arrive wake finish notify may_wake_at may_wake arriving_threads
one_round-AreCalm = (
  tt,
  (tt, (tt, ((λ e. absurd (ground arith)), (inr refl, (inr refl, (tt, (tt, (tt, (tt, tt))))))))),
)

round_ready :
    (history one_round (new_pool 2)).workers_ready
    ≡ length ((history one_round (new_pool 2)).threads)
unfolding history happens at arrive wake finish notify arriving_threads
round_ready = refl

round_awaits : (history one_round (new_pool 2)).awaits ≡ true
unfolding history happens at arrive wake finish notify arriving_threads
round_awaits = refl

barrier_waits_example : busy_threads ((history one_round (new_pool 2)).threads) ≡ 0
barrier_waits_example = barrier_waits 2 one_round one_round-AreCalm round_awaits round_ready

-- A worker that wakes up spuriously before the main thread has passed the barrier takes the command once more: it counts itself
-- as ready twice, and the main thread passes while the other one works.
passes_early :
    (history
      (arrives 0
        ∷ arrives 1
        ∷ passes
        ∷ starts_command run_command
        ∷ wakes 0
        ∷ wakes 1
        ∷ finishes 0
        ∷ arrives 0
        ∷ wakes 0
        ∷ finishes 0
        ∷ arrives 0
        ∷ passes
        ∷ [])
      (new_pool 2))
    ≡ record {
      workers_ready = 0;
      command = wait_command;
      awaits = false;
      threads = waiting false ∷ working ∷ [];
    }
unfolding history happens at arrive wake finish notify arriving_threads
passes_early = refl
