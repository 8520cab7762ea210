-- ===== src/Threads/Barrier.antt =====
-- src/lib/threads/thread_parallel_runner_internal.cc (ThreadFunc) and src/lib/threads/thread_parallel_runner_internal.h
-- (StartWorkers, WorkersReadyBarrier): how the workers are started and awaited. What a thread does under the mutex is one step.
use ssimulacra2_vulcan.Common.{
  ℕ, zero, suc, ◌+◌, Bool, true, false, ◌&&◌, List, [], ◌∷◌, length, ◌==◌, if◌then◌else◌,
}

pub data Thread : Type 0 where
  -- before it counts itself as ready
  arriving : Thread
  -- in worker_start_cv_.wait; whether it was notified
  waiting : Bool → Thread
  working : Thread
  exited : Thread

-- worker_start_command_
pub data Command : Type 0 where
  wait_command exit_command run_command : Command

pub record Pool : Type 0 where
  pub workers_ready : ℕ
  pub command : Command
  -- whether the main thread is before the end of WorkersReadyBarrier
  pub awaits : Bool
  pub threads : List Thread

-- What happens next; a wakeup may be spurious.
pub data Event : Type 0 where
  arrives wakes finishes : ℕ → Event
  starts : Command → Event
  passes : Event

abbrev pub woken : Command → Thread
woken wait_command = waiting false
woken exit_command = exited
woken run_command = working

-- One thread's part of an event: what it adds to workers_ready_, and its next state.
unfoldable pub arrive : Thread → ℕ × Thread
arrive arriving = (1, waiting false)
arrive (waiting n) = (0, waiting n)
arrive working = (0, working)
arrive exited = (0, exited)

unfoldable pub wake : Command → Thread → ℕ × Thread
wake c arriving = (0, arriving)
wake c (waiting n) = (0, woken c)
wake c working = (0, working)
wake c exited = (0, exited)

unfoldable pub finish : Thread → ℕ × Thread
finish arriving = (0, arriving)
finish (waiting n) = (0, waiting n)
finish working = (0, arriving)
finish exited = (0, exited)

unfoldable pub at : (Thread → ℕ × Thread) → ℕ → List Thread → ℕ × List Thread
at f i [] = (0, [])
at f zero (t ∷ ts) = let (n, t') = f t in (n, t' ∷ ts)
at f (suc i) (t ∷ ts) = let (n, ts') = at f i ts in (n, t ∷ ts')

-- notify_all
unfoldable pub notify : List Thread → List Thread
notify [] = []
notify (waiting n ∷ ts) = waiting true ∷ notify ts
notify (arriving ∷ ts) = arriving ∷ notify ts
notify (working ∷ ts) = working ∷ notify ts
notify (exited ∷ ts) = exited ∷ notify ts

abbrev pub moved : Pool → ℕ × List Thread → Pool
moved p (n, ts) = record p { workers_ready = p.workers_ready + n; threads = ts }

-- An event that cannot happen changes nothing.
unfoldable pub happens : Event → Pool → Pool
unfolding at notify arrive wake finish
happens (arrives i) p = moved p (at arrive i (p.threads))
happens (wakes i) p = moved p (at (wake (p.command)) i (p.threads))
happens (finishes i) p = moved p (at finish i (p.threads))
happens (starts c) p =
    if p.awaits then p else record p { command = c; awaits = true; threads = notify (p.threads) }
happens passes p =
    if p.awaits && p.workers_ready == length (p.threads)
    then record p { workers_ready = 0; command = wait_command; awaits = false }
    else p

unfoldable pub history : List Event → Pool → Pool
history [] p = p
history (e ∷ es) p = history es (happens e p)

unfoldable pub arriving_threads : ℕ → List Thread
arriving_threads zero = []
arriving_threads (suc n) = arriving ∷ arriving_threads n

-- In the constructor.
abbrev pub new_pool : ℕ → Pool
new_pool n = record {
  workers_ready = 0;
  command = wait_command;
  awaits = true;
  threads = arriving_threads n;
}
