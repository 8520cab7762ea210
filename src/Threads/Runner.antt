-- ===== src/Threads/Runner.antt =====
-- src/lib/threads/thread_parallel_runner_internal.cc: ThreadParallelRunner::Runner before StartWorkers and behind
-- WorkersReadyBarrier, with the commands that it gives to the workers. The two calls between are in Barrier.
use ssimulacra2_vulcan.Common.{
  ℕ, zero, suc, ◌+◌, ◌-◌, ◌*◌, ◌/◌, ◌%◌, ◌^◌, not, ◌||◌, List, [], ◌∷◌, max, ltb, ◌==◌,
  if◌then◌else◌,
}

-- A range of tasks in 64 bits.
unfoldable pub worker_command : ℕ → ℕ → ℕ
worker_command start_range end_range = (start_range * 2 ^ 32 % 2 ^ 64 + end_range) % 2 ^ 64

abbrev pub worker_wait : ℕ
worker_wait = 2 ^ 64 - 1 - 1

abbrev pub worker_once : ℕ
worker_once = 2 ^ 64 - 1 - 2

abbrev pub worker_exit : ℕ
worker_exit = 2 ^ 64 - 1 - 3

-- The range that RunRange takes from a command.
unfoldable pub command_begin : ℕ → ℕ
command_begin command = command / 2 ^ 32 % 2 ^ 32

unfoldable pub command_end : ℕ → ℕ
command_end command = command % 2 ^ 32

-- JxlParallelRetCode, as its 32 bits: -1 is the largest.
abbrev pub minus_one : ℕ
minus_one = 2 ^ 32 - 1

-- The loop of a pool without workers, of `left` rounds.
unfoldable pub sequential : ℕ → ℕ → List ℕ → List ℕ
sequential zero task calls = calls
sequential (suc left) task calls = sequential left (task + 1) (task ∷ calls)

-- What Runner does up to StartWorkers: an assertion fails; it returns a code, with the tasks that it has run
-- and depth_; or it starts the workers with a command, with depth_.
pub data Plan : Type 0 where
  aborted : Plan
  returns : ℕ → List ℕ → ℕ → Plan
  starts : ℕ → ℕ → Plan

-- `init` is the caller's.
unfoldable pub begin_runner : (ℕ → ℕ) → ℕ → ℕ → ℕ → ℕ → Plan
unfolding worker_command sequential
begin_runner init workers depth start_range end_range =
    let command = worker_command start_range end_range in
    if ltb end_range start_range
    then returns minus_one [] depth
    else if start_range == end_range
    then returns 0 [] depth
    else if not (init (max workers 1) == 0)
    then returns (init (max workers 1)) [] depth
    else if workers == 0
    then returns 0 (sequential (end_range - start_range) start_range []) depth
    else if not (depth == 0)
    then returns minus_one [] (depth + 1)
    else if command == worker_wait || (command == worker_once || command == worker_exit)
    then aborted
    else starts command (depth + 1)

-- Behind WorkersReadyBarrier: what Runner returns, and depth_.
unfoldable pub end_runner : ℕ → ℕ × ℕ
end_runner depth = (if depth == 1 then 0 else minus_one, depth - 1)
