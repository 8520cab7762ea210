-- ===== src/Threads/Refines.antt =====
-- src/lib/threads/thread_parallel_runner_internal.cc: what Runner starts the workers with, and that they do what Runner does without workers.
use ssimulacra2_vulcan.Common.{
  ℕ, zero, suc, ◌+◌, ◌-◌, ◌*◌, ◌^◌, ◌<◌, ◌≤◌, ◌≡◌, ◌≢◌, refl, true, false, List, [], ◌∷◌, max, ltb,
  ◌==◌, if◌then◌else◌, arith, length,
}
use ssimulacra2_vulcan.Threads.RunRange.{run, start_workers, unreserved}
use ssimulacra2_vulcan.Threads.Once.{count, within, most_size}
use ssimulacra2_vulcan.Threads.Ends.{all_left, IsDiligent, run-all}
use ssimulacra2_vulcan.Threads.Runner.{
  worker_command, worker_wait, worker_once, worker_exit, command_begin, command_end, sequential,
  aborted, returns, starts, begin_runner, end_runner,
}

-- A command of a range that is not empty gives the range back, and is none of the special commands.
pub command-range :
    (start_range end_range : ℕ)
    → start_range < end_range
    → end_range < 2 ^ 32
    → let command = worker_command start_range end_range in
      (command_begin command ≡ start_range)
      × (command_end command ≡ end_range)
      × (command ≢ worker_wait)
      × (command ≢ worker_once)
      × (command ≢ worker_exit)
unfolding worker_command command_begin command_end
command-range start_range end_range less bound = (
  omega arith,
  omega arith,
  (λ e. omega (arith, e)),
  (λ e. omega (arith, e)),
  (λ e. omega (arith, e)),
)

count-sequential :
    (x left task : ℕ) (calls : List ℕ)
    → count x (sequential left task calls) ≡ within x task (task + left) + count x calls
unfolding count sequential
count-sequential x zero task calls = ground arith
count-sequential x (suc left) task calls =
    let rest = count-sequential x left (task + 1) (task ∷ calls) in
    let split : within x task (task + 1 + left)
        ≡ within x (task + 1) (task + 1 + left) + (if x == task then 1 else 0) =
      ground arith in
    let end : task + suc left ≡ task + 1 + left = omega arith in rw end (omega (arith, rest, split))

-- A pool of at most 2 ^ 30 workers that is not in use, and a range with a share of room below 2 ^ 32 for each worker and two more.
abbrev pub HasRoom : ℕ → ℕ → ℕ → Type 0
HasRoom workers start_range end_range =
    (workers < 2 ^ 30)
    × (end_range + (workers + 2) * most_size workers (end_range - start_range) < 2 ^ 32)

alone :
    (init : ℕ → ℕ) (start_range end_range : ℕ)
    → start_range < end_range
    → init 1 ≡ 0
    → begin_runner init 0 0 start_range end_range
      ≡ returns 0 (sequential (end_range - start_range) start_range []) 0
unfolding begin_runner
alone init start_range end_range less ready =
    let ordered : ltb end_range start_range ≡ false = ground arith in
    let some : (start_range == end_range) ≡ false = ground arith in rw (ordered, some, ready)

shared :
    (init : ℕ → ℕ) (workers start_range end_range : ℕ)
    → 0 < workers
    → start_range < end_range
    → end_range < 2 ^ 32
    → init workers ≡ 0
    → begin_runner init workers 0 start_range end_range
      ≡ starts (worker_command start_range end_range) 1
unfolding begin_runner
shared init workers start_range end_range some_workers less bound ready =
    let ordered : ltb end_range start_range ≡ false = ground arith in
    let some : (start_range == end_range) ≡ false = ground arith in
    let most : max workers 1 ≡ workers = omega arith in
    let pool : (workers == 0) ≡ false = ground arith in
    let (b, e, w, o, x) = command-range start_range end_range less bound in
    let w' : (worker_command start_range end_range == worker_wait) ≡ false = ground arith in
    let o' : (worker_command start_range end_range == worker_once) ≡ false = ground arith in
    let x' : (worker_command start_range end_range == worker_exit) ≡ false = ground arith in
    rw (ordered, some, most, ready, pool, w', o', x')

-- Let a pool that is not in use have at least one worker and at most 2 ^ 30, let its range end a share of room below 2 ^ 32 for
-- each worker and two more, and let init succeed. Then Runner starts the workers with a command. Let each of them take it
-- once and run RunRange on it, and let them interleave in any way in which those go on that have not returned, for four
-- steps of each task and three of each worker. Then all have returned, and the function has been called as often for
-- each task as by Runner of a pool without workers, which returns 0.
pub run_range-refines :
    (init : ℕ → ℕ) (workers : ℕ) (picks : List (ℕ × ℕ)) (start_range end_range : ℕ)
    → 0 < workers
    → start_range < end_range
    → HasRoom workers start_range end_range
    → init workers ≡ 0
    → init 1 ≡ 0
    → IsDiligent workers start_range end_range picks unreserved (start_workers workers)
    → 4 * (end_range - start_range) + 3 * workers ≤ length picks
    → (command : ℕ) × (calls : List ℕ) × (begin_runner init workers 0 start_range end_range
        ≡ starts command 1)
      × (all_left (
            (run workers
              (command_begin command)
              (command_end command)
              picks
              unreserved
              (start_workers workers)).1)
          ≡ true)
      × (begin_runner init 0 0 start_range end_range ≡ returns 0 calls 0)
      × ((x : ℕ)
          → count x (
              (run workers
                (command_begin command)
                (command_end command)
                picks
                unreserved
                (start_workers workers)).0.calls)
            ≡ count x calls)
unfolding count
run_range-refines init workers picks start_range end_range some_workers less (few, room) ready
      ready' diligent enough =
    let bound : end_range < 2 ^ 32 = omega (arith, room) in
    let (b, e, _, _, _) = command-range start_range end_range less bound in
    let (done, once) =
      run-all workers start_range end_range less some_workers few room picks diligent enough in
    let whole : start_range + (end_range - start_range) ≡ end_range = omega arith in
    (
      worker_command start_range end_range,
      sequential (end_range - start_range) start_range [],
      shared init workers start_range end_range some_workers less bound ready,
      rw (b, e) done,
      alone init start_range end_range less ready',
      λ x.
          let all = count-sequential x (end_range - start_range) start_range [] in
          rw (b, e) (omega (arith, once x, rw whole at all)),
    )

-- What Runner has found where it starts the workers, and what the command says.
pub record Starts (workers depth start_range end_range command depth' : ℕ) : Type 0 where
  pub some_workers : 0 < workers
  pub some_tasks : start_range < end_range
  pub unused : depth ≡ 0
  pub begins : command_begin command ≡ start_range
  pub ends : command_end command ≡ end_range
  pub not_wait : command ≢ worker_wait
  pub not_once : command ≢ worker_once
  pub not_exit : command ≢ worker_exit
  pub left : end_runner depth' ≡ (0, depth)

-- Whatever range of 32 bits Runner is called with, and whatever init returns: no assertion on the command fails; and where it
-- starts the workers, there are some, the range is not empty, the pool was not in use, RunRange reads the range back from
-- the command, ThreadFunc takes it for none of the three reserved ones, and if Runner is not entered meanwhile, then
-- behind the barrier it returns 0 and leaves the pool as not in use.
pub begin_runner-Starts :
    (init : ℕ → ℕ) (workers depth start_range end_range : ℕ)
    → start_range < 2 ^ 32
    → end_range < 2 ^ 32
    → (begin_runner init workers depth start_range end_range ≢ aborted)
      × ((command depth' : ℕ)
          → begin_runner init workers depth start_range end_range ≡ starts command depth'
          → Starts workers depth start_range end_range command depth')
unfolding begin_runner end_runner
begin_runner-Starts init workers depth start_range end_range bound' bound = (
  λ e.
      let less : start_range < end_range = ground arith in
      let (b, n, w, o, x) = command-range start_range end_range less bound in ground arith,
  λ command depth' e.
      let less : start_range < end_range = ground arith in
      let (b, n, w, o, x) = command-range start_range end_range less bound in
      let same : (command ≡ worker_command start_range end_range)
          × (depth' ≡ 1)
          × (0 < workers)
          × (depth ≡ 0) =
        ground arith in
      record {
        some_workers = same.2;
        some_tasks = less;
        unused = same.3;
        begins = rw (same.0) b;
        ends = rw (same.0) n;
        not_wait = rw (same.0) w;
        not_once = rw (same.0) o;
        not_exit = rw (same.0) x;
        left = rw (same.1, same.3) refl;
      },
)
