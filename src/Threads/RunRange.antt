-- ===== src/Threads/RunRange.antt =====
-- src/lib/threads/thread_parallel_runner_internal.cc, RunRange: the workers of a pool share a counter
-- of the tasks that are reserved, and call the function of the tasks that they have reserved. A
-- worker's loop is cut where another worker can come in between: at each access to the counter, and at each call.
use ssimulacra2_vulcan.Common.{
  ℕ, zero, suc, ◌+◌, ◌-◌, ◌*◌, ◌/◌, ◌%◌, ◌^◌, List, [], ◌∷◌, min, max, ltb, leb, if◌then◌else◌,
}

pub data Worker : Type 0 where
  -- at the head of the loop
  looks : Worker
  -- has loaded the counter
  reserves : ℕ → Worker
  -- the next task, and my_end
  runs : ℕ → ℕ → Worker
  -- has returned
  left : Worker

pub record Shared : Type 0 where
  pub num_reserved : ℕ
  -- the tasks that the function was called with, the last one first
  pub calls : List ℕ

module _ (workers begin end : ℕ) where
  abbrev pub num_tasks : ℕ
  num_tasks = (end + 2 ^ 32 - begin) % 2 ^ 32

  -- A guided share of what remains.
  unfoldable pub my_size : ℕ → ℕ
  my_size seen = max ((num_tasks - min seen num_tasks) / (workers * 4 % 2 ^ 32)) 1

  -- One step of a worker. The relaxed load may return a value that the counter had before: it
  -- is `lag` below the present one.
  unfoldable pub worker_step : ℕ → Shared → Worker → Shared × Worker
  worker_step lag s looks = (s, reserves (s.num_reserved - lag))
  worker_step lag s (reserves seen) =
      let my_begin = (begin + s.num_reserved) % 2 ^ 32 in
      let my_end = min ((my_begin + my_size seen) % 2 ^ 32) ((begin + num_tasks) % 2 ^ 32) in
      let counted = record s { num_reserved = (s.num_reserved + my_size seen) % 2 ^ 32 } in
      if leb my_end my_begin then (counted, left) else (counted, runs my_begin my_end)
  worker_step lag s (runs task my_end) =
      if ltb task my_end
      then (record s { calls = task ∷ s.calls }, runs (task + 1) my_end)
      else (s, looks)
  worker_step lag s left = (s, left)

  -- A step of the worker with a number.
  unfoldable pub step_at : ℕ → ℕ → Shared → List Worker → Shared × List Worker
  step_at i lag s [] = (s, [])
  step_at zero lag s (w ∷ ws) = let (s', w') = worker_step lag s w in (s', w' ∷ ws)
  step_at (suc i) lag s (w ∷ ws) = let (s', ws') = step_at i lag s ws in (s', w ∷ ws')

  -- A schedule tells which worker goes on, and which value it loads.
  unfoldable pub run : List (ℕ × ℕ) → Shared → List Worker → Shared × List Worker
  run [] s ws = (s, ws)
  run (pick ∷ picks) s ws = let (s', ws') = step_at (pick.0) (pick.1) s ws in run picks s' ws'

-- Each worker at the head of its loop.
unfoldable pub start_workers : ℕ → List Worker
start_workers zero = []
start_workers (suc n) = looks ∷ start_workers n

abbrev pub unreserved : Shared
unreserved = record { num_reserved = 0; calls = [] }
