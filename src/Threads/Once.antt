-- ===== src/Threads/Once.antt =====
-- src/lib/threads/thread_parallel_runner_internal.cc, RunRange: however the workers interleave, no task
-- is run twice, and when all of them have returned, each task was run.
use ssimulacra2_vulcan.Common.{
  ℕ, zero, suc, ◌+◌, ◌-◌, ◌*◌, ◌/◌, ◌%◌, ◌^◌, ◌<◌, ◌≤◌, ◌≡◌, ◌⊎◌, inl, inr, refl, List, [], ◌∷◌,
  min, ltb, leb, ◌==◌, ◌&&◌, if◌then◌else◌, Bool-cases, arith, length,
}
use native.Mathlib.Nat.{div-lt_iff_lt-mul, lt-div-mul-add}
use ssimulacra2_vulcan.Threads.RunRange.{
  Worker, looks, reserves, runs, left, Shared, num_tasks, my_size, worker_step, step_at, run,
  start_workers, unreserved,
}

-- How often a task was run.
unfoldable pub count : ℕ → List ℕ → ℕ
count x [] = 0
count x (task ∷ tasks) = (if x == task then 1 else 0) + count x tasks

-- Whether x is from a to before b.
abbrev pub within : ℕ → ℕ → ℕ → ℕ
within x a b = if leb a x && ltb x b then 1 else 0

-- Whether a worker has reserved x and not run it.
unfoldable pub holds : ℕ → Worker → ℕ
holds x looks = 0
holds x (reserves seen) = 0
holds x (runs task my_end) = within x task my_end
holds x left = 0

unfoldable pub held : ℕ → List Worker → ℕ
held x [] = 0
held x (w ∷ ws) = holds x w + held x ws

-- What the workers that have left reserved behind the end, at most.
unfoldable pub excess : ℕ → Worker → ℕ
excess most left = most
excess most looks = 0
excess most (reserves seen) = 0
excess most (runs task my_end) = 0

unfoldable pub excesses : ℕ → List Worker → ℕ
excesses most [] = 0
excesses most (w ∷ ws) = excess most w + excesses most ws

div_mono : (a b k : ℕ) → a ≤ b → 0 < k → a / k ≤ b / k
div_mono a b k h p =
    let above : b < b / k * k + k = lt-div-mul-add p in
    let less : a < (b / k + 1) * k = omega (arith, h, above) in
    let strict : a / k < b / k + 1 = (div-lt_iff_lt-mul p).1 less in omega (arith, strict)

-- The largest share.
abbrev pub most_size : ℕ → ℕ → ℕ
most_size workers tasks = tasks / (workers * 4) + 1

module _ (workers begin end : ℕ) (ordered : begin < end) (some_workers : 0 < workers)
    (few : workers < 2 ^ 30)
    (room : end + (workers + 2) * most_size workers (end - begin) < 2 ^ 32) where
  tasks_eq : num_tasks workers begin end ≡ end - begin
  tasks_eq = omega arith

  -- A share is at least one task.
  pub my_size-bounds :
      (seen : ℕ)
      → (1 ≤ my_size workers begin end seen)
        × (my_size workers begin end seen ≤ most_size workers (end - begin))
  unfolding my_size
  my_size-bounds seen =
      let four : workers * 4 % 2 ^ 32 ≡ workers * 4 = omega arith in
      let d =
        div_mono (end - begin - min seen (end - begin)) (end - begin) (workers * 4) (ground arith)
          (omega arith) in
      rw (tasks_eq, four) (ground arith, ground arith)

  abbrev pub tasks : ℕ
  tasks = end - begin

  abbrev pub most : ℕ
  most = most_size workers tasks

  -- The tasks that are run, held and reserved change together.
  abbrev Balance : ℕ → Shared → ℕ → Shared → ℕ → Type 0
  Balance x s h s' h' =
      count x (s'.calls) + h' + within x begin (begin + min (s.num_reserved) tasks)
      ≡ count x (s.calls) + h + within x begin (begin + min (s'.num_reserved) tasks)

  -- The counter grows, up to the end and a share, and from there by the excess of the workers that leave.
  abbrev Grows : ℕ → ℕ → ℕ → ℕ → Type 0
  Grows n e n' e' = (n ≤ n') × ((n' + e ≤ n + e') ⊎ ((n' ≤ tasks + most) × (e ≡ e')))

  -- Who leaves has found all tasks reserved.
  abbrev Leaves : ℕ → ℕ → ℕ → Type 0
  Leaves e n' e' = (e ≡ e') ⊎ (tasks ≤ n')

  abbrev pub Fine : Shared → Type 0
  Fine s = s.num_reserved + begin + most < 2 ^ 32

  -- A reservation, where nothing wraps around.
  unfoldable pub reserved : ℕ → Shared → Shared × Worker
  reserved size s =
      let my_begin = begin + s.num_reserved in
      let my_end = min (my_begin + size) end in
      let counted = record s { num_reserved = s.num_reserved + size } in
      if leb my_end my_begin then (counted, left) else (counted, runs my_begin my_end)

  pub reserve_exact :
      (lag : ℕ) (s : Shared) (seen : ℕ)
      → Fine s
      → worker_step workers begin end lag s (reserves seen)
        ≡ reserved (my_size workers begin end seen) s
  unfolding worker_step reserved
  reserve_exact lag s seen fine =
      let (least, largest) = my_size-bounds seen in
      let size = my_size workers begin end seen in
      let e1 : (begin + s.num_reserved) % 2 ^ 32 ≡ begin + s.num_reserved = omega arith in
      let e2 : (begin + s.num_reserved + size) % 2 ^ 32 ≡ begin + s.num_reserved + size =
        omega arith in
      let e3 : (begin + num_tasks workers begin end) % 2 ^ 32 ≡ end = omega arith in
      let e4 : (s.num_reserved + size) % 2 ^ 32 ≡ s.num_reserved + size = omega arith in
      rw (e3, e1, e2, e4)

  reserve_moves :
      (x : ℕ) (s : Shared) (size : ℕ)
      → 1 ≤ size
      → size ≤ most
      → let (s', w') = reserved size s in
        Balance x s 0 s' (holds x w')
        × Grows (s.num_reserved) 0 (s'.num_reserved) (excess most w')
        × Leaves 0 (s'.num_reserved) (excess most w')
  unfolding reserved holds excess
  reserve_moves x s size least largest =
      elim (Bool-cases (leb (min (begin + s.num_reserved + size) end) (begin + s.num_reserved))) [
        | inl late ↦ rw late (ground arith, (omega arith, inl (omega arith)), inr (ground arith))
        | inr early ↦ rw early (ground arith, (omega arith, inr (ground arith, refl)), inl refl)
      ]

  worker_step-moves :
      (x lag : ℕ) (s : Shared) (w : Worker)
      → Fine s
      → let (s', w') = worker_step workers begin end lag s w in
        Balance x s (holds x w) s' (holds x w')
        × Grows (s.num_reserved) (excess most w) (s'.num_reserved) (excess most w')
        × Leaves (excess most w) (s'.num_reserved) (excess most w')
  unfolding worker_step holds excess count
  worker_step-moves x lag s looks fine = (refl, (omega arith, inl (omega arith)), inl refl)
  worker_step-moves x lag s (reserves seen) fine =
      let (least, largest) = my_size-bounds seen in
      rw (reserve_exact lag s seen fine)
        (reserve_moves x s (my_size workers begin end seen) least largest)
  worker_step-moves x lag s (runs task my_end) fine = elim (Bool-cases (ltb task my_end)) [
    | inl more ↦ rw more (ground arith, (omega arith, inl (omega arith)), inl refl)
    | inr none_left ↦ rw none_left (ground arith, (omega arith, inl (omega arith)), inl refl)
  ]
  worker_step-moves x lag s left fine = (refl, (omega arith, inl (omega arith)), inl refl)

  step_at-moves :
      (x i lag : ℕ) (s : Shared) (ws : List Worker)
      → Fine s
      → let (s', ws') = step_at workers begin end i lag s ws in
        Balance x s (held x ws) s' (held x ws')
        × Grows (s.num_reserved) (excesses most ws) (s'.num_reserved) (excesses most ws')
        × Leaves (excesses most ws) (s'.num_reserved) (excesses most ws')
        × (length ws' ≡ length ws)
  unfolding step_at held excesses
  step_at-moves x i lag s [] fine = (refl, (omega arith, inl (omega arith)), inl refl, refl)
  step_at-moves x zero lag s (w ∷ ws) fine =
      let (balance, (up, grows), leaves) = worker_step-moves x lag s w fine in
      (omega (arith, balance), (up, grind arith), grind arith, refl)
  step_at-moves x (suc i) lag s (w ∷ ws) fine =
      let (balance, (up, grows), leaves, same) = step_at-moves x i lag s ws fine in
      (omega (arith, balance), (up, grind arith), grind arith, omega (arith, same))

  -- The invariant of the pool.
  abbrev pub Kept : Shared → List Worker → Type 0
  Kept s ws =
      ((x : ℕ)
        → count x (s.calls) + held x ws ≡ within x begin (begin + min (s.num_reserved) tasks))
      × (s.num_reserved ≤ tasks + most + excesses most ws)
      × ((excesses most ws ≡ 0) ⊎ (tasks ≤ s.num_reserved))
      × (length ws ≡ workers)

  pub excesses-le : (ws : List Worker) → excesses most ws ≤ length ws * most
  unfolding excesses excess
  excesses-le [] = omega arith
  excesses-le (looks ∷ ws) = omega (arith, excesses-le ws)
  excesses-le (reserves seen ∷ ws) = omega (arith, excesses-le ws)
  excesses-le (runs task my_end ∷ ws) = omega (arith, excesses-le ws)
  excesses-le (left ∷ ws) = omega (arith, excesses-le ws)

  -- There is room for one more share.
  pub Kept-Fine : (s : Shared) (ws : List Worker) → Kept s ws → Fine s
  Kept-Fine s ws (owned, bounded, over, all) =
      let le = excesses-le ws in
      let le' : excesses most ws ≤ workers * most = rw all at le in
      omega (arith, bounded, le', room)

  pub step_at-Kept :
      (i lag : ℕ) (s : Shared) (ws : List Worker)
      → Kept s ws
      → let (s', ws') = step_at workers begin end i lag s ws in Kept s' ws'
  step_at-Kept i lag s ws (owned, bounded, over, all) =
      let fine = Kept-Fine s ws (owned, bounded, over, all) in
      let (balance₀, (up, grows), leaves, same) = step_at-moves 0 i lag s ws fine in
      (
        λ x. omega (arith, (step_at-moves x i lag s ws fine).0, owned x),
        elim grows [ inl g ↦ omega (arith, g, bounded) | inr (g, e) ↦ omega (arith, g, e) ],
        elim leaves [
          | inl e ↦ elim over [
            | inl none ↦ inl (omega (arith, e, none))
            | inr full ↦ inr (omega (arith, full, up))
          ]
          | inr full ↦ inr full
        ],
        omega (arith, same, all),
      )

  pub run-Kept :
      (picks : List (ℕ × ℕ)) (s : Shared) (ws : List Worker)
      → Kept s ws
      → let (s', ws') = run workers begin end picks s ws in Kept s' ws'
  unfolding run
  run-Kept [] s ws kept = kept
  run-Kept (pick ∷ picks) s ws kept = run-Kept picks _ _ (step_at-Kept (pick.0) (pick.1) s ws kept)

  idle :
      (x n : ℕ)
      → (held x (start_workers n) ≡ 0)
        × (excesses most (start_workers n) ≡ 0)
        × (length (start_workers n) ≡ n)
  unfolding held holds excesses excess start_workers
  idle x zero = (refl, refl, refl)
  idle x (suc n) =
      let (h, e, l) = idle x n in (omega (arith, h), omega (arith, e), omega (arith, l))

  pub start_workers-Kept : Kept unreserved (start_workers workers)
  unfolding count
  start_workers-Kept =
      let (held₀, none, all) = idle 0 workers in
      (
        λ x.
            let no_task : within x begin (begin + min 0 tasks) ≡ 0 = ground arith in
            omega (arith, (idle x workers).0, no_task),
        omega arith,
        inl none,
        all,
      )

  -- Let a pool have from one worker to 2 ^ 30, and let the end of the range leave a share of room below
  -- 2 ^ 32 for each worker and two more. However the workers interleave, a task has been run at most once at any time,
  -- and nothing outside of the range.
  pub run-once :
      (picks : List (ℕ × ℕ)) (x : ℕ)
      → count x ((run workers begin end picks unreserved (start_workers workers)).0.calls)
        ≤ (if leb begin x && ltb x end then 1 else 0)
  run-once picks x =
      let (owned, bounded, over, all) =
        run-Kept picks unreserved (start_workers workers) start_workers-Kept in
      let s = (run workers begin end picks unreserved (start_workers workers)).0 in
      let part : within x begin (begin + min (s.num_reserved) tasks) ≤ within x begin end =
        ground arith in
      omega (arith, owned x, part)
