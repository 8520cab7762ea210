-- ===== src/Threads/Ends.antt =====
-- src/lib/threads/thread_parallel_runner_internal.cc, RunRange: the workers return, after as many steps
-- as there are tasks and workers allow.
use ssimulacra2_vulcan.Common.{
  ℕ, zero, suc, ◌+◌, ◌-◌, ◌*◌, ◌^◌, ◌<◌, ◌≤◌, ◌≡◌, ◌⊎◌, inl, inr, refl, Bool, true, false, List, [],
  ◌∷◌, min, ◌≢◌, ltb, leb, ◌&&◌, if◌then◌else◌, Bool-cases, arith, length,
}
use ssimulacra2_vulcan.Threads.RunRange.{
  Worker, looks, reserves, runs, left, Shared, my_size, worker_step, step_at, run, start_workers,
  unreserved,
}
use ssimulacra2_vulcan.Threads.Once.{
  count, holds, held, excess, excesses, most_size, my_size-bounds, reserve_exact, reserved, most,
  Kept, Fine, Kept-Fine, step_at-Kept, start_workers-Kept, run-Kept,
}

abbrev has_left : Worker → Bool
has_left left = true
has_left looks = false
has_left (reserves seen) = false
has_left (runs task my_end) = false

-- Whether all workers have returned.
unfoldable pub all_left : List Worker → Bool
all_left [] = true
all_left (w ∷ ws) = has_left w && all_left ws

-- Whether there is a worker with a number that has not returned.
unfoldable pub is_busy : ℕ → List Worker → Bool
is_busy i [] = false
is_busy zero (left ∷ ws) = false
is_busy zero (looks ∷ ws) = true
is_busy zero (reserves seen ∷ ws) = true
is_busy zero (runs task my_end ∷ ws) = true
is_busy (suc i) (w ∷ ws) = is_busy i ws

-- The steps that a worker has before it, with the tasks that it holds.
unfoldable cost : Worker → ℕ
cost left = 0
cost looks = 3
cost (reserves seen) = 2
cost (runs task my_end) = my_end - task + 4

unfoldable costs : List Worker → ℕ
costs [] = 0
costs (w ∷ ws) = cost w + costs ws

module _ (workers begin end : ℕ) where
  -- What a schedule that never picks a worker that has returned, while there are others, has.
  unfoldable pub IsDiligent : List (ℕ × ℕ) → Shared → List Worker → Type 0
  IsDiligent [] s ws = Unit {0}
  IsDiligent (pick ∷ picks) s ws =
      ((all_left ws ≡ true) ⊎ (is_busy (pick.0) ws ≡ true))
      × let (s', ws') = step_at workers begin end (pick.0) (pick.1) s ws in IsDiligent picks s' ws'

module _ (workers begin end : ℕ) (ordered : begin < end) (some_workers : 0 < workers)
    (few : workers < 2 ^ 30)
    (room : end + (workers + 2) * most_size workers (end - begin) < 2 ^ 32) where
  abbrev remaining : Shared → ℕ
  remaining s = end - begin - min (s.num_reserved) (end - begin)

  reserve-falls :
      (s : Shared) (size : ℕ)
      → 1 ≤ size
      → let (s', w') = reserved workers begin end ordered some_workers few room size s in
        4 * remaining s' + cost w' < 4 * remaining s + 2
  unfolding reserved cost
  reserve-falls s size least =
      elim (Bool-cases (leb (min (begin + s.num_reserved + size) end) (begin + s.num_reserved))) [
        | inl late ↦ rw late (ground arith)
        | inr early ↦ rw early (ground arith)
      ]

  worker_step-falls :
      (lag : ℕ) (s : Shared) (w : Worker)
      → Fine workers begin end ordered some_workers few room s
      → has_left w ≡ false
      → let (s', w') = worker_step workers begin end lag s w in
        4 * remaining s' + cost w' < 4 * remaining s + cost w
  unfolding worker_step cost
  worker_step-falls lag s looks fine busy = omega arith
  worker_step-falls lag s (reserves seen) fine busy =
      let (least, largest) = my_size-bounds workers begin end ordered some_workers few room seen in
      rw (reserve_exact workers begin end ordered some_workers few room lag s seen fine)
        (reserve-falls s (my_size workers begin end seen) least)
  worker_step-falls lag s (runs task my_end) fine busy = elim (Bool-cases (ltb task my_end)) [
    | inl more ↦ rw more (ground arith)
    | inr none_left ↦ rw none_left (ground arith)
  ]
  worker_step-falls lag s left fine busy = absurd (ground arith)

  step_at-falls :
      (i lag : ℕ) (s : Shared) (ws : List Worker)
      → Fine workers begin end ordered some_workers few room s
      → is_busy i ws ≡ true
      → let (s', ws') = step_at workers begin end i lag s ws in
        4 * remaining s' + costs ws' < 4 * remaining s + costs ws
  unfolding step_at is_busy costs
  step_at-falls i lag s [] fine busy = absurd (ground arith)
  step_at-falls zero lag s (left ∷ ws) fine busy = absurd (ground arith)
  step_at-falls zero lag s (looks ∷ ws) fine busy =
      omega (arith, worker_step-falls lag s looks fine refl)
  step_at-falls zero lag s (reserves seen ∷ ws) fine busy =
      omega (arith, worker_step-falls lag s (reserves seen) fine refl)
  step_at-falls zero lag s (runs task my_end ∷ ws) fine busy =
      omega (arith, worker_step-falls lag s (runs task my_end) fine refl)
  step_at-falls (suc i) lag s (w ∷ ws) fine busy = omega (arith, step_at-falls i lag s ws fine busy)

  step_at-left :
      (i lag : ℕ) (s : Shared) (ws : List Worker)
      → all_left ws ≡ true
      → all_left ((step_at workers begin end i lag s ws).1) ≡ true
  unfolding step_at worker_step all_left
  step_at-left i lag s [] h = refl
  step_at-left zero lag s (left ∷ ws) h = h
  step_at-left (suc i) lag s (left ∷ ws) h = step_at-left i lag s ws h
  step_at-left i lag s (looks ∷ ws) h = absurd (ground arith)
  step_at-left i lag s (reserves seen ∷ ws) h = absurd (ground arith)
  step_at-left i lag s (runs task my_end ∷ ws) h = absurd (ground arith)

  run-left :
      (picks : List (ℕ × ℕ)) (s : Shared) (ws : List Worker)
      → all_left ws ≡ true
      → all_left ((run workers begin end picks s ws).1) ≡ true
  unfolding run
  run-left [] s ws h = h
  run-left (pick ∷ picks) s ws h = run-left picks _ _ (step_at-left (pick.0) (pick.1) s ws h)

  costless : (ws : List Worker) → costs ws ≡ 0 → all_left ws ≡ true
  unfolding costs cost all_left
  costless [] h = refl
  costless (left ∷ ws) h = costless ws (omega (arith, h))
  costless (looks ∷ ws) h = absurd (omega (arith, h))
  costless (reserves seen ∷ ws) h = absurd (omega (arith, h))
  costless (runs task my_end ∷ ws) h = absurd (omega (arith, h))

  run-ends :
      (picks : List (ℕ × ℕ)) (s : Shared) (ws : List Worker)
      → Kept workers begin end ordered some_workers few room s ws
      → IsDiligent workers begin end picks s ws
      → 4 * remaining s + costs ws ≤ length picks
      → all_left ((run workers begin end picks s ws).1) ≡ true
  unfolding run IsDiligent
  run-ends [] s ws kept diligent enough = costless ws (omega (arith, enough))
  run-ends (pick ∷ picks) s ws kept (inl done, later) enough = run-left (pick ∷ picks) s ws done
  run-ends (pick ∷ picks) s ws kept (inr busy, later) enough =
      let fine = Kept-Fine workers begin end ordered some_workers few room s ws kept in
      let less = step_at-falls (pick.0) (pick.1) s ws fine busy in
      run-ends picks _ _
        (step_at-Kept workers begin end ordered some_workers few room (pick.0) (pick.1) s ws kept)
        later (omega (arith, less, enough))

  start_costs : (n : ℕ) → costs (start_workers n) ≡ 3 * n
  unfolding costs cost start_workers
  start_costs zero = refl
  start_costs (suc n) = omega (arith, start_costs n)

  all_left-held : (x : ℕ) (ws : List Worker) → all_left ws ≡ true → held x ws ≡ 0
  unfolding all_left held holds
  all_left-held x [] h = refl
  all_left-held x (left ∷ ws) h = omega (arith, all_left-held x ws h)
  all_left-held x (looks ∷ ws) h = absurd (ground arith)
  all_left-held x (reserves seen ∷ ws) h = absurd (ground arith)
  all_left-held x (runs task my_end ∷ ws) h = absurd (ground arith)

  all_left-excesses :
      (ws : List Worker)
      → all_left ws ≡ true
      → 0 < length ws
      → excesses (most workers begin end ordered some_workers few room) ws ≢ 0
  unfolding all_left excesses excess
  all_left-excesses [] h l = absurd (omega (arith, l))
  all_left-excesses (left ∷ ws) h l = λ e. omega (arith, e)
  all_left-excesses (looks ∷ ws) h l = absurd (ground arith)
  all_left-excesses (reserves seen ∷ ws) h l = absurd (ground arith)
  all_left-excesses (runs task my_end ∷ ws) h l = absurd (ground arith)

  -- Let a pool have from one worker to 2 ^ 30, and let the end of the range leave a share of room below
  -- 2 ^ 32 for each worker and two more. A schedule of four steps for each task and three for each worker,
  -- that picks a worker which has not returned while there is one, ends with all workers returned, each task of the
  -- range run exactly once, and no other task run.
  pub run-all :
      (picks : List (ℕ × ℕ))
      → IsDiligent workers begin end picks unreserved (start_workers workers)
      → 4 * (end - begin) + 3 * workers ≤ length picks
      → let (s, ws) = run workers begin end picks unreserved (start_workers workers) in
        (all_left ws ≡ true)
        × ((x : ℕ) → count x (s.calls) ≡ (if leb begin x && ltb x end then 1 else 0))
  run-all picks diligent enough =
      let kept = start_workers-Kept workers begin end ordered some_workers few room in
      let (s, ws) = run workers begin end picks unreserved (start_workers workers) in
      let first = start_costs workers in
      let done =
        run-ends picks unreserved (start_workers workers) kept diligent
          (omega (arith, first, enough)) in
      let (owned, bounded, over, all) =
        run-Kept workers begin end ordered some_workers few room picks unreserved
          (start_workers workers) kept in
      let full : end - begin ≤ s.num_reserved = elim over [
        | inl none ↦ absurd (all_left-excesses ws done (omega (arith, all)) none)
        | inr reached ↦ reached
      ] in
      let whole : begin + min (s.num_reserved) (end - begin) ≡ end = omega (arith, full) in
      (done, λ x. let o = owned x in omega (arith, rw whole at o, all_left-held x ws done))
