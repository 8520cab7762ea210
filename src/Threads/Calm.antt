-- ===== src/Threads/Calm.antt =====
-- src/lib/threads/thread_parallel_runner_internal.cc: WorkersReadyBarrier lets the main thread pass when no worker works, unless a
-- worker wakes up spuriously while a command stands.
use ssimulacra2_vulcan.Common.{
  ℕ, zero, suc, ◌+◌, ◌≤◌, ◌≡◌, ◌≢◌, ◌⊎◌, inl, inr, refl, Bool, true, false, ◌&&◌, List, [], ◌∷◌,
  length, ◌==◌, Bool-cases, arith,
}
use ssimulacra2_vulcan.Threads.Barrier.{
  Thread, arriving, waiting, working, exited, Command, wait_command, exit_command, run_command,
  Pool, Event, arrives, wakes, finishes, starts, passes, arrive, wake, finish, at, notify, moved,
  happens,
}

-- Whether a thread does not wait, or was notified.
unfoldable pub busy : Thread → ℕ
busy arriving = 1
busy (waiting true) = 1
busy (waiting false) = 0
busy working = 1
busy exited = 1

unfoldable pub busy_threads : List Thread → ℕ
busy_threads [] = 0
busy_threads (t ∷ ts) = busy t + busy_threads ts

unfoldable pub flagged : Thread → ℕ
flagged (waiting true) = 1
flagged (waiting false) = 0
flagged arriving = 0
flagged working = 0
flagged exited = 0

unfoldable pub flagged_threads : List Thread → ℕ
flagged_threads [] = 0
flagged_threads (t ∷ ts) = flagged t + flagged_threads ts

-- Whether a thread may wake up: while a command stands, only if it was notified.
unfoldable pub may_wake : Command → Thread → Bool
may_wake wait_command (waiting true) = false
may_wake wait_command (waiting false) = true
may_wake run_command (waiting n) = n
may_wake exit_command (waiting n) = n
may_wake c arriving = true
may_wake c working = true
may_wake c exited = true

unfoldable pub may_wake_at : Command → ℕ → List Thread → Bool
may_wake_at c i [] = true
may_wake_at c zero (t ∷ ts) = may_wake c t
may_wake_at c (suc i) (t ∷ ts) = may_wake_at c i ts

-- No worker wakes up unnotified while a command stands, and a command that is given is one.
unfoldable pub IsCalm : Event → Pool → Type 0
IsCalm (arrives i) p = Unit {0}
IsCalm (wakes i) p = (p.command ≡ wait_command) ⊎ (may_wake_at (p.command) i (p.threads) ≡ true)
IsCalm (finishes i) p = Unit {0}
IsCalm (starts c) p = c ≢ wait_command
IsCalm passes p = Unit {0}

unfoldable pub AreCalm : List Event → Pool → Type 0
AreCalm [] p = Unit {0}
AreCalm (e ∷ es) p = IsCalm e p × AreCalm es (happens e p)

abbrev pub Kept : Pool → Type 0
Kept p =
    ((p.awaits ≡ true)
      × (p.workers_ready + busy_threads (p.threads) ≡ length (p.threads))
      × ((p.command ≢ wait_command) ⊎ (flagged_threads (p.threads) ≡ 0)))
    ⊎ ((p.awaits ≡ false)
        × (p.workers_ready ≡ 0)
        × (busy_threads (p.threads) ≡ 0)
        × (p.command ≡ wait_command))

-- What a step of one thread keeps.
abbrev Balanced : ℕ → ℕ → ℕ → ℕ → ℕ → Type 0
Balanced n b b' g g' = (n + b' ≡ b) × (g' ≤ g)

arrive-Balanced :
    (t : Thread) → let (n, t') = arrive t in Balanced n (busy t) (busy t') (flagged t) (flagged t')
unfolding arrive busy flagged
arrive-Balanced arriving = (refl, omega arith)
arrive-Balanced (waiting true) = (refl, omega arith)
arrive-Balanced (waiting false) = (refl, omega arith)
arrive-Balanced working = (refl, omega arith)
arrive-Balanced exited = (refl, omega arith)

finish-Balanced :
    (t : Thread) → let (n, t') = finish t in Balanced n (busy t) (busy t') (flagged t) (flagged t')
unfolding finish busy flagged
finish-Balanced arriving = (refl, omega arith)
finish-Balanced (waiting true) = (refl, omega arith)
finish-Balanced (waiting false) = (refl, omega arith)
finish-Balanced working = (refl, omega arith)
finish-Balanced exited = (refl, omega arith)

wake-Balanced :
    (c : Command) (t : Thread)
    → may_wake c t ≡ true
    → let (n, t') = wake c t in Balanced n (busy t) (busy t') (flagged t) (flagged t')
unfolding wake busy flagged may_wake
wake-Balanced c arriving h = (refl, omega arith)
wake-Balanced c working h = (refl, omega arith)
wake-Balanced c exited h = (refl, omega arith)
wake-Balanced wait_command (waiting false) h = (refl, omega arith)
wake-Balanced wait_command (waiting true) h = absurd (ground arith)
wake-Balanced run_command (waiting true) h = (refl, omega arith)
wake-Balanced run_command (waiting false) h = absurd (ground arith)
wake-Balanced exit_command (waiting true) h = (refl, omega arith)
wake-Balanced exit_command (waiting false) h = absurd (ground arith)

abbrev Moves : (Thread → ℕ × Thread) → ℕ → List Thread → Type 0
Moves f i ts =
    let (n, ts') = at f i ts in
    Balanced n (busy_threads ts) (busy_threads ts') (flagged_threads ts) (flagged_threads ts')
    × (length ts' ≡ length ts)

at-Moves :
    (f : Thread → ℕ × Thread)
    → ((t : Thread) → let (n, t') = f t in Balanced n (busy t) (busy t') (flagged t) (flagged t'))
    → (i : ℕ) (ts : List Thread) → Moves f i ts
unfolding at busy_threads flagged_threads
at-Moves f h i [] = ((refl, omega arith), refl)
at-Moves f h zero (t ∷ ts) = let (b, g) = h t in ((omega (arith, b), omega (arith, g)), refl)
at-Moves f h (suc i) (t ∷ ts) =
    let ((b, g), l) = at-Moves f h i ts in ((omega (arith, b), omega (arith, g)), omega (arith, l))

wake-Moves :
    (c : Command) (i : ℕ) (ts : List Thread) → may_wake_at c i ts ≡ true → Moves (wake c) i ts
unfolding at busy_threads flagged_threads may_wake_at
wake-Moves c i [] h = ((refl, omega arith), refl)
wake-Moves c zero (t ∷ ts) h =
    let (b, g) = wake-Balanced c t h in ((omega (arith, b), omega (arith, g)), refl)
wake-Moves c (suc i) (t ∷ ts) h =
    let ((b, g), l) = wake-Moves c i ts h in
    ((omega (arith, b), omega (arith, g)), omega (arith, l))

unflagged :
    (i : ℕ) (ts : List Thread) → flagged_threads ts ≡ 0 → may_wake_at wait_command i ts ≡ true
unfolding flagged_threads flagged may_wake_at may_wake
unflagged i [] h = refl
unflagged zero (arriving ∷ ts) h = refl
unflagged zero (waiting true ∷ ts) h = absurd (omega (arith, h))
unflagged zero (waiting false ∷ ts) h = refl
unflagged zero (working ∷ ts) h = refl
unflagged zero (exited ∷ ts) h = refl
unflagged (suc i) (t ∷ ts) h = unflagged i ts (omega (arith, h))

busy-flagged : (ts : List Thread) → flagged_threads ts ≤ busy_threads ts
unfolding flagged_threads flagged busy_threads busy
busy-flagged [] = omega arith
busy-flagged (arriving ∷ ts) = omega (arith, busy-flagged ts)
busy-flagged (waiting true ∷ ts) = omega (arith, busy-flagged ts)
busy-flagged (waiting false ∷ ts) = omega (arith, busy-flagged ts)
busy-flagged (working ∷ ts) = omega (arith, busy-flagged ts)
busy-flagged (exited ∷ ts) = omega (arith, busy-flagged ts)

-- When all wait, notify_all reaches all of them.
notify-all :
    (ts : List Thread)
    → busy_threads ts ≡ 0
    → (busy_threads (notify ts) ≡ length ts) × (length (notify ts) ≡ length ts)
unfolding busy_threads busy notify
notify-all [] h = (refl, refl)
notify-all (waiting false ∷ ts) h =
    let (b, l) = notify-all ts (omega (arith, h)) in (omega (arith, b), omega (arith, l))
notify-all (waiting true ∷ ts) h = absurd (omega (arith, h))
notify-all (arriving ∷ ts) h = absurd (omega (arith, h))
notify-all (working ∷ ts) h = absurd (omega (arith, h))
notify-all (exited ∷ ts) h = absurd (omega (arith, h))

moved-Kept :
    (f : Thread → ℕ × Thread) (i : ℕ) (p : Pool)
    → Moves f i (p.threads)
    → Kept p
    → Kept (moved p (at f i (p.threads)))
moved-Kept f i p ((b, g), l) (inl (open_barrier, sum, inl c)) =
    inl (open_barrier, omega (arith, b, l, sum), inl c)
moved-Kept f i p ((b, g), l) (inl (open_barrier, sum, inr none_flagged)) =
    inl (open_barrier, omega (arith, b, l, sum), inr (omega (arith, g, none_flagged)))
moved-Kept f i p ((b, g), l) (inr (closed, zero_ready, none_busy, c)) =
    inr (closed, omega (arith, b, zero_ready, none_busy), omega (arith, b, none_busy), c)

may_wake-now :
    (i : ℕ) (p : Pool) → Kept p → IsCalm (wakes i) p → may_wake_at (p.command) i (p.threads) ≡ true
unfolding IsCalm
may_wake-now i p kept (inr may) = may
may_wake-now i p (inl (open_barrier, sum, inl c)) (inl waits) = absurd (c waits)
may_wake-now i p (inl (open_barrier, sum, inr none_flagged)) (inl waits) =
    rw waits (unflagged i (p.threads) none_flagged)
may_wake-now i p (inr (closed, zero_ready, none_busy, c)) (inl waits) =
    rw waits (unflagged i (p.threads) (omega (arith, none_busy, busy-flagged (p.threads))))

pub happens-Kept : (e : Event) (p : Pool) → IsCalm e p → Kept p → Kept (happens e p)
unfolding happens IsCalm
happens-Kept (arrives i) p calm kept =
    moved-Kept arrive i p (at-Moves arrive arrive-Balanced i (p.threads)) kept
happens-Kept (finishes i) p calm kept =
    moved-Kept finish i p (at-Moves finish finish-Balanced i (p.threads)) kept
happens-Kept (wakes i) p calm kept =
    moved-Kept (wake (p.command)) i p
      (wake-Moves (p.command) i (p.threads) (may_wake-now i p kept calm)) kept
happens-Kept (starts c) p calm (inl (open_barrier, sum, c')) = rw open_barrier (inl (refl, sum, c'))
happens-Kept (starts c) p calm (inr (closed, zero_ready, none_busy, waits)) =
    let (b, l) = notify-all (p.threads) none_busy in
    rw closed (inl (refl, omega (arith, b, l, zero_ready), inl calm))
happens-Kept passes p calm kept =
    elim (Bool-cases (p.awaits && p.workers_ready == length (p.threads))) [
      | inl ready ↦
          let awaited : p.awaits ≡ true = ground arith in
          let full : p.workers_ready ≡ length (p.threads) = ground arith in
          elim kept [
            | inl (open_barrier, sum, c) ↦
                rw ready (inr (refl, refl, omega (arith, full, sum), refl))
            | inr (closed, none_ready, none_busy, c) ↦ absurd (ground arith)
          ]
      | inr not_ready ↦ rw not_ready kept
    ]
