-- ===== src/Threads/Pass.antt =====
-- src/lib/threads/thread_parallel_runner_internal.h, WorkersReadyBarrier: when it lets the main thread pass.
use ssimulacra2_vulcan.Common.{
  ℕ, zero, suc, ◌≡◌, inl, inr, refl, true, List, [], ◌∷◌, length, arith,
}
use ssimulacra2_vulcan.Threads.Barrier.{Pool, Event, happens, history, arriving_threads, new_pool}
use ssimulacra2_vulcan.Threads.Calm.{
  busy, busy_threads, flagged, flagged_threads, AreCalm, Kept, happens-Kept,
}

history-Kept : (es : List Event) (p : Pool) → AreCalm es p → Kept p → Kept (history es p)
unfolding history AreCalm
history-Kept [] p calm kept = kept
history-Kept (e ∷ es) p (first, later) kept =
    history-Kept es (happens e p) later (happens-Kept e p first kept)

new_threads :
    (n : ℕ)
    → (busy_threads (arriving_threads n) ≡ length (arriving_threads n))
      × (flagged_threads (arriving_threads n) ≡ 0)
unfolding busy_threads busy flagged_threads flagged arriving_threads
new_threads zero = (refl, refl)
new_threads (suc n) = let (b, f) = new_threads n in (omega (arith, b), omega (arith, f))

-- Let a pool of n workers be made, and its workers and the main thread interleave in any way in which no worker wakes up unnotified while a
-- command other than kWorkerWait stands. Whenever WorkersReadyBarrier finds as many workers ready as there are, all of them
-- wait for a command: none works on the last one, and none has yet to take it.
pub barrier_waits :
    (n : ℕ) (es : List Event)
    → AreCalm es (new_pool n)
    → (history es (new_pool n)).awaits ≡ true
    → (history es (new_pool n)).workers_ready ≡ length ((history es (new_pool n)).threads)
    → busy_threads ((history es (new_pool n)).threads) ≡ 0
barrier_waits n es calm awaited full =
    let (b, f) = new_threads n in
    elim (history-Kept es (new_pool n) calm (inl (refl, omega (arith, b), inr f))) [
      | inl (open_barrier, sum, c) ↦ omega (arith, full, sum)
      | inr (closed, none_ready, none_busy, c) ↦ none_busy
    ]
