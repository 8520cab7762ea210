-- ===== src/Threads.antt =====
-- src/lib/threads/thread_parallel_runner_internal.cc: the thread pool.
pub mod RunRange
pub mod Once
pub mod Ends
pub mod Runner
pub mod Refines
pub mod Barrier
pub mod Calm
pub mod Pass
