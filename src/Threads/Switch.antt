-- ===== src/Threads/Switch.antt =====
-- Which state `thread_yield` of threads/thread.c leaves behind, on each of its branches.
pub mod Leave
pub mod Refuse
pub mod Return
pub mod Stale
