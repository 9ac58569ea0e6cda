-- ===== src/Threads/Waking.antt =====
-- Sleeping and waking, and the locks of threads/thread.c.
pub mod Wakeup
pub mod Sleep
pub mod Locks
pub mod Acquire
