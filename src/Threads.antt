-- ===== src/Threads.antt =====
-- The user-level thread package: threads/thread.c, with the signal mask of threads/interrupt.c.
pub mod State
pub mod Queues
pub mod Store
pub mod Schedule
pub mod Create
pub mod Sync
pub mod Resume
pub mod Places
pub mod Ensures
pub mod System
pub mod Switch
pub mod Waking
pub mod Order
pub mod Faults
