-- ===== src/Threads/Places.antt =====
-- Where a thread id stands in the package of threads/thread.c: it is the running one, or it is in the
-- ready queue, in a wait queue or among the unused ids.
mod Rules
pub mod Switching
pub mod Waiting
pub use Rules.*
