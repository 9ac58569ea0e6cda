-- ===== src/Threads/System.antt =====
-- The threads of a process on threads/thread.c, one of which runs at a time: the calls that a program
-- makes, the timer signals that come between them, and the states that can be reached.
pub mod Closed
pub mod Marks
pub mod Switches
pub mod Start
pub mod Soundness
pub mod Calls
