-- ===== src/Threads/System/Calls.antt =====
-- The calls that the code of a thread makes of threads/thread.c, and the states of the process.
use web_server_and_user_leve.Prelude.{ℕ, ◌≡◌, Bool, true, false, Option, none, []}
use web_server_and_user_leve.Prelude.Int.{ℤ}
use web_server_and_user_leve.Threads.State.{
  not_assigned, cleared, Thread, Package, returned, switched, M, pure, ◌>>◌,
}
use web_server_and_user_leve.Threads.Store.{wait_queue_create, wait_queue_destroy, thread_wakeup}
use web_server_and_user_leve.Threads.Schedule.{thread_yield, thread_exit}
use web_server_and_user_leve.Threads.Create.{thread_kill, thread_create, thread_init}
use web_server_and_user_leve.Threads.Sync.{
  thread_sleep, thread_wait, lock_create, lock_destroy, lock_acquire, lock_release, cv_create,
  cv_destroy, cv_wait, cv_wake,
}
use web_server_and_user_leve.Threads.Resume.{Landing, resume, timer_signal}

-- A call with its arguments; a NULL pointer is `none`. `signal` is the timer.
pub data Call : Type 0 where
  create : (stack : Option ℕ) (fn parg : ℕ) → Call
  yield : (want : ℤ) → Call
  kill : (tid : ℤ) → Call
  sleep : (queue : Option ℕ) → Call
  wakeup : (queue : Option ℕ) (all : Bool) → Call
  wait : (tid : ℤ) → Call
  exit queue_create make_lock make_cv signal : Call
  queue_destroy : (w : ℕ) → Call
  destroy_lock acquire release destroy_cv : (p : Option ℕ) → Call
  wait_on_cv : (cv lock : Option ℕ) → Call
  wake_cv : (all : Bool) (cv lock : Option ℕ) → Call

abbrev pub void : {A : Type 0} → M A → M (Unit {0})
void m = m >> pure tt

-- The call from the thread's own code, so that nothing of the package is on the stack above it.
unfoldable pub do_call : ℕ → Call → M (Unit {0})
do_call fuel (create stack fn parg) = void (thread_create stack fn parg)
do_call fuel (yield want) = void (thread_yield want [])
do_call fuel (kill tid) = void (thread_kill tid)
do_call fuel (sleep queue) = void (thread_sleep queue [])
do_call fuel (wakeup queue all) = void (thread_wakeup queue all)
do_call fuel (wait tid) = void (thread_wait tid [])
do_call fuel exit = thread_exit
do_call fuel queue_create = void wait_queue_create
do_call fuel make_lock = void lock_create
do_call fuel make_cv = void cv_create
do_call fuel signal = void timer_signal
do_call fuel (queue_destroy w) = wait_queue_destroy w
do_call fuel (destroy_lock p) = lock_destroy p
do_call fuel (acquire p) = lock_acquire fuel p []
do_call fuel (release p) = lock_release p
do_call fuel (destroy_cv p) = cv_destroy p
do_call fuel (wait_on_cv cv lock) = cv_wait fuel cv lock []
do_call fuel (wake_cv all cv lock) = cv_wake all cv lock

-- The running thread is in its own code, or it has just been given the processor by setcontext.
pub data System : Type 0 where
  in_user : Package → System
  in_switch : Package → System

-- A call that returns or leaves, and a resumed thread that gets back to its own code, or leaves again
-- before it does. The fuel for the loops of `lock_acquire` is any that suffices.
pub data Step : System → System → Type 0 where
  returns :
      (fuel : ℕ) (c : Call) {s s' : Package}
      → do_call fuel c s ≡ returned tt s'
      → Step (in_user s) (in_user s')
  leaves :
      (fuel : ℕ) (c : Call) {s s' : Package}
      → do_call fuel c s ≡ switched s'
      → Step (in_user s) (in_switch s')
  lands :
      (fuel : ℕ) {v : Landing} {s s' : Package}
      → resume fuel s ≡ returned v s'
      → Step (in_switch s) (in_user s')
  leaves_again :
      (fuel : ℕ) {s s' : Package} → resume fuel s ≡ switched s' → Step (in_switch s) (in_switch s')

-- The globals before `thread_init`: C sets them to zero. The running thread's id is -1 there, and is 0
-- here; `thread_init` sets it before anything reads it.
abbrev pub zero_thread : Thread
zero_thread = record {
  t_state = not_assigned;
  id = 0;
  mycontext = record { point = cleared; interrupts = false };
  stack_to_free = none;
  setcontext_called = false;
  kill_on_next_run = false;
  wait_queue = none;
  t_wait = none;
}

abbrev pub zero_package : Package
zero_package = record {
  tcbs = λ i. zero_thread;
  current_thread_id = 0;
  ready_queue = [];
  available_ids = [];
  wait_queues = [];
  locks = [];
  cvs = [];
  interrupts = true;
}

-- The states behind `thread_init`.
pub data Reach : System → Type 0 where
  start : {s : Package} → thread_init zero_package ≡ returned tt s → Reach (in_user s)
  next : {u v : System} → Reach u → Step u v → Reach v
