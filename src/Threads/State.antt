-- ===== src/Threads/State.antt =====
-- The data of threads/thread.c: thread control blocks, locks and condition variables, the globals of
-- the package, and what a call of the package may do to the calling thread.
use web_server_and_user_leve.Prelude.{ℕ, Bool, Option, List, update}
use web_server_and_user_leve.Prelude.Int.{ℤ, negsuc}

-- THREAD_MAX_THREADS of threads/thread.h.
abbrev pub max_threads : ℕ
max_threads = 1024

-- The control and error codes of threads/thread.h, -1 to -6.
abbrev pub thread_any : ℤ
thread_any = negsuc 0

abbrev pub thread_self : ℤ
thread_self = negsuc 1

abbrev pub thread_invalid : ℤ
thread_invalid = negsuc 2

abbrev pub thread_none : ℤ
thread_none = negsuc 3

abbrev pub thread_nomore : ℤ
thread_nomore = negsuc 4

abbrev pub thread_nomemory : ℤ
thread_nomemory = negsuc 5

pub data ThreadState : Type 0 where
  not_assigned ready running : ThreadState

-- The calls of the package that stand on a suspended thread's stack above `thread_yield`, each with
-- the locals that it still reads. `enabled` is the interrupt state which it restores.
pub data Frame : Type 0 where
  in_sleep : (enabled : Bool) → Frame
  in_wait : (tid : ℤ) (enabled : Bool) → Frame
  in_acquire : (lock : ℕ) (enabled : Bool) → Frame
  in_cv_sleep : (lock : ℕ) (enabled : Bool) → Frame
  in_cv_acquire : (enabled : Bool) → Frame
  in_handler : Frame

-- Where a saved context continues: nowhere (zeroed by memset), behind the getcontext of
-- `thread_create`, at the start of `thread_stub`, or behind the getcontext of `thread_yield` with its
-- locals `nextTidToRun`, `oldThreadId`, `enabled` and its callers.
pub data Point : Type 0 where
  cleared : Point
  in_create : Point
  at_stub : (fn parg : ℕ) → Point
  in_yield : (next old : ℕ) (enabled : Bool) (frames : List Frame) → Point

-- `ucontext_t`: the point, and the signal mask (true where the timer signal is let through).
pub record Context : Type 0 where
  pub point : Point
  pub interrupts : Bool

pub record Thread : Type 0 where
  pub t_state : ThreadState
  pub id : ℕ
  pub mycontext : Context
  pub stack_to_free : Option ℕ
  pub setcontext_called : Bool
  pub kill_on_next_run : Bool
  pub wait_queue : Option ℕ
  pub t_wait : Option ℕ

pub record Lock : Type 0 where
  pub wait_on_lock : ℕ
  pub is_acquired : Bool
  pub acquired_by : ℤ

-- The globals, and the objects reached by pointers. A pointer to a wait queue, a lock or a condition
-- variable is its number in `wait_queues`, `locks` or `cvs`; a freed object is `none` there. A wait
-- queue is the list of ids behind its dummy head.
pub record Package : Type 0 where
  pub tcbs : ℕ → Thread
  pub current_thread_id : ℕ
  pub ready_queue : List ℕ
  pub available_ids : List ℕ
  pub wait_queues : List (Option (List ℕ))
  pub locks : List (Option Lock)
  pub cvs : List (Option ℕ)
  pub interrupts : Bool

-- What a call does: it returns to the calling thread; it leaves through setcontext, and the thread
-- `current_thread_id` goes on at its saved context; it ends the process by exit(0); an assert fails;
-- it reads outside an array or through a freed pointer; or its fuel ends.
pub data Outcome {ℓ} (A : Type ℓ) : Type ℓ where
  returned : A → Package → Outcome A
  switched : Package → Outcome A
  exited : Package → Outcome A
  aborted : Outcome A
  undefined : Outcome A
  out_of_fuel : Outcome A

abbrev pub M : Type 0 → Type 0
M A = Package → Outcome A

abbrev pub pure : {A : Type 0} → A → M A
pure a s = returned a s

abbrev pub and_then : {A B : Type 0} → Outcome A → (A → M B) → Outcome B
and_then (returned a s) f = f a s
and_then (switched s) f = switched s
and_then (exited s) f = exited s
and_then aborted f = aborted
and_then undefined f = undefined
and_then out_of_fuel f = out_of_fuel

infixl 5 ◌>>=◌ ◌>>◌
abbrev pub ◌>>=◌ : {A B : Type 0} → M A → (A → M B) → M B
◌>>=◌ m f s = and_then (m s) f

abbrev pub ◌>>◌ : {A B : Type 0} → M A → M B → M B
m >> k = m >>= λ _. k

abbrev pub get : M Package
get s = returned s s

abbrev pub modify : (Package → Package) → M (Unit {0})
modify f s = returned tt (f s)

-- `TCBs[i]` with new contents.
abbrev pub set_tcb : ℕ → Thread → Package → Package
set_tcb i t s = record s { tcbs = update s.tcbs i t }

-- `TCBs[current_thread_id]`
abbrev pub current : Package → Thread
current s = s.tcbs s.current_thread_id

-- interrupts_set of threads/interrupt.c, on the signal mask of the process: the state before.
unfoldable pub interrupts_set : Bool → M Bool
interrupts_set enabled s = returned s.interrupts (record s { interrupts = enabled })
