-- ===== src/Threads/Create.antt =====
-- thread_init, thread_create and thread_kill of threads/thread.c: the operations on another thread.
use web_server_and_user_leve.Prelude.{
  ℕ, zero, suc, ◌-◌, Bool, true, false, Option, none, some, List, [], leb, if◌then◌else◌,
}
use web_server_and_user_leve.Prelude.Int.{ℤ, pos, negsuc, eqb_ℤ}
use web_server_and_user_leve.Threads.State.{
  ThreadState, not_assigned, ready, running, cleared, in_create, at_stub, Context, Thread, returned,
  undefined, M, pure, ◌>>=◌, ◌>>◌, get, modify, set_tcb, current, interrupts_set, max_threads,
  thread_invalid, thread_nomore, thread_nomemory,
}
use web_server_and_user_leve.Threads.Queues.{add_to_tail, add_to_head_id, remove_from_head}
use web_server_and_user_leve.Threads.Store.{is_not_assigned, wait_queue_create}
use web_server_and_user_leve.Threads.Schedule.{out_of_range, getcontext}

-- `TCBs[tid]` for a tid that only the caller has checked: undefined out of the array.
unfoldable pub read_tcb : ℤ → M Thread
read_tcb (pos n) s = if leb max_threads n then undefined else returned (s.tcbs n) s
read_tcb (negsuc n) s = undefined

abbrev pub set_kill : ℤ → M (Unit {0})
set_kill (pos n) = modify λ s. set_tcb n (record (s.tcbs n) { kill_on_next_run = true }) s
set_kill (negsuc n) = λ s. undefined

unfoldable pub thread_kill : ℤ → M ℤ
unfolding interrupts_set read_tcb
thread_kill tid = do
  enabled ← interrupts_set false
  s ← get
  if out_of_range tid
      then (do interrupts_set enabled; pure thread_invalid)
      else if eqb_ℤ tid (pos s.current_thread_id)
      then (do interrupts_set enabled; pure thread_invalid)
      else do
        t ← read_tcb tid
        if is_not_assigned t.t_state
            then (do interrupts_set enabled; pure thread_invalid)
            else (do set_kill tid; interrupts_set enabled; pure tid)

-- The new thread's control block: the stack, and a copy of the creator's context with another point.
abbrev pub created : ℕ → ℕ → ℕ → Context → Thread → Thread
created stack fn parg c t = record t {
  stack_to_free = some stack;
  mycontext = record c { point = at_stub fn parg };
  t_state = ready;
}

unfoldable pub create_thread : Option ℕ → ℕ → ℕ → Bool → Option ℕ × List ℕ → M ℤ
unfolding interrupts_set
create_thread stack fn parg enabled (none, ids) = do interrupts_set enabled; pure thread_nomore
create_thread none fn parg enabled (some id, ids) = do
  modify λ s. record s { available_ids = ids }
  modify λ s. set_tcb id (record (s.tcbs id) { stack_to_free = none }) s
  interrupts_set enabled
  pure thread_nomemory
create_thread (some stack) fn parg enabled (some id, ids) = do
  modify λ s. record s { available_ids = ids }
  modify λ s. set_tcb id (created stack fn parg (current s).mycontext (s.tcbs id)) s
  modify λ s. record s { ready_queue = add_to_tail s.ready_queue id }
  interrupts_set enabled
  pure (pos id)

-- thread_create; `stack` is what malloc(THREAD_MIN_STACK) returns, `none` for NULL.
unfoldable pub thread_create : Option ℕ → ℕ → ℕ → M ℤ
unfolding interrupts_set getcontext remove_from_head
thread_create stack fn parg = do
  enabled ← interrupts_set false
  getcontext in_create
  s ← get
  create_thread stack fn parg enabled (remove_from_head s.available_ids)

-- One round of the loop of `thread_init`.
abbrev pub new_thread : ℕ → ThreadState → ℕ → Thread
new_thread i state w = record {
  t_state = state;
  id = i;
  mycontext = record { point = cleared; interrupts = false };
  stack_to_free = none;
  setcontext_called = false;
  kill_on_next_run = false;
  wait_queue = none;
  t_wait = some w;
}

unfoldable pub init_thread : ℕ → M (Unit {0})
init_thread i = do
  modify λ s. record s { available_ids = add_to_head_id s.available_ids i }
  w ← wait_queue_create
  modify (set_tcb i (new_thread i not_assigned w))

-- `for (i = n; i >= 1; i--)`
unfoldable pub init_threads : ℕ → M (Unit {0})
init_threads zero = pure tt
init_threads (suc n) = init_thread (suc n) >> init_threads n

-- `thread_init` behind its loop.
abbrev pub finish_init : Unit {0} → M (Unit {0})
finish_init _ = do
  w ← wait_queue_create
  modify (set_tcb 0 (new_thread 0 running w))
  modify λ s. record s { current_thread_id = 0 }

unfoldable pub thread_init : M (Unit {0})
thread_init = do
  modify λ s. record s { ready_queue = []; available_ids = [] }
  init_threads (max_threads - 1) >>= finish_init
