-- ===== src/Threads/Schedule.antt =====
-- Creation, switching, exit and killing of threads in threads/thread.c.
use web_server_and_user_leve.Prelude.{
  ℕ, Bool, true, false, ◌||◌, Option, none, some, List, if◌then◌else◌, update,
}
use web_server_and_user_leve.Prelude.Int.{ℤ, pos, negsuc, eqb_ℤ, ltb_ℤ, leb_ℤ}
use web_server_and_user_leve.Threads.State.{
  not_assigned, ready, running, Frame, Point, cleared, in_yield, Package, switched, exited, M, pure,
  ◌>>=◌, ◌>>◌, get, modify, set_tcb, current, interrupts_set, max_threads, thread_any, thread_self,
  thread_invalid, thread_none,
}
use web_server_and_user_leve.Threads.Queues.{
  push_thread_to_wait, add_to_tail, remove_next_ready_thread, remove_from_ready_queue,
  add_to_head_id,
}
use web_server_and_user_leve.Threads.Store.{
  is_not_assigned, read_queue, write_queue, thread_wakeup, free_tcb_stacks,
  dealloc_wait_queues_from,
}

-- getcontext(&TCBs[current_thread_id].mycontext), which saves the signal mask too.
unfoldable pub getcontext : Point → M (Unit {0})
getcontext p = modify λ s.
    set_tcb s.current_thread_id
      (record (current s) { mycontext = record { point = p; interrupts = s.interrupts } }) s

-- setcontext: the saved context is the one that runs from here on, under its signal mask.
unfoldable pub setcontext : ℕ → M (Unit {0})
setcontext next s = switched (record s { interrupts = (s.tcbs next).mycontext.interrupts })

-- The global id and the state of the thread that takes over.
abbrev pub make_running : ℕ → Package → Package
make_running next s = record s {
  current_thread_id = next;
  tcbs = update s.tcbs next (record (s.tcbs next) { t_state = running });
}

abbrev pub clear_current : Package → Package
clear_current s =
    set_tcb s.current_thread_id
      (record (current s) {
        mycontext = record { point = cleared; interrupts = false };
        t_state = not_assigned;
        kill_on_next_run = false;
        wait_queue = none;
      })
      s

-- The end of `thread_exit`: the next ready thread, or the end of the process.
unfoldable pub exit_to : Bool → Option ℕ × List ℕ → M (Unit {0})
unfolding interrupts_set
exit_to enabled (none, q) = do
  free_tcb_stacks
  modify (dealloc_wait_queues_from max_threads)
  interrupts_set enabled
  λ s. exited s
exit_to enabled (some next, q) = do
  modify λ s. make_running next (record s { ready_queue = q })
  setcontext next

unfoldable pub thread_exit : M (Unit {0})
unfolding interrupts_set
thread_exit = do
  enabled ← interrupts_set false
  modify clear_current
  s ← get
  thread_wakeup (current s).t_wait true
  modify λ s. record s { available_ids = add_to_head_id s.available_ids s.current_thread_id }
  s ← get
  exit_to enabled (remove_next_ready_thread s.ready_queue)

-- threadResponsibilities: frees the stacks of exited threads; a killed thread exits here.
unfoldable pub thread_responsibilities : M (Unit {0})
unfolding interrupts_set
thread_responsibilities = do
  enabled ← interrupts_set false
  free_tcb_stacks
  interrupts_set enabled
  s ← get
  if (current s).kill_on_next_run then thread_exit else pure tt

-- The yielding thread goes to the end of the wait queue it asked for, or of the ready queue.
abbrev pub ready_current : Package → Package
ready_current s = set_tcb s.current_thread_id (record (current s) { t_state = ready }) s

abbrev pub join_queue : ℕ → List ℕ → M (Unit {0})
join_queue w q = do
  s ← get
  write_queue w (some (push_thread_to_wait q s.current_thread_id))
  modify λ s. set_tcb s.current_thread_id (record (current s) { wait_queue = none }) s

unfoldable pub enqueue_current : Option ℕ → M (Unit {0})
enqueue_current (some w) = read_queue w >>= join_queue w
enqueue_current none =
    modify λ s. record s { ready_queue = add_to_tail s.ready_queue s.current_thread_id }

abbrev pub mark_called : ℕ → Bool → Package → Package
mark_called i b s = set_tcb i (record (s.tcbs i) { setcontext_called = b }) s

-- The block of `thread_yield` under `setcontext_called == 0`.
unfoldable pub switch_to : ℕ → ℕ → M (Unit {0})
switch_to next old = do
  modify ready_current
  s ← get
  enqueue_current (current s).wait_queue
  modify (make_running next)
  modify (mark_called old true)
  setcontext next

-- The end of `thread_yield`, for a thread that is running again.
abbrev pub finish_yield : ℕ → Bool → M ℤ
finish_yield next enabled = do
  modify λ s. mark_called s.current_thread_id false s
  interrupts_set enabled
  pure (pos next)

-- `if (TCBs[current_thread_id].setcontext_called == 0) { … }`, `called` being the flag.
abbrev pub yield_block : Bool → ℕ → ℕ → M (Unit {0})
yield_block called next old = if called then pure tt else switch_to next old

-- `thread_yield` behind its getcontext: the first time through, and again when the saved context is
-- resumed.
unfoldable pub after_getcontext : ℕ → ℕ → Bool → M ℤ
unfolding interrupts_set
after_getcontext next old enabled = do
  thread_responsibilities
  s ← get
  yield_block (current s).setcontext_called next old
  finish_yield next enabled

-- `thread_yield` from the removal from the ready queue on; -1 is `none`.
unfoldable pub yield_to : Bool → List Frame → Option ℕ × List ℕ → M ℤ
unfolding interrupts_set getcontext
yield_to enabled frames (none, q) = do interrupts_set enabled; pure thread_none
yield_to enabled frames (some next, q) = do
  modify λ s. record s { ready_queue = q }
  s ← get
  getcontext (in_yield next s.current_thread_id enabled frames)
  after_getcontext next s.current_thread_id enabled

-- `want_tid >= 0 && TCBs[want_tid].t_state == NOT_ASSIGNED`
abbrev pub is_unassigned : ℤ → Package → Bool
is_unassigned (pos n) s = is_not_assigned (s.tcbs n).t_state
is_unassigned (negsuc n) s = false

-- `want_tid >= THREAD_MAX_THREADS || want_tid < -7`
abbrev pub out_of_range : ℤ → Bool
out_of_range want = leb_ℤ (pos 1024) want || ltb_ℤ want (negsuc 6)

-- thread_yield, called with `frames` on the stack.
unfoldable pub thread_yield : ℤ → List Frame → M ℤ
unfolding interrupts_set
thread_yield want frames = do
  enabled ← interrupts_set false
  s ← get
  if out_of_range want
      then (do interrupts_set enabled; pure thread_invalid)
      else if eqb_ℤ thread_self want
      then (do interrupts_set enabled; pure (pos s.current_thread_id))
      else if eqb_ℤ want (pos s.current_thread_id)
      then (do interrupts_set enabled; pure (pos s.current_thread_id))
      else if is_unassigned want s
      then (do interrupts_set enabled; pure thread_invalid)
      else if eqb_ℤ want thread_any
      then yield_to enabled frames (remove_next_ready_thread s.ready_queue)
      else yield_to enabled frames (remove_from_ready_queue want s.ready_queue)
