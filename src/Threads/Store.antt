-- ===== src/Threads/Store.antt =====
-- The wait queues of threads/thread.c behind their pointers: creation, destruction, wake-up, and the
-- stacks that the thread control blocks own.
pub mod Stacks
use web_server_and_user_leve.Prelude.{
  ℕ, zero, suc, ◌+◌, ◌-◌, Bool, true, false, Option, none, some, List, [], ◌∷◌, ◌++◌, if◌then◌else◌,
  update, length, get_elem?, set,
}
use web_server_and_user_leve.Threads.State.{
  ThreadState, not_assigned, ready, running, Thread, Package, returned, undefined, M, pure, ◌>>=◌,
  ◌>>◌, modify, interrupts_set, max_threads,
}
use web_server_and_user_leve.Threads.Queues.{add_to_tail}

-- `*queue`: undefined where the queue has been freed.
unfoldable pub read_queue : ℕ → M (List ℕ)
read_queue w s = elim (get_elem? s.wait_queues w) [ some (some q) ↦ returned q s | _ ↦ undefined ]

abbrev pub write_queue : ℕ → Option (List ℕ) → M (Unit {0})
write_queue w q = modify λ s. record s { wait_queues = set s.wait_queues w q }

-- wait_queue_create: the pointer is the next number.
unfoldable pub wait_queue_create : M ℕ
wait_queue_create s =
    returned (length s.wait_queues) (record s { wait_queues = s.wait_queues ++ some [] ∷ [] })

-- wait_queue_destroy: pops until the queue is empty, and frees the dummy head.
unfoldable pub wait_queue_destroy : ℕ → M (Unit {0})
wait_queue_destroy w = do q ← read_queue w; write_queue w none

-- The loop of `thread_wakeup` over what is left in the wait queue: the new ready queue and `woke_up`.
unfoldable pub wake_rest : List ℕ → List ℕ → ℕ → List ℕ × ℕ
wake_rest [] readys woke_up = (readys, woke_up)
wake_rest (t ∷ q) readys woke_up = wake_rest q (add_to_tail readys t) (woke_up + 1)

-- What `thread_wakeup` leaves in the wait queue and in the ready queue, and its result.
unfoldable pub wake : List ℕ → Bool → List ℕ → List ℕ × List ℕ × ℕ
wake [] all readys = ([], readys, 0)
wake (t ∷ q) all readys =
    if all
    then (let (readys', woke_up) = wake_rest q (add_to_tail readys t) 1 in ([], readys', woke_up))
    else (q, add_to_tail readys t, 1)

unfoldable pub wake_store : ℕ → Bool → List ℕ → M ℕ
wake_store w all q s =
    let (q', readys, woke_up) = wake q all s.ready_queue in
    returned woke_up
      (record s { ready_queue = readys; wait_queues = set s.wait_queues w (some q') })

-- thread_wakeup, on a queue pointer that may be NULL; `all` stands for `all == 1`.
unfoldable pub thread_wakeup : Option ℕ → Bool → M ℕ
unfolding interrupts_set
thread_wakeup none all = do enabled ← interrupts_set false; interrupts_set enabled; pure 0
thread_wakeup (some w) all = do
  enabled ← interrupts_set false
  q ← read_queue w
  woke_up ← wake_store w all q
  interrupts_set enabled
  pure woke_up

abbrev pub is_not_assigned : ThreadState → Bool
is_not_assigned not_assigned = true
is_not_assigned ready = false
is_not_assigned running = false

-- `free(TCBs[i].stack_to_free)` for an unassigned thread that still has one.
unfoldable pub free_stack : Thread → Thread
free_stack t = if is_not_assigned t.t_state then record t { stack_to_free = none } else t

-- freeTCBStacks: rounds `i`, `i + 1`, and so on, `n` of them.
unfoldable pub free_stacks_from : ℕ → ℕ → (ℕ → Thread) → ℕ → Thread
free_stacks_from i zero tcbs = tcbs
free_stacks_from i (suc n) tcbs = free_stacks_from (i + 1) n (update tcbs i (free_stack (tcbs i)))

unfoldable pub free_tcb_stacks : M (Unit {0})
free_tcb_stacks = modify λ s. record s { tcbs = free_stacks_from 1 (max_threads - 1) s.tcbs }

-- dealloc_thread_specific_wait_queue: rounds `n - 1` down to 0. It frees the dummy heads.
abbrev pub dealloc_one : ℕ → Package → Package
dealloc_one i s = elim (s.tcbs i).t_wait [
  | none ↦ s
  | some w ↦ record s {
    tcbs = update s.tcbs i (record (s.tcbs i) { t_wait = none });
    wait_queues = set s.wait_queues w none;
  }
]

unfoldable pub dealloc_wait_queues_from : ℕ → Package → Package
dealloc_wait_queues_from zero s = s
dealloc_wait_queues_from (suc n) s = dealloc_wait_queues_from n (dealloc_one n s)
