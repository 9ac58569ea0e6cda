-- ===== src/Threads/System/Marks.antt =====
-- A thread that is suspended in `thread_yield` of threads/thread.c has its `setcontext_called` set, so
-- that it does not switch a second time when it is resumed.
use web_server_and_user_leve.Prelude.{
  ℕ, ◌≡◌, ◌≢◌, refl, ◌∙◌, Bool, true, false, inl, inr, Option, none, some, List, arith, ◌==◌,
  Bool-cases, ==_ne,
}
use web_server_and_user_leve.Threads.State.{
  Point, cleared, in_create, at_stub, in_yield, Thread, Package, current, set_tcb,
}
use web_server_and_user_leve.Threads.Store.{
  wake_store, thread_wakeup, free_stacks_from, free_stack, free_tcb_stacks,
}
use web_server_and_user_leve.Threads.Store.Stacks.{free_stacks_from_lem}
use web_server_and_user_leve.Threads.Queues.{remove_next_ready_thread}
use web_server_and_user_leve.Threads.Schedule.{
  exit_to, thread_exit, clear_current, thread_responsibilities, setcontext, make_running,
  mark_called,
}
use web_server_and_user_leve.Threads.Places.Switching.{read_queue-cases}
use web_server_and_user_leve.Threads.Ensures.{Ensures, Ensures-and_then, Ensures-mono}

abbrev pub MarkedAt : Point → Bool → Type 0
MarkedAt cleared called = Unit {0}
MarkedAt in_create called = Unit {0}
MarkedAt (at_stub fn parg) called = Unit {0}
MarkedAt (in_yield next old enabled frames) called = called ≡ true

abbrev pub IsMarked : Thread → Type 0
IsMarked t = MarkedAt t.mycontext.point t.setcontext_called

-- Every thread, and every thread but the running one.
abbrev pub AllMarked : Package → Type 0
AllMarked s = (i : ℕ) → IsMarked (s.tcbs i)

abbrev pub OthersMarked : Package → Type 0
OthersMarked s = (i : ℕ) → i ≢ s.current_thread_id → IsMarked (s.tcbs i)

-- A wake-up returns, and keeps what depends on the control blocks and the running thread alone.
pub thread_wakeup-Ensures :
    (R : (ℕ → Thread) → ℕ → Type 0) (Q : Package → Type 0) (queue : Option ℕ) (all : Bool)
    (s : Package)
    → R s.tcbs s.current_thread_id
    → Ensures (λ s'. R s'.tcbs s'.current_thread_id) Q (thread_wakeup queue all s)
unfolding thread_wakeup wake_store
thread_wakeup-Ensures R Q none all s r = r
thread_wakeup-Ensures R Q (some w) all s r =
    elim (read_queue-cases w (record s { interrupts = false })) [
      | inl (q, e, _) ↦ rw e r
      | inr e ↦ rw e tt
    ]

-- freeTCBStacks leaves the context and the flags of every thread alone.
pub free_stack-fields :
    (t : Thread)
    → ((free_stack t).mycontext ≡ t.mycontext)
      × ((free_stack t).setcontext_called ≡ t.setcontext_called)
      × ((free_stack t).kill_on_next_run ≡ t.kill_on_next_run)
      × ((free_stack t).wait_queue ≡ t.wait_queue)
      × ((free_stack t).t_state ≡ t.t_state)
unfolding free_stack
free_stack-fields t = ground arith

pub free_stacks_from-fields :
    (i n : ℕ) (tcbs : ℕ → Thread) (j : ℕ)
    → ((free_stacks_from i n tcbs j).mycontext ≡ (tcbs j).mycontext)
      × ((free_stacks_from i n tcbs j).setcontext_called ≡ (tcbs j).setcontext_called)
      × ((free_stacks_from i n tcbs j).kill_on_next_run ≡ (tcbs j).kill_on_next_run)
      × ((free_stacks_from i n tcbs j).wait_queue ≡ (tcbs j).wait_queue)
      × ((free_stacks_from i n tcbs j).t_state ≡ (tcbs j).t_state)
free_stacks_from-fields i n tcbs j =
    rw (free_stacks_from_lem i n tcbs j) (ground (arith, free_stack-fields (tcbs j)))

pub free_stacks_from-IsMarked :
    (i n : ℕ) (tcbs : ℕ → Thread) (j : ℕ)
    → IsMarked (tcbs j)
    → IsMarked (free_stacks_from i n tcbs j)
free_stacks_from-IsMarked i n tcbs j m =
    let f = free_stacks_from-fields i n tcbs j in rw (f.0, f.1) m

pub make_running-AllMarked :
    (next : ℕ) (s : Package) → AllMarked s → AllMarked (make_running next s)
make_running-AllMarked next s m i = elim (Bool-cases (i == next)) [
  | inl e ↦ rw e (m next)
  | inr e ↦ rw e (m i)
]

pub exit_to-AllMarked :
    (enabled : Bool) (r : Option ℕ × List ℕ) (s : Package)
    → AllMarked s
    → Ensures (λ _. ⊥) AllMarked (exit_to enabled r s)
unfolding exit_to setcontext free_tcb_stacks
exit_to-AllMarked enabled (none, q) s m = tt
exit_to-AllMarked enabled (some next, q) s m =
    make_running-AllMarked next (record s { ready_queue = q }) m

clear_current-AllMarked : (s : Package) → OthersMarked s → AllMarked (clear_current s)
clear_current-AllMarked s m i = elim (Bool-cases (i == s.current_thread_id)) [
  | inl e ↦ rw e tt
  | inr e ↦ rw e (m i (ground arith))
]

pub thread_exit-AllMarked :
    (s : Package) → OthersMarked s → Ensures (λ _. ⊥) AllMarked (thread_exit s)
unfolding thread_exit
thread_exit-AllMarked s m =
    let s1 : Package = clear_current (record s { interrupts = false }) in
    Ensures-and_then (λ _. ⊥) AllMarked AllMarked _ _
      (thread_wakeup-Ensures (λ tcbs c. (i : ℕ) → IsMarked (tcbs i)) AllMarked (current s1).t_wait
        true s1 (clear_current-AllMarked (record s { interrupts = false }) m))
      λ _ s2 m2. exit_to-AllMarked s.interrupts (remove_next_ready_thread s2.ready_queue) _ m2

OthersMarked-of_all : (s : Package) → AllMarked s → OthersMarked s
OthersMarked-of_all s m i h = m i

-- The running thread's own flag is as it was, if it is not killed.
pub thread_responsibilities-Ensures :
    (b : Bool) (c : ℕ) (s : Package)
    → OthersMarked s
    → (current s).setcontext_called ≡ b
    → s.current_thread_id ≡ c
    → Ensures
        (λ s'. OthersMarked s' × ((current s').setcontext_called ≡ b) × (s'.current_thread_id ≡ c))
        AllMarked
        (thread_responsibilities s)
unfolding thread_responsibilities free_tcb_stacks
thread_responsibilities-Ensures b c s m e same =
    let s1 : Package = record s { tcbs = free_stacks_from 1 1023 s.tcbs } in
    let m1 : OthersMarked s1 = λ i h. free_stacks_from-IsMarked 1 1023 s.tcbs i (m i h) in
    elim (Bool-cases (current s1).kill_on_next_run) [
      | inl killed ↦ rw killed (
          Ensures-mono _ _ _ _ (thread_exit s1) (λ s2 h. absurd h) (λ s2 h. h)
            (thread_exit-AllMarked s1 m1))
      | inr alive ↦
          rw alive (m1, (free_stacks_from-fields 1 1023 s.tcbs s.current_thread_id).1 ∙ e, same)
    ]

MarkedAt-true : (p : Point) → MarkedAt p true
MarkedAt-true cleared = tt
MarkedAt-true in_create = tt
MarkedAt-true (at_stub fn parg) = tt
MarkedAt-true (in_yield next old enabled frames) = refl

-- Nothing is asked of the running thread.
pub OthersMarked-set_tcb :
    (t : Thread) (s : Package) → OthersMarked s → OthersMarked (set_tcb s.current_thread_id t s)
OthersMarked-set_tcb t s m i h = rw (==_ne i s.current_thread_id h) (m i h)

-- The two assignments at the end of the block in `thread_yield`.
pub leave-AllMarked :
    (next : ℕ) (s : Package)
    → OthersMarked s
    → AllMarked (mark_called s.current_thread_id true (make_running next s))
leave-AllMarked next s m i = elim (Bool-cases (i == s.current_thread_id)) [
  | inl e ↦ rw e (MarkedAt-true _)
  | inr e ↦
      let others : IsMarked (s.tcbs i) = m i (ground arith) in
      rw e (elim (Bool-cases (i == next)) [
        | inl e' ↦ let same : i ≡ next = ground arith in rw e' (rw same at others)
        | inr e' ↦ rw e' others
      ])
]
