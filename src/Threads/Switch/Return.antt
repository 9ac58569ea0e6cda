-- ===== src/Threads/Switch/Return.antt =====
-- What a thread of threads/thread.c does when it gets the processor back, and what a killed one does.
use web_server_and_user_leve.Prelude.{
  ℕ, ◌≡◌, ◌≢◌, refl, ◌∙◌, ap, Bool, true, false, Option, none, some, List, [], ==_self,
}
use web_server_and_user_leve.Prelude.Int.{pos}
use web_server_and_user_leve.Threads.State.{
  Point, cleared, in_create, at_stub, in_yield, Package, Outcome, returned, and_then, current,
}
use web_server_and_user_leve.Threads.Store.{free_tcb_stacks}
use web_server_and_user_leve.Threads.Schedule.{
  thread_responsibilities, thread_exit, exit_to, setcontext, after_getcontext, finish_yield,
  yield_block, mark_called, clear_current,
}
use web_server_and_user_leve.Threads.Queues.{remove_next_ready_thread}
use web_server_and_user_leve.Threads.Resume.{Landing, back, unwind, resume_at, resume, thread_stub}
use web_server_and_user_leve.Threads.Ensures.{Ensures, Ensures-and_then, Ensures-if}
use web_server_and_user_leve.Threads.System.Marks.{free_stacks_from-fields, thread_wakeup-Ensures}
use web_server_and_user_leve.Threads.Switch.Leave.{freed, thread_responsibilities_alive}

-- It is back from a call of `thread_yield`, with result `v` and the interrupt state `enabled`: its flag
-- is down again, and no queue has changed.
pub record IsBack (enabled : Bool) (s s' : Package) : Type 0 where
  pub runs : s'.current_thread_id ≡ s.current_thread_id
  pub readys : s'.ready_queue ≡ s.ready_queue
  pub queues : s'.wait_queues ≡ s.wait_queues
  pub ids : s'.available_ids ≡ s.available_ids
  pub masked : s'.interrupts ≡ enabled
  pub may_yield : (current s').setcontext_called ≡ false

pub back-eq :
    (next old : ℕ) (enabled : Bool) (s : Package)
    → (current s).setcontext_called ≡ true
    → (current s).kill_on_next_run ≡ false
    → after_getcontext next old enabled s
      ≡ returned
          (pos next)
          (record (mark_called s.current_thread_id false (freed s)) { interrupts = enabled })
unfolding after_getcontext
back-eq next old enabled s called alive =
    let f = free_stacks_from-fields 1 1023 s.tcbs s.current_thread_id in
    let finish = λ (_ : Unit {0}). finish_yield next enabled in
    ap
      (λ o.
        and_then o λ _ s1. and_then (yield_block (current s1).setcontext_called next old s1) finish)
      (thread_responsibilities_alive s alive)
    ∙ ap (λ b. and_then (yield_block b next old (freed s)) finish) (f.1 ∙ called)

-- A thread that suspended itself by `thread_yield`, and that nobody has killed since, returns from that
-- call when it is resumed: with the id of the thread that it gave the processor to, and with the
-- interrupt state in which it made the call.
pub resume-IsBack :
    (fuel next old : ℕ) (enabled : Bool) (s : Package)
    → (current s).mycontext.point ≡ in_yield next old enabled []
    → (current s).setcontext_called ≡ true
    → (current s).kill_on_next_run ≡ false
    → (s' : Package) × (resume fuel s ≡ returned (back (pos next)) s') × IsBack enabled s s'
unfolding resume after_getcontext unwind
resume-IsBack fuel next old enabled s point called alive = (
  record (mark_called s.current_thread_id false (freed s)) { interrupts = enabled },
  ap (λ p. resume_at fuel p s) point
      ∙ ap (λ o. and_then o λ v s1. returned (back v) s1) (back-eq next old enabled s called alive),
  record {
    runs = refl;
    readys = refl;
    queues = refl;
    ids = refl;
    masked = refl;
    may_yield = rw (==_self s.current_thread_id);
  },
)

-- The call does not return.
abbrev Leaves : {A : Type 0} → Outcome A → Type 0
Leaves r = Ensures (λ _. ⊥) (λ _. Unit {0}) r

exit_to-Leaves :
    (enabled : Bool) (r : Option ℕ × List ℕ) (s : Package) → Leaves (exit_to enabled r s)
unfolding exit_to setcontext free_tcb_stacks
exit_to-Leaves enabled (none, q) s = tt
exit_to-Leaves enabled (some next, q) s = tt

thread_exit-Leaves : (s : Package) → Leaves (thread_exit s)
unfolding thread_exit
thread_exit-Leaves s =
    let s1 : Package = clear_current (record s { interrupts = false }) in
    Ensures-and_then (λ _. ⊥) (λ _. Unit {0}) (λ _. Unit {0}) _ _
      (thread_wakeup-Ensures (λ tcbs c. Unit {0}) (λ _. Unit {0}) (current s1).t_wait true s1 tt)
      λ _ s2 _. exit_to-Leaves s.interrupts (remove_next_ready_thread s2.ready_queue) _

thread_responsibilities_killed :
    (s : Package) → (current s).kill_on_next_run ≡ true → Leaves (thread_responsibilities s)
unfolding thread_responsibilities free_tcb_stacks
thread_responsibilities_killed s killed =
    let f = free_stacks_from-fields 1 1023 s.tcbs s.current_thread_id in
    rw (f.2 ∙ killed) (thread_exit-Leaves (freed s))

resume_at-Leaves :
    (fuel : ℕ) (p : Point) (s : Package)
    → (current s).kill_on_next_run ≡ true
    → Leaves (resume_at fuel p s)
unfolding resume_at after_getcontext thread_stub
resume_at-Leaves fuel cleared s killed = tt
resume_at-Leaves fuel in_create s killed = tt
resume_at-Leaves fuel (at_stub fn parg) s killed =
    Ensures-and_then (λ _. ⊥) (λ _. Unit {0}) (λ s1. (current s1).kill_on_next_run ≡ true) _ _
      (Ensures-if _ _ s.interrupts _ _ s killed killed)
      λ _ s1 k1.
        Ensures-and_then (λ _. ⊥) (λ _. Unit {0}) (λ _. ⊥) _ _
          (thread_responsibilities_killed s1 k1) λ _ s2 h. absurd h
resume_at-Leaves fuel (in_yield next old enabled frames) s killed =
    Ensures-and_then (λ _. ⊥) (λ _. Unit {0}) (λ _. ⊥) _ _
      (Ensures-and_then (λ _. ⊥) (λ _. Unit {0}) (λ _. ⊥) _ _
        (thread_responsibilities_killed s killed) λ _ s2 h. absurd h)
      λ _ s2 h. absurd h

-- A killed thread that is resumed, wherever it was suspended, never gets back to its own code.
pub resume_killed :
    (fuel : ℕ) (s : Package) (v : Landing) (s' : Package)
    → (current s).kill_on_next_run ≡ true
    → resume fuel s ≢ returned v s'
unfolding resume
resume_killed fuel s v s' killed e =
    rw e at (resume_at-Leaves fuel (current s).mycontext.point s killed)
