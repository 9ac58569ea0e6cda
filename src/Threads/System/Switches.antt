-- ===== src/Threads/System/Switches.antt =====
-- The calls of threads/thread.c that switch, create, kill or start a thread keep the marks of the
-- suspended threads.
use web_server_and_user_leve.Prelude.{
  ℕ, ◌≡◌, ◌≢◌, refl, sym, ◌∙◌, Bool, true, false, inl, inr, Option, none, some, List, arith, ◌==◌,
  Bool-cases, leb,
}
use web_server_and_user_leve.Prelude.Int.{ℤ, pos, negsuc, eqb_ℤ}
use web_server_and_user_leve.Threads.State.{
  Frame, in_create, in_yield, Thread, Package, current, ready, thread_any, thread_self, set_tcb,
}
use web_server_and_user_leve.Threads.Store.{is_not_assigned}
use web_server_and_user_leve.Threads.Queues.{
  remove_next_ready_thread, remove_from_head, remove_from_ready_queue,
}
use web_server_and_user_leve.Threads.Schedule.{
  thread_exit, ready_current, enqueue_current, switch_to, setcontext, after_getcontext, yield_to,
  thread_yield, out_of_range, is_unassigned, mark_called,
}
use web_server_and_user_leve.Threads.Create.{thread_kill, thread_create, create_thread, created}
use web_server_and_user_leve.Threads.Places.Switching.{read_queue-cases}
use web_server_and_user_leve.Threads.Ensures.{Ensures, Ensures-and_then, Ensures-if, Ensures-mono}
use web_server_and_user_leve.Threads.System.Marks.{
  IsMarked, AllMarked, OthersMarked, thread_exit-AllMarked, thread_responsibilities-Ensures,
  OthersMarked-set_tcb, leave-AllMarked,
}

-- All others are marked, and `c` is the running thread.
abbrev MarkedBut : ℕ → Package → Type 0
MarkedBut c s = OthersMarked s × (s.current_thread_id ≡ c)

enqueue_current-MarkedBut :
    (o : Option ℕ) (s : Package)
    → OthersMarked s
    → Ensures (MarkedBut s.current_thread_id) AllMarked (enqueue_current o s)
unfolding enqueue_current
enqueue_current-MarkedBut none s m = (m, refl)
enqueue_current-MarkedBut (some w) s m = elim (read_queue-cases w s) [
  | inr e ↦ rw e tt
  | inl (q, e, _) ↦ rw e (OthersMarked-set_tcb (record (current s) { wait_queue = none }) s m, refl)
]

switch_to-AllMarked :
    (next old : ℕ) (s : Package)
    → OthersMarked s
    → old ≡ s.current_thread_id
    → Ensures (λ _. ⊥) AllMarked (switch_to next old s)
unfolding switch_to setcontext
switch_to-AllMarked next old s m own =
    let s1 : Package = ready_current s in
    Ensures-and_then (λ _. ⊥) AllMarked (MarkedBut s.current_thread_id) _ _
      (enqueue_current-MarkedBut (current s1).wait_queue s1
        (OthersMarked-set_tcb (record (current s) { t_state = ready }) s m))
      λ _ s2 p. rw (own ∙ sym p.1) (leave-AllMarked next s2 p.0)

-- Behind its getcontext `thread_yield` returns with all others marked, or leaves with all marked.
pub after_getcontext-Ensures :
    (next old : ℕ) (enabled b : Bool) (s : Package)
    → OthersMarked s
    → (current s).setcontext_called ≡ b
    → (b ≡ false → old ≡ s.current_thread_id)
    → Ensures OthersMarked AllMarked (after_getcontext next old enabled s)
unfolding after_getcontext
after_getcontext-Ensures next old enabled b s m e own =
    Ensures-and_then OthersMarked AllMarked
      (λ s'.
        OthersMarked s'
        × ((current s').setcontext_called ≡ b)
        × (s'.current_thread_id ≡ s.current_thread_id))
      _ _ (thread_responsibilities-Ensures b s.current_thread_id s m e refl)
      λ _ s2 p.
        let stay : OthersMarked (mark_called s2.current_thread_id false s2) =
          OthersMarked-set_tcb (record (current s2) { setcontext_called = false }) s2 p.0 in
        elim (Bool-cases (current s2).setcontext_called) [
          | inl called ↦ rw called stay
          | inr fresh ↦ rw fresh (
              Ensures-and_then OthersMarked AllMarked (λ _. ⊥) _ _
                (switch_to-AllMarked next old s2 p.0 (own (sym p.1 ∙ fresh) ∙ sym p.2))
                λ _ s3 h. absurd h)
        ]

yield_to-Ensures :
    (enabled : Bool) (frames : List Frame) (r : Option ℕ × List ℕ) (s : Package)
    → OthersMarked s
    → Ensures OthersMarked AllMarked (yield_to enabled frames r s)
unfolding yield_to
yield_to-Ensures enabled frames (none, q) s m = m
yield_to-Ensures enabled frames (some next, q) s m =
    let s1 : Package = record s { ready_queue = q } in
    let saved : Thread = record (current s1) {
      mycontext = record {
        point = in_yield next s.current_thread_id enabled frames;
        interrupts = s.interrupts;
      };
    } in
    after_getcontext-Ensures next s.current_thread_id enabled _
      (set_tcb s.current_thread_id saved s1) (OthersMarked-set_tcb saved s1 m) refl (λ _. refl)

OthersMarked-set_other :
    (i : ℕ) (t : Thread) (s : Package)
    → OthersMarked s
    → (i ≢ s.current_thread_id → IsMarked t)
    → OthersMarked (set_tcb i t s)
OthersMarked-set_other i t s m h j other = elim (Bool-cases (j == i)) [
  | inl e ↦ let same : j ≡ i = ground arith in rw e (h (λ own. other (same ∙ own)))
  | inr e ↦ rw e (m j other)
]

create_thread-Ensures :
    (stack : Option ℕ) (fn parg : ℕ) (enabled : Bool) (r : Option ℕ × List ℕ) (s : Package)
    → OthersMarked s
    → Ensures OthersMarked AllMarked (create_thread stack fn parg enabled r s)
unfolding create_thread
create_thread-Ensures stack fn parg enabled (none, ids) s m = m
create_thread-Ensures none fn parg enabled (some id, ids) s m =
    OthersMarked-set_other id (record (s.tcbs id) { stack_to_free = none }) s m (m id)
create_thread-Ensures (some k) fn parg enabled (some id, ids) s m =
    OthersMarked-set_other id (created k fn parg (current s).mycontext (s.tcbs id)) s m λ _. tt

module _ (s : Package) (m : OthersMarked s) where
  pub thread_yield-Ensures :
      (want : ℤ) (frames : List Frame) → Ensures OthersMarked AllMarked (thread_yield want frames s)
  unfolding thread_yield
  thread_yield-Ensures want frames =
      let off : Package = record s { interrupts = false } in
      let keep = λ (r : Option ℕ × List ℕ). yield_to-Ensures s.interrupts frames r off m in
      Ensures-if _ _ (out_of_range want) _ _ off m (
        Ensures-if _ _ (eqb_ℤ thread_self want) _ _ off m (
          Ensures-if _ _ (eqb_ℤ want (pos s.current_thread_id)) _ _ off m (
            Ensures-if _ _ (is_unassigned want off) _ _ off m (
              Ensures-if _ _ (eqb_ℤ want thread_any) _ _ off
                (keep (remove_next_ready_thread s.ready_queue))
                (keep (remove_from_ready_queue want s.ready_queue))))))

  pub thread_kill-Ensures : (tid : ℤ) → Ensures OthersMarked AllMarked (thread_kill tid s)
  unfolding thread_kill
  thread_kill-Ensures (negsuc n) =
      let off : Package = record s { interrupts = false } in
      Ensures-if _ _ (out_of_range (negsuc n)) _ _ off m tt
  thread_kill-Ensures (pos n) =
      let off : Package = record s { interrupts = false } in
      Ensures-if _ _ (out_of_range (pos n)) _ _ off m (
        Ensures-if _ _ (eqb_ℤ (pos n) (pos s.current_thread_id)) _ _ off m
          (elim (Bool-cases (leb 1024 n)) [
            | inl e ↦ rw e tt
            | inr e ↦ rw e (
                Ensures-if _ _ (is_not_assigned (s.tcbs n).t_state) _ _ off m (
                  OthersMarked-set_other n (record (s.tcbs n) { kill_on_next_run = true }) s m
                    (m n)))
          ]))

  pub thread_create-Ensures :
      (stack : Option ℕ) (fn parg : ℕ)
      → Ensures OthersMarked AllMarked (thread_create stack fn parg s)
  unfolding thread_create
  thread_create-Ensures stack fn parg =
      let off : Package = record s { interrupts = false } in
      let own : Thread = record (current s) {
        mycontext = record { point = in_create; interrupts = false };
      } in
      create_thread-Ensures stack fn parg s.interrupts (remove_from_head s.available_ids)
        (set_tcb s.current_thread_id own off) (OthersMarked-set_tcb own off m)

  pub thread_exit-Ensures : Ensures OthersMarked AllMarked (thread_exit s)
  thread_exit-Ensures =
      Ensures-mono _ _ _ _ (thread_exit s) (λ s2 h. absurd h) (λ s2 h. h)
        (thread_exit-AllMarked s m)
