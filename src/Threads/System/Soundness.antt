-- ===== src/Threads/System/Soundness.antt =====
-- What holds of the process in every state that it can reach, whatever its threads call, and with the
-- signals of the timer of threads/interrupt.c between their calls.
use web_server_and_user_leve.Prelude.{
  ℕ, ◌≤◌, ◌≡◌, ◌≢◌, refl, Bool, true, false, inl, inr, Option, some, arith,
}
use web_server_and_user_leve.Threads.State.{
  Point, in_yield, Package, Outcome, returned, switched, exited, aborted, undefined, out_of_fuel,
  current,
}
use web_server_and_user_leve.Threads.Store.{wait_queue_create, wait_queue_destroy, thread_wakeup}
use web_server_and_user_leve.Threads.Schedule.{after_getcontext, thread_responsibilities}
use web_server_and_user_leve.Threads.Create.{thread_init}
use web_server_and_user_leve.Threads.Resume.{thread_stub}
use web_server_and_user_leve.Threads.Places.{places, places_after}
use web_server_and_user_leve.Threads.Places.Switching.{
  read_queue-cases, thread_wakeup-places, thread_exit-places, thread_responsibilities-places,
  thread_yield-places,
}
use web_server_and_user_leve.Threads.Places.Waiting.{
  wait_queue_create-places, wait_queue_destroy-places, thread_create-places, thread_kill-places,
}
use web_server_and_user_leve.Threads.Ensures.{
  Ensures, Ensures-both, Ensures-mono, Ensures-and_then, Ensures-if,
}
use web_server_and_user_leve.Threads.System.Calls.{
  System, in_user, in_switch, Step, returns, leaves, lands, leaves_again, Reach, start, next,
  zero_package,
}
use web_server_and_user_leve.Threads.System.Start.{thread_init-IsStarted}
use web_server_and_user_leve.Threads.System.Closed.{Closed, do_call-Keeps, resume-Ensures}
use web_server_and_user_leve.Threads.System.Marks.{
  IsMarked, MarkedAt, AllMarked, OthersMarked, thread_wakeup-Ensures,
  thread_responsibilities-Ensures, OthersMarked-set_tcb,
}
use web_server_and_user_leve.Threads.System.Switches.{
  thread_yield-Ensures, thread_kill-Ensures, thread_create-Ensures, thread_exit-Ensures,
}

-- No id is in two places.
abbrev pub AtMostOnce : Package → Type 0
AtMostOnce s = (t : ℕ) → places t s ≤ 1

abbrev pub Sound : Package → Type 0
Sound s = AtMostOnce s × OthersMarked s

abbrev pub SoundAll : Package → Type 0
SoundAll s = AtMostOnce s × AllMarked s

module _ {A : Type 0} where
  Ensures_of_places :
      (r : Outcome A) → ((t : ℕ) → places_after t r ≤ 1) → Ensures AtMostOnce AtMostOnce r
  Ensures_of_places (returned a s) h = h
  Ensures_of_places (switched s) h = h
  Ensures_of_places (exited s) h = tt
  Ensures_of_places aborted h = tt
  Ensures_of_places undefined h = tt
  Ensures_of_places out_of_fuel h = tt

  -- The two parts of the invariant are proved apart.
  join :
      (s : Package) (r : Outcome A)
      → AtMostOnce s
      → ((t : ℕ) → places_after t r ≤ places t s)
      → Ensures OthersMarked AllMarked r
      → Ensures Sound SoundAll r
  join s r once h m =
      Ensures-both AtMostOnce AtMostOnce OthersMarked AllMarked r
        (Ensures_of_places r λ t. omega (arith, h t, once t)) m

-- A thread that is resumed inside `thread_yield` does not switch again.
after_getcontext-Sound :
    (n old : ℕ) (enabled : Bool) (s : Package)
    → SoundAll s
    → (current s).setcontext_called ≡ true
    → Ensures Sound SoundAll (after_getcontext n old enabled s)
unfolding after_getcontext
after_getcontext-Sound n old enabled s p called =
    let m : OthersMarked s = λ i h. p.1 i in
    Ensures-and_then Sound SoundAll
      (λ s'.
        AtMostOnce s'
        × (OthersMarked s'
            × ((current s').setcontext_called ≡ true)
            × (s'.current_thread_id ≡ s.current_thread_id)))
      _ _
      (Ensures-both AtMostOnce AtMostOnce _ AllMarked (thread_responsibilities s)
        (Ensures_of_places (thread_responsibilities s)
          λ t. omega (arith, thread_responsibilities-places t s, p.0 t))
        (thread_responsibilities-Ensures true s.current_thread_id s m called refl))
      λ _ s2 q.
        rw q.1.1
          (q.0, OthersMarked-set_tcb (record (current s2) { setcontext_called = false }) s2 q.1.0)

thread_responsibilities-Sound :
    (s : Package) → Sound s → Ensures Sound SoundAll (thread_responsibilities s)
thread_responsibilities-Sound s p =
    join s _ p.0 (λ t. thread_responsibilities-places t s)
      (Ensures-mono _ _ OthersMarked AllMarked (thread_responsibilities s) (λ s2 q. q.0) (λ s2 q. q)
        (thread_responsibilities-Ensures _ s.current_thread_id s p.1 refl refl))

thread_stub-Sound :
    (fn parg : ℕ) (s : Package) → Sound s → Ensures Sound SoundAll (thread_stub fn parg s)
unfolding thread_stub
thread_stub-Sound fn parg s p =
    Ensures-and_then Sound SoundAll Sound _ _ (Ensures-if Sound SoundAll s.interrupts _ _ s p p)
      λ _ s1 p1.
        Ensures-and_then Sound SoundAll Sound _ _ (thread_responsibilities-Sound s1 p1)
          λ _ s2 p2. p2

wait_queue_create-OthersMarked :
    (s : Package) → OthersMarked s → Ensures OthersMarked AllMarked (wait_queue_create s)
unfolding wait_queue_create
wait_queue_create-OthersMarked s m = m

wait_queue_destroy-OthersMarked :
    (w : ℕ) (s : Package) → OthersMarked s → Ensures OthersMarked AllMarked (wait_queue_destroy w s)
unfolding wait_queue_destroy
wait_queue_destroy-OthersMarked w s m = elim (read_queue-cases w s) [
  | inl (q, e, _) ↦ rw e m
  | inr e ↦ rw e tt
]

thread_wakeup-OthersMarked :
    (queue : Option ℕ) (all : Bool) (s : Package)
    → OthersMarked s
    → Ensures OthersMarked AllMarked (thread_wakeup queue all s)
thread_wakeup-OthersMarked queue all s m =
    thread_wakeup-Ensures (λ tcbs c. (i : ℕ) → i ≢ c → IsMarked (tcbs i)) AllMarked queue all s m

resumed_flag :
    (s : Package) (p : Point)
    → AllMarked s
    → (current s).mycontext.point ≡ p
    → MarkedAt p (current s).setcontext_called
resumed_flag s p m e = rw e at (m s.current_thread_id)

package_Closed : Closed Sound SoundAll
package_Closed = record {
  masks = λ b s p. p;
  locks = λ l s p. p;
  cvs = λ l s p. p;
  asks = λ w s p. (p.0, OthersMarked-set_tcb (record (current s) { wait_queue = some w }) s p.1);
  makes_queue = λ s p.
      join s _ p.0 (λ t. omega (arith, wait_queue_create-places t s))
        (wait_queue_create-OthersMarked s p.1);
  destroys_queue = λ w s p.
      join s _ p.0 (λ t. wait_queue_destroy-places t w s) (wait_queue_destroy-OthersMarked w s p.1);
  wakes = λ queue all s p.
      join s _ p.0 (λ t. thread_wakeup-places t queue all s)
        (thread_wakeup-OthersMarked queue all s p.1);
  yields = λ want frames s p.
      join s _ p.0 (λ t. thread_yield-places t want frames s)
        (thread_yield-Ensures s p.1 want frames);
  exits = λ s p. join s _ p.0 (λ t. thread_exit-places t s) (thread_exit-Ensures s p.1);
  kills = λ tid s p. join s _ p.0 (λ t. thread_kill-places t tid s) (thread_kill-Ensures s p.1 tid);
  creates = λ stack fn parg s p.
      join s _ p.0 (λ t. thread_create-places t stack fn parg s)
        (thread_create-Ensures s p.1 stack fn parg);
  starts = λ fn parg s p. thread_stub-Sound fn parg s (p.0, λ i h. p.1 i);
  continues = λ n old enabled frames s p e.
      after_getcontext-Sound n old enabled s p
        (resumed_flag s (in_yield n old enabled frames) p.1 e);
}

-- Every step keeps the invariant.
abbrev pub SystemSound : System → Type 0
SystemSound (in_user s) = Sound s
SystemSound (in_switch s) = SoundAll s

Step-SystemSound : {u v : System} → Step u v → SystemSound u → SystemSound v
Step-SystemSound (returns fuel c {s} e) p = rw e at (do_call-Keeps package_Closed fuel c s p)
Step-SystemSound (leaves fuel c {s} e) p = rw e at (do_call-Keeps package_Closed fuel c s p)
Step-SystemSound (lands fuel {s} e) p = rw e at (resume-Ensures package_Closed fuel s p)
Step-SystemSound (leaves_again fuel {s} e) p = rw e at (resume-Ensures package_Closed fuel s p)

thread_init-Sound : Ensures Sound SoundAll (thread_init zero_package)
thread_init-Sound =
    let (s, e, f) = thread_init-IsStarted in
    rw e ((λ t. ground (arith, f.places_once t), λ i h. f.marks i))

pub Reach-SystemSound : {u : System} → Reach u → SystemSound u
Reach-SystemSound (start e) = rw e at thread_init-Sound
Reach-SystemSound (next r st) = Step-SystemSound st (Reach-SystemSound r)

abbrev pub globals_of : System → Package
globals_of (in_user s) = s
globals_of (in_switch s) = s

-- In every state that the process reaches from `thread_init`, by any calls of its threads and by signals
-- of the timer between them, no id is in two places: among the running thread, the ready queue, the
-- unused ids and the wait queues.
pub Reach-AtMostOnce : (u : System) → Reach u → AtMostOnce (globals_of u)
Reach-AtMostOnce (in_user s) r = (Reach-SystemSound r).0
Reach-AtMostOnce (in_switch s) r = (Reach-SystemSound r).0
