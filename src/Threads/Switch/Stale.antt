-- ===== src/Threads/Switch/Stale.antt =====
-- Two defects of threads/thread.c that lose threads. `setcontext_called` survives `thread_exit`, so the
-- next thread with the same id can run its first `thread_yield` without switching; and a
-- `thread_create` without memory for a stack does not give the id back.
use web_server_and_user_leve.Prelude.{
  ℕ, ◌+◌, ◌≡◌, refl, ◌∙◌, ap, true, false, none, List, [], ◌∷◌, arith, ==_self, one_at, count,
}
use web_server_and_user_leve.Prelude.Int.{pos}
use web_server_and_user_leve.Threads.State.{
  in_yield, in_create, Thread, Package, returned, current, set_tcb, thread_any, thread_nomemory,
}
use web_server_and_user_leve.Threads.Queues.{remove_next_ready_thread, remove_from_head}
use web_server_and_user_leve.Threads.Schedule.{yield_to, thread_yield, mark_called}
use web_server_and_user_leve.Threads.Create.{thread_create, create_thread}
use web_server_and_user_leve.Threads.Places.{places}
use web_server_and_user_leve.Threads.Switch.Return.{back-eq}
use web_server_and_user_leve.Threads.Switch.Leave.{saved, freed}

one_at_self : (t : ℕ) → one_at t t ≡ 1
one_at_self t = ground arith

-- A thread that still carries `setcontext_called` from the last use of its id, and calls
-- `thread_yield(THREAD_ANY)`: the call takes the head of the ready queue, does not switch, and reports
-- that thread as the one that ran; the thread is then in no queue, and never runs.
pub yield_any_stale :
    (next : ℕ) (q : List ℕ) (s : Package)
    → (current s).setcontext_called ≡ true
    → (current s).kill_on_next_run ≡ false
    → s.ready_queue ≡ next ∷ q
    → (s' : Package) × (thread_yield thread_any [] s ≡ returned (pos next) s')
      × (s'.current_thread_id ≡ s.current_thread_id)
      × (s'.ready_queue ≡ q)
      × (places next s' + 1 ≡ places next s)
unfolding thread_yield yield_to remove_next_ready_thread
yield_any_stale next q s called alive e =
    let c : ℕ = s.current_thread_id in
    let s1 : Package = saved (in_yield next c s.interrupts []) q s in
    (
      record (mark_called c false (freed s1)) { interrupts = s.interrupts },
      ap
            (λ r.
              yield_to s.interrupts [] (remove_next_ready_thread r)
                (record s { interrupts = false }))
            e
          ∙ back-eq next c s.interrupts s1 (rw (==_self c) called) (rw (==_self c) alive),
      refl,
      refl,
      omega (arith, ap (count next) e, one_at_self next),
    )

-- A `thread_create` for which malloc finds no memory for the stack fails with THREAD_NOMEMORY, and its
-- id, taken off the list of unused ids, is then in no place at all.
pub create_nomemory :
    (id fn parg : ℕ) (ids : List ℕ) (s : Package)
    → s.available_ids ≡ id ∷ ids
    → (s' : Package) × (thread_create none fn parg s ≡ returned thread_nomemory s')
      × (s'.available_ids ≡ ids)
      × (places id s' + 1 ≡ places id s)
unfolding thread_create create_thread remove_from_head
create_nomemory id fn parg ids s e =
    let c : ℕ = s.current_thread_id in
    let own : Thread = record (current s) {
      mycontext = record { point = in_create; interrupts = false };
    } in
    let s1 : Package = set_tcb c own (record s { interrupts = false }) in
    let s2 : Package = record s1 { available_ids = ids } in
    (
      record (set_tcb id (record (s2.tcbs id) { stack_to_free = none }) s2) {
        interrupts = s.interrupts;
      },
      ap (λ l. create_thread none fn parg s.interrupts (remove_from_head l) s1) e,
      refl,
      omega (arith, ap (count id) e, one_at_self id),
    )
