-- ===== src/Threads/Places/Switching.antt =====
-- No step of the scheduler in threads/thread.c puts a thread id into a second place.
use web_server_and_user_leve.Prelude.{
  ℕ, ◌+◌, ◌≤◌, ◌≡◌, refl, Bool, true, false, Option, none, some, List, arith, inl, inr, ◌⊎◌,
  Bool-cases, one_at, count, count_all-set, get_elem?, set, update,
}
use web_server_and_user_leve.Prelude.Int.{ℤ}
use web_server_and_user_leve.Threads.State.{Frame, Thread, Package, returned, undefined, current}
use web_server_and_user_leve.Threads.Queues.{
  push_thread_to_wait, remove_next_ready_thread, remove_from_ready_queue, add_to_head_id,
}
use web_server_and_user_leve.Threads.Queues.Counts.{
  count-push, count-add_to_tail, count_removed, count-remove_from_ready_queue, count-remove_next,
  count-wake,
}
use web_server_and_user_leve.Threads.Store.{
  read_queue, wake_store, wake, thread_wakeup, free_tcb_stacks, free_stacks_from,
}
use web_server_and_user_leve.Threads.Schedule.{
  setcontext, exit_to, thread_exit, thread_responsibilities, enqueue_current, switch_to,
  after_getcontext, yield_to, thread_yield, clear_current, ready_current,
}
use web_server_and_user_leve.Threads.Places.Rules.{places, places_after, after_first, in_turn}

-- The wait queue behind a pointer, or a fault.
pub read_queue-cases :
    (w : ℕ) (s : Package)
    → ((q : List ℕ) × (read_queue w s ≡ returned q s) × (get_elem? s.wait_queues w ≡ some (some q)))
      ⊎ (read_queue w s ≡ undefined)
unfolding read_queue
read_queue-cases w s = go (get_elem? s.wait_queues w) refl
  where
    go :
        (c : Option (Option (List ℕ)))
        → get_elem? s.wait_queues w ≡ c
        → ((q : List ℕ) × (read_queue w s ≡ returned q s)
            × (get_elem? s.wait_queues w ≡ some (some q)))
          ⊎ (read_queue w s ≡ undefined)
    go none e = inr (rw (e, read_queue))
    go (some none) e = inr (rw (e, read_queue))
    go (some (some q)) e = inl (q, rw (e, read_queue), e)

pub wake_store-places :
    (t w : ℕ) (all : Bool) (q : List ℕ) (s : Package)
    → get_elem? s.wait_queues w ≡ some (some q)
    → places_after t (wake_store w all q s) ≡ places t s
unfolding wake_store
wake_store-places t w all q s e = omega (
  arith,
  count-wake t q all s.ready_queue,
  count_all-set t s.wait_queues w (some q) (some (wake q all s.ready_queue).0) e,
)

pub thread_wakeup-places :
    (t : ℕ) (queue : Option ℕ) (all : Bool) (s : Package)
    → places_after t (thread_wakeup queue all s) ≤ places t s
unfolding thread_wakeup
thread_wakeup-places t none all s = omega arith
thread_wakeup-places t (some w) all s =
    let off : Package = record s { interrupts = false } in
    elim (read_queue-cases w off) [
      | inr e ↦ rw e (omega arith)
      | inl (q, r, e) ↦ rw r (ground (arith, wake_store-places t w all q off e))
    ]

module _ (t : ℕ) where
  exit_to-places :
      (enabled : Bool) (r : Option ℕ × List ℕ) (s : Package)
      → count_removed t r.0 + count t r.1 ≡ count t s.ready_queue
      → places_after t (exit_to enabled r s) + one_at t s.current_thread_id ≤ places t s
  unfolding exit_to setcontext free_tcb_stacks
  exit_to-places enabled (none, q) s h = omega arith
  exit_to-places enabled (some next, q) s h = omega arith

  pub thread_exit-places : (s : Package) → places_after t (thread_exit s) ≤ places t s
  unfolding thread_exit add_to_head_id
  thread_exit-places s =
      let s1 : Package = clear_current (record s { interrupts = false }) in
      in_turn t _ _ (thread_wakeup-places t (current s1).t_wait true s1) λ _ s2.
        let ids : List ℕ = add_to_head_id s2.available_ids s2.current_thread_id in
        omega (
          arith,
          exit_to-places s.interrupts (remove_next_ready_thread s2.ready_queue)
              (record s2 { available_ids = ids }) (count-remove_next t s2.ready_queue),
        )

  pub thread_responsibilities-places :
      (s : Package) → places_after t (thread_responsibilities s) ≤ places t s
  unfolding thread_responsibilities free_tcb_stacks
  thread_responsibilities-places s =
      let tcbs : ℕ → Thread = free_stacks_from 1 1023 s.tcbs in
      elim (Bool-cases (tcbs s.current_thread_id).kill_on_next_run) [
        | inl killed ↦ rw killed (thread_exit-places (record s { tcbs = tcbs }))
        | inr alive ↦ rw alive (omega arith)
      ]

  -- The current id is put into one more place, and stays the current one.
  enqueue_current-places :
      (o : Option ℕ) (s : Package)
      → ((s' : Package) × (enqueue_current o s ≡ returned tt s')
          × (s'.current_thread_id ≡ s.current_thread_id)
          × (places t s' ≡ places t s + one_at t s.current_thread_id))
        ⊎ (enqueue_current o s ≡ undefined)
  unfolding enqueue_current
  enqueue_current-places none s =
      inl (_, refl, refl, omega (arith, count-add_to_tail t s.current_thread_id s.ready_queue))
  enqueue_current-places (some w) s = elim (read_queue-cases w s) [
    | inr e ↦ inr (rw e)
    | inl (q, r, e) ↦
        let q' : List ℕ = push_thread_to_wait q s.current_thread_id in
        inl (
          record s {
            wait_queues = set s.wait_queues w (some q');
            tcbs = update s.tcbs s.current_thread_id (record (current s) { wait_queue = none });
          },
          rw r refl,
          refl,
          omega (
            arith,
            count-push t s.current_thread_id q,
            count_all-set t s.wait_queues w (some q) (some q') e,
          ),
        )
  ]

  switch_to-places :
      (next old : ℕ) (s : Package)
      → places_after t (switch_to next old s) ≤ places t s + one_at t next
  unfolding switch_to setcontext
  switch_to-places next old s =
      let s1 : Package = ready_current s in
      elim (enqueue_current-places (current s1).wait_queue s1) [
        | inr e ↦ rw e (omega arith)
        | inl (s2, e, same, more) ↦ rw e (ground arith)
      ]

  pub after_getcontext-places :
      (next old : ℕ) (enabled : Bool) (s : Package)
      → places_after t (after_getcontext next old enabled s) ≤ places t s + one_at t next
  unfolding after_getcontext
  after_getcontext-places next old enabled s =
      after_first t (one_at t next) _ _ (thread_responsibilities-places s) λ _ s2.
        elim (Bool-cases (current s2).setcontext_called) [
          | inl called ↦ rw called (omega arith)
          | inr fresh ↦ rw fresh (in_turn t _ _ (switch_to-places next old s2) λ _ s3. omega arith)
        ]

  yield_to-places :
      (enabled : Bool) (frames : List Frame) (r : Option ℕ × List ℕ) (s : Package)
      → count_removed t r.0 + count t r.1 ≡ count t s.ready_queue
      → places_after t (yield_to enabled frames r s) ≤ places t s
  unfolding yield_to
  yield_to-places enabled frames (none, q) s h = omega arith
  yield_to-places enabled frames (some next, q) s h =
      omega (arith, after_getcontext-places next s.current_thread_id enabled _)

  pub thread_yield-places :
      (want : ℤ) (frames : List Frame) (s : Package)
      → places_after t (thread_yield want frames s) ≤ places t s
  unfolding thread_yield
  thread_yield-places want frames s =
      let off : Package = record s { interrupts = false } in
      ground (
        arith,
        yield_to-places s.interrupts frames (remove_next_ready_thread s.ready_queue) off
            (count-remove_next t s.ready_queue),
        yield_to-places s.interrupts frames (remove_from_ready_queue want s.ready_queue) off
            (count-remove_from_ready_queue t want s.ready_queue),
      )
