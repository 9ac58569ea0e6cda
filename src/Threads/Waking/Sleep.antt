-- ===== src/Threads/Waking/Sleep.antt =====
-- `thread_sleep` of threads/thread.c when another thread is ready.
use web_server_and_user_leve.Prelude.{
  ℕ, ◌<◌, ◌≡◌, ◌≢◌, refl, sym, ◌∙◌, ap, Bool, true, false, none, some, List, [], ◌∷◌, ◌++◌, ==_self,
  ==_ne, get_elem?, set,
}
use web_server_and_user_leve.Prelude.Int.{ℤ, pos}
use web_server_and_user_leve.Threads.State.{
  running, not_assigned, Frame, in_sleep, in_yield, Context, Package, returned, switched, M, modify,
  and_then, ◌>>◌, current, set_tcb,
}
use web_server_and_user_leve.Threads.Queues.{push_thread_to_wait, remove_from_ready_queue}
use web_server_and_user_leve.Threads.Queues.Counts.{push_thread_to_wait-append}
use web_server_and_user_leve.Threads.Schedule.{
  enqueue_current, join_queue, switch_to, setcontext, after_getcontext, finish_yield, yield_block,
  yield_to, ready_current, mark_called, make_running,
}
use web_server_and_user_leve.Threads.Sync.{ask_wait, sleep_to, thread_sleep}
use web_server_and_user_leve.Threads.System.Marks.{free_stacks_from-fields}
use web_server_and_user_leve.Threads.Switch.Leave.{
  freed, saved, thread_responsibilities_alive, yield_pos-eq,
}
use web_server_and_user_leve.Threads.Waking.Wakeup.{read_queue_eq}

-- `next` runs, the ready queue is `q`, and the thread that ran in `s` is the last in the wait queue `w`,
-- which held `asleep`; it is suspended in the `thread_yield` that `thread_sleep` calls.
pub record Slept (w next : ℕ) (asleep q : List ℕ) (frames : List Frame) (s s' : Package)
    : Type 0 where
  pub runs : s'.current_thread_id ≡ next
  pub queued : s'.ready_queue ≡ q
  pub ids : s'.available_ids ≡ s.available_ids
  pub queues : s'.wait_queues ≡ set s.wait_queues w (some (asleep ++ s.current_thread_id ∷ []))
  pub next_runs : (s'.tcbs next).t_state ≡ running
  pub old_asks_no_more : (s'.tcbs s.current_thread_id).wait_queue ≡ none
  pub old_point :
      (s'.tcbs s.current_thread_id).mycontext.point
      ≡ in_yield next s.current_thread_id false (in_sleep s.interrupts ∷ frames)

-- The state in which the block of `thread_yield` calls setcontext.
abbrev queued_on : ℕ → List ℕ → Package → Package
queued_on w asleep s =
    let s1 : Package = ready_current s in
    set_tcb s.current_thread_id (record (current s1) { wait_queue = none })
      (record s1 {
        wait_queues = set s.wait_queues w (some (push_thread_to_wait asleep s.current_thread_id));
      })

abbrev left : ℕ → ℕ → List ℕ → Package → Package
left w next asleep s =
    mark_called s.current_thread_id true (make_running next (queued_on w asleep s))

abbrev switched_to : ℕ → ℕ → List ℕ → Package → Package
switched_to w next asleep s = record (left w next asleep s) {
  interrupts = ((left w next asleep s).tcbs next).mycontext.interrupts;
}

switch_to-eq :
    (w next : ℕ) (asleep : List ℕ) (s : Package)
    → (current s).wait_queue ≡ some w
    → get_elem? s.wait_queues w ≡ some (some asleep)
    → switch_to next s.current_thread_id s ≡ switched (switched_to w next asleep s)
unfolding switch_to enqueue_current setcontext
switch_to-eq w next asleep s e g =
    let rest : M (Unit {0}) = do
      modify (make_running next)
      modify (mark_called s.current_thread_id true)
      setcontext next
    in let asked : (current (ready_current s)).wait_queue ≡ some w =
        rw (==_self s.current_thread_id) e in
      ap (λ o. and_then (enqueue_current o (ready_current s)) (λ _. rest)) asked
      ∙ ap (λ o. and_then (and_then o (join_queue w)) (λ _. rest))
          (read_queue_eq w asleep (ready_current s) g)

after_getcontext-eq :
    (w next : ℕ) (enabled : Bool) (asleep : List ℕ) (s : Package)
    → (current s).kill_on_next_run ≡ false
    → (current s).setcontext_called ≡ false
    → (current s).wait_queue ≡ some w
    → get_elem? s.wait_queues w ≡ some (some asleep)
    → after_getcontext next s.current_thread_id enabled s
      ≡ switched (switched_to w next asleep (freed s))
unfolding after_getcontext
after_getcontext-eq w next enabled asleep s alive fresh asked g =
    let f = free_stacks_from-fields 1 1023 s.tcbs s.current_thread_id in
    let finish = λ (_ : Unit {0}). finish_yield next enabled in
    ap
      (λ o. and_then o λ _ s1.
        and_then (yield_block (current s1).setcontext_called next s.current_thread_id s1) finish)
      (thread_responsibilities_alive s alive)
    ∙ ap (λ b. and_then (yield_block b next s.current_thread_id (freed s)) finish) (f.1 ∙ fresh)
    ∙ ap (λ o. and_then o finish) (switch_to-eq w next asleep (freed s) (f.3 ∙ asked) g)

take_head : (n : ℕ) (q : List ℕ) → remove_from_ready_queue (pos n) (n ∷ q) ≡ (some n, q)
unfolding remove_from_ready_queue
take_head n q = rw (==_self n)

switched_to-mycontext :
    (w next : ℕ) (asleep : List ℕ) (s : Package)
    → next ≢ s.current_thread_id
    → (current (record (switched_to w next asleep s) {
      current_thread_id = s.current_thread_id;
    })).mycontext
      ≡ (current s).mycontext
switched_to-mycontext w next asleep s other =
    rw (==_self s.current_thread_id, ==_ne s.current_thread_id next (λ e. other (sym e)))

-- `thread_sleep` on a wait queue, called by a thread that is neither killed nor recorded as having called
-- setcontext, while another thread is ready: the head of the ready queue runs, and the caller is the
-- last in the wait queue.
pub thread_sleep-Slept :
    (w next : ℕ) (asleep q : List ℕ) (frames : List Frame) (s : Package)
    → (current s).kill_on_next_run ≡ false
    → (current s).setcontext_called ≡ false
    → get_elem? s.wait_queues w ≡ some (some asleep)
    → s.ready_queue ≡ next ∷ q
    → next < 1024
    → next ≢ s.current_thread_id
    → (s.tcbs next).t_state ≢ not_assigned
    → (s' : Package) × (thread_sleep (some w) frames s ≡ switched s')
      × Slept w next asleep q frames s s'
unfolding thread_sleep sleep_to yield_to remove_from_ready_queue
thread_sleep-Slept w next asleep q frames s alive fresh g e small other used =
    let c : ℕ = s.current_thread_id in
    let s1 : Package = ask_wait w (record s { interrupts = false }) in
    let s2 : Package = saved (in_yield next c false (in_sleep s.interrupts ∷ frames)) q s1 in
    let s' : Package = switched_to w next asleep (freed s2) in
    let f = free_stacks_from-fields 1 1023 s2.tcbs c in
    let back = λ (v : ℤ) (s3 : Package). returned v (record s3 { interrupts = s.interrupts }) in
    (
      s',
      ap (λ r. sleep_to w s.interrupts frames r (record s { interrupts = false })) e
          ∙ ap (λ o. and_then o back)
              (yield_pos-eq next (in_sleep s.interrupts ∷ frames) s1 small other
                  (rw (==_ne next c other) used)
                ∙ ap (λ r. yield_to false (in_sleep s.interrupts ∷ frames) r s1)
                    (ap (remove_from_ready_queue (pos next)) e ∙ take_head next q)
                ∙ after_getcontext-eq w next false asleep s2 (rw (==_self c) alive)
                    (rw (==_self c) fresh) (rw (==_self c)) g),
      record {
        runs = refl;
        queued = refl;
        ids = refl;
        queues = ap (λ l. set s.wait_queues w (some l)) (push_thread_to_wait-append asleep c);
        next_runs = rw (==_ne next c other, ==_self next);
        old_asks_no_more = rw (==_self c, ==_ne c next (λ e. other (sym e)));
        old_point =
            ap (λ (x : Context). x.point)
              (switched_to-mycontext w next asleep (freed s2) other ∙ f.0)
            ∙ rw (==_self c);
      },
    )
