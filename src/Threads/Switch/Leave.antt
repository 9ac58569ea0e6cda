-- ===== src/Threads/Switch/Leave.antt =====
-- `thread_yield` of threads/thread.c when it gives the processor away, and when it refuses to.
use web_server_and_user_leve.Prelude.{
  ℕ, ◌<◌, ◌≡◌, ◌≢◌, refl, sym, ◌∙◌, ap, Bool, true, false, none, some, List, [], ◌∷◌, ◌++◌, arith,
  ==_ne, ==_self, ◌≤◌, count, count-append, one_at, erase, erase-middle, if◌then◌else◌,
}
use web_server_and_user_leve.Prelude.Int.{pos}
use web_server_and_user_leve.Threads.State.{
  ready, running, not_assigned, Frame, Point, in_yield, Context, Package, returned, switched, M,
  modify, and_then, ◌>>◌, current, set_tcb, thread_any,
}
use web_server_and_user_leve.Threads.Store.{free_stacks_from, free_tcb_stacks}
use web_server_and_user_leve.Threads.Queues.{
  add_to_tail, remove_next_ready_thread, remove_from_ready_queue,
}
use web_server_and_user_leve.Threads.Schedule.{
  thread_responsibilities, enqueue_current, switch_to, setcontext, after_getcontext, yield_to,
  thread_yield, finish_yield, yield_block, ready_current, mark_called, make_running,
}
use web_server_and_user_leve.Threads.Order.{found, remove_from_ready_queue-erase}
use web_server_and_user_leve.Threads.System.Marks.{free_stacks_from-fields}

-- The running thread may give the processor away: nobody killed it, it is not recorded as having
-- called setcontext, and it waits for no queue.
pub record MayYield (s : Package) : Type 0 where
  pub alive : (current s).kill_on_next_run ≡ false
  pub fresh : (current s).setcontext_called ≡ false
  pub no_queue : (current s).wait_queue ≡ none

-- `next` runs, and the thread that ran in `s` stands ready behind the queue `q`, suspended in
-- `thread_yield`; nothing else has moved.
pub record Switched (next : ℕ) (q : List ℕ) (frames : List Frame) (s s' : Package) : Type 0 where
  pub runs : s'.current_thread_id ≡ next
  pub queued : s'.ready_queue ≡ q ++ s.current_thread_id ∷ []
  pub ids : s'.available_ids ≡ s.available_ids
  pub queues : s'.wait_queues ≡ s.wait_queues
  pub next_runs : (s'.tcbs next).t_state ≡ running
  pub old_ready : (s'.tcbs s.current_thread_id).t_state ≡ ready
  pub old_marked : (s'.tcbs s.current_thread_id).setcontext_called ≡ true
  pub old_point :
      (s'.tcbs s.current_thread_id).mycontext.point
      ≡ in_yield next s.current_thread_id s.interrupts frames

-- The state behind freeTCBStacks.
abbrev pub freed : Package → Package
freed s = record s { tcbs = free_stacks_from 1 1023 s.tcbs }

pub thread_responsibilities_alive :
    (s : Package)
    → (current s).kill_on_next_run ≡ false
    → thread_responsibilities s ≡ returned tt (freed s)
unfolding thread_responsibilities free_tcb_stacks
thread_responsibilities_alive s alive =
    rw ((free_stacks_from-fields 1 1023 s.tcbs s.current_thread_id).2 ∙ alive)

-- The state in which the block of `thread_yield` calls setcontext.
abbrev left : ℕ → Package → Package
left next s =
    let s1 : Package = ready_current s in
    mark_called s.current_thread_id true
      (make_running next (record s1 { ready_queue = s.ready_queue ++ s.current_thread_id ∷ [] }))

abbrev switched_to : ℕ → Package → Package
switched_to next s = record (left next s) {
  interrupts = ((left next s).tcbs next).mycontext.interrupts;
}

switch_to-eq :
    (next : ℕ) (s : Package)
    → (current s).wait_queue ≡ none
    → switch_to next s.current_thread_id s ≡ switched (switched_to next s)
unfolding switch_to enqueue_current setcontext add_to_tail
switch_to-eq next s e =
    let rest : M (Unit {0}) = do
      modify (make_running next)
      modify (mark_called s.current_thread_id true)
      setcontext next
    in let none_asked : (current (ready_current s)).wait_queue ≡ none =
        rw (==_self s.current_thread_id) e in
      ap (λ o. and_then (enqueue_current o (ready_current s)) (λ _. rest)) none_asked

after_getcontext-eq :
    (next : ℕ) (enabled : Bool) (s : Package)
    → MayYield s
    → after_getcontext next s.current_thread_id enabled s ≡ switched (switched_to next (freed s))
unfolding after_getcontext
after_getcontext-eq next enabled s h =
    let f = free_stacks_from-fields 1 1023 s.tcbs s.current_thread_id in
    let finish = λ (_ : Unit {0}). finish_yield next enabled in
    ap
      (λ o. and_then o λ _ s1.
        and_then (yield_block (current s1).setcontext_called next s.current_thread_id s1) finish)
      (thread_responsibilities_alive s h.alive)
    ∙ ap (λ b. and_then (yield_block b next s.current_thread_id (freed s)) finish) (f.1 ∙ h.fresh)
    ∙ ap (λ o. and_then o finish) (switch_to-eq next (freed s) (f.3 ∙ h.no_queue))

-- The state behind the getcontext of `thread_yield`.
abbrev pub saved : Point → List ℕ → Package → Package
saved p q s =
    set_tcb s.current_thread_id
      (record (current s) { mycontext = record { point = p; interrupts = false } })
      (record s { ready_queue = q; interrupts = false })

saved-MayYield : (p : Point) (q : List ℕ) (s : Package) → MayYield s → MayYield (saved p q s)
saved-MayYield p q s h = record {
  alive = rw (==_self s.current_thread_id) h.alive;
  fresh = rw (==_self s.current_thread_id) h.fresh;
  no_queue = rw (==_self s.current_thread_id) h.no_queue;
}

switched_to-Switched :
    (next : ℕ) (q : List ℕ) (frames : List Frame) (s : Package)
    → next ≢ s.current_thread_id
    → let p = in_yield next s.current_thread_id s.interrupts frames in
      Switched next q frames s (switched_to next (freed (saved p q s)))
switched_to-Switched next q frames s other =
    let p : Point = in_yield next s.current_thread_id s.interrupts frames in
    let c : ℕ = s.current_thread_id in
    let f = free_stacks_from-fields 1 1023 (saved p q s).tcbs c in
    record {
      runs = refl;
      queued = refl;
      ids = refl;
      queues = refl;
      next_runs = rw (==_ne next c other, ==_self next);
      old_ready = rw (==_self c, ==_ne c next (λ e. other (sym e)));
      old_marked = rw (==_self c);
      old_point =
          rw (==_self c, ==_ne c next (λ e. other (sym e)))
            (ap (λ (x : Context). x.point) f.0 ∙ rw (==_self c));
    }

yield_to-Switched :
    (next : ℕ) (q : List ℕ) (frames : List Frame) (s : Package)
    → MayYield s
    → next ≢ s.current_thread_id
    → (s' : Package) × (yield_to s.interrupts frames
          (some next, q)
          (record s { interrupts = false })
        ≡ switched s')
      × Switched next q frames s s'
unfolding yield_to
yield_to-Switched next q frames s h other =
    let p : Point = in_yield next s.current_thread_id s.interrupts frames in
    (
      switched_to next (freed (saved p q s)),
      after_getcontext-eq next s.interrupts (saved p q s) (saved-MayYield p q s h),
      switched_to-Switched next q frames s other,
    )

-- `thread_yield(THREAD_ANY)` of a thread that may yield gives the processor to the head of the ready
-- queue, and puts the caller, ready, at the queue's end.
pub yield_any-Switched :
    (next : ℕ) (q : List ℕ) (frames : List Frame) (s : Package)
    → MayYield s
    → s.ready_queue ≡ next ∷ q
    → next ≢ s.current_thread_id
    → (s' : Package) × (thread_yield thread_any frames s ≡ switched s')
      × Switched next q frames s s'
unfolding thread_yield remove_next_ready_thread
yield_any-Switched next q frames s h e other =
    let (s', runs, sw) = yield_to-Switched next q frames s h other in
    (
      s',
      ap
            (λ r.
              yield_to s.interrupts frames (remove_next_ready_thread r)
                (record s { interrupts = false }))
            e
          ∙ runs,
      sw,
    )

pub yield_pos-eq :
    (n : ℕ) (frames : List Frame) (s : Package)
    → n < 1024
    → n ≢ s.current_thread_id
    → (s.tcbs n).t_state ≢ not_assigned
    → thread_yield (pos n) frames s
      ≡ yield_to s.interrupts frames
          (remove_from_ready_queue (pos n) s.ready_queue)
          (record s { interrupts = false })
unfolding thread_yield
yield_pos-eq n frames s small other used = ground arith

-- `thread_yield(n)` of a thread that may yield, for another thread `n` that stands in the ready queue
-- once, gives the processor to `n`, and puts the caller, ready, behind the others in the queue, which
-- keep their order.
pub yield_pos-Switched :
    (n : ℕ) (before behind : List ℕ) (frames : List Frame) (s : Package)
    → MayYield s
    → n < 1024
    → n ≢ s.current_thread_id
    → (s.tcbs n).t_state ≢ not_assigned
    → s.ready_queue ≡ before ++ n ∷ behind
    → count n (before ++ behind) ≡ 0
    → (s' : Package) × (thread_yield (pos n) frames s ≡ switched s')
      × Switched n (before ++ behind) frames s s'
yield_pos-Switched n before behind frames s h small other used queue absent =
    let (s', runs, sw) = yield_to-Switched n (before ++ behind) frames s h other in
    let low : count n before ≡ 0 = omega (arith, absent, count-append n before behind) in
    let once : count n (before ++ n ∷ behind) ≤ 1 = omega (
      arith,
      absent,
      count-append n before behind,
      count-append n before (n ∷ behind),
      one_self n,
    ) in
    let (there, rest) = erase-middle n before behind low in
    (
      s',
      yield_pos-eq n frames s small other used
          ∙ ap
              (λ q.
                yield_to s.interrupts frames (remove_from_ready_queue (pos n) q)
                  (record s { interrupts = false }))
              queue
          ∙ ap (λ r. yield_to s.interrupts frames r (record s { interrupts = false }))
              (remove_from_ready_queue-erase n (before ++ n ∷ behind) once
                ∙ ap (λ c. (found c n, erase n (before ++ n ∷ behind))) there
                ∙ ap (λ q. (some n, q)) rest)
          ∙ runs,
      sw,
    )
  where
    one_self : (n : ℕ) → one_at n n ≡ 1
    one_self n = ap (λ c. if c then 1 else 0) (==_self n)
