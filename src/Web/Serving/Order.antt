-- ===== src/Web/Serving/Order.antt =====
-- What holds in every state of the server of webserver/server_thread.c: requests are served in the order
-- of their arrival, and nobody waits for ever before the exit.
use web_server_and_user_leve.Prelude.{
  updated, ℕ, ◌^◌, ◌<◌, ◌≡◌, ◌≢◌, refl, sym, ap, ◌∙◌, inl, inr, Bool-cases, ltb, ltb_lt, ltb_ge,
  ltb-true, Bool, true, false, Option, none, some, [], ◌∷◌, ◌++◌, if◌then◌else◌, length, arith,
}
use mathlib.Core.List.{append-nil, append_assoc}
use web_server_and_user_leve.Web.Connections.{
  Request, Connections, pushed, push_connection-room, push_connection-full, pushed-IsBounded,
}
use web_server_and_user_leve.Web.Pool.{
  Worker, at_top, waiting, woken, ended, serving, worker_section, server_request, server_exit,
  push_section, wake_worker, server_init,
}
use web_server_and_user_leve.Web.Serving.{
  Run, queue_of, after_push, Step, arrive, push_wakes, push_alone, section, finish, exit,
  spurious_worker, spurious_main, Serves, begin, next, run_of, is_awake, IsSound,
}
use web_server_and_user_leve.Web.Serving.Sections.{update-staffed, moved-IsSound, sectioned-IsSound}

abbrev tried : Request → Option ℕ → Bool × Connections → Run → Run
tried r target (success, c) u = record u {
  pool = push_section r target (success, c) u.pool;
  queued = u.queued ++ (if success then r ∷ [] else []);
}

module _ (n : ℕ) (r : Request) (u : Run) (s : IsSound n u) (some_worker : 0 < n) where
  full-IsSound :
      (target : Option ℕ)
      → length (queue_of u) ≡ u.pool.connections.max_requests
      → IsSound n (tried r target (false, u.pool.connections) u)
  unfolding push_section
  full-IsSound target full = record {
    queue = s.queue;
    fifo = append-nil u.queued ∙ s.fifo;
    full = λ q h. full;
    served = s.served;
    staffed = s.staffed;
    awake = s.awake;
  }

  queued_last : u.queued ++ r ∷ [] ≡ u.taken ++ (queue_of u ++ r ∷ [])
  queued_last = ap (λ l. l ++ r ∷ []) s.fifo ∙ append_assoc u.taken (queue_of u) (r ∷ [])

  -- The signal finds no waiting worker: all of them are awake.
  alone-IsSound :
      ((i : ℕ) → i < n → u.pool.workers i ≢ waiting)
      → length (queue_of u) < u.pool.connections.max_requests
      → IsSound n (tried r none (true, pushed u.pool.connections r) u)
  unfolding push_section
  alone-IsSound busy room = record {
    queue = pushed-IsBounded u.pool.connections s.queue r room;
    fifo = queued_last;
    full = λ q h. cc;
    served = s.served;
    staffed = s.staffed;
    awake = λ h m. (
      0,
      some_worker,
      not_asleep (u.pool.workers 0) (busy 0 some_worker) (s.staffed h 0 some_worker),
    );
  }
    where
      not_asleep : (w : Worker) → w ≢ waiting → w ≢ ended → is_awake w ≡ true
      not_asleep at_top h g = refl
      not_asleep waiting h g = absurd (h refl)
      not_asleep woken h g = refl
      not_asleep ended h g = absurd (g refl)
      not_asleep (serving q) h g = refl

  -- The signal wakes a worker that waits.
  wakes-IsSound :
      (i : ℕ)
      → i < n
      → u.pool.workers i ≡ waiting
      → length (queue_of u) < u.pool.connections.max_requests
      → IsSound n (tried r (some i) (true, pushed u.pool.connections r) u)
  unfolding push_section wake_worker
  wakes-IsSound i small asleep room = record {
    queue = pushed-IsBounded u.pool.connections s.queue r room;
    fifo = queued_last;
    full = λ q h. cc;
    served = s.served;
    staffed = λ h.
        update-staffed n u.pool.workers i (wake_worker (u.pool.workers i))
          (λ e. not_ended (sym (ap wake_worker asleep) ∙ e)) (s.staffed h);
    awake = λ h m. (
      i,
      small,
      ap is_awake
          (updated u.pool.workers i (wake_worker (u.pool.workers i)) ∙ ap wake_worker asleep),
    );
  }
    where
      not_ended : woken ≢ ended
      not_ended e = cc

  push-IsSound :
      (target : Option ℕ)
      → (length (queue_of u) < u.pool.connections.max_requests
          → IsSound n (tried r target (true, pushed u.pool.connections r) u))
      → IsSound n (after_push r target u)
  unfolding server_request
  push-IsSound target success =
      elim (Bool-cases (ltb (length (queue_of u)) u.pool.connections.max_requests)) [
        | inl room ↦
            rw (push_connection-room u.pool.connections s.queue r (ltb_lt _ _ room))
              (success (ltb_lt _ _ room))
        | inr no_room ↦
            let full : length (queue_of u) ≡ u.pool.connections.max_requests =
              omega (arith, s.queue.bounded, ltb_ge _ _ no_room) in
            rw (push_connection-full u.pool.connections s.queue r full) (full-IsSound target full)
      ]

exit-IsSound : (n : ℕ) (u : Run) → IsSound n u → IsSound n (record u { pool = server_exit u.pool })
unfolding server_exit
exit-IsSound n u s = record {
  queue = s.queue;
  fifo = s.fifo;
  full = λ r h. cc;
  served = λ h. cc;
  staffed = λ h. cc;
  awake = λ h. cc;
}

Step-IsSound : (n : ℕ) {u v : Run} → 0 < n → Step n u v → IsSound n u → IsSound n v
unfolding worker_section
Step-IsSound n h (arrive r e) s = record {
  queue = s.queue;
  fifo = s.fifo;
  full = λ q g. cc;
  served = s.served;
  staffed = s.staffed;
  awake = s.awake;
}
Step-IsSound n h (push_wakes r i {u} t small e) s =
    push-IsSound n r u s h (some i) (wakes-IsSound n r u s h i small e)
Step-IsSound n h (push_alone r {u} t busy) s =
    push-IsSound n r u s h none (alone-IsSound n r u s h busy)
Step-IsSound n h (section first i {u} small e) s =
    sectioned-IsSound n i u s small first u.pool.exiting (queue_of u) refl refl
Step-IsSound n h (finish i r {u} small e) s = moved-IsSound n i at_top u refl small s
Step-IsSound n h (exit {u} e) s = exit-IsSound n u s
Step-IsSound n h (spurious_worker i {u} small e) s = moved-IsSound n i woken u refl small s
Step-IsSound n h (spurious_main r {u} e) s = record {
  queue = s.queue;
  fifo = s.fifo;
  full = λ q g. cc;
  served = s.served;
  staffed = s.staffed;
  awake = s.awake;
}

init-IsSound :
    (n max_requests max_cache_size : ℕ)
    → max_requests < 2 ^ 31
    → IsSound n (run_of (server_init n max_requests max_cache_size).0)
init-IsSound n max_requests max_cache_size small = record {
  queue = record { counted = refl; bounded = omega arith; small = small };
  fifo = refl;
  full = λ r h. cc;
  served = λ h. refl;
  staffed = λ h i less.
      λ e. not_ended (sym (ap (λ b. if b then at_top else ended) (ltb-true i n less)) ∙ e);
  awake = λ h m. absurd (omega arith);
}
  where
    not_ended : at_top ≢ ended
    not_ended e = cc

-- In every state that a server with at least one worker reaches from `server_init`: the queue holds at
-- most `max_requests` requests, and they are the last of those put into it, in their order, behind the
-- ones taken out; the main thread waits only while the queue is full; and before `server_exit` a worker
-- has called `do_server_request` with every request taken out, no worker has ended, and a worker is awake
-- while the queue is not empty.
pub Serves-IsSound :
    (n max_requests max_cache_size : ℕ) {u : Run}
    → 0 < n
    → max_requests < 2 ^ 31
    → Serves n (server_init n max_requests max_cache_size).0 u
    → IsSound n u
Serves-IsSound n max_requests max_cache_size h small begin =
    init-IsSound n max_requests max_cache_size small
Serves-IsSound n max_requests max_cache_size h small (next run step) =
    Step-IsSound n h step (Serves-IsSound n max_requests max_cache_size h small run)
