-- ===== src/Threads/Places/Waiting.antt =====
-- No call of threads/thread.c that creates or kills a thread, or creates or destroys a wait queue, puts
-- a thread id into a second place.
use web_server_and_user_leve.Prelude.{
  ℕ, ◌≤◌, ◌≡◌, refl, Option, none, some, List, [], ◌∷◌, arith, inl, inr, count_all-set,
  count_all-append,
}
use web_server_and_user_leve.Prelude.Int.{ℤ, pos, negsuc}
use web_server_and_user_leve.Threads.State.{Package}
use web_server_and_user_leve.Threads.Queues.{remove_from_head}
use web_server_and_user_leve.Threads.Queues.Counts.{count-add_to_tail}
use web_server_and_user_leve.Threads.Store.{wait_queue_create, wait_queue_destroy}
use web_server_and_user_leve.Threads.Create.{thread_kill, create_thread, thread_create}
use web_server_and_user_leve.Threads.Places.Rules.{places, places_after}
use web_server_and_user_leve.Threads.Places.Switching.{read_queue-cases}

module _ (t : ℕ) where
  pub wait_queue_create-places : (s : Package) → places_after t (wait_queue_create s) ≡ places t s
  unfolding wait_queue_create
  wait_queue_create-places s = omega (arith, count_all-append t s.wait_queues (some [] ∷ []))

  pub wait_queue_destroy-places :
      (w : ℕ) (s : Package) → places_after t (wait_queue_destroy w s) ≤ places t s
  unfolding wait_queue_destroy
  wait_queue_destroy-places w s = elim (read_queue-cases w s) [
    | inr e ↦ rw e (omega arith)
    | inl (q, r, e) ↦ rw r (omega (arith, count_all-set t s.wait_queues w (some q) none e))
  ]

  pub thread_create-places :
      (stack : Option ℕ) (fn parg : ℕ) (s : Package)
      → places_after t (thread_create stack fn parg s) ≤ places t s
  unfolding thread_create create_thread remove_from_head
  thread_create-places stack fn parg s = go stack s.available_ids refl
    where
      go :
          (o : Option ℕ) (ids : List ℕ)
          → s.available_ids ≡ ids
          → places_after t (thread_create o fn parg s) ≤ places t s
      go o [] e = rw (e, remove_from_head) (omega arith)
      go none (id ∷ ids) e = rw (e, remove_from_head) (omega arith)
      go (some k) (id ∷ ids) e =
          rw (e, remove_from_head) (omega (arith, count-add_to_tail t id s.ready_queue))

  pub thread_kill-places : (tid : ℤ) (s : Package) → places_after t (thread_kill tid s) ≤ places t s
  unfolding thread_kill
  thread_kill-places (pos n) s = ground arith
  thread_kill-places (negsuc n) s = ground arith
