-- ===== src/Threads/Waking/Wakeup.antt =====
-- The order in which `thread_wakeup` of threads/thread.c makes sleeping threads ready.
use web_server_and_user_leve.Prelude.{
  ℕ, ◌≡◌, refl, sym, ◌∙◌, ap, Bool, true, false, some, List, [], ◌∷◌, ◌++◌, arith, length,
  get_elem?, set, if◌then◌else◌,
}
use web_server_and_user_leve.Threads.State.{Package, returned, and_then}
use web_server_and_user_leve.Threads.Queues.{add_to_tail}
use web_server_and_user_leve.Threads.Queues.Counts.{wake_rest-append, wake_rest-length}
use web_server_and_user_leve.Threads.Store.{read_queue, wake, wake_store, thread_wakeup}
use mathlib.Core.List.{append_assoc, append-nil}

-- The threads of a wait queue that a wake-up takes, and those that it leaves.
unfoldable pub woken : Bool → List ℕ → List ℕ
woken all [] = []
woken all (t ∷ q) = t ∷ (if all then q else [])

unfoldable pub asleep : Bool → List ℕ → List ℕ
asleep all [] = []
asleep all (t ∷ q) = if all then [] else q

wake-woken :
    (q : List ℕ) (all : Bool) (readys : List ℕ)
    → (((wake q all readys).0 ≡ asleep all q) × ((wake q all readys).1 ≡ readys ++ woken all q))
      × ((wake q all readys).2 ≡ length (woken all q))
unfolding wake woken asleep add_to_tail
wake-woken [] all readys = ((refl, sym (append-nil readys)), refl)
wake-woken (t ∷ q) true readys = (
  (refl, wake_rest-append q (readys ++ t ∷ []) 1 ∙ append_assoc readys (t ∷ []) q),
  omega (arith, wake_rest-length q (readys ++ t ∷ []) 1),
)
wake-woken (t ∷ q) false readys = ((refl, refl), refl)

pub read_queue_eq :
    (w : ℕ) (q : List ℕ) (s : Package)
    → get_elem? s.wait_queues w ≡ some (some q)
    → read_queue w s ≡ returned q s
unfolding read_queue
read_queue_eq w q s e = rw (e, read_queue)

-- `thread_wakeup` on a wait queue appends the threads that it takes to the ready queue, in the order in
-- which they went to sleep: all of them if `all` is set, and else the first one. It returns their
-- number, leaves the rest in the wait queue, and changes nothing else.
pub thread_wakeup-woken :
    (w : ℕ) (all : Bool) (q : List ℕ) (s : Package)
    → get_elem? s.wait_queues w ≡ some (some q)
    → thread_wakeup (some w) all s
      ≡ returned (length (woken all q)) (record s {
        ready_queue = s.ready_queue ++ woken all q;
        wait_queues = set s.wait_queues w (some (asleep all q));
      })
unfolding thread_wakeup wake_store
thread_wakeup-woken w all q s e =
    let off : Package = record s { interrupts = false } in
    let k = wake-woken q all s.ready_queue in
    ap
      (λ o. and_then o λ q' s1.
        and_then (wake_store w all q' s1)
          λ n s2. returned n (record s2 { interrupts = s.interrupts }))
      (read_queue_eq w q off e)
    ∙ λ i.
        returned (k.1 i)
          (record s { ready_queue = k.0.1 i; wait_queues = set s.wait_queues w (some (k.0.0 i)) })
