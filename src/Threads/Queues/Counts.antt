-- ===== src/Threads/Queues/Counts.antt =====
-- What the list operations of threads/thread.c do to the contents of a list.
use web_server_and_user_leve.Prelude.{
  ℕ, ◌+◌, ◌≡◌, refl, sym, ap, ◌∙◌, Bool, true, false, Option, none, some, List, [], ◌∷◌, ◌++◌,
  arith, count, one_at, count-append, count-drop_tail, length,
}
use mathlib.Core.List.{append-nil, append_assoc}
use web_server_and_user_leve.Prelude.Int.{ℤ}
use web_server_and_user_leve.Threads.Queues.{
  push_thread_to_wait, add_to_tail, remove_middle, remove_from_ready_queue,
  remove_next_ready_thread,
}
use web_server_and_user_leve.Threads.Store.{wake_rest, wake}

pub push_thread_to_wait-append : (q : List ℕ) (tid : ℕ) → push_thread_to_wait q tid ≡ q ++ tid ∷ []
unfolding push_thread_to_wait
push_thread_to_wait-append [] tid = refl
push_thread_to_wait-append (x ∷ q) tid = ap (λ r. x ∷ r) (push_thread_to_wait-append q tid)

pub count-push :
    (t tid : ℕ) (q : List ℕ) → count t (push_thread_to_wait q tid) ≡ count t q + one_at t tid
count-push t tid q =
    omega (arith, ap (count t) (push_thread_to_wait-append q tid), count-append t q (tid ∷ []))

pub count-add_to_tail :
    (t id : ℕ) (q : List ℕ) → count t (add_to_tail q id) ≡ count t q + one_at t id
unfolding add_to_tail
count-add_to_tail t id q = omega (arith, count-append t q (id ∷ []))

-- How often an id was taken out.
abbrev pub count_removed : ℕ → Option ℕ → ℕ
count_removed t none = 0
count_removed t (some id) = one_at t id

pub count-remove_middle :
    (t : ℕ) (id : ℤ) (q : List ℕ)
    → count_removed t (remove_middle id q).0 + count t (remove_middle id q).1 ≡ count t q
unfolding remove_middle
count-remove_middle t id [] = refl
count-remove_middle t id (x ∷ xs) = ground (arith, count-remove_middle t id xs)

pub count-remove_from_ready_queue :
    (t : ℕ) (id : ℤ) (q : List ℕ)
    → count_removed t (remove_from_ready_queue id q).0 + count t (remove_from_ready_queue id q).1
      ≡ count t q
unfolding remove_from_ready_queue
count-remove_from_ready_queue t id [] = refl
count-remove_from_ready_queue t id (x ∷ xs) =
    ground (arith, count-remove_middle t id (x ∷ xs), count-drop_tail t x xs)

pub count-remove_next :
    (t : ℕ) (q : List ℕ)
    → count_removed t (remove_next_ready_thread q).0 + count t (remove_next_ready_thread q).1
      ≡ count t q
unfolding remove_next_ready_thread
count-remove_next t [] = refl
count-remove_next t (x ∷ xs) = refl

-- The loop of `thread_wakeup` moves the rest of the queue, in its order, to the end of the ready queue.
pub wake_rest-append : (q readys : List ℕ) (n : ℕ) → (wake_rest q readys n).0 ≡ readys ++ q
unfolding wake_rest add_to_tail
wake_rest-append [] readys n = sym (append-nil readys)
wake_rest-append (t ∷ q) readys n =
    wake_rest-append q (readys ++ t ∷ []) (n + 1) ∙ append_assoc readys (t ∷ []) q

pub wake_rest-length : (q readys : List ℕ) (n : ℕ) → (wake_rest q readys n).1 ≡ n + length q
unfolding wake_rest
wake_rest-length [] readys n = omega arith
wake_rest-length (t ∷ q) readys n = omega (arith, wake_rest-length q (add_to_tail readys t) (n + 1))

pub count-wake :
    (t : ℕ) (q : List ℕ) (all : Bool) (readys : List ℕ)
    → count t (wake q all readys).0 + count t (wake q all readys).1 ≡ count t q + count t readys
unfolding wake
count-wake t [] all readys = refl
count-wake t (x ∷ q) true readys = omega (
  arith,
  ap (count t) (wake_rest-append q (add_to_tail readys x) 1),
  count-append t (add_to_tail readys x) q,
  count-add_to_tail t x readys,
)
count-wake t (x ∷ q) false readys = omega (arith, count-add_to_tail t x readys)
