-- ===== src/Threads/Queues.antt =====
-- The three lists of threads/thread.c: the ready queue, the wait queues and the unused ids. A list is
-- the ids from head to tail; the result -1 is `none`.
pub mod Counts
use web_server_and_user_leve.Prelude.{
  ℕ, zero, suc, Bool, true, false, ◌==◌, Option, tail_id, drop_tail, none, some, List, [], ◌∷◌,
  ◌++◌, if◌then◌else◌,
}
use web_server_and_user_leve.Prelude.Int.{ℤ, pos, eqb_ℤ}

-- pushThreadToWait: the walk to the last node.
unfoldable pub push_thread_to_wait : List ℕ → ℕ → List ℕ
push_thread_to_wait [] tid = tid ∷ []
push_thread_to_wait (x ∷ xs) tid = x ∷ push_thread_to_wait xs tid

unfoldable pub pop_head_thread_wait : List ℕ → Option ℕ × List ℕ
pop_head_thread_wait [] = (none, [])
pop_head_thread_wait (x ∷ xs) = (some x, xs)

unfoldable pub add_to_tail : List ℕ → ℕ → List ℕ
add_to_tail q id = q ++ id ∷ []

unfoldable pub remove_next_ready_thread : List ℕ → Option ℕ × List ℕ
remove_next_ready_thread [] = (none, [])
remove_next_ready_thread (x ∷ xs) = (some x, xs)

abbrev pub keep_front : ℕ → Option ℕ × List ℕ → Option ℕ × List ℕ
keep_front x (r, q) = (r, x ∷ q)

-- The walk from the head for an id in the middle.
unfoldable pub remove_middle : ℤ → List ℕ → Option ℕ × List ℕ
remove_middle id [] = (none, [])
remove_middle id (x ∷ xs) =
    let rest = remove_middle id xs in if eqb_ℤ (pos x) id then (some x, xs) else keep_front x rest

unfoldable pub remove_from_ready_queue : ℤ → List ℕ → Option ℕ × List ℕ
unfolding tail_id drop_tail remove_middle
remove_from_ready_queue id [] = (none, [])
remove_from_ready_queue id (x ∷ xs) =
    if eqb_ℤ (pos x) id
    then (some x, xs)
    else if eqb_ℤ (pos (tail_id x xs)) id
    then (some (tail_id x xs), drop_tail x xs)
    else remove_middle id (x ∷ xs)

unfoldable pub add_to_head_id : List ℕ → ℕ → List ℕ
add_to_head_id q id = id ∷ q

unfoldable pub remove_from_head : List ℕ → Option ℕ × List ℕ
remove_from_head [] = (none, [])
remove_from_head (x ∷ xs) = (some x, xs)

-- isIdNotUsed: the loop never moves to the next node. The result says that the id is in the list.
unfoldable pub is_id_not_used : ℕ → List ℕ → ℕ → Option Bool
is_id_not_used zero ids id = none
is_id_not_used (suc fuel) [] id = some false
is_id_not_used (suc fuel) (x ∷ xs) id =
    let again = is_id_not_used fuel (x ∷ xs) id in if x == id then some true else again
