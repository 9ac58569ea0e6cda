-- ===== src/Threads/Order.antt =====
-- Directed yields of threads/thread.c: which thread `removeFromReadyQueue` takes out, and what it leaves.
use web_server_and_user_leve.Prelude.{
  ℕ, ◌≤◌, ◌≡◌, refl, Bool, Option, none, some, List, [], ◌∷◌, arith, if◌then◌else◌, count, erase,
  has, drop_tail-erase,
}
use web_server_and_user_leve.Prelude.Int.{pos}
use web_server_and_user_leve.Threads.Queues.{remove_middle, remove_from_ready_queue}

abbrev pub found : Bool → ℕ → Option ℕ
found b id = if b then some id else none

remove_middle-erase :
    (id : ℕ) (q : List ℕ) → remove_middle (pos id) q ≡ (found (has id q) id, erase id q)
unfolding remove_middle erase has
remove_middle-erase id [] = refl
remove_middle-erase id (x ∷ xs) = ground (arith, remove_middle-erase id xs)

-- On a queue that holds the id at most once, `removeFromReadyQueue` with its shortcuts for the head and
-- the tail takes the id out if it is there, and keeps the order of the others.
pub remove_from_ready_queue-erase :
    (id : ℕ) (q : List ℕ)
    → count id q ≤ 1
    → remove_from_ready_queue (pos id) q ≡ (found (has id q) id, erase id q)
unfolding remove_from_ready_queue erase has
remove_from_ready_queue-erase id [] once = refl
remove_from_ready_queue-erase id (x ∷ xs) once =
    ground (arith, drop_tail-erase id x xs, remove_middle-erase id xs)
