-- ===== src/Threads/Faults.antt =====
-- Calls of threads/thread.c that read outside the array of control blocks, and a loop without an end.
use web_server_and_user_leve.Prelude.{
  ℕ, zero, suc, ◌<◌, ◌≤◌, ◌≡◌, ◌≢◌, refl, none, List, ◌∷◌, arith, ==_ne,
}
use web_server_and_user_leve.Prelude.Int.{pos, negsuc}
use web_server_and_user_leve.Threads.State.{Frame, Package, undefined}
use web_server_and_user_leve.Threads.Queues.{is_id_not_used}
use web_server_and_user_leve.Threads.Create.{read_tcb, thread_kill}
use web_server_and_user_leve.Threads.Sync.{thread_wait}

-- `thread_kill` of -1 to -7 passes the check of the range and reads before the array, where thread.h
-- promises THREAD_INVALID.
pub thread_kill-undefined : (n : ℕ) (s : Package) → n < 7 → thread_kill (negsuc n) s ≡ undefined
unfolding thread_kill
thread_kill-undefined n s h = ground arith

-- `thread_wait` for an id from 1024 on, other than the caller's own, reads behind the array, where
-- thread.h promises THREAD_INVALID.
pub thread_wait-undefined :
    (n : ℕ) (frames : List Frame) (s : Package)
    → 1024 ≤ n
    → n ≢ s.current_thread_id
    → thread_wait (pos n) frames s ≡ undefined
unfolding thread_wait read_tcb
thread_wait-undefined n frames s h other = ground arith

-- `isIdNotUsed` on a list whose first id is another one uses up any number of rounds.
pub is_id_not_used-none :
    (fuel x id : ℕ) (xs : List ℕ) → x ≢ id → is_id_not_used fuel (x ∷ xs) id ≡ none
unfolding is_id_not_used
is_id_not_used-none zero x id xs h = refl
is_id_not_used-none (suc fuel) x id xs h = rw (==_ne x id h) (is_id_not_used-none fuel x id xs h)
