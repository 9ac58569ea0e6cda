-- ===== src/Threads/Store/Stacks.antt =====
-- What freeTCBStacks of threads/thread.c does to each control block.
use web_server_and_user_leve.Prelude.{
  ℕ, zero, suc, ◌+◌, ◌≡◌, arith, leb, ltb, ◌&&◌, if◌then◌else◌, update,
}
use web_server_and_user_leve.Threads.State.{Thread}
use web_server_and_user_leve.Threads.Store.{free_stack, free_stacks_from}

-- The rounds `i` to `i + n - 1` free the stacks of the threads with these ids, and touch no other.
pub free_stacks_from_lem :
    (i n : ℕ) (tcbs : ℕ → Thread) (j : ℕ)
    → free_stacks_from i n tcbs j
      ≡ (if leb i j && ltb j (i + n) then free_stack (tcbs j) else tcbs j)
unfolding free_stacks_from
free_stacks_from_lem i zero tcbs j = ground arith
free_stacks_from_lem i (suc n) tcbs j =
    ground (arith, free_stacks_from_lem (i + 1) n (update tcbs i (free_stack (tcbs i))) j)
