-- ===== src/Threads/Switch/Refuse.antt =====
-- `thread_yield` of threads/thread.c when it goes back to its caller at once.
use web_server_and_user_leve.Prelude.{
  ℕ, ◌≤◌, ◌<◌, ◌≡◌, ◌≢◌, refl, ◌∙◌, ap, false, none, List, [], ◌∷◌, arith, count, erase, has-absent,
}
use web_server_and_user_leve.Prelude.Int.{ℤ, pos, negsuc}
use web_server_and_user_leve.Threads.State.{
  not_assigned, Frame, Package, returned, thread_any, thread_self, thread_invalid, thread_none,
}
use web_server_and_user_leve.Threads.Queues.{
  remove_next_ready_thread, remove_from_ready_queue, remove_middle, keep_front,
}
use web_server_and_user_leve.Threads.Order.{found, remove_from_ready_queue-erase}
use web_server_and_user_leve.Threads.Schedule.{yield_to, thread_yield}
use web_server_and_user_leve.Threads.Switch.Leave.{yield_pos-eq}

-- The calls that fail, or ask for the caller itself, with their results. The negative numbers from -3 to
-- -7 are identifiers of no thread, but have the result for no ready thread, and so has a thread that is
-- not ready, whether another one is or not.
pub data Refuses (s : Package) : ℤ → ℤ → Type 0 where
  too_large : (n : ℕ) → 1024 ≤ n → Refuses s (pos n) thread_invalid
  too_small : (n : ℕ) → 7 ≤ n → Refuses s (negsuc n) thread_invalid
  self : Refuses s thread_self (pos s.current_thread_id)
  own_id :
      (n : ℕ) → n < 1024 → n ≡ s.current_thread_id → Refuses s (pos n) (pos s.current_thread_id)
  unused :
      (n : ℕ)
      → n < 1024
      → n ≢ s.current_thread_id
      → (s.tcbs n).t_state ≡ not_assigned
      → Refuses s (pos n) thread_invalid
  reserved : (n : ℕ) → 2 ≤ n → n ≤ 6 → Refuses s (negsuc n) thread_none
  none_ready : s.ready_queue ≡ [] → Refuses s thread_any thread_none
  not_ready :
      (n : ℕ)
      → n < 1024
      → n ≢ s.current_thread_id
      → (s.tcbs n).t_state ≢ not_assigned
      → count n s.ready_queue ≡ 0
      → Refuses s (pos n) thread_none

remove_middle-negative : (n : ℕ) (q : List ℕ) → remove_middle (negsuc n) q ≡ (none, q)
unfolding remove_middle
remove_middle-negative n [] = refl
remove_middle-negative n (x ∷ xs) = ap (keep_front x) (remove_middle-negative n xs)

remove_negative : (n : ℕ) (q : List ℕ) → remove_from_ready_queue (negsuc n) q ≡ (none, q)
unfolding remove_from_ready_queue
remove_negative n [] = refl
remove_negative n (x ∷ xs) = remove_middle-negative n (x ∷ xs)

yield_reserved-eq :
    (n : ℕ) (frames : List Frame) (s : Package)
    → 2 ≤ n
    → n ≤ 6
    → thread_yield (negsuc n) frames s
      ≡ yield_to s.interrupts frames
          (remove_from_ready_queue (negsuc n) s.ready_queue)
          (record s { interrupts = false })
unfolding thread_yield
yield_reserved-eq n frames s low high = ground arith

-- Such a call of `thread_yield` returns that result, and leaves every part of the state, the interrupt
-- state included, as it was.
pub thread_yield-Refuses :
    {s : Package} {want v : ℤ} (frames : List Frame)
    → Refuses s want v
    → thread_yield want frames s ≡ returned v s
unfolding thread_yield yield_to remove_next_ready_thread
thread_yield-Refuses {s} frames (too_large n h) = ground arith
thread_yield-Refuses {s} frames (too_small n h) = ground arith
thread_yield-Refuses {s} frames self = refl
thread_yield-Refuses {s} frames (own_id n h e) = ground arith
thread_yield-Refuses {s} frames (unused n h e u) = ground arith
thread_yield-Refuses {s} frames (none_ready e) =
    ap
      (λ r.
        yield_to s.interrupts frames (remove_next_ready_thread r) (record s { interrupts = false }))
      e
thread_yield-Refuses {s} frames (reserved n low high) =
    yield_reserved-eq n frames s low high
    ∙ ap (λ r. yield_to s.interrupts frames r (record s { interrupts = false }))
        (remove_negative n s.ready_queue)
thread_yield-Refuses {s} frames (not_ready n h e u absent) =
    yield_pos-eq n frames s h e u
    ∙ ap (λ r. yield_to s.interrupts frames r (record s { interrupts = false }))
        (remove_from_ready_queue-erase n s.ready_queue (omega (arith, absent))
          ∙ ap (λ c. (found c n, erase n s.ready_queue)) (has-absent n s.ready_queue absent))
