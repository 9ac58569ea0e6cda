-- ===== src/Threads/Places/Rules.antt =====
-- The places of a thread id, and the rule for a sequence of calls of threads/thread.c.
use web_server_and_user_leve.Prelude.{ℕ, ◌+◌, ◌≤◌, arith, one_at, count, count_all}
use web_server_and_user_leve.Threads.State.{
  Package, Outcome, returned, switched, exited, aborted, undefined, out_of_fuel, and_then,
}

-- How many places of the package hold the id `t`.
abbrev pub places : ℕ → Package → ℕ
places t s =
    one_at t s.current_thread_id
    + count t s.ready_queue
    + count t s.available_ids
    + count_all t s.wait_queues

-- The same behind a call, as far as the process goes on.
abbrev pub places_after {ℓ} : {A : Type ℓ} → ℕ → Outcome A → ℕ
places_after t (returned a s) = places t s
places_after t (switched s) = places t s
places_after t (exited s) = 0
places_after t aborted = 0
places_after t undefined = 0
places_after t out_of_fuel = 0

-- The rules for a sequence of calls.
pub after_first :
    {A B : Type 0} (t k : ℕ) {b : ℕ} (r : Outcome A) (f : A → Package → Outcome B)
    → places_after t r ≤ b
    → ((a : A) (s : Package) → places_after t (f a s) ≤ places t s + k)
    → places_after t (and_then r f) ≤ b + k
after_first t k (returned a s) f h g = omega (arith, g a s)
after_first t k (switched s) f h g = omega arith
after_first t k (exited s) f h g = omega arith
after_first t k aborted f h g = omega arith
after_first t k undefined f h g = omega arith
after_first t k out_of_fuel f h g = omega arith

pub in_turn :
    {A B : Type 0} (t : ℕ) {b : ℕ} (r : Outcome A) (f : A → Package → Outcome B)
    → places_after t r ≤ b
    → ((a : A) (s : Package) → places_after t (f a s) ≤ places t s)
    → places_after t (and_then r f) ≤ b
in_turn t r f h g = omega (arith, after_first t 0 r f h λ a s. omega (arith, g a s))
