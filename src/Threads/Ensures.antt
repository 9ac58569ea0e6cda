-- ===== src/Threads/Ensures.antt =====
-- Statements about the outcome of a call of threads/thread.c: what holds if it returns, and what holds
-- if it leaves for another thread.
use web_server_and_user_leve.Prelude.{Bool, true, false, if◌then◌else◌}
use web_server_and_user_leve.Threads.State.{
  Package, Outcome, returned, switched, exited, aborted, undefined, out_of_fuel, and_then,
}

-- `P` where the call returns to its thread, `Q` where setcontext gives the processor to another.
abbrev pub Ensures : {A : Type 0} → (P Q : Package → Type 0) → Outcome A → Type 0
Ensures P Q (returned a s) = P s
Ensures P Q (switched s) = Q s
Ensures P Q (exited s) = Unit {0}
Ensures P Q aborted = Unit {0}
Ensures P Q undefined = Unit {0}
Ensures P Q out_of_fuel = Unit {0}

module _ {A : Type 0} where
  pub Ensures-both :
      (P Q P' Q' : Package → Type 0) (r : Outcome A)
      → Ensures P Q r
      → Ensures P' Q' r
      → Ensures (λ s. P s × P' s) (λ s. Q s × Q' s) r
  Ensures-both P Q P' Q' (returned a s) h g = (h, g)
  Ensures-both P Q P' Q' (switched s) h g = (h, g)
  Ensures-both P Q P' Q' (exited s) h g = tt
  Ensures-both P Q P' Q' aborted h g = tt
  Ensures-both P Q P' Q' undefined h g = tt
  Ensures-both P Q P' Q' out_of_fuel h g = tt

  pub Ensures-mono :
      (P Q P' Q' : Package → Type 0) (r : Outcome A)
      → ((s : Package) → P s → P' s)
      → ((s : Package) → Q s → Q' s)
      → Ensures P Q r
      → Ensures P' Q' r
  Ensures-mono P Q P' Q' (returned a s) f g h = f s h
  Ensures-mono P Q P' Q' (switched s) f g h = g s h
  Ensures-mono P Q P' Q' (exited s) f g h = tt
  Ensures-mono P Q P' Q' aborted f g h = tt
  Ensures-mono P Q P' Q' undefined f g h = tt
  Ensures-mono P Q P' Q' out_of_fuel f g h = tt

  pub Ensures-if :
      (P Q : Package → Type 0) (b : Bool) (m n : Package → Outcome A) (s : Package)
      → Ensures P Q (m s)
      → Ensures P Q (n s)
      → Ensures P Q ((if b then m else n) s)
  Ensures-if P Q true m n s h g = h
  Ensures-if P Q false m n s h g = g

  -- The rule for a sequence.
  pub Ensures-and_then :
      {B : Type 0} (P Q R : Package → Type 0) (r : Outcome A) (f : A → Package → Outcome B)
      → Ensures R Q r
      → ((a : A) (s : Package) → R s → Ensures P Q (f a s))
      → Ensures P Q (and_then r f)
  Ensures-and_then P Q R (returned a s) f h g = g a s h
  Ensures-and_then P Q R (switched s) f h g = h
  Ensures-and_then P Q R (exited s) f h g = tt
  Ensures-and_then P Q R aborted f h g = tt
  Ensures-and_then P Q R undefined f h g = tt
  Ensures-and_then P Q R out_of_fuel f h g = tt
