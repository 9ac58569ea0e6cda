-- ===== src/Prelude/Counts.antt =====
-- How often a number occurs in a list, and in a store of lists.
use Prim.Native.Nat.{ℕ, zero, suc, ◌+◌}
use mathlib.Core.Path.{◌≡◌}
use mathlib.Core.List.{List, [], ◌∷◌, ◌++◌}
use mathlib.Core.Option.{Option, none, some}
use native.Mathlib.Omega.{arith}
use web_server_and_user_leve.Prelude.Tests.{◌==◌, if◌then◌else◌}
use web_server_and_user_leve.Prelude.Lists.{get_elem?, set}

-- 1 at `a` itself and 0 elsewhere.
abbrev pub one_at : ℕ → ℕ → ℕ
one_at a b = if a == b then 1 else 0

abbrev pub count : ℕ → List ℕ → ℕ
count a [] = 0
count a (b ∷ bs) = one_at a b + count a bs

pub count-append :
    (id : ℕ) (front back : List ℕ) → count id (front ++ back) ≡ count id front + count id back
count-append id [] back = omega arith
count-append id (t ∷ front) back = omega (arith, count-append id front back)

-- A cell of a store: a list, or one that has been freed.
abbrev pub count_cell : ℕ → Option (List ℕ) → ℕ
count_cell a none = 0
count_cell a (some xs) = count a xs

abbrev pub count_all : ℕ → List (Option (List ℕ)) → ℕ
count_all a [] = 0
count_all a (c ∷ cs) = count_cell a c + count_all a cs

pub count_all-append :
    (a : ℕ) (xs ys : List (Option (List ℕ)))
    → count_all a (xs ++ ys) ≡ count_all a xs + count_all a ys
count_all-append a [] ys = omega arith
count_all-append a (x ∷ xs) ys = omega (arith, count_all-append a xs ys)

pub count_all-set :
    (a : ℕ) (cs : List (Option (List ℕ))) (i : ℕ) (old new : Option (List ℕ))
    → get_elem? cs i ≡ some old
    → count_all a (set cs i new) + count_cell a old ≡ count_all a cs + count_cell a new
count_all-set a [] i old new h = ground arith
count_all-set a (c ∷ cs) zero old new h = ground arith
count_all-set a (c ∷ cs) (suc i) old new h = omega (arith, count_all-set a cs i old new h)
