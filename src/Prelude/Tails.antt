-- ===== src/Prelude/Tails.antt =====
-- The two ends of a queue of numbers, and a queue without one of its members.
use Prim.Native.Nat.{ℕ, ◌+◌, ◌≤◌}
use mathlib.Core.Path.{◌≡◌, refl}
use mathlib.Core.Bool.{Bool, true, false}
use mathlib.Core.List.{List, [], ◌∷◌, ◌++◌}
use native.Mathlib.Omega.{arith}
use web_server_and_user_leve.Prelude.Tests.{◌==◌, if◌then◌else◌}
use web_server_and_user_leve.Prelude.Counts.{count, one_at}

-- `tail->id` of the queue `x ∷ xs`, and the queue without its tail.
unfoldable pub tail_id : ℕ → List ℕ → ℕ
tail_id x [] = x
tail_id x (y ∷ ys) = tail_id y ys

unfoldable pub drop_tail : ℕ → List ℕ → List ℕ
drop_tail x [] = []
drop_tail x (y ∷ ys) = x ∷ drop_tail y ys

pub count-drop_tail :
    (t x : ℕ) (xs : List ℕ) → one_at t (tail_id x xs) + count t (drop_tail x xs) ≡ count t (x ∷ xs)
unfolding tail_id drop_tail
count-drop_tail t x [] = refl
count-drop_tail t x (y ∷ ys) = omega (arith, count-drop_tail t y ys)

-- The list without the first occurrence of an id.
unfoldable pub erase : ℕ → List ℕ → List ℕ
erase id [] = []
erase id (x ∷ xs) = if x == id then xs else x ∷ erase id xs

unfoldable pub has : ℕ → List ℕ → Bool
has id [] = false
has id (x ∷ xs) = if x == id then true else has id xs

pub drop_tail-erase :
    (id x : ℕ) (xs : List ℕ)
    → count id (x ∷ xs) ≤ 1
    → tail_id x xs ≡ id
    → (has id (x ∷ xs) ≡ true) × (drop_tail x xs ≡ erase id (x ∷ xs))
unfolding tail_id drop_tail erase has
drop_tail-erase id x [] once e = ground arith
drop_tail-erase id x (y ∷ ys) once e =
    ground (arith, drop_tail-erase id y ys, count-drop_tail id y ys)

pub count-erase :
    (t id : ℕ) (q : List ℕ) → 1 ≤ count id q → count t (erase id q) + one_at t id ≡ count t q
unfolding erase
count-erase t id [] h = absurd (omega arith)
count-erase t id (x ∷ xs) h = ground (arith, count-erase t id xs)

-- An id that occurs once is taken out from between the others.
pub erase-middle :
    (id : ℕ) (before behind : List ℕ)
    → count id before ≡ 0
    → (has id (before ++ id ∷ behind) ≡ true)
      × (erase id (before ++ id ∷ behind) ≡ before ++ behind)
unfolding erase has
erase-middle id [] behind h = ground arith
erase-middle id (x ∷ before) behind h = ground (arith, erase-middle id before behind)

pub has-absent : (id : ℕ) (q : List ℕ) → count id q ≡ 0 → has id q ≡ false
unfolding has
has-absent id [] h = refl
has-absent id (x ∷ xs) h = ground (arith, has-absent id xs)
