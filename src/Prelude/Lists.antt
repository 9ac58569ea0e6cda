-- ===== src/Prelude/Lists.antt =====
-- Lists measured and indexed by native numbers, under the library's names.
use Prim.Native.Nat.{ℕ, zero, suc, ◌+◌, ◌<◌}
use mathlib.Core.Path.{◌≡◌, refl, sym, ap, ◌∙◌}
use web_server_and_user_leve.Prelude.Tests.{◌==◌, if◌then◌else◌}
use mathlib.Core.List.{List, [], ◌∷◌, ◌++◌}
use mathlib.Core.Option.{Option, none, some}
use native.Mathlib.Omega.{arith}

module _ {ℓ} {A : Type ℓ} where
  abbrev pub length : List A → ℕ
  length [] = 0
  length (x ∷ xs) = suc (length xs)

  abbrev pub take : ℕ → List A → List A
  take zero xs = []
  take (suc n) [] = []
  take (suc n) (x ∷ xs) = x ∷ take n xs

  abbrev pub get_elem? : List A → ℕ → Option A
  get_elem? [] i = none
  get_elem? (x ∷ xs) zero = some x
  get_elem? (x ∷ xs) (suc i) = get_elem? xs i

  -- A write out of bounds changes nothing.
  abbrev pub set : List A → ℕ → A → List A
  set [] i v = []
  set (x ∷ xs) zero v = v ∷ xs
  set (x ∷ xs) (suc i) v = x ∷ set xs i v

  pub length-append : (xs ys : List A) → length (xs ++ ys) ≡ length xs + length ys
  length-append [] ys = omega arith
  length-append (x ∷ xs) ys = omega (arith, length-append xs ys)

  pub get_elem?-set_self :
      (xs : List A) (i : ℕ) (v w : A) → get_elem? xs i ≡ some w → get_elem? (set xs i v) i ≡ some v
  get_elem?-set_self [] i v w h = cc
  get_elem?-set_self (x ∷ xs) zero v w h = refl
  get_elem?-set_self (x ∷ xs) (suc i) v w h = get_elem?-set_self xs i v w h

  pub get_elem?-append_length :
      (xs : List A) (y : A) → get_elem? (xs ++ y ∷ []) (length xs) ≡ some y
  get_elem?-append_length [] y = refl
  get_elem?-append_length (x ∷ xs) y = get_elem?-append_length xs y

  pub get_elem?-set :
      (xs : List A) (i j : ℕ) (x y : A)
      → get_elem? xs i ≡ some x
      → get_elem? (set xs i y) j ≡ (if j == i then some y else get_elem? xs j)
  get_elem?-set [] i j x y h = cc
  get_elem?-set (a ∷ xs) zero zero x y h = refl
  get_elem?-set (a ∷ xs) zero (suc j) x y h = ground arith
  get_elem?-set (a ∷ xs) (suc i) zero x y h = ground arith
  get_elem?-set (a ∷ xs) (suc i) (suc j) x y h =
      get_elem?-set xs i j x y h ∙ ap (λ b. if b then some y else get_elem? xs j) (suc_eqb i j)
    where
      suc_eqb : (i j : ℕ) → (j == i) ≡ (suc j == suc i)
      suc_eqb i j = ground arith

  pub length-set : (xs : List A) (i : ℕ) (y : A) → length (set xs i y) ≡ length xs
  length-set [] i y = refl
  length-set (a ∷ xs) zero y = refl
  length-set (a ∷ xs) (suc i) y = ap suc (length-set xs i y)

  pub word_exists : (xs : List A) (i : ℕ) → i < length xs → (x : A) × (get_elem? xs i ≡ some x)
  word_exists [] i h = absurd (omega arith)
  word_exists (a ∷ xs) zero h = (a, refl)
  word_exists (a ∷ xs) (suc i) h = word_exists xs i (omega arith)

  pub set-set : (xs : List A) (i : ℕ) (x y : A) → set (set xs i x) i y ≡ set xs i y
  set-set [] i x y = refl
  set-set (a ∷ xs) zero x y = refl
  set-set (a ∷ xs) (suc i) x y = ap (λ ys. a ∷ ys) (set-set xs i x y)

  pub set-same : (xs : List A) (i : ℕ) (x : A) → get_elem? xs i ≡ some x → set xs i x ≡ xs
  set-same [] i x h = refl
  set-same (a ∷ xs) zero x h = ap (λ y. y ∷ xs) (sym (some_eq a x h))
    where
      some_eq : (a b : A) → some a ≡ some b → a ≡ b
      some_eq a b e = cc
  set-same (a ∷ xs) (suc i) x h = ap (λ ys. a ∷ ys) (set-same xs i x h)
