-- ===== src/Fs/Names.antt =====
-- The name and the numbers in the bytes of an entry of fs/dir.c.
use web_server_and_user_leve.Prelude.{
  ℕ, zero, suc, ◌+◌, ◌*◌, ◌/◌, ◌%◌, ◌^◌, ◌≤◌, ◌<◌, ◌≡◌, ◌≢◌, ◌⊎◌, inl, inr, refl, ap, ◌∙◌, ◌==◌,
  ==_ne, eqb_eq, eqb_ne, true, false, Bool-cases, arith, some, List, [], ◌∷◌, ◌++◌, length,
  if◌then◌else◌,
}
use web_server_and_user_leve.Fs.Stored.{head_eq, tail_eq}
use web_server_and_user_leve.Fs.Reading.{span}
use web_server_and_user_leve.Fs.Directory.{number_of, str_eq}

-- The characters of a name and the zero behind them.
pub data IsCString : List ℕ → Type 0 where
  terminator : IsCString (0 ∷ [])
  character : {x : ℕ} {xs : List ℕ} → 1 ≤ x → IsCString xs → IsCString (x ∷ xs)

abbrev pub Nonzero : List ℕ → Type 0
Nonzero [] = Unit
Nonzero (c ∷ name) = (1 ≤ c) × Nonzero name

-- strcmp of such a string with a name.
pub str_eq-cases :
    (xs name : List ℕ)
    → IsCString xs
    → Nonzero name
    → ((str_eq xs name ≡ some true) × (xs ≡ name ++ 0 ∷ []))
      ⊎ ((str_eq xs name ≡ some false) × (xs ≢ name ++ 0 ∷ []))
unfolding str_eq
str_eq-cases [] name z h = elim z [ ]
str_eq-cases (x ∷ xs) [] terminator h = inl (refl, refl)
str_eq-cases (x ∷ xs) (c ∷ name) terminator (low, h) = inr (
  ap (λ t. if t then str_eq [] name else some false) (==_ne 0 c (λ e. omega (arith, e, low))),
  λ e. omega (arith, low, head_eq _ _ _ _ e),
)
str_eq-cases (x ∷ xs) [] (character low z) h =
    inr
      (ap some (==_ne x 0 (λ e. omega (arith, e, low))), λ e. omega (arith, low, head_eq _ _ _ _ e))
str_eq-cases (x ∷ xs) (c ∷ name) (character low z) (h, hs) = elim (Bool-cases (x == c)) [
  | inr other ↦ inr (
    ap (λ t. if t then str_eq xs name else some false) other,
    λ e. absurd (eqb_ne x c other (head_eq _ _ _ _ e)),
  )
  | inl same ↦ elim (str_eq-cases xs name z hs) [
    | inl (e, q) ↦ inl (
      ap (λ t. if t then str_eq xs name else some false) same ∙ e,
      ap (λ y. y ∷ xs) (eqb_eq x c same) ∙ ap (λ ys. c ∷ ys) q,
    )
    | inr (e, q) ↦
        inr
          (ap (λ t. if t then str_eq xs name else some false) same ∙ e, λ p. q (tail_eq _ _ _ _ p))
  ]
]

-- The bytes of a number of 32 bits.
abbrev pub number : ℕ → List ℕ → List ℕ
number n rest = n % 256 ∷ n / 256 % 256 ∷ n / 65536 % 256 ∷ n / 16777216 % 256 ∷ rest

pub number_of-number :
    (n : ℕ) (rest : List ℕ) → n < 2 ^ 32 → number_of (number n rest) ≡ some (n, rest)
number_of-number n rest h = ap (λ m. some (m, rest)) (whole n h)
  where
    whole :
        (n : ℕ)
        → n < 2 ^ 32
        → n % 256
            + 256 * (n / 256 % 256)
            + 65536 * (n / 65536 % 256)
            + 16777216 * (n / 16777216 % 256)
          ≡ n
    whole n h = omega (arith, h)

pub length-span : (f : ℕ → ℕ) (from n : ℕ) → length (span f from n) ≡ n
length-span f from zero = refl
length-span f from (suc n) = ap suc (length-span f (from + 1) n)
