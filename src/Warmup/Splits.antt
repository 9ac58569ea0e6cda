-- ===== src/Warmup/Splits.antt =====
-- The words of a text, as warmup/wc.h means them, and the words that warmup/wc.c finds.
use web_server_and_user_leve.Prelude.{
  ℕ, ◌≤◌, ◌≡◌, ◌⊎◌, inl, inr, subst, sym, true, false, Bool-cases, List, [], ◌∷◌, ◌++◌, arith, ◌==◌,
  eqb_eq, if◌then◌else◌,
}
use mathlib.Core.List.{append_assoc, append-nil}
use web_server_and_user_leve.Web.State.{Name}
use web_server_and_user_leve.Warmup.Words.{words_from, is_delimiter, ended}

-- A space, or one of the five control characters from tab on.
abbrev pub IsSpace : ℕ → Type 0
IsSpace c = (c ≡ 32) ⊎ ((9 ≤ c) × (c ≤ 13))

-- No character is white space.
abbrev pub IsSolid : Name → Type 0
IsSolid [] = Unit
IsSolid (c ∷ cs) = (IsSpace c → ⊥) × IsSolid cs

-- A text and its words: the longest parts without white space, in their order.
pub data Splits : Name → List Name → Type 0 where
  empty : Splits [] []
  skip :
      {c : ℕ} {text : Name} {words : List Name}
      → IsSpace c
      → Splits text words
      → Splits (c ∷ text) words
  last : {c : ℕ} {cs : Name} → IsSolid (c ∷ cs) → Splits (c ∷ cs) ((c ∷ cs) ∷ [])
  word :
      {c d : ℕ} {cs text : Name} {words : List Name}
      → IsSolid (c ∷ cs)
      → IsSpace d
      → Splits text words
      → Splits (c ∷ cs ++ d ∷ text) ((c ∷ cs) ∷ words)

is_delimiter-IsSpace : (c : ℕ) → is_delimiter c ≡ true → IsSpace c
is_delimiter-IsSpace c h = elim (Bool-cases (c == 32)) [
  | inl e ↦ inl (eqb_eq c 32 e)
  | inr e ↦ inr (ground (arith, h, e))
]

is_delimiter-solid : (c : ℕ) → is_delimiter c ≡ false → IsSpace c → ⊥
is_delimiter-solid c h (inl e) = ground (arith, h, e)
is_delimiter-solid c h (inr (low, high)) = ground (arith, h, low, high)

append-IsSolid :
    (start : Name) (c : ℕ) → IsSolid start → (IsSpace c → ⊥) → IsSolid (start ++ c ∷ [])
append-IsSolid [] c h n = (n, tt)
append-IsSolid (d ∷ ds) c (m, h) n = (m, append-IsSolid ds c h n)

pub words_from-Splits :
    (start text : Name) → IsSolid start → Splits (start ++ text) (words_from start text)
unfolding words_from
words_from-Splits [] [] h = empty
words_from-Splits (c ∷ cs) [] h =
    subst (λ t. Splits t ((c ∷ cs) ∷ [])) (sym (append-nil (c ∷ cs))) (last h)
words_from-Splits start (c ∷ text) h = elim (Bool-cases (is_delimiter c)) [
  | inl space ↦
      subst
        (λ b.
          Splits (start ++ c ∷ text)
            (if b then ended start ++ words_from [] text else words_from (start ++ c ∷ []) text))
        (sym space) (ends (is_delimiter-IsSpace c space) (words_from-Splits [] text tt) start h)
  | inr solid ↦
      subst
        (λ b.
          Splits (start ++ c ∷ text)
            (if b then ended start ++ words_from [] text else words_from (start ++ c ∷ []) text))
        (sym solid)
        (subst (λ t. Splits t (words_from (start ++ c ∷ []) text))
          (append_assoc start (c ∷ []) text)
          (words_from-Splits (start ++ c ∷ []) text
            (append-IsSolid start c h (is_delimiter-solid c solid))))
]
  where
    ends :
        IsSpace c
        → Splits text (words_from [] text)
        → (start : Name) → IsSolid start
        → Splits (start ++ c ∷ text) (ended start ++ words_from [] text)
    ends space rest [] h = skip space rest
    ends space rest (d ∷ ds) h = word h space rest
