-- ===== src/Warmup/Counts.antt =====
-- What the table of warmup/wc.c counts.
use web_server_and_user_leve.Prelude.{
  ℕ, ◌+◌, ◌≤◌, ◌≡◌, subst, refl, sym, ap, ◌∙◌, ◌==◌, false, some, List, [], ◌∷◌, arith, length,
  get_elem?, if◌then◌else◌, inl, inr, Bool-cases,
}
use web_server_and_user_leve.Web.State.{Name, eqb_name}
use web_server_and_user_leve.Web.Cache.{slot}
use web_server_and_user_leve.Web.Matches.{eqb_name_self, eqb_name_eq}
use web_server_and_user_leve.Warmup.Words.{WordCount, Words, count_word}

abbrev pub one_word : Name → Name → ℕ
one_word v w = if eqb_name w v then 1 else 0

-- How often a word stands in a list.
abbrev pub occurrences : Name → List Name → ℕ
occurrences v [] = 0
occurrences v (w ∷ ws) = one_word v w + occurrences v ws

-- The count of a word in a chain, and the number of its nodes.
abbrev pub tally : Name → List WordCount → ℕ
tally v [] = 0
tally v (e ∷ es) = (if eqb_name e.word v then e.occurs else 0) + tally v es

abbrev pub nodes : Name → List WordCount → ℕ
nodes v [] = 0
nodes v (e ∷ es) = (if eqb_name e.word v then 1 else 0) + nodes v es

-- A table whose chains have the counts `f`: each word is in the chain of its slot, in one node at most.
pub record Tallies (wc : Words) (f : Name → ℕ) : Type 0 where
  pub nonempty : 1 ≤ wc.size
  pub sized : length wc.mapping ≡ wc.size
  pub counts :
      (i : ℕ) (b : List WordCount) (v : Name)
      → get_elem? wc.mapping i ≡ some b
      → tally v b ≡ (if i == slot wc.size v then f v else 0)
  pub once :
      (i : ℕ) (b : List WordCount) (v : Name) → get_elem? wc.mapping i ≡ some b → nodes v b ≤ 1

pub Tallies-same :
    (wc : Words) (f g : Name → ℕ) → ((v : Name) → f v ≡ g v) → Tallies wc f → Tallies wc g
Tallies-same wc f g h ok = record {
  nonempty = ok.nonempty;
  sized = ok.sized;
  counts = λ i b v e. ok.counts i b v e ∙ ap (λ n. if i == slot wc.size v then n else 0) (h v);
  once = ok.once;
}

pub tally-count_word :
    (v w : Name) (b : List WordCount) → tally v (count_word w b) ≡ tally v b + one_word v w
unfolding count_word
tally-count_word v w [] = omega arith
tally-count_word v w (e ∷ es) = elim (Bool-cases (eqb_name e.word w)) [
  | inl h ↦
      let is : eqb_name e.word v ≡ eqb_name w v = ap (λ n. eqb_name n v) (eqb_name_eq e.word w h) in
      rw h (ground (arith, is))
  | inr h ↦ rw h (ground (arith, tally-count_word v w es))
]

nodes-other :
    (v w : Name) (b : List WordCount) → eqb_name w v ≡ false → nodes v (count_word w b) ≡ nodes v b
unfolding count_word
nodes-other v w [] n = rw n refl
nodes-other v w (e ∷ es) n = elim (Bool-cases (eqb_name e.word w)) [
  | inl h ↦ rw h refl
  | inr h ↦ rw h (omega (arith, nodes-other v w es n))
]

nodes-same : (w : Name) (b : List WordCount) → nodes w b ≤ 1 → nodes w (count_word w b) ≤ 1
unfolding count_word
nodes-same w [] n = rw (eqb_name_self w) (omega arith)
nodes-same w (e ∷ es) n = elim (Bool-cases (eqb_name e.word w)) [
  | inl h ↦
      subst
        (λ c.
          nodes w (if c then record e { occurs = e.occurs + 1 } ∷ es else e ∷ count_word w es) ≤ 1)
        (sym h) n
  | inr h ↦
      subst
        (λ c.
          nodes w (if c then record e { occurs = e.occurs + 1 } ∷ es else e ∷ count_word w es) ≤ 1)
        (sym h)
        (omega (arith, ap {B = ℕ} (λ c. if c then 1 else 0) h, nodes-same w es (omega (arith, n))))
]

pub nodes-count_word :
    (v w : Name) (b : List WordCount) → nodes v b ≤ 1 → nodes v (count_word w b) ≤ 1
nodes-count_word v w b n = elim (Bool-cases (eqb_name w v)) [
  | inr h ↦ omega (arith, n, nodes-other v w b h)
  | inl h ↦
      let is : w ≡ v = eqb_name_eq w v h in
      subst (λ u. nodes u (count_word w b) ≤ 1) is
        (nodes-same w b (subst (λ u. nodes u b ≤ 1) (sym is) n))
]
