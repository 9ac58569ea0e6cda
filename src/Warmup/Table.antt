-- ===== src/Warmup/Table.antt =====
-- The insertions of warmup/wc.c into its table.
use web_server_and_user_leve.Prelude.{
  ℕ, zero, suc, ◌+◌, ◌*◌, ◌≤◌, ◌<◌, ◌≡◌, ◌≢◌, subst, refl, sym, ap, ◌∙◌, ◌==◌, ==_ne, eqb_eq, leb,
  ◌^◌, leb-false, Bool, true, false, Option, none, some, List, [], ◌∷◌, arith, length, length-set,
  get_elem?, get_elem?-set, word_exists, set, if◌then◌else◌, inl, inr, ◌⊎◌, Bool-cases,
}
use web_server_and_user_leve.Web.State.{Name, eqb_name}
use web_server_and_user_leve.Web.Cache.{slot}
use web_server_and_user_leve.Web.Chains.{slot_bound}
use web_server_and_user_leve.Web.Matches.{eqb_name_eq}
use web_server_and_user_leve.Warmup.Words.{
  WordCount, Words, count_word, write_chain, insert_into_wc, words_from, insert_all, insert_next,
  empty_words, wc_init,
}
use web_server_and_user_leve.Warmup.Splits.{Splits, words_from-Splits}
use web_server_and_user_leve.Warmup.Counts.{
  one_word, occurrences, tally, nodes, Tallies, Tallies-same, tally-count_word, nodes-count_word,
}

-- One word more, in a table with the chain `b` at the slot of that word.
module _ (wc : Words) (f : Name → ℕ) (ok : Tallies wc f) (w : Name) (b : List WordCount)
    (chain : get_elem? wc.mapping (slot wc.size w) ≡ some b) where
  abbrev here : ℕ
  here = slot wc.size w

  abbrev counted : Words
  counted = record wc { mapping = set wc.mapping here (count_word w b) }

  abbrev more : Name → ℕ
  more v = f v + one_word v w

  some_eq : (c d : List WordCount) → some c ≡ some d → c ≡ d
  some_eq c d e = cc

  chain_of :
      (i : ℕ) (c : List WordCount)
      → get_elem? counted.mapping i ≡ some c
      → ((i == here) ≡ true) × (count_word w b ≡ c)
        ⊎ ((i == here) ≡ false) × (get_elem? wc.mapping i ≡ some c)
  chain_of i c e = elim (Bool-cases (i == here)) [
    | inl h ↦ inl (h, some_eq (count_word w b) c (sym (branch h) ∙ e))
    | inr h ↦ inr (h, sym (branch h) ∙ e)
  ]
    where
      branch :
          {d : Bool}
          → (i == here) ≡ d
          → get_elem? counted.mapping i
            ≡ (if d then some (count_word w b) else get_elem? wc.mapping i)
      branch h =
          get_elem?-set wc.mapping here i b (count_word w b) chain
          ∙ ap (λ d. if d then some (count_word w b) else get_elem? wc.mapping i) h

  -- A word that is counted in a chain belongs to it.
  same_slot : (v : Name) → eqb_name w v ≡ true → here ≡ slot wc.size v
  same_slot v h = ap (slot wc.size) (eqb_name_eq w v h)

  tally_grows :
      (i : ℕ) (v : Name)
      → (i == here) ≡ true
      → tally v (count_word w b) ≡ (if i == slot wc.size v then more v else 0)
  tally_grows i v h = elim (Bool-cases (eqb_name w v)) [
    | inl is ↦
        let at : (i == slot wc.size v) ≡ true = ap (λ k. i == k) (sym (same_slot v is)) ∙ h in
        tally-count_word v w b
        ∙ ap (λ n. n + one_word v w)
            (ok.counts here b v chain
              ∙ ap (λ k. if k == slot wc.size v then f v else 0) (sym (eqb_eq i here h))
              ∙ ap (λ c. if c then f v else 0) at)
        ∙ sym (ap (λ c. if c then more v else 0) at)
    | inr other ↦
        let none_more : one_word v w ≡ 0 = ap {B = ℕ} (λ c. if c then 1 else 0) other in
        tally-count_word v w b
        ∙ ap (λ n. n + one_word v w)
            (ok.counts here b v chain
              ∙ ap (λ k. if k == slot wc.size v then f v else 0) (sym (eqb_eq i here h)))
        ∙ plus_none (i == slot wc.size v) (f v) (one_word v w) none_more
  ]
    where
      plus_none : (c : Bool) (m k : ℕ) → k ≡ 0 → (if c then m else 0) + k ≡ (if c then m + k else 0)
      plus_none true m k e = refl
      plus_none false m k e = omega arith

  tally_elsewhere :
      (i : ℕ) (v : Name)
      → (i == here) ≡ false
      → (if i == slot wc.size v then f v else 0) ≡ (if i == slot wc.size v then more v else 0)
  tally_elsewhere i v h = elim (Bool-cases (i == slot wc.size v)) [
    | inr e ↦ ap (λ c. if c then f v else 0) e ∙ sym (ap (λ c. if c then more v else 0) e)
    | inl e ↦ elim (Bool-cases (eqb_name w v)) [
      | inl is ↦ absurd (clash_bool (sym (ap (λ k. i == k) (same_slot v is) ∙ e) ∙ h))
      | inr other ↦
          ap (λ n. if i == slot wc.size v then n else 0)
            (omega (arith, ap {B = ℕ} (λ c. if c then 1 else 0) other))
    ]
  ]
    where
      clash_bool : true ≢ false
      clash_bool e = cc

  counted-Tallies : Tallies counted more
  counted-Tallies = record {
    nonempty = ok.nonempty;
    sized = length-set wc.mapping here (count_word w b) ∙ ok.sized;
    counts = λ i c v e. elim (chain_of i c e) [
      | inl (h, is) ↦ ap (tally v) (sym is) ∙ tally_grows i v h
      | inr (h, old) ↦ ok.counts i c v old ∙ tally_elsewhere i v h
    ];
    once = λ i c v e. elim (chain_of i c e) [
      | inl (h, is) ↦
          subst (λ d. nodes v d ≤ 1) is (nodes-count_word v w b (ok.once here b v chain))
      | inr (h, old) ↦ ok.once i c v old
    ];
  }

-- A table that counts `f`, as the outcome of a run.
pub record Counted (o : Option Words) (f : Name → ℕ) : Type 0 where
  pub table : Words
  pub runs : o ≡ some table
  pub ok : Tallies table f

insert_into_wc-Counted :
    (wc : Words) (f : Name → ℕ) (w : Name)
    → Tallies wc f
    → Counted (insert_into_wc wc w) (λ v. f v + one_word v w)
unfolding insert_into_wc
insert_into_wc-Counted wc f w ok =
    let i : ℕ = slot wc.size w in
    let (b, e) =
      word_exists wc.mapping i (omega (arith, slot_bound wc.size w ok.nonempty, ok.sized)) in
    record {
      table = record wc { mapping = set wc.mapping i (count_word w b) };
      runs =
          ap (λ c. if c then none else write_chain wc i w (get_elem? wc.mapping i))
            (==_ne wc.size 0 (omega (arith, ok.nonempty)))
          ∙ ap (write_chain wc i w) e;
      ok = counted-Tallies wc f ok w b e;
    }

insert_all-Counted :
    (ws : List Name) (wc : Words) (f : Name → ℕ)
    → Tallies wc f
    → Counted (insert_all ws wc) (λ v. f v + occurrences v ws)
unfolding insert_all
insert_all-Counted [] wc f ok = record {
  table = wc;
  runs = refl;
  ok = Tallies-same wc f _ (λ v. omega arith) ok;
}
insert_all-Counted (w ∷ ws) wc f ok =
    let first = insert_into_wc-Counted wc f w ok in
    let rest = insert_all-Counted ws first.table (λ v. f v + one_word v w) first.ok in
    record {
      table = rest.table;
      runs = ap (λ o. insert_next o (insert_all ws)) first.runs ∙ rest.runs;
      ok = Tallies-same rest.table _ _ (λ v. omega arith) rest.ok;
    }

length-empty_words : (n : ℕ) → length (empty_words n) ≡ n
length-empty_words zero = refl
length-empty_words (suc n) = omega (arith, length-empty_words n)

empty_word : (n i : ℕ) (b : List WordCount) → get_elem? (empty_words n) i ≡ some b → b ≡ []
empty_word zero i b e = cc
empty_word (suc n) zero b e = sym (some_empty [] b e)
  where
    some_empty : (c d : List WordCount) → some c ≡ some d → c ≡ d
    some_empty c d e = cc
empty_word (suc n) (suc i) b e = empty_word n i b e

empty-Tallies : (n : ℕ) → 1 ≤ n → Tallies (record { size = n; mapping = empty_words n }) (λ v. 0)
empty-Tallies n h = record {
  nonempty = h;
  sized = length-empty_words n;
  counts = λ i b v e. ap (tally v) (empty_word n i b e) ∙ sym (zero_both (i == slot n v) 0);
  once = λ i b v e. omega (arith, ap (nodes v) (empty_word n i b e));
}
  where
    zero_both : (c : Bool) (z : ℕ) → (if c then z else z) ≡ z
    zero_both true z = refl
    zero_both false z = refl

-- wc_init of a text, with a size that has room for it and its final zero and whose double is an `int`,
-- succeeds. The words are the longest parts of the text without white space; in the chain of its slot each
-- word has the number of its occurrences among them as its count, in at most one node, and in the other
-- chains it has none.
pub wc_init-Counted :
    (word_array : Name) (size : ℕ)
    → length word_array < size
    → 2 * size < 2 ^ 31
    → (words : List Name) × Splits word_array words
      × Counted (wc_init word_array size) (λ v. occurrences v words)
unfolding wc_init
wc_init-Counted word_array size room small =
    let wc : Words = record { size = 2 * size; mapping = empty_words (2 * size) } in
    let c =
      insert_all-Counted (words_from [] word_array) wc (λ v. 0)
        (empty-Tallies (2 * size) (omega (arith, room))) in
    (
      words_from [] word_array,
      words_from-Splits [] word_array tt,
      record {
        table = c.table;
        runs =
            ap
              (λ b.
                if b
                then none
                else if leb (2 ^ 31) (2 * size)
                then none
                else insert_all (words_from [] word_array) wc)
              (leb-false size (length word_array) room)
            ∙ ap (λ b. if b then none else insert_all (words_from [] word_array) wc)
                (leb-false (2 ^ 31) (2 * size) small)
            ∙ c.runs;
        ok = Tallies-same c.table _ _ (λ v. omega arith) c.ok;
      },
    )
