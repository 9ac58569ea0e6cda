-- ===== src/Web/Matches.antt =====
-- The searches by name of webserver/server_thread.c, in a list in which the name is that of one file.
use web_server_and_user_leve.Prelude.{
  ℕ, ◌≤◌, ◌≡◌, ◌≢◌, refl, sym, ap, ◌∙◌, ◌==◌, ==_self, ==_ne, eqb_eq, eqb_ne, Bool, true, false,
  Bool-cases, inl, inr, ◌⊎◌, Option, none, some, List, [], ◌∷◌, arith, if◌then◌else◌, count, one_at,
  tail_id, drop_tail, erase, drop_tail-erase, count-drop_tail,
}
use web_server_and_user_leve.Web.State.{Name, eqb_name}
use web_server_and_user_leve.Web.Lists.{find_match, unlink_match, remove_file_to_be_moved_to_back}

pub eqb_name_self : (a : Name) → eqb_name a a ≡ true
unfolding eqb_name
eqb_name_self [] = refl
eqb_name_self (x ∷ xs) = ground (arith, eqb_name_self xs)

cons_eq : (x y : ℕ) (xs ys : Name) → x ≡ y → xs ≡ ys → x ∷ xs ≡ y ∷ ys
cons_eq x y xs ys e f = ap (λ z. z ∷ xs) e ∙ ap (λ zs. y ∷ zs) f

pub eqb_name_eq : (a b : Name) → eqb_name a b ≡ true → a ≡ b
unfolding eqb_name
eqb_name_eq [] [] h = refl
eqb_name_eq [] (y ∷ ys) h = cc
eqb_name_eq (x ∷ xs) [] h = cc
eqb_name_eq (x ∷ xs) (y ∷ ys) h =
    cons_eq x y xs ys (ground (arith, h)) (eqb_name_eq xs ys (ground (arith, h)))

-- A member of the list with the name is `p`.
abbrev pub OnlyOne : (ℕ → Bool) → ℕ → List ℕ → Type 0
OnlyOne same p l = (q : ℕ) → 1 ≤ count q l → same q ≡ true → q ≡ p

abbrev pub NoMatch : (ℕ → Bool) → List ℕ → Type 0
NoMatch same l = (q : ℕ) → 1 ≤ count q l → same q ≡ false

pub ==_self_one : (x : ℕ) → one_at x x ≡ 1
==_self_one x = ground arith

pub count_head : (x : ℕ) (xs : List ℕ) → 1 ≤ count x (x ∷ xs)
count_head x xs = omega (arith, ==_self_one x)

pub clash : {A : Type 0} (b : Bool) → b ≡ false → b ≡ true → A
clash b e h = absurd (ground (arith, e, h))

pub one_at_other : (p x : ℕ) → x ≢ p → one_at p x ≡ 0
one_at_other p x h = ground arith

head_pair :
    (p x : ℕ) (xs : List ℕ)
    → x ≡ p
    → ◌≡◌ {A = Option ℕ × List ℕ} (some x, xs) (some p, erase p (x ∷ xs))
unfolding erase
head_pair p x xs e = rw (e, ==_self p) refl

pair_eq :
    (o o' : Option ℕ) (l l' : List ℕ)
    → o ≡ o'
    → l ≡ l'
    → ◌≡◌ {A = Option ℕ × List ℕ} (o, l) (o', l')
pair_eq o o' l l' e f = ap {B = Option ℕ × List ℕ} (λ a. (a, l)) e ∙ ap (λ b. (o', b)) f

module _ (same : ℕ → Bool) where
  NoMatch-tail : (x : ℕ) (xs : List ℕ) → NoMatch same (x ∷ xs) → NoMatch same xs
  NoMatch-tail x xs h q m = h q (omega arith)

  OnlyOne-tail : (p x : ℕ) (xs : List ℕ) → OnlyOne same p (x ∷ xs) → OnlyOne same p xs
  OnlyOne-tail p x xs h q m = h q (omega arith)

  other_head :
      (p x : ℕ) (xs : List ℕ)
      → same p ≡ true
      → same x ≡ false
      → 1 ≤ count p (x ∷ xs)
      → (x ≢ p) × (1 ≤ count p xs)
  other_head p x xs is is_not m =
      let other : x ≢ p = λ e. clash (same x) is_not (ap same e ∙ is) in
      (other, omega (arith, m, one_at_other p x other))

  pub find_match-none : (l : List ℕ) → NoMatch same l → find_match same l ≡ none
  unfolding find_match
  find_match-none [] h = refl
  find_match-none (x ∷ xs) h =
      ap (λ b. if b then some x else find_match same xs) (h x (count_head x xs))
      ∙ find_match-none xs (NoMatch-tail x xs h)

  pub unlink_match-none : (l : List ℕ) → NoMatch same l → unlink_match same l ≡ (none, l)
  unfolding unlink_match
  unlink_match-none [] h = refl
  unlink_match-none (x ∷ xs) h =
      rw (h x (count_head x xs), unlink_match-none xs (NoMatch-tail x xs h)) refl

  pub find_match-some :
      (p : ℕ) (l : List ℕ)
      → OnlyOne same p l
      → same p ≡ true
      → 1 ≤ count p l
      → find_match same l ≡ some p
  unfolding find_match
  find_match-some p [] one is m = absurd (omega arith)
  find_match-some p (x ∷ xs) one is m = elim (Bool-cases (same x)) [
    | inl h ↦ rw h (ap some (one x (count_head x xs) h))
    | inr h ↦ rw h (find_match-some p xs (OnlyOne-tail p x xs one) is (other_head p x xs is h m).1)
  ]

  pub unlink_match-erase :
      (p : ℕ) (l : List ℕ)
      → OnlyOne same p l
      → same p ≡ true
      → 1 ≤ count p l
      → unlink_match same l ≡ (some p, erase p l)
  unfolding unlink_match erase
  unlink_match-erase p [] one is m = absurd (omega arith)
  unlink_match-erase p (x ∷ xs) one is m = elim (Bool-cases (same x)) [
    | inl h ↦ rw (h, one x (count_head x xs) h, ==_self p) refl
    | inr h ↦
        let (other, m') = other_head p x xs is h m in
        rw (h, unlink_match-erase p xs (OnlyOne-tail p x xs one) is m', ==_ne x p other) refl
  ]

  tail_member : (x : ℕ) (xs : List ℕ) → 1 ≤ count (tail_id x xs) (x ∷ xs)
  tail_member x xs = omega (arith, count-drop_tail (tail_id x xs) x xs, ==_self_one (tail_id x xs))

  abbrev at_tail : ℕ → List ℕ → Option ℕ × List ℕ
  at_tail x xs =
      if same (tail_id x xs)
      then (some (tail_id x xs), drop_tail x xs)
      else unlink_match same (x ∷ xs)

  from_tail :
      (p x : ℕ) (xs : List ℕ)
      → OnlyOne same p (x ∷ xs)
      → same p ≡ true
      → count p (x ∷ xs) ≡ 1
      → at_tail x xs ≡ (some p, erase p (x ∷ xs))
  from_tail p x xs one is m = elim (Bool-cases (same (tail_id x xs))) [
    | inl t ↦
        let last : tail_id x xs ≡ p = one (tail_id x xs) (tail_member x xs) t in
        branch t
        ∙ pair_eq (some (tail_id x xs)) (some p) (drop_tail x xs) (erase p (x ∷ xs)) (ap some last)
            (drop_tail-erase p x xs (omega arith) last).1
    | inr t ↦ branch t ∙ unlink_match-erase p (x ∷ xs) one is (omega arith)
  ]
    where
      branch :
          {b : Bool}
          → same (tail_id x xs) ≡ b
          → at_tail x xs
            ≡ (if b then (some (tail_id x xs), drop_tail x xs) else unlink_match same (x ∷ xs))
      branch t =
          ap (λ b. if b then (some (tail_id x xs), drop_tail x xs) else unlink_match same (x ∷ xs))
            t

  pub remove_file-none :
      (l : List ℕ) → NoMatch same l → remove_file_to_be_moved_to_back same l ≡ (none, l)
  unfolding remove_file_to_be_moved_to_back
  remove_file-none [] h = refl
  remove_file-none (x ∷ xs) h =
      ap (λ b. if b then (some x, xs) else at_tail x xs) (h x (count_head x xs))
      ∙ ap (λ b. if b then (some (tail_id x xs), drop_tail x xs) else unlink_match same (x ∷ xs))
          (h (tail_id x xs) (tail_member x xs))
      ∙ unlink_match-none (x ∷ xs) h

  -- The shortcuts for the head and the tail find the same file as the walk.
  pub remove_file-erase :
      (p : ℕ) (l : List ℕ)
      → OnlyOne same p l
      → same p ≡ true
      → count p l ≡ 1
      → remove_file_to_be_moved_to_back same l ≡ (some p, erase p l)
  unfolding remove_file_to_be_moved_to_back
  remove_file-erase p [] one is m = absurd (omega arith)
  remove_file-erase p (x ∷ xs) one is m = elim (Bool-cases (same x)) [
    | inl h ↦
        ap (λ b. if b then (some x, xs) else at_tail x xs) h
        ∙ head_pair p x xs (one x (count_head x xs) h)
    | inr h ↦ ap (λ b. if b then (some x, xs) else at_tail x xs) h ∙ from_tail p x xs one is m
  ]

  -- A search finds a member with the name, or there is none.
  pub find_match-cases :
      (l : List ℕ)
      → ((q : ℕ) × (find_match same l ≡ some q) × (1 ≤ count q l) × (same q ≡ true))
        ⊎ ((find_match same l ≡ none) × NoMatch same l)
  unfolding find_match
  find_match-cases [] = inr (refl, λ q m. absurd (omega arith))
  find_match-cases (x ∷ xs) = elim (Bool-cases (same x)) [
    | inl h ↦ inl (x, ap (λ b. if b then some x else find_match same xs) h, count_head x xs, h)
    | inr h ↦ elim (find_match-cases xs) [
      | inl (q, e, m, is) ↦
          inl (q, ap (λ b. if b then some x else find_match same xs) h ∙ e, omega (arith, m), is)
      | inr (e, absent) ↦ inr (
        ap (λ b. if b then some x else find_match same xs) h ∙ e,
        λ q m. elim (Bool-cases (q == x)) [
          | inl at_head ↦ ap same (eqb_eq q x at_head) ∙ h
          | inr later ↦
              absent q (omega (arith, m, one_at_other q x (λ e. eqb_ne q x later (sym e))))
        ],
      )
    ]
  ]
