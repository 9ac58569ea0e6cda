-- ===== src/Web/Add.antt =====
-- A new node in the cache of webserver/server_thread.c.
use web_server_and_user_leve.Prelude.{
  ℕ, ◌+◌, ◌≤◌, ◌≡◌, ◌≢◌, sym, ap, ◌∙◌, ◌==◌, eqb_eq, eqb_ne, Bool, true, some, List, [], ◌∷◌, ◌++◌,
  arith, count, one_at, count-append, length-set, get_elem?-set, get_elem?, if◌then◌else◌, inl, inr,
  ◌⊎◌, Bool-cases,
}
use web_server_and_user_leve.Web.State.{Store, same}
use web_server_and_user_leve.Web.Lists.{push_back}
use web_server_and_user_leve.Web.Cache.{slot, add_node}
use web_server_and_user_leve.Web.Matches.{eqb_name_self, NoMatch, clash, one_at_other, ==_self_one}
use web_server_and_user_leve.Web.State.{eqb_name}
use web_server_and_user_leve.Web.Chains.{count_chains-set, total-append}
use web_server_and_user_leve.Web.Consistent.{name_of, IsConsistent}

-- A file `p` whose name is new to the cache, with room for it, in the chain `b` of its name.
module _ (s : Store) (ok : IsConsistent s) (p : ℕ) (b : List ℕ) (live : s.live p ≡ true)
    (new : NoMatch (same s (name_of s p)) s.lru)
    (chain : get_elem? s.cache.mapping (slot s.cache.array_size (name_of s p)) ≡ some b)
    (room : s.cache.curr_size + (s.files p).file_size ≤ s.cache.max_size) where
  abbrev home : ℕ
  home = slot s.cache.array_size (name_of s p)

  abbrev pub added : Store
  added = add_node home b p (s.files p).file_size s

  pub new-absent : count p s.lru ≡ 0
  new-absent = elim (Bool-cases (count p s.lru == 0)) [
    | inl e ↦ eqb_eq (count p s.lru) 0 e
    | inr e ↦
        clash (same s (name_of s p) p) (new p (omega (arith, eqb_ne (count p s.lru) 0 e)))
          (eqb_name_self (name_of s p))
  ]

  count-added : (q : ℕ) → count q added.lru ≡ count q s.lru + one_at q p
  unfolding push_back
  count-added q = omega (arith, count-append q s.lru (p ∷ []))

  -- A file of the new list is `p`, or it was there.
  was_there : (q : ℕ) → 1 ≤ count q added.lru → (q ≡ p) ⊎ ((q ≢ p) × (1 ≤ count q s.lru))
  was_there q m = elim (Bool-cases (q == p)) [
    | inl e ↦ inl (eqb_eq q p e)
    | inr e ↦
        let other : q ≢ p = eqb_ne q p e in
        inr (other, omega (arith, m, count-added q, one_at_other q p (λ e. other (sym e))))
  ]

  not_new : (q : ℕ) → 1 ≤ count q s.lru → name_of s q ≢ name_of s p
  not_new q m e =
      clash (same s (name_of s p) q) (new q m)
        (ap (λ n. eqb_name n (name_of s p)) e ∙ eqb_name_self (name_of s p))

  placed_added :
      (i q : ℕ) (c : List ℕ)
      → (if i == home then some (b ++ p ∷ []) else get_elem? s.cache.mapping i) ≡ some c
      → 1 ≤ count q c
      → slot s.cache.array_size (name_of s q) ≡ i
  placed_added i q c g m = elim (Bool-cases (i == home)) [
    | inr h ↦ ok.placed i q c (sym (branch h) ∙ g) m
    | inl h ↦
        let left : b ++ p ∷ [] ≡ c = some_eq (b ++ p ∷ []) c (sym (branch h) ∙ g) in
        elim (Bool-cases (q == p)) [
          | inl e ↦
              ap (λ r. slot s.cache.array_size (name_of s r)) (eqb_eq q p e) ∙ sym (eqb_eq i home h)
          | inr e ↦
              ok.placed home q b chain (
                omega (
                  arith,
                  m,
                  ap (count q) left,
                  count-append q b (p ∷ []),
                  one_at_other q p (λ e'. eqb_ne q p e (sym e')),
                ))
              ∙ sym (eqb_eq i home h)
        ]
  ]
    where
      some_eq : (c d : List ℕ) → some c ≡ some d → c ≡ d
      some_eq c d e = cc

      branch :
          {d : Bool}
          → (i == home) ≡ d
          → (if i == home then some (b ++ p ∷ []) else get_elem? s.cache.mapping i)
            ≡ (if d then some (b ++ p ∷ []) else get_elem? s.cache.mapping i)
      branch h = ap (λ d. if d then some (b ++ p ∷ []) else get_elem? s.cache.mapping i) h

  pub added-IsConsistent : IsConsistent added
  unfolding push_back
  added-IsConsistent = record {
    nonempty = ok.nonempty;
    sized = length-set s.cache.mapping home (b ++ p ∷ []) ∙ ok.sized;
    table = λ q. omega (
      arith,
      count-added q,
      ok.table q,
      count-append q b (p ∷ []),
      count_chains-set q s.cache.mapping home b (b ++ p ∷ []) chain,
    );
    placed = λ i q c g m.
        placed_added i q c (sym (get_elem?-set s.cache.mapping home i b (b ++ p ∷ []) chain) ∙ g) m;
    once = λ q. elim (Bool-cases (q == p)) [
      | inl e ↦ omega (
        arith,
        count-added q,
        ap (λ r. count r s.lru) (eqb_eq q p e),
        new-absent,
        ap (λ r. one_at r p) (eqb_eq q p e),
        ==_self_one p,
      )
      | inr e ↦
          omega (arith, count-added q, ok.once q, one_at_other q p (λ e'. eqb_ne q p e (sym e')))
    ];
    names = λ q r m n e. elim (was_there q m) [
      | inl is ↦ elim (was_there r n) [
        | inl is' ↦ is' ∙ sym is
        | inr (_, old) ↦ absurd (not_new r old (e ∙ ap (name_of s) is))
      ]
      | inr (_, old) ↦ elim (was_there r n) [
        | inl is' ↦ absurd (not_new q old (sym e ∙ ap (name_of s) is'))
        | inr (_, old') ↦ ok.names q r old old' e
      ]
    ];
    alive = λ q m. elim (was_there q m) [
      | inl is ↦ ap s.live is ∙ live
      | inr (_, old) ↦ ok.alive q old
    ];
    counted = omega (arith, ok.counted, total-append s.files s.lru (p ∷ []));
    fits = room;
    small = ok.small;
  }
