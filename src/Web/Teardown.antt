-- ===== src/Web/Teardown.antt =====
-- What destroy_cache of webserver/server_thread.c does to a consistent cache.
use web_server_and_user_leve.Prelude.{
  ℕ, zero, suc, ◌+◌, ◌≤◌, ◌≡◌, ◌≢◌, refl, sym, ap, ◌∙◌, ◌==◌, ==_ne, eqb_eq, eqb_ne, leb-true, true,
  false, List, [], ◌∷◌, ◌++◌, arith, count, count-append, one_at, length, get_elem?, if◌then◌else◌,
  inl, inr, ◌⊎◌, length-append, updated, Bool-cases,
}
use web_server_and_user_leve.Web.State.{Store, returned, ◌>>◌, and_then}
use web_server_and_user_leve.Web.Lists.{remove_lru_file}
use web_server_and_user_leve.Web.Cache.{chain_or_fault}
use web_server_and_user_leve.Web.Matches.{count_head, ==_self_one, one_at_other}
use web_server_and_user_leve.Web.Chains.{total, total-append}
use web_server_and_user_leve.Web.Consistent.{IsConsistent}
use web_server_and_user_leve.Web.Reads.{read_file-live, require-true}
use web_server_and_user_leve.Web.Destroy.{
  destroyed, destroy_node, destroy_chain, destroy_from, destroy_cache, flat, count-flat, same_total,
}

-- The store behind the loop over the nodes `l`.
abbrev destroyed_all : List ℕ → Store → Store
destroyed_all [] s = s
destroyed_all (p ∷ ps) s = destroyed_all ps (destroyed p s)

destroyed_all-append :
    (a b : List ℕ) (s : Store) → destroyed_all (a ++ b) s ≡ destroyed_all b (destroyed_all a s)
destroyed_all-append [] b s = refl
destroyed_all-append (p ∷ ps) b s = destroyed_all-append ps b (destroyed p s)

-- What the loop changes.
record Gone (l : List ℕ) (s s' : Store) : Type 0 where
  files : s'.files ≡ s.files
  size : s'.cache.curr_size + total s.files l ≡ s.cache.curr_size
  others : (q : ℕ) → count q l ≡ 0 → s'.live q ≡ s.live q
  freed : (q : ℕ) → 1 ≤ count q l → s'.live q ≡ false
  lru : length s'.lru + length l ≡ length s.lru

tail_length : (l : List ℕ) → 1 ≤ length l → length (remove_lru_file l).1 + 1 ≡ length l
unfolding remove_lru_file
tail_length [] h = absurd (omega arith)
tail_length (x ∷ xs) h = omega arith

other_live : (p q : ℕ) (s : Store) → q ≢ p → (destroyed p s).live q ≡ s.live q
unfolding remove_lru_file
other_live p q s h = ap (λ b. if b then false else s.live q) (==_ne q p h)

destroyed_all-Gone :
    (l : List ℕ) (s : Store)
    → total s.files l ≤ s.cache.curr_size
    → length l ≤ length s.lru
    → Gone l s (destroyed_all l s)
destroyed_all-Gone [] s small long = record {
  files = refl;
  size = omega arith;
  others = λ q h. refl;
  freed = λ q h. absurd (omega arith);
  lru = omega arith;
}
destroyed_all-Gone (p ∷ ps) s small long =
    let g : Gone ps (destroyed p s) (destroyed_all ps (destroyed p s)) =
      destroyed_all-Gone ps (destroyed p s) (omega arith)
        (omega (arith, tail_length s.lru (omega arith))) in
    record {
      files = g.files;
      size = omega (arith, g.size);
      others = λ q h. g.others q (omega arith) ∙ other_live p q s (absent q h);
      freed = λ q h. elim (Bool-cases (count q ps == 0)) [
        | inr e ↦ g.freed q (omega (arith, eqb_ne _ _ e))
        | inl e ↦ g.others q (eqb_eq _ _ e) ∙ head_freed q h (eqb_eq _ _ e) (Bool-cases (q == p))
      ];
      lru = omega (arith, g.lru, tail_length s.lru (omega arith));
    }
  where
    absent : (q : ℕ) → count q (p ∷ ps) ≡ 0 → q ≢ p
    absent q h e = absurd (omega (arith, h, ap (λ r. count r (p ∷ ps)) e, count_head p ps))

    head_freed :
        (q : ℕ)
        → 1 ≤ count q (p ∷ ps)
        → count q ps ≡ 0
        → ((q == p) ≡ true) ⊎ ((q == p) ≡ false)
        → (destroyed p s).live q ≡ false
    head_freed q h e (inl same) = ap (destroyed p s).live (eqb_eq q p same) ∙ updated s.live p false
    head_freed q h e (inr other) =
        absurd (omega (arith, h, e, one_at_other q p λ g. eqb_ne q p other (sym g)))

-- The files of a list can be destroyed one after the other.
record CanGo (l : List ℕ) (s : Store) : Type 0 where
  small : total s.files l ≤ s.cache.curr_size
  long : length l ≤ length s.lru
  alive : (q : ℕ) → 1 ≤ count q l → s.live q ≡ true
  once : (q : ℕ) → count q l ≤ 1

destroy_chain-returned :
    (l : List ℕ) (s : Store) → CanGo l s → destroy_chain l s ≡ returned tt (destroyed_all l s)
unfolding destroy_chain destroy_node remove_lru_file
destroy_chain-returned [] s c = refl
destroy_chain-returned (p ∷ ps) s c =
    ap (λ o. and_then o λ _. destroy_chain ps)
      (read_file-live p _ s (c.alive p (count_head p ps))
        ∙ require-true _ _ s
            (leb-true (s.files p).file_size s.cache.curr_size (omega (arith, c.small))))
    ∙ destroy_chain-returned ps (destroyed p s) (record {
      small = omega (arith, c.small);
      long = omega (arith, c.long, tail_length s.lru (omega (arith, c.long)));
      alive = λ q m. other_live p q s (later q m) ∙ c.alive q (omega (arith, m));
      once = λ q. omega (arith, c.once q);
    })
  where
    later : (q : ℕ) → 1 ≤ count q ps → q ≢ p
    later q m e = absurd (omega (arith, c.once q, ap (λ r. one_at r p) e, ==_self_one p))

destroy_from-returned :
    (mapping bs : List (List ℕ)) (n i : ℕ) (s : Store)
    → ((k : ℕ) → get_elem? mapping (i + k) ≡ get_elem? bs k)
    → length bs ≡ n
    → CanGo (flat bs) s
    → destroy_from mapping n i s ≡ returned tt (destroyed_all (flat bs) s)
unfolding destroy_from
destroy_from-returned mapping [] zero i s h e c = refl
destroy_from-returned mapping [] (suc n) i s h e c = absurd (omega arith)
destroy_from-returned mapping (b ∷ bs) zero i s h e c = absurd (omega arith)
destroy_from-returned mapping (b ∷ bs) (suc n) i s h e c =
    let g : Gone b s (destroyed_all b s) =
      destroyed_all-Gone b s (omega (arith, c.small, total-append s.files b (flat bs)))
        (omega (arith, c.long, length-append b (flat bs))) in
    ap (λ o. and_then (chain_or_fault o s) λ b. destroy_chain b >> destroy_from mapping n (i + 1))
      (ap (get_elem? mapping) (sym (at_start i)) ∙ h 0)
    ∙ ap (λ o. and_then o λ _. destroy_from mapping n (i + 1))
        (destroy_chain-returned b s (record {
          small = omega (arith, c.small, total-append s.files b (flat bs));
          long = omega (arith, c.long, length-append b (flat bs));
          alive = λ q m. c.alive q (omega (arith, m, count-append q b (flat bs)));
          once = λ q. omega (arith, c.once q, count-append q b (flat bs));
        }))
    ∙ destroy_from-returned mapping bs n (i + 1) (destroyed_all b s)
        (λ k. ap (get_elem? mapping) (shifted i k) ∙ h (suc k)) (omega arith)
        (record {
          small = omega (
            arith,
            c.small,
            g.size,
            total-append s.files b (flat bs),
            ap (λ f. total f (flat bs)) g.files,
          );
          long = omega (arith, c.long, g.lru, length-append b (flat bs));
          alive = λ q m.
              g.others q (omega (arith, m, c.once q, count-append q b (flat bs)))
              ∙ c.alive q (omega (arith, m, count-append q b (flat bs)));
          once = λ q. omega (arith, c.once q, count-append q b (flat bs));
        })
    ∙ sym (ap (returned tt) (destroyed_all-append b (flat bs) s))
  where
    at_start : (i : ℕ) → i + 0 ≡ i
    at_start i = omega arith

    shifted : (i k : ℕ) → i + 1 + k ≡ i + suc k
    shifted i k = omega arith

-- After destroy_cache: nothing is in the LRU list, no bytes are counted, and the cached files, and no
-- others, have been freed.
pub record Destroyed (s : Store) : Type 0 where
  pub after : Store
  pub runs : destroy_cache s ≡ returned tt after
  pub lru : after.lru ≡ []
  pub size : after.cache.curr_size ≡ 0
  pub others : (q : ℕ) → count q s.lru ≡ 0 → after.live q ≡ s.live q
  pub freed : (q : ℕ) → 1 ≤ count q s.lru → after.live q ≡ false

-- `destroy_cache` of a consistent cache frees every cached file and no other one, takes all out of
-- the LRU list and counts the size of the cache down to 0.
pub destroy_cache-Destroyed : (s : Store) → IsConsistent s → Destroyed s
unfolding destroy_cache
destroy_cache-Destroyed s ok =
    let l : List ℕ = flat s.cache.mapping in
    let counts : (p : ℕ) → count p l ≡ count p s.lru =
      λ p. count-flat p s.cache.mapping ∙ ok.table p in
    let (long, sizes) = same_total s.files l s.lru counts in
    let c : CanGo l s = record {
      small = omega (arith, sizes, ok.counted);
      long = omega (arith, long);
      alive = λ q m. ok.alive q (omega (arith, m, counts q));
      once = λ q. omega (arith, ok.once q, counts q);
    } in
    let g : Gone l s (destroyed_all l s) = destroyed_all-Gone l s c.small c.long in
    record {
      after = destroyed_all l s;
      runs =
          destroy_from-returned s.cache.mapping s.cache.mapping s.cache.array_size 0 s
            (λ k. ap (get_elem? s.cache.mapping) (zero_plus k)) ok.sized c;
      lru = no_members (destroyed_all l s).lru (omega (arith, g.lru, long));
      size = omega (arith, g.size, sizes, ok.counted);
      others = λ q h. g.others q (counts q ∙ h);
      freed = λ q h. g.freed q (omega (arith, h, counts q));
    }
  where
    zero_plus : (k : ℕ) → 0 + k ≡ k
    zero_plus k = omega arith

    no_members : (l : List ℕ) → length l ≡ 0 → l ≡ []
    no_members [] h = refl
    no_members (x ∷ xs) h = absurd (omega arith)
