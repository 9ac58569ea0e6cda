-- ===== src/Web/Consistent.antt =====
-- The invariant of the cache of webserver/server_thread.c: the LRU list and the hash table hold the same
-- files, all of them allocated and under different names, and the sizes add up.
use web_server_and_user_leve.Prelude.{
  ℕ, ◌^◌, ◌≤◌, ◌<◌, ◌≡◌, refl, sym, ap, ◌∙◌, Bool, true, none, some, List, [], ◌∷◌, arith, count,
  length, word_exists, get_elem?, map,
}
use web_server_and_user_leve.Web.State.{Name, InFlight, Store, same, all_live}
use web_server_and_user_leve.Web.Lists.{is_in_flight}
use web_server_and_user_leve.Web.Cache.{slot}
use web_server_and_user_leve.Web.Matches.{eqb_name_eq, OnlyOne}
use web_server_and_user_leve.Web.Chains.{
  count_chains, count_chains_member, chain_of, total, slot_bound,
}

-- `file_name` of a file.
abbrev pub name_of : Store → ℕ → Name
name_of s p = (s.files p).file_name

pub record IsConsistent (s : Store) : Type 0 where
  pub nonempty : 1 ≤ s.cache.array_size
  pub sized : length s.cache.mapping ≡ s.cache.array_size
  pub table : (p : ℕ) → count_chains p s.cache.mapping ≡ count p s.lru
  pub placed :
      (i p : ℕ) (b : List ℕ)
      → get_elem? s.cache.mapping i ≡ some b
      → 1 ≤ count p b
      → slot s.cache.array_size (name_of s p) ≡ i
  pub once : (p : ℕ) → count p s.lru ≤ 1
  pub names : (p q : ℕ) → 1 ≤ count p s.lru → 1 ≤ count q s.lru → name_of s q ≡ name_of s p → q ≡ p
  pub alive : (p : ℕ) → 1 ≤ count p s.lru → s.live p ≡ true
  pub counted : s.cache.curr_size ≡ total s.files s.lru
  pub fits : s.cache.curr_size ≤ s.cache.max_size
  pub small : s.cache.max_size < 2 ^ 30

-- None of the cached files is being sent, and the files that are being sent are allocated.
pub record IsIdle (s : Store) : Type 0 where
  pub sent_live : all_live s.live (map (λ (e : InFlight). e.filename) s.inflight) ≡ true
  pub unsent : (p : ℕ) → 1 ≤ count p s.lru → is_in_flight (same s (name_of s p)) s.inflight ≡ none

pub all_live_of :
    (live : ℕ → Bool) (l : List ℕ)
    → ((p : ℕ) → 1 ≤ count p l → live p ≡ true)
    → all_live live l ≡ true
all_live_of live [] h = refl
all_live_of live (x ∷ xs) h =
    rw (h x (head_member x xs), all_live_of live xs λ p m. h p (omega arith)) refl
  where
    head_member : (x : ℕ) (xs : List ℕ) → 1 ≤ count x (x ∷ xs)
    head_member x xs = ground arith

module _ (s : Store) (ok : IsConsistent s) where
  -- Every name has its chain, whose files are all allocated.
  pub own_chain :
      (name : Name)
      → (b : List ℕ) × (get_elem? s.cache.mapping (slot s.cache.array_size name) ≡ some b)
        × (all_live s.live b ≡ true)
  own_chain name =
      let i : ℕ = slot s.cache.array_size name in
      let (b, e) =
        word_exists s.cache.mapping i
          (omega (arith, slot_bound s.cache.array_size name ok.nonempty, ok.sized)) in
      (
        b,
        e,
        all_live_of s.live b λ p m.
            ok.alive p (omega (arith, m, count_chains_member p s.cache.mapping i b e, ok.table p)),
      )

  -- A file of a chain is in the LRU list, and a file of that list is in the chain of its name.
  pub chain_in_lru :
      (i p : ℕ) (b : List ℕ)
      → get_elem? s.cache.mapping i ≡ some b
      → 1 ≤ count p b
      → 1 ≤ count p s.lru
  chain_in_lru i p b e m = omega (arith, m, count_chains_member p s.cache.mapping i b e, ok.table p)

  pub lru_in_chain :
      (p : ℕ) (b : List ℕ)
      → 1 ≤ count p s.lru
      → get_elem? s.cache.mapping (slot s.cache.array_size (name_of s p)) ≡ some b
      → 1 ≤ count p b
  lru_in_chain p b m e =
      let (i, c, e', m') = chain_of p s.cache.mapping (omega (arith, m, ok.table p)) in
      let here : slot s.cache.array_size (name_of s p) ≡ i = ok.placed i p c e' m' in
      let same_chain : some c ≡ some b = sym e' ∙ ap (get_elem? s.cache.mapping) (sym here) ∙ e in
      move b c (some_eq c b same_chain) m'
    where
      some_eq : (c b : List ℕ) → some c ≡ some b → c ≡ b
      some_eq c b e = cc

      move : (b c : List ℕ) → c ≡ b → 1 ≤ count p c → 1 ≤ count p b
      move b c e m = rw (sym e) m

  -- In the LRU list the name of a cached file is its alone, and so in its chain.
  pub lru-OnlyOne : (p : ℕ) → 1 ≤ count p s.lru → OnlyOne (same s (name_of s p)) p s.lru
  lru-OnlyOne p m q m' e = ok.names p q m m' (eqb_name_eq (name_of s q) (name_of s p) e)

  pub chain-OnlyOne :
      (i p : ℕ) (b : List ℕ)
      → get_elem? s.cache.mapping i ≡ some b
      → 1 ≤ count p s.lru
      → OnlyOne (same s (name_of s p)) p b
  chain-OnlyOne i p b e m q m' = lru-OnlyOne p m q (chain_in_lru i q b e m')
