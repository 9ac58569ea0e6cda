-- ===== src/Web/Evict.antt =====
-- One eviction of webserver/server_thread.c from a consistent cache.
use web_server_and_user_leve.Prelude.{
  ℕ, ◌-◌, ◌≤◌, ◌≡◌, ◌≢◌, refl, sym, ap, ◌∙◌, ◌==◌, ==_ne, eqb_eq, leb-true, Bool, true, false, ◌&&◌,
  none, some, List, [], ◌∷◌, arith, count, erase, count-erase, length-set, get_elem?-set, get_elem?,
  set, if◌then◌else◌, inl, inr, ◌⊎◌, map, update, Bool-cases,
}
use web_server_and_user_leve.Web.State.{InFlight, Store, same, all_live, returned}
use web_server_and_user_leve.Web.Lists.{is_in_flight, remove_lru_file}
use web_server_and_user_leve.Web.Cache.{
  slot, drop_from_chain, remove_from_cache, evict_file, cache_evict,
}
use web_server_and_user_leve.Web.Matches.{
  eqb_name_self, unlink_match-erase, count_head, ==_self_one, clash,
}
use web_server_and_user_leve.Web.Chains.{count_chains-set, total}
use web_server_and_user_leve.Web.Consistent.{
  name_of, IsConsistent, IsIdle, own_chain, lru_in_chain, chain-OnlyOne,
}
use web_server_and_user_leve.Web.Reads.{
  read_file-live, require-true, slot_of-nonempty, bucket_at-some, await_sent-idle,
}

-- The store without the head `p` of the LRU list, whose chain `b` stands at slot `i`.
abbrev pub evicted : ℕ → List ℕ → ℕ → List ℕ → Store → Store
evicted p rest i b s = record s {
  lru = rest;
  live = update s.live p false;
  cache = record s.cache {
    mapping = set s.cache.mapping i (erase p b);
    curr_size = s.cache.curr_size - (s.files p).file_size;
  };
}

-- The file at the head of the LRU list, in a consistent cache, while nobody sends it.
module _ (s : Store) (ok : IsConsistent s) (idle : IsIdle s) (p : ℕ) (rest : List ℕ)
    (head : s.lru ≡ p ∷ rest) where
  in_lru : 1 ≤ count p s.lru
  in_lru = omega (arith, ap (count p) head, count_head p rest)

  abbrev here : ℕ
  here = slot s.cache.array_size (name_of s p)

  size_le : (s.files p).file_size ≤ s.cache.curr_size
  size_le = omega (arith, ok.counted, ap (total s.files) head)

  pub remove_from_cache-evicted :
      (b : List ℕ)
      → get_elem? s.cache.mapping here ≡ some b
      → all_live s.live b ≡ true
      → remove_from_cache p (record s { lru = rest }) ≡ returned true (evicted p rest here b s)
  unfolding remove_from_cache drop_from_chain
  remove_from_cache-evicted b e live =
      let s1 : Store = record s { lru = rest } in
      read_file-live p _ s1 (ok.alive p in_lru)
      ∙ slot_of-nonempty (name_of s p) _ s1 ok.nonempty
      ∙ await_sent-idle (name_of s p) _ s1 idle.sent_live (idle.unsent p in_lru)
      ∙ bucket_at-some here b _ s1 e
      ∙ require-true (all_live s.live b) _ s1 live
      ∙ ap (λ r. drop_from_chain here r s1)
          (unlink_match-erase (same s (name_of s p)) p b (chain-OnlyOne s ok here p b e in_lru)
            (eqb_name_self (name_of s p)) (lru_in_chain s ok p b in_lru e))
      ∙ require-true _ _ s1 (leb-true (s.files p).file_size s.cache.curr_size size_le)

  evicted-IsConsistent :
      (b : List ℕ)
      → get_elem? s.cache.mapping here ≡ some b
      → IsConsistent (evicted p rest here b s)
  evicted-IsConsistent b e =
      let in_chain : 1 ≤ count p b = lru_in_chain s ok p b in_lru e in
      let gone : count p rest ≡ 0 = omega (arith, ap (count p) head, ok.once p, ==_self_one p) in
      let later : (q : ℕ) → count q rest ≤ count q s.lru = λ q. omega (arith, ap (count q) head) in
      record {
        nonempty = ok.nonempty;
        sized = length-set s.cache.mapping here (erase p b) ∙ ok.sized;
        table = λ q. omega (
          arith,
          ap (count q) head,
          ok.table q,
          count_chains-set q s.cache.mapping here b (erase p b) e,
          count-erase q p b in_chain,
        );
        placed = λ i q c g m.
            placed_after i q c (sym (get_elem?-set s.cache.mapping here i b (erase p b) e) ∙ g) m
              (Bool-cases (i == here)) in_chain;
        once = λ q. omega (arith, later q, ok.once q);
        names = λ q r m n. ok.names q r (omega (arith, later q)) (omega (arith, later r));
        alive = λ q m.
            ap (λ c. if c then false else s.live q) (==_ne q p (not_gone q gone m))
            ∙ ok.alive q (omega (arith, later q));
        counted = omega (arith, ok.counted, ap (total s.files) head);
        fits = omega (arith, ok.fits);
        small = ok.small;
      }
    where
      not_gone : (q : ℕ) → count p rest ≡ 0 → 1 ≤ count q rest → q ≢ p
      not_gone q gone m e = absurd (omega (arith, ap (λ r. count r rest) e, gone, m))

      some_eq : (c d : List ℕ) → some c ≡ some d → c ≡ d
      some_eq c d e = cc

      placed_after :
          (i q : ℕ) (c : List ℕ)
          → (if i == here then some (erase p b) else get_elem? s.cache.mapping i) ≡ some c
          → 1 ≤ count q c
          → ((i == here) ≡ true) ⊎ ((i == here) ≡ false)
          → 1 ≤ count p b
          → slot s.cache.array_size (name_of s q) ≡ i
      placed_after i q c g m (inl h) in_chain =
          let left : erase p b ≡ c =
            some_eq (erase p b) c
              (sym (ap (λ d. if d then some (erase p b) else get_elem? s.cache.mapping i) h) ∙ g) in
          ok.placed here q b e (omega (arith, m, ap (count q) left, count-erase q p b in_chain))
          ∙ sym (eqb_eq i here h)
      placed_after i q c g m (inr h) in_chain =
          ok.placed i q c
            (sym (ap (λ d. if d then some (erase p b) else get_elem? s.cache.mapping i) h) ∙ g) m

  evicted-IsIdle : (b : List ℕ) → IsIdle (evicted p rest here b s)
  unfolding is_in_flight
  evicted-IsIdle b = record {
    sent_live = keep_live s.inflight (idle.unsent p in_lru) idle.sent_live;
    unsent = λ q m. idle.unsent q (omega (arith, m, ap (count q) head));
  }
    where
      not_none : (e : InFlight) → some e ≢ none
      not_none e h = cc

      and_left : (c d : Bool) → c && d ≡ true → c ≡ true
      and_left c d h = ground (arith, h)

      and_right : (c d : Bool) → c && d ≡ true → d ≡ true
      and_right c d h = ground (arith, h)

      keep_live :
          (l : List InFlight)
          → is_in_flight (same s (name_of s p)) l ≡ none
          → all_live s.live (map (λ (e : InFlight). e.filename) l) ≡ true
          → all_live (update s.live p false) (map (λ (e : InFlight). e.filename) l) ≡ true
      keep_live [] n h = refl
      keep_live (e ∷ l) n h = elim (Bool-cases (same s (name_of s p) e.filename)) [
        | inl t ↦ absurd (
            not_none e
              (sym (ap (λ c. if c then some e else is_in_flight (same s (name_of s p)) l) t) ∙ n))
        | inr f ↦
            let other : e.filename ≢ p = λ eq.
              clash (same s (name_of s p) e.filename) f
                (ap (same s (name_of s p)) eq ∙ eqb_name_self (name_of s p)) in
            ap
              (λ c.
                (if c then false else s.live e.filename)
                && all_live (update s.live p false) (map (λ (e : InFlight). e.filename) l))
              (==_ne e.filename p other)
            ∙ ap (λ c. c && all_live (update s.live p false) (map (λ (e : InFlight). e.filename) l))
                (and_left _ _ h)
            ∙ keep_live l
                (sym (ap (λ c. if c then some e else is_in_flight (same s (name_of s p)) l) f) ∙ n)
                (and_right _ _ h)
      ]

  -- `cache_evict` takes the head of the LRU list out of the list and the table, and frees it.
  pub cache_evict-evicted :
      (s' : Store) × (cache_evict s ≡ returned true s')
      × IsConsistent s'
      × IsIdle s'
      × (s'.lru ≡ rest)
      × (s'.files ≡ s.files)
      × (s'.inflight ≡ s.inflight)
      × (s'.live ≡ update s.live p false)
      × (s'.cache.max_size ≡ s.cache.max_size)
  unfolding cache_evict evict_file remove_lru_file
  cache_evict-evicted =
      let (b, e, live) = own_chain s ok (name_of s p) in
      (
        evicted p rest here b s,
        ap (λ l. evict_file (remove_lru_file l) s) head ∙ remove_from_cache-evicted b e live,
        evicted-IsConsistent b e,
        evicted-IsIdle b,
        refl,
        refl,
        refl,
        refl,
        refl,
      )
