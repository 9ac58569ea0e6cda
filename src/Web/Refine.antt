-- ===== src/Web/Refine.antt =====
-- The cache of webserver/server_thread.c against its specification: a list of files, the least recently
-- used one first.
use web_server_and_user_leve.Prelude.{
  ℕ, suc, ◌+◌, ◌^◌, ◌≤◌, ◌<◌, ◌≡◌, refl, sym, ap, ◌∙◌, ltb, leb, leb-true, leb-false, ltb-true,
  ltb-false, Bool, true, false, Option, none, some, List, [], ◌∷◌, ◌++◌, arith, count, count-append,
  length, get_elem?, if◌then◌else◌,
}
use web_server_and_user_leve.Web.State.{
  File, Store, same, all_live, Outcome, M, returned, undefined, and_then, ◌>>◌, modify, pure,
}
use web_server_and_user_leve.Web.Lists.{find_match, push_back}
use web_server_and_user_leve.Web.Cache.{
  slot, evict_loop, add_node, insert_absent, place_new, insert_in_chain, insert_to_cache,
}
use web_server_and_user_leve.Web.Matches.{eqb_name_eq, find_match-none, find_match-some, NoMatch}
use web_server_and_user_leve.Web.Consistent.{
  name_of, IsConsistent, own_chain, lru_in_chain, chain_in_lru,
}
use web_server_and_user_leve.Web.Reads.{
  read_file-live, require-true, slot_of-nonempty, bucket_at-some,
}
use web_server_and_user_leve.Web.Insert.{make_room, Kept, Kept-same}
use web_server_and_user_leve.Web.Add.{added, added-IsConsistent}

-- What an insertion does to the list: nothing where the file is larger than the cache, or its name is
-- there; otherwise the file comes last, behind those that the evictions leave.
abbrev pub insert_new : (ℕ → File) → ℕ → ℕ → List ℕ → Option ℕ → Bool × List ℕ
insert_new files max p l (some q) = (false, l)
insert_new files max p l none = (true, make_room files max (files p).file_size l ++ p ∷ [])

unfoldable pub insert_spec : Store → ℕ → Bool × List ℕ
insert_spec s p =
    if ltb s.cache.max_size (s.files p).file_size
    then (false, s.lru)
    else insert_new s.files s.cache.max_size p s.lru (find_match (same s (name_of s p)) s.lru)

-- The result and the list of the call are the specified ones, and the cache is consistent.
pub record Implements (s : Store) (result : Outcome Bool) (spec : Bool × List ℕ) : Type 0 where
  pub after : Store
  pub runs : result ≡ returned spec.0 after
  pub lru : after.lru ≡ spec.1
  pub ok : IsConsistent after
  pub kept : Kept s after

pub Implements-of :
    (s : Store) (r r' : Outcome Bool) (spec spec' : Bool × List ℕ)
    → r ≡ r'
    → spec ≡ spec'
    → Implements s r' spec'
    → Implements s r spec
Implements-of s r r' spec spec' e f h = rw (e, f) h

module _ (fuel p : ℕ) (s : Store) (ok : IsConsistent s) (live : s.live p ≡ true) where
  abbrev again : M Bool
  again = insert_to_cache fuel p

  abbrev home : ℕ
  home = slot s.cache.array_size (name_of s p)

  abbrev size : ℕ
  size = (s.files p).file_size

  -- The call for a file that is not larger than the cache comes to the search of its chain.
  insert-search :
      (b : List ℕ)
      → get_elem? s.cache.mapping home ≡ some b
      → all_live s.live b ≡ true
      → size ≤ s.cache.max_size
      → insert_to_cache (suc fuel) p s
        ≡ insert_absent again home b p (find_match (same s (name_of s p)) b) s
  unfolding insert_to_cache
  insert-search b e chain_live small =
      read_file-live p _ s live
      ∙ ap (λ c. (if c then pure false else insert_in_chain again p (s.files p)) s)
          (ltb-false _ _ small)
      ∙ slot_of-nonempty (name_of s p) _ s ok.nonempty
      ∙ bucket_at-some home b _ s e
      ∙ require-true (all_live s.live b) _ s chain_live

  pub insert-too_large : s.cache.max_size < size → insert_to_cache (suc fuel) p s ≡ returned false s
  unfolding insert_to_cache
  insert-too_large large =
      read_file-live p _ s live
      ∙ ap (λ c. (if c then pure false else insert_in_chain again p (s.files p)) s)
          (ltb-true _ _ large)

  -- A file with a new name.
  module _ (new : NoMatch (same s (name_of s p)) s.lru) (small : size ≤ s.cache.max_size) where
    insert-place :
        (b : List ℕ)
        → get_elem? s.cache.mapping home ≡ some b
        → all_live s.live b ≡ true
        → insert_to_cache (suc fuel) p s ≡ place_new again home b p size s s
    unfolding insert_absent
    insert-place b e chain_live =
        insert-search b e chain_live small
        ∙ ap (λ o. insert_absent again home b p o s)
            (find_match-none (same s (name_of s p)) b λ q m. new q (chain_in_lru s ok home q b e m))

    abbrev tests : List ℕ → Bool → Bool → Outcome Bool
    tests b c d =
        (if c
            then (λ s. undefined)
            else if d
            then modify (add_node home b p size) >> pure true
            else evict_loop (length s.lru) size >> again)
          s

    no_overflow : leb (2 ^ 31) (s.cache.curr_size + size) ≡ false
    no_overflow = leb-false _ _ (omega (arith, small, ok.fits, ok.small))

    pub insert-added :
        s.cache.curr_size + size ≤ s.cache.max_size
        → Implements s (insert_to_cache (suc fuel) p s) (true, s.lru ++ p ∷ [])
    unfolding push_back
    insert-added room =
        let (b, e, chain_live) = own_chain s ok (name_of s p) in
        record {
          after = added s ok p b live new e room;
          runs =
              insert-place b e chain_live
              ∙ ap (λ c. tests b c (leb (s.cache.curr_size + size) s.cache.max_size)) no_overflow
              ∙ ap (tests b false) (leb-true _ _ room);
          lru = refl;
          ok = added-IsConsistent s ok p b live new e room;
          kept =
              Kept-same s (added s ok p b live new e room) refl refl refl refl
                λ q. omega (arith, count-append q s.lru (p ∷ []));
        }

    pub insert-evicts :
        s.cache.max_size < s.cache.curr_size + size
        → insert_to_cache (suc fuel) p s ≡ and_then (evict_loop (length s.lru) size s) (λ _. again)
    insert-evicts over =
        let (b, e, chain_live) = own_chain s ok (name_of s p) in
        insert-place b e chain_live
        ∙ ap (λ c. tests b c (leb (s.cache.curr_size + size) s.cache.max_size)) no_overflow
        ∙ ap (tests b false) (leb-false _ _ over)

  -- A file whose name is in the cache.
  pub insert-found :
      (q : ℕ)
      → 1 ≤ count q s.lru
      → same s (name_of s p) q ≡ true
      → size ≤ s.cache.max_size
      → insert_to_cache (suc fuel) p s ≡ returned false s
  unfolding insert_absent
  insert-found q m is small =
      let (b, e, chain_live) = own_chain s ok (name_of s p) in
      let named : name_of s q ≡ name_of s p = eqb_name_eq (name_of s q) (name_of s p) is in
      let e' : get_elem? s.cache.mapping (slot s.cache.array_size (name_of s q)) ≡ some b =
        ap (λ n. get_elem? s.cache.mapping (slot s.cache.array_size n)) named ∙ e in
      insert-search b e chain_live small
      ∙ ap (λ o. insert_absent again home b p o s)
          (find_match-some (same s (name_of s p)) q b
            (λ r n h.
              ok.names q r m (chain_in_lru s ok home r b e n)
                (eqb_name_eq (name_of s r) (name_of s p) h ∙ sym named))
            is (lru_in_chain s ok q b m e'))
