-- ===== src/Web/Policy.antt =====
-- Insertion and lookup of webserver/server_thread.c implement their specifications.
use web_server_and_user_leve.Prelude.{
  ℕ, ◌+◌, ◌≤◌, ◌<◌, ◌≡◌, refl, sym, ap, ◌∙◌, ◌==◌, eqb_eq, eqb_ne, ltb, ltb_lt, ltb_ge, Bool, true,
  false, Option, none, List, [], ◌∷◌, ◌++◌, arith, count, length, if◌then◌else◌, inl, inr, ◌⊎◌,
  Bool-cases,
}
use web_server_and_user_leve.Web.State.{Store, same, eqb_name, returned, and_then}
use web_server_and_user_leve.Web.Lists.{find_match}
use web_server_and_user_leve.Web.Cache.{insert_to_cache, cache_insert}
use web_server_and_user_leve.Web.Matches.{eqb_name_self, find_match-cases, NoMatch, clash}
use web_server_and_user_leve.Web.Consistent.{name_of, IsConsistent, IsIdle}
use web_server_and_user_leve.Web.Insert.{
  Kept-same, Kept-trans, make_room, make_room_fits, evict_loop-Made,
}
use web_server_and_user_leve.Web.Refine.{
  insert_new, insert_spec, Implements, Implements-of, insert-too_large, insert-added, insert-evicts,
  insert-found,
}

same_store : (s : Store) → IsConsistent s → Implements s (returned false s) (false, s.lru)
same_store s ok = record {
  after = s;
  runs = refl;
  lru = refl;
  ok = ok;
  kept = Kept-same s s refl refl refl refl λ q. omega arith;
}

-- A file with a new name, for which the evictions make room.
insert-Made :
    (p : ℕ) (s : Store)
    → IsConsistent s
    → IsIdle s
    → s.live p ≡ true
    → NoMatch (same s (name_of s p)) s.lru
    → (s.files p).file_size ≤ s.cache.max_size
    → s.cache.max_size < s.cache.curr_size + (s.files p).file_size
    → Implements s
        (cache_insert p s)
        (true, make_room s.files s.cache.max_size (s.files p).file_size s.lru ++ p ∷ [])
insert-Made p s ok idle live new small over =
    let size : ℕ = (s.files p).file_size in
    let (s', out, m) =
      evict_loop-Made (length s.lru) size s s.lru refl (omega arith) small ok idle in
    let absent : count p s.lru ≡ 0 = not_cached (Bool-cases (count p s.lru == 0)) in
    let same_size : (s'.files p).file_size ≡ size = ap (λ f. (f p).file_size) m.frame.kept.files in
    let done : Implements s' (insert_to_cache 1 p s') (true, s'.lru ++ p ∷ []) =
      insert-added 0 p s' m.ok (m.frame.kept.others p absent ∙ live)
        (λ q n.
          ap (λ f. eqb_name (f q).file_name (f p).file_name) m.frame.kept.files
          ∙ new q (omega (arith, n, m.frame.shrinks q)))
        (omega (arith, same_size, small, m.frame.kept.max)) (omega (arith, same_size, m.room)) in
    Implements-of s (cache_insert p s) (insert_to_cache 1 p s') _ (true, s'.lru ++ p ∷ [])
      (insert-evicts 1 p s ok live new small over
        ∙ ap (λ o. and_then o λ _. insert_to_cache 1 p) out)
      (ap (λ l. (true, l ++ p ∷ [])) (sym m.lru))
      (record {
        after = done.after;
        runs = done.runs;
        lru = done.lru;
        ok = done.ok;
        kept = Kept-trans s s' done.after m.frame.shrinks m.frame.kept done.kept;
      })
  where
    not_cached : ((count p s.lru == 0) ≡ true) ⊎ ((count p s.lru == 0) ≡ false) → count p s.lru ≡ 0
    not_cached (inl e) = eqb_eq (count p s.lru) 0 e
    not_cached (inr e) =
        clash (same s (name_of s p) p) (new p (omega (arith, eqb_ne (count p s.lru) 0 e)))
          (eqb_name_self (name_of s p))

-- `cache_insert` of an allocated file into a consistent cache, while none of the cached files is being
-- sent, returns the specified result and leaves a consistent cache with the specified list: a file
-- that is too large or whose name is cached changes nothing, and another one comes last, behind
-- the files left when the least recently used have been evicted until it fits.
pub cache_insert-Implements :
    (p : ℕ) (s : Store)
    → IsConsistent s
    → IsIdle s
    → s.live p ≡ true
    → Implements s (cache_insert p s) (insert_spec s p)
unfolding insert_spec
cache_insert-Implements p s ok idle live =
    elim (Bool-cases (ltb s.cache.max_size (s.files p).file_size)) [
      | inl large ↦
          Implements-of s (cache_insert p s) (returned false s) (insert_spec s p) (false, s.lru)
            (insert-too_large 1 p s ok live (ltb_lt _ _ large)) (too_large large) (same_store s ok)
      | inr fits ↦ elim (find_match-cases (same s (name_of s p)) s.lru) [
        | inl (q, e, m, is) ↦
            Implements-of s (cache_insert p s) (returned false s) (insert_spec s p) (false, s.lru)
              (insert-found 1 p s ok live q m is (ltb_ge _ _ fits)) (searched fits ∙ ap chosen e)
              (same_store s ok)
        | inr (e, new) ↦
            Implements-of s (cache_insert p s) (cache_insert p s) (insert_spec s p) (chosen none)
              refl (searched fits ∙ ap chosen e)
              (elim (Bool-cases
                (ltb s.cache.max_size (s.cache.curr_size + (s.files p).file_size))) [
                  | inl over ↦ insert-Made p s ok idle live new (ltb_ge _ _ fits) (ltb_lt _ _ over)
                  | inr room ↦
                      Implements-of s (cache_insert p s) (cache_insert p s) (chosen none)
                        (true, s.lru ++ p ∷ []) refl
                        (ap (λ l. (true, l ++ p ∷ []))
                          (make_room_fits s.files s.cache.max_size (s.files p).file_size s.lru
                            (omega (arith, ok.counted, ltb_ge _ _ room))))
                        (insert-added 1 p s ok live new (ltb_ge _ _ fits) (ltb_ge _ _ room))
                ])
      ]
    ]
  where
    chosen : Option ℕ → Bool × List ℕ
    chosen o = insert_new s.files s.cache.max_size p s.lru o

    tested : Bool → Bool × List ℕ
    tested c = if c then (false, s.lru) else chosen (find_match (same s (name_of s p)) s.lru)

    too_large :
        ltb s.cache.max_size (s.files p).file_size ≡ true
        → ◌≡◌ {A = Bool × List ℕ} (insert_spec s p) (false, s.lru)
    too_large large = ap tested large

    searched :
        ltb s.cache.max_size (s.files p).file_size ≡ false
        → insert_spec s p ≡ chosen (find_match (same s (name_of s p)) s.lru)
    searched fits = ap tested fits
