-- ===== src/Web/Lookup.antt =====
-- Lookup in the cache of webserver/server_thread.c.
use web_server_and_user_leve.Prelude.{
  ℕ, ◌≡◌, refl, sym, ap, ◌∙◌, Bool, true, false, Option, none, some, List, [], ◌∷◌, ◌++◌, arith,
  count, count-erase, count-append, erase, inl, inr,
}
use web_server_and_user_leve.Web.State.{Name, Store, same, returned}
use web_server_and_user_leve.Web.Lists.{find_match, push_back, remove_file_to_be_moved_to_back}
use web_server_and_user_leve.Web.Cache.{cache_lookup, move_to_back}
use web_server_and_user_leve.Web.Matches.{
  OnlyOne, eqb_name_eq, find_match-cases, remove_file-none, remove_file-erase,
}
use web_server_and_user_leve.Web.Chains.{total, total-append, total-erase}
use web_server_and_user_leve.Web.Consistent.{name_of, IsConsistent, all_live_of}
use web_server_and_user_leve.Web.Reads.{read_file-live, require-true}
use web_server_and_user_leve.Web.Insert.{Kept-same}
use web_server_and_user_leve.Web.Refine.{Implements, Implements-of}

-- What a lookup does to the list: the file of that name comes last.
abbrev pub move_last : List ℕ → Option ℕ → Bool × List ℕ
move_last l none = (false, l)
move_last l (some q) = (true, erase q l ++ q ∷ [])

abbrev pub lookup_spec : Store → ℕ → Bool × List ℕ
lookup_spec s p = move_last s.lru (find_match (same s (name_of s p)) s.lru)

-- The order of the list does not matter to the invariant.
reordered-IsConsistent :
    (s : Store) (l : List ℕ)
    → ((r : ℕ) → count r l ≡ count r s.lru)
    → total s.files l ≡ total s.files s.lru
    → IsConsistent s
    → IsConsistent (record s { lru = l })
reordered-IsConsistent s l same_count same_total ok = record {
  nonempty = ok.nonempty;
  sized = ok.sized;
  table = λ q. ok.table q ∙ sym (same_count q);
  placed = ok.placed;
  once = λ q. omega (arith, same_count q, ok.once q);
  names = λ q r m n. ok.names q r (omega (arith, m, same_count q)) (omega (arith, n, same_count r));
  alive = λ q m. ok.alive q (omega (arith, m, same_count q));
  counted = ok.counted ∙ sym same_total;
  fits = ok.fits;
  small = ok.small;
}

-- `cache_lookup` with the name of an allocated file finds the cached file of that name, if there is one,
-- and makes it the most recently used; the others keep their order.
pub cache_lookup-Implements :
    (p : ℕ) (s : Store)
    → IsConsistent s
    → s.live p ≡ true
    → Implements s (cache_lookup p s) (lookup_spec s p)
unfolding cache_lookup push_back
cache_lookup-Implements p s ok live =
    let name : Name = name_of s p in
    let searched : cache_lookup p s
        ≡ move_to_back (remove_file_to_be_moved_to_back (same s name) s.lru) s =
      read_file-live p _ s live ∙ require-true _ _ s (all_live_of s.live s.lru ok.alive) in
    elim (find_match-cases (same s name) s.lru) [
      | inr (e, absent) ↦
          Implements-of s (cache_lookup p s) (returned false s) (lookup_spec s p) (false, s.lru)
            (searched ∙ ap (λ r. move_to_back r s) (remove_file-none (same s name) s.lru absent))
            (ap (move_last s.lru) e)
            (record {
              after = s;
              runs = refl;
              lru = refl;
              ok = ok;
              kept = Kept-same s s refl refl refl refl λ q. omega arith;
            })
      | inl (q, e, m, is) ↦
          let l : List ℕ = erase q s.lru ++ q ∷ [] in
          let one : OnlyOne (same s name) q s.lru = λ r n h.
            ok.names q r m n
              (eqb_name_eq (name_of s r) name h ∙ sym (eqb_name_eq (name_of s q) name is)) in
          Implements-of s (cache_lookup p s) (returned true (record s { lru = l }))
            (lookup_spec s p) (true, l)
            (searched
              ∙ ap (λ r. move_to_back r s)
                  (remove_file-erase (same s name) q s.lru one is (omega (arith, m, ok.once q))))
            (ap (move_last s.lru) e)
            (record {
              after = record s { lru = l };
              runs = refl;
              lru = refl;
              ok =
                  reordered-IsConsistent s l
                    (λ r.
                      omega
                        (arith, count-append r (erase q s.lru) (q ∷ []), count-erase r q s.lru m))
                    (omega (
                      arith,
                      total-append s.files (erase q s.lru) (q ∷ []),
                      total-erase s.files q s.lru m,
                    ))
                    ok;
              kept =
                  Kept-same s (record s { lru = l }) refl refl refl refl
                    λ r.
                      omega
                        (arith, count-append r (erase q s.lru) (q ∷ []), count-erase r q s.lru m);
            })
    ]
