-- ===== src/Web/Limits.antt =====
-- The limits of the cache of webserver/server_thread.c: its start, files that are being sent, and caches
-- that are too small.
use web_server_and_user_leve.Prelude.{
  ◌≢◌, ◌++◌, Bool-cases, inl, inr, ℕ, zero, suc, ◌*◌, ◌/◌, ◌^◌, ◌≤◌, ◌<◌, ◌≡◌, refl, sym, ap, ◌∙◌,
  ltb-false, true, false, some, List, [], ◌∷◌, arith, count, length, get_elem?, map, if◌then◌else◌,
}
use web_server_and_user_leve.Web.State.{Store, InFlight, same, all_live, waits, undefined, pure}
use web_server_and_user_leve.Web.Lists.{is_in_flight, remove_lru_file}
use web_server_and_user_leve.Web.Cache.{
  empty_chains, init_cache, insert_to_cache, insert_in_chain, cache_insert, cache_evict, evict_file,
  remove_from_cache,
}
use web_server_and_user_leve.Web.Chains.{count_chains, total}
use web_server_and_user_leve.Web.Consistent.{name_of, IsConsistent}
use web_server_and_user_leve.Web.Reads.{
  read_file-live, slot_of-nonempty, slot_of-empty, await_sent-waits,
}
use web_server_and_user_leve.Web.State.{Name, eqb_name}
use web_server_and_user_leve.Web.Matches.{eqb_name_self, eqb_name_eq, ==_self_one}

length-empty_chains : (n : ℕ) → length (empty_chains n) ≡ n
length-empty_chains zero = refl
length-empty_chains (suc n) = ap suc (length-empty_chains n)

count-empty_chains : (p n : ℕ) → count_chains p (empty_chains n) ≡ 0
count-empty_chains p zero = refl
count-empty_chains p (suc n) = omega (arith, count-empty_chains p n)

some_eq : (c d : List ℕ) → some c ≡ some d → c ≡ d
some_eq c d e = cc

empty_chain : (n i p : ℕ) (b : List ℕ) → get_elem? (empty_chains n) i ≡ some b → count p b ≡ 0
empty_chain zero i p b h = ground arith
empty_chain (suc n) zero p b h = ap (count p) (sym (some_eq [] b h))
empty_chain (suc n) (suc i) p b h = empty_chain n i p b h

-- A cache of at least one page, as `init_cache` makes it, with an empty LRU list, is consistent.
pub init_cache-IsConsistent :
    (max_size : ℕ) (s : Store)
    → 2 ^ 12 ≤ max_size
    → max_size < 2 ^ 30
    → s.lru ≡ []
    → IsConsistent (record s { cache = init_cache max_size })
unfolding init_cache
init_cache-IsConsistent max_size s page small empty =
    let n : ℕ = 2 * (max_size / 2 ^ 12) in
    record {
      nonempty = omega (arith, page);
      sized = length-empty_chains n;
      table = λ p. omega (arith, count-empty_chains p n, ap (count p) empty);
      placed = λ i p b e m. absurd (omega (arith, m, empty_chain n i p b e));
      once = λ p. omega (arith, ap (count p) empty);
      names = λ p q m. absurd (omega (arith, m, ap (count p) empty));
      alive = λ p m. absurd (omega (arith, m, ap (count p) empty));
      counted = omega (arith, ap (total s.files) empty);
      fits = omega arith;
      small = small;
    }

-- For a maximum below the size of a page, `init_cache` makes a table without chains, and `cache_insert`
-- of a file that is not larger than the cache divides by zero.
pub cache_insert-init_cache :
    (max_size p : ℕ) (s : Store)
    → max_size < 2 ^ 12
    → s.live p ≡ true
    → (s.files p).file_size ≤ max_size
    → cache_insert p (record s { cache = init_cache max_size }) ≡ undefined
unfolding insert_to_cache init_cache
cache_insert-init_cache max_size p s tiny live small =
    let s1 : Store = record s { cache = init_cache max_size } in
    read_file-live p _ s1 live
    ∙ ap (λ c. (if c then pure false else insert_in_chain (insert_to_cache 1 p) p (s.files p)) s1)
        (ltb-false max_size (s.files p).file_size small)
    ∙ slot_of-empty (name_of s p) _ s1 (omega (arith, tiny))

-- No file of these has the name.
abbrev pub NoneNamed : Store → Name → List InFlight → Type 0
NoneNamed s name [] = Unit
NoneNamed s name (e ∷ q) = (name_of s e.filename ≢ name) × NoneNamed s name q

is_in_flight-first :
    (s : Store) (name : Name) (before behind : List InFlight) (e : InFlight)
    → NoneNamed s name before
    → name_of s e.filename ≡ name
    → is_in_flight (same s name) (before ++ e ∷ behind) ≡ some e
unfolding is_in_flight
is_in_flight-first s name [] behind e h is =
    ap (λ c. if c then some e else is_in_flight (same s name) behind)
      (ap (eqb_name (name_of s e.filename)) (sym is) ∙ eqb_name_self (name_of s e.filename))
is_in_flight-first s name (d ∷ before) behind e (other, h) is =
    elim (Bool-cases (same s name d.filename)) [
      | inl equal ↦ absurd (other (eqb_name_eq _ _ equal))
      | inr differs ↦
          ap (λ c. if c then some d else is_in_flight (same s name) (before ++ e ∷ behind)) differs
          ∙ is_in_flight-first s name before behind e h is
    ]

-- While a file with the name of the least recently used one is being sent, `cache_evict` waits for the
-- signal of the first node of that name in the list of such files, whose files are all allocated.
pub cache_evict-waits :
    (p : ℕ) (rest : List ℕ) (before behind : List InFlight) (e : InFlight) (s : Store)
    → IsConsistent s
    → s.lru ≡ p ∷ rest
    → all_live s.live (map (λ (e : InFlight). e.filename) s.inflight) ≡ true
    → s.inflight ≡ before ++ e ∷ behind
    → NoneNamed s (name_of s p) before
    → name_of s e.filename ≡ name_of s p
    → cache_evict s ≡ waits e.signal
unfolding cache_evict evict_file remove_lru_file remove_from_cache
cache_evict-waits p rest before behind e s ok head sent_live split none_before is =
    let s1 : Store = record s { lru = rest } in
    ap (λ l. evict_file (remove_lru_file l) s) head
    ∙ read_file-live p _ s1 (ok.alive p (omega (arith, ap (count p) head, ==_self_one p)))
    ∙ slot_of-nonempty (name_of s p) _ s1 ok.nonempty
    ∙ await_sent-waits (name_of s p) _ e s1 sent_live (
        ap (is_in_flight (same s (name_of s p))) split
        ∙ is_in_flight-first s (name_of s p) before behind e none_before is)
