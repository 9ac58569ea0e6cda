-- ===== src/Web/Insert.antt =====
-- Insertion into the cache of webserver/server_thread.c, with the evictions that make room.
use web_server_and_user_leve.Prelude.{
  updated, ℕ, zero, suc, ◌+◌, ◌≤◌, ◌<◌, ◌≡◌, ◌≢◌, refl, sym, ap, ◌∙◌, ◌==◌, ==_ne, eqb_eq, eqb_ne,
  leb, ltb, leb-true, leb-false, ltb_lt, ltb_ge, false, List, [], ◌∷◌, arith, count, length,
  if◌then◌else◌, inl, inr, update, Bool-cases,
}
use web_server_and_user_leve.Web.State.{
  File, Store, M, returned, out_of_fuel, ◌>>=◌, and_then, pure,
}
use web_server_and_user_leve.Web.Cache.{unless_room, cache_evict, evict_loop}
use web_server_and_user_leve.Web.Matches.{==_self_one, one_at_other}
use web_server_and_user_leve.Web.Chains.{total}
use web_server_and_user_leve.Web.Consistent.{IsConsistent, IsIdle}
use web_server_and_user_leve.Web.Evict.{cache_evict-evicted}

-- The specification: files are dropped from the front until `size` bytes fit.
unfoldable pub make_room : (ℕ → File) → ℕ → ℕ → List ℕ → List ℕ
make_room files max size [] = []
make_room files max size (p ∷ ps) =
    if leb (total files (p ∷ ps) + size) max then p ∷ ps else make_room files max size ps

-- What a call leaves as it is: the contents, the list of files being sent, and the files that were not
-- cached. A file that is not cached any more is freed.
pub record Kept (s s' : Store) : Type 0 where
  pub files : s'.files ≡ s.files
  pub inflight : s'.inflight ≡ s.inflight
  pub max : s'.cache.max_size ≡ s.cache.max_size
  pub others : (q : ℕ) → count q s.lru ≡ 0 → s'.live q ≡ s.live q
  pub freed : (q : ℕ) → 1 ≤ count q s.lru → count q s'.lru ≡ 0 → s'.live q ≡ false

-- What the evictions leave as it is.
pub record Frame (s s' : Store) : Type 0 where
  pub kept : Kept s s'
  pub shrinks : (q : ℕ) → count q s'.lru ≤ count q s.lru

-- The loop ends with room, in a consistent cache whose LRU list is the one specified.
pub record Made (size : ℕ) (s s' : Store) : Type 0 where
  pub ok : IsConsistent s'
  pub idle : IsIdle s'
  pub lru : s'.lru ≡ make_room s.files s.cache.max_size size s.lru
  pub room : s'.cache.curr_size + size ≤ s'.cache.max_size
  pub frame : Frame s s'

-- The list has changed its order at most.
pub Kept-same :
    (s s' : Store)
    → s'.files ≡ s.files
    → s'.inflight ≡ s.inflight
    → s'.cache.max_size ≡ s.cache.max_size
    → s'.live ≡ s.live
    → ((q : ℕ) → count q s.lru ≤ count q s'.lru)
    → Kept s s'
Kept-same s s' files inflight max live grows = record {
  files = files;
  inflight = inflight;
  max = max;
  others = λ q h. ap (λ f. f q) live;
  freed = λ q m n. absurd (omega (arith, grows q));
}

-- Two calls, behind the first of which no new file is cached.
pub Kept-trans :
    (s s1 s' : Store)
    → ((q : ℕ) → count q s1.lru ≤ count q s.lru)
    → Kept s s1
    → Kept s1 s'
    → Kept s s'
Kept-trans s s1 s' shrinks k l = record {
  files = l.files ∙ k.files;
  inflight = l.inflight ∙ k.inflight;
  max = l.max ∙ k.max;
  others = λ q h. l.others q (omega (arith, shrinks q)) ∙ k.others q h;
  freed = λ q m n. elim (Bool-cases (count q s1.lru == 0)) [
    | inl e ↦ l.others q (eqb_eq _ _ e) ∙ k.freed q m (eqb_eq _ _ e)
    | inr e ↦ l.freed q (omega (arith, eqb_ne _ _ e)) n
  ];
}

Frame_refl : (s : Store) → Frame s s
Frame_refl s = record {
  kept = Kept-same s s refl refl refl refl λ q. omega arith;
  shrinks = λ q. omega arith;
}

unless_room-stops :
    (size : ℕ) (more : M (Unit {0})) (s : Store)
    → s.cache.curr_size + size ≤ s.cache.max_size
    → unless_room size more s s ≡ returned tt s
unless_room-stops size more s h =
    ap (λ b. (if b then pure tt else if s.cache.curr_size == 0 then pure tt else more) s)
      (leb-true _ _ h)

unless_room-goes :
    (size : ℕ) (more : M (Unit {0})) (s : Store)
    → s.cache.max_size < s.cache.curr_size + size
    → size ≤ s.cache.max_size
    → unless_room size more s s ≡ more s
unless_room-goes size more s h small =
    ap (λ b. (if b then pure tt else if s.cache.curr_size == 0 then pure tt else more) s)
      (leb-false _ _ h)
    ∙ ap (λ b. (if b then pure tt else more) s) (==_ne s.cache.curr_size 0 (omega arith))

pub make_room_fits :
    (files : ℕ → File) (max size : ℕ) (l : List ℕ)
    → total files l + size ≤ max
    → make_room files max size l ≡ l
unfolding make_room
make_room_fits files max size [] h = refl
make_room_fits files max size (p ∷ ps) h =
    ap (λ b. if b then p ∷ ps else make_room files max size ps) (leb-true _ _ h)

make_room_drops :
    (files : ℕ → File) (max size p : ℕ) (ps : List ℕ)
    → max < total files (p ∷ ps) + size
    → make_room files max size (p ∷ ps) ≡ make_room files max size ps
unfolding make_room
make_room_drops files max size p ps h =
    ap (λ b. if b then p ∷ ps else make_room files max size ps) (leb-false _ _ h)

Made-refl :
    (size : ℕ) (s : Store)
    → s.cache.curr_size + size ≤ s.cache.max_size
    → IsConsistent s
    → IsIdle s
    → Made size s s
Made-refl size s room ok idle = record {
  ok = ok;
  idle = idle;
  lru = sym (make_room_fits s.files s.cache.max_size size s.lru (omega (arith, room, ok.counted)));
  room = room;
  frame = Frame_refl s;
}

-- The rest of the loop, behind the eviction of the head `p`.
Made-evicted :
    (size p : ℕ) (ps : List ℕ) (s s1 s' : Store)
    → s.lru ≡ p ∷ ps
    → s.cache.max_size < total s.files (p ∷ ps) + size
    → s1.lru ≡ ps
    → s1.files ≡ s.files
    → s1.inflight ≡ s.inflight
    → s1.live ≡ update s.live p false
    → s1.cache.max_size ≡ s.cache.max_size
    → Made size s1 s'
    → Made size s s'
Made-evicted size p ps s s1 s' head over lru files inflight live max m = record {
  ok = m.ok;
  idle = m.idle;
  lru =
      m.lru
      ∙ ap (λ f. make_room f s1.cache.max_size size s1.lru) files
      ∙ ap (λ n. make_room s.files n size s1.lru) max
      ∙ ap (make_room s.files s.cache.max_size size) lru
      ∙ sym (make_room_drops s.files s.cache.max_size size p ps over)
      ∙ ap (make_room s.files s.cache.max_size size) (sym head);
  room = m.room;
  frame = record {
    kept = Kept-trans s s1 s' shrunk one m.frame.kept;
    shrinks = λ q. omega (arith, m.frame.shrinks q, shrunk q);
  };
}
  where
    shrunk : (q : ℕ) → count q s1.lru ≤ count q s.lru
    shrunk q = omega (arith, ap (count q) head, ap (count q) lru)

    not_head : (q : ℕ) → count q (p ∷ ps) ≡ 0 → q ≢ p
    not_head q absent e =
        absurd (omega (arith, absent, ap (λ r. count r (p ∷ ps)) e, ==_self_one p))

    only_head : (q : ℕ) → 1 ≤ count q s.lru → count q s1.lru ≡ 0 → q ≡ p
    only_head q m n = elim (Bool-cases (q == p)) [
      | inl e ↦ eqb_eq q p e
      | inr e ↦ absurd (
          omega (
            arith,
            ap (count q) head,
            ap (count q) lru,
            one_at_other q p (λ g. eqb_ne q p e (sym g)),
          ))
    ]

    one : Kept s s1
    one = record {
      files = files;
      inflight = inflight;
      max = max;
      others = λ q absent.
          ap (λ f. f q) live
          ∙ ap (λ b. if b then false else s.live q)
              (==_ne q p (not_head q (omega (arith, absent, ap (count q) head))));
      freed = λ q m n. ap s1.live (only_head q m n) ∙ ap (λ f. f p) live ∙ updated s.live p false;
    }

pub evict_loop-Made :
    (fuel size : ℕ) (s : Store) (l : List ℕ)
    → s.lru ≡ l
    → length l ≤ fuel
    → size ≤ s.cache.max_size
    → IsConsistent s
    → IsIdle s
    → (s' : Store) × (evict_loop fuel size s ≡ returned tt s') × Made size s s'
unfolding evict_loop
evict_loop-Made zero size s (p ∷ ps) e h small ok idle = absurd (omega arith)
evict_loop-Made zero size s [] e h small ok idle =
    let room : s.cache.curr_size + size ≤ s.cache.max_size =
      omega (arith, ok.counted, ap (total s.files) e, small) in
    (s, unless_room-stops size (λ s. out_of_fuel) s room, Made-refl size s room ok idle)
evict_loop-Made (suc fuel) size s [] e h small ok idle =
    let room : s.cache.curr_size + size ≤ s.cache.max_size =
      omega (arith, ok.counted, ap (total s.files) e, small) in
    (
      s,
      unless_room-stops size (cache_evict >>= λ _. evict_loop fuel size) s room,
      Made-refl size s room ok idle,
    )
evict_loop-Made (suc fuel) size s (p ∷ ps) e h small ok idle =
    elim (Bool-cases (ltb s.cache.max_size (s.cache.curr_size + size))) [
      | inr fits ↦
          let room : s.cache.curr_size + size ≤ s.cache.max_size = ltb_ge _ _ fits in
          (
            s,
            unless_room-stops size (cache_evict >>= λ _. evict_loop fuel size) s room,
            Made-refl size s room ok idle,
          )
      | inl over ↦
          let (s1, out, ok1, idle1, lru, files, inflight, live, max) =
            cache_evict-evicted s ok idle p ps e in
          let (s', rest, m) =
            evict_loop-Made fuel size s1 ps lru (omega arith) (omega (arith, small, max)) ok1
              idle1 in
          (
            s',
            unless_room-goes size (cache_evict >>= λ _. evict_loop fuel size) s (ltb_lt _ _ over)
                  small
                ∙ ap (λ o. and_then o λ _. evict_loop fuel size) out
                ∙ rest,
            Made-evicted size p ps s s1 s' e
                (omega (arith, ltb_lt _ _ over, ok.counted, ap (total s.files) e)) lru files
                inflight live max m,
          )
    ]
