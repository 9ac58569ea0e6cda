-- ===== src/Web/Destroy.antt =====
-- destroy_cache of webserver/server_thread.c.
use web_server_and_user_leve.Prelude.{
  ℕ, zero, suc, ◌+◌, ◌-◌, ◌≤◌, ◌≡◌, refl, sym, ap, leb, List, [], ◌∷◌, ◌++◌, arith, count,
  count-append, count-erase, erase, length,
}
use web_server_and_user_leve.Web.State.{File, Store, M, pure, ◌>>=◌, ◌>>◌, get, modify}
use web_server_and_user_leve.Web.Lists.{remove_lru_file}
use web_server_and_user_leve.Web.Cache.{read_file, require, free_file, bucket_at}
use web_server_and_user_leve.Web.Matches.{count_head}
use web_server_and_user_leve.Web.Chains.{count_chains, total, total-erase}

-- One node of a chain: the head of the LRU list goes, and the file of the node is freed. A negative
-- `curr_size` is not represented.
abbrev pub destroyed : ℕ → Store → Store
destroyed p s = record (free_file p s) {
  cache = record s.cache { curr_size = s.cache.curr_size - (s.files p).file_size };
  lru = (remove_lru_file s.lru).1;
}

unfoldable pub destroy_node : ℕ → M (Unit {0})
unfolding remove_lru_file
destroy_node p = do
  file ← read_file p
  s ← get
  require (leb file.file_size s.cache.curr_size)
  modify (destroyed p)

unfoldable pub destroy_chain : List ℕ → M (Unit {0})
unfolding destroy_node
destroy_chain [] = pure tt
destroy_chain (p ∷ ps) = destroy_node p >> destroy_chain ps

-- The loop over the table, from the index `i` on, for `n` rounds.
unfoldable pub destroy_from : List (List ℕ) → (n i : ℕ) → M (Unit {0})
unfolding destroy_chain
destroy_from mapping zero i = pure tt
destroy_from mapping (suc n) i = do
  b ← bucket_at mapping i
  destroy_chain b
  destroy_from mapping n (i + 1)

unfoldable pub destroy_cache : M (Unit {0})
unfolding destroy_from
destroy_cache = do s ← get; destroy_from s.cache.mapping s.cache.array_size 0

-- The files of a table, chain by chain.
abbrev pub flat : List (List ℕ) → List ℕ
flat [] = []
flat (b ∷ bs) = b ++ flat bs

pub count-flat : (p : ℕ) (bs : List (List ℕ)) → count p (flat bs) ≡ count_chains p bs
count-flat p [] = refl
count-flat p (b ∷ bs) = omega (arith, count-append p b (flat bs), count-flat p bs)

length-erase : (p : ℕ) (l : List ℕ) → 1 ≤ count p l → length (erase p l) + 1 ≡ length l
unfolding erase
length-erase p [] h = absurd (omega arith)
length-erase p (x ∷ xs) h = ground (arith, length-erase p xs)

-- Lists with the same members have the same length and the same size.
empty_of : (l : List ℕ) → ((p : ℕ) → count p l ≡ 0) → l ≡ []
empty_of [] h = refl
empty_of (x ∷ xs) h = absurd (omega (arith, h x, count_head x xs))

pub same_total :
    (files : ℕ → File) (a b : List ℕ)
    → ((p : ℕ) → count p a ≡ count p b)
    → (length a ≡ length b) × (total files a ≡ total files b)
same_total files [] b h =
    let e : b ≡ [] = empty_of b λ p. sym (h p) in (sym (ap length e), sym (ap (total files) e))
same_total files (x ∷ xs) b h =
    let m : 1 ≤ count x b = omega (arith, h x, count_head x xs) in
    let (e, f) = same_total files xs (erase x b) λ p. omega (arith, h p, count-erase p x b m) in
    (omega (arith, e, length-erase x b m), omega (arith, f, total-erase files x b m))
