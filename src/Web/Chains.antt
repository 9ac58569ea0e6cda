-- ===== src/Web/Chains.antt =====
-- The hash table of webserver/server_thread.c as a whole: which files stand in its chains.
use web_server_and_user_leve.Prelude.{
  ℕ, zero, suc, ◌+◌, ◌-◌, ◌^◌, ◌≤◌, ◌<◌, ◌≡◌, refl, ◌==◌, List, [], ◌∷◌, ◌++◌, some, arith, count,
  erase, get_elem?, set, inl, inr, Bool-cases,
}
use native.Mathlib.Nat.{mod-lt}
use web_server_and_user_leve.Web.State.{Name, File}
use web_server_and_user_leve.Web.Cache.{positive_mod, slot, hash_value}

-- How often a file stands in the chains.
abbrev pub count_chains : ℕ → List (List ℕ) → ℕ
count_chains p [] = 0
count_chains p (b ∷ bs) = count p b + count_chains p bs

pub count_chains-set :
    (p : ℕ) (bs : List (List ℕ)) (i : ℕ) (old new : List ℕ)
    → get_elem? bs i ≡ some old
    → count_chains p (set bs i new) + count p old ≡ count_chains p bs + count p new
count_chains-set p [] i old new h = ground arith
count_chains-set p (b ∷ bs) zero old new h = ground arith
count_chains-set p (b ∷ bs) (suc i) old new h = omega (arith, count_chains-set p bs i old new h)

pub count_chains_member :
    (p : ℕ) (bs : List (List ℕ)) (i : ℕ) (b : List ℕ)
    → get_elem? bs i ≡ some b
    → count p b ≤ count_chains p bs
count_chains_member p [] i b h = ground arith
count_chains_member p (c ∷ bs) zero b h = ground arith
count_chains_member p (c ∷ bs) (suc i) b h = omega (arith, count_chains_member p bs i b h)

-- A file of the table stands in one of the chains.
pub chain_of :
    (p : ℕ) (bs : List (List ℕ))
    → 1 ≤ count_chains p bs
    → (i : ℕ) × (b : List ℕ) × (get_elem? bs i ≡ some b) × (1 ≤ count p b)
chain_of p [] h = absurd (omega arith)
chain_of p (b ∷ bs) h = elim (Bool-cases (count p b == 0)) [
  | inl none_here ↦
      let (i, c, e, m) = chain_of p bs (ground (arith, none_here, h)) in (suc i, c, e, m)
  | inr some_here ↦ (0, b, refl, ground (arith, some_here))
]

-- The bytes of the files of a list.
abbrev pub total : (ℕ → File) → List ℕ → ℕ
total files [] = 0
total files (p ∷ ps) = (files p).file_size + total files ps

pub total-append :
    (files : ℕ → File) (ps qs : List ℕ) → total files (ps ++ qs) ≡ total files ps + total files qs
total-append files [] qs = omega arith
total-append files (p ∷ ps) qs = omega (arith, total-append files ps qs)

pub total-erase :
    (files : ℕ → File) (p : ℕ) (ps : List ℕ)
    → 1 ≤ count p ps
    → total files (erase p ps) + (files p).file_size ≡ total files ps
unfolding erase
total-erase files p [] h = absurd (omega arith)
total-erase files p (x ∷ xs) h = ground (arith, total-erase files p xs)

-- A slot of a table with chains is one of its slots.
positive_mod_bound : (hash n : ℕ) → 1 ≤ n → positive_mod hash n < n
positive_mod_bound hash n h = ground (arith, mod-lt hash h, mod-lt (2 ^ 64 - hash) h)

pub slot_bound : (n : ℕ) (name : Name) → 1 ≤ n → slot n name < n
unfolding slot
slot_bound n name h = positive_mod_bound (hash_value name) n h
