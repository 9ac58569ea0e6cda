-- ===== src/Web/Unrelated.antt =====
-- Changes of webserver/server_thread.c's store that do not touch the cached files.
use web_server_and_user_leve.Prelude.{
  ℕ, ◌≤◌, ◌≡◌, ◌≢◌, refl, sym, ap, ◌∙◌, ◌==◌, ==_ne, fun_ext, Bool, true, some, List, [], ◌∷◌,
  arith, count, if◌then◌else◌, inl, inr, update, Bool-cases,
}
use web_server_and_user_leve.Web.State.{File, InFlight, Store}
use web_server_and_user_leve.Web.Lists.{find_match}
use web_server_and_user_leve.Web.Matches.{find_match-cases, OnlyOne, clash, count_head}
use web_server_and_user_leve.Web.Chains.{total}
use web_server_and_user_leve.Web.Cache.{slot}
use web_server_and_user_leve.Web.Consistent.{IsConsistent, chain_in_lru}

total-cong :
    (f g : ℕ → File) (l : List ℕ) → ((q : ℕ) → 1 ≤ count q l → f q ≡ g q) → total f l ≡ total g l
total-cong f g [] h = refl
total-cong f g (x ∷ xs) h = omega (
  arith,
  ap (λ (file : File). file.file_size) (h x (count_head x xs)),
  total-cong f g xs λ q m. h q (omega arith),
)

-- The store with other files, allocations, and files being sent.
abbrev pub with_files : Store → (ℕ → File) → (ℕ → Bool) → List InFlight → Store
with_files s files live inflight = record s { files = files; live = live; inflight = inflight }

-- The invariant is about the cached files alone.
pub with_files-IsConsistent :
    (s : Store) (files : ℕ → File) (live : ℕ → Bool) (inflight : List InFlight)
    → IsConsistent s
    → ((q : ℕ) → 1 ≤ count q s.lru → files q ≡ s.files q)
    → ((q : ℕ) → 1 ≤ count q s.lru → live q ≡ s.live q)
    → IsConsistent (with_files s files live inflight)
with_files-IsConsistent s files live inflight ok f l = record {
  nonempty = ok.nonempty;
  sized = ok.sized;
  table = ok.table;
  placed = λ i p b e m.
      ap (λ (file : File). slot s.cache.array_size file.file_name)
        (f p (chain_in_lru s ok i p b e m))
      ∙ ok.placed i p b e m;
  once = ok.once;
  names = λ p q m n e. ok.names p q m n (
      ap (λ (file : File). file.file_name) (sym (f q n))
      ∙ e
      ∙ ap (λ (file : File). file.file_name) (f p m));
  alive = λ p m. l p m ∙ ok.alive p m;
  counted = ok.counted ∙ sym (total-cong files s.files s.lru f);
  fits = ok.fits;
  small = ok.small;
}

-- A write to a number that is not in a list.
pub update-other {ℓ} :
    {A : Type ℓ} (f : ℕ → A) (p : ℕ) (a : A) (l : List ℕ)
    → count p l ≡ 0
    → (q : ℕ) → 1 ≤ count q l
    → update f p a q ≡ f q
update-other f p a l absent q m = ap (λ b. if b then a else f q) (==_ne q p other)
  where
    other : q ≢ p
    other e = absurd (omega (arith, ap (λ r. count r l) e))

pub update-update {ℓ} :
    {A : Type ℓ} (f : ℕ → A) (p : ℕ) (a b : A) → update (update f p a) p b ≡ update f p b
update-update f p a b =
    fun_ext λ q. elim (Bool-cases (q == p)) [ inl e ↦ rw e refl | inr e ↦ rw e refl ]

pub find_match-cong :
    (f g : ℕ → Bool) (l : List ℕ)
    → ((q : ℕ) → 1 ≤ count q l → f q ≡ g q)
    → find_match f l ≡ find_match g l
unfolding find_match
find_match-cong f g [] h = refl
find_match-cong f g (x ∷ xs) h =
    rw (h x (count_head x xs), find_match-cong f g xs λ q m. h q (omega arith)) refl

-- The only match is the one that a search finds.
pub find_match-only :
    (f : ℕ → Bool) (q : ℕ) (l : List ℕ)
    → 1 ≤ count q l
    → f q ≡ true
    → OnlyOne f q l
    → find_match f l ≡ some q
find_match-only f q l m is one = elim (find_match-cases f l) [
  | inl (r, e, n, is') ↦ e ∙ ap some (one r n is')
  | inr (e, absent) ↦ clash (f q) (absent q m) is
]
