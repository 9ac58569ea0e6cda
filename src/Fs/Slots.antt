-- ===== src/Fs/Slots.antt =====
-- The blocks of a file of fs/: the slots 0 to 2057 are its logical blocks, and slot 2058 is its indirect
-- block. A slot with 0 has no block.
use web_server_and_user_leve.Prelude.{
  ℕ, zero, suc, ◌+◌, ◌-◌, ◌≤◌, ◌<◌, ◌≡◌, ◌≢◌, refl, sym, ap, ◌∙◌, ◌==◌, ==_self, eqb_eq, ltb, Bool,
  true, false, Bool-cases, inl, inr, arith, length, if◌then◌else◌, update, subst,
}
use web_server_and_user_leve.Bitmap.Marks.{bit_at}
use web_server_and_user_leve.Fs.State.{FileSystem, Inode}
use web_server_and_user_leve.Fs.Blocks.{word_at}
use web_server_and_user_leve.Fs.Data.{direct_block}
use web_server_and_user_leve.Fs.Space.{IsLaidOut, Took}

abbrev pub entry_of : FileSystem → ℕ → ℕ → ℕ
entry_of s zero i = 0
entry_of s (suc nr) i = word_at (s.blocks (suc nr)) i

unfoldable pub block_of : Inode → FileSystem → ℕ → ℕ
unfolding word_at
block_of node s k =
    if ltb k 10
    then direct_block node k
    else if ltb k 2058
    then entry_of s node.dinode.i_indirect (k - 10)
    else node.dinode.i_indirect

-- A block of the data area that the free map has in use.
pub record IsOwned (s : FileSystem) (p : ℕ) : Type 0 where
  pub low : 146 ≤ p
  pub high : p < 146 + 1048576
  pub used : bit_at s.block_freemap.v (p - 146) ≡ true

-- Slots with blocks in use, and no block in two of them.
pub record IsApart (s : FileSystem) (m : ℕ → ℕ) : Type 0 where
  pub owned : (k : ℕ) → k ≤ 2058 → 1 ≤ m k → IsOwned s (m k)
  pub apart : (j k : ℕ) → j ≤ 2058 → k ≤ 2058 → 1 ≤ m j → m j ≡ m k → j ≡ k

-- A file whose blocks are in use and on the device.
pub record IsSound (node : Inode) (s : FileSystem) : Type 0 where
  pub laid_out : IsLaidOut s
  pub ten : length node.dinode.i_block_nr ≡ 10
  pub slots : IsApart s (block_of node s)
  pub present : (k : ℕ) → k ≤ 2058 → 1 ≤ block_of node s k → block_of node s k < s.dev_length

pub Took-IsOwned : (index p : ℕ) (s s' : FileSystem) → Took index s s' → IsOwned s p → IsOwned s' p
Took-IsOwned index p s s' t o = record {
  low = o.low;
  high = o.high;
  used = t.bits (p - 146) ∙ keep_true (p - 146 == index) _ o.used;
}
  where
    keep_true : (c b : Bool) → b ≡ true → (if c then true else b) ≡ true
    keep_true true b h = refl
    keep_true false b h = h

pub Took-new : (index : ℕ) (s s' : FileSystem) → Took index s s' → IsOwned s' (146 + index)
Took-new index s s' t = record {
  low = omega arith;
  high = omega (arith, t.in_range);
  used =
      ap (bit_at s'.block_freemap.v) (minus index)
      ∙ t.bits index
      ∙ ap (λ c. if c then true else bit_at s.block_freemap.v index) (==_self index);
}
  where
    minus : (i : ℕ) → 146 + i - 146 ≡ i
    minus i = omega arith

-- The block that has been taken is none of those in use.
pub Took-other : (index p : ℕ) (s s' : FileSystem) → Took index s s' → IsOwned s p → p ≢ 146 + index
Took-other index p s s' t o e =
    absurd (
      clash_bool (sym o.used ∙ ap (bit_at s.block_freemap.v) (minus p index o.low e) ∙ t.was_clear))
  where
    clash_bool : true ≢ false
    clash_bool e = cc

    minus : (p i : ℕ) → 146 ≤ p → p ≡ 146 + i → p - 146 ≡ i
    minus p i h e = omega arith

-- One slot more, with the block that has been taken.
pub update-IsApart :
    (k index : ℕ) (s s' : FileSystem) (m : ℕ → ℕ)
    → Took index s s'
    → IsApart s m
    → IsApart s' (update m k (146 + index))
update-IsApart k index s s' m t a = record {
  owned = λ j h used. elim (Bool-cases (j == k)) [
    | inl e ↦ subst (IsOwned s') (sym (at_new j e)) (Took-new index s s' t)
    | inr e ↦
        subst (IsOwned s') (sym (at_old j e))
          (Took-IsOwned index (m j) s s' t (a.owned j h (omega (arith, used, at_old j e))))
  ];
  apart = λ i j hi hj used e. elim (Bool-cases (i == k)) [
    | inl ei ↦ elim (Bool-cases (j == k)) [
      | inl ej ↦ eqb_eq i k ei ∙ sym (eqb_eq j k ej)
      | inr ej ↦ absurd (
          Took-other index (m j) s s' t (a.owned j hj (omega (arith, e, at_new i ei, at_old j ej)))
            (sym (at_old j ej) ∙ sym e ∙ at_new i ei))
    ]
    | inr ei ↦ elim (Bool-cases (j == k)) [
      | inl ej ↦ absurd (
          Took-other index (m i) s s' t (a.owned i hi (omega (arith, used, at_old i ei)))
            (sym (at_old i ei) ∙ e ∙ at_new j ej))
      | inr ej ↦
          a.apart i j hi hj (omega (arith, used, at_old i ei)) (sym (at_old i ei) ∙ e ∙ at_old j ej)
    ]
  ];
}
  where
    at_new : (j : ℕ) → (j == k) ≡ true → update m k (146 + index) j ≡ 146 + index
    at_new j e = ap (λ c. if c then 146 + index else m j) e

    at_old : (j : ℕ) → (j == k) ≡ false → update m k (146 + index) j ≡ m j
    at_old j e = ap (λ c. if c then 146 + index else m j) e

pub cong-IsApart :
    (s : FileSystem) (m m' : ℕ → ℕ) → ((k : ℕ) → k ≤ 2058 → m' k ≡ m k) → IsApart s m → IsApart s m'
cong-IsApart s m m' h a = record {
  owned = λ k small used.
      subst (IsOwned s) (sym (h k small)) (a.owned k small (omega (arith, used, h k small)));
  apart = λ j k hj hk used e.
      a.apart j k hj hk (omega (arith, used, h j hj)) (sym (h j hj) ∙ e ∙ h k hk);
}
