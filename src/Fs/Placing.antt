-- ===== src/Fs/Placing.antt =====
-- A block that testfs_allocate_block of fs/read_write.c has given to a slot of a sound file.
use web_server_and_user_leve.Prelude.{
  ℕ, zero, suc, ◌+◌, ◌-◌, ◌≤◌, ◌<◌, ◌≡◌, ◌≢◌, ◌⊎◌, refl, sym, ap, ◌∙◌, ◌==◌, ==_ne, ltb, ltb_lt,
  ltb_ge, Bool, true, false, Bool-cases, Option, some, inl, inr, arith, length, if◌then◌else◌,
  update, get_elem?, get_elem?-set, length-set, word_exists,
}
use web_server_and_user_leve.Bitmap.Store.{enospc}
use web_server_and_user_leve.Fs.State.{FileSystem, Inode, returned, and_then, pure}
use web_server_and_user_leve.Fs.Blocks.{word_at}
use web_server_and_user_leve.Fs.Super.{value, error, byte_or_zero}
use web_server_and_user_leve.Fs.Inode.{
  with_direct, with_count, alloc_block_for_inode, count_allocated,
}
use web_server_and_user_leve.Fs.Data.{direct_block}
use web_server_and_user_leve.Fs.Space.{IsLaidOut, Took, alloc_block-cases}
use web_server_and_user_leve.Fs.Slots.{
  entry_of, block_of, IsOwned, IsApart, IsSound, Took-IsOwned, Took-new, Took-other, update-IsApart,
  cong-IsApart,
}
use web_server_and_user_leve.Fs.Logical.{direct_slot, entry_slot, indirect_slot, indirect-IsOwned}

-- Slot `k` has the block `p`, which was not in use; the other slots are as before, and so are all blocks
-- in use but the indirect one.
pub record Placed (k p : ℕ) (node : Inode) (s : FileSystem) (node' : Inode) (s' : FileSystem)
    : Type 0 where
  pub laid_out : IsLaidOut s'
  pub ten : length node'.dinode.i_block_nr ≡ 10
  pub slots : IsApart s' (block_of node' s')
  pub at : (j : ℕ) → j < 2058 → block_of node' s' j ≡ update (block_of node s) k p j
  pub owned : IsOwned s' p
  pub fresh : (q : ℕ) → IsOwned s q → q ≢ p
  pub present :
      (j : ℕ) → j ≤ 2058 → j ≢ k → 1 ≤ block_of node' s' j → block_of node' s' j < s'.dev_length
  pub kept : (q : ℕ) → IsOwned s q → q ≢ node.dinode.i_indirect → s'.blocks q ≡ s.blocks q
  pub in_use : (q : ℕ) → IsOwned s q → IsOwned s' q
  pub size : node'.dinode.i_size ≡ node.dinode.i_size

-- Without space: slots, blocks in use and their contents are as before.
pub record Unplaced (node : Inode) (s : FileSystem) (node' : Inode) (s' : FileSystem) : Type 0 where
  pub sound : IsSound node' s'
  pub same : (j : ℕ) → j ≤ 2058 → block_of node' s' j ≡ block_of node s j
  pub kept : (q : ℕ) → IsOwned s q → s'.blocks q ≡ s.blocks q
  pub in_use : (q : ℕ) → IsOwned s q → IsOwned s' q
  pub size : node'.dinode.i_size ≡ node.dinode.i_size

pub entry-same :
    (s s' : FileSystem) (nr i : ℕ)
    → (1 ≤ nr → s'.blocks nr ≡ s.blocks nr)
    → entry_of s' nr i ≡ entry_of s nr i
entry-same s s' zero i h = refl
entry-same s s' (suc nr) i h = ap (λ b. word_at b i) (h (omega arith))

pub update-at : (m : ℕ → ℕ) (k p j : ℕ) → j ≢ k → update m k p j ≡ m j
update-at m k p j h = ap (λ c. if c then p else m j) (==_ne j k h)

-- The slots of a file, each of its kind.
pub by_kind :
    (node : Inode) (s : FileSystem) (m : ℕ → ℕ)
    → ((j : ℕ) → j < 10 → direct_block node j ≡ m j)
    → ((j : ℕ) → 10 ≤ j → j < 2058 → entry_of s node.dinode.i_indirect (j - 10) ≡ m j)
    → node.dinode.i_indirect ≡ m 2058
    → (j : ℕ) → j ≤ 2058
    → block_of node s j ≡ m j
by_kind node s m direct entry indirect j h = elim (Bool-cases (ltb j 10)) [
  | inl low ↦ direct_slot node s j (ltb_lt _ _ low) ∙ direct j (ltb_lt _ _ low)
  | inr high ↦ elim (Bool-cases (ltb j 2058)) [
    | inl mid ↦
        entry_slot node s j (ltb_ge _ _ high) (ltb_lt _ _ mid)
        ∙ entry j (ltb_ge _ _ high) (ltb_lt _ _ mid)
    | inr last ↦
        indirect_slot node s j (ltb_ge _ _ last) ∙ indirect ∙ ap m (at_end j (ltb_ge _ _ last) h)
  ]
]
  where
    at_end : (j : ℕ) → 2058 ≤ j → j ≤ 2058 → 2058 ≡ j
    at_end j low high = omega (arith, low, high)

pub alloc_block_for_inode-cases :
    (node : Inode) (s : FileSystem)
    → IsLaidOut s
    → ((index : ℕ) × (s' : FileSystem) × (alloc_block_for_inode node s
          ≡ returned (value (146 + index), with_count node (node.dinode.block_count + 1)) s')
        × Took index s s')
      ⊎ (alloc_block_for_inode node s ≡ returned (error enospc, node) s)
unfolding alloc_block_for_inode
alloc_block_for_inode-cases node s ok = elim (alloc_block-cases s ok) [
  | inl (index, s', e, t) ↦
      inl (index, s', ap (λ o. and_then o λ r. pure (count_allocated node r)) e, t)
  | inr e ↦ inr (ap (λ o. and_then o λ r. pure (count_allocated node r)) e)
]

-- A direct block.
module _ (node : Inode) (s : FileSystem) (ok : IsSound node s) (k : ℕ) (small : k < 10) where
  abbrev pub placed : ℕ → Inode
  placed p = with_direct (with_count node (node.dinode.block_count + 1)) k p

  direct-set : (p j : ℕ) → direct_block (placed p) j ≡ (if j == k then p else direct_block node j)
  direct-set p j =
      let (x, e) = word_exists node.dinode.i_block_nr k (omega (arith, small, ok.ten)) in
      ap byte_or_zero (get_elem?-set node.dinode.i_block_nr k j x p e)
      ∙ commute (j == k) p (get_elem? node.dinode.i_block_nr j)
    where
      commute :
          (c : Bool) (p : ℕ) (o : Option ℕ)
          → byte_or_zero (if c then some p else o) ≡ (if c then p else byte_or_zero o)
      commute true p o = refl
      commute false p o = refl

  direct-slots :
      (index : ℕ) (s' : FileSystem)
      → Took index s s'
      → (j : ℕ) → j ≤ 2058
      → block_of (placed (146 + index)) s' j ≡ update (block_of node s) k (146 + index) j
  direct-slots index s' t =
      by_kind (placed (146 + index)) s' (update (block_of node s) k (146 + index))
        (λ j h.
          direct-set (146 + index) j
          ∙ ap (λ n. if j == k then 146 + index else n) (sym (direct_slot node s j h)))
        (λ j h h'.
          entry-same s s' node.dinode.i_indirect (j - 10)
            (λ m. t.kept.blocks node.dinode.i_indirect (indirect-IsOwned node s ok m).low)
          ∙ sym (entry_slot node s j h h')
          ∙ sym (
              update-at (block_of node s) k (146 + index) j
                (λ e. absurd (omega (arith, e, small, h)))))
        (sym (indirect_slot node s 2058 (omega arith))
          ∙ sym (
              update-at (block_of node s) k (146 + index) 2058
                (λ e. absurd (omega (arith, e, small)))))

  pub direct-Placed :
      (index : ℕ) (s' : FileSystem)
      → Took index s s'
      → Placed k (146 + index) node s (placed (146 + index)) s'
  direct-Placed index s' t = record {
    laid_out = t.kept.laid_out;
    ten = length-set node.dinode.i_block_nr k (146 + index) ∙ ok.ten;
    slots =
        cong-IsApart s' (update (block_of node s) k (146 + index)) _ (direct-slots index s' t)
          (update-IsApart k index s s' (block_of node s) t ok.slots);
    at = λ j h. direct-slots index s' t j (omega (arith, h));
    owned = Took-new index s s' t;
    fresh = λ q o. Took-other index q s s' t o;
    present = λ j h n m.
        let e = direct-slots index s' t j h ∙ update-at (block_of node s) k (146 + index) j n in
        omega (arith, e, m, ok.present j h (omega (arith, e, m)), t.kept.longer);
    kept = λ q o n. t.kept.blocks q o.low;
    in_use = λ q o. Took-IsOwned index q s s' t o;
    size = refl;
  }

-- Nothing has changed.
pub same-Unplaced : (node : Inode) (s : FileSystem) → IsSound node s → Unplaced node s node s
same-Unplaced node s ok = record {
  sound = ok;
  same = λ j h. refl;
  kept = λ q o. refl;
  in_use = λ q o. o;
  size = refl;
}
