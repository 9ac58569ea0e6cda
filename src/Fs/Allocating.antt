-- ===== src/Fs/Allocating.antt =====
-- testfs_allocate_block of fs/read_write.c on a sound file.
use web_server_and_user_leve.Prelude.{
  ◌%◌, ℕ, zero, suc, ◌+◌, ◌-◌, ◌^◌, ◌≤◌, ◌<◌, ◌≡◌, refl, sym, ap, ◌∙◌, ◌==◌, ==_self, ltb,
  leb-false, ltb-true, ltb_lt, ltb_ge, Bool, true, false, Bool-cases, inl, inr, arith,
  if◌then◌else◌, subst,
}
use web_server_and_user_leve.Bitmap.Store.{enosys, enospc}
use web_server_and_user_leve.Bitmap.Marks.{bit_at}
use web_server_and_user_leve.Fs.State.{
  Block, FileSystem, Inode, Outcome, returned, fails, and_then, pure, assert, ◌>>=◌, ◌>>◌,
}
use web_server_and_user_leve.Fs.Blocks.{zero_block, word_at, put_word, stored}
use web_server_and_user_leve.Fs.Super.{value, error, free_block}
use web_server_and_user_leve.Fs.Inode.{with_indirect, with_count, alloc_block_for_inode}
use web_server_and_user_leve.Fs.Data.{Allocated, place_direct, allocate_direct}
use web_server_and_user_leve.Fs.Words.{word_at-zero}
use web_server_and_user_leve.Fs.Slots.{entry_of, block_of, IsSound}
use web_server_and_user_leve.Fs.Logical.{direct_slot, entry_slot, content, indirect_present}
use web_server_and_user_leve.Fs.Inode.{free_block_from_inode}
use web_server_and_user_leve.Fs.Data.{
  testfs_read_block, unless_there, allocate_missing, allocate_block, allocate_indirect,
  with_indirect_block, with_new_indirect, allocate_entry, place_entry,
}
use web_server_and_user_leve.Fs.Space.{free_block-Freed}
use web_server_and_user_leve.Fs.Logical.{as_int-small, testfs_read_block-slot, read_block-present}
use web_server_and_user_leve.Fs.Placing.{
  Placed, Unplaced, direct-Placed, same-Unplaced, alloc_block_for_inode-cases, placed,
}
use web_server_and_user_leve.Fs.Entries.{
  entered, entered-Placed, more, extended, extending, extending-Placed, withdrawn,
  withdrawn-Unplaced,
}

-- The slot gets a block, or there is no space.
pub data Outcomes (k : ℕ) (node : Inode) (s : FileSystem) (r : Outcome Allocated) : Type 0 where
  gets :
      (p : ℕ) (node' : Inode) (s' : FileSystem)
      → r ≡ returned (value p, node', zero_block) s'
      → Placed k p node s node' s'
      → Outcomes k node s r
  gets_none :
      (node' : Inode) (s' : FileSystem)
      → r ≡ returned (error enospc, node', zero_block) s'
      → Unplaced node s node' s'
      → Outcomes k node s r

free_block_from_inode-pos :
    (n : Inode) (nr : ℕ) (t t' : FileSystem)
    → 1 ≤ nr
    → free_block nr t ≡ returned tt t'
    → free_block_from_inode n nr t
      ≡ returned (with_count n ((n.dinode.block_count + (2 ^ 32 - 1)) % 2 ^ 32)) t'
unfolding free_block_from_inode
free_block_from_inode-pos n zero t t' h e = absurd (omega arith)
free_block_from_inode-pos n (suc nr) t t' h e =
    ap (λ o. and_then o λ _. pure (with_count n ((n.dinode.block_count + (2 ^ 32 - 1)) % 2 ^ 32))) e

-- The indirect block is given back.
give_back :
    (n : Inode) (i i0 : ℕ) (t t' : FileSystem)
    → free_block (146 + i0) t ≡ returned tt t'
    → place_entry true i zero_block zero_block (error enospc, with_indirect n (146 + i0)) t
      ≡ returned
          (
            error enospc,
            with_indirect
                (with_count
                  (with_indirect n (146 + i0))
                  ((n.dinode.block_count + (2 ^ 32 - 1)) % 2 ^ 32))
                0,
            zero_block,
          )
          t'
give_back n i i0 t t' h =
    ap (λ o. and_then o λ (f : Inode). pure (error enospc, with_indirect f 0, zero_block))
      (free_block_from_inode-pos (with_indirect n (146 + i0)) (146 + i0) t t' (omega arith) h)

module _ (node : Inode) (s : FileSystem) (ok : IsSound node s) (k : ℕ) (small : k < 2058)
    (missing : block_of node s k ≡ 0) where
  direct-Outcomes : k < 10 → Outcomes k node s (allocate_direct node k zero_block s)
  unfolding allocate_direct
  direct-Outcomes low = elim (alloc_block_for_inode-cases node s ok.laid_out) [
    | inl (index, s', e, t) ↦
        gets (146 + index) (placed node s ok k low (146 + index)) s'
          (asserted ∙ ap (λ o. and_then o λ r. pure (place_direct k zero_block r)) e)
          (direct-Placed node s ok k low index s' t)
    | inr e ↦
        gets_none node s (asserted ∙ ap (λ o. and_then o λ r. pure (place_direct k zero_block r)) e)
          (same-Unplaced node s ok)
  ]
    where
      asserted :
          allocate_direct node k zero_block s
          ≡ and_then (alloc_block_for_inode node s) λ r. pure (place_direct k zero_block r)
      asserted =
          ap
            (λ c.
              and_then (if c then returned tt s else fails)
                λ _. alloc_block_for_inode node >>= λ r. pure (place_direct k zero_block r))
            (ap (λ n. n == 0) (sym (direct_slot node s k low) ∙ missing))

  module _ (high : 10 ≤ k) where
    abbrev i : ℕ
    i = k - 10

    -- The entry of an indirect block with the content `b`, in the state `t`.
    asserted :
        (new : Bool) (n : Inode) (b : Block) (t : FileSystem)
        → word_at b i ≡ 0
        → allocate_entry new n i zero_block b t
          ≡ and_then (alloc_block_for_inode n t) (place_entry new i zero_block b)
    unfolding allocate_entry
    asserted new n b t e =
        ap
          (λ c.
            and_then (if c then returned tt t else fails)
              λ _. alloc_block_for_inode n >>= place_entry new i zero_block b)
          (ap (λ w. w == 0) e)

    there-Outcomes :
        (nr : ℕ)
        → node.dinode.i_indirect ≡ suc nr
        → Outcomes k node s (with_indirect_block node i zero_block (suc nr) s)
    there-Outcomes nr e =
        let there : 1 ≤ node.dinode.i_indirect = omega (arith, e) in
        let read : with_indirect_block node i zero_block (suc nr) s
            ≡ and_then (alloc_block_for_inode node s)
                (place_entry false i zero_block (s.blocks (suc nr))) =
          ap (λ o. and_then o (allocate_entry false node i zero_block))
            (read_block-present (suc nr) s (omega (arith, e, indirect_present node s ok there)))
          ∙ asserted false node (s.blocks (suc nr)) s
              (ap (λ n. entry_of s n i) (sym e) ∙ sym (entry_slot node s k high small) ∙ missing) in
        elim (alloc_block_for_inode-cases node s ok.laid_out) [
          | inl (index, s', g, t) ↦
              gets (146 + index) (more node) (entered node s ok k high small index s' t there)
                (read
                  ∙ ap (λ o. and_then o (place_entry false i zero_block (s.blocks (suc nr)))) g
                  ∙ ap
                      (λ n.
                        returned (value (146 + index), more node, zero_block)
                          (stored node.dinode.i_indirect (put_word (s.blocks n) i (146 + index))
                            s'))
                      (sym e))
                (entered-Placed node s ok k high small index s' t there)
          | inr g ↦
              gets_none node s
                (read ∙ ap (λ o. and_then o (place_entry false i zero_block (s.blocks (suc nr)))) g)
                (same-Unplaced node s ok)
        ]

    new-Outcomes :
        node.dinode.i_indirect ≡ 0 → Outcomes k node s (with_indirect_block node i zero_block 0 s)
    new-Outcomes none_there = elim (alloc_block_for_inode-cases node s ok.laid_out) [
      | inr e ↦
          gets_none node s (ap (λ o. and_then o (with_new_indirect i zero_block)) e)
            (same-Unplaced node s ok)
      | inl (i0, s1, e, t0) ↦
          let n1 : Inode = with_indirect (more node) (146 + i0) in
          let first : with_indirect_block node i zero_block 0 s
              ≡ and_then (alloc_block_for_inode n1 s1) (place_entry true i zero_block zero_block) =
            ap (λ o. and_then o (with_new_indirect i zero_block)) e
            ∙ asserted true n1 zero_block s1 (word_at-zero i) in
          elim (alloc_block_for_inode-cases n1 s1 t0.kept.laid_out) [
            | inl (i1, s2, g, t1) ↦
                gets (146 + i1) (extended node s ok k high small i0 s1 t0 none_there i1 s2 t1)
                  (extending node s ok k high small i0 s1 t0 none_there i1 s2 t1)
                  (first ∙ ap (λ o. and_then o (place_entry true i zero_block zero_block)) g)
                  (extending-Placed node s ok k high small i0 s1 t0 none_there i1 s2 t1)
            | inr g ↦
                let (s2, h, f) =
                  free_block-Freed s1 i0 t0.kept.laid_out t0.in_range
                    (t0.bits i0
                      ∙ ap (λ c. if c then true else bit_at s.block_freemap.v i0) (==_self i0))
                    t0.used in
                gets_none
                  (withdrawn node s ok k high small i0 s1 t0 none_there s2 f
                    ((node.dinode.block_count + 1 + (2 ^ 32 - 1)) % 2 ^ 32))
                  s2
                  (first
                    ∙ ap (λ o. and_then o (place_entry true i zero_block zero_block)) g
                    ∙ give_back (more node) i i0 s1 s2 h)
                  (withdrawn-Unplaced node s ok k high small i0 s1 t0 none_there s2 f
                    ((node.dinode.block_count + 1 + (2 ^ 32 - 1)) % 2 ^ 32))
          ]
    ]

  pub allocate_missing-Outcomes : Outcomes k node s (allocate_missing node k zero_block s)
  unfolding allocate_indirect
  allocate_missing-Outcomes = elim (Bool-cases (ltb k 10)) [
    | inl low ↦
        subst
          (λ c. Outcomes k node s (
            (if c
                then allocate_direct node k zero_block
                else allocate_indirect node (k - 10) zero_block)
              s))
          (sym low) (direct-Outcomes (ltb_lt _ _ low))
    | inr high ↦
        subst
          (λ c. Outcomes k node s (
            (if c
                then allocate_direct node k zero_block
                else allocate_indirect node (k - 10) zero_block)
              s))
          (sym high)
          (subst
            (λ c. Outcomes k node s (
              (if c
                  then pure (error enosys, node, zero_block)
                  else with_indirect_block node (k - 10) zero_block node.dinode.i_indirect)
                s))
            (sym (leb-false 2048 (k - 10) (omega (arith, small))))
            (by_indirect (ltb_ge _ _ high) node.dinode.i_indirect refl))
  ]
    where
      by_indirect :
          (high : 10 ≤ k) (nr : ℕ)
          → node.dinode.i_indirect ≡ nr
          → Outcomes k node s (with_indirect_block node (k - 10) zero_block nr s)
      by_indirect high zero e = new-Outcomes high e
      by_indirect high (suc nr) e = there-Outcomes high nr e

-- testfs_allocate_block is the read of the slot, and an allocation where that finds no block.
pub allocate_block-read :
    (node : Inode) (s : FileSystem)
    → IsSound node s
    → (k : ℕ) → k < 2058
    → allocate_block node k s
      ≡ unless_there node k (value (block_of node s k), content s (block_of node s k)) s
unfolding allocate_block
allocate_block-read node s ok k h =
    ap (λ n. (assert (ltb n (2 ^ 31)) >> (testfs_read_block node n >>= unless_there node n)) s)
      (as_int-small k h)
    ∙ ap
        (λ c.
          and_then (if c then returned tt s else fails)
            λ _. testfs_read_block node k >>= unless_there node k)
        (ltb-true k (2 ^ 31) (omega (arith, h)))
    ∙ ap (λ o. and_then o (unless_there node k)) (testfs_read_block-slot node s ok k h)

pub allocate_block-there :
    (node : Inode) (s : FileSystem)
    → IsSound node s
    → (k p : ℕ) → k < 2058
    → block_of node s k ≡ p
    → 1 ≤ p
    → allocate_block node k s ≡ returned (value p, node, s.blocks p) s
unfolding content
allocate_block-there node s ok k zero h e m = absurd (omega arith)
allocate_block-there node s ok k (suc p) h e m =
    allocate_block-read node s ok k h ∙ ap (λ q. unless_there node k (value q, content s q) s) e

pub allocate_block-Outcomes :
    (node : Inode) (s : FileSystem)
    → IsSound node s
    → (k : ℕ) → k < 2058
    → block_of node s k ≡ 0
    → Outcomes k node s (allocate_block node k s)
unfolding content
allocate_block-Outcomes node s ok k h e =
    subst (Outcomes k node s)
      (sym (
        allocate_block-read node s ok k h
        ∙ ap (λ q. unless_there node k (value q, content s q) s) e))
      (allocate_missing-Outcomes node s ok k h e)
