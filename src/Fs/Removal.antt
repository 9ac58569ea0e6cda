-- ===== src/Fs/Removal.antt =====
-- A defect of fs/: testfs_write_data of no bytes allocates a block that testfs_free_blocks does not find.
use web_server_and_user_leve.Prelude.{
  ℕ, ◌+◌, ◌-◌, ◌*◌, ◌/◌, ◌%◌, ◌^◌, ◌<◌, ◌≡◌, ◌⊎◌, sym, ap, ◌∙◌, ◌==◌, ==_ne, ltb-true, ltb-false,
  true, inl, inr, arith, [], if◌then◌else◌,
}
use web_server_and_user_leve.Bitmap.Store.{enosys, enospc}
use web_server_and_user_leve.Fs.State.{
  FileSystem, Inode, Outcome, returned, fails, and_then, M, pure, ◌>>=◌, ◌>>◌,
}
use web_server_and_user_leve.Fs.Blocks.{zero_block, stored}
use web_server_and_user_leve.Fs.Super.{Ret, value, error, put_inode_freemap}
use web_server_and_user_leve.Fs.Inode.{with_size, alloc_block_for_inode}
use web_server_and_user_leve.Fs.Data.{
  grown, copy_in, write_into, write_data, allocate_block, allocate_direct, allocate_indirect,
  place_direct, unless_there,
}
use web_server_and_user_leve.Fs.Freeing.{
  not_negative, min, emptied, free_indirect, free_direct_from, free_blocks,
}
use web_server_and_user_leve.Fs.Table.{
  remove_emptied, zero_dinode, change_inode, sync_inode, put_inode,
}
use web_server_and_user_leve.Fs.Slots.{IsSound, block_of}
use web_server_and_user_leve.Fs.Logical.{content, direct_slot}
use web_server_and_user_leve.Fs.Placing.{placed, alloc_block_for_inode-cases}
use web_server_and_user_leve.Fs.Allocating.{allocate_block-read}

-- testfs_remove_inode of a file behind testfs_write_data, without the look-up of the inode.
abbrev pub then_remove : Ret × Inode → M (Unit {0})
then_remove (r, node) = free_blocks node >>= remove_emptied

abbrev removal : Inode → M (Unit {0})
removal node = do
  change_inode (record node { dinode = zero_dinode; dirty = true })
  put_inode_freemap node.i_nr
  sync_inode node.i_nr
  put_inode node.i_nr

-- Of a file with no size and no indirect block, testfs_free_blocks frees nothing.
pub free_blocks-empty :
    (node : Inode) (s : FileSystem)
    → node.dinode.i_size ≡ 0
    → node.dinode.i_indirect ≡ 0
    → free_blocks node s ≡ returned (value 0, with_size node 0) s
unfolding free_blocks free_direct_from
free_blocks-empty node s size none_there =
    ap freeing (ap not_negative (no_blocks node.dinode.i_size size))
    ∙ ap (λ nr. and_then (free_indirect 0 node nr s) λ indirect. pure (emptied 0 indirect))
        none_there
  where
    freeing : ℕ → Outcome (Ret × Inode)
    freeing blocks = and_then (free_direct_from (min blocks 10) 0 node s) λ (direct : Inode).
        free_indirect blocks direct direct.dinode.i_indirect >>= λ indirect.
        pure (emptied blocks indirect)

    no_blocks : (n : ℕ) → n ≡ 0 → (n + 8191) / 8192 % 2 ^ 32 ≡ 0
    no_blocks n e = omega (arith, e)

-- An empty file without blocks, into which testfs_write_data writes no bytes at a start within its direct
-- blocks: testfs_remove_inode then fails its assert on the number of blocks, unless there was no space.
pub write-then_remove :
    (node : Inode) (s : FileSystem) (start : ℕ)
    → IsSound node s
    → start < 10 * 8192
    → block_of node s (start / 8192) ≡ 0
    → node.dinode.i_size ≡ 0
    → node.dinode.i_indirect ≡ 0
    → ((write_data node [] start >>= then_remove) s ≡ fails)
      ⊎ (write_data node [] start s ≡ returned (error enospc, node) s)
unfolding write_data allocate_direct copy_in content
write-then_remove node s start ok small missing size none_there =
    let k : ℕ = start / 8192 in
    let low : k < 10 = omega (arith, small) in
    let allocating : write_data node [] start s
        ≡ and_then (allocate_direct node k zero_block s) (write_into [] start) =
      ap
        (λ c.
          (if c then pure (error enosys, node) else allocate_block node k >>= write_into [] start)
            s)
        (ltb-false 8192 (start % 8192 + 0) (omega arith))
      ∙ ap (λ o. and_then o (write_into [] start))
          (allocate_block-read node s ok k (omega (arith, low))
            ∙ ap (λ q. unless_there node k (value q, content s q) s) missing
            ∙ ap
                (λ c.
                  (if c
                      then allocate_direct node k zero_block
                      else allocate_indirect node (k - 10) zero_block)
                    s)
                (ltb-true k 10 low)) in
    let asserted : write_data node [] start s
        ≡ and_then (and_then (alloc_block_for_inode node s) λ r. pure (place_direct k zero_block r))
            (write_into [] start) =
      allocating
      ∙ ap
          (λ c.
            and_then
              (and_then (if c then returned tt s else fails)
                λ _. alloc_block_for_inode node >>= λ r. pure (place_direct k zero_block r))
              (write_into [] start))
          (ap (λ n. n == 0) (sym (direct_slot node s k low) ∙ missing)) in
    elim (alloc_block_for_inode-cases node s ok.laid_out) [
      | inr e ↦ inr (
          asserted
          ∙ ap
              (λ o.
                and_then (and_then o λ r. pure (place_direct k zero_block r)) (write_into [] start))
              e)
      | inl (index, s1, e, t) ↦
          let node1 : Inode = grown (placed node s ok k low (146 + index)) start 0 in
          let s2 : FileSystem = stored (146 + index) (copy_in zero_block (start % 8192) []) s1 in
          inl (
            ap (λ o. and_then o then_remove)
              (asserted
                ∙ ap
                    (λ o.
                      and_then (and_then o λ r. pure (place_direct k zero_block r))
                        (write_into [] start))
                    e)
            ∙ ap (λ o. and_then o remove_emptied) (free_blocks-empty node1 s2 size none_there)
            ∙ ap
                (λ c.
                  and_then (if c then returned tt s2 else fails) λ _. removal (with_size node1 0))
                (==_ne (node.dinode.block_count + 1) 0 (omega arith)))
    ]
