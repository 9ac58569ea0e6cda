-- ===== src/Fs/Freeing.antt =====
-- fs/read_write.c: testfs_free_blocks.
use web_server_and_user_leve.Prelude.{◌^◌, ℕ, zero, suc, ◌+◌, ◌-◌, ◌/◌, ◌==◌, ltb, if◌then◌else◌}
use web_server_and_user_leve.Bitmap.Store.{enosys}
use web_server_and_user_leve.Fs.State.{Block, Inode, M, pure, ◌>>=◌, ◌>>◌, assert}
use web_server_and_user_leve.Fs.Blocks.{block_size, word_at, read_block}
use web_server_and_user_leve.Fs.Super.{Ret, value, error}
use web_server_and_user_leve.Fs.Data.{direct_block, as_int}
use web_server_and_user_leve.Fs.Inode.{
  nr_direct_blocks, nr_indirect_blocks, with_direct, with_indirect, with_size,
  free_block_from_inode,
}

-- The loops of testfs_free_blocks, over the direct blocks and the entries of the indirect block, from `i`
-- on for `n` rounds.
unfoldable pub free_direct_from : (n i : ℕ) → Inode → M Inode
unfolding free_block_from_inode
free_direct_from zero i node = pure node
free_direct_from (suc n) i node =
    if direct_block node i == 0 then free_direct_from n (i + 1) node else (do
      freed ← free_block_from_inode node (direct_block node i)
      free_direct_from n (i + 1) (with_direct freed i 0))

unfoldable pub free_entries_from : (n i : ℕ) → Block → Inode → M Inode
unfolding free_block_from_inode
free_entries_from zero i block node = pure node
free_entries_from (suc n) i block node =
    if word_at block i == 0 then free_entries_from n (i + 1) block node else (do
      freed ← free_block_from_inode node (word_at block i)
      free_entries_from n (i + 1) block freed)

abbrev pub min : ℕ → ℕ → ℕ
min a b = if ltb a b then a else b

-- `blocks` is the number of blocks up to the end of the file.
abbrev pub free_indirect : (blocks : ℕ) → Inode → ℕ → M Inode
free_indirect blocks node zero = pure node
free_indirect blocks node (suc nr) = do
  assert (ltb nr_direct_blocks blocks)
  block ← read_block (suc nr)
  entries ← free_entries_from (min (blocks - nr_direct_blocks) nr_indirect_blocks) 0 block node
  freed ← free_block_from_inode entries (suc nr)
  pure (with_indirect freed 0)

abbrev pub emptied : (blocks : ℕ) → Inode → Ret × Inode
emptied blocks node =
    if ltb (nr_direct_blocks + nr_indirect_blocks) blocks
    then (error enosys, node)
    else (value 0, with_size node 0)

-- A negative number ends the loops and fails the tests as 0 does.
abbrev pub not_negative : ℕ → ℕ
not_negative n = if ltb n (2 ^ 31) then n else 0

abbrev pub blocks_of : Inode → ℕ
blocks_of node = not_negative (as_int ((node.dinode.i_size + (block_size - 1)) / block_size))

unfoldable pub free_blocks : Inode → M (Ret × Inode)
unfolding free_direct_from free_entries_from read_block free_block_from_inode
free_blocks node = do
  direct ← free_direct_from (min (blocks_of node) nr_direct_blocks) 0 node
  indirect ← free_indirect (blocks_of node) direct direct.dinode.i_indirect
  pure (emptied (blocks_of node) indirect)
