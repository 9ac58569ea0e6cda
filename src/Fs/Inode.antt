-- ===== src/Fs/Inode.antt =====
-- The inode of fs/inode.c, and the blocks that are allocated for it.
use web_server_and_user_leve.Prelude.{◌^◌, ◌%◌, ℕ, zero, suc, ◌+◌, ◌-◌, true, set}
use web_server_and_user_leve.Fs.State.{Inode, M, pure, ◌>>=◌, ◌>>◌}
use web_server_and_user_leve.Fs.Super.{Ret, value, error, alloc_block, free_block}

-- The values of `inode_type`.
abbrev pub i_none : ℕ
i_none = 0

abbrev pub i_file : ℕ
i_file = 1

abbrev pub i_dir : ℕ
i_dir = 2

abbrev pub nr_direct_blocks : ℕ
nr_direct_blocks = 10

abbrev pub nr_indirect_blocks : ℕ
nr_indirect_blocks = 2048

-- Changes of an inode by the functions that have a pointer to it.
abbrev pub with_count : Inode → ℕ → Inode
with_count node n = record node { dinode = record node.dinode { block_count = n }; dirty = true }

abbrev pub with_indirect : Inode → ℕ → Inode
with_indirect node nr = record node { dinode = record node.dinode { i_indirect = nr } }

abbrev pub with_direct : Inode → ℕ → ℕ → Inode
with_direct node i nr = record node {
  dinode = record node.dinode { i_block_nr = set node.dinode.i_block_nr i nr };
}

abbrev pub with_size : Inode → ℕ → Inode
with_size node size = record node { dinode = record node.dinode { i_size = size }; dirty = true }

-- testfs_alloc_block_for_inode: the result, and the inode.
abbrev pub count_allocated : Inode → Ret → Ret × Inode
count_allocated node (value nr) = (value nr, with_count node (node.dinode.block_count + 1))
count_allocated node (error e) = (error e, node)

unfoldable pub alloc_block_for_inode : Inode → M (Ret × Inode)
alloc_block_for_inode node = do r ← alloc_block; pure (count_allocated node r)

-- testfs_free_block_from_inode. A count below 0 is the 32 bits of the negative number.
unfoldable pub free_block_from_inode : Inode → ℕ → M Inode
free_block_from_inode node zero = pure node
free_block_from_inode node (suc nr) = do
  free_block (suc nr)
  pure (with_count node ((node.dinode.block_count + (2 ^ 32 - 1)) % 2 ^ 32))
