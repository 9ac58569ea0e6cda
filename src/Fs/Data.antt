-- ===== src/Fs/Data.antt =====
-- fs/read_write.c: the data of a file, in its direct blocks and those of its indirect block.
use web_server_and_user_leve.Prelude.{
  ℕ, zero, suc, ◌+◌, ◌-◌, ◌/◌, ◌%◌, ◌^◌, ◌==◌, ltb, leb, Bool, true, false, Option, none, some,
  List, [], ◌∷◌, if◌then◌else◌, get_elem?, length,
}
use web_server_and_user_leve.Bitmap.Store.{Error, enosys}
use web_server_and_user_leve.Fs.State.{Block, Inode, M, pure, ◌>>=◌, ◌>>◌, assert, require}
use web_server_and_user_leve.Fs.Blocks.{
  block_size, zero_block, word_at, put_word, read_block, write_block,
}
use web_server_and_user_leve.Fs.Super.{Ret, value, error, byte_or_zero}
use web_server_and_user_leve.Fs.Inode.{
  nr_direct_blocks, nr_indirect_blocks, with_direct, with_indirect, with_size,
  alloc_block_for_inode, free_block_from_inode,
}

-- Behind the search for the physical block: its content, or zeros for a block that is not allocated. A
-- negative number of a block is not represented.
unfoldable pub read_physical : ℕ → M (Ret × Block)
unfolding read_block
read_physical zero = pure (value 0, zero_block)
read_physical (suc nr) = do
  require (ltb nr (2 ^ 31 - 1))
  block ← read_block (suc nr)
  pure (value (suc nr), block)

-- The entry `i` of the indirect block.
unfoldable pub read_indirect : ℕ → ℕ → M (Ret × Block)
unfolding read_physical read_block
read_indirect zero i = read_physical 0
read_indirect (suc nr) i = do block ← read_block (suc nr); read_physical (word_at block i)

-- testfs_read_block: the number of the block, and its content. The first number is that of a logical
-- block.
abbrev pub direct_block : Inode → ℕ → ℕ
direct_block node i = byte_or_zero (get_elem? node.dinode.i_block_nr i)

abbrev pub read_logical : Inode → ℕ → M (Ret × Block)
read_logical node i =
    if ltb i nr_direct_blocks
    then read_physical (direct_block node i)
    else if leb nr_indirect_blocks (i - nr_direct_blocks)
    then pure (error enosys, zero_block)
    else read_indirect node.dinode.i_indirect (i - nr_direct_blocks)

-- A logical block number is an `int`.
abbrev pub as_int : ℕ → ℕ
as_int n = n % 2 ^ 32

unfoldable pub testfs_read_block : Inode → ℕ → M (Ret × Block)
unfolding read_physical read_indirect
testfs_read_block node log_block_nr = do
  assert (ltb (as_int log_block_nr) (2 ^ 31))
  read_logical node (as_int log_block_nr)

-- memcpy out of a block.
unfoldable pub bytes_of : Block → (from n : ℕ) → List ℕ
bytes_of b from zero = []
bytes_of b from (suc n) = b from ∷ bytes_of b (from + 1) n

-- testfs_read_data: the bytes that are read, or an error. Where the start is behind the end of the file,
-- `size` wraps around.
pub data Read : Type 0 where
  got : List ℕ → Read
  refused : Error → Read

abbrev pub copy_out : (block_ix size : ℕ) → Ret × Block → M Read
copy_out block_ix size (error e, block) = pure (refused e)
copy_out block_ix size (value nr, block) =
    require (leb (block_ix + size) block_size) >> pure (got (bytes_of block block_ix size))

-- `(off_t) size` of 2^63 or more is the negative number 2^64 below it.
abbrev pub wrapped : ℕ → ℕ
wrapped size = if leb (2 ^ 63) size then 2 ^ 64 else 0

abbrev pub clipped : Inode → (start size : ℕ) → ℕ
clipped node start size =
    if ltb (node.dinode.i_size + wrapped size) (start + size)
    then (node.dinode.i_size + 2 ^ 64 - start) % 2 ^ 64
    else size

unfoldable pub read_data : Inode → (start size : ℕ) → M Read
unfolding testfs_read_block bytes_of
read_data node start size =
    if ltb block_size ((start % block_size + clipped node start size) % 2 ^ 64)
    then pure (refused enosys)
    else testfs_read_block node (start / block_size)
      >>= copy_out (start % block_size) (clipped node start size)

-- What testfs_allocate_block leaves: the number of the block, or an error; the inode; and the content of
-- the block.
abbrev pub Allocated : Type 0
Allocated = Ret × Inode × Block

-- A direct block.
abbrev pub place_direct : ℕ → Block → Ret × Inode → Allocated
place_direct i block (value nr, node) = (value nr, with_direct node i nr, block)
place_direct i block (error e, node) = (error e, node, block)

unfoldable pub allocate_direct : Inode → ℕ → Block → M Allocated
unfolding alloc_block_for_inode
allocate_direct node i block = do
  assert (direct_block node i == 0)
  r ← alloc_block_for_inode node
  pure (place_direct i block r)

-- The entry `i` of the indirect block, whose content is `indirect`. Where that block is new and the
-- entry gets none, it is freed.
abbrev pub place_entry : Bool → ℕ → Block → Block → Ret × Inode → M Allocated
place_entry new i block indirect (value nr, node) = do
  write_block node.dinode.i_indirect (put_word indirect i nr)
  pure (value nr, node, block)
place_entry true i block indirect (error e, node) = do
  freed ← free_block_from_inode node node.dinode.i_indirect
  pure (error e, with_indirect freed 0, block)
place_entry false i block indirect (error e, node) = pure (error e, node, block)

unfoldable pub allocate_entry : Bool → Inode → ℕ → Block → Block → M Allocated
unfolding alloc_block_for_inode
allocate_entry new node i block indirect = do
  assert (word_at indirect i == 0)
  r ← alloc_block_for_inode node
  place_entry new i block indirect r

-- The indirect block, which is allocated or read first.
abbrev pub with_new_indirect : ℕ → Block → Ret × Inode → M Allocated
with_new_indirect i block (value nr, node) =
    allocate_entry true (with_indirect node nr) i block zero_block
with_new_indirect i block (error e, node) = pure (error e, node, block)

abbrev pub with_indirect_block : Inode → ℕ → Block → ℕ → M Allocated
with_indirect_block node i block zero = alloc_block_for_inode node >>= with_new_indirect i block
with_indirect_block node i block (suc nr) =
    read_block (suc nr) >>= allocate_entry false node i block

unfoldable pub allocate_indirect : Inode → ℕ → Block → M Allocated
unfolding allocate_entry read_block alloc_block_for_inode
allocate_indirect node i block =
    if leb nr_indirect_blocks i
    then pure (error enosys, node, block)
    else with_indirect_block node i block node.dinode.i_indirect

-- testfs_allocate_block
abbrev pub allocate_missing : Inode → ℕ → Block → M Allocated
allocate_missing node i block =
    if ltb i nr_direct_blocks
    then allocate_direct node i block
    else allocate_indirect node (i - nr_direct_blocks) block

abbrev pub unless_there : Inode → ℕ → Ret × Block → M Allocated
unless_there node i (error e, block) = pure (error e, node, block)
unless_there node i (value zero, block) = allocate_missing node i block
unless_there node i (value (suc nr), block) = pure (value (suc nr), node, block)

unfoldable pub allocate_block : Inode → ℕ → M Allocated
unfolding testfs_read_block allocate_direct allocate_indirect
allocate_block node log_block_nr = do
  assert (ltb (as_int log_block_nr) (2 ^ 31))
  r ← testfs_read_block node (as_int log_block_nr)
  unless_there node (as_int log_block_nr) r

-- memcpy of a buffer into a block.
abbrev pub or_else : Option ℕ → ℕ → ℕ
or_else none x = x
or_else (some y) x = y

unfoldable pub copy_in : Block → ℕ → List ℕ → Block
copy_in b ix buf o = if ltb o ix then b o else or_else (get_elem? buf (o - ix)) (b o)

abbrev pub grown : Inode → (start size : ℕ) → Inode
grown node start zero = record node { dirty = true }
grown node start (suc n) =
    with_size node
      (if leb (start + suc n) node.dinode.i_size then node.dinode.i_size else start + suc n)

-- testfs_write_data, of a whole buffer: the number of bytes or an error, and the inode.
abbrev pub write_into : List ℕ → ℕ → Allocated → M (Ret × Inode)
write_into buf start (error e, node, block) = pure (error e, node)
write_into buf start (value nr, node, block) = do
  write_block nr (copy_in block (start % block_size) buf)
  pure (value (length buf), grown node start (length buf))

unfoldable pub write_data : Inode → List ℕ → (start : ℕ) → M (Ret × Inode)
unfolding allocate_block copy_in
write_data node buf start =
    if ltb block_size (start % block_size + length buf)
    then pure (error enosys, node)
    else allocate_block node (start / block_size) >>= write_into buf start
