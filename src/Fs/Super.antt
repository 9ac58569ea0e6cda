-- ===== src/Fs/Super.antt =====
-- fs/super.c: the super block, and the maps of free inodes and free blocks.
use web_server_and_user_leve.Prelude.{
  ℕ, ◌+◌, ◌-◌, ◌*◌, ◌/◌, ◌%◌, ◌^◌, ltb, leb, Option, none, some, List, [], ◌∷◌, if◌then◌else◌,
  get_elem?, length,
}
use web_server_and_user_leve.Bitmap.Store.{
  Bitmap, Error, enospc, Result, done, failed, aborted, undefined, bitmap_alloc, bitmap_unmark,
}
use web_server_and_user_leve.Fs.State.{
  Block, SuperBlock, returned, fails, faults, M, pure, ◌>>=◌, ◌>>◌, get, modify, assert, require,
}
use web_server_and_user_leve.Fs.Blocks.{block_size, zero_block, put_words, write_block, zero_blocks}

-- An `int` that is returned: a number, or a negated error code.
pub data Ret : Type 0 where
  value : ℕ → Ret
  error : Error → Ret

-- The words of the structure; `max_fs_blocks` is a u64.
abbrev pub super_words : SuperBlock → List ℕ
super_words sb =
    sb.inode_freemap_start
    ∷ sb.block_freemap_start
    ∷ sb.inode_blocks_start
    ∷ sb.data_blocks_start
    ∷ sb.used_inode_count
    ∷ sb.used_block_count
    ∷ sb.max_fs_blocks % 2 ^ 32
    ∷ sb.max_fs_blocks / 2 ^ 32
    ∷ []

unfoldable pub write_super_block : M (Unit {0})
unfolding put_words
write_super_block = do s ← get; write_block 0 (put_words zero_block 0 (super_words s.sb))

-- The block `nr` of the data of a bitmap.
abbrev pub byte_or_zero : Option ℕ → ℕ
byte_or_zero none = 0
byte_or_zero (some x) = x

abbrev pub freemap_block : Bitmap → ℕ → Block
freemap_block b nr o = byte_or_zero (get_elem? b.v (nr * block_size + o))

abbrev pub bits_per_block : ℕ
bits_per_block = block_size * 8

-- The block of a freemap that holds the bit `index`, written to the device.
abbrev pub write_freemap : Bitmap → (start index : ℕ) → M (Unit {0})
write_freemap b start index = do
  require (leb (index / bits_per_block * block_size + block_size) (length b.v))
  write_block (start + index / bits_per_block) (freemap_block b (index / bits_per_block))

unfoldable pub write_inode_freemap : ℕ → M (Unit {0})
write_inode_freemap inode_nr = do
  s ← get
  write_freemap s.inode_freemap s.sb.inode_freemap_start inode_nr

unfoldable pub write_block_freemap : ℕ → M (Unit {0})
write_block_freemap block_nr = do
  s ← get
  write_freemap s.block_freemap s.sb.block_freemap_start block_nr

-- testfs_get_block_freemap, with what bitmap_alloc has returned.
abbrev pub take_block : Result (ℕ × Bitmap) → M Ret
take_block (done (index, b)) = do
  modify λ s. record s { block_freemap = b }
  write_block_freemap index
  pure (value index)
take_block (failed e) = pure (error e)
take_block aborted = λ s. fails
take_block undefined = λ s. faults

unfoldable pub get_block_freemap : M Ret
unfolding write_block_freemap
get_block_freemap = do s ← get; take_block (bitmap_alloc s.block_freemap)

-- testfs_put_block_freemap
abbrev pub release_block : ℕ → Result Bitmap → M (Unit {0})
release_block block_nr (done b) = do
  modify λ s. record s { block_freemap = b }
  write_block_freemap block_nr
release_block block_nr (failed e) = λ s. faults
release_block block_nr aborted = λ s. fails
release_block block_nr undefined = λ s. faults

unfoldable pub put_block_freemap : ℕ → M (Unit {0})
unfolding write_block_freemap
put_block_freemap block_nr = do
  s ← get
  release_block block_nr (bitmap_unmark s.block_freemap block_nr)

-- testfs_alloc_block, behind the test for `max_fs_blocks`.
abbrev pub count_taken : Ret → M Ret
count_taken (error e) = pure (error e)
count_taken (value nr) = do
  modify
      λ s. record s { sb = record s.sb { used_block_count = (s.sb.used_block_count + 1) % 2 ^ 32 } }
  write_super_block
  s ← get
  pure (value (s.sb.data_blocks_start + nr))

unfoldable pub alloc_block : M Ret
unfolding get_block_freemap write_super_block
alloc_block s =
    if leb s.sb.max_fs_blocks s.sb.used_block_count
    then returned (error enospc) s
    else (get_block_freemap >>= count_taken) s

-- testfs_free_block
unfoldable pub free_block : ℕ → M (Unit {0})
unfolding zero_blocks put_block_freemap write_super_block
free_block block_nr = do
  zero_blocks block_nr 1
  s ← get
  assert (leb s.sb.data_blocks_start block_nr)
  put_block_freemap (block_nr - s.sb.data_blocks_start)
  s ← get
  assert (ltb 0 s.sb.used_block_count)
  modify λ s. record s { sb = record s.sb { used_block_count = s.sb.used_block_count - 1 } }
  write_super_block

-- testfs_get_inode_freemap
abbrev pub take_inode : Result (ℕ × Bitmap) → M Ret
take_inode (done (index, b)) = do
  modify λ s. record s { inode_freemap = b }
  write_inode_freemap index
  modify
      λ s. record s { sb = record s.sb { used_inode_count = (s.sb.used_inode_count + 1) % 2 ^ 32 } }
  write_super_block
  pure (value index)
take_inode (failed e) = pure (error e)
take_inode aborted = λ s. fails
take_inode undefined = λ s. faults

unfoldable pub get_inode_freemap : M Ret
unfolding write_inode_freemap write_super_block
get_inode_freemap = do s ← get; take_inode (bitmap_alloc s.inode_freemap)

-- testfs_put_inode_freemap
abbrev pub release_inode : ℕ → Result Bitmap → M (Unit {0})
release_inode inode_nr (done b) = do
  modify λ s. record s { inode_freemap = b }
  write_inode_freemap inode_nr
  s ← get
  assert (ltb 0 s.sb.used_inode_count)
  modify λ s. record s { sb = record s.sb { used_inode_count = s.sb.used_inode_count - 1 } }
  write_super_block
release_inode inode_nr (failed e) = λ s. faults
release_inode inode_nr aborted = λ s. fails
release_inode inode_nr undefined = λ s. faults

unfoldable pub put_inode_freemap : ℕ → M (Unit {0})
unfolding write_inode_freemap write_super_block
put_inode_freemap inode_nr = do
  s ← get
  release_inode inode_nr (bitmap_unmark s.inode_freemap inode_nr)
