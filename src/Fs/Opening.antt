-- ===== src/Fs/Opening.antt =====
-- fs/super.c: making, opening and closing a file system.
use web_server_and_user_leve.Prelude.{
  ℕ, zero, suc, ◌+◌, ◌*◌, ◌^◌, leb, Bool, true, false, Option, none, some, List, [], ◌++◌, ◌∷◌,
  if◌then◌else◌, length,
}
use web_server_and_user_leve.Bitmap.Store.{
  Bitmap, enomem, Result, done, failed, aborted, undefined, bitmap_create,
}
use web_server_and_user_leve.Fs.State.{
  Block, SuperBlock, Inode, M, fails, faults, pure, ◌>>=◌, ◌>>◌, get, modify, assert, require,
}
use web_server_and_user_leve.Fs.Blocks.{
  block_size, zero_block, word_at, read_block, write_block, zero_blocks,
}
use web_server_and_user_leve.Fs.Super.{Ret, value, error, freemap_block, write_super_block}
use web_server_and_user_leve.Fs.Data.{bytes_of}
use web_server_and_user_leve.Fs.Table.{nr_inode_blocks}

abbrev pub super_block_size : ℕ
super_block_size = 1

abbrev pub inode_freemap_size : ℕ
inode_freemap_size = 1

abbrev pub block_freemap_size : ℕ
block_freemap_size = 16

-- testfs_make_super_block. The device is opened for writing, which empties it; the pointers to the free
-- maps are NULL, so that the fields here mean nothing.
abbrev pub new_super : ℕ → SuperBlock
new_super max_fs_blocks = record {
  inode_freemap_start = super_block_size;
  block_freemap_start = super_block_size + inode_freemap_size;
  inode_blocks_start = super_block_size + inode_freemap_size + block_freemap_size;
  data_blocks_start = super_block_size + inode_freemap_size + block_freemap_size + nr_inode_blocks;
  used_inode_count = 0;
  used_block_count = 0;
  max_fs_blocks = max_fs_blocks;
}

unfoldable pub make_super_block : ℕ → M (Unit {0})
unfolding write_super_block
make_super_block max_fs_blocks = do
  modify λ s. record s { sb = new_super max_fs_blocks; blocks = λ nr. zero_block; dev_length = 0 }
  write_super_block
  modify λ s. record s { hashed = [] }

unfoldable pub make_inode_freemap : M (Unit {0})
unfolding zero_blocks
make_inode_freemap = do s ← get; zero_blocks s.sb.inode_freemap_start inode_freemap_size

unfoldable pub make_block_freemap : M (Unit {0})
unfolding zero_blocks
make_block_freemap = do s ← get; zero_blocks s.sb.block_freemap_start block_freemap_size

-- Its test of the size of the free map, and its assert, hold for the constants.
unfoldable pub make_inode_blocks : M (Unit {0})
unfolding zero_blocks
make_inode_blocks = do s ← get; zero_blocks s.sb.inode_blocks_start nr_inode_blocks

-- read_blocks of `nr` blocks into the data of a bitmap.
unfoldable pub read_map : (start nr : ℕ) → M (List ℕ)
unfolding read_block bytes_of
read_map start zero = pure []
read_map start (suc nr) = do
  block ← read_block start
  rest ← read_map (start + 1) nr
  pure (bytes_of block 0 block_size ++ rest)

-- write_blocks of `nr` blocks of the data of a bitmap, from the block `i` of it on.
unfoldable pub write_map_from : Bitmap → (start i nr : ℕ) → M (Unit {0})
write_map_from b start i zero = pure tt
write_map_from b start i (suc nr) =
    write_block start (freemap_block b i) >> write_map_from b (start + 1) (i + 1) nr

unfoldable pub write_map : Bitmap → (start nr : ℕ) → M (Unit {0})
unfolding write_map_from
write_map b start nr = require (leb (nr * block_size) (length b.v)) >> write_map_from b start 0 nr

-- The super block in its block.
unfoldable pub super_at : Block → SuperBlock
unfolding word_at
super_at b = record {
  inode_freemap_start = word_at b 0;
  block_freemap_start = word_at b 1;
  inode_blocks_start = word_at b 2;
  data_blocks_start = word_at b 3;
  used_inode_count = word_at b 4;
  used_block_count = word_at b 5;
  max_fs_blocks = word_at b 6 + 2 ^ 32 * word_at b 7;
}

-- A free map, which must have room for the blocks that are read into it.
abbrev pub load_map : Result Bitmap → (start nr : ℕ) → (Bitmap → M Ret) → M Ret
load_map (done b) start nr next =
    require (leb (nr * block_size) (length b.v)) >> read_map start nr >>= λ v.
    next (record b { v = v })
load_map (failed e) start nr next = pure (error e)
load_map aborted start nr next = λ s. fails
load_map undefined start nr next = λ s. faults

abbrev pub set_block_freemap : Bitmap → M Ret
set_block_freemap b = modify (λ s. record s { block_freemap = b; hashed = [] }) >> pure (value 0)

abbrev pub set_inode_freemap : (for_b for_v : Bool) → Bitmap → M Ret
set_inode_freemap for_b for_v b = do
  modify λ s. record s { inode_freemap = b }
  s ← get
  load_map (bitmap_create for_b for_v (block_size * block_freemap_size * 8))
      s.sb.block_freemap_start block_freemap_size set_block_freemap

-- testfs_init_super_block, where `found` says which of its calls of malloc find memory, and the opening
-- of the device succeeds or leaves an `errno`, which the code returns as it is.
pub record Found : Type 0 where
  pub for_sb : Bool
  pub for_inodes : Bool
  pub for_inode_words : Bool
  pub for_blocks : Bool
  pub for_block_words : Bool

abbrev pub load_super : Found → M Ret
load_super found = do
  block ← read_block 0
  modify λ s. record s { sb = super_at block }
  s ← get
  load_map
      (bitmap_create found.for_inodes found.for_inode_words (block_size * inode_freemap_size * 8))
      s.sb.inode_freemap_start inode_freemap_size
      (set_inode_freemap found.for_blocks found.for_block_words)

abbrev pub open_device : Found → Option ℕ → M Ret
open_device found (some errno) = pure (value errno)
open_device found none = load_super found

unfoldable pub init_super_block : Found → Option ℕ → M Ret
unfolding read_block super_at bitmap_create read_map
init_super_block found opened =
    if found.for_sb then open_device found opened else pure (error enomem)

-- testfs_close_super_block, with inode_hash_destroy; `with_maps` says whether the pointers to the free
-- maps are there. What is left is the device.
abbrev pub is_empty : List Inode → Bool
is_empty [] = true
is_empty (n ∷ ns) = false

abbrev pub write_maps : Bool → M (Unit {0})
write_maps false = pure tt
write_maps true = do
  s ← get
  write_map s.inode_freemap s.sb.inode_freemap_start inode_freemap_size
  s ← get
  write_map s.block_freemap s.sb.block_freemap_start block_freemap_size

unfoldable pub close_super_block : Bool → M (Unit {0})
unfolding write_super_block write_map
close_super_block with_maps = do
  write_super_block
  s ← get
  assert (is_empty s.hashed)
  write_maps with_maps

-- How mktestfs.c makes a file system, up to its root directory: it makes it, closes it, and opens it
-- again.
abbrev pub make_file_system : Found → ℕ → M Ret
make_file_system found max_fs_blocks =
    make_super_block max_fs_blocks
    >> make_inode_freemap
    >> make_block_freemap
    >> make_inode_blocks
    >> close_super_block false
    >> init_super_block found none
