-- ===== src/Fs/Table.antt =====
-- The in-memory inodes of fs/inode.c. A pointer to one is its number, since the hash table has at most one
-- for each number; the table is the list of its inodes, the latest first.
use web_server_and_user_leve.Prelude.{
  ℕ, zero, suc, ◌+◌, ◌-◌, ◌*◌, ◌/◌, ◌%◌, ◌^◌, ◌==◌, ltb, leb, Bool, true, false, not, Option, none,
  some, List, [], ◌∷◌, ◌++◌, if◌then◌else◌,
}
use web_server_and_user_leve.Bitmap.Store.{enospc}
use web_server_and_user_leve.Fs.State.{
  Block, Dinode, Inode, M, pure, ◌>>=◌, ◌>>◌, get, modify, assert, faults,
}
use web_server_and_user_leve.Fs.Blocks.{word_at, put_words, read_block, write_block}
use web_server_and_user_leve.Fs.Super.{Ret, value, error, get_inode_freemap, put_inode_freemap}
use web_server_and_user_leve.Fs.Freeing.{free_blocks}

-- The words of a `struct dinode`, and the structure at word `i` of a block.
unfoldable pub dinode_words : Dinode → List ℕ
dinode_words d =
    d.i_type ∷ d.i_block_nr
    ++ d.i_indirect ∷ d.i_dindirect ∷ d.block_count ∷ d.i_size % 2 ^ 32 ∷ d.i_size / 2 ^ 32 ∷ []

unfoldable pub words_at : Block → (i n : ℕ) → List ℕ
words_at b i zero = []
words_at b i (suc n) = word_at b i ∷ words_at b (i + 1) n

unfoldable pub dinode_at : Block → ℕ → Dinode
unfolding words_at
dinode_at b i = record {
  i_type = word_at b i;
  i_block_nr = words_at b (i + 1) 10;
  i_indirect = word_at b (i + 11);
  i_dindirect = word_at b (i + 12);
  block_count = word_at b (i + 13);
  i_size = word_at b (i + 14) + 2 ^ 32 * word_at b (i + 15);
}

abbrev pub inodes_per_block : ℕ
inodes_per_block = 128

abbrev pub nr_inode_blocks : ℕ
nr_inode_blocks = 128

-- testfs_inode_to_block_offset, in words.
abbrev pub inode_offset : ℕ → ℕ
inode_offset nr = nr % inodes_per_block * 16

-- testfs_inode_to_block_nr, testfs_read_inode_block and testfs_write_inode_block.
unfoldable pub read_inode_block : ℕ → M Block
unfolding read_block
read_inode_block nr = do
  assert (ltb (nr / inodes_per_block) nr_inode_blocks)
  s ← get
  read_block (s.sb.inode_blocks_start + nr / inodes_per_block)

unfoldable pub write_inode_block : ℕ → Block → M (Unit {0})
write_inode_block nr block = do
  assert (ltb (nr / inodes_per_block) nr_inode_blocks)
  s ← get
  write_block (s.sb.inode_blocks_start + nr / inodes_per_block) block

-- inode_hash_find, inode_hash_remove, and a change behind a pointer.
unfoldable pub find_inode : ℕ → List Inode → Option Inode
find_inode nr [] = none
find_inode nr (n ∷ ns) = if n.i_nr == nr then some n else find_inode nr ns

unfoldable pub remove_hashed : ℕ → List Inode → List Inode
remove_hashed nr [] = []
remove_hashed nr (n ∷ ns) = let rest = remove_hashed nr ns in if n.i_nr == nr then ns else n ∷ rest

unfoldable pub put_hashed : Inode → List Inode → List Inode
put_hashed node [] = []
put_hashed node (n ∷ ns) =
    let rest = put_hashed node ns in if n.i_nr == node.i_nr then node ∷ ns else n ∷ rest

abbrev pub pointed : Option Inode → M Inode
pointed none = λ s. faults
pointed (some node) = pure node

-- The inode behind a pointer, which must not be freed.
unfoldable pub inode_of : ℕ → M Inode
unfolding find_inode
inode_of nr = do s ← get; pointed (find_inode nr s.hashed)

unfoldable pub change_inode : Inode → M (Unit {0})
unfolding put_hashed
change_inode node = modify λ s. record s { hashed = put_hashed node s.hashed }

-- testfs_get_inode
unfoldable pub load_dinode : ℕ → M Dinode
unfolding read_inode_block dinode_at
load_dinode nr = do block ← read_inode_block nr; pure (dinode_at block (inode_offset nr))

abbrev pub hash_insert : ℕ → Dinode → M (Unit {0})
hash_insert nr d = modify λ s. record s {
  hashed = record { dinode = d; dirty = false; i_nr = nr; i_count = 1 } ∷ s.hashed;
}

abbrev pub share_or_load : ℕ → Option Inode → M (Unit {0})
share_or_load nr (some node) = change_inode (record node { i_count = node.i_count + 1 })
share_or_load nr none = load_dinode nr >>= hash_insert nr

unfoldable pub get_inode : ℕ → M (Unit {0})
unfolding find_inode change_inode load_dinode
get_inode nr = do s ← get; share_or_load nr (find_inode nr s.hashed)

-- testfs_sync_inode
abbrev pub sync_dirty : Bool → Inode → M (Unit {0})
sync_dirty false node = pure tt
sync_dirty true node = do
  block ← read_inode_block node.i_nr
  write_inode_block node.i_nr (put_words block (inode_offset node.i_nr) (dinode_words node.dinode))
  change_inode (record node { dirty = false })

unfoldable pub sync_inode : ℕ → M (Unit {0})
unfolding inode_of read_inode_block write_inode_block put_words dinode_words change_inode
sync_inode nr = do node ← inode_of nr; sync_dirty node.dirty node

-- testfs_put_inode
abbrev pub lower_count : Inode → M (Unit {0})
lower_count node =
    if node.i_count == 1
    then modify (λ s. record s { hashed = remove_hashed node.i_nr s.hashed })
    else change_inode (record node { i_count = node.i_count - 1 })

unfoldable pub put_inode : ℕ → M (Unit {0})
unfolding inode_of remove_hashed change_inode
put_inode nr = do node ← inode_of nr; assert (not node.dirty); lower_count node

-- testfs_create_inode: the number of the new inode, or an error.
abbrev pub typed : ℕ → Inode → Inode
typed type node = record node { dinode = record node.dinode { i_type = type }; dirty = true }

abbrev pub open_new : ℕ → Ret → M Ret
open_new type (error e) = pure (error e)
open_new type (value nr) =
    if leb nr_inode_blocks (nr / inodes_per_block)
    then put_inode_freemap nr >> pure (error enospc)
    else get_inode nr >> inode_of nr >>= λ node. change_inode (typed type node) >> pure (value nr)

unfoldable pub create_inode : ℕ → M Ret
unfolding get_inode_freemap put_inode_freemap get_inode inode_of change_inode
create_inode type = get_inode_freemap >>= open_new type

-- testfs_remove_inode, behind testfs_free_blocks, whose result it ignores.
abbrev pub zero_dinode : Dinode
zero_dinode = record {
  i_type = 0;
  i_block_nr = 0 ∷ 0 ∷ 0 ∷ 0 ∷ 0 ∷ 0 ∷ 0 ∷ 0 ∷ 0 ∷ 0 ∷ [];
  i_indirect = 0;
  i_dindirect = 0;
  block_count = 0;
  i_size = 0;
}

abbrev pub remove_emptied : Ret × Inode → M (Unit {0})
remove_emptied (r, node) = do
  assert (node.dinode.block_count == 0)
  change_inode (record node { dinode = zero_dinode; dirty = true })
  put_inode_freemap node.i_nr
  sync_inode node.i_nr
  put_inode node.i_nr

unfoldable pub remove_inode : ℕ → M (Unit {0})
unfolding inode_of free_blocks change_inode put_inode_freemap sync_inode put_inode
remove_inode nr = do node ← inode_of nr; emptied ← free_blocks node; remove_emptied emptied
