-- ===== src/Fs/Reopening.antt =====
-- Closing a file system and opening it again, in fs/super.c.
use web_server_and_user_leve.Prelude.{
  ◌*◌, ℕ, ◌+◌, ◌≤◌, ◌<◌, ◌≡◌, ◌⊎◌, inl, inr, refl, sym, ap, ◌∙◌, true, arith, [], length,
  if◌then◌else◌, updated, none, ltb,
}
use web_server_and_user_leve.Bitmap.Store.{Bitmap, bitmap_create}
use web_server_and_user_leve.Bitmap.Create.{bitmap_create-IsFresh}
use web_server_and_user_leve.Fs.State.{
  Inode, Block, FileSystem, M, returned, fails, and_then, get, modify, ◌>>=◌, ◌>>◌,
}
use web_server_and_user_leve.Fs.Blocks.{zero_block, put_words, stored}
use web_server_and_user_leve.Fs.Super.{Ret, value, super_words, freemap_block}
use web_server_and_user_leve.Fs.Logical.{read_block-present}
use web_server_and_user_leve.Fs.Space.{stored_longer, stored_other}
use web_server_and_user_leve.Fs.Opening.{
  Found, super_at, is_empty, write_maps, write_map, load_map, set_inode_freemap, set_block_freemap,
  close_super_block, init_super_block,
}
use web_server_and_user_leve.Fs.Maps.{
  Mapped, mapped_from, mapped_from-Mapped, write_map-mapped_from, load_map-mapped,
}
use web_server_and_user_leve.Fs.Slots.{IsSound}
use web_server_and_user_leve.Fs.Logical.{byte_at}
use web_server_and_user_leve.Fs.Persistence.{byte_at-same}
use web_server_and_user_leve.Fs.SuperWords.{IsSmall, super_at-super_words}

-- A file system with the layout of testfs_make_super_block and the sizes of testfs_init_super_block, no
-- inode of which is in memory.
pub record IsIdle (s : FileSystem) : Type 0 where
  pub small : IsSmall s.sb
  pub inode_start : s.sb.inode_freemap_start ≡ 1
  pub block_start : s.sb.block_freemap_start ≡ 2
  pub inode_bits : s.inode_freemap.nbits ≡ 65536
  pub inode_bytes : length s.inode_freemap.v ≡ 8192
  pub block_bits : s.block_freemap.nbits ≡ 1048576
  pub block_bytes : length s.block_freemap.v ≡ 131072
  pub unused : s.hashed ≡ []

abbrev pub all_found : Found
all_found = record {
  for_sb = true;
  for_inodes = true;
  for_inode_words = true;
  for_blocks = true;
  for_block_words = true;
}

abbrev pub reopen : M Ret
reopen = close_super_block true >> init_super_block all_found none

-- What it leaves: the super block, the free maps and the blocks behind them, as they were.
pub record Reopened (s : FileSystem) : Type 0 where
  pub after : FileSystem
  pub runs : reopen s ≡ returned (value 0) after
  pub super : after.sb ≡ s.sb
  pub inodes : after.inode_freemap ≡ s.inode_freemap
  pub blocks : after.block_freemap ≡ s.block_freemap
  pub unused : after.hashed ≡ []
  pub others : (q : ℕ) → 18 ≤ q → after.blocks q ≡ s.blocks q
  pub longer : s.dev_length ≤ after.dev_length
  pub files :
      (node : Inode)
      → IsSound node s
      → (pos : ℕ) → pos < 2058 * 8192
      → byte_at node after pos ≡ byte_at node s pos

-- A device with a super block, and with the data of two bitmaps as its free maps.
pub record HasMaps (inodes blocks : Bitmap) (s : FileSystem) : Type 0 where
  pub small : IsSmall s.sb
  pub inode_start : s.sb.inode_freemap_start ≡ 1
  pub block_start : s.sb.block_freemap_start ≡ 2
  pub inode_bits : inodes.nbits ≡ 65536
  pub inode_bytes : length inodes.v ≡ 8192
  pub block_bits : blocks.nbits ≡ 1048576
  pub block_bytes : length blocks.v ≡ 131072
  pub first : s.blocks 0 ≡ put_words zero_block 0 (super_words s.sb)
  pub inode_map : (j : ℕ) → j < 1 → s.blocks (s.sb.inode_freemap_start + j) ≡ freemap_block inodes j
  pub block_map :
      (j : ℕ) → j < 16 → s.blocks (s.sb.block_freemap_start + j) ≡ freemap_block blocks j
  pub there : 18 ≤ s.dev_length

-- Opening it.
pub init_super_block-value :
    (inodes blocks : Bitmap) (s : FileSystem)
    → HasMaps inodes blocks s
    → init_super_block all_found none s
      ≡ returned
          (value 0)
          (record s { inode_freemap = inodes; block_freemap = blocks; hashed = [] })
unfolding init_super_block
init_super_block-value inodes blocks s ok =
    let (b1, e1, fresh1) = bitmap_create-IsFresh 65536 (omega arith) in
    let (b2, e2, fresh2) = bitmap_create-IsFresh 1048576 (omega arith) in
    let s1 : FileSystem = record s { inode_freemap = inodes } in
    ap (λ o. and_then o after_read) (read_block-present 0 s (omega (arith, ok.there)))
    ∙ ap (λ b. after_read b s) ok.first
    ∙ ap (λ t. loading (record s { sb = t })) (super_at-super_words s.sb ok.small)
    ∙ load_map-mapped (bitmap_create true true 65536) b1 inodes s.sb.inode_freemap_start 1
        (set_inode_freemap true true) s e1 (fresh1.size ∙ sym ok.inode_bits)
        (omega (arith, fresh1.valid.words, fresh1.size)) ok.inode_bytes ok.inode_map
        (omega (arith, ok.inode_start, ok.there))
    ∙ load_map-mapped (bitmap_create true true 1048576) b2 blocks s.sb.block_freemap_start 16
        set_block_freemap s1 e2 (fresh2.size ∙ sym ok.block_bits)
        (omega (arith, fresh2.valid.words, fresh2.size)) ok.block_bytes ok.block_map
        (omega (arith, ok.block_start, ok.there))
  where
    loading : M Ret
    loading = do
      t ← get
      load_map (bitmap_create true true 65536) t.sb.inode_freemap_start 1
          (set_inode_freemap true true)

    after_read : Block → M Ret
    after_read block = do
      modify λ t. record t { sb = super_at block }
      t ← get
      load_map (bitmap_create true true 65536) t.sb.inode_freemap_start 1
          (set_inode_freemap true true)

module _ (s : FileSystem) (ok : IsIdle s) where
  abbrev first : Block
  first = put_words zero_block 0 (super_words s.sb)

  abbrev s1 : FileSystem
  s1 = stored 0 first s

  abbrev s2 : FileSystem
  s2 = mapped_from s.inode_freemap s.sb.inode_freemap_start 0 1 s1

  abbrev s3 : FileSystem
  s3 = mapped_from s.block_freemap s.sb.block_freemap_start 0 16 s2

  inodes-Mapped : Mapped s.inode_freemap s.sb.inode_freemap_start 1 s1 s2
  inodes-Mapped = mapped_from-Mapped s.inode_freemap s.sb.inode_freemap_start 1 s1

  blocks-Mapped : Mapped s.block_freemap s.sb.block_freemap_start 16 s2 s3
  blocks-Mapped = mapped_from-Mapped s.block_freemap s.sb.block_freemap_start 16 s2

  close-returned : close_super_block true s ≡ returned tt s3
  unfolding close_super_block mapped_from
  close-returned =
      ap (λ hs. and_then (if is_empty hs then returned tt s1 else fails) λ _. write_maps true)
        ok.unused
      ∙ ap (λ o. and_then o λ _. get >>= λ t. write_map t.block_freemap t.sb.block_freemap_start 16)
          (write_map-mapped_from s.inode_freemap s.sb.inode_freemap_start 1 s1
            (omega (arith, ok.inode_bytes)))
      ∙ write_map-mapped_from s.block_freemap s.sb.block_freemap_start 16 s2
          (omega (arith, ok.block_bytes))

  same_length : s.dev_length ≤ s1.dev_length
  same_length = stored_longer 0 first s

  some_length : (n : ℕ) → 1 ≤ (if ltb 0 n then n else 1)
  some_length n = ground arith

  reach : 18 ≤ s3.dev_length
  reach =
      let low = inodes-Mapped.reach (omega (arith, ok.inode_start, some_length s.dev_length)) in
      omega (
        arith,
        ok.inode_start,
        ok.block_start,
        low,
        blocks-Mapped.reach (omega (arith, ok.inode_start, ok.block_start, low)),
      )

  apart : (q : ℕ) → (q < 1) ⊎ (18 ≤ q) → s3.blocks q ≡ s1.blocks q
  apart q (inl low) =
      blocks-Mapped.outside q (inl (omega (arith, low, ok.block_start)))
      ∙ inodes-Mapped.outside q (inl (omega (arith, low, ok.inode_start)))
  apart q (inr high) =
      blocks-Mapped.outside q (inr (omega (arith, high, ok.block_start)))
      ∙ inodes-Mapped.outside q (inr (omega (arith, high, ok.inode_start)))

  inode_map_there :
      (j : ℕ) → j < 1 → s3.blocks (s.sb.inode_freemap_start + j) ≡ freemap_block s.inode_freemap j
  inode_map_there j h =
      blocks-Mapped.outside (s.sb.inode_freemap_start + j)
        (inl (omega (arith, h, ok.inode_start, ok.block_start)))
      ∙ inodes-Mapped.inside j h

  s3-HasMaps : HasMaps s.inode_freemap s.block_freemap s3
  unfolding mapped_from
  s3-HasMaps = record {
    small = ok.small;
    inode_start = ok.inode_start;
    block_start = ok.block_start;
    inode_bits = ok.inode_bits;
    inode_bytes = ok.inode_bytes;
    block_bits = ok.block_bits;
    block_bytes = ok.block_bytes;
    first = apart 0 (inl (omega arith)) ∙ updated s.blocks 0 first;
    inode_map = inode_map_there;
    block_map = blocks-Mapped.inside;
    there = reach;
  }

  -- testfs_close_super_block and then testfs_init_super_block of the same device, with its usual layout
  -- and sizes of the free maps and no inode in memory, where malloc finds memory: no assert fails, the
  -- super block and the free maps are those before, and so are the blocks behind them and the bytes of
  -- every sound file.
  pub reopen-Reopened : Reopened s
  unfolding mapped_from
  reopen-Reopened = record {
    after = record s3 { hashed = [] };
    runs =
        ap (λ o. and_then o λ _. init_super_block all_found none) close-returned
        ∙ init_super_block-value s.inode_freemap s.block_freemap s3 s3-HasMaps;
    super = refl;
    inodes = refl;
    blocks = refl;
    unused = refl;
    others = λ q h. apart q (inr h) ∙ stored_other 0 q first s (λ e. omega (arith, e, h));
    longer = omega (arith, same_length, inodes-Mapped.longer, blocks-Mapped.longer);
    files = λ node sound.
        byte_at-same node s (record s3 { hashed = [] }) sound
          λ q h.
            apart q (inr (omega (arith, h))) ∙ stored_other 0 q first s (λ e. omega (arith, e, h));
  }
