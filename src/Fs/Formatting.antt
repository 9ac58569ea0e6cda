-- ===== src/Fs/Formatting.antt =====
-- Making a file system, in fs/super.c and fs/mktestfs.c.
use web_server_and_user_leve.Prelude.{
  subst, ℕ, zero, suc, ◌+◌, ◌*◌, ◌/◌, ◌^◌, ◌≤◌, ◌<◌, ◌≡◌, inl, refl, sym, ap, ◌∙◌, false, arith, [],
  updated, none, get_elem?,
}
use web_server_and_user_leve.Bitmap.Store.{Bitmap, zeros, words_of}
use web_server_and_user_leve.Bitmap.Create.{IsFresh, even_IsFresh}
use web_server_and_user_leve.Fs.State.{Block, FileSystem, returned, and_then, ◌>>◌}
use web_server_and_user_leve.Fs.Blocks.{
  zero_block, word_at, put_words, stored, zero_blocks, write_block,
}
use web_server_and_user_leve.Fs.Super.{value, super_words, freemap_block, byte_or_zero}
use web_server_and_user_leve.Fs.Space.{IsLaidOut, stored_longer, stored_other}
use web_server_and_user_leve.Fs.Table.{words_at, dinode_at, zero_dinode, inode_offset}
use web_server_and_user_leve.Fs.Syncing.{disk_dinode}
use web_server_and_user_leve.Fs.Opening.{
  new_super, write_map_from, make_super_block, make_inode_freemap, make_block_freemap,
  make_inode_blocks, close_super_block, init_super_block, make_file_system,
}
use web_server_and_user_leve.Fs.Maps.{
  Mapped, mapped_from, mapped_from-Mapped, write_map_from-mapped_from,
}
use web_server_and_user_leve.Fs.Reopening.{HasMaps, all_found, init_super_block-value}

-- A map of `n` bytes without a bit set.
abbrev clear : ℕ → Bitmap
clear n = record { nbits = 8 * n; v = zeros n }

-- Its blocks are zeros, and so is what lies behind them.
clear-zero_block : (n i : ℕ) → freemap_block (clear n) i ≡ zero_block
clear-zero_block n i = λ k o. zero_byte n (i * 8192 + o) k
  where
    zero_byte : (n o : ℕ) → byte_or_zero (get_elem? (zeros n) o) ≡ 0
    zero_byte zero o = refl
    zero_byte (suc n) zero = refl
    zero_byte (suc n) (suc o) = zero_byte n o

-- A bitmap without a bit set, whose blocks are zeros.
record IsBlank (nbits : ℕ) (b : Bitmap) : Type 0 where
  blocks : (i : ℕ) → freemap_block b i ≡ zero_block
  fresh : IsFresh nbits b

clear-IsBlank : (n : ℕ) → 8 * n + 7 < 2 ^ 32 → IsBlank (8 * n) (clear n)
clear-IsBlank n small = record {
  blocks = clear-zero_block n;
  fresh =
      subst (λ w. IsFresh (8 * n) (record { nbits = 8 * n; v = zeros w })) (words_eq n small)
        (even_IsFresh (8 * n) small (omega arith));
}
  where
    words_eq : (n : ℕ) → 8 * n + 7 < 2 ^ 32 → words_of (8 * n) ≡ n
    words_eq n h = omega (arith, h)

module _ (b : Bitmap) (blank : (i : ℕ) → freemap_block b i ≡ zero_block) where
  zero_blocks-write_map_from : (start i nr : ℕ) → zero_blocks start nr ≡ write_map_from b start i nr
  unfolding zero_blocks write_map_from
  zero_blocks-write_map_from start i zero = refl
  zero_blocks-write_map_from start i (suc nr) =
      ap (λ c. write_block start c >> zero_blocks (start + 1) nr) (sym (blank i))
      ∙ ap (λ k. write_block start (freemap_block b i) >> k)
          (zero_blocks-write_map_from (start + 1) (i + 1) nr)

  zero_blocks-mapped_from :
      (start nr : ℕ) (s : FileSystem)
      → zero_blocks start nr s ≡ returned tt (mapped_from b start 0 nr s)
  zero_blocks-mapped_from start nr s =
      ap (λ m. m s) (zero_blocks-write_map_from start 0 nr)
      ∙ write_map_from-mapped_from b start 0 nr s

-- A new file system: it has the layout that the allocation of blocks relies on, and nothing is in use.
pub record Made (max_fs_blocks : ℕ) (s : FileSystem) : Type 0 where
  pub after : FileSystem
  pub runs : make_file_system all_found max_fs_blocks s ≡ returned (value 0) after
  pub laid_out : IsLaidOut after
  pub super : after.sb ≡ new_super max_fs_blocks
  pub inodes : IsFresh 65536 after.inode_freemap
  pub blocks : IsFresh 1048576 after.block_freemap
  pub unused : after.hashed ≡ []
  pub empty : (nr : ℕ) → nr < 16384 → disk_dinode after nr ≡ zero_dinode
  pub long : 146 ≤ after.dev_length

module _ (max_fs_blocks : ℕ) (s : FileSystem) (small : max_fs_blocks < 2 ^ 32)
    (inodes blocks : Bitmap) (no_inodes : IsBlank 65536 inodes)
    (no_blocks : IsBlank 1048576 blocks) where
  abbrev first : Block
  first = put_words zero_block 0 (super_words (new_super max_fs_blocks))

  abbrev s1 : FileSystem
  s1 =
      let s0 : FileSystem = record s {
        sb = new_super max_fs_blocks;
        blocks = λ nr. zero_block;
        dev_length = 0;
      } in
      record (stored 0 first s0) { hashed = [] }

  abbrev s2 : FileSystem
  s2 = mapped_from inodes 1 0 1 s1

  abbrev s3 : FileSystem
  s3 = mapped_from blocks 2 0 16 s2

  abbrev s4 : FileSystem
  s4 = mapped_from blocks 18 0 128 s3

  abbrev s5 : FileSystem
  s5 = stored 0 first s4

  made :
      (make_super_block max_fs_blocks
          >> make_inode_freemap
          >> make_block_freemap
          >> make_inode_blocks)
        s
      ≡ returned tt s4
  unfolding make_super_block make_inode_freemap make_block_freemap make_inode_blocks mapped_from
  made =
      ap (λ o. and_then (and_then o λ _. make_block_freemap) λ _. make_inode_blocks)
        (zero_blocks-mapped_from inodes no_inodes.blocks 1 1 s1)
      ∙ ap (λ o. and_then o λ _. make_inode_blocks)
          (zero_blocks-mapped_from blocks no_blocks.blocks 2 16 s2)
      ∙ zero_blocks-mapped_from blocks no_blocks.blocks 18 128 s3

  closed : close_super_block false s4 ≡ returned tt s5
  unfolding close_super_block mapped_from
  closed = refl

  inodes-Mapped : Mapped inodes 1 1 s1 s2
  inodes-Mapped = mapped_from-Mapped inodes 1 1 s1

  blocks-Mapped : Mapped blocks 2 16 s2 s3
  blocks-Mapped = mapped_from-Mapped blocks 2 16 s2

  table-Mapped : Mapped blocks 18 128 s3 s4
  table-Mapped = mapped_from-Mapped blocks 18 128 s3

  long_enough : 146 ≤ s5.dev_length
  long_enough =
      let l1 = inodes-Mapped.reach (omega arith) in
      let l2 = blocks-Mapped.reach (omega (arith, l1)) in
      omega (arith, table-Mapped.reach (omega (arith, l2)), stored_longer 0 first s4)

  s5-HasMaps : HasMaps inodes blocks s5
  unfolding mapped_from
  s5-HasMaps = record {
    small = record {
      inode_freemap = omega arith;
      block_freemap = omega arith;
      inode_blocks = omega arith;
      data_blocks = omega arith;
      inodes = omega arith;
      blocks = omega arith;
      limit = omega (arith, small);
    };
    inode_start = refl;
    block_start = refl;
    inode_bits = no_inodes.fresh.size;
    inode_bytes = omega (arith, no_inodes.fresh.valid.words, no_inodes.fresh.size);
    block_bits = no_blocks.fresh.size;
    block_bytes = omega (arith, no_blocks.fresh.valid.words, no_blocks.fresh.size);
    first = updated s4.blocks 0 first;
    inode_map = λ j h.
        stored_other 0 (1 + j) first s4 (λ e. omega (arith, e))
        ∙ table-Mapped.outside (1 + j) (inl (omega (arith, h)))
        ∙ blocks-Mapped.outside (1 + j) (inl (omega (arith, h)))
        ∙ inodes-Mapped.inside j h;
    block_map = λ j h.
        stored_other 0 (2 + j) first s4 (λ e. omega (arith, e))
        ∙ table-Mapped.outside (2 + j) (inl (omega (arith, h)))
        ∙ blocks-Mapped.inside j h;
    there = omega (arith, long_enough);
  }

  inode_zeros : (nr : ℕ) → nr < 16384 → s5.blocks (18 + nr / 128) ≡ zero_block
  inode_zeros nr h =
      stored_other 0 (18 + nr / 128) first s4 (λ e. omega (arith, e))
      ∙ table-Mapped.inside (nr / 128) (omega (arith, h))
      ∙ no_blocks.blocks (nr / 128)

  dinode-zeros : (i : ℕ) → dinode_at zero_block i ≡ zero_dinode
  unfolding dinode_at words_at word_at
  dinode-zeros i = refl

  blank-Made : Made max_fs_blocks s
  unfolding mapped_from disk_dinode
  blank-Made =
      let after : FileSystem = record s5 {
        inode_freemap = inodes;
        block_freemap = blocks;
        hashed = [];
      } in
      record {
        after = after;
        runs =
            ap
              (λ o.
                and_then (and_then o λ _. close_super_block false)
                  λ _. init_super_block all_found none)
              made
            ∙ ap (λ o. and_then o λ _. init_super_block all_found none) closed
            ∙ init_super_block-value inodes blocks s5 s5-HasMaps;
        laid_out = record {
          freemap_start = refl;
          data_start = refl;
          valid = no_blocks.fresh.valid;
          size = no_blocks.fresh.size;
          limit = small;
        };
        super = refl;
        inodes = no_inodes.fresh;
        blocks = no_blocks.fresh;
        unused = refl;
        empty = λ nr h.
            ap (λ b. dinode_at b (inode_offset nr)) (inode_zeros nr h)
            ∙ dinode-zeros (inode_offset nr);
        long = long_enough;
      }

-- Making a file system with a limit of blocks below 2^32 on any device, where malloc finds memory, ends
-- with the file system opened: it has the layout that the allocation of blocks relies on, no inode and no
-- block is in use, and the inodes on the device are zeros.
pub make_file_system-Made :
    (max_fs_blocks : ℕ) (s : FileSystem) → max_fs_blocks < 2 ^ 32 → Made max_fs_blocks s
make_file_system-Made max_fs_blocks s small =
    blank-Made max_fs_blocks s small (clear 8192) (clear 131072) (clear-IsBlank 8192 (omega arith))
      (clear-IsBlank 131072 (omega arith))
