-- ===== src/Examples/Fs.antt =====
-- A file system with no file that has blocks, and an empty inode.
use web_server_and_user_leve.Prelude.{
  ℕ, zero, suc, ◌≢◌, ◌^◌, ◌≤◌, ◌<◌, ◌≡◌, ◌⊎◌, refl, true, arith, some, [], ◌∷◌, get_elem?, none,
}
use web_server_and_user_leve.Bitmap.Store.{Bitmap, done, bitmap_create, enospc}
use web_server_and_user_leve.Bitmap.Create.{IsFresh, bitmap_create-IsFresh}
use web_server_and_user_leve.Fs.State.{Inode, FileSystem, fails, returned, ◌>>=◌}
use web_server_and_user_leve.Fs.Super.{error}
use web_server_and_user_leve.Fs.Blocks.{zero_block}
use web_server_and_user_leve.Fs.Data.{read_data, write_data, direct_block, got, refused}
use web_server_and_user_leve.Fs.Table.{zero_dinode, find_inode}
use web_server_and_user_leve.Fs.Slots.{IsSound, block_of}
use web_server_and_user_leve.Fs.Logical.{byte_at}
use web_server_and_user_leve.Fs.Placing.{by_kind}
use web_server_and_user_leve.Fs.Files.{Writes, write_data-Writes}
use web_server_and_user_leve.Fs.Reading.{
  span, read_data-span, write_and_read, write_and_read-buffer,
}
use web_server_and_user_leve.Fs.Stored.{IsStorable, some_eq}
use web_server_and_user_leve.Fs.Syncing.{Synced, sync_inode-Synced}
use web_server_and_user_leve.Fs.Reopening.{Reopened, reopen-Reopened}
use web_server_and_user_leve.Fs.Formatting.{Made, make_file_system-Made}
use web_server_and_user_leve.Fs.Removal.{then_remove, write-then_remove}

freemap-IsFresh : (b : Bitmap) × (bitmap_create true true 1048576 ≡ done b) × IsFresh 1048576 b
freemap-IsFresh = bitmap_create-IsFresh 1048576 (omega arith)

-- A file of `size` zeros, none of whose blocks is allocated.
abbrev sparse : ℕ → Inode
sparse size = record {
  dinode = record zero_dinode { i_size = size };
  dirty = true;
  i_nr = 1;
  i_count = 1;
}

abbrev file : Inode
file = sparse 0

abbrev device : FileSystem
device = record {
  sb = record {
    inode_freemap_start = 1;
    block_freemap_start = 2;
    inode_blocks_start = 18;
    data_blocks_start = 146;
    used_inode_count = 2;
    used_block_count = 0;
    max_fs_blocks = 1000;
  };
  blocks = λ nr. zero_block;
  dev_length = 146;
  inode_freemap = freemap-IsFresh.0;
  block_freemap = freemap-IsFresh.0;
  hashed = file ∷ [];
}

ten_zeros : (j : ℕ) → j < 10 → direct_block (sparse 0) j ≡ 0
ten_zeros zero h = refl
ten_zeros (suc zero) h = refl
ten_zeros (suc (suc zero)) h = refl
ten_zeros (suc (suc (suc zero))) h = refl
ten_zeros (suc (suc (suc (suc zero)))) h = refl
ten_zeros (suc (suc (suc (suc (suc zero))))) h = refl
ten_zeros (suc (suc (suc (suc (suc (suc zero)))))) h = refl
ten_zeros (suc (suc (suc (suc (suc (suc (suc zero))))))) h = refl
ten_zeros (suc (suc (suc (suc (suc (suc (suc (suc zero)))))))) h = refl
ten_zeros (suc (suc (suc (suc (suc (suc (suc (suc (suc zero))))))))) h = refl
ten_zeros (suc (suc (suc (suc (suc (suc (suc (suc (suc (suc n)))))))))) h =
    absurd (omega (arith, h))

no_blocks : (size j : ℕ) → j ≤ 2058 → block_of (sparse size) device j ≡ 0
no_blocks size = by_kind (sparse size) device (λ j. 0) ten_zeros (λ j low high. refl) refl

sparse-IsSound : (size : ℕ) → IsSound (sparse size) device
sparse-IsSound size = record {
  laid_out = record {
    freemap_start = refl;
    data_start = refl;
    valid = freemap-IsFresh.2.valid;
    size = freemap-IsFresh.2.size;
    limit = omega arith;
  };
  ten = refl;
  slots = record {
    owned = λ k h m. absurd (omega (arith, m, no_blocks size k h));
    apart = λ j k hj hk m e. absurd (omega (arith, m, no_blocks size j hj));
  };
  present = λ k h m. absurd (omega (arith, m, no_blocks size k h));
}

write_data-Writes_example :
    Writes (104 ∷ 105 ∷ []) 90000 file device (write_data file (104 ∷ 105 ∷ []) 90000 device)
write_data-Writes_example =
    write_data-Writes (104 ∷ 105 ∷ []) 90000 file device (sparse-IsSound 0) (omega arith)

read_data-span_example :
    read_data (sparse 9000) 8200 10 device
    ≡ returned (got (span (byte_at (sparse 9000) device) 8200 10)) device
read_data-span_example =
    read_data-span (sparse 9000) device 8200 10 (sparse-IsSound 9000) (omega arith) (omega arith)
      (omega arith)

write_and_read-buffer_example :
    (s' : FileSystem) × ((write_and_read file (104 ∷ 105 ∷ []) 90000 device
        ≡ returned (got (104 ∷ 105 ∷ [])) s')
      ⊎ (write_and_read file (104 ∷ 105 ∷ []) 90000 device ≡ returned (refused enospc) s'))
write_and_read-buffer_example =
    write_and_read-buffer file device (104 ∷ 105 ∷ []) 90000 (sparse-IsSound 0) (omega arith)
      (omega arith) (omega arith)

zero_dinode-IsStorable : IsStorable zero_dinode
zero_dinode-IsStorable = record {
  kind = omega arith;
  ten = refl;
  blocks = small_blocks;
  indirect = omega arith;
  dindirect = omega arith;
  count = omega arith;
  size = omega arith;
}
  where
    none_eq : (a : ℕ) → none ≢ some a
    none_eq a e = cc

    small_blocks : (i x : ℕ) → get_elem? zero_dinode.i_block_nr i ≡ some x → x < 2 ^ 32
    small_blocks zero x e = omega (arith, some_eq 0 x e)
    small_blocks (suc zero) x e = omega (arith, some_eq 0 x e)
    small_blocks (suc (suc zero)) x e = omega (arith, some_eq 0 x e)
    small_blocks (suc (suc (suc zero))) x e = omega (arith, some_eq 0 x e)
    small_blocks (suc (suc (suc (suc zero)))) x e = omega (arith, some_eq 0 x e)
    small_blocks (suc (suc (suc (suc (suc zero))))) x e = omega (arith, some_eq 0 x e)
    small_blocks (suc (suc (suc (suc (suc (suc zero)))))) x e = omega (arith, some_eq 0 x e)
    small_blocks (suc (suc (suc (suc (suc (suc (suc zero))))))) x e = omega (arith, some_eq 0 x e)
    small_blocks (suc (suc (suc (suc (suc (suc (suc (suc zero)))))))) x e =
        omega (arith, some_eq 0 x e)
    small_blocks (suc (suc (suc (suc (suc (suc (suc (suc (suc zero))))))))) x e =
        omega (arith, some_eq 0 x e)
    small_blocks (suc (suc (suc (suc (suc (suc (suc (suc (suc (suc n)))))))))) x e =
        absurd (none_eq x e)

sync_inode-Synced_example : Synced 1 file device
unfolding find_inode
sync_inode-Synced_example =
    sync_inode-Synced 1 file device (omega arith) (omega arith) zero_dinode-IsStorable refl refl
      refl

write-then_remove_example :
    ((write_data file [] 9000 >>= then_remove) device ≡ fails)
    ⊎ (write_data file [] 9000 device ≡ returned (error enospc, file) device)
write-then_remove_example =
    write-then_remove file device 9000 (sparse-IsSound 0) (omega arith)
      (no_blocks 0 1 (omega arith)) refl refl

make_file_system-Made_example : Made 1000 device
make_file_system-Made_example = make_file_system-Made 1000 device (omega arith)

-- The same device with its own map of inodes, and with no inode in memory.
inodes-IsFresh : (b : Bitmap) × (bitmap_create true true 65536 ≡ done b) × IsFresh 65536 b
inodes-IsFresh = bitmap_create-IsFresh 65536 (omega arith)

abbrev idle : FileSystem
idle = record device { inode_freemap = inodes-IsFresh.0; hashed = [] }

reopen-Reopened_example : Reopened idle
reopen-Reopened_example = reopen-Reopened idle (record {
  small = record {
    inode_freemap = omega arith;
    block_freemap = omega arith;
    inode_blocks = omega arith;
    data_blocks = omega arith;
    inodes = omega arith;
    blocks = omega arith;
    limit = omega arith;
  };
  inode_start = refl;
  block_start = refl;
  inode_bits = inodes-IsFresh.2.size;
  inode_bytes = omega (arith, inodes-IsFresh.2.valid.words, inodes-IsFresh.2.size);
  block_bits = freemap-IsFresh.2.size;
  block_bytes = omega (arith, freemap-IsFresh.2.valid.words, freemap-IsFresh.2.size);
  unused = refl;
})
