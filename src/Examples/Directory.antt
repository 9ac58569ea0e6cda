-- ===== src/Examples/Directory.antt =====
-- A directory with one entry, in the first block of the data.
use web_server_and_user_leve.Prelude.{
  ℕ, zero, suc, ◌≤◌, ◌<◌, ◌≡◌, refl, sym, ap, ◌∙◌, ◌==◌, ==_ne, eqb_eq, Bool-cases, inl, inr, true,
  false, arith, List, [], ◌∷◌, if◌then◌else◌, get_elem?, subst,
}
use web_server_and_user_leve.Bitmap.Store.{Bitmap, done, bitmap_create, bitmap_mark}
use web_server_and_user_leve.Bitmap.Create.{IsFresh, bitmap_create-IsFresh}
use web_server_and_user_leve.Bitmap.Marks.{HasSet}
use web_server_and_user_leve.Bitmap.Single.{bitmap_mark-HasSet}
use web_server_and_user_leve.Fs.State.{Block, Inode, FileSystem}
use web_server_and_user_leve.Fs.Blocks.{zero_block}
use web_server_and_user_leve.Fs.Super.{byte_or_zero}
use web_server_and_user_leve.Fs.Data.{direct_block}
use web_server_and_user_leve.Fs.Table.{zero_dinode, find_inode}
use web_server_and_user_leve.Fs.Slots.{IsSound, IsOwned, block_of}
use web_server_and_user_leve.Fs.Logical.{byte_at, content}
use web_server_and_user_leve.Fs.Placing.{by_kind}
use web_server_and_user_leve.Fs.Directory.{Dirent, dir_name_to_inode_nr}
use web_server_and_user_leve.Fs.Listing.{Lookup, IsEntry, dir_name_to_inode_nr-Lookup}
use web_server_and_user_leve.Fs.Names.{terminator, character}

fresh_map : (b : Bitmap) × (bitmap_create true true 1048576 ≡ done b) × IsFresh 1048576 b
fresh_map = bitmap_create-IsFresh 1048576 (omega arith)

-- The map with the first block in use.
used_map : (b : Bitmap) × (bitmap_mark fresh_map.0 0 ≡ done b) × HasSet 0 true fresh_map.0 b
used_map =
    bitmap_mark-HasSet fresh_map.0 0 fresh_map.2.valid (omega (arith, fresh_map.2.size))
      (fresh_map.2.clear 0 (omega arith))

abbrev entry_bytes : List ℕ
entry_bytes = 2 ∷ 0 ∷ 0 ∷ 0 ∷ 5 ∷ 0 ∷ 0 ∷ 0 ∷ 97 ∷ 0 ∷ []

abbrev entry_block : Block
entry_block o = byte_or_zero (get_elem? entry_bytes o)

abbrev entry : Dirent
entry = record { d_name_len = 2; d_inode_nr = 5; d_name = 97 ∷ 0 ∷ [] }

abbrev directory : Inode
directory = record {
  dinode = record zero_dinode {
    i_type = 2;
    i_block_nr = 146 ∷ 0 ∷ 0 ∷ 0 ∷ 0 ∷ 0 ∷ 0 ∷ 0 ∷ 0 ∷ 0 ∷ [];
    block_count = 1;
    i_size = 10;
  };
  dirty = false;
  i_nr = 0;
  i_count = 1;
}

abbrev device : FileSystem
device = record {
  sb = record {
    inode_freemap_start = 1;
    block_freemap_start = 2;
    inode_blocks_start = 18;
    data_blocks_start = 146;
    used_inode_count = 1;
    used_block_count = 1;
    max_fs_blocks = 1000;
  };
  blocks = λ nr. if nr == 146 then entry_block else zero_block;
  dev_length = 147;
  inode_freemap = fresh_map.0;
  block_freemap = used_map.0;
  hashed = directory ∷ [];
}

abbrev only_first : ℕ → ℕ
only_first j = if j == 0 then 146 else 0

direct_blocks : (j : ℕ) → j < 10 → direct_block directory j ≡ only_first j
direct_blocks zero h = refl
direct_blocks (suc zero) h = refl
direct_blocks (suc (suc zero)) h = refl
direct_blocks (suc (suc (suc zero))) h = refl
direct_blocks (suc (suc (suc (suc zero)))) h = refl
direct_blocks (suc (suc (suc (suc (suc zero))))) h = refl
direct_blocks (suc (suc (suc (suc (suc (suc zero)))))) h = refl
direct_blocks (suc (suc (suc (suc (suc (suc (suc zero))))))) h = refl
direct_blocks (suc (suc (suc (suc (suc (suc (suc (suc zero)))))))) h = refl
direct_blocks (suc (suc (suc (suc (suc (suc (suc (suc (suc zero))))))))) h = refl
direct_blocks (suc (suc (suc (suc (suc (suc (suc (suc (suc (suc n)))))))))) h =
    absurd (omega (arith, h))

directory_slots : (j : ℕ) → j ≤ 2058 → block_of directory device j ≡ only_first j
directory_slots =
    by_kind directory device only_first direct_blocks
      (λ j low high. sym (ap (λ c. if c then 146 else 0) (==_ne j 0 (λ e. omega (arith, e, low)))))
      refl

first_slot : (j : ℕ) → j ≤ 2058 → 1 ≤ block_of directory device j → j ≡ 0
first_slot j h m = elim (Bool-cases (j == 0)) [
  | inl e ↦ eqb_eq j 0 e
  | inr e ↦ absurd (omega (arith, m, directory_slots j h ∙ ap (λ c. if c then 146 else 0) e))
]

first_block :
    (j : ℕ) → j ≤ 2058 → 1 ≤ block_of directory device j → block_of directory device j ≡ 146
first_block j h m = directory_slots j h ∙ ap only_first (first_slot j h m)

first-IsOwned : IsOwned device 146
first-IsOwned = record { low = omega arith; high = omega arith; used = used_map.2.bits 0 }

directory-IsSound : IsSound directory device
directory-IsSound = record {
  laid_out = record {
    freemap_start = refl;
    data_start = refl;
    valid = used_map.2.valid;
    size = used_map.2.size ∙ fresh_map.2.size;
    limit = omega arith;
  };
  ten = refl;
  slots = record {
    owned = λ k h m. subst (IsOwned device) (sym (first_block k h m)) first-IsOwned;
    apart = λ j k hj hk m e. first_slot j hj m ∙ sym (first_slot k hk (omega (arith, m, e)));
  };
  present = λ k h m. omega (arith, first_block k h m);
}

entry-IsEntry : IsEntry (byte_at directory device) 10 0 entry
unfolding byte_at block_of content
entry-IsEntry = record {
  numbers = refl;
  name = refl;
  string = character (omega arith) terminator;
  some_name = omega arith;
  small = omega arith;
  fits = omega arith;
}

dir_name_to_inode_nr-Lookup_example :
    Lookup (97 ∷ []) (entry ∷ []) device (dir_name_to_inode_nr 0 (97 ∷ []) device)
unfolding find_inode
dir_name_to_inode_nr-Lookup_example =
    dir_name_to_inode_nr-Lookup 0 directory device directory-IsSound refl refl (omega arith)
      (97 ∷ []) (entry ∷ []) (omega arith, tt) (entry-IsEntry, refl)
