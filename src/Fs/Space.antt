-- ===== src/Fs/Space.antt =====
-- Allocation of blocks in fs/super.c, on a device with the layout that testfs_make_super_block gives it.
use web_server_and_user_leve.Prelude.{
  ℕ, ◌+◌, ◌-◌, ◌*◌, ◌/◌, ◌%◌, ◌^◌, ◌≤◌, ◌<◌, ◌≡◌, ◌≢◌, ◌⊎◌, inl, inr, refl, ap, ◌∙◌, ◌==◌, ==_ne,
  ltb, leb, leb-true, ltb-true, Bool, true, false, Bool-cases, arith, length, if◌then◌else◌,
}
use web_server_and_user_leve.Bitmap.Store.{Bitmap, enospc, done}
use web_server_and_user_leve.Bitmap.Marks.{IsValid, HasSet, bit_at}
use web_server_and_user_leve.Bitmap.Alloc.{bitmap_alloc-cases}
use web_server_and_user_leve.Bitmap.Single.{bitmap_unmark-HasSet}
use web_server_and_user_leve.Fs.State.{
  Block, FileSystem, Outcome, returned, faults, and_then, M, pure, ◌>>=◌, ◌>>◌, get, modify, assert,
  fails,
}
use web_server_and_user_leve.Fs.Blocks.{
  block_size, zero_blocks, stored, write_block, zero_block, put_words,
}
use web_server_and_user_leve.Fs.Super.{
  Ret, value, error, bits_per_block, freemap_block, super_words, take_block, count_taken,
  get_block_freemap, alloc_block, free_block, put_block_freemap, release_block, write_super_block,
  write_block_freemap,
}

-- The layout, and a free map of 16 blocks.
pub record IsLaidOut (s : FileSystem) : Type 0 where
  pub freemap_start : s.sb.block_freemap_start ≡ 2
  pub data_start : s.sb.data_blocks_start ≡ 146
  pub valid : IsValid s.block_freemap
  pub size : s.block_freemap.nbits ≡ 1048576
  pub limit : s.sb.max_fs_blocks < 2 ^ 32

-- What a change of the free map keeps.
pub record Keeps (s s' : FileSystem) : Type 0 where
  pub laid_out : IsLaidOut s'
  pub blocks : (q : ℕ) → 146 ≤ q → s'.blocks q ≡ s.blocks q
  pub longer : s.dev_length ≤ s'.dev_length
  pub hashed : s'.hashed ≡ s.hashed

-- The bit `index` was clear and has been set.
pub record Took (index : ℕ) (s s' : FileSystem) : Type 0 where
  pub in_range : index < 1048576
  pub was_clear : bit_at s.block_freemap.v index ≡ false
  pub bits :
      (j : ℕ)
      → bit_at s'.block_freemap.v j ≡ (if j == index then true else bit_at s.block_freemap.v j)
  pub kept : Keeps s s'
  pub used : 1 ≤ s'.sb.used_block_count

pub stored_longer :
    (nr : ℕ) (b : Block) (s : FileSystem) → s.dev_length ≤ (stored nr b s).dev_length
stored_longer nr b s = ground arith

pub stored_other :
    (nr q : ℕ) (b : Block) (s : FileSystem) → q ≢ nr → (stored nr b s).blocks q ≡ s.blocks q
stored_other nr q b s h = ap (λ c. if c then b else s.blocks q) (==_ne q nr h)

module _ (s : FileSystem) (ok : IsLaidOut s) where
  -- The store behind a change of the bitmap to `b` at `index`, with the count of used blocks `used`.
  abbrev mapped : Bitmap → ℕ → FileSystem
  mapped b index =
      let s1 : FileSystem = record s { block_freemap = b } in
      stored (s.sb.block_freemap_start + index / bits_per_block)
        (freemap_block b (index / bits_per_block)) s1

  abbrev counting : Bitmap → ℕ → ℕ → FileSystem
  counting b index used =
      let s2 : FileSystem = record (mapped b index) {
        sb = record s.sb { used_block_count = used };
      } in
      stored 0 (put_words zero_block 0 (super_words s2.sb)) s2

  write_fits :
      (b : Bitmap) (index : ℕ) (mark : Bool)
      → HasSet index mark s.block_freemap b
      → index < 1048576
      → leb (index / bits_per_block * block_size + block_size) (length b.v) ≡ true
  write_fits b index mark h small =
      leb-true _ _ (omega (arith, h.valid.words, h.size, ok.size, small))

  counting-Keeps :
      (b : Bitmap) (index used : ℕ) (mark : Bool)
      → HasSet index mark s.block_freemap b
      → index < 1048576
      → Keeps s (counting b index used)
  counting-Keeps b index used mark h small = record {
    laid_out = record {
      freemap_start = ok.freemap_start;
      data_start = ok.data_start;
      valid = h.valid;
      size = h.size ∙ ok.size;
      limit = ok.limit;
    };
    blocks = λ q m.
        stored_other 0 q _
          (record (mapped b index) { sb = record s.sb { used_block_count = used } })
          (λ e. absurd (omega (arith, m, e)))
        ∙ stored_other (s.sb.block_freemap_start + index / bits_per_block) q _
            (record s { block_freemap = b })
            (λ e. absurd (omega (arith, m, e, small, ok.freemap_start)));
    longer = ground (arith, ok.data_start);
    hashed = refl;
  }

  taken :
      (b : Bitmap) (index : ℕ)
      → HasSet index true s.block_freemap b
      → index < 1048576
      → and_then (take_block (done (index, b)) s) count_taken
        ≡ returned (value (146 + index)) (counting b index ((s.sb.used_block_count + 1) % 2 ^ 32))
  unfolding write_block_freemap write_super_block
  taken b index h small =
      let s1 : FileSystem = record s { block_freemap = b } in
      let nr : ℕ = index / bits_per_block in
      ap
        (λ c.
          and_then
            (and_then
              (and_then (if c then returned tt s1 else faults)
                (λ _. write_block (s.sb.block_freemap_start + nr) (freemap_block b nr)))
              (λ _. pure (value index)))
            count_taken)
        (write_fits b index true h small)
      ∙ ap
          (λ start.
            returned (value (start + index))
              (counting b index ((s.sb.used_block_count + 1) % 2 ^ 32)))
          ok.data_start

-- The bit `index` has been cleared, and its block filled with zeros.
pub record Freed (index : ℕ) (s s' : FileSystem) : Type 0 where
  pub bits :
      (j : ℕ)
      → bit_at s'.block_freemap.v j ≡ (if j == index then false else bit_at s.block_freemap.v j)
  pub laid_out : IsLaidOut s'
  pub blocks : (q : ℕ) → 146 ≤ q → q ≢ 146 + index → s'.blocks q ≡ s.blocks q
  pub longer : s.dev_length ≤ s'.dev_length
  pub hashed : s'.hashed ≡ s.hashed
  pub used : s'.sb.used_block_count + 1 ≡ s.sb.used_block_count

pub free_block-Freed :
    (s : FileSystem) (index : ℕ)
    → IsLaidOut s
    → index < 1048576
    → bit_at s.block_freemap.v index ≡ true
    → 1 ≤ s.sb.used_block_count
    → (s' : FileSystem) × (free_block (146 + index) s ≡ returned tt s') × Freed index s s'
unfolding free_block zero_blocks put_block_freemap write_block_freemap write_super_block
free_block-Freed s index ok small is_set used =
    let s0 : FileSystem = stored (146 + index) zero_block s in
    let ok0 : IsLaidOut s0 = record {
      freemap_start = ok.freemap_start;
      data_start = ok.data_start;
      valid = ok.valid;
      size = ok.size;
      limit = ok.limit;
    } in
    let (b, e, h) =
      bitmap_unmark-HasSet s.block_freemap index ok.valid (omega (arith, small, ok.size)) is_set in
    let k : Keeps s0 (counting s0 ok0 b index (s.sb.used_block_count - 1)) =
      counting-Keeps s0 ok0 b index (s.sb.used_block_count - 1) false h small in
    (
      counting s0 ok0 b index (s.sb.used_block_count - 1),
      ap
            (λ c.
              and_then (if c then returned tt s0 else fails)
                λ _. put_block_freemap (146 + index - s.sb.data_blocks_start) >> discount)
            (leb-true s.sb.data_blocks_start (146 + index) (omega (arith, ok.data_start)))
          ∙ ap (λ n. and_then (put_block_freemap n s0) λ _. discount) (omega (arith, ok.data_start))
          ∙ ap (λ r. and_then (release_block index r s0) λ _. discount) e
          ∙ ap
              (λ c.
                and_then
                  (and_then (if c then returned tt (record s0 { block_freemap = b }) else faults)
                    λ _.
                      write_block (s.sb.block_freemap_start + index / bits_per_block)
                        (freemap_block b (index / bits_per_block)))
                  λ _. discount)
              (write_fits s0 ok0 b index false h small)
          ∙ ap (λ c. and_then (if c then returned tt (mapped s0 ok0 b index) else fails) λ _. lower)
              (ltb-true 0 s.sb.used_block_count used),
      record {
        bits = h.bits;
        laid_out = k.laid_out;
        blocks = λ q m n. k.blocks q m ∙ stored_other (146 + index) q zero_block s n;
        longer = omega (arith, k.longer, stored_longer (146 + index) zero_block s);
        hashed = refl;
        used = omega (arith, used);
      },
    )
  where
    lower : M (Unit {0})
    lower = do
      modify λ s. record s { sb = record s.sb { used_block_count = s.sb.used_block_count - 1 } }
      write_super_block

    discount : M (Unit {0})
    discount = do s ← get; assert (ltb 0 s.sb.used_block_count); lower

-- alloc_block takes a clear bit, or there is no space and nothing changes.
pub alloc_block-cases :
    (s : FileSystem)
    → IsLaidOut s
    → ((index : ℕ) × (s' : FileSystem) × (alloc_block s ≡ returned (value (146 + index)) s')
        × Took index s s')
      ⊎ (alloc_block s ≡ returned (error enospc) s)
unfolding alloc_block get_block_freemap
alloc_block-cases s ok = elim (Bool-cases (leb s.sb.max_fs_blocks s.sb.used_block_count)) [
  | inl full ↦ inr (ap tested full)
  | inr free ↦ elim (bitmap_alloc-cases s.block_freemap ok.valid) [
    | inl t ↦ inl (
      t.index,
      counting s ok t.after t.index ((s.sb.used_block_count + 1) % 2 ^ 32),
      ap tested free
          ∙ ap (λ r. and_then (take_block r s) count_taken) t.result
          ∙ taken s ok t.after t.index t.marked (omega (arith, t.in_range, ok.size)),
      record {
        in_range = omega (arith, t.in_range, ok.size);
        was_clear = t.was_clear;
        bits = t.marked.bits;
        kept =
            counting-Keeps s ok t.after t.index _ true t.marked
              (omega (arith, t.in_range, ok.size));
        used = ground (arith, free, ok.limit);
      },
    )
    | inr f ↦ inr (ap tested free ∙ ap (λ r. and_then (take_block r s) count_taken) f.result)
  ]
]
  where
    tested : Bool → Outcome Ret
    tested c = if c then returned (error enospc) s else (get_block_freemap >>= count_taken) s
