-- ===== src/Fs/Maps.antt =====
-- Writing the data of a bitmap to the device and reading it back, in fs/super.c.
use web_server_and_user_leve.Prelude.{
  ℕ, zero, suc, ◌+◌, ◌*◌, ◌≤◌, ◌<◌, ◌≡◌, ◌≢◌, ◌⊎◌, inl, inr, refl, sym, ap, ◌∙◌, ==_ne, ltb,
  leb-true, arith, List, [], ◌∷◌, ◌++◌, length, if◌then◌else◌, get_elem?, update, updated, some,
  word_exists,
}
use web_server_and_user_leve.Bitmap.Store.{Bitmap, Result, done}
use web_server_and_user_leve.Fs.State.{
  Block, FileSystem, M, returned, faults, and_then, pure, ◌>>=◌,
}
use web_server_and_user_leve.Fs.Blocks.{block_size, stored}
use web_server_and_user_leve.Fs.Super.{Ret, byte_or_zero, freemap_block}
use web_server_and_user_leve.Fs.Data.{bytes_of}
use web_server_and_user_leve.Fs.Logical.{read_block-present}
use web_server_and_user_leve.Fs.Reading.{span, span-buffer, bytes_of-span, span-shift}
use web_server_and_user_leve.Fs.Opening.{read_map, write_map_from, write_map, load_map}

module _ (b : Bitmap) where
  -- The device behind write_blocks of `nr` blocks of a bitmap, from its block `i` on.
  abbrev map_blocks : (start i nr : ℕ) → (ℕ → Block) → ℕ → Block
  map_blocks start i zero blocks = blocks
  map_blocks start i (suc nr) blocks =
      map_blocks (start + 1) (i + 1) nr (update blocks start (freemap_block b i))

  abbrev map_length : (start nr : ℕ) → ℕ → ℕ
  map_length start zero n = n
  map_length start (suc nr) n = map_length (start + 1) nr (if ltb start n then n else start + 1)

  unfoldable pub mapped_from : (start i nr : ℕ) → FileSystem → FileSystem
  mapped_from start i nr s = record s {
    blocks = map_blocks start i nr s.blocks;
    dev_length = map_length start nr s.dev_length;
  }

  pub write_map_from-mapped_from :
      (start i nr : ℕ) (s : FileSystem)
      → write_map_from b start i nr s ≡ returned tt (mapped_from start i nr s)
  unfolding write_map_from mapped_from
  write_map_from-mapped_from start i zero s = refl
  write_map_from-mapped_from start i (suc nr) s =
      write_map_from-mapped_from (start + 1) (i + 1) nr (stored start (freemap_block b i) s)

  map_outside :
      (start i nr q : ℕ) (blocks : ℕ → Block)
      → (q < start) ⊎ (start + nr ≤ q)
      → map_blocks start i nr blocks q ≡ blocks q
  map_outside start i zero q blocks h = refl
  map_outside start i (suc nr) q blocks h =
      map_outside (start + 1) (i + 1) nr q (update blocks start (freemap_block b i)) (further h)
      ∙ ap (λ c. if c then freemap_block b i else blocks q) (==_ne q start (apart h))
    where
      further : (q < start) ⊎ (start + suc nr ≤ q) → (q < start + 1) ⊎ (start + 1 + nr ≤ q)
      further (inl low) = inl (omega (arith, low))
      further (inr high) = inr (omega (arith, high))

      apart : (q < start) ⊎ (start + suc nr ≤ q) → q ≢ start
      apart (inl low) e = omega (arith, low, e)
      apart (inr high) e = omega (arith, high, e)

  map_inside :
      (start i nr j : ℕ) (blocks : ℕ → Block)
      → j < nr
      → map_blocks start i nr blocks (start + j) ≡ freemap_block b (i + j)
  map_inside start i zero j blocks h = absurd (omega (arith, h))
  map_inside start i (suc nr) zero blocks h =
      ap (map_blocks (start + 1) (i + 1) nr (update blocks start (freemap_block b i)))
        (plus_zero start)
      ∙ map_outside (start + 1) (i + 1) nr start (update blocks start (freemap_block b i))
          (inl (omega arith))
      ∙ updated blocks start (freemap_block b i)
      ∙ ap (freemap_block b) (sym (plus_zero i))
    where
      plus_zero : (n : ℕ) → n + 0 ≡ n
      plus_zero n = omega arith
  map_inside start i (suc nr) (suc j) blocks h =
      ap (map_blocks (start + 1) (i + 1) nr (update blocks start (freemap_block b i)))
        (shifted start j)
      ∙ map_inside (start + 1) (i + 1) nr j (update blocks start (freemap_block b i))
          (omega (arith, h))
      ∙ ap (freemap_block b) (sym (shifted i j))
    where
      shifted : (a n : ℕ) → a + suc n ≡ a + 1 + n
      shifted a n = omega arith

  length_longer : (start nr n : ℕ) → n ≤ map_length start nr n
  length_longer start zero n = omega arith
  length_longer start (suc nr) n =
      omega
        (arith, length_longer (start + 1) nr (if ltb start n then n else start + 1), first start n)
    where
      first : (a m : ℕ) → m ≤ (if ltb a m then m else a + 1)
      first a m = ground arith

  length_reach : (start nr n : ℕ) → start ≤ n → start + nr ≤ map_length start nr n
  length_reach start zero n h = omega (arith, h)
  length_reach start (suc nr) n h =
      omega
        (arith, length_reach (start + 1) nr (if ltb start n then n else start + 1) (first start n))
    where
      first : (a m : ℕ) → a + 1 ≤ (if ltb a m then m else a + 1)
      first a m = ground arith

  -- What it leaves: the blocks of the map in their place, the others as they were.
  pub record Mapped (start nr : ℕ) (s s' : FileSystem) : Type 0 where
    pub outside : (q : ℕ) → (q < start) ⊎ (start + nr ≤ q) → s'.blocks q ≡ s.blocks q
    pub inside : (j : ℕ) → j < nr → s'.blocks (start + j) ≡ freemap_block b j
    pub longer : s.dev_length ≤ s'.dev_length
    pub reach : start ≤ s.dev_length → start + nr ≤ s'.dev_length

  pub mapped_from-Mapped :
      (start nr : ℕ) (s : FileSystem) → Mapped start nr s (mapped_from start 0 nr s)
  unfolding mapped_from
  mapped_from-Mapped start nr s = record {
    outside = λ q h. map_outside start 0 nr q s.blocks h;
    inside = λ j h. map_inside start 0 nr j s.blocks h ∙ ap (freemap_block b) (zero_plus j);
    longer = length_longer start nr s.dev_length;
    reach = length_reach start nr s.dev_length;
  }
    where
      zero_plus : (n : ℕ) → 0 + n ≡ n
      zero_plus n = omega arith

  pub write_map-mapped_from :
      (start nr : ℕ) (s : FileSystem)
      → nr * 8192 ≤ length b.v
      → write_map b start nr s ≡ returned tt (mapped_from start 0 nr s)
  unfolding write_map
  write_map-mapped_from start nr s h =
      ap (λ c. and_then (if c then returned tt s else faults) λ _. write_map_from b start 0 nr)
        (leb-true (nr * 8192) (length b.v) h)
      ∙ write_map_from-mapped_from start 0 nr s

  abbrev byte : ℕ → ℕ
  byte o = byte_or_zero (get_elem? b.v o)

  -- The bytes of the blocks from `i` on.
  unfoldable map_bytes : (i nr : ℕ) → List ℕ
  unfolding bytes_of
  map_bytes i zero = []
  map_bytes i (suc nr) = bytes_of (freemap_block b i) 0 block_size ++ map_bytes (i + 1) nr

  read_map-map_bytes :
      (start i nr : ℕ) (s : FileSystem)
      → ((j : ℕ) → j < nr → s.blocks (start + j) ≡ freemap_block b (i + j))
      → start + nr ≤ s.dev_length
      → read_map start nr s ≡ returned (map_bytes i nr) s
  unfolding read_map map_bytes
  read_map-map_bytes start i zero s h there = refl
  read_map-map_bytes start i (suc nr) s h there =
      ap
        (λ o.
          and_then o
            λ block. read_map (start + 1) nr >>= λ rest. pure (bytes_of block 0 block_size ++ rest))
        (read_block-present start s (omega (arith, there)))
      ∙ ap
          (λ block.
            (read_map (start + 1) nr >>= λ rest. pure (bytes_of block 0 block_size ++ rest)) s)
          (ap s.blocks (sym (plus_zero start))
            ∙ h 0 (omega arith)
            ∙ ap (freemap_block b) (plus_zero i))
      ∙ ap (λ o. and_then o λ rest. pure (bytes_of (freemap_block b i) 0 block_size ++ rest))
          (read_map-map_bytes (start + 1) (i + 1) nr s
            (λ j l.
              ap s.blocks (sym (shifted start j))
              ∙ h (suc j) (omega (arith, l))
              ∙ ap (freemap_block b) (shifted i j))
            (omega (arith, there)))
    where
      plus_zero : (n : ℕ) → n + 0 ≡ n
      plus_zero n = omega arith

      shifted : (a n : ℕ) → a + suc n ≡ a + 1 + n
      shifted a n = omega arith

  span_append :
      (f : ℕ → ℕ) (from n m : ℕ) → span f from n ++ span f (from + n) m ≡ span f from (n + m)
  span_append f from zero m = ap (λ a. span f a m) (plus_zero from) ∙ ap (span f from) (zero_plus m)
    where
      plus_zero : (n : ℕ) → n + 0 ≡ n
      plus_zero n = omega arith

      zero_plus : (n : ℕ) → n ≡ 0 + n
      zero_plus n = omega arith
  span_append f from (suc n) m =
      ap (λ a. f from ∷ span f (from + 1) n ++ span f a m) (shifted from n)
      ∙ ap (λ xs. f from ∷ xs) (span_append f (from + 1) n m)
      ∙ ap (span f from) (grouped n m)
    where
      shifted : (a n : ℕ) → a + suc n ≡ a + 1 + n
      shifted a n = omega arith

      grouped : (n m : ℕ) → suc (n + m) ≡ suc n + m
      grouped n m = omega arith

  block-span : (i n : ℕ) → bytes_of (freemap_block b i) 0 n ≡ span byte (i * 8192) n
  block-span i n =
      bytes_of-span (freemap_block b i) 0 n
      ∙ span-shift byte (i * 8192) 0 n
      ∙ ap (λ a. span byte a n) (plus_zero (i * 8192))
    where
      plus_zero : (n : ℕ) → n + 0 ≡ n
      plus_zero n = omega arith

  join :
      (size a nr : ℕ)
      → span byte a size ++ span byte (a + size) (nr * size) ≡ span byte a (suc nr * size)
  join size a nr = span_append byte a size (nr * size) ∙ ap (span byte a) (one_more size nr)
    where
      one_more : (n m : ℕ) → n + m * n ≡ suc m * n
      one_more n m = omega arith

  map_bytes-span : (i nr : ℕ) → map_bytes i nr ≡ span byte (i * 8192) (nr * 8192)
  unfolding map_bytes
  map_bytes-span i zero = refl
  map_bytes-span i (suc nr) =
      ap (λ xs. xs ++ map_bytes (i + 1) nr) (block-span i 8192)
      ∙ ap (λ xs. span byte (i * 8192) 8192 ++ xs)
          (map_bytes-span (i + 1) nr ∙ ap (λ a. span byte a (nr * 8192)) (next_block i))
      ∙ join 8192 (i * 8192) nr
    where
      next_block : (i : ℕ) → (i + 1) * 8192 ≡ i * 8192 + 8192
      next_block i = omega arith

  map_bytes-whole : (nr : ℕ) → length b.v ≡ nr * 8192 → map_bytes 0 nr ≡ b.v
  map_bytes-whole nr e =
      map_bytes-span 0 nr
      ∙ ap (span byte 0) (sym e)
      ∙ span-buffer b.v byte 0 λ i h.
        let (x, at) = word_exists b.v i h in
        at ∙ ap (λ o. some (byte_or_zero o)) (sym at) ∙ ap (λ n. some (byte n)) (zero_plus i)
    where
      zero_plus : (n : ℕ) → n ≡ 0 + n
      zero_plus n = omega arith

-- testfs_init_super_block reads back a map that is on the device.
pub load_map-mapped :
    (r : Result Bitmap) (fresh b : Bitmap) (start nr : ℕ) (next : Bitmap → M Ret) (s : FileSystem)
    → r ≡ done fresh
    → fresh.nbits ≡ b.nbits
    → nr * 8192 ≤ length fresh.v
    → length b.v ≡ nr * 8192
    → ((j : ℕ) → j < nr → s.blocks (start + j) ≡ freemap_block b j)
    → start + nr ≤ s.dev_length
    → load_map r start nr next s ≡ next b s
load_map-mapped r fresh b start nr next s e same room whole h there =
    ap (λ q. load_map q start nr next s) e
    ∙ ap
        (λ c.
          and_then (and_then (if c then returned tt s else faults) λ _. read_map start nr)
            λ v. next (record fresh { v = v }))
        (leb-true (nr * 8192) (length fresh.v) room)
    ∙ ap (λ o. and_then o λ v. next (record fresh { v = v }))
        (read_map-map_bytes b start 0 nr s (λ j l. h j l ∙ ap (freemap_block b) (zero_plus j))
          there)
    ∙ ap (λ v. next (record fresh { v = v }) s) (map_bytes-whole b nr whole)
    ∙ ap (λ n. next (record { nbits = n; v = b.v }) s) same
  where
    zero_plus : (n : ℕ) → n ≡ 0 + n
    zero_plus n = omega arith
