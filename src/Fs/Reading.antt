-- ===== src/Fs/Reading.antt =====
-- Reading back what testfs_write_data of fs/read_write.c has written.
use web_server_and_user_leve.Prelude.{
  leb-false, ℕ, zero, suc, ◌+◌, ◌-◌, ◌*◌, ◌/◌, ◌%◌, ◌^◌, ◌≤◌, ◌<◌, ◌≡◌, refl, sym, ap, ◌∙◌, ltb,
  ltb-false, some, inl, inr, arith, List, [], ◌∷◌, length, if◌then◌else◌, get_elem?, word_exists,
}
use web_server_and_user_leve.Bitmap.Store.{enosys, enospc}
use web_server_and_user_leve.Fs.State.{
  Block, FileSystem, Inode, Outcome, returned, and_then, pure, ◌>>=◌,
}
use web_server_and_user_leve.Fs.Blocks.{block_size}
use web_server_and_user_leve.Fs.Super.{Ret, value, error}
use web_server_and_user_leve.Fs.Data.{or_else, grown, write_data}
use web_server_and_user_leve.Fs.Slots.{block_of, IsSound}
use web_server_and_user_leve.Fs.Logical.{byte_at, content}
use web_server_and_user_leve.Prelude.{◌⊎◌, leb-true}
use web_server_and_user_leve.Fs.State.{M, faults}
use web_server_and_user_leve.Fs.Data.{
  Read, got, refused, testfs_read_block, copy_out, bytes_of, read_data,
}
use web_server_and_user_leve.Fs.Logical.{testfs_read_block-slot}
use web_server_and_user_leve.Fs.Writing.{overlay}
use web_server_and_user_leve.Fs.Files.{wrote, no_space, refuses, write_data-Writes}

-- The bytes of `f` from a position on.
abbrev pub span : (ℕ → ℕ) → (from n : ℕ) → List ℕ
span f from zero = []
span f from (suc n) = f from ∷ span f (from + 1) n

pub span-cong :
    (f g : ℕ → ℕ) (from n : ℕ)
    → ((i : ℕ) → from ≤ i → i < from + n → f i ≡ g i)
    → span f from n ≡ span g from n
span-cong f g from zero h = refl
span-cong f g from (suc n) h =
    ap (λ x. x ∷ span f (from + 1) n) (h from (omega arith) (omega arith))
    ∙ ap (λ xs. g from ∷ xs)
        (span-cong f g (from + 1) n λ i l u. h i (omega (arith, l)) (omega (arith, u)))

pub bytes_of-span : (b : Block) (from n : ℕ) → bytes_of b from n ≡ span b from n
unfolding bytes_of
bytes_of-span b from zero = refl
bytes_of-span b from (suc n) = ap (λ xs. b from ∷ xs) (bytes_of-span b (from + 1) n)

pub span-shift : (f : ℕ → ℕ) (a from n : ℕ) → span (λ i. f (a + i)) from n ≡ span f (a + from) n
span-shift f a from zero = refl
span-shift f a from (suc n) =
    ap (λ xs. f (a + from) ∷ xs) (span-shift f a (from + 1) n ∙ ap (λ m. span f m n) (later a from))
  where
    later : (a from : ℕ) → a + (from + 1) ≡ a + from + 1
    later a from = omega arith

-- A buffer, byte for byte.
pub span-buffer :
    (buf : List ℕ) (f : ℕ → ℕ) (from : ℕ)
    → ((i : ℕ) → i < length buf → get_elem? buf i ≡ some (f (from + i)))
    → span f from (length buf) ≡ buf
span-buffer [] f from h = refl
span-buffer (x ∷ xs) f from h =
    ap (λ y. y ∷ span f (from + 1) (length xs))
      (sym (some_eq x (f (from + 0)) (h 0 (omega arith)) ∙ ap f (plus_zero from)))
    ∙ ap (λ ys. x ∷ ys)
        (span-buffer xs f (from + 1)
          λ i m. h (suc i) (omega arith) ∙ ap (λ n. some (f n)) (shifted from i))
  where
    some_eq : (a b : ℕ) → some a ≡ some b → a ≡ b
    some_eq a b e = cc

    plus_zero : (n : ℕ) → n + 0 ≡ n
    plus_zero n = omega arith

    shifted : (a i : ℕ) → a + suc i ≡ a + 1 + i
    shifted a i = omega arith

-- testfs_read_data within a sound file and within one block returns the bytes of the file, and changes
-- nothing.
pub read_data-span :
    (node : Inode) (s : FileSystem) (start size : ℕ)
    → IsSound node s
    → start + size ≤ node.dinode.i_size
    → start % 8192 + size ≤ 8192
    → start / 8192 < 2058
    → read_data node start size s ≡ returned (got (span (byte_at node s) start size)) s
unfolding read_data byte_at
read_data-span node s start size ok inside fits small =
    let ix : ℕ = start % 8192 in
    let block : Block = content s (block_of node s (start / 8192)) in
    ap (read_with ix) (
      ap (λ c. if c then (node.dinode.i_size + 2 ^ 64 - start) % 2 ^ 64 else size)
        (ap (λ c. ltb (node.dinode.i_size + (if c then 2 ^ 64 else 0)) (start + size))
            (leb-false (2 ^ 63) size (omega (arith, fits)))
          ∙ ltb-false _ _ (omega (arith, inside))))
    ∙ ap
        (λ c.
          (if c
              then pure (refused enosys)
              else testfs_read_block node (start / 8192) >>= copy_out ix size)
            s)
        (ltb-false 8192 ((ix + size) % 2 ^ 64) (omega (arith, fits)))
    ∙ ap (λ o. and_then o (copy_out ix size))
        (testfs_read_block-slot node s ok (start / 8192) small)
    ∙ ap
        (λ c.
          and_then (if c then returned tt s else faults) λ _. pure (got (bytes_of block ix size)))
        (leb-true (ix + size) 8192 fits)
    ∙ ap (λ xs. returned (got xs) s)
        (bytes_of-span block ix size
          ∙ span-cong block (λ i. byte_at node s (start / 8192 * 8192 + i)) ix size
              (λ i l u. in_block i (omega (arith, u, fits)))
          ∙ span-shift (byte_at node s) (start / 8192 * 8192) ix size
          ∙ ap (λ n. span (byte_at node s) n size) (whole start))
  where
    read_with : ℕ → ℕ → Outcome Read
    read_with ix n =
        (if ltb block_size ((ix + n) % 2 ^ 64)
            then pure (refused enosys)
            else testfs_read_block node (start / 8192) >>= copy_out ix n)
          s

    whole : (n : ℕ) → n / 8192 * 8192 + n % 8192 ≡ n
    whole n = omega arith

    quotient : (m i : ℕ) → i < 8192 → m ≡ (m * 8192 + i) / 8192
    quotient m i h = omega (arith, h)

    remainder : (m i : ℕ) → i < 8192 → i ≡ (m * 8192 + i) % 8192
    remainder m i h = omega (arith, h)

    in_block :
        (i : ℕ)
        → i < 8192
        → content s (block_of node s (start / 8192)) i ≡ byte_at node s (start / 8192 * 8192 + i)
    in_block i h =
        ap (λ j. content s (block_of node s j) i) (quotient (start / 8192) i h)
        ∙ ap (content s (block_of node s ((start / 8192 * 8192 + i) / 8192)))
            (remainder (start / 8192) i h)

abbrev read_again : (start n : ℕ) → Ret × Inode → M Read
read_again start n (value size, node) = read_data node start n
read_again start n (error e, node) = pure (refused e)

-- testfs_write_data and then testfs_read_data of the same bytes.
abbrev pub write_and_read : Inode → List ℕ → ℕ → M Read
write_and_read node buf start = write_data node buf start >>= read_again start (length buf)

overlay-buffer :
    (old : ℕ → ℕ) (buf : List ℕ) (start : ℕ) → span (overlay old buf start) start (length buf) ≡ buf
unfolding overlay
overlay-buffer old buf start = span-buffer buf (overlay old buf start) start λ i h.
    let (x, e) = word_exists buf i h in
    e
    ∙ ap some (
        sym (
          ap
            (λ c.
              if c
              then old (start + i)
              else or_else (get_elem? buf (start + i - start)) (old (start + i)))
            (ltb-false (start + i) start (omega arith))
          ∙ ap (λ n. or_else (get_elem? buf n) (old (start + i))) (minus start i)
          ∙ ap (λ o. or_else o (old (start + i))) e))
  where
    minus : (a i : ℕ) → a + i - a ≡ i
    minus a i = omega arith

grown_past : (node : Inode) (start n : ℕ) → 1 ≤ n → start + n ≤ (grown node start n).dinode.i_size
grown_past node start zero h = absurd (omega arith)
grown_past node start (suc n) h = ground arith

-- What testfs_write_data writes into a sound file, at least one byte within one of the blocks that a file
-- can have, testfs_read_data reads back; or there is no space.
pub write_and_read-buffer :
    (node : Inode) (s : FileSystem) (buf : List ℕ) (start : ℕ)
    → IsSound node s
    → 1 ≤ length buf
    → start % 8192 + length buf ≤ 8192
    → start / 8192 < 2058
    → (s' : FileSystem) × ((write_and_read node buf start s ≡ returned (got buf) s')
        ⊎ (write_and_read node buf start s ≡ returned (refused enospc) s'))
write_and_read-buffer node s buf start ok some_byte fits small =
    elim (write_data-Writes buf start node s ok (omega (arith, small))) [
      | wrote node' s' e near w ↦ (
        s',
        inl (
            ap (λ o. and_then o (read_again start (length buf))) e
            ∙ read_data-span node' s' start (length buf) w.sound
                (omega (arith, w.size, grown_past node start (length buf) some_byte)) fits small
            ∙ ap (λ xs. returned (got xs) s')
                (span-cong (byte_at node' s') (overlay (byte_at node s) buf start) start
                    (length buf) (λ i l u. w.bytes i (omega (arith, u, fits, small)))
                  ∙ overlay-buffer (byte_at node s) buf start)),
      )
      | no_space node' s' e u same ↦
          (s', inr (ap (λ o. and_then o (read_again start (length buf))) e))
      | refuses e why ↦ absurd (elim why [
        | inl crosses ↦ omega (arith, crosses, fits)
        | inr far ↦ omega (arith, far, small)
      ])
    ]
