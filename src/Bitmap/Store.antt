-- ===== src/Bitmap/Store.antt =====
-- The operations of fs/bitmap.c. bitmap_getdata and bitmap_getsize are the fields `v` and `nbits`;
-- bitmap_destroy frees them.
use web_server_and_user_leve.Prelude.{
  ℕ, zero, suc, ◌+◌, ◌-◌, ◌*◌, ◌/◌, ◌%◌, ◌^◌, ◌==◌, ltb, Bool, true, false, not, ◌&&◌, Option, none,
  some, List, [], ◌∷◌, if◌then◌else◌, get_elem?, set,
}
use web_server_and_user_leve.Bitmap.Words.{bits_per_word, word_allbits, or, and, and_not, mask_of}

pub record Bitmap : Type 0 where
  pub nbits : ℕ
  pub v : List ℕ

-- The error codes that the operations of the file system return.
pub data Error : Type 0 where
  enomem enospc enosys enoent eexist einval eisdir enotdir enotempty : Error

-- A result; an error; an assert that fails; a read outside `v`.
pub data Result {ℓ} (A : Type ℓ) : Type ℓ where
  done : A → Result A
  failed : Error → Result A
  aborted : Result A
  undefined : Result A

abbrev pub assert : {A : Type 0} → Bool → Result A → Result A
assert b r = if b then r else aborted

abbrev pub u32 : ℕ → ℕ
u32 n = n % 2 ^ 32

-- DIVROUNDUP(nbits, BITS_PER_WORD)
abbrev pub words_of : ℕ → ℕ
words_of nbits = u32 (nbits + bits_per_word - 1) / bits_per_word

-- `v[ix]`, handed to the rest of the operation.
abbrev pub with_word : {A : Type 0} → List ℕ → ℕ → (ℕ → Result A) → Result A
with_word v ix f = elim (get_elem? v ix) [ some x ↦ f x | none ↦ undefined ]

abbrev pub zeros : ℕ → List ℕ
zeros zero = []
zeros (suc n) = 0 ∷ zeros n

-- The loop of `bitmap_create` from `j` on, for `n` rounds.
unfoldable pub set_bits_from : ℕ → ℕ → ℕ → ℕ
set_bits_from zero j x = x
set_bits_from (suc n) j x = set_bits_from n (j + 1) (or x (mask_of j))

-- The block of `bitmap_create` that marks the leftover bits, behind its first assert.
abbrev pub mark_from : Bitmap → ℕ → ℕ → Result Bitmap
mark_from b ix overbits = assert (ltb 0 overbits && ltb overbits bits_per_word) (
    with_word b.v ix
      λ x. done (record b { v = set b.v ix (set_bits_from (bits_per_word - overbits) overbits x) }))

unfoldable pub mark_leftover : Bitmap → ℕ → Result Bitmap
mark_leftover b words =
    let ix : ℕ = words - 1 in
    assert (b.nbits / bits_per_word == words - 1)
      (mark_from b ix (u32 (b.nbits + 2 ^ 32 - u32 (ix * bits_per_word))))

-- bitmap_create; `for_b` and `for_v` say whether the two calls of malloc find memory.
unfoldable pub bitmap_create : (for_b for_v : Bool) → ℕ → Result Bitmap
bitmap_create false for_v nbits = failed enomem
bitmap_create true false nbits = failed enomem
bitmap_create true true nbits =
    let words : ℕ = words_of nbits in
    let b : Bitmap = record { nbits = nbits; v = zeros words } in
    if ltb (nbits / bits_per_word) words then mark_leftover b words else done b

-- The inner loop of `bitmap_alloc` from `offset` on, for `n` rounds: the first clear bit.
unfoldable pub clear_bit_from : ℕ → ℕ → ℕ → Option ℕ
clear_bit_from zero offset x = none
clear_bit_from (suc n) offset x =
    let rest = clear_bit_from n (offset + 1) x in
    if and x (mask_of offset) == 0 then some offset else rest

-- What the inner loop does at the bit that it has found, in the word `x` at `ix`.
unfoldable pub take_bit : Bitmap → ℕ → ℕ → Option ℕ → Result (ℕ × Bitmap)
take_bit b ix x none = aborted
take_bit b ix x (some offset) =
    let index : ℕ = u32 (ix * bits_per_word + offset) in
    assert (ltb index b.nbits) (done (index, record b { v = set b.v ix (or x (mask_of offset)) }))

-- The outer loop of `bitmap_alloc` from `ix` on, for `n` rounds.
unfoldable pub alloc_from : ℕ → ℕ → Bitmap → Result (ℕ × Bitmap)
alloc_from zero ix b = failed enospc
alloc_from (suc n) ix b =
    let rest = alloc_from n (ix + 1) b in
    with_word b.v ix
      λ x. if x == word_allbits then rest else take_bit b ix x (clear_bit_from bits_per_word 0 x)

-- bitmap_alloc: `*index` and the bitmap.
unfoldable pub bitmap_alloc : Bitmap → Result (ℕ × Bitmap)
bitmap_alloc b = alloc_from (words_of b.nbits) 0 b

-- bitmap_translate: `*ix` and `*mask`.
abbrev pub bitmap_translate : ℕ → ℕ × ℕ
bitmap_translate bitno = (bitno / bits_per_word, mask_of (bitno % bits_per_word))

-- `bitmap_mark` and `bitmap_unmark` at the word `x`.
abbrev pub mark_word : Bitmap → ℕ → ℕ → ℕ → Result Bitmap
mark_word b ix mask x = assert (and x mask == 0) (done (record b { v = set b.v ix (or x mask) }))

abbrev pub unmark_word : Bitmap → ℕ → ℕ → ℕ → Result Bitmap
unmark_word b ix mask x =
    assert (not (and x mask == 0)) (done (record b { v = set b.v ix (and_not x mask) }))

unfoldable pub bitmap_mark : Bitmap → ℕ → Result Bitmap
bitmap_mark b index =
    let (ix, mask) = bitmap_translate index in
    assert (ltb index b.nbits) (with_word b.v ix (mark_word b ix mask))

unfoldable pub bitmap_unmark : Bitmap → ℕ → Result Bitmap
bitmap_unmark b index =
    let (ix, mask) = bitmap_translate index in
    assert (ltb index b.nbits) (with_word b.v ix (unmark_word b ix mask))

-- bitmap_isset: not 0 where the bit is set.
unfoldable pub bitmap_isset : Bitmap → ℕ → Result ℕ
bitmap_isset b index =
    let (ix, mask) = bitmap_translate index in with_word b.v ix λ x. done (and x mask)

-- One round of `bitmap_nr_allocated`, with the count of the rounds before, an `int`.
abbrev pub count_bit : Result ℕ → Result ℕ → Result ℕ
count_bit (done x) (done nr) =
    if x == 0 then done nr else if ltb (nr + 1) (2 ^ 31) then done (nr + 1) else undefined
count_bit (done x) (failed e) = failed e
count_bit (done x) aborted = aborted
count_bit (done x) undefined = undefined
count_bit (failed e) r = failed e
count_bit aborted r = aborted
count_bit undefined r = undefined

-- The first `n` rounds of the loop.
unfoldable pub count_bits : Bitmap → ℕ → Result ℕ
count_bits b zero = done 0
count_bits b (suc n) = count_bit (bitmap_isset b n) (count_bits b n)

unfoldable pub bitmap_nr_allocated : Bitmap → Result ℕ
bitmap_nr_allocated b = count_bits b b.nbits
