-- ===== src/Bitmap/Wrap.antt =====
-- bitmap_create of fs/bitmap.c for the sizes at which DIVROUNDUP wraps around.
use web_server_and_user_leve.Prelude.{
  ℕ, ◌+◌, ◌/◌, ◌%◌, ◌^◌, ◌<◌, ◌≤◌, ◌≡◌, ap, ◌∙◌, ltb-true, ltb-false, true, arith, if◌then◌else◌,
}
use web_server_and_user_leve.Bitmap.Words.{mask_of}
use web_server_and_user_leve.Bitmap.Store.{
  Bitmap, Result, done, undefined, assert, with_word, words_of, zeros, mark_leftover, mark_word,
  bitmap_create, bitmap_mark,
}

-- For the seven largest sizes of a `u_int32_t`, `bitmap_create` succeeds with an array of no words, so
-- that `bitmap_mark` of any index of the bitmap reads outside the array.
pub bitmap_mark-bitmap_create_wraps :
    (nbits i : ℕ)
    → 2 ^ 32 ≤ nbits + 7
    → nbits < 2 ^ 32
    → i < nbits
    → (b : Bitmap) × (bitmap_create true true nbits ≡ done b) × (bitmap_mark b i ≡ undefined)
unfolding bitmap_create bitmap_mark
bitmap_mark-bitmap_create_wraps nbits i large small inside =
    let words : words_of nbits ≡ 0 = omega (arith, large, small) in
    (
      fresh,
      ap (λ c. if c then mark_leftover fresh (words_of nbits) else done fresh)
          (ltb-false (nbits / 8) (words_of nbits) (omega (arith, words))),
      ap (λ c. assert c (with_word (zeros (words_of nbits)) (i / 8) mark)) (ltb-true i nbits inside)
          ∙ ap (λ n. with_word (zeros n) (i / 8) mark) words,
    )
  where
    fresh : Bitmap
    fresh = record { nbits = nbits; v = zeros (words_of nbits) }

    mark : ℕ → Result Bitmap
    mark = mark_word fresh (i / 8) (mask_of (i % 8))
