-- ===== src/Examples/Bitmap.antt =====
-- A bitmap of ten bits.
use web_server_and_user_leve.Prelude.{ℕ, ◌<◌, ◌≡◌, ◌⊎◌, true, arith}
use web_server_and_user_leve.Bitmap.Store.{
  Bitmap, done, undefined, bitmap_create, bitmap_alloc, bitmap_mark, bitmap_unmark,
  bitmap_nr_allocated,
}
use web_server_and_user_leve.Bitmap.Marks.{bit_at}
use web_server_and_user_leve.Bitmap.Single.{
  bitmap_unmark-bitmap_mark, bits_set, in_int, bitmap_nr_allocated_lem,
}
use web_server_and_user_leve.Bitmap.Alloc.{Takes, IsFull, bitmap_alloc-cases}
use web_server_and_user_leve.Bitmap.Wrap.{bitmap_mark-bitmap_create_wraps}
use web_server_and_user_leve.Bitmap.Create.{IsFresh, bitmap_create-IsFresh}

bitmap_create-IsFresh_example : (b : Bitmap) × (bitmap_create true true 10 ≡ done b) × IsFresh 10 b
bitmap_create-IsFresh_example = bitmap_create-IsFresh 10 (omega arith)

abbrev ten : Bitmap
ten = (bitmap_create-IsFresh 10 (omega arith)).0

ten-IsFresh : IsFresh 10 ten
ten-IsFresh = (bitmap_create-IsFresh 10 (omega arith)).2

three_inside : 3 < ten.nbits
three_inside = omega (arith, ten-IsFresh.size)

bitmap_alloc-cases_example : Takes ten (bitmap_alloc ten) ⊎ IsFull ten (bitmap_alloc ten)
bitmap_alloc-cases_example = bitmap_alloc-cases ten ten-IsFresh.valid

bitmap_unmark-bitmap_mark_example :
    (b' b'' : Bitmap) × (bitmap_mark ten 3 ≡ done b')
    × (bitmap_unmark b' 3 ≡ done b'')
    × ((j : ℕ) → bit_at b''.v j ≡ bit_at ten.v j)
bitmap_unmark-bitmap_mark_example =
    bitmap_unmark-bitmap_mark ten 3 ten-IsFresh.valid three_inside
      (ten-IsFresh.clear 3 (omega arith))

bitmap_nr_allocated_lem_example : bitmap_nr_allocated ten ≡ in_int (bits_set ten.v ten.nbits)
bitmap_nr_allocated_lem_example = bitmap_nr_allocated_lem ten ten-IsFresh.valid

bitmap_mark-bitmap_create_wraps_example :
    (b : Bitmap) × (bitmap_create true true 4294967295 ≡ done b) × (bitmap_mark b 0 ≡ undefined)
bitmap_mark-bitmap_create_wraps_example =
    bitmap_mark-bitmap_create_wraps 4294967295 0 (omega arith) (omega arith) (omega arith)
