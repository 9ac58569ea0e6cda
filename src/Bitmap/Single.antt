-- ===== src/Bitmap/Single.antt =====
-- bitmap_mark, bitmap_unmark, mark_word, unmark_word, bitmap_isset and bitmap_nr_allocated of fs/bitmap.c on valid bitmaps.
use web_server_and_user_leve.Prelude.{
  ◌^◌, ltb, ltb_lt, ltb_ge, Bool-cases, inl, inr, word_exists, ℕ, zero, suc, ◌+◌, ◌/◌, ◌%◌, ◌<◌,
  ◌≤◌, ◌≡◌, refl, sym, ap, ◌∙◌, ◌==◌, Bool, ltb-true, ltb-false, eqb_eq, ==_self, true, false, not,
  ◌&&◌, ◌||◌, some, List, if◌then◌else◌, get_elem?, set, arith,
}
use web_server_and_user_leve.Bitmap.Words.{bit, or, and, and_not, mask_of}
use web_server_and_user_leve.Bitmap.Bits.{and-mask_of, mask_of_pos}
use web_server_and_user_leve.Bitmap.Store.{
  Bitmap, Result, done, aborted, undefined, assert, with_word, bitmap_mark, bitmap_unmark,
  mark_word, unmark_word, bitmap_isset, bitmap_nr_allocated, count_bits, count_bit,
}
use web_server_and_user_leve.Bitmap.Marks.{
  bit_at, bit_at_eq, IsValid, HasSet, IsWrite, write-HasSet,
}

pub or_writes : IsWrite (λ x y. x || y) true
or_writes = record { keeps = or_keeps; writes = or_true }
  where
    or_keeps : (x : Bool) → x || false ≡ x
    or_keeps true = refl
    or_keeps false = refl

    or_true : (x : Bool) → x || true ≡ true
    or_true true = refl
    or_true false = refl

and_not_writes : IsWrite (λ x y. x && not y) false
and_not_writes = record { keeps = and_keeps; writes = and_false }
  where
    and_keeps : (x : Bool) → x && true ≡ x
    and_keeps true = refl
    and_keeps false = refl

    and_false : (x : Bool) → x && false ≡ false
    and_false true = refl
    and_false false = refl

-- `(x & mask) == 0`
pub and_is_zero : (j x : ℕ) → j < 8 → (and x (mask_of j) == 0) ≡ not (bit j x)
and_is_zero j x h = ap (λ y. y == 0) (and-mask_of 8 j x h) ∙ cases (bit j x)
  where
    cases : (b : Bool) → ((if b then mask_of j else 0) == 0) ≡ not b
    cases b = ground (arith, mask_of_pos j)

pub with_word_eq :
    {A : Type 0} (v : List ℕ) (ix x : ℕ) (f : ℕ → Result A)
    → get_elem? v ix ≡ some x
    → with_word v ix f ≡ f x
with_word_eq v ix x f e = rw (e, with_word) refl

-- Every index below `nbits` has its word.
pub word_of :
    (b : Bitmap) (i : ℕ)
    → IsValid b
    → i < b.nbits
    → (x : ℕ) × (get_elem? b.v (i / 8) ≡ some x) × (bit_at b.v i ≡ bit (i % 8) x)
word_of b i valid small =
    let (x, e) = word_exists b.v (i / 8) (omega (arith, valid.words)) in (x, e, bit_at_eq b.v i x e)

-- The two writes come down to their second assert.
abbrev pub written : (ℕ → ℕ → ℕ) → Bitmap → ℕ → ℕ → Bitmap
written op b i x = record b { v = set b.v (i / 8) (op x (mask_of (i % 8))) }

bitmap_mark-written :
    (b : Bitmap) (i x : ℕ)
    → i < b.nbits
    → get_elem? b.v (i / 8) ≡ some x
    → bit_at b.v i ≡ bit (i % 8) x
    → bitmap_mark b i ≡ assert (not (bit_at b.v i)) (done (written or b i x))
unfolding bitmap_mark
bitmap_mark-written b i x small e is =
    ap (λ c. assert c (with_word b.v (i / 8) (mark_word b (i / 8) (mask_of (i % 8)))))
      (ltb-true i b.nbits small)
    ∙ with_word_eq b.v (i / 8) x (mark_word b (i / 8) (mask_of (i % 8))) e
    ∙ ap (λ c. assert c (done (written or b i x)))
        (and_is_zero (i % 8) x (omega arith) ∙ ap not (sym is))

bitmap_unmark-written :
    (b : Bitmap) (i x : ℕ)
    → i < b.nbits
    → get_elem? b.v (i / 8) ≡ some x
    → bit_at b.v i ≡ bit (i % 8) x
    → bitmap_unmark b i ≡ assert (not (not (bit_at b.v i))) (done (written and_not b i x))
unfolding bitmap_unmark
bitmap_unmark-written b i x small e is =
    ap (λ c. assert c (with_word b.v (i / 8) (unmark_word b (i / 8) (mask_of (i % 8)))))
      (ltb-true i b.nbits small)
    ∙ with_word_eq b.v (i / 8) x (unmark_word b (i / 8) (mask_of (i % 8))) e
    ∙ ap (λ c. assert (not c) (done (written and_not b i x)))
        (and_is_zero (i % 8) x (omega arith) ∙ ap not (sym is))

-- `bitmap_mark` of a clear bit of a valid bitmap sets that bit, keeps the others, and keeps the bitmap
-- valid.
pub bitmap_mark-HasSet :
    (b : Bitmap) (i : ℕ)
    → IsValid b
    → i < b.nbits
    → bit_at b.v i ≡ false
    → (b' : Bitmap) × (bitmap_mark b i ≡ done b') × HasSet i true b b'
bitmap_mark-HasSet b i valid small clear =
    let (x, e, is) = word_of b i valid small in
    (
      written or b i x,
      bitmap_mark-written b i x small e is
          ∙ ap (λ c. assert (not c) (done (written or b i x))) clear,
      write-HasSet (λ x y. x || y) true or_writes b i x valid small e,
    )

-- `bitmap_unmark` of a set bit of a valid bitmap clears that bit, keeps the others, and keeps the
-- bitmap valid.
pub bitmap_unmark-HasSet :
    (b : Bitmap) (i : ℕ)
    → IsValid b
    → i < b.nbits
    → bit_at b.v i ≡ true
    → (b' : Bitmap) × (bitmap_unmark b i ≡ done b') × HasSet i false b b'
bitmap_unmark-HasSet b i valid small is_set =
    let (x, e, is) = word_of b i valid small in
    (
      written and_not b i x,
      bitmap_unmark-written b i x small e is
          ∙ ap (λ c. assert (not (not c)) (done (written and_not b i x))) is_set,
      write-HasSet (λ x y. x && not y) false and_not_writes b i x valid small e,
    )

-- The writes of `value` to bit `i` that the asserts refuse: an index from `nbits` on, and a bit that has
-- the value.
pub data Refused (b : Bitmap) (i : ℕ) : Bool → Type 0 where
  behind : {value : Bool} → b.nbits ≤ i → Refused b i value
  already : {value : Bool} → i < b.nbits → bit_at b.v i ≡ value → Refused b i value

abbrev pub write_bit : Bool → Bitmap → ℕ → Result Bitmap
write_bit true = bitmap_mark
write_bit false = bitmap_unmark

-- On a valid bitmap, the asserts of `bitmap_mark` and `bitmap_unmark` fail for an index from `nbits` on;
-- that of `bitmap_mark` fails for a set bit, and that of `bitmap_unmark` for a clear one.
pub write_bit-aborted :
    (b : Bitmap) (i : ℕ) (value : Bool)
    → IsValid b
    → Refused b i value
    → write_bit value b i ≡ aborted
unfolding bitmap_mark bitmap_unmark
write_bit-aborted b i true valid (behind h) =
    ap (λ c. assert c (with_word b.v (i / 8) (mark_word b (i / 8) (mask_of (i % 8)))))
      (ltb-false i b.nbits h)
write_bit-aborted b i false valid (behind h) =
    ap (λ c. assert c (with_word b.v (i / 8) (unmark_word b (i / 8) (mask_of (i % 8)))))
      (ltb-false i b.nbits h)
write_bit-aborted b i true valid (already small h) =
    let (x, e, is) = word_of b i valid small in
    bitmap_mark-written b i x small e is ∙ ap (λ c. assert (not c) (done (written or b i x))) h
write_bit-aborted b i false valid (already small h) =
    let (x, e, is) = word_of b i valid small in
    bitmap_unmark-written b i x small e is
    ∙ ap (λ c. assert (not (not c)) (done (written and_not b i x))) h

-- The reference: how many of the first `n` bits are set.
unfoldable pub bits_set : List ℕ → ℕ → ℕ
bits_set v zero = 0
bits_set v (suc n) = if bit_at v n then bits_set v n + 1 else bits_set v n

pub bitmap_isset_eq :
    (b : Bitmap) (i : ℕ)
    → IsValid b
    → i < b.nbits
    → (x : ℕ) × (bitmap_isset b i ≡ done x) × ((x == 0) ≡ not (bit_at b.v i))
unfolding bitmap_isset
bitmap_isset_eq b i valid small =
    let (x, e, is) = word_of b i valid small in
    (
      and x (mask_of (i % 8)),
      with_word_eq b.v (i / 8) x _ e,
      and_is_zero (i % 8) x (omega arith) ∙ ap not (sym is),
    )

-- A count that is an `int`: counting past its limit is undefined.
abbrev pub in_int : ℕ → Result ℕ
in_int n = if ltb n (2 ^ 31) then done n else undefined

count_bit-in_int :
    (x n : ℕ) (c : Bool)
    → (x == 0) ≡ not c
    → count_bit (done x) (in_int n) ≡ in_int (if c then n + 1 else n)
count_bit-in_int x n c e = elim (Bool-cases (ltb n (2 ^ 31))) [
  | inl small ↦
      ap (λ d. count_bit (done x) (if d then done n else undefined)) small
      ∙ ap (λ d. if d then done n else in_int (n + 1)) e
      ∙ flip c (ltb_lt _ _ small)
  | inr large ↦
      ap (λ d. count_bit (done x) (if d then done n else undefined)) large
      ∙ sym (too_many c (ltb_ge _ _ large))
]
  where
    flip :
        (c : Bool)
        → n < 2 ^ 31
        → (if not c then done n else in_int (n + 1)) ≡ in_int (if c then n + 1 else n)
    flip true h = refl
    flip false h = sym (ap (λ d. if d then done n else undefined) (ltb-true n (2 ^ 31) h))

    too_many : (c : Bool) → 2 ^ 31 ≤ n → in_int (if c then n + 1 else n) ≡ undefined
    too_many true h =
        ap (λ d. if d then done (n + 1) else undefined)
          (ltb-false (n + 1) (2 ^ 31) (omega (arith, h)))
    too_many false h = ap (λ d. if d then done n else undefined) (ltb-false n (2 ^ 31) h)

count_bits_eq :
    (b : Bitmap) (n : ℕ) → IsValid b → n ≤ b.nbits → count_bits b n ≡ in_int (bits_set b.v n)
unfolding count_bits bits_set
count_bits_eq b zero valid h = refl
count_bits_eq b (suc n) valid h =
    let (x, e, is) = bitmap_isset_eq b n valid (omega arith) in
    ap (λ r. count_bit r (count_bits b n)) e
    ∙ ap (count_bit (done x)) (count_bits_eq b n valid (omega arith))
    ∙ count_bit-in_int x (bits_set b.v n) (bit_at b.v n) is

-- `bitmap_nr_allocated` of a valid bitmap returns the number of its set bits if that is below 2^31, and
-- otherwise its count, an `int`, overflows.
pub bitmap_nr_allocated_lem :
    (b : Bitmap) → IsValid b → bitmap_nr_allocated b ≡ in_int (bits_set b.v b.nbits)
unfolding bitmap_nr_allocated
bitmap_nr_allocated_lem b valid = count_bits_eq b b.nbits valid (omega arith)

-- `bitmap_mark` of a clear bit of a valid bitmap followed by `bitmap_unmark` of the same bit gives back
-- the bits of the bitmap.
pub bitmap_unmark-bitmap_mark :
    (b : Bitmap) (i : ℕ)
    → IsValid b
    → i < b.nbits
    → bit_at b.v i ≡ false
    → (b' b'' : Bitmap) × (bitmap_mark b i ≡ done b')
      × (bitmap_unmark b' i ≡ done b'')
      × ((j : ℕ) → bit_at b''.v j ≡ bit_at b.v j)
bitmap_unmark-bitmap_mark b i valid small clear =
    let (b', e, h) = bitmap_mark-HasSet b i valid small clear in
    let is_set : bit_at b'.v i ≡ true =
      h.bits i ∙ ap (λ c. if c then true else bit_at b.v i) (==_self i) in
    let (b'', e', h') = bitmap_unmark-HasSet b' i h.valid (omega (arith, h.size, small)) is_set in
    (
      b',
      b'',
      e,
      e',
      λ j.
          h'.bits j
          ∙ ap (λ c. if j == i then false else c) (h.bits j)
          ∙ restored j (j == i) (λ same. sym clear ∙ ap (bit_at b.v) (sym (eqb_eq j i same))),
    )
  where
    restored :
        (j : ℕ) (c : Bool)
        → (c ≡ true → false ≡ bit_at b.v j)
        → (if c then false else (if c then true else bit_at b.v j)) ≡ bit_at b.v j
    restored j true h = h refl
    restored j false h = refl
