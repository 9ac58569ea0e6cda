-- ===== src/Bitmap/Alloc.antt =====
-- bitmap_alloc of fs/bitmap.c on valid bitmaps.
use web_server_and_user_leve.Prelude.{
  word_exists, ℕ, zero, suc, ◌+◌, ◌*◌, ◌/◌, ◌%◌, ◌<◌, ◌≤◌, ◌≡◌, ◌≢◌, refl, sym, ap, ◌∙◌, ◌==◌, ltb,
  Bool, true, false, not, ◌||◌, Option, none, some, if◌then◌else◌, length, get_elem?, set, arith,
  inl, inr, ◌⊎◌, Bool-cases, eqb_eq, eqb_ne, ltb_lt, ltb_ge, ltb-true,
}
use web_server_and_user_leve.Bitmap.Words.{bit, or, and, mask_of, word_allbits}
use web_server_and_user_leve.Bitmap.Bits.{all_bits}
use web_server_and_user_leve.Bitmap.Store.{
  Bitmap, Result, done, failed, enospc, assert, u32, words_of, clear_bit_from, take_bit, alloc_from,
  bitmap_alloc,
}
use web_server_and_user_leve.Bitmap.Marks.{bit_at, bit_at_eq, IsValid, HasSet, write-HasSet}
use web_server_and_user_leve.Bitmap.Single.{or_writes, and_is_zero, with_word_eq, written}

-- All bits from `j` to `k`, without `k`, are set.
abbrev AllSet : ℕ → ℕ → ℕ → Type 0
AllSet x j k = (m : ℕ) → j ≤ m → m < k → bit m x ≡ true

extend_AllSet : (x j k : ℕ) → bit j x ≡ true → AllSet x (j + 1) k → AllSet x j k
extend_AllSet x j k e rest m low high = elim (Bool-cases (j == m)) [
  | inl h ↦ ap (λ i. bit i x) (sym (eqb_eq j m h)) ∙ e
  | inr h ↦ rest m (omega (arith, eqb_ne j m h)) high
]

-- The inner loop finds the first clear bit, if there is one.
clear_bit_from-cases :
    (n j x : ℕ)
    → j + n ≤ 8
    → ((k : ℕ) × (clear_bit_from n j x ≡ some k) × (k < 8) × (bit k x ≡ false) × AllSet x j k)
      ⊎ ((clear_bit_from n j x ≡ none) × AllSet x j (j + n))
unfolding clear_bit_from
clear_bit_from-cases zero j x h = inr (refl, λ m low high. absurd (omega arith))
clear_bit_from-cases (suc n) j x h = elim (Bool-cases (bit j x)) [
  | inr clear ↦ inl (
    j,
    ap choose (is_zero ∙ ap not clear),
    omega arith,
    clear,
    λ m low high. absurd (omega arith),
  )
  | inl is_set ↦ elim (clear_bit_from-cases n (j + 1) x (omega arith)) [
    | inl (k, e, small, clear, all) ↦
        inl
          (k, ap choose (is_zero ∙ ap not is_set) ∙ e, small, clear, extend_AllSet x j k is_set all)
    | inr (e, all) ↦ inr (
      ap choose (is_zero ∙ ap not is_set) ∙ e,
      λ m low high. extend_AllSet x j (j + 1 + n) is_set all m low (omega arith),
    )
  ]
]
  where
    choose : Bool → Option ℕ
    choose c = if c then some j else clear_bit_from n (j + 1) x

    is_zero : (and x (mask_of j) == 0) ≡ not (bit j x)
    is_zero = and_is_zero j x (omega arith)

bit-allbits : (m : ℕ) → m < 8 → bit m 255 ≡ true
unfolding bit
bit-allbits zero h = refl
bit-allbits (suc zero) h = refl
bit-allbits (suc (suc zero)) h = refl
bit-allbits (suc (suc (suc zero))) h = refl
bit-allbits (suc (suc (suc (suc zero)))) h = refl
bit-allbits (suc (suc (suc (suc (suc zero))))) h = refl
bit-allbits (suc (suc (suc (suc (suc (suc zero)))))) h = refl
bit-allbits (suc (suc (suc (suc (suc (suc (suc zero))))))) h = refl
bit-allbits (suc (suc (suc (suc (suc (suc (suc (suc m)))))))) h = absurd (omega arith)

-- A byte other than 255 has a clear bit.
has_clear_bit :
    (x : ℕ)
    → x < 256
    → x ≢ 255
    → (k : ℕ) × (clear_bit_from 8 0 x ≡ some k) × (k < 8) × (bit k x ≡ false) × AllSet x 0 k
has_clear_bit x small other = elim (clear_bit_from-cases 8 0 x (omega arith)) [
  | inl found ↦ found
  | inr (e, all) ↦ absurd (other (omega (arith, all_bits 8 x small λ m h. all m (omega arith) h)))
]

-- The first clear bit, and the bitmap with that bit set.
pub record Takes (b : Bitmap) (r : Result (ℕ × Bitmap)) : Type 0 where
  pub index : ℕ
  pub after : Bitmap
  pub result : r ≡ done (index, after)
  pub in_range : index < b.nbits
  pub was_clear : bit_at b.v index ≡ false
  pub first : (j : ℕ) → j < index → bit_at b.v j ≡ true
  pub marked : HasSet index true b after

-- No bit is clear, and the call fails with ENOSPC.
pub record IsFull (b : Bitmap) (r : Result (ℕ × Bitmap)) : Type 0 where
  pub result : r ≡ failed enospc
  pub full : (j : ℕ) → j < b.nbits → bit_at b.v j ≡ true

clash : {A : Type 0} (c : Bool) → c ≡ false → c ≡ true → A
clash c e h = absurd (ground (arith, e, h))

module _ (b : Bitmap) (valid : IsValid b) where
  SetBelow : ℕ → Type 0
  SetBelow n = (j : ℕ) → j < n → bit_at b.v j ≡ true

  -- The word at `ix` extends the part of the bitmap that is known to be in use.
  SetBelow-word :
      (ix x k : ℕ)
      → get_elem? b.v ix ≡ some x
      → k ≤ 8
      → AllSet x 0 k
      → SetBelow (8 * ix)
      → SetBelow (8 * ix + k)
  unfolding SetBelow
  SetBelow-word ix x k e small all below j h = elim (Bool-cases (ltb j (8 * ix))) [
    | inl less ↦ below j (ltb_lt j (8 * ix) less)
    | inr more ↦
        let div_eq : j / 8 ≡ ix = omega (arith, ltb_ge j (8 * ix) more) in
        bit_at_eq b.v j x (ap (get_elem? b.v) div_eq ∙ e) ∙ all (j % 8) (omega arith) (omega arith)
  ]

  -- A clear bit of a word of the bitmap is no leftover bit.
  clear_in_range : (i : ℕ) → i < 8 * length b.v → bit_at b.v i ≡ false → i < b.nbits
  clear_in_range i inside clear = elim (Bool-cases (ltb i b.nbits)) [
    | inl less ↦ ltb_lt i b.nbits less
    | inr more ↦ clash (bit_at b.v i) clear (valid.leftover i (ltb_ge i b.nbits more) inside)
  ]

  -- The clear bit `k` of the word at `ix`, and nothing clear before it.
  take_bit-Takes :
      (ix x k : ℕ)
      → get_elem? b.v ix ≡ some x
      → ix < length b.v
      → SetBelow (8 * ix)
      → k < 8
      → bit k x ≡ false
      → AllSet x 0 k
      → Takes b (take_bit b ix x (some k))
  unfolding SetBelow take_bit
  take_bit-Takes ix x k e inside below small clear all =
      let i : ℕ = ix * 8 + k in
      let at_word : i / 8 ≡ ix = omega arith in
      let at_bit : i % 8 ≡ k = omega arith in
      let word : get_elem? b.v (i / 8) ≡ some x = ap (get_elem? b.v) at_word ∙ e in
      let is_clear : bit_at b.v i ≡ false =
        bit_at_eq b.v i x word ∙ ap (λ m. bit m x) at_bit ∙ clear in
      let in_range : i < b.nbits = clear_in_range i (omega arith) is_clear in
      let fits : u32 i ≡ i = omega (arith, in_range, valid.small) in
      let at : ℕ → ℕ → Bitmap = λ ix' k'. record b { v = set b.v ix' (or x (mask_of k')) } in
      record {
        index = i;
        after = written or b i x;
        result =
            ap (λ n. assert (ltb n b.nbits) (done (n, at ix k))) fits
            ∙ ap (λ c. assert c (done (i, at ix k))) (ltb-true i b.nbits in_range)
            ∙ ap (λ ix'. done (i, at ix' k)) (sym at_word)
            ∙ ap (λ k'. done (i, at (i / 8) k')) (sym at_bit);
        in_range = in_range;
        was_clear = is_clear;
        first = λ j h. SetBelow-word ix x k e (omega arith) all below j (omega arith);
        marked = write-HasSet (λ x y. x || y) true or_writes b i x valid in_range word;
      }

  alloc_from-cases :
      (n ix : ℕ)
      → ix + n ≡ length b.v
      → SetBelow (8 * ix)
      → Takes b (alloc_from n ix b) ⊎ IsFull b (alloc_from n ix b)
  unfolding alloc_from SetBelow
  alloc_from-cases zero ix h below =
      inr (record { result = refl; full = λ j small. below j (omega (arith, valid.words)) })
  alloc_from-cases (suc n) ix h below =
      let (x, e) = word_exists b.v ix (omega arith) in
      let at_word = with_word_eq b.v ix x round e in
      elim (Bool-cases (x == 255)) [
        | inl is ↦
            let all : AllSet x 0 8 =
              λ m low high. ap (bit m) (eqb_eq x 255 is) ∙ bit-allbits m high in
            move (at_word ∙ ap (λ c. if c then alloc_from n (ix + 1) b else found x) is) (
              alloc_from-cases n (ix + 1) (omega arith)
                λ j less. SetBelow-word ix x 8 e (omega arith) all below j (omega arith))
        | inr other ↦
            let (k, here, small, clear, all) =
              has_clear_bit x (valid.bytes ix x e) (eqb_ne x 255 other) in
            move
              (at_word
                ∙ ap (λ c. if c then alloc_from n (ix + 1) b else found x) other
                ∙ ap (take_bit b ix x) here)
              (inl (take_bit-Takes ix x k e (omega arith) below small clear all))
      ]
    where
      found : ℕ → Result (ℕ × Bitmap)
      found x = take_bit b ix x (clear_bit_from 8 0 x)

      round : ℕ → Result (ℕ × Bitmap)
      round x = if x == word_allbits then alloc_from n (ix + 1) b else found x

      move :
          {r r' : Result (ℕ × Bitmap)} → r ≡ r' → Takes b r' ⊎ IsFull b r' → Takes b r ⊎ IsFull b r
      move e t = rw e t

-- `bitmap_alloc` on a valid bitmap either takes the first clear bit: it returns its index, which is in
-- range, sets that bit and no other, and keeps the bitmap valid; or all bits are set, and it fails with
-- ENOSPC. None of its asserts fails.
pub bitmap_alloc-cases :
    (b : Bitmap) → IsValid b → Takes b (bitmap_alloc b) ⊎ IsFull b (bitmap_alloc b)
unfolding bitmap_alloc SetBelow
bitmap_alloc-cases b valid =
    alloc_from-cases b valid (words_of b.nbits) 0 (omega (arith, valid.words, valid.small))
      λ j h. absurd (omega arith)
