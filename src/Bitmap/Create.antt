-- ===== src/Bitmap/Create.antt =====
-- bitmap_create of fs/bitmap.c: the bitmap that it returns is valid and clear.
use web_server_and_user_leve.Prelude.{
  get_elem?-set, length-set, ℕ, zero, suc, ◌+◌, ◌-◌, ◌*◌, ◌/◌, ◌%◌, ◌^◌, ◌<◌, ◌≤◌, ◌≡◌, ◌≢◌, refl,
  sym, ap, ◌∙◌, ◌==◌, ltb, leb, Bool, true, false, ◌&&◌, ◌||◌, some, if◌then◌else◌, length,
  get_elem?, set, arith, inl, inr, Bool-cases, ==_self, eqb_eq, eqb_ne, leb-true, leb-false,
}
use web_server_and_user_leve.Bitmap.Words.{bit, or, mask_of}
use web_server_and_user_leve.Bitmap.Bits.{bit-bitwise, bitwise_bound, bit-mask_of, bit-zero}
use web_server_and_user_leve.Bitmap.Store.{
  Bitmap, Result, done, assert, u32, with_word, words_of, zeros, set_bits_from, mark_from,
  mark_leftover, bitmap_create,
}
use web_server_and_user_leve.Bitmap.Marks.{bit_at, bit_at_eq, bit_at-set, IsValid, byte_of_if}
use web_server_and_user_leve.Bitmap.Single.{with_word_eq}

bit-set_bits_from :
    (n j x k : ℕ)
    → j + n ≤ 8
    → k < 8
    → bit k (set_bits_from n j x) ≡ bit k x || (leb j k && ltb k (j + n))
unfolding set_bits_from
bit-set_bits_from zero j x k h small = none_set (bit k x)
  where
    none_set : (c : Bool) → c ≡ c || (leb j k && ltb k (j + 0))
    none_set c = ground arith
bit-set_bits_from (suc n) j x k h small =
    bit-set_bits_from n (j + 1) (or x (mask_of j)) k (omega arith) small
    ∙ ap (λ c. c || (leb (j + 1) k && ltb k (j + 1 + n)))
        (bit-bitwise (λ x y. x || y) 8 k x (mask_of j) small
          ∙ ap (λ c. bit k x || c) (bit-mask_of k j))
    ∙ one_more (bit k x)
  where
    one_more :
        (c : Bool)
        → (c || (k == j)) || (leb (j + 1) k && ltb k (j + 1 + n))
          ≡ c || (leb j k && ltb k (j + suc n))
    one_more c = ground arith

set_bits_from_bound : (n j x : ℕ) → x < 256 → set_bits_from n j x < 256
unfolding set_bits_from
set_bits_from_bound zero j x h = h
set_bits_from_bound (suc n) j x h =
    set_bits_from_bound n (j + 1) (or x (mask_of j)) (bitwise_bound (λ x y. x || y) 8 x (mask_of j))

pub length-zeros : (n : ℕ) → length (zeros n) ≡ n
length-zeros zero = refl
length-zeros (suc n) = ap suc (length-zeros n)

pub get_elem?-zeros : (n i : ℕ) → i < n → get_elem? (zeros n) i ≡ some 0
get_elem?-zeros zero i h = absurd (omega arith)
get_elem?-zeros (suc n) zero h = refl
get_elem?-zeros (suc n) (suc i) h = get_elem?-zeros n i (omega arith)

zeros_bytes : (n i x : ℕ) → get_elem? (zeros n) i ≡ some x → x < 256
zeros_bytes zero i x h = grind arith
zeros_bytes (suc n) zero x h = grind arith
zeros_bytes (suc n) (suc i) x h = zeros_bytes n i x h

bit_at-zeros : (n i : ℕ) → i < 8 * n → bit_at (zeros n) i ≡ false
bit_at-zeros n i h =
    bit_at_eq (zeros n) i 0 (get_elem?-zeros n (i / 8) (omega arith)) ∙ bit-zero (i % 8)

-- A new bitmap.
pub record IsFresh (nbits : ℕ) (b : Bitmap) : Type 0 where
  pub valid : IsValid b
  pub size : b.nbits ≡ nbits
  pub clear : (i : ℕ) → i < nbits → bit_at b.v i ≡ false

-- Where `nbits` is a multiple of 8, no bit is left over.
pub even_IsFresh :
    (nbits : ℕ)
    → nbits + 7 < 2 ^ 32
    → nbits % 8 ≡ 0
    → IsFresh nbits (record { nbits = nbits; v = zeros (words_of nbits) })
even_IsFresh nbits small full = record {
  valid = record {
    small = small;
    words = length-zeros (words_of nbits) ∙ omega arith;
    bytes = zeros_bytes (words_of nbits);
    leftover = λ i low high. absurd (omega (arith, length-zeros (words_of nbits)));
  };
  size = refl;
  clear = λ i h. bit_at-zeros (words_of nbits) i (omega arith);
}

-- Otherwise the last word has its upper bits set.
abbrev marked : ℕ → Bitmap
marked nbits = record {
  nbits = nbits;
  v = set (zeros (words_of nbits)) (nbits / 8) (set_bits_from (8 - nbits % 8) (nbits % 8) 0);
}

module _ (nbits : ℕ) (small : nbits + 7 < 2 ^ 32) (odd : nbits % 8 ≢ 0) where
  last_word : get_elem? (zeros (words_of nbits)) (nbits / 8) ≡ some 0
  last_word = get_elem?-zeros (words_of nbits) (nbits / 8) (omega (arith, small, odd))

  marked_bits : (i : ℕ) → i < 8 * words_of nbits → bit_at (marked nbits).v i ≡ leb nbits i
  marked_bits i h =
      bit_at-set (zeros (words_of nbits)) (nbits / 8) i 0
        (set_bits_from (8 - nbits % 8) (nbits % 8) 0) last_word
      ∙ elim (Bool-cases (i / 8 == nbits / 8)) [
        | inl same ↦
            ap (λ c. if c then in_last else before) same
            ∙ bit-set_bits_from (8 - nbits % 8) (nbits % 8) 0 (i % 8) (omega arith) (omega arith)
            ∙ ap (λ c. c || above) (bit-zero (i % 8))
            ∙ above_eq same
        | inr other ↦
            ap (λ c. if c then in_last else before) other
            ∙ bit_at-zeros (words_of nbits) i h
            ∙ below_eq other
      ]
    where
      in_last : Bool
      in_last = bit (i % 8) (set_bits_from (8 - nbits % 8) (nbits % 8) 0)

      before : Bool
      before = bit_at (zeros (words_of nbits)) i

      above : Bool
      above = leb (nbits % 8) (i % 8) && ltb (i % 8) (nbits % 8 + (8 - nbits % 8))

      above_eq : (i / 8 == nbits / 8) ≡ true → above ≡ leb nbits i
      above_eq same = ground (arith, same)

      below_eq : (i / 8 == nbits / 8) ≡ false → false ≡ leb nbits i
      below_eq other = ground (arith, other, h, small)

  odd_IsFresh : IsFresh nbits (marked nbits)
  odd_IsFresh = record {
    valid = record {
      small = small;
      words = size_eq ∙ omega (arith, small);
      bytes = λ ix z g.
          byte_of_if (ix == nbits / 8) (set_bits_from (8 - nbits % 8) (nbits % 8) 0)
            (get_elem? (zeros (words_of nbits)) ix) z
            (set_bits_from_bound (8 - nbits % 8) (nbits % 8) 0 (omega arith))
            (zeros_bytes (words_of nbits) ix)
            (sym (
                get_elem?-set (zeros (words_of nbits)) (nbits / 8) ix 0
                  (set_bits_from (8 - nbits % 8) (nbits % 8) 0) last_word)
              ∙ g);
      leftover = λ i low high. marked_bits i (omega (arith, size_eq, high)) ∙ leb-true nbits i low;
    };
    size = refl;
    clear = λ i h. marked_bits i (omega (arith, small, h)) ∙ leb-false nbits i h;
  }
    where
      size_eq : length (marked nbits).v ≡ words_of nbits
      size_eq =
          length-set (zeros (words_of nbits)) (nbits / 8)
            (set_bits_from (8 - nbits % 8) (nbits % 8) 0)
          ∙ length-zeros (words_of nbits)

  mark_leftover-marked :
      mark_leftover (record { nbits = nbits; v = zeros (words_of nbits) }) (words_of nbits)
      ≡ done (marked nbits)
  unfolding mark_leftover
  mark_leftover-marked =
      let b : Bitmap = record { nbits = nbits; v = zeros (words_of nbits) } in
      let ix : ℕ = words_of nbits - 1 in
      let overbits : ℕ = u32 (nbits + 2 ^ 32 - u32 (ix * 8)) in
      let ix_eq : ix ≡ nbits / 8 = omega (arith, small, odd) in
      let overbits_eq : overbits ≡ nbits % 8 = omega (arith, small, odd) in
      ap (λ c. assert c (mark_from b ix overbits))
        (ap (λ n. nbits / 8 == n) ix_eq ∙ ==_self (nbits / 8))
      ∙ ap (λ i. mark_from b i overbits) ix_eq
      ∙ ap (mark_from b (nbits / 8)) overbits_eq
      ∙ ap (λ c. assert c (with_word (zeros (words_of nbits)) (nbits / 8) last)) in_range
      ∙ with_word_eq (zeros (words_of nbits)) (nbits / 8) 0 last last_word
    where
      last : ℕ → Result Bitmap
      last x = done (record {
        nbits = nbits;
        v = set (zeros (words_of nbits)) (nbits / 8) (set_bits_from (8 - nbits % 8) (nbits % 8) x);
      })

      in_range : ltb 0 (nbits % 8) && ltb (nbits % 8) 8 ≡ true
      in_range = ground (arith, odd)

-- `bitmap_create`, where malloc finds memory and the size does not wrap around in the rounding up,
-- returns a valid bitmap of that size with no bit set; no assert fails.
pub bitmap_create-IsFresh :
    (nbits : ℕ)
    → nbits + 7 < 2 ^ 32
    → (b : Bitmap) × (bitmap_create true true nbits ≡ done b) × IsFresh nbits b
unfolding bitmap_create
bitmap_create-IsFresh nbits small = elim (Bool-cases (nbits % 8 == 0)) [
  | inl full ↦ (
    fresh,
    ap (λ c. if c then mark_leftover fresh (words_of nbits) else done fresh) (no_rest full),
    even_IsFresh nbits small (eqb_eq (nbits % 8) 0 full),
  )
  | inr odd ↦ (
    marked nbits,
    ap (λ c. if c then mark_leftover fresh (words_of nbits) else done fresh) (rest odd)
        ∙ mark_leftover-marked nbits small (eqb_ne (nbits % 8) 0 odd),
    odd_IsFresh nbits small (eqb_ne (nbits % 8) 0 odd),
  )
]
  where
    fresh : Bitmap
    fresh = record { nbits = nbits; v = zeros (words_of nbits) }

    no_rest : (nbits % 8 == 0) ≡ true → ltb (nbits / 8) (words_of nbits) ≡ false
    no_rest full = ground (arith, full, small)

    rest : (nbits % 8 == 0) ≡ false → ltb (nbits / 8) (words_of nbits) ≡ true
    rest odd = ground (arith, odd, small)
