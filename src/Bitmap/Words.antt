-- ===== src/Bitmap/Words.antt =====
-- The operators of C on the words of fs/bitmap.c, which are bytes.
use web_server_and_user_leve.Prelude.{
  ℕ, zero, suc, ◌+◌, ◌*◌, ◌/◌, ◌%◌, Bool, true, false, not, ◌&&◌, ◌||◌, ◌==◌,
}

-- BITS_PER_WORD and WORD_ALLBITS of fs/bitmap.h.
abbrev pub bits_per_word : ℕ
bits_per_word = 8

abbrev pub word_allbits : ℕ
word_allbits = 255

-- Bit `j` of a number.
unfoldable pub bit : ℕ → ℕ → Bool
bit zero a = a % 2 == 1
bit (suc j) a = bit j (a / 2)

abbrev pub low_bit : Bool → ℕ
low_bit true = 1
low_bit false = 0

-- `op` on each of the lowest `w` bits.
unfoldable pub bitwise : (Bool → Bool → Bool) → ℕ → ℕ → ℕ → ℕ
bitwise op zero a b = 0
bitwise op (suc w) a b = low_bit (op (a % 2 == 1) (b % 2 == 1)) + 2 * bitwise op w (a / 2) (b / 2)

abbrev pub or : ℕ → ℕ → ℕ
or = bitwise (λ x y. x || y) bits_per_word

abbrev pub and : ℕ → ℕ → ℕ
and = bitwise (λ x y. x && y) bits_per_word

-- `a & ~b`
abbrev pub and_not : ℕ → ℕ → ℕ
and_not = bitwise (λ x y. x && not y) bits_per_word

-- `(WORD_TYPE)1 << offset`, for an offset below 8.
unfoldable pub mask_of : ℕ → ℕ
mask_of zero = 1
mask_of (suc offset) = 2 * mask_of offset
