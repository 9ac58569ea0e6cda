-- ===== src/Bitmap/Bits.antt =====
-- The bits of the results of the operators.
use web_server_and_user_leve.Prelude.{
  ℕ, zero, suc, ◌+◌, ◌*◌, ◌/◌, ◌%◌, ◌^◌, ◌<◌, ◌≡◌, refl, sym, ==_ne, ◌∙◌, ap, Bool, true, false,
  ◌&&◌, ◌==◌, if◌then◌else◌, arith, Bool-cases, inl, inr,
}
use web_server_and_user_leve.Bitmap.Words.{bit, bitwise, low_bit, mask_of}

low_mod : (x : Bool) (r : ℕ) → ((low_bit x + 2 * r) % 2 == 1) ≡ x
low_mod true r = ground arith
low_mod false r = ground arith

low_div : (x : Bool) (r : ℕ) → (low_bit x + 2 * r) / 2 ≡ r
low_div true r = omega arith
low_div false r = omega arith

pub bit-bitwise :
    (op : Bool → Bool → Bool) (w j a b : ℕ)
    → j < w
    → bit j (bitwise op w a b) ≡ op (bit j a) (bit j b)
unfolding bit bitwise
bit-bitwise op zero j a b h = ground arith
bit-bitwise op (suc w) zero a b h = low_mod _ _
bit-bitwise op (suc w) (suc j) a b h =
    ap (bit j) (low_div (op (a % 2 == 1) (b % 2 == 1)) (bitwise op w (a / 2) (b / 2)))
    ∙ bit-bitwise op w j (a / 2) (b / 2) (omega arith)

pub bitwise_bound : (op : Bool → Bool → Bool) (w a b : ℕ) → bitwise op w a b < 2 ^ w
unfolding bitwise
bitwise_bound op zero a b = omega arith
bitwise_bound op (suc w) a b = elim (Bool-cases (op (a % 2 == 1) (b % 2 == 1))) [
  | inl e ↦ rw e (omega (arith, bitwise_bound op w (a / 2) (b / 2)))
  | inr e ↦ rw e (omega (arith, bitwise_bound op w (a / 2) (b / 2)))
]

pub bit-zero : (j : ℕ) → bit j 0 ≡ false
unfolding bit
bit-zero zero = refl
bit-zero (suc j) = bit-zero j

double_half : (n : ℕ) → (2 * n) / 2 ≡ n
double_half n = omega arith

suc_eqb : (i j : ℕ) → (i == j) ≡ (suc i == suc j)
suc_eqb i j = ground arith

pub bit-mask_of : (i j : ℕ) → bit i (mask_of j) ≡ (i == j)
unfolding bit mask_of
bit-mask_of zero zero = refl
bit-mask_of (suc i) zero = bit-zero i ∙ sym (==_ne (suc i) 0 (omega arith))
bit-mask_of zero (suc j) = ground arith
bit-mask_of (suc i) (suc j) = ap (bit i) (double_half (mask_of j)) ∙ bit-mask_of i j ∙ suc_eqb i j

-- Masking with one bit tests that bit.
bitwise-zero : (w a : ℕ) → bitwise (λ x y. x && y) w a 0 ≡ 0
unfolding bitwise
bitwise-zero zero a = refl
bitwise-zero (suc w) a = elim (Bool-cases (a % 2 == 1)) [
  | inl e ↦ rw (e, bitwise-zero w (a / 2)) refl
  | inr e ↦ rw (e, bitwise-zero w (a / 2)) refl
]

even : (m : ℕ) → ((2 * m) % 2 == 1) ≡ false
even m = ground arith

double_if : (b : Bool) (m : ℕ) → 0 + 2 * (if b then m else 0) ≡ (if b then 2 * m else 0)
double_if b m = ground arith

pub and-mask_of :
    (w j a : ℕ)
    → j < w
    → bitwise (λ x y. x && y) w a (mask_of j) ≡ (if bit j a then mask_of j else 0)
unfolding bit bitwise mask_of
and-mask_of zero j a h = ground arith
and-mask_of (suc w) zero a h = elim (Bool-cases (a % 2 == 1)) [
  | inl e ↦ rw (e, bitwise-zero w (a / 2)) refl
  | inr e ↦ rw (e, bitwise-zero w (a / 2)) refl
]
and-mask_of (suc w) (suc j) a h =
    let rest = and-mask_of w j (a / 2) (omega arith) in
    elim (Bool-cases (a % 2 == 1)) [
      | inl e ↦
          rw (e, even (mask_of j), double_half (mask_of j), rest)
            (double_if (bit j (a / 2)) (mask_of j))
      | inr e ↦ rw (e, double_half (mask_of j), rest) (double_if (bit j (a / 2)) (mask_of j))
    ]

pub mask_of_pos : (j : ℕ) → 0 < mask_of j
unfolding mask_of
mask_of_pos zero = omega arith
mask_of_pos (suc j) = omega (arith, mask_of_pos j)

low_odd : (a : ℕ) → (a % 2 == 1) ≡ true → a % 2 ≡ 1
low_odd a e = ground arith

-- A byte whose bits are all set is 255.
pub all_bits : (w a : ℕ) → a < 2 ^ w → ((j : ℕ) → j < w → bit j a ≡ true) → a + 1 ≡ 2 ^ w
unfolding bit
all_bits zero a h g = omega arith
all_bits (suc w) a h g = omega (
  arith,
  low_odd a (g 0 (omega arith)),
  all_bits w (a / 2) (omega arith) λ j k. g (suc j) (omega arith),
)
