-- ===== src/Bitmap/Marks.antt =====
-- The abstract view of a bitmap of fs/bitmap.c, and what one mark does to it.
use web_server_and_user_leve.Prelude.{
  get_elem?-set, length-set, ℕ, ◌+◌, ◌*◌, ◌/◌, ◌%◌, ◌^◌, ◌<◌, ◌≤◌, ◌≡◌, refl, sym, ap, ◌∙◌, ◌==◌,
  ==_ne, Bool, eqb_eq, true, false, ◌&&◌, Option, none, some, List, if◌then◌else◌, length,
  get_elem?, set, arith,
}
use web_server_and_user_leve.Bitmap.Words.{bit, bitwise, mask_of}
use web_server_and_user_leve.Bitmap.Bits.{bit-bitwise, bitwise_bound, bit-mask_of}
use web_server_and_user_leve.Bitmap.Store.{Bitmap}

abbrev bit_of_word : ℕ → Option ℕ → Bool
bit_of_word j none = false
bit_of_word j (some x) = bit j x

-- Whether bit `i` is set. Behind the last word no bit is.
unfoldable pub bit_at : List ℕ → ℕ → Bool
bit_at v i = bit_of_word (i % 8) (get_elem? v (i / 8))

-- A bitmap that the operations keep: its length as in the code, words that are bytes, and all bits
-- behind the end in use. The bound keeps the rounding up within 32 bits.
pub record IsValid (b : Bitmap) : Type 0 where
  pub small : b.nbits + 7 < 2 ^ 32
  pub words : length b.v ≡ (b.nbits + 7) / 8
  pub bytes : (ix x : ℕ) → get_elem? b.v ix ≡ some x → x < 256
  pub leftover : (i : ℕ) → b.nbits ≤ i → i < 8 * length b.v → bit_at b.v i ≡ true

bit_of_if :
    (j y : ℕ) (b : Bool) (o : Option ℕ)
    → bit_of_word j (if b then some y else o) ≡ (if b then bit j y else bit_of_word j o)
bit_of_if j y true o = refl
bit_of_if j y false o = refl

pub bit_at_eq : (v : List ℕ) (i x : ℕ) → get_elem? v (i / 8) ≡ some x → bit_at v i ≡ bit (i % 8) x
unfolding bit_at
bit_at_eq v i x e = ap (bit_of_word (i % 8)) e

pub bit_at-set :
    (v : List ℕ) (ix j x y : ℕ)
    → get_elem? v ix ≡ some x
    → bit_at (set v ix y) j ≡ (if j / 8 == ix then bit (j % 8) y else bit_at v j)
unfolding bit_at
bit_at-set v ix j x y e =
    ap (bit_of_word (j % 8)) (get_elem?-set v ix (j / 8) x y e)
    ∙ bit_of_if (j % 8) y (j / 8 == ix) _

split_eqb : (i j : ℕ) → (j == i) ≡ ((j / 8 == i / 8) && (j % 8 == i % 8))
split_eqb i j = ground arith

-- The bitmap `b'` has the bits of `b`, but for bit `i`, which is `value`.
pub record HasSet (i : ℕ) (value : Bool) (b b' : Bitmap) : Type 0 where
  pub valid : IsValid b'
  pub size : b'.nbits ≡ b.nbits
  pub bits : (j : ℕ) → bit_at b'.v j ≡ (if j == i then value else bit_at b.v j)

-- The two writes of a word: `op` with the mask of bit `i` gives that bit the value, and keeps the others.
pub record IsWrite (op : Bool → Bool → Bool) (value : Bool) : Type 0 where
  pub keeps : (x : Bool) → op x false ≡ x
  pub writes : (x : Bool) → op x true ≡ value

write-bit :
    (op : Bool → Bool → Bool) (value : Bool) (h : IsWrite op value) (x i j : ℕ)
    → bit (j % 8) (bitwise op 8 x (mask_of (i % 8)))
      ≡ (if j % 8 == i % 8 then value else bit (j % 8) x)
write-bit op value h x i j =
    bit-bitwise op 8 (j % 8) x (mask_of (i % 8)) (omega arith)
    ∙ ap (op (bit (j % 8) x)) (bit-mask_of (j % 8) (i % 8))
    ∙ cases (j % 8 == i % 8)
  where
    cases : (e : Bool) → op (bit (j % 8) x) e ≡ (if e then value else bit (j % 8) x)
    cases true = h.writes _
    cases false = h.keeps _

both_ifs :
    (p q : Bool) (value c d : Bool)
    → (p ≡ true → d ≡ c)
    → (if p then (if q then value else c) else d) ≡ (if p && q then value else d)
both_ifs true true value c d h = refl
both_ifs true false value c d h = sym (h refl)
both_ifs false q value c d h = refl

pub byte_of_if :
    (c : Bool) (y : ℕ) (o : Option ℕ) (z : ℕ)
    → y < 256
    → ((w : ℕ) → o ≡ some w → w < 256)
    → (if c then some y else o) ≡ some z
    → z < 256
byte_of_if true y o z small h e = grind arith
byte_of_if false y o z small h e = h z e

-- A write through `op` keeps a valid bitmap valid, and changes the one bit.
pub write-HasSet :
    (op : Bool → Bool → Bool) (value : Bool) (h : IsWrite op value) (b : Bitmap) (i x : ℕ)
    → IsValid b
    → i < b.nbits
    → get_elem? b.v (i / 8) ≡ some x
    → HasSet i value b (record b { v = set b.v (i / 8) (bitwise op 8 x (mask_of (i % 8))) })
write-HasSet op value h b i x valid small e =
    let y : ℕ = bitwise op 8 x (mask_of (i % 8)) in
    let bits : (j : ℕ) → bit_at (set b.v (i / 8) y) j ≡ (if j == i then value else bit_at b.v j) =
      λ j.
        bit_at-set b.v (i / 8) j x y e
        ∙ ap (λ c. if j / 8 == i / 8 then c else bit_at b.v j) (write-bit op value h x i j)
        ∙ both_ifs (j / 8 == i / 8) (j % 8 == i % 8) value (bit (j % 8) x) (bit_at b.v j)
            (λ same. bit_at_eq b.v j x (ap (get_elem? b.v) (eqb_eq (j / 8) (i / 8) same) ∙ e))
        ∙ ap (λ c. if c then value else bit_at b.v j) (sym (split_eqb i j)) in
    record {
      valid = record {
        small = valid.small;
        words = length-set b.v (i / 8) y ∙ valid.words;
        bytes = λ ix z g.
            byte_of_if (ix == i / 8) y (get_elem? b.v ix) z (bitwise_bound op 8 x (mask_of (i % 8)))
              (valid.bytes ix) (sym (get_elem?-set b.v (i / 8) ix x y e) ∙ g);
        leftover = λ j above below.
            bits j
            ∙ ap (λ c. if c then value else bit_at b.v j) (==_ne j i (omega arith))
            ∙ valid.leftover j above (rw (length-set b.v (i / 8) y) at below);
      };
      size = refl;
      bits = bits;
    }
