-- ===== src/Fs/Words.antt =====
-- Words in the blocks of fs/, after a write.
use web_server_and_user_leve.Prelude.{
  ℕ, ◌+◌, ◌*◌, ◌/◌, ◌%◌, ◌^◌, ◌<◌, ◌≡◌, refl, sym, ap, ◌∙◌, ◌==◌, Bool-cases, inl, inr, arith,
  if◌then◌else◌,
}
use web_server_and_user_leve.Fs.State.{Block}
use web_server_and_user_leve.Fs.Blocks.{byte_of, word_at, put_word}

four_bytes :
    (w : ℕ)
    → w < 2 ^ 32
    → w % 256 + 256 * (w / 256 % 256) + 65536 * (w / 65536 % 256) + 16777216 * (w / 16777216 % 256)
      ≡ w
four_bytes w h = omega (arith, h)

-- The byte `k` of word `j`.
put_word-byte :
    (b : Block) (i j k w : ℕ)
    → k < 4
    → put_word b i w (4 * j + k) ≡ (if j == i then byte_of w k else b (4 * j + k))
unfolding put_word
put_word-byte b i j k w h =
    ap (λ n. if n == i then byte_of w ((4 * j + k) % 4) else b (4 * j + k)) (quotient j k h)
    ∙ ap (λ n. if j == i then byte_of w n else b (4 * j + k)) (remainder j k h)
  where
    quotient : (j k : ℕ) → k < 4 → (4 * j + k) / 4 ≡ j
    quotient j k h = omega (arith, h)

    remainder : (j k : ℕ) → k < 4 → (4 * j + k) % 4 ≡ k
    remainder j k h = omega (arith, h)

plus_zero : (j : ℕ) → 4 * j ≡ 4 * j + 0
plus_zero j = omega arith

start :
    (b : Block) (i j w : ℕ) → put_word b i w (4 * j) ≡ (if j == i then byte_of w 0 else b (4 * j))
start b i j w =
    ap (put_word b i w) (plus_zero j)
    ∙ put_word-byte b i j 0 w (omega arith)
    ∙ ap (λ n. if j == i then byte_of w 0 else b n) (sym (plus_zero j))

pub word_at-put_word :
    (b : Block) (i j w : ℕ)
    → w < 2 ^ 32
    → word_at (put_word b i w) j ≡ (if j == i then w else word_at b j)
unfolding word_at
word_at-put_word b i j w h = elim (Bool-cases (j == i)) [
  | inl e ↦
      omega (
        arith,
        start b i j w ∙ ap (λ c. if c then byte_of w 0 else b (4 * j)) e,
        put_word-byte b i j 1 w (omega arith)
            ∙ ap (λ c. if c then byte_of w 1 else b (4 * j + 1)) e,
        put_word-byte b i j 2 w (omega arith)
            ∙ ap (λ c. if c then byte_of w 2 else b (4 * j + 2)) e,
        put_word-byte b i j 3 w (omega arith)
            ∙ ap (λ c. if c then byte_of w 3 else b (4 * j + 3)) e,
        four_bytes w h,
      )
      ∙ sym (ap (λ c. if c then w else word_at b j) e)
  | inr e ↦
      omega (
        arith,
        start b i j w ∙ ap (λ c. if c then byte_of w 0 else b (4 * j)) e,
        put_word-byte b i j 1 w (omega arith)
            ∙ ap (λ c. if c then byte_of w 1 else b (4 * j + 1)) e,
        put_word-byte b i j 2 w (omega arith)
            ∙ ap (λ c. if c then byte_of w 2 else b (4 * j + 2)) e,
        put_word-byte b i j 3 w (omega arith)
            ∙ ap (λ c. if c then byte_of w 3 else b (4 * j + 3)) e,
      )
      ∙ sym (ap (λ c. if c then w else word_at b j) e)
]

pub word_at-zero : (i : ℕ) → word_at (λ o. 0) i ≡ 0
unfolding word_at
word_at-zero i = refl
