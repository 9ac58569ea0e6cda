-- ===== src/Fs/Stored.antt =====
-- The inodes of fs/inode.c on the device.
use web_server_and_user_leve.Prelude.{
  ℕ, zero, suc, ◌+◌, ◌/◌, ◌%◌, ◌^◌, ◌≤◌, ◌<◌, ◌≡◌, ◌≢◌, refl, sym, ap, ◌∙◌, ==_ne, ==_self, arith,
  none, some, List, [], ◌∷◌, ◌++◌, length, if◌then◌else◌, get_elem?,
}
use web_server_and_user_leve.Fs.State.{Block, Dinode}
use web_server_and_user_leve.Fs.Blocks.{word_at, put_word, put_words}
use web_server_and_user_leve.Fs.Words.{word_at-put_word}
use web_server_and_user_leve.Fs.Table.{dinode_words, words_at, dinode_at}

-- Numbers that the words can hold.
pub record IsStorable (d : Dinode) : Type 0 where
  pub kind : d.i_type < 2 ^ 32
  pub ten : length d.i_block_nr ≡ 10
  pub blocks : (i x : ℕ) → get_elem? d.i_block_nr i ≡ some x → x < 2 ^ 32
  pub indirect : d.i_indirect < 2 ^ 32
  pub dindirect : d.i_dindirect < 2 ^ 32
  pub count : d.block_count < 2 ^ 32
  pub size : d.i_size < 2 ^ 63

abbrev pub AllSmall : List ℕ → Type 0
AllSmall ws = (i x : ℕ) → get_elem? ws i ≡ some x → x < 2 ^ 32

tail-AllSmall : (w : ℕ) (ws : List ℕ) → AllSmall (w ∷ ws) → AllSmall ws
tail-AllSmall w ws h i x e = h (suc i) x e

-- memcpy of words into a block: the words before and behind keep what they have.
pub put_words-before :
    (b : Block) (i j : ℕ) (ws : List ℕ)
    → AllSmall ws
    → j < i
    → word_at (put_words b i ws) j ≡ word_at b j
unfolding put_words
put_words-before b i j [] h low = refl
put_words-before b i j (w ∷ ws) h low =
    put_words-before (put_word b i w) (i + 1) j ws (tail-AllSmall w ws h) (omega (arith, low))
    ∙ word_at-put_word b i j w (h 0 w refl)
    ∙ ap (λ c. if c then w else word_at b j) (==_ne j i (λ e. absurd (omega (arith, e, low))))

pub put_words-behind :
    (b : Block) (i j : ℕ) (ws : List ℕ)
    → AllSmall ws
    → i + length ws ≤ j
    → word_at (put_words b i ws) j ≡ word_at b j
unfolding put_words
put_words-behind b i j [] h far = refl
put_words-behind b i j (w ∷ ws) h far =
    put_words-behind (put_word b i w) (i + 1) j ws (tail-AllSmall w ws h) (omega (arith, far))
    ∙ word_at-put_word b i j w (h 0 w refl)
    ∙ ap (λ c. if c then w else word_at b j) (==_ne j i (λ e. absurd (omega (arith, e, far))))

-- Reading them gives them back.
pub words_at-put_words :
    (b : Block) (i : ℕ) (ws : List ℕ) → AllSmall ws → words_at (put_words b i ws) i (length ws) ≡ ws
unfolding put_words words_at
words_at-put_words b i [] h = refl
words_at-put_words b i (w ∷ ws) h =
    ap (λ x. x ∷ words_at (put_words (put_word b i w) (i + 1) ws) (i + 1) (length ws))
      (put_words-before (put_word b i w) (i + 1) i ws (tail-AllSmall w ws h) (omega arith)
        ∙ word_at-put_word b i i w (h 0 w refl)
        ∙ ap (λ c. if c then w else word_at b i) (==_self i))
    ∙ ap (λ xs. w ∷ xs) (words_at-put_words (put_word b i w) (i + 1) ws (tail-AllSmall w ws h))

pub put_words-append :
    (b : Block) (i : ℕ) (xs ys : List ℕ)
    → put_words b i (xs ++ ys) ≡ put_words (put_words b i xs) (i + length xs) ys
unfolding put_words
put_words-append b i [] ys = ap (λ n. put_words b n ys) (plus_zero i)
  where
    plus_zero : (n : ℕ) → n ≡ n + 0
    plus_zero n = omega arith
put_words-append b i (x ∷ xs) ys =
    put_words-append (put_word b i x) (i + 1) xs ys
    ∙ ap (λ n. put_words (put_words (put_word b i x) (i + 1) xs) n ys) (shifted i (length xs))
  where
    shifted : (a n : ℕ) → a + 1 + n ≡ a + suc n
    shifted a n = omega arith

pub words_at-cong :
    (b c : Block) (i n : ℕ)
    → ((j : ℕ) → i ≤ j → j < i + n → word_at b j ≡ word_at c j)
    → words_at b i n ≡ words_at c i n
unfolding words_at
words_at-cong b c i zero h = refl
words_at-cong b c i (suc n) h =
    ap (λ w. w ∷ words_at b (i + 1) n) (h i (omega arith) (omega arith))
    ∙ ap (λ ws. word_at c i ∷ ws)
        (words_at-cong b c (i + 1) n λ j l u. h j (omega (arith, l)) (omega (arith, u)))

pub some_eq : (a b : ℕ) → some a ≡ some b → a ≡ b
some_eq a b e = cc

pub head_eq : (x y : ℕ) (xs ys : List ℕ) → x ∷ xs ≡ y ∷ ys → x ≡ y
head_eq x y xs ys e = cc

pub tail_eq : (x y : ℕ) (xs ys : List ℕ) → x ∷ xs ≡ y ∷ ys → xs ≡ ys
tail_eq x y xs ys e = cc

-- Equal fields.
pub dinode_eq :
    (d e : Dinode)
    → d.i_type ≡ e.i_type
    → d.i_block_nr ≡ e.i_block_nr
    → d.i_indirect ≡ e.i_indirect
    → d.i_dindirect ≡ e.i_dindirect
    → d.block_count ≡ e.block_count
    → d.i_size ≡ e.i_size
    → d ≡ e
dinode_eq d e p1 p2 p3 p4 p5 p6 = λ i. record {
  i_type = p1 i;
  i_block_nr = p2 i;
  i_indirect = p3 i;
  i_dindirect = p4 i;
  block_count = p5 i;
  i_size = p6 i;
}

module _ (b : Block) (i : ℕ) (d : Dinode) (ok : IsStorable d) where
  abbrev pub last_words : List ℕ
  last_words =
      d.i_indirect ∷ d.i_dindirect ∷ d.block_count ∷ d.i_size % 2 ^ 32 ∷ d.i_size / 2 ^ 32 ∷ []

  abbrev first_word : Block
  first_word = put_word b i d.i_type

  abbrev with_blocks : Block
  with_blocks = put_words first_word (i + 1) d.i_block_nr

  abbrev full : Block
  full = put_words with_blocks (i + 11) last_words

  pub last_small : AllSmall last_words
  last_small zero x e = omega (arith, ok.indirect, some_eq d.i_indirect x e)
  last_small (suc zero) x e = omega (arith, ok.dindirect, some_eq d.i_dindirect x e)
  last_small (suc (suc zero)) x e = omega (arith, ok.count, some_eq d.block_count x e)
  last_small (suc (suc (suc zero))) x e = omega (arith, some_eq (d.i_size % 2 ^ 32) x e)
  last_small (suc (suc (suc (suc zero)))) x e =
      omega (arith, ok.size, some_eq (d.i_size / 2 ^ 32) x e)
  last_small (suc (suc (suc (suc (suc n))))) x e = absurd (none_eq x e)
    where
      none_eq : (a : ℕ) → none ≢ some a
      none_eq a e = cc

  parts : put_words b i (dinode_words d) ≡ full
  unfolding put_words dinode_words
  parts =
      put_words-append first_word (i + 1) d.i_block_nr last_words
      ∙ ap (λ n. put_words with_blocks n last_words) (omega (arith, ok.ten))

  last_read : words_at full (i + 11) 5 ≡ last_words
  last_read = words_at-put_words with_blocks (i + 11) last_words last_small

  -- The structure that has been copied into a block.
  pub dinode_at-put_words : dinode_at (put_words b i (dinode_words d)) i ≡ d
  unfolding dinode_at words_at put_words
  dinode_at-put_words =
      ap (λ c. dinode_at c i) parts
      ∙ dinode_eq (dinode_at full i) d
          (put_words-before with_blocks (i + 11) i last_words last_small (omega arith)
            ∙ put_words-before first_word (i + 1) i d.i_block_nr ok.blocks (omega arith)
            ∙ word_at-put_word b i i d.i_type ok.kind
            ∙ ap (λ c. if c then d.i_type else word_at b i) (==_self i))
          (words_at-cong full with_blocks (i + 1) 10 (λ j l u.
              put_words-before with_blocks (i + 11) j last_words last_small (omega (arith, u)))
            ∙ ap (words_at with_blocks (i + 1)) (sym ok.ten)
            ∙ words_at-put_words first_word (i + 1) d.i_block_nr ok.blocks)
          (head_eq _ _ _ _ last_read)
          (at 12 (omega arith) ∙ head_eq _ _ _ _ (tail_eq _ _ _ _ last_read))
          (at 13 (omega arith) ∙ head_eq _ _ _ _ (tail_eq _ _ _ _ (tail_eq _ _ _ _ last_read)))
          (omega (
            arith,
            at 14 (omega arith)
                ∙ head_eq _ _ _ _ (tail_eq _ _ _ _ (tail_eq _ _ _ _ (tail_eq _ _ _ _ last_read))),
            at 15 (omega arith)
                ∙ head_eq _ _ _ _ (
                    tail_eq _ _ _ _
                      (tail_eq _ _ _ _ (tail_eq _ _ _ _ (tail_eq _ _ _ _ last_read)))),
          ))
    where
      at : {n : ℕ} (m : ℕ) → i + m ≡ n → word_at full (i + m) ≡ word_at full n
      at m e = ap (word_at full) e
