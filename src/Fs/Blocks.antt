-- ===== src/Fs/Blocks.antt =====
-- fs/block.c: the blocks of the device, and the words in them.
use web_server_and_user_leve.Prelude.{
  ℕ, zero, suc, ◌+◌, ◌*◌, ◌/◌, ◌%◌, ◌==◌, ltb, List, [], ◌∷◌, if◌then◌else◌, update,
}
use web_server_and_user_leve.Fs.State.{Block, FileSystem, returned, exits, M, pure, ◌>>◌, modify}

abbrev pub block_size : ℕ
block_size = 8192

abbrev pub zero_block : Block
zero_block o = 0

-- `((u32 *) block)[i]`, the lowest byte first.
unfoldable pub word_at : Block → ℕ → ℕ
word_at b i = b (4 * i) + 256 * b (4 * i + 1) + 65536 * b (4 * i + 2) + 16777216 * b (4 * i + 3)

abbrev pub byte_of : ℕ → ℕ → ℕ
byte_of w k =
    if k == 0
    then w % 256
    else if k == 1
    then w / 256 % 256
    else if k == 2
    then w / 65536 % 256
    else w / 16777216 % 256

-- `((u32 *) block)[i] = w`
unfoldable pub put_word : Block → ℕ → ℕ → Block
put_word b i w o = if o / 4 == i then byte_of w (o % 4) else b o

-- memcpy of a structure of words into a block, from the word `i` on.
unfoldable pub put_words : Block → ℕ → List ℕ → Block
unfolding put_word
put_words b i [] = b
put_words b i (w ∷ ws) = put_words (put_word b i w) (i + 1) ws

-- read_blocks of one block: a read behind the end of the file ends in EXIT.
unfoldable pub read_block : ℕ → M Block
read_block start s = if ltb start s.dev_length then returned (s.blocks start) s else exits

-- write_blocks of one block, which may extend the file.
abbrev pub stored : ℕ → Block → FileSystem → FileSystem
stored start b s = record s {
  blocks = update s.blocks start b;
  dev_length = if ltb start s.dev_length then s.dev_length else start + 1;
}

abbrev pub write_block : ℕ → Block → M (Unit {0})
write_block start b = modify (stored start b)

-- zero_blocks
unfoldable pub zero_blocks : (start nr : ℕ) → M (Unit {0})
zero_blocks start zero = pure tt
zero_blocks start (suc nr) = write_block start zero_block >> zero_blocks (start + 1) nr
