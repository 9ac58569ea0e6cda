-- ===== src/Fs/SuperWords.antt =====
-- The super block of fs/super.c in its block.
use web_server_and_user_leve.Prelude.{ℕ, zero, suc, ◌/◌, ◌%◌, ◌^◌, ◌<◌, ◌≡◌, ◌≢◌, arith, none, some}
use web_server_and_user_leve.Fs.State.{SuperBlock}
use web_server_and_user_leve.Fs.Blocks.{zero_block, put_words}
use web_server_and_user_leve.Fs.Super.{super_words}
use web_server_and_user_leve.Fs.Table.{words_at}
use web_server_and_user_leve.Fs.Stored.{AllSmall, words_at-put_words, some_eq, head_eq, tail_eq}
use web_server_and_user_leve.Fs.Opening.{super_at}

-- Numbers that the words of the super block can hold.
pub record IsSmall (sb : SuperBlock) : Type 0 where
  pub inode_freemap : sb.inode_freemap_start < 2 ^ 32
  pub block_freemap : sb.block_freemap_start < 2 ^ 32
  pub inode_blocks : sb.inode_blocks_start < 2 ^ 32
  pub data_blocks : sb.data_blocks_start < 2 ^ 32
  pub inodes : sb.used_inode_count < 2 ^ 32
  pub blocks : sb.used_block_count < 2 ^ 32
  pub limit : sb.max_fs_blocks < 2 ^ 64

pub super_words-AllSmall : (sb : SuperBlock) → IsSmall sb → AllSmall (super_words sb)
super_words-AllSmall sb h zero x e =
    omega (arith, h.inode_freemap, some_eq sb.inode_freemap_start x e)
super_words-AllSmall sb h (suc zero) x e =
    omega (arith, h.block_freemap, some_eq sb.block_freemap_start x e)
super_words-AllSmall sb h (suc (suc zero)) x e =
    omega (arith, h.inode_blocks, some_eq sb.inode_blocks_start x e)
super_words-AllSmall sb h (suc (suc (suc zero))) x e =
    omega (arith, h.data_blocks, some_eq sb.data_blocks_start x e)
super_words-AllSmall sb h (suc (suc (suc (suc zero)))) x e =
    omega (arith, h.inodes, some_eq sb.used_inode_count x e)
super_words-AllSmall sb h (suc (suc (suc (suc (suc zero))))) x e =
    omega (arith, h.blocks, some_eq sb.used_block_count x e)
super_words-AllSmall sb h (suc (suc (suc (suc (suc (suc zero)))))) x e =
    omega (arith, some_eq (sb.max_fs_blocks % 2 ^ 32) x e)
super_words-AllSmall sb h (suc (suc (suc (suc (suc (suc (suc zero))))))) x e =
    omega (arith, h.limit, some_eq (sb.max_fs_blocks / 2 ^ 32) x e)
super_words-AllSmall sb h (suc (suc (suc (suc (suc (suc (suc (suc n)))))))) x e =
    absurd (none_eq x e)
  where
    none_eq : (a : ℕ) → none ≢ some a
    none_eq a e = cc

pub super_block_eq :
    (a b : SuperBlock)
    → a.inode_freemap_start ≡ b.inode_freemap_start
    → a.block_freemap_start ≡ b.block_freemap_start
    → a.inode_blocks_start ≡ b.inode_blocks_start
    → a.data_blocks_start ≡ b.data_blocks_start
    → a.used_inode_count ≡ b.used_inode_count
    → a.used_block_count ≡ b.used_block_count
    → a.max_fs_blocks ≡ b.max_fs_blocks
    → a ≡ b
super_block_eq a b p1 p2 p3 p4 p5 p6 p7 = λ i. record {
  inode_freemap_start = p1 i;
  block_freemap_start = p2 i;
  inode_blocks_start = p3 i;
  data_blocks_start = p4 i;
  used_inode_count = p5 i;
  used_block_count = p6 i;
  max_fs_blocks = p7 i;
}

-- The super block that has been written into its block.
pub super_at-super_words :
    (sb : SuperBlock) → IsSmall sb → super_at (put_words zero_block 0 (super_words sb)) ≡ sb
unfolding super_at words_at
super_at-super_words sb h =
    let e0 = words_at-put_words zero_block 0 (super_words sb) (super_words-AllSmall sb h) in
    let e1 = tail_eq _ _ _ _ e0 in
    let e2 = tail_eq _ _ _ _ e1 in
    let e3 = tail_eq _ _ _ _ e2 in
    let e4 = tail_eq _ _ _ _ e3 in
    let e5 = tail_eq _ _ _ _ e4 in
    let e6 = tail_eq _ _ _ _ e5 in
    let e7 = tail_eq _ _ _ _ e6 in
    super_block_eq (super_at (put_words zero_block 0 (super_words sb))) sb (head_eq _ _ _ _ e0)
      (head_eq _ _ _ _ e1) (head_eq _ _ _ _ e2) (head_eq _ _ _ _ e3) (head_eq _ _ _ _ e4)
      (head_eq _ _ _ _ e5) (omega (arith, head_eq _ _ _ _ e6, head_eq _ _ _ _ e7))
