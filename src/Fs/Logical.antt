-- ===== src/Fs/Logical.antt =====
-- Reading a logical block of a file in fs/read_write.c.
use web_server_and_user_leve.Prelude.{
  ℕ, zero, suc, ◌-◌, ◌/◌, ◌%◌, ◌^◌, ◌≤◌, ◌<◌, ◌≡◌, refl, sym, ap, ◌∙◌, ltb, leb, leb-false,
  ltb-true, ltb-false, ltb_lt, ltb_ge, Bool, false, Bool-cases, inl, inr, arith, if◌then◌else◌,
  subst,
}
use web_server_and_user_leve.Fs.Slots.{block_of, entry_of, IsOwned, IsSound}
use web_server_and_user_leve.Bitmap.Store.{enosys}
use web_server_and_user_leve.Fs.State.{
  Block, FileSystem, Inode, returned, exits, faults, fails, Outcome, assert, ◌>>◌, and_then, pure,
  ◌>>=◌,
}
use web_server_and_user_leve.Fs.Blocks.{block_size, zero_block, word_at, read_block}
use web_server_and_user_leve.Fs.Super.{Ret, value, error}
use web_server_and_user_leve.Fs.Data.{
  direct_block, read_physical, read_indirect, read_logical, as_int, testfs_read_block,
}

-- The content of a block, zeros where there is none.
unfoldable pub content : FileSystem → ℕ → Block
content s zero = zero_block
content s (suc nr) = s.blocks (suc nr)

-- The byte of a file at a position.
unfoldable pub byte_at : Inode → FileSystem → ℕ → ℕ
unfolding block_of content
byte_at node s pos = content s (block_of node s (pos / block_size)) (pos % block_size)

pub read_block-present :
    (nr : ℕ) (s : FileSystem) → nr < s.dev_length → read_block nr s ≡ returned (s.blocks nr) s
unfolding read_block
read_block-present nr s h = ap (λ c. if c then returned (s.blocks nr) s else exits) (ltb-true _ _ h)

pub read_physical-present :
    (p : ℕ) (s : FileSystem)
    → (1 ≤ p → IsOwned s p)
    → (1 ≤ p → p < s.dev_length)
    → read_physical p s ≡ returned (value p, content s p) s
unfolding read_physical content
read_physical-present zero s o h = refl
read_physical-present (suc nr) s o h =
    ap
      (λ c.
        and_then (if c then returned tt s else faults)
          λ _. read_block (suc nr) >>= λ block. pure (value (suc nr), block))
      (ltb-true nr (2 ^ 31 - 1) (omega (arith, (o (omega arith)).high)))
    ∙ ap (λ o. and_then o λ block. pure (value (suc nr), block))
        (read_block-present (suc nr) s (h (omega arith)))

-- The three kinds of slots.
module _ (node : Inode) (s : FileSystem) (k : ℕ) where
  abbrev slot_if : Bool → Bool → ℕ
  slot_if c d =
      if c
      then direct_block node k
      else if d
      then entry_of s node.dinode.i_indirect (k - 10)
      else node.dinode.i_indirect

  pub direct_slot : k < 10 → block_of node s k ≡ direct_block node k
  unfolding block_of
  direct_slot h = ap (λ c. slot_if c (ltb k 2058)) (ltb-true _ _ h)

  pub entry_slot :
      10 ≤ k → k < 2058 → block_of node s k ≡ entry_of s node.dinode.i_indirect (k - 10)
  unfolding block_of
  entry_slot h h' =
      ap (λ c. slot_if c (ltb k 2058)) (ltb-false _ _ h) ∙ ap (slot_if false) (ltb-true _ _ h')

  pub indirect_slot : 2058 ≤ k → block_of node s k ≡ node.dinode.i_indirect
  unfolding block_of
  indirect_slot h =
      ap (λ c. slot_if c (ltb k 2058)) (ltb-false k 10 (omega (arith, h)))
      ∙ ap (slot_if false) (ltb-false k 2058 h)

pub as_int-small : (k : ℕ) → k < 2058 → as_int k ≡ k
as_int-small k h = omega (arith, h)

-- Reading a logical block of a sound file.
module _ (node : Inode) (s : FileSystem) (ok : IsSound node s) where
  pub indirect_present : 1 ≤ node.dinode.i_indirect → node.dinode.i_indirect < s.dev_length
  indirect_present h = omega (
    arith,
    ok.present 2058 (omega arith) (omega (arith, h, indirect_slot node s 2058 (omega arith))),
    indirect_slot node s 2058 (omega arith),
  )

  pub indirect-IsOwned : 1 ≤ node.dinode.i_indirect → IsOwned s node.dinode.i_indirect
  indirect-IsOwned h = subst (IsOwned s) (indirect_slot node s 2058 (omega arith)) (
      ok.slots.owned 2058 (omega arith) (omega (arith, h, indirect_slot node s 2058 (omega arith))))

  read_slot :
      (k p : ℕ)
      → k ≤ 2058
      → block_of node s k ≡ p
      → read_physical p s ≡ returned (value p, content s p) s
  read_slot k p h e =
      read_physical-present p s
        (λ m. subst (IsOwned s) e (ok.slots.owned k h (omega (arith, m, e))))
        λ m. omega (arith, ok.present k h (omega (arith, m, e)), e)

  read_entry :
      (nr i p : ℕ)
      → (1 ≤ nr → nr < s.dev_length)
      → entry_of s nr i ≡ p
      → read_physical p s ≡ returned (value p, content s p) s
      → read_indirect nr i s ≡ returned (value p, content s p) s
  unfolding read_indirect
  read_entry zero i p there e r = ap (λ q. read_physical q s) e ∙ r
  read_entry (suc nr) i p there e r =
      ap (λ o. and_then o λ block. read_physical (word_at block i))
        (read_block-present (suc nr) s (there (omega arith)))
      ∙ ap (λ q. read_physical q s) e
      ∙ r

  pub read_logical-slot :
      (k : ℕ)
      → k < 2058
      → read_logical node k s
        ≡ returned (value (block_of node s k), content s (block_of node s k)) s
  read_logical-slot k h = elim (Bool-cases (ltb k 10)) [
    | inl low ↦
        ap (λ c. choose c (leb 2048 (k - 10))) low
        ∙ ap (λ p. read_physical p s) (sym (direct_slot node s k (ltb_lt _ _ low)))
        ∙ read_slot k _ (omega (arith, h)) refl
    | inr high ↦
        ap (λ c. choose c (leb 2048 (k - 10))) high
        ∙ ap (choose false) (leb-false 2048 (k - 10) (omega (arith, h)))
        ∙ read_entry node.dinode.i_indirect (k - 10) (block_of node s k) indirect_present
            (sym (entry_slot node s k (ltb_ge _ _ high) h)) (read_slot k _ (omega (arith, h)) refl)
  ]
    where
      choose : Bool → Bool → Outcome (Ret × Block)
      choose c d =
          (if c
              then read_physical (direct_block node k)
              else if d
              then pure (error enosys, zero_block)
              else read_indirect node.dinode.i_indirect (k - 10))
            s

  pub testfs_read_block-slot :
      (k : ℕ)
      → k < 2058
      → testfs_read_block node k s
        ≡ returned (value (block_of node s k), content s (block_of node s k)) s
  unfolding testfs_read_block
  testfs_read_block-slot k h =
      ap (λ n. (assert (ltb n (2 ^ 31)) >> read_logical node n) s) (as_int-small k h)
      ∙ ap (λ c. and_then (if c then returned tt s else fails) λ _. read_logical node k)
          (ltb-true k (2 ^ 31) (omega (arith, h)))
      ∙ read_logical-slot k h
