-- ===== src/Fs/Files.antt =====
-- What testfs_write_data and testfs_read_data of fs/read_write.c do to a sound file.
use web_server_and_user_leve.Prelude.{
  ℕ, ◌+◌, ◌-◌, ◌*◌, ◌/◌, ◌%◌, ◌^◌, ◌≤◌, ◌<◌, ◌≡◌, refl, sym, ap, ◌∙◌, ltb, leb, ltb-true, ltb-false,
  ltb_lt, ltb_ge, Bool, false, Bool-cases, inl, inr, arith, List, length, if◌then◌else◌, updated,
}
use web_server_and_user_leve.Bitmap.Store.{enosys, enospc}
use web_server_and_user_leve.Fs.State.{
  Block, FileSystem, Inode, Outcome, returned, and_then, pure, ◌>>=◌,
}
use web_server_and_user_leve.Fs.Blocks.{block_size, zero_block}
use web_server_and_user_leve.Fs.Super.{Ret, value, error}
use web_server_and_user_leve.Fs.Data.{copy_in, grown, write_into, allocate_block, write_data}
use web_server_and_user_leve.Fs.Slots.{block_of, IsSound}
use web_server_and_user_leve.Fs.Logical.{byte_at, content}
use web_server_and_user_leve.Fs.Placing.{Placed, Unplaced, update-at}
use web_server_and_user_leve.Fs.Allocating.{
  gets, gets_none, allocate_block-there, allocate_block-Outcomes,
}
use web_server_and_user_leve.Prelude.{◌⊎◌, leb-true}
use web_server_and_user_leve.Fs.State.{assert, fails, ◌>>◌}
use web_server_and_user_leve.Fs.Data.{
  direct_block, read_physical, read_indirect, as_int, read_logical, testfs_read_block, unless_there,
}
use web_server_and_user_leve.Fs.Writing.{Ready, Written, content-pos, content-same, after}
use web_server_and_user_leve.Fs.Bytes.{ready-Written}

-- The two ways in which a slot gets ready.
there-Ready :
    (node : Inode) (s : FileSystem) (k : ℕ)
    → IsSound node s
    → k < 2058
    → 1 ≤ block_of node s k
    → Ready k (block_of node s k) node s node s (s.blocks (block_of node s k))
there-Ready node s k ok small m = record {
  laid_out = ok.laid_out;
  ten = ok.ten;
  slots = ok.slots;
  at = refl;
  positive = m;
  rest = λ j h n. refl;
  present = λ j h n m. ok.present j h m;
  kept = λ q o n. refl;
  in_use = λ q o. o;
  fresh = λ q o none_of e. none_of k (omega (arith, small)) (sym e);
  size = refl;
  was = λ o. sym (content-pos s (block_of node s k) o m);
}

Placed-Ready :
    (node : Inode) (s : FileSystem) (k p : ℕ) (node1 : Inode) (s1 : FileSystem)
    → k < 2058
    → block_of node s k ≡ 0
    → Placed k p node s node1 s1
    → Ready k p node s node1 s1 zero_block
unfolding content
Placed-Ready node s k p node1 s1 small missing g = record {
  laid_out = g.laid_out;
  ten = g.ten;
  slots = g.slots;
  at = g.at k small ∙ updated (block_of node s) k p;
  positive = omega (arith, g.owned.low);
  rest = λ j h n. g.at j h ∙ update-at (block_of node s) k p j n;
  present = g.present;
  kept = g.kept;
  in_use = g.in_use;
  fresh = λ q o none_of. g.fresh q o;
  size = g.size;
  was = λ o. ap (λ q. content s q o) (sym missing);
}

-- All that testfs_write_data does: it writes the bytes; there is no space, and the file and all blocks in
-- use are as before; or the bytes cross the end of a block or lie behind the indirect blocks, and nothing
-- changes.
pub data Writes (buf : List ℕ) (start : ℕ) (node : Inode) (s : FileSystem)
    (r : Outcome (Ret × Inode)) : Type 0 where
  wrote :
      (node' : Inode) (s' : FileSystem)
      → r ≡ returned (value (length buf), node') s'
      → start / 8192 < 2058
      → Written buf start node s node' s'
      → Writes buf start node s r
  no_space :
      (node' : Inode) (s' : FileSystem)
      → r ≡ returned (error enospc, node') s'
      → Unplaced node s node' s'
      → ((pos : ℕ) → pos < 2058 * 8192 → byte_at node' s' pos ≡ byte_at node s pos)
      → Writes buf start node s r
  refuses :
      r ≡ returned (error enosys, node) s
      → (8192 < start % 8192 + length buf) ⊎ (2058 ≤ start / 8192)
      → Writes buf start node s r

module _ (buf : List ℕ) (start : ℕ) (node : Inode) (s : FileSystem) (ok : IsSound node s) where
  abbrev k : ℕ
  k = start / 8192

  fitting :
      start % 8192 + length buf ≤ 8192
      → write_data node buf start s ≡ and_then (allocate_block node k s) (write_into buf start)
  unfolding write_data
  fitting fits =
      ap
        (λ c.
          (if c
              then pure (error enosys, node)
              else allocate_block node (start / block_size) >>= write_into buf start)
            s)
        (ltb-false 8192 (start % 8192 + length buf) fits)

  Unplaced-bytes :
      (node' : Inode) (s' : FileSystem)
      → Unplaced node s node' s'
      → (pos : ℕ) → pos < 2058 * 8192
      → byte_at node' s' pos ≡ byte_at node s pos
  unfolding byte_at
  Unplaced-bytes node' s' u pos h =
      let j : ℕ = pos / 8192 in
      ap (λ q. content s' q (pos % 8192)) (u.same j (omega (arith, h)))
      ∙ content-same s s' (block_of node s j) (pos % 8192)
          λ m. u.kept (block_of node s j) (ok.slots.owned j (omega (arith, h)) m)

  -- Within the blocks that a file can have.
  slot-Writes :
      start % 8192 + length buf ≤ 8192
      → k < 2058
      → Writes buf start node s (write_data node buf start s)
  unfolding copy_in
  slot-Writes fits small = elim (Bool-cases (ltb 0 (block_of node s k))) [
    | inl there ↦
        let r = there-Ready node s k ok small (ltb_lt _ _ there) in
        let block : Block = s.blocks (block_of node s k) in
        wrote (grown node start (length buf))
          (after k (block_of node s k) node s node s block (copy_in block (start % 8192) buf) ok
            small r)
          (fitting fits
            ∙ ap (λ o. and_then o (write_into buf start))
                (allocate_block-there node s ok k (block_of node s k) small refl
                  (ltb_lt _ _ there)))
          small
          (ready-Written k (block_of node s k) node s node s block ok buf start refl small fits r)
    | inr missing ↦
        let none_there : block_of node s k ≡ 0 = omega (arith, ltb_ge _ _ missing) in
        elim (allocate_block-Outcomes node s ok k small none_there) [
          | gets p node1 s1 e g ↦
              let r = Placed-Ready node s k p node1 s1 small none_there g in
              wrote (grown node1 start (length buf))
                (after k p node s node1 s1 zero_block (copy_in zero_block (start % 8192) buf) ok
                  small r)
                (fitting fits ∙ ap (λ o. and_then o (write_into buf start)) e) small
                (ready-Written k p node s node1 s1 zero_block ok buf start refl small fits r)
          | gets_none node1 s1 e u ↦
              no_space node1 s1 (fitting fits ∙ ap (λ o. and_then o (write_into buf start)) e) u
                (Unplaced-bytes node1 s1 u)
        ]
  ]

  -- Behind them.
  behind-Writes :
      start % 8192 + length buf ≤ 8192
      → 2058 ≤ k
      → k < 2 ^ 31
      → Writes buf start node s (write_data node buf start s)
  unfolding allocate_block testfs_read_block
  behind-Writes fits far small =
      refuses
        (fitting fits
          ∙ ap (λ o. and_then o (write_into buf start))
              (ap
                  (λ n.
                    (assert (ltb n (2 ^ 31)) >> (testfs_read_block node n >>= unless_there node n))
                      s)
                  (as_int_eq k small)
                ∙ ap
                    (λ c.
                      and_then (if c then returned tt s else fails)
                        λ _. testfs_read_block node k >>= unless_there node k)
                    (ltb-true k (2 ^ 31) small)
                ∙ ap (λ o. and_then o (unless_there node k)) unread))
        (inr far)
    where
      choose : Bool → Bool → Outcome (Ret × Block)
      choose c d =
          (if c
              then read_physical (direct_block node k)
              else if d
              then pure (error enosys, zero_block)
              else read_indirect node.dinode.i_indirect (k - 10))
            s

      as_int_eq : (n : ℕ) → n < 2 ^ 31 → as_int n ≡ n
      as_int_eq n h = omega (arith, h)

      unread : testfs_read_block node k s ≡ returned (error enosys, zero_block) s
      unread =
          ap (λ n. (assert (ltb n (2 ^ 31)) >> read_logical node n) s) (as_int_eq k small)
          ∙ ap (λ c. and_then (if c then returned tt s else fails) λ _. read_logical node k)
              (ltb-true k (2 ^ 31) small)
          ∙ ap (λ c. choose c (leb 2048 (k - 10))) (ltb-false k 10 (omega (arith, far)))
          ∙ ap (choose false) (leb-true 2048 (k - 10) (omega (arith, far)))

  -- testfs_write_data of a buffer into a sound file, at a start whose block number is an `int`.
  pub write_data-Writes : k < 2 ^ 31 → Writes buf start node s (write_data node buf start s)
  unfolding write_data
  write_data-Writes small = elim (Bool-cases (ltb 8192 (start % 8192 + length buf))) [
    | inl crosses ↦
        refuses
          (ap
            (λ c.
              (if c
                  then pure (error enosys, node)
                  else allocate_block node (start / block_size) >>= write_into buf start)
                s)
            crosses)
          (inl (ltb_lt _ _ crosses))
    | inr fits ↦ elim (Bool-cases (ltb k 2058)) [
      | inl near ↦ slot-Writes (ltb_ge _ _ fits) (ltb_lt _ _ near)
      | inr far ↦ behind-Writes (ltb_ge _ _ fits) (ltb_ge _ _ far) small
    ]
  ]
