-- ===== src/Fs/Syncing.antt =====
-- testfs_sync_inode of fs/inode.c, and the inodes on the device after it.
use web_server_and_user_leve.Prelude.{
  ℕ, zero, suc, ◌+◌, ◌*◌, ◌/◌, ◌%◌, ◌^◌, ◌≤◌, ◌<◌, ◌≡◌, ◌≢◌, refl, sym, ap, ◌∙◌, ◌==◌, ==_ne, ltb,
  ltb-true, true, false, arith, some, List, [], ◌∷◌, ◌++◌, length, if◌then◌else◌, update, updated,
}
use web_server_and_user_leve.Fs.State.{
  Block, Dinode, FileSystem, Inode, returned, fails, and_then, M, pure, get, ◌>>=◌, ◌>>◌,
}
use web_server_and_user_leve.Fs.Blocks.{word_at, put_words, read_block, write_block, stored}
use web_server_and_user_leve.Fs.Table.{
  dinode_words, dinode_at, inode_offset, read_inode_block, write_inode_block, find_inode,
  put_hashed, inode_of, change_inode, load_dinode, sync_dirty, sync_inode,
}
use web_server_and_user_leve.Fs.Logical.{read_block-present}
use web_server_and_user_leve.Fs.Entries.{stored-present}
use web_server_and_user_leve.Fs.Blocks.{zero_block}
use web_server_and_user_leve.Prelude.{
  Bool-cases, inl, inr, eqb_eq, eqb_ne, ltb_lt, ltb_ge, length-append,
}
use web_server_and_user_leve.Fs.Table.{pointed}
use web_server_and_user_leve.Fs.Stored.{
  IsStorable, AllSmall, put_words-before, put_words-behind, words_at-cong, dinode_eq,
  dinode_at-put_words, some_eq, last_small,
}

-- The inode `nr` on the device.
unfoldable pub disk_dinode : FileSystem → ℕ → Dinode
disk_dinode s nr = dinode_at (s.blocks (s.sb.inode_blocks_start + nr / 128)) (inode_offset nr)

dinode_at-cong :
    (b c : Block) (i : ℕ)
    → ((j : ℕ) → i ≤ j → j < i + 16 → word_at b j ≡ word_at c j)
    → dinode_at b i ≡ dinode_at c i
unfolding dinode_at
dinode_at-cong b c i h =
    dinode_eq _ _ (h i (omega arith) (omega arith))
      (words_at-cong b c (i + 1) 10 λ j l u. h j (omega (arith, l)) (omega (arith, u)))
      (h (i + 11) (omega arith) (omega arith)) (h (i + 12) (omega arith) (omega arith))
      (h (i + 13) (omega arith) (omega arith))
      (omega
        (arith, h (i + 14) (omega arith) (omega arith), h (i + 15) (omega arith) (omega arith)))

append-AllSmall : (xs ys : List ℕ) → AllSmall xs → AllSmall ys → AllSmall (xs ++ ys)
append-AllSmall [] ys h g i x e = g i x e
append-AllSmall (w ∷ ws) ys h g zero x e = h 0 x e
append-AllSmall (w ∷ ws) ys h g (suc i) x e = append-AllSmall ws ys (λ j y f. h (suc j) y f) g i x e

length-dinode_words : (d : Dinode) → IsStorable d → length (dinode_words d) ≡ 16
unfolding dinode_words
length-dinode_words d ok = omega (
  arith,
  ok.ten,
  length-append d.i_block_nr
      (d.i_indirect ∷ d.i_dindirect ∷ d.block_count ∷ d.i_size % 2 ^ 32 ∷ d.i_size / 2 ^ 32 ∷ []),
)

dinode_words-AllSmall : (d : Dinode) → IsStorable d → AllSmall (dinode_words d)
unfolding dinode_words
dinode_words-AllSmall d ok zero x e = omega (arith, ok.kind, some_eq d.i_type x e)
dinode_words-AllSmall d ok (suc i) x e =
    append-AllSmall d.i_block_nr _ ok.blocks (last_small zero_block 0 d ok) i x e

-- After the synchronisation: the inode on the device is the one in memory, and no other has changed.
pub record Synced (nr : ℕ) (node : Inode) (s : FileSystem) : Type 0 where
  pub after : FileSystem
  pub runs : sync_inode nr s ≡ returned tt after
  pub loads : load_dinode nr after ≡ returned node.dinode after
  pub others : (m : ℕ) → m ≢ nr → disk_dinode after m ≡ disk_dinode s m
  pub clean : after.hashed ≡ put_hashed (record node { dirty = false }) s.hashed

read_inode_block-present :
    (nr : ℕ) (s : FileSystem)
    → nr < 16384
    → s.sb.inode_blocks_start + nr / 128 < s.dev_length
    → read_inode_block nr s ≡ returned (s.blocks (s.sb.inode_blocks_start + nr / 128)) s
unfolding read_inode_block
read_inode_block-present nr s small there =
    ap
      (λ c.
        and_then (if c then returned tt s else fails)
          λ _. get >>= λ t. read_block (t.sb.inode_blocks_start + nr / 128))
      (ltb-true (nr / 128) 128 (omega (arith, small)))
    ∙ read_block-present (s.sb.inode_blocks_start + nr / 128) s there

module _ (nr : ℕ) (node : Inode) (s : FileSystem) (small : nr < 16384)
    (there : s.sb.inode_blocks_start + nr / 128 < s.dev_length) (ok : IsStorable node.dinode) where
  abbrev home : ℕ
  home = s.sb.inode_blocks_start + nr / 128

  abbrev block : Block
  block = put_words (s.blocks home) (inode_offset nr) (dinode_words node.dinode)

  abbrev synced : FileSystem
  synced =
      let s1 : FileSystem = stored home block s in
      record s1 { hashed = put_hashed (record node { dirty = false }) s1.hashed }

  synced-loads : load_dinode nr synced ≡ returned node.dinode synced
  unfolding load_dinode
  synced-loads =
      ap (λ o. and_then o λ b. pure (dinode_at b (inode_offset nr)))
        (read_inode_block-present nr synced small (stored-present home block s))
      ∙ ap (λ b. returned (dinode_at b (inode_offset nr)) synced) (updated s.blocks home block)
      ∙ ap (λ d. returned d synced)
          (dinode_at-put_words (s.blocks home) (inode_offset nr) node.dinode ok)

  synced-others : (m : ℕ) → m ≢ nr → disk_dinode synced m ≡ disk_dinode s m
  unfolding disk_dinode
  synced-others m other = elim (Bool-cases (m / 128 == nr / 128)) [
    | inr away ↦
        ap
          (λ c.
            dinode_at (if c then block else s.blocks (s.sb.inode_blocks_start + m / 128))
              (inode_offset m))
          (==_ne (s.sb.inode_blocks_start + m / 128) home (λ e. eqb_ne _ _ away (omega (arith, e))))
    | inl same ↦
        let e : m / 128 ≡ nr / 128 = eqb_eq _ _ same in
        ap
          (λ n.
            dinode_at (update s.blocks home block (s.sb.inode_blocks_start + n)) (inode_offset m))
          e
        ∙ ap (λ b. dinode_at b (inode_offset m)) (updated s.blocks home block)
        ∙ dinode_at-cong block (s.blocks home) (inode_offset m) (untouched e)
        ∙ ap (λ n. dinode_at (s.blocks (s.sb.inode_blocks_start + n)) (inode_offset m)) (sym e)
  ]
    where
      apart : (a b : ℕ) → a / 128 ≡ b / 128 → a ≢ b → a % 128 ≢ b % 128
      apart a b e n g = n (omega (arith, e, g))

      untouched :
          m / 128 ≡ nr / 128
          → (j : ℕ) → inode_offset m ≤ j
          → j < inode_offset m + 16
          → word_at block j ≡ word_at (s.blocks home) j
      untouched e j l u = elim (Bool-cases (ltb j (inode_offset nr))) [
        | inl before ↦
            put_words-before (s.blocks home) (inode_offset nr) j (dinode_words node.dinode)
              (dinode_words-AllSmall node.dinode ok) (ltb_lt _ _ before)
        | inr behind ↦
            put_words-behind (s.blocks home) (inode_offset nr) j (dinode_words node.dinode)
              (dinode_words-AllSmall node.dinode ok)
              (far (m % 128) (nr % 128) (length (dinode_words node.dinode)) j (apart m nr e other) l
                u (ltb_ge _ _ behind) (length-dinode_words node.dinode ok))
      ]
        where
          far :
              (a b n j : ℕ)
              → a ≢ b
              → a * 16 ≤ j
              → j < a * 16 + 16
              → b * 16 ≤ j
              → n ≡ 16
              → b * 16 + n ≤ j
          far a b n j h l u g e = elim (Bool-cases (ltb b a)) [
            | inl less ↦ omega (arith, ltb_lt _ _ less, l, e)
            | inr more ↦ absurd (h (omega (arith, ltb_ge _ _ more, u, g)))
          ]

  -- testfs_sync_inode of a dirty in-memory inode, whose numbers its words can hold, on a device with the
  -- block of that inode: reading it again gives the inode back, it is not dirty any more, and the other
  -- inodes on the device are as before.
  pub sync_inode-Synced :
      find_inode nr s.hashed ≡ some node → node.i_nr ≡ nr → node.dirty ≡ true → Synced nr node s
  unfolding sync_inode inode_of change_inode write_inode_block
  sync_inode-Synced found number dirty = record {
    after = synced;
    runs =
        ap (λ o. and_then (pointed o s) λ n. sync_dirty n.dirty n) found
        ∙ ap (λ c. sync_dirty c node s) dirty
        ∙ ap (λ n. and_then (read_inode_block n s) (write_back n)) number
        ∙ ap (λ o. and_then o (write_back nr)) (read_inode_block-present nr s small there)
        ∙ ap
            (λ c.
              and_then
                (and_then (if c then returned tt s else fails)
                  λ _. get >>= λ t. write_block (t.sb.inode_blocks_start + nr / 128) block)
                λ _. change_inode (record node { dirty = false }))
            (ltb-true (nr / 128) 128 (omega (arith, small)));
    loads = synced-loads;
    others = synced-others;
    clean = refl;
  }
    where
      write_back : ℕ → Block → M (Unit {0})
      write_back n b = do
        write_inode_block n (put_words b (inode_offset n) (dinode_words node.dinode))
        change_inode (record node { dirty = false })
