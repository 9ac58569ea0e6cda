-- ===== src/Fs/Bytes.antt =====
-- What testfs_write_data and testfs_read_data of fs/read_write.c do to the bytes of a sound file.
use web_server_and_user_leve.Prelude.{
  ℕ, ◌+◌, ◌-◌, ◌/◌, ◌%◌, ◌≤◌, ◌<◌, ◌≡◌, ◌≢◌, sym, ap, ◌∙◌, ◌==◌, eqb_eq, eqb_ne, ltb, ltb-true,
  ltb-false, ltb_lt, ltb_ge, Bool-cases, inl, inr, arith, List, length, if◌then◌else◌, get_elem?,
}
use web_server_and_user_leve.Fs.State.{Block, FileSystem, Inode}
use web_server_and_user_leve.Fs.Data.{or_else, copy_in, grown}
use web_server_and_user_leve.Fs.Slots.{block_of, IsSound}
use web_server_and_user_leve.Fs.Logical.{byte_at, content}
use web_server_and_user_leve.Fs.Writing.{
  overlay, Ready, Written, get_elem?-behind, grown-size, after, after-IsSound, other_content,
  own_content, after-others,
}

same_page :
    (pos start : ℕ) → pos / 8192 ≡ start / 8192 → ltb (pos % 8192) (start % 8192) ≡ ltb pos start
same_page pos start e = elim (Bool-cases (ltb pos start)) [
  | inl h ↦ ltb-true _ _ (omega (arith, e, ltb_lt _ _ h)) ∙ sym h
  | inr h ↦ ltb-false _ _ (omega (arith, e, ltb_ge _ _ h)) ∙ sym h
]

module _ (k p : ℕ) (node : Inode) (s : FileSystem) (node1 : Inode) (s1 : FileSystem) (block : Block)
    (ok : IsSound node s) (buf : List ℕ) (start : ℕ) (here : start / 8192 ≡ k) (small : k < 2058)
    (fits : start % 8192 + length buf ≤ 8192) (r : Ready k p node s node1 s1 block) where
  abbrev b : Block
  b = copy_in block (start % 8192) buf

  abbrev node' : Inode
  node' = grown node1 start (length buf)

  own_byte : (pos : ℕ) → pos / 8192 ≡ k → b (pos % 8192) ≡ overlay (byte_at node s) buf start pos
  unfolding copy_in overlay byte_at
  own_byte pos e =
      ap
        (λ c.
          if c
          then block (pos % 8192)
          else or_else (get_elem? buf (pos % 8192 - start % 8192)) (block (pos % 8192)))
        (same_page pos start (e ∙ sym here))
      ∙ ap
          (λ n.
            if ltb pos start
            then block (pos % 8192)
            else or_else (get_elem? buf n) (block (pos % 8192)))
          (omega (arith, e, here))
      ∙ ap (λ n. if ltb pos start then n else or_else (get_elem? buf (pos - start)) n)
          (r.was (pos % 8192) ∙ ap (λ j. content s (block_of node s j) (pos % 8192)) (sym e))

  other_byte :
      (pos : ℕ) → pos / 8192 ≢ k → byte_at node s pos ≡ overlay (byte_at node s) buf start pos
  unfolding overlay
  other_byte pos other = elim (Bool-cases (ltb pos start)) [
    | inl h ↦
        ap
          (λ c.
            if c
            then byte_at node s pos
            else or_else (get_elem? buf (pos - start)) (byte_at node s pos))
          (sym h)
    | inr h ↦
        ap (λ o. or_else o (byte_at node s pos))
          (sym (
            get_elem?-behind buf (pos - start)
              (behind pos start (ltb_ge _ _ h) (λ e. other (e ∙ here)) fits)))
        ∙ ap
            (λ c.
              if c
              then byte_at node s pos
              else or_else (get_elem? buf (pos - start)) (byte_at node s pos))
            (sym h)
  ]
    where
      behind :
          (pos start : ℕ)
          → start ≤ pos
          → pos / 8192 ≢ start / 8192
          → start % 8192 + length buf ≤ 8192
          → length buf ≤ pos - start
      behind pos start h n f = elim (Bool-cases (ltb (pos - start) (length buf))) [
        | inl inside ↦ absurd (n (omega (arith, h, f, ltb_lt _ _ inside)))
        | inr outside ↦ ltb_ge _ _ outside
      ]

  pub ready-Written : Written buf start node s node' (after k p node s node1 s1 block b ok small r)
  unfolding byte_at
  ready-Written = record {
    sound = after-IsSound k p node s node1 s1 block b ok small r start (length buf);
    bytes = λ pos h. elim (Bool-cases (pos / 8192 == k)) [
      | inl at_k ↦
          ap
            (λ j.
              content (after k p node s node1 s1 block b ok small r)
                (block_of node' (after k p node s node1 s1 block b ok small r) j) (pos % 8192))
            (eqb_eq (pos / 8192) k at_k)
          ∙ own_content k p node s node1 s1 block b ok small r start (length buf) (pos % 8192)
          ∙ own_byte pos (eqb_eq (pos / 8192) k at_k)
      | inr other ↦
          other_content k p node s node1 s1 block b ok small r start (length buf) (pos / 8192)
            (pos % 8192) (omega (arith, h)) (eqb_ne (pos / 8192) k other)
          ∙ other_byte pos (eqb_ne (pos / 8192) k other)
    ];
    size = grown-size node1 node start (length buf) r.size;
    others = after-others k p node s node1 s1 block b ok small r;
  }
