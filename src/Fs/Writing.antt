-- ===== src/Fs/Writing.antt =====
-- testfs_write_data of fs/read_write.c on a sound file: its bytes, and what it leaves alone.
use web_server_and_user_leve.Prelude.{
  ℕ, zero, suc, ◌+◌, ◌-◌, ◌*◌, ◌≤◌, ◌<◌, ◌≡◌, ◌≢◌, refl, sym, ap, ◌∙◌, ◌==◌, eqb_eq, eqb_ne, ltb,
  leb, Bool-cases, none, inl, inr, arith, List, [], ◌∷◌, length, if◌then◌else◌, updated, get_elem?,
}
use web_server_and_user_leve.Fs.State.{Block, FileSystem, Inode}
use web_server_and_user_leve.Fs.Blocks.{stored}
use web_server_and_user_leve.Fs.Data.{or_else, grown}
use web_server_and_user_leve.Fs.Space.{IsLaidOut, stored_longer, stored_other}
use web_server_and_user_leve.Fs.Slots.{block_of, IsOwned, IsApart, IsSound, cong-IsApart}
use web_server_and_user_leve.Fs.Logical.{byte_at, content, direct_slot, entry_slot, indirect_slot}
use web_server_and_user_leve.Fs.Placing.{by_kind, entry-same}
use web_server_and_user_leve.Fs.Entries.{
  map-IsApart, stored-IsOwned, stored-IsLaidOut, stored-present,
}

-- The bytes `old` with the buffer over them from `start` on.
unfoldable pub overlay : (ℕ → ℕ) → List ℕ → ℕ → ℕ → ℕ
overlay old buf start pos =
    if ltb pos start then old pos else or_else (get_elem? buf (pos - start)) (old pos)

-- Slot `k` has the block `p`, into which the content `block` can be written; the other slots are those
-- before.
pub record Ready (k p : ℕ) (node : Inode) (s : FileSystem) (node1 : Inode) (s1 : FileSystem)
    (block : Block) : Type 0 where
  pub laid_out : IsLaidOut s1
  pub ten : length node1.dinode.i_block_nr ≡ 10
  pub slots : IsApart s1 (block_of node1 s1)
  pub at : block_of node1 s1 k ≡ p
  pub positive : 1 ≤ p
  pub rest : (j : ℕ) → j < 2058 → j ≢ k → block_of node1 s1 j ≡ block_of node s j
  pub present :
      (j : ℕ) → j ≤ 2058 → j ≢ k → 1 ≤ block_of node1 s1 j → block_of node1 s1 j < s1.dev_length
  pub kept : (q : ℕ) → IsOwned s q → q ≢ node.dinode.i_indirect → s1.blocks q ≡ s.blocks q
  pub in_use : (q : ℕ) → IsOwned s q → IsOwned s1 q
  pub fresh : (q : ℕ) → IsOwned s q → ((j : ℕ) → j ≤ 2058 → block_of node s j ≢ q) → q ≢ p
  pub size : node1.dinode.i_size ≡ node.dinode.i_size
  pub was : (o : ℕ) → block o ≡ content s (block_of node s k) o

-- What a write does: it leaves a sound file with the bytes of the buffer, and the blocks in use that are
-- not the file's stay in use with their contents.
pub record Written (buf : List ℕ) (start : ℕ) (node : Inode) (s : FileSystem) (node' : Inode)
    (s' : FileSystem) : Type 0 where
  pub sound : IsSound node' s'
  pub bytes :
      (pos : ℕ) → pos < 2058 * 8192 → byte_at node' s' pos ≡ overlay (byte_at node s) buf start pos
  pub size : node'.dinode.i_size ≡ (grown node start (length buf)).dinode.i_size
  pub others :
      (q : ℕ)
      → IsOwned s q
      → ((j : ℕ) → j ≤ 2058 → block_of node s j ≢ q)
      → IsOwned s' q × (s'.blocks q ≡ s.blocks q)

pub get_elem?-behind : (xs : List ℕ) (i : ℕ) → length xs ≤ i → get_elem? xs i ≡ none
get_elem?-behind [] i h = refl
get_elem?-behind (x ∷ xs) zero h = absurd (omega arith)
get_elem?-behind (x ∷ xs) (suc i) h = get_elem?-behind xs i (omega arith)

grown-slots :
    (node : Inode) (s : FileSystem) (start n j : ℕ)
    → block_of (grown node start n) s j ≡ block_of node s j
unfolding block_of
grown-slots node s start zero j = refl
grown-slots node s start (suc n) j = refl

grown-ten :
    (node : Inode) (start n : ℕ) → (grown node start n).dinode.i_block_nr ≡ node.dinode.i_block_nr
grown-ten node start zero = refl
grown-ten node start (suc n) = refl

pub grown-size :
    (node1 node : Inode) (start n : ℕ)
    → node1.dinode.i_size ≡ node.dinode.i_size
    → (grown node1 start n).dinode.i_size ≡ (grown node start n).dinode.i_size
grown-size node1 node start zero e = e
grown-size node1 node start (suc n) e =
    ap (λ size. if leb (start + suc n) size then size else start + suc n) e

pub content-pos : (s : FileSystem) (q o : ℕ) → 1 ≤ q → content s q o ≡ s.blocks q o
unfolding content
content-pos s zero o h = absurd (omega arith)
content-pos s (suc q) o h = refl

pub content-same :
    (s s' : FileSystem) (q o : ℕ)
    → (1 ≤ q → s'.blocks q ≡ s.blocks q)
    → content s' q o ≡ content s q o
unfolding content
content-same s s' zero o h = refl
content-same s s' (suc q) o h = ap (λ (b : Block). b o) (h (omega arith))

module _ (k p : ℕ) (node : Inode) (s : FileSystem) (node1 : Inode) (s1 : FileSystem)
    (block b : Block) (ok : IsSound node s) (small : k < 2058)
    (r : Ready k p node s node1 s1 block) where
  abbrev pub after : FileSystem
  after = stored p b s1

  -- Another slot has another block.
  other_block : (j : ℕ) → j ≤ 2058 → j ≢ k → block_of node1 s1 j ≢ p
  other_block j h n e =
      n (r.slots.apart j k h (omega (arith, small)) (omega (arith, e, r.positive)) (e ∙ sym r.at))

  indirect_other : 1 ≤ node1.dinode.i_indirect → node1.dinode.i_indirect ≢ p
  indirect_other m e =
      other_block 2058 (omega arith) (λ g. absurd (omega (arith, g, small)))
        (indirect_slot node1 s1 2058 (omega arith) ∙ e)

  after-slots : (j : ℕ) → j ≤ 2058 → block_of node1 after j ≡ block_of node1 s1 j
  after-slots =
      by_kind node1 after (block_of node1 s1) (λ j h. sym (direct_slot node1 s1 j h))
        (λ j h h'.
          entry-same s1 after node1.dinode.i_indirect (j - 10)
            (λ m. stored_other p node1.dinode.i_indirect b s1 (indirect_other m))
          ∙ sym (entry_slot node1 s1 j h h'))
        (sym (indirect_slot node1 s1 2058 (omega arith)))

  pub after-IsSound : (start n : ℕ) → IsSound (grown node1 start n) after
  after-IsSound start n = record {
    laid_out = stored-IsLaidOut p b s1 r.laid_out;
    ten = ap length (grown-ten node1 start n) ∙ r.ten;
    slots =
        cong-IsApart after (block_of node1 s1) _
          (λ j h. grown-slots node1 after start n j ∙ after-slots j h)
          (map-IsApart s1 after _ (λ q o. stored-IsOwned p q b s1 o) r.slots);
    present = λ j h m.
        let e = grown-slots node1 after start n j ∙ after-slots j h in
        elim (Bool-cases (j == k)) [
          | inl at_k ↦
              omega
                (arith, e, ap (block_of node1 s1) (eqb_eq j k at_k), r.at, stored-present p b s1)
          | inr other ↦ omega (
            arith,
            e,
            r.present j h (eqb_ne j k other) (omega (arith, e, m)),
            stored_longer p b s1,
          )
        ];
  }

  -- The bytes of the other blocks.
  pub other_content :
      (start n j o : ℕ)
      → j < 2058
      → j ≢ k
      → content after (block_of (grown node1 start n) after j) o ≡ content s (block_of node s j) o
  other_content start n j o h other =
      let e : block_of (grown node1 start n) after j ≡ block_of node s j =
        grown-slots node1 after start n j ∙ after-slots j (omega (arith, h)) ∙ r.rest j h other in
      ap (λ q. content after q o) e
      ∙ content-same s after (block_of node s j) o (λ m.
        stored_other p (block_of node s j) b s1
          (λ g. other_block j (omega (arith, h)) other (r.rest j h other ∙ g))
        ∙ r.kept (block_of node s j) (ok.slots.owned j (omega (arith, h)) m) (λ g. absurd (
            omega (
              arith,
              h,
              ok.slots.apart j 2058 (omega (arith, h)) (omega arith) m
                  (g ∙ sym (indirect_slot node s 2058 (omega arith))),
            ))))

  pub own_content : (start n o : ℕ) → content after (block_of (grown node1 start n) after k) o ≡ b o
  own_content start n o =
      ap (λ q. content after q o)
        (grown-slots node1 after start n k ∙ after-slots k (omega (arith, small)) ∙ r.at)
      ∙ content-pos after p o r.positive
      ∙ ap (λ (c : Block). c o) (updated s1.blocks p b)

  pub after-others :
      (q : ℕ)
      → IsOwned s q
      → ((j : ℕ) → j ≤ 2058 → block_of node s j ≢ q)
      → IsOwned after q × (after.blocks q ≡ s.blocks q)
  after-others q o none_of = (
    stored-IsOwned p q b s1 (r.in_use q o),
    stored_other p q b s1 (r.fresh q o none_of)
        ∙ r.kept q o
            (λ e. none_of 2058 (omega arith) (indirect_slot node s 2058 (omega arith) ∙ sym e)),
  )
