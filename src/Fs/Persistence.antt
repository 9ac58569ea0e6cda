-- ===== src/Fs/Persistence.antt =====
-- A file of fs/ in two states with the same data blocks.
use web_server_and_user_leve.Prelude.{ℕ, ◌-◌, ◌*◌, ◌/◌, ◌%◌, ◌≤◌, ◌<◌, ◌≡◌, sym, ap, ◌∙◌, arith}
use web_server_and_user_leve.Fs.State.{FileSystem, Inode}
use web_server_and_user_leve.Fs.Slots.{block_of, IsSound}
use web_server_and_user_leve.Fs.Logical.{
  byte_at, content, direct_slot, entry_slot, indirect_slot, indirect-IsOwned,
}
use web_server_and_user_leve.Fs.Placing.{by_kind, entry-same}
use web_server_and_user_leve.Fs.Writing.{content-same}

module _ (node : Inode) (s s' : FileSystem) (ok : IsSound node s)
    (same : (q : ℕ) → 146 ≤ q → s'.blocks q ≡ s.blocks q) where
  block_of-same : (j : ℕ) → j ≤ 2058 → block_of node s' j ≡ block_of node s j
  block_of-same =
      by_kind node s' (block_of node s) (λ j h. sym (direct_slot node s j h))
        (λ j h h'.
          entry-same s s' node.dinode.i_indirect (j - 10)
            (λ m. same node.dinode.i_indirect (indirect-IsOwned node s ok m).low)
          ∙ sym (entry_slot node s j h h'))
        (sym (indirect_slot node s 2058 (omega arith)))

  pub byte_at-same : (pos : ℕ) → pos < 2058 * 8192 → byte_at node s' pos ≡ byte_at node s pos
  unfolding byte_at
  byte_at-same pos h =
      let j : ℕ = pos / 8192 in
      ap (λ q. content s' q (pos % 8192)) (block_of-same j (omega (arith, h)))
      ∙ content-same s s' (block_of node s j) (pos % 8192)
          λ m. same (block_of node s j) (ok.slots.owned j (omega (arith, h)) m).low
