-- ===== src/Fs/Entries.antt =====
-- A block for a slot of the indirect block, in fs/read_write.c.
use web_server_and_user_leve.Prelude.{
  ℕ, zero, suc, ◌+◌, ◌-◌, ◌≤◌, ◌<◌, ◌≡◌, ◌≢◌, refl, sym, ap, ◌∙◌, ◌==◌, ==_ne, false, Bool-cases,
  inl, inr, arith, if◌then◌else◌, update, updated,
}
use web_server_and_user_leve.Bitmap.Marks.{bit_at}
use web_server_and_user_leve.Fs.State.{Block, FileSystem, Inode}
use web_server_and_user_leve.Fs.Blocks.{zero_block, word_at, put_word, stored}
use web_server_and_user_leve.Fs.Inode.{with_indirect, with_count}
use web_server_and_user_leve.Fs.Space.{IsLaidOut, Took}
use web_server_and_user_leve.Fs.Words.{word_at-put_word, word_at-zero}
use web_server_and_user_leve.Fs.Slots.{
  entry_of, block_of, IsOwned, IsApart, IsSound, Took-IsOwned, Took-new, Took-other, update-IsApart,
  cong-IsApart,
}
use web_server_and_user_leve.Fs.Logical.{direct_slot, entry_slot, indirect_slot}
use web_server_and_user_leve.Fs.Space.{Freed, stored_longer, stored_other}
use web_server_and_user_leve.Fs.Placing.{Placed, Unplaced, update-at, by_kind}

pub map-IsApart :
    (s s' : FileSystem) (m : ℕ → ℕ)
    → ((q : ℕ) → IsOwned s q → IsOwned s' q)
    → IsApart s m
    → IsApart s' m
map-IsApart s s' m h a = record {
  owned = λ k small used. h (m k) (a.owned k small used);
  apart = a.apart;
}

pub stored-IsOwned :
    (nr q : ℕ) (b : Block) (s : FileSystem) → IsOwned s q → IsOwned (stored nr b s) q
stored-IsOwned nr q b s o = record { low = o.low; high = o.high; used = o.used }

pub stored-IsLaidOut :
    (nr : ℕ) (b : Block) (s : FileSystem) → IsLaidOut s → IsLaidOut (stored nr b s)
stored-IsLaidOut nr b s ok = record {
  freemap_start = ok.freemap_start;
  data_start = ok.data_start;
  valid = ok.valid;
  size = ok.size;
  limit = ok.limit;
}

pub stored-present : (nr : ℕ) (b : Block) (s : FileSystem) → nr < (stored nr b s).dev_length
stored-present nr b s = ground arith

entry-stored :
    (nr i : ℕ) (b : Block) (s : FileSystem) → 1 ≤ nr → entry_of (stored nr b s) nr i ≡ word_at b i
entry-stored zero i b s h = absurd (omega arith)
entry-stored (suc nr) i b s h = ap (λ c. word_at c i) (updated s.blocks (suc nr) b)

entry-word : (nr i : ℕ) (s : FileSystem) → 1 ≤ nr → entry_of s nr i ≡ word_at (s.blocks nr) i
entry-word zero i s h = absurd (omega arith)
entry-word (suc nr) i s h = refl

entry-none : (nr i : ℕ) (s : FileSystem) → nr ≡ 0 → entry_of s nr i ≡ 0
entry-none nr i s e = ap (λ n. entry_of s n i) e

shifted_eqb : (j k : ℕ) → 10 ≤ j → 10 ≤ k → (j - 10 == k - 10) ≡ (j == k)
shifted_eqb j k h g = ground arith

abbrev pub more : Inode → Inode
more node = with_count node (node.dinode.block_count + 1)

module _ (node : Inode) (s : FileSystem) (ok : IsSound node s) (k : ℕ) (low : 10 ≤ k)
    (small : k < 2058) where
  abbrev slots : ℕ → ℕ
  slots = block_of node s

  not_last : 2058 ≢ k
  not_last e = absurd (omega (arith, e, small))

  -- The indirect block is there.
  module _ (index : ℕ) (s1 : FileSystem) (t : Took index s s1)
      (there : 1 ≤ node.dinode.i_indirect) where
    abbrev pub entered : FileSystem
    entered =
        stored node.dinode.i_indirect
          (put_word (s.blocks node.dinode.i_indirect) (k - 10) (146 + index)) s1

    entered-slots :
        (j : ℕ) → j ≤ 2058 → block_of (more node) entered j ≡ update slots k (146 + index) j
    entered-slots =
        by_kind (more node) entered (update slots k (146 + index))
          (λ j h.
            sym (direct_slot node s j h)
            ∙ sym (update-at slots k (146 + index) j (λ e. absurd (omega (arith, e, low, h)))))
          (λ j h h'.
            entry-stored node.dinode.i_indirect (j - 10)
              (put_word (s.blocks node.dinode.i_indirect) (k - 10) (146 + index)) s1 there
            ∙ word_at-put_word (s.blocks node.dinode.i_indirect) (k - 10) (j - 10) (146 + index)
                (omega (arith, t.in_range))
            ∙ ap
                (λ c. if c then 146 + index else word_at (s.blocks node.dinode.i_indirect) (j - 10))
                (shifted_eqb j k h low)
            ∙ ap (λ n. if j == k then 146 + index else n)
                (sym (entry-word node.dinode.i_indirect (j - 10) s there)
                  ∙ sym (entry_slot node s j h h')))
          (sym (indirect_slot node s 2058 (omega arith))
            ∙ sym (update-at slots k (146 + index) 2058 not_last))

    pub entered-Placed : Placed k (146 + index) node s (more node) entered
    entered-Placed = record {
      laid_out = stored-IsLaidOut _ _ s1 t.kept.laid_out;
      ten = ok.ten;
      slots =
          map-IsApart s1 entered _ (λ q o. stored-IsOwned _ q _ s1 o)
            (cong-IsApart s1 (update slots k (146 + index)) _ entered-slots
              (update-IsApart k index s s1 slots t ok.slots));
      at = λ j h. entered-slots j (omega (arith, h));
      owned = stored-IsOwned _ _ _ s1 (Took-new index s s1 t);
      fresh = λ q o. Took-other index q s s1 t o;
      present = λ j h n m.
          let e = entered-slots j h ∙ update-at slots k (146 + index) j n in
          omega (
            arith,
            e,
            m,
            ok.present j h (omega (arith, e, m)),
            t.kept.longer,
            stored_longer node.dinode.i_indirect
                (put_word (s.blocks node.dinode.i_indirect) (k - 10) (146 + index)) s1,
          );
      kept = λ q o n. stored_other node.dinode.i_indirect q _ s1 n ∙ t.kept.blocks q o.low;
      in_use = λ q o. stored-IsOwned _ q _ s1 (Took-IsOwned index q s s1 t o);
      size = refl;
    }

  -- The indirect block is new.
  module _ (i0 : ℕ) (s1 : FileSystem) (t0 : Took i0 s s1)
      (none_there : node.dinode.i_indirect ≡ 0) where
    module _ (i1 : ℕ) (s2 : FileSystem) (t1 : Took i1 s1 s2) where
      abbrev pub extended : Inode
      extended = more (with_indirect (more node) (146 + i0))

      abbrev pub extending : FileSystem
      extending = stored (146 + i0) (put_word zero_block (k - 10) (146 + i1)) s2

      abbrev both : ℕ → ℕ
      both = update (update slots 2058 (146 + i0)) k (146 + i1)

      both-at : (j : ℕ) → j < 2058 → both j ≡ update slots k (146 + i1) j
      both-at j h =
          ap (λ n. if j == k then 146 + i1 else n)
            (update-at slots 2058 (146 + i0) j (λ e. absurd (omega (arith, e, h))))

      extending-slots : (j : ℕ) → j ≤ 2058 → block_of extended extending j ≡ both j
      extending-slots =
          by_kind extended extending both
            (λ j h.
              sym (direct_slot node s j h)
              ∙ sym (update-at slots k (146 + i1) j (λ e. absurd (omega (arith, e, low, h))))
              ∙ sym (both-at j (omega (arith, h))))
            (λ j h h'.
              entry-stored (146 + i0) (j - 10) (put_word zero_block (k - 10) (146 + i1)) s2
                (omega arith)
              ∙ word_at-put_word zero_block (k - 10) (j - 10) (146 + i1)
                  (omega (arith, t1.in_range))
              ∙ ap (λ c. if c then 146 + i1 else word_at zero_block (j - 10))
                  (shifted_eqb j k h low)
              ∙ ap (λ n. if j == k then 146 + i1 else n)
                  (word_at-zero (j - 10)
                    ∙ sym (entry-none node.dinode.i_indirect (j - 10) s none_there)
                    ∙ sym (entry_slot node s j h h'))
              ∙ sym (both-at j h'))
            (sym (updated slots 2058 (146 + i0))
              ∙ sym (update-at (update slots 2058 (146 + i0)) k (146 + i1) 2058 not_last))

      pub extending-Placed : Placed k (146 + i1) node s extended extending
      extending-Placed = record {
        laid_out = stored-IsLaidOut _ _ s2 t1.kept.laid_out;
        ten = ok.ten;
        slots =
            map-IsApart s2 extending _ (λ q o. stored-IsOwned _ q _ s2 o)
              (cong-IsApart s2 both _ extending-slots (
                update-IsApart k i1 s1 s2 (update slots 2058 (146 + i0)) t1
                  (update-IsApart 2058 i0 s s1 slots t0 ok.slots)));
        at = λ j h. extending-slots j (omega (arith, h)) ∙ both-at j h;
        owned = stored-IsOwned _ _ _ s2 (Took-new i1 s1 s2 t1);
        fresh = λ q o. Took-other i1 q s1 s2 t1 (Took-IsOwned i0 q s s1 t0 o);
        present = λ j h n m.
            let e =
              extending-slots j h ∙ update-at (update slots 2058 (146 + i0)) k (146 + i1) j n in
            elim (Bool-cases (j == 2058)) [
              | inl last ↦ omega (
                arith,
                e,
                ap (λ c. if c then 146 + i0 else slots j) last,
                stored-present (146 + i0) (put_word zero_block (k - 10) (146 + i1)) s2,
              )
              | inr other ↦
                  let e' = e ∙ ap (λ c. if c then 146 + i0 else slots j) other in
                  omega (
                    arith,
                    e',
                    ok.present j h (omega (arith, e', m)),
                    t0.kept.longer,
                    t1.kept.longer,
                    stored_longer (146 + i0) (put_word zero_block (k - 10) (146 + i1)) s2,
                  )
            ];
        kept = λ q o n.
            stored_other (146 + i0) q _ s2 (Took-other i0 q s s1 t0 o)
            ∙ t1.kept.blocks q o.low
            ∙ t0.kept.blocks q o.low;
        in_use = λ q o.
            stored-IsOwned _ q _ s2 (Took-IsOwned i1 q s1 s2 t1 (Took-IsOwned i0 q s s1 t0 o));
        size = refl;
      }

    -- There is no space for the entry, and the indirect block is freed.
    module _ (s2 : FileSystem) (f : Freed i0 s1 s2) where
      abbrev pub withdrawn : ℕ → Inode
      withdrawn n = with_indirect (with_count (with_indirect (more node) (146 + i0)) n) 0

      withdrawn-slots : (n j : ℕ) → j ≤ 2058 → block_of (withdrawn n) s2 j ≡ slots j
      withdrawn-slots n =
          by_kind (withdrawn n) s2 slots (λ j h. sym (direct_slot node s j h))
            (λ j h h'.
              sym (entry-none node.dinode.i_indirect (j - 10) s none_there)
              ∙ sym (entry_slot node s j h h'))
            (sym none_there ∙ sym (indirect_slot node s 2058 (omega arith)))

      still-IsOwned : (q : ℕ) → IsOwned s q → IsOwned s2 q
      still-IsOwned q o = record {
        low = o.low;
        high = o.high;
        used =
            f.bits (q - 146)
            ∙ ap (λ c. if c then false else bit_at s1.block_freemap.v (q - 146))
                (==_ne (q - 146) i0 (λ e. Took-other i0 q s s1 t0 o (omega (arith, e, o.low))))
            ∙ (Took-IsOwned i0 q s s1 t0 o).used;
      }

      pub withdrawn-Unplaced : (n : ℕ) → Unplaced node s (withdrawn n) s2
      withdrawn-Unplaced n = record {
        sound = record {
          laid_out = f.laid_out;
          ten = ok.ten;
          slots =
              cong-IsApart s2 slots _ (withdrawn-slots n)
                (map-IsApart s s2 slots still-IsOwned ok.slots);
          present = λ j h m. omega (
            arith,
            withdrawn-slots n j h,
            m,
            ok.present j h (omega (arith, withdrawn-slots n j h, m)),
            f.longer,
            t0.kept.longer,
          );
        };
        same = withdrawn-slots n;
        kept = λ q o. f.blocks q o.low (Took-other i0 q s s1 t0 o) ∙ t0.kept.blocks q o.low;
        in_use = still-IsOwned;
        size = refl;
      }
