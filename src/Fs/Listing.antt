-- ===== src/Fs/Listing.antt =====
-- Looking up a name in a directory of fs/dir.c.
use web_server_and_user_leve.Prelude.{
  subst, ℕ, zero, suc, ◌+◌, ◌^◌, ◌≤◌, ◌<◌, ◌≡◌, ◌⊎◌, inl, inr, refl, sym, ap, ◌∙◌, ◌==◌, ==_self,
  ltb, leb, ltb-true, leb-true, leb-false, true, false, Bool-cases, arith, none, some, List, [],
  ◌∷◌, ◌++◌, if◌then◌else◌,
}
use web_server_and_user_leve.Bitmap.Store.{enoent}
use web_server_and_user_leve.Fs.State.{
  FileSystem, Inode, Outcome, returned, fails, faults, and_then, pure, assert, ◌>>=◌, ◌>>◌,
}
use web_server_and_user_leve.Fs.Super.{Ret, value, error}
use web_server_and_user_leve.Fs.Inode.{i_dir}
use web_server_and_user_leve.Fs.Data.{read_data}
use web_server_and_user_leve.Fs.Table.{inode_of, find_inode, pointed}
use web_server_and_user_leve.Fs.Slots.{IsSound}
use web_server_and_user_leve.Fs.Logical.{byte_at}
use web_server_and_user_leve.Fs.Reading.{span, read_data-span}
use web_server_and_user_leve.Fs.Directory.{
  Dirent, number_of, with_name, read_name, from_second, from_first, with_dirent, unless_end,
  next_dirent, str_eq, name_matches, found_or, look_at, name_from, dir_name_to_inode_nr,
}
use web_server_and_user_leve.Fs.Names.{
  IsCString, Nonzero, str_eq-cases, number, number_of-number, length-span,
}

-- The entry `d` at an offset in the bytes `f` of a directory, before their end.
pub record IsEntry (f : ℕ → ℕ) (end offset : ℕ) (d : Dirent) : Type 0 where
  pub numbers : span f offset 8 ≡ number d.d_name_len (number d.d_inode_nr [])
  pub name : span f (offset + 8) d.d_name_len ≡ d.d_name
  pub string : IsCString d.d_name
  pub some_name : 1 ≤ d.d_name_len
  pub small : d.d_inode_nr < 2 ^ 32
  pub fits : offset + 8 + d.d_name_len ≤ end

-- The entries of a directory from an offset on, up to the end.
abbrev pub Entries : (ℕ → ℕ) → (end offset : ℕ) → List Dirent → Type 0
Entries f end offset [] = offset ≡ end
Entries f end offset (d ∷ ds) =
    IsEntry f end offset d × Entries f end (offset + 8 + d.d_name_len) ds

-- An entry in use, with the name.
pub record Matches (name : List ℕ) (d : Dirent) : Type 0 where
  pub in_use : d.d_inode_nr < 2 ^ 31
  pub same : d.d_name ≡ name ++ 0 ∷ []

abbrev pub NoneMatches : List ℕ → List Dirent → Type 0
NoneMatches name [] = Unit
NoneMatches name (d ∷ ds) = (Matches name d → ⊥) × NoneMatches name ds

-- The first entry in use with the name, or none.
pub data Lookup (name : List ℕ) (ds : List Dirent) (s : FileSystem) (r : Outcome Ret) : Type 0 where
  found :
      (before : List Dirent) (d : Dirent) (behind : List Dirent)
      → ds ≡ before ++ d ∷ behind
      → NoneMatches name before
      → Matches name d
      → r ≡ returned (value d.d_inode_nr) s
      → Lookup name ds s r
  absent : NoneMatches name ds → r ≡ returned (error enoent) s → Lookup name ds s r

leb_bound : (a b : ℕ) → leb a b ≡ true → a ≤ b
leb_bound a b h = ground (arith, h)

name_matches-cases :
    (d : Dirent) (name : List ℕ)
    → IsCString d.d_name
    → Nonzero name
    → ((name_matches d name ≡ some true) × Matches name d)
      ⊎ ((name_matches d name ≡ some false) × (Matches name d → ⊥))
name_matches-cases d name z h = elim (Bool-cases (leb (2 ^ 31) d.d_inode_nr)) [
  | inl negative ↦ inr (
    ap (λ c. if c then some false else str_eq d.d_name name) negative,
    λ m. absurd (omega (arith, m.in_use, leb_bound 2147483648 d.d_inode_nr negative)),
  )
  | inr used ↦ elim (str_eq-cases d.d_name name z h) [
    | inl (e, q) ↦ inl (
      ap (λ c. if c then some false else str_eq d.d_name name) used ∙ e,
      record { in_use = ground (arith, used); same = q },
    )
    | inr (e, q) ↦
        inr (
          ap (λ c. if c then some false else str_eq d.d_name name) used ∙ e,
          λ m. absurd (q m.same),
        )
  ]
]

module _ (dir : ℕ) (node : Inode) (s : FileSystem) (ok : IsSound node s)
    (there : find_inode dir s.hashed ≡ some node) (is_dir : node.dinode.i_type ≡ 2)
    (one_block : node.dinode.i_size ≤ 8192) where
  next_dirent-unless_end : (offset : ℕ) → next_dirent dir offset s ≡ unless_end node offset s
  unfolding next_dirent inode_of
  next_dirent-unless_end offset =
      ap (λ o. and_then (pointed o s) λ n. assert (n.dinode.i_type == i_dir) >> unless_end n offset)
        there
      ∙ ap (λ c. and_then (if c then returned tt s else fails) λ _. unless_end node offset)
          (ap (λ n. n == 2) is_dir ∙ ==_self 2)

  next_dirent-end :
      (offset : ℕ) → offset ≡ node.dinode.i_size → next_dirent dir offset s ≡ returned none s
  next_dirent-end offset e =
      next_dirent-unless_end offset
      ∙ ap (λ c. (if c then pure none else read_data node offset 8 >>= with_dirent node offset) s)
          (leb-true node.dinode.i_size offset (omega (arith, e)))

  read_name-some :
      (offset : ℕ) (d : Dirent)
      → IsEntry (byte_at node s) node.dinode.i_size offset d
      → read_name node d.d_name_len d.d_inode_nr offset s
        ≡ returned (some (d, offset + 8 + d.d_name_len)) s
  read_name-some offset d e =
      let len : ℕ = d.d_name_len in
      ap
        (λ c. and_then (if c then returned tt s else fails) λ _.
          assert (ltb len (2 ^ 31))
          >> (read_data node (offset + 8) len >>= with_name len d.d_inode_nr offset))
        (ltb-true 0 len (omega (arith, e.some_name)))
      ∙ ap
          (λ c.
            and_then (if c then returned tt s else fails)
              λ _. read_data node (offset + 8) len >>= with_name len d.d_inode_nr offset)
          (ltb-true len (2 ^ 31) (omega (arith, e.fits, one_block)))
      ∙ ap (λ o. and_then o (with_name len d.d_inode_nr offset))
          (read_data-span node s (offset + 8) len ok (omega (arith, e.fits))
            (omega (arith, e.fits, e.some_name, one_block)) (omega (arith, e.fits, one_block)))
      ∙ ap
          (λ c. and_then (if c then returned tt s else faults) λ _. pure (
            some (
              record {
                d_name_len = len;
                d_inode_nr = d.d_inode_nr;
                d_name = span (byte_at node s) (offset + 8) len;
              },
              offset + 8 + len,
            )))
          (ap (λ n. n == len) (length-span (byte_at node s) (offset + 8) len) ∙ ==_self len)
      ∙ ap
          (λ xs.
            returned
              (some (
                record { d_name_len = len; d_inode_nr = d.d_inode_nr; d_name = xs },
                offset + 8 + len,
              ))
              s)
          e.name

  next_dirent-some :
      (offset : ℕ) (d : Dirent)
      → IsEntry (byte_at node s) node.dinode.i_size offset d
      → next_dirent dir offset s ≡ returned (some (d, offset + 8 + d.d_name_len)) s
  next_dirent-some offset d e =
      next_dirent-unless_end offset
      ∙ ap (λ c. (if c then pure none else read_data node offset 8 >>= with_dirent node offset) s)
          (leb-false node.dinode.i_size offset (omega (arith, e.fits, e.some_name)))
      ∙ ap (λ o. and_then o (with_dirent node offset))
          (read_data-span node s offset 8 ok (omega (arith, e.fits))
            (omega (arith, e.fits, e.some_name, one_block))
            (omega (arith, e.fits, e.some_name, one_block)))
      ∙ ap (λ xs. from_first node offset (number_of xs) s) e.numbers
      ∙ ap (λ o. from_first node offset o s)
          (number_of-number d.d_name_len (number d.d_inode_nr [])
            (omega (arith, e.fits, one_block)))
      ∙ ap (λ o. from_second node d.d_name_len offset o s)
          (number_of-number d.d_inode_nr [] e.small)
      ∙ read_name-some offset d e

  name_from-Lookup :
      (name : List ℕ) (n offset : ℕ) (ds : List Dirent)
      → Nonzero name
      → Entries (byte_at node s) node.dinode.i_size offset ds
      → node.dinode.i_size < n + offset
      → Lookup name ds s (name_from n name dir offset s)
  unfolding name_from
  name_from-Lookup name zero offset [] h e enough = absurd (omega (arith, e, enough))
  name_from-Lookup name zero offset (d ∷ ds) h (e, es) enough =
      absurd (omega (arith, e.fits, enough))
  name_from-Lookup name (suc n) offset [] h e enough =
      absent tt
        (ap (λ o. and_then o (look_at name (name_from n name dir))) (next_dirent-end offset e))
  name_from-Lookup name (suc n) offset (d ∷ ds) h (e, es) enough =
      let next : ℕ = offset + 8 + d.d_name_len in
      let here =
        ap (λ o. and_then o (look_at name (name_from n name dir))) (next_dirent-some offset d e) in
      elim (name_matches-cases d name e.string h) [
        | inl (m, q) ↦
            found [] d ds refl tt q (here ∙ ap (λ o. found_or d (name_from n name dir next) o s) m)
        | inr (m, q) ↦
            let step = here ∙ ap (λ o. found_or d (name_from n name dir next) o s) m in
            elim (name_from-Lookup name n next ds h es (omega (arith, enough))) [
              | found before d' behind p none_before q' r ↦
                  found (d ∷ before) d' behind (ap (λ xs. d ∷ xs) p) (q, none_before) q' (step ∙ r)
              | absent none_matches r ↦ absent (q, none_matches) (step ∙ r)
            ]
      ]

  -- testfs_dir_name_to_inode_nr in a directory in memory whose bytes are entries, at most one block of
  -- them, returns the inode of the first entry in use with the name, or an error if there is none, and
  -- changes nothing.
  pub dir_name_to_inode_nr-Lookup :
      (name : List ℕ) (ds : List Dirent)
      → Nonzero name
      → Entries (byte_at node s) node.dinode.i_size 0 ds
      → Lookup name ds s (dir_name_to_inode_nr dir name s)
  unfolding dir_name_to_inode_nr inode_of
  dir_name_to_inode_nr-Lookup name ds h es =
      subst (Lookup name ds s)
        (sym (
          ap
            (λ o.
              and_then (pointed o s) λ n.
                assert (n.dinode.i_type == i_dir) >> name_from (n.dinode.i_size + 1) name dir 0)
            there
          ∙ ap
              (λ c.
                and_then (if c then returned tt s else fails)
                  λ _. name_from (node.dinode.i_size + 1) name dir 0)
              (ap (λ n. n == 2) is_dir ∙ ==_self 2)))
        (name_from-Lookup name (node.dinode.i_size + 1) 0 ds h es (omega arith))
