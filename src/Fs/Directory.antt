-- ===== src/Fs/Directory.antt =====
-- fs/dir.c: reading the entries of a directory. A directory is behind a pointer, the number of its inode.
use web_server_and_user_leve.Prelude.{
  ℕ, zero, suc, ◌+◌, ◌*◌, ◌^◌, ◌==◌, ltb, leb, Bool, true, false, Option, none, some, List, [], ◌∷◌,
  length, not, if◌then◌else◌,
}
use web_server_and_user_leve.Bitmap.Store.{enoent}
use web_server_and_user_leve.Fs.State.{Inode, M, faults, pure, ◌>>=◌, ◌>>◌, assert, require}
use web_server_and_user_leve.Fs.Super.{Ret, value, error}
use web_server_and_user_leve.Fs.Inode.{i_dir}
use web_server_and_user_leve.Fs.Data.{Read, got, refused, read_data}
use web_server_and_user_leve.Fs.Table.{inode_of}

-- `struct dirent`, with the bytes of the name behind it. The numbers are 32 bits, the negative ones from
-- 2^31 on.
pub record Dirent : Type 0 where
  pub d_name_len : ℕ
  pub d_inode_nr : ℕ
  pub d_name : List ℕ

abbrev pub is_negative : ℕ → Bool
is_negative n = leb (2 ^ 31) n

-- What testfs_next_dirent gives: an entry and the next offset, or NULL.
abbrev pub Next : Type 0
Next = Option (Dirent × ℕ)

-- The structure in the bytes that have been read. A part of it that was not read is uninitialised.
abbrev pub number_of : List ℕ → Option (ℕ × List ℕ)
number_of [] = none
number_of (a ∷ []) = none
number_of (a ∷ b ∷ []) = none
number_of (a ∷ b ∷ c ∷ []) = none
number_of (a ∷ b ∷ c ∷ d ∷ rest) = some (a + 256 * b + 65536 * c + 16777216 * d, rest)

abbrev pub with_name : (len nr offset : ℕ) → Read → M Next
with_name len nr offset (refused e) = pure none
with_name len nr offset (got bytes) =
    require (length bytes == len)
    >> pure (some (record { d_name_len = len; d_inode_nr = nr; d_name = bytes }, offset + 8 + len))

abbrev pub read_name : Inode → (len nr offset : ℕ) → M Next
read_name node len nr offset = do
  assert (ltb 0 len)
  assert (ltb len (2 ^ 31))
  read ← read_data node (offset + 8) len
  with_name len nr offset read

abbrev pub from_second : Inode → (len offset : ℕ) → Option (ℕ × List ℕ) → M Next
from_second node len offset none = λ s. faults
from_second node len offset (some (nr, rest)) = read_name node len nr offset

abbrev pub from_first : Inode → (offset : ℕ) → Option (ℕ × List ℕ) → M Next
from_first node offset none = λ s. faults
from_first node offset (some (len, rest)) = from_second node len offset (number_of rest)

abbrev pub with_dirent : Inode → (offset : ℕ) → Read → M Next
with_dirent node offset (refused e) = pure none
with_dirent node offset (got bytes) = from_first node offset (number_of bytes)

abbrev pub unless_end : Inode → (offset : ℕ) → M Next
unless_end node offset =
    if leb node.dinode.i_size offset
    then pure none
    else read_data node offset 8 >>= with_dirent node offset

unfoldable pub next_dirent : (dir offset : ℕ) → M Next
unfolding inode_of read_data
next_dirent dir offset = do
  node ← inode_of dir
  assert (node.dinode.i_type == i_dir)
  unless_end node offset

-- strcmp of the bytes of an entry with a name, which is its characters before the zero: whether they are
-- equal. `none` is a read behind the bytes.
unfoldable pub str_eq : List ℕ → List ℕ → Option Bool
str_eq [] name = none
str_eq (x ∷ xs) [] = some (x == 0)
str_eq (x ∷ xs) (c ∷ name) = let rest = str_eq xs name in if x == c then rest else some false

-- The loop of testfs_dir_name_to_inode_nr from an offset on, for at most `n` rounds. The offset grows by
-- nine at least in each round, and the loop ends at the size of the directory.
abbrev pub name_matches : Dirent → List ℕ → Option Bool
name_matches d name = if is_negative d.d_inode_nr then some false else str_eq d.d_name name

abbrev pub found_or : Dirent → M Ret → Option Bool → M Ret
found_or d rest none = λ s. faults
found_or d rest (some true) = pure (value d.d_inode_nr)
found_or d rest (some false) = rest

abbrev pub look_at : List ℕ → (ℕ → M Ret) → Next → M Ret
look_at name rest none = pure (error enoent)
look_at name rest (some (d, offset)) = found_or d (rest offset) (name_matches d name)

unfoldable pub name_from : (n : ℕ) → List ℕ → (dir offset : ℕ) → M Ret
unfolding next_dirent str_eq
name_from zero name dir offset = λ s. faults
name_from (suc n) name dir offset = next_dirent dir offset >>= look_at name (name_from n name dir)

unfoldable pub dir_name_to_inode_nr : ℕ → List ℕ → M Ret
unfolding inode_of name_from
dir_name_to_inode_nr dir name = do
  node ← inode_of dir
  assert (node.dinode.i_type == i_dir)
  name_from (node.dinode.i_size + 1) name dir 0

-- testfs_find_dirent, likewise.
abbrev pub compare_nr : Dirent → ℕ → M (Option Dirent) → M (Option Dirent)
compare_nr d inode_nr rest = if d.d_inode_nr == inode_nr then pure (some d) else rest

abbrev pub find_at : ℕ → (ℕ → M (Option Dirent)) → Next → M (Option Dirent)
find_at inode_nr rest none = pure none
find_at inode_nr rest (some (d, offset)) = compare_nr d inode_nr (rest offset)

unfoldable pub find_from : (n inode_nr dir offset : ℕ) → M (Option Dirent)
unfolding next_dirent
find_from zero inode_nr dir offset = λ s. faults
find_from (suc n) inode_nr dir offset =
    next_dirent dir offset >>= find_at inode_nr (find_from n inode_nr dir)

unfoldable pub find_dirent : (dir inode_nr : ℕ) → M (Option Dirent)
unfolding inode_of find_from
find_dirent dir inode_nr = do
  node ← inode_of dir
  assert (node.dinode.i_type == i_dir)
  assert (not (is_negative inode_nr))
  find_from (node.dinode.i_size + 1) inode_nr dir 0
