-- ===== src/Fs/State.antt =====
-- The state of fs/: the structures on the device and in memory, and what a function does.
use web_server_and_user_leve.Prelude.{ℕ, Bool, List, if◌then◌else◌}
use web_server_and_user_leve.Bitmap.Store.{Bitmap}

-- The bytes of a block, by their offset.
abbrev pub Block : Type 0
Block = ℕ → ℕ

-- `struct dsuper_block`
pub record SuperBlock : Type 0 where
  pub inode_freemap_start : ℕ
  pub block_freemap_start : ℕ
  pub inode_blocks_start : ℕ
  pub data_blocks_start : ℕ
  pub used_inode_count : ℕ
  pub used_block_count : ℕ
  pub max_fs_blocks : ℕ

-- `struct dinode`. A number that is negative is not represented.
pub record Dinode : Type 0 where
  pub i_type : ℕ
  pub i_block_nr : List ℕ
  pub i_indirect : ℕ
  pub i_dindirect : ℕ
  pub block_count : ℕ
  pub i_size : ℕ

-- `struct inode`: the in-memory inode, whose only flag is the dirty one.
pub record Inode : Type 0 where
  pub dinode : Dinode
  pub dirty : Bool
  pub i_nr : ℕ
  pub i_count : ℕ

-- `struct super_block`, with the blocks of its device. The device is a file of `dev_length` blocks, and
-- those behind its end are what a write further on makes of them, zeros. The
-- in-memory inodes are those in `inode_hash_table`.
pub record FileSystem : Type 0 where
  pub sb : SuperBlock
  pub blocks : ℕ → Block
  pub dev_length : ℕ
  pub inode_freemap : Bitmap
  pub block_freemap : Bitmap
  pub hashed : List Inode

-- What a function does: it returns, it calls EXIT, an assert fails, or its behaviour is undefined.
pub data Outcome {ℓ} (A : Type ℓ) : Type ℓ where
  returned : A → FileSystem → Outcome A
  exits : Outcome A
  fails : Outcome A
  faults : Outcome A

abbrev pub M : Type 0 → Type 0
M A = FileSystem → Outcome A

abbrev pub pure : {A : Type 0} → A → M A
pure a s = returned a s

abbrev pub and_then : {A B : Type 0} → Outcome A → (A → M B) → Outcome B
and_then (returned a s) f = f a s
and_then exits f = exits
and_then fails f = fails
and_then faults f = faults

infixl 5 ◌>>=◌ ◌>>◌
abbrev pub ◌>>=◌ : {A B : Type 0} → M A → (A → M B) → M B
◌>>=◌ m f s = and_then (m s) f

abbrev pub ◌>>◌ : {A B : Type 0} → M A → M B → M B
m >> k = m >>= λ _. k

abbrev pub get : M FileSystem
get s = returned s s

abbrev pub modify : (FileSystem → FileSystem) → M (Unit {0})
modify f s = returned tt (f s)

abbrev pub assert : Bool → M (Unit {0})
assert b s = if b then returned tt s else fails

-- A condition without which the behaviour is undefined.
abbrev pub require : Bool → M (Unit {0})
require b s = if b then returned tt s else faults
