-- ===== src/Web/State.antt =====
-- The data of webserver/server_thread.c: files in memory, the cache with its LRU list, and the list of
-- files that are being sent.
use web_server_and_user_leve.Prelude.{ℕ, ◌==◌, Bool, true, false, ◌&&◌, List, [], ◌∷◌}

-- The text of a C string, without its end.
abbrev pub Name : Type 0
Name = List ℕ

-- `strcmp(a, b) == 0`
unfoldable pub eqb_name : Name → Name → Bool
eqb_name [] [] = true
eqb_name [] (y ∷ ys) = false
eqb_name (x ∷ xs) [] = false
eqb_name (x ∷ xs) (y ∷ ys) = x == y && eqb_name xs ys

-- `struct file_data` of webserver/request.h. The name and the buffer belong to it.
pub record File : Type 0 where
  pub file_name : Name
  pub file_buf : List ℕ
  pub file_size : ℕ

-- `struct sched_queue`: the file whose name it points to, and its own lock and condition variable.
pub record InFlight : Type 0 where
  pub filename : ℕ
  pub signal : ℕ

-- `struct cache`. A bucket is the chain of pointers to files from its first node on.
pub record Cache : Type 0 where
  pub max_size : ℕ
  pub curr_size : ℕ
  pub array_size : ℕ
  pub mapping : List (List ℕ)

-- The memory and the globals. A pointer to a file is a number; `live` tells whether it is allocated.
pub record Store : Type 0 where
  pub files : ℕ → File
  pub live : ℕ → Bool
  pub lru : List ℕ
  pub inflight : List InFlight
  pub cache : Cache

-- What a function does: it returns; it waits for the signal of a file that is being sent; it reads
-- freed memory, divides by zero, or leaves the sizes that are represented; or its fuel ends.
pub data Outcome {ℓ} (A : Type ℓ) : Type ℓ where
  returned : A → Store → Outcome A
  waits : ℕ → Outcome A
  undefined : Outcome A
  out_of_fuel : Outcome A

abbrev pub M : Type 0 → Type 0
M A = Store → Outcome A

abbrev pub pure : {A : Type 0} → A → M A
pure a s = returned a s

abbrev pub and_then : {A B : Type 0} → Outcome A → (A → M B) → Outcome B
and_then (returned a s) f = f a s
and_then (waits p) f = waits p
and_then undefined f = undefined
and_then out_of_fuel f = out_of_fuel

infixl 5 ◌>>=◌ ◌>>◌
abbrev pub ◌>>=◌ : {A B : Type 0} → M A → (A → M B) → M B
◌>>=◌ m f s = and_then (m s) f

abbrev pub ◌>>◌ : {A B : Type 0} → M A → M B → M B
m >> k = m >>= λ _. k

abbrev pub get : M Store
get s = returned s s

abbrev pub modify : (Store → Store) → M (Unit {0})
modify f s = returned tt (f s)

-- A walk that reads the names of files: undefined where one of them is freed.
abbrev pub all_live : (ℕ → Bool) → List ℕ → Bool
all_live live [] = true
all_live live (p ∷ ps) = live p && all_live live ps

-- `strcmp(p->file_name, name) == 0`
abbrev pub same : Store → Name → ℕ → Bool
same s name p = eqb_name (s.files p).file_name name
