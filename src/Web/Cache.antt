-- ===== src/Web/Cache.antt =====
-- The hash table of webserver/server_thread.c, with the eviction of the least recently used files.
use web_server_and_user_leve.Prelude.{
  ℕ, zero, suc, ◌+◌, ◌-◌, ◌*◌, ◌/◌, ◌%◌, ◌^◌, ◌==◌, ltb, leb, Bool, true, false, Option, none, some,
  List, [], ◌∷◌, ◌++◌, if◌then◌else◌, length, get_elem?, set, update, map,
}
use web_server_and_user_leve.Web.State.{
  Name, File, InFlight, Cache, Store, Outcome, returned, waits, undefined, out_of_fuel, M, pure,
  ◌>>=◌, ◌>>◌, get, modify, all_live, same,
}
use web_server_and_user_leve.Web.Lists.{
  push_back, remove_lru_file, find_match, unlink_match, remove_file_to_be_moved_to_back,
  is_in_flight,
}

-- hash_value, in 64 bits: a `char` from 128 on counts as negative.
abbrev pub char_value : ℕ → ℕ
char_value c = if ltb c 128 then c else c + 2 ^ 64 - 256

unfoldable pub hash_from : ℕ → Name → ℕ
hash_from hash [] = hash
hash_from hash (c ∷ cs) = hash_from ((hash * 32 + hash + char_value c) % 2 ^ 64) cs

unfoldable pub hash_value : Name → ℕ
unfolding hash_from
hash_value name = hash_from 5381 name

-- `hash % array_size` on `long`, made positive.
abbrev pub positive_mod : ℕ → ℕ → ℕ
positive_mod hash size =
    if ltb hash (2 ^ 63)
    then hash % size
    else if (2 ^ 64 - hash) % size == 0
    then 0
    else size - (2 ^ 64 - hash) % size

unfoldable pub slot : ℕ → Name → ℕ
slot array_size name = positive_mod (hash_value name) array_size

-- `data->…`: undefined where the file has been freed.
abbrev pub read_file : ℕ → M File
read_file p s = if s.live p then returned (s.files p) s else undefined

abbrev pub require : Bool → M (Unit {0})
require b s = if b then returned tt s else undefined

-- `mapping[hash]`: the slot and its chain.
abbrev pub chain_or_fault : Option (List ℕ) → M (List ℕ)
chain_or_fault none s = undefined
chain_or_fault (some b) s = returned b s

abbrev pub bucket_at : List (List ℕ) → ℕ → M (List ℕ)
bucket_at table i = chain_or_fault (get_elem? table i)

-- The computation of the slot divides by zero where the table is empty.
abbrev pub slot_of : Name → M ℕ
slot_of name s =
    if s.cache.array_size == 0 then undefined else returned (slot s.cache.array_size name) s

-- free(data->file_name); free(data->file_buf); free(data);
abbrev pub free_file : ℕ → Store → Store
free_file p s = record s { live = update s.live p false }

-- The wait at the head of `remove_from_cache`, for a file that is being sent.
abbrev pub sent_or_waits : Option InFlight → M (Unit {0})
sent_or_waits none s = returned tt s
sent_or_waits (some e) s = waits e.signal

abbrev pub await_sent : Name → M (Unit {0})
await_sent name s =
    if all_live s.live (map (λ (e : InFlight). e.filename) s.inflight)
    then sent_or_waits (is_in_flight (same s name) s.inflight) s
    else undefined

-- `remove_from_cache` behind the search of the chain. A negative `curr_size` is not represented.
unfoldable pub drop_from_chain : ℕ → Option ℕ × List ℕ → M Bool
drop_from_chain i (none, b) = pure false
drop_from_chain i (some q, b) = do
  s ← get
  require (leb (s.files q).file_size s.cache.curr_size)
  modify λ s. record s {
    cache = record s.cache {
      mapping = set s.cache.mapping i b;
      curr_size = s.cache.curr_size - (s.files q).file_size;
    };
  }
  modify (free_file q)
  pure true

unfoldable pub remove_from_cache : ℕ → M Bool
remove_from_cache p = do
  file ← read_file p
  i ← slot_of file.file_name
  await_sent file.file_name
  s ← get
  b ← bucket_at s.cache.mapping i
  require (all_live s.live b)
  drop_from_chain i (unlink_match (same s file.file_name) b)

-- cache_evict, with what removeLRUFile has found.
unfoldable pub evict_file : Option ℕ × List ℕ → M Bool
evict_file (none, q) = λ s. undefined
evict_file (some p, q) = do modify λ s. record s { lru = q }; remove_from_cache p

unfoldable pub cache_evict : M Bool
unfolding remove_lru_file
cache_evict = do s ← get; evict_file (remove_lru_file s.lru)

-- One round of the loop that makes room for `size` bytes, `more` being the rest of it.
abbrev pub unless_room : ℕ → M (Unit {0}) → Store → M (Unit {0})
unless_room size more s =
    if leb (s.cache.curr_size + size) s.cache.max_size
    then pure tt
    else if s.cache.curr_size == 0
    then pure tt
    else more

unfoldable pub evict_loop : ℕ → ℕ → M (Unit {0})
evict_loop zero size = get >>= unless_room size (λ s. out_of_fuel)
evict_loop (suc fuel) size = get >>= unless_room size (cache_evict >>= λ _. evict_loop fuel size)

-- A new node at the end of chain `i`, and of the LRU list.
abbrev pub add_node : ℕ → List ℕ → ℕ → ℕ → Store → Store
add_node i b p size s = record s {
  cache = record s.cache {
    mapping = set s.cache.mapping i (b ++ p ∷ []);
    curr_size = s.cache.curr_size + size;
  };
  lru = push_back s.lru p;
}

-- insert_to_cache for a file that is not in its chain `b`: an overflow of `int`, room, or evictions and
-- the recursive call `again`.
abbrev pub place_new : M Bool → ℕ → List ℕ → ℕ → ℕ → Store → M Bool
place_new again i b p size s =
    if leb (2 ^ 31) (s.cache.curr_size + size)
    then (λ s. undefined)
    else if leb (s.cache.curr_size + size) s.cache.max_size
    then modify (add_node i b p size) >> pure true
    else evict_loop (length s.lru) size >> again

-- Behind the search of the chain: `found` is the file of that name.
unfoldable pub insert_absent : M Bool → ℕ → List ℕ → ℕ → Option ℕ → M Bool
unfolding push_back
insert_absent again i b p (some q) = pure false
insert_absent again i b p none = do s ← get; place_new again i b p (s.files p).file_size s

abbrev pub insert_in_chain : M Bool → ℕ → File → M Bool
insert_in_chain again p file = do
  i ← slot_of file.file_name
  s ← get
  b ← bucket_at s.cache.mapping i
  require (all_live s.live b)
  insert_absent again i b p (find_match (same s file.file_name) b)

-- insert_to_cache, on `fuel` for its call of itself.
unfoldable pub insert_to_cache : ℕ → ℕ → M Bool
insert_to_cache zero p = λ s. out_of_fuel
insert_to_cache (suc fuel) p = do
  let again = insert_to_cache fuel p
  file ← read_file p
  s ← get
  if ltb s.cache.max_size file.file_size then pure false else insert_in_chain again p file

-- cache_insert
abbrev pub cache_insert : ℕ → M Bool
cache_insert = insert_to_cache 2

-- cache_lookup, with what removeFileToBeMovedToBack has found.
abbrev pub move_to_back : Option ℕ × List ℕ → Store → Outcome Bool
move_to_back (none, q) s = returned false (record s { lru = q })
move_to_back (some p, q) s = returned true (record s { lru = push_back q p })

unfoldable pub cache_lookup : ℕ → M Bool
unfolding push_back
cache_lookup p = do
  file ← read_file p
  s ← get
  require (all_live s.live s.lru)
  move_to_back (remove_file_to_be_moved_to_back (same s file.file_name) s.lru)

-- init_cache: all chains are empty.
abbrev pub empty_chains : ℕ → List (List ℕ)
empty_chains zero = []
empty_chains (suc n) = [] ∷ empty_chains n

unfoldable pub init_cache : ℕ → Cache
init_cache max_size = record {
  array_size = 2 * (max_size / 2 ^ 12);
  curr_size = 0;
  max_size = max_size;
  mapping = empty_chains (2 * (max_size / 2 ^ 12));
}
