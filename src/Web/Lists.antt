-- ===== src/Web/Lists.antt =====
-- The lists of webserver/server_thread.c whose members are found by a file name: the LRU list and the
-- chains of the hash table hold pointers to files, and `same` tests the name of one.
use web_server_and_user_leve.Prelude.{
  ℕ, Bool, Option, none, some, List, [], ◌∷◌, ◌++◌, if◌then◌else◌, tail_id, drop_tail,
}
use web_server_and_user_leve.Web.State.{InFlight}

-- pushBack of the LRU list.
unfoldable pub push_back : List ℕ → ℕ → List ℕ
push_back q p = q ++ p ∷ []

-- removeLRUFile: the result NULL is `none`.
unfoldable pub remove_lru_file : List ℕ → Option ℕ × List ℕ
remove_lru_file [] = (none, [])
remove_lru_file (x ∷ xs) = (some x, xs)

-- getCachedFile, and the walk of `insert_to_cache` along a chain.
unfoldable pub find_match : (ℕ → Bool) → List ℕ → Option ℕ
find_match same [] = none
find_match same (x ∷ xs) = if same x then some x else find_match same xs

abbrev keep_node : ℕ → Option ℕ × List ℕ → Option ℕ × List ℕ
keep_node x (r, q) = (r, x ∷ q)

-- The walk that unlinks the first node with the name, of `removeFileToBeMovedToBack` in the middle, and
-- of `remove_from_cache`.
unfoldable pub unlink_match : (ℕ → Bool) → List ℕ → Option ℕ × List ℕ
unlink_match same [] = (none, [])
unlink_match same (x ∷ xs) =
    let rest = unlink_match same xs in if same x then (some x, xs) else keep_node x rest

unfoldable pub remove_file_to_be_moved_to_back : (ℕ → Bool) → List ℕ → Option ℕ × List ℕ
unfolding tail_id drop_tail unlink_match
remove_file_to_be_moved_to_back same [] = (none, [])
remove_file_to_be_moved_to_back same (x ∷ xs) =
    if same x
    then (some x, xs)
    else if same (tail_id x xs)
    then (some (tail_id x xs), drop_tail x xs)
    else unlink_match same (x ∷ xs)

-- add_to_queue; the new lock and condition variable have the number `signal`.
unfoldable pub add_to_queue : List InFlight → (filename signal : ℕ) → List InFlight
add_to_queue q filename signal = q ++ record { filename = filename; signal = signal } ∷ []

-- isInFlight
unfoldable pub is_in_flight : (ℕ → Bool) → List InFlight → Option InFlight
is_in_flight same [] = none
is_in_flight same (e ∷ q) = if same e.filename then some e else is_in_flight same q

-- remove_from_queue: the first node with the name, unlinked.
abbrev pub keep_entry : InFlight → Option InFlight × List InFlight → Option InFlight × List InFlight
keep_entry x (r, q) = (r, x ∷ q)

unfoldable pub remove_from_queue : (ℕ → Bool) → List InFlight → Option InFlight × List InFlight
remove_from_queue same [] = (none, [])
remove_from_queue same (e ∷ q) =
    let rest = remove_from_queue same q in
    if same e.filename then (some e, q) else keep_entry e rest
