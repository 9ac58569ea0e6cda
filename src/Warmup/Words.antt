-- ===== src/Warmup/Words.antt =====
-- warmup/wc.c: a hash table from the words of a text to their counts. Its hash_value, and the slot that
-- it computes from the hash, are the same code as in webserver/server_thread.c.
use web_server_and_user_leve.Prelude.{
  ℕ, zero, suc, ◌+◌, ◌*◌, ◌^◌, ◌==◌, leb, Bool, true, false, Option, none, some, List, [], ◌∷◌,
  ◌++◌, if◌then◌else◌, length, get_elem?, set,
}
use web_server_and_user_leve.Web.State.{Name, eqb_name}
use web_server_and_user_leve.Web.Cache.{slot}

-- `struct word_count`. Its count has no limit here.
pub record WordCount : Type 0 where
  pub word : Name
  pub occurs : ℕ

-- `struct wc`, with the chains of its table.
pub record Words : Type 0 where
  pub size : ℕ
  pub mapping : List (List WordCount)

-- The walk of insert_into_wc along a chain: the word is counted, or it gets a new node at the end.
unfoldable pub count_word : Name → List WordCount → List WordCount
count_word word [] = record { word = word; occurs = 1 } ∷ []
count_word word (e ∷ es) =
    let rest = count_word word es in
    if eqb_name e.word word then record e { occurs = e.occurs + 1 } ∷ es else e ∷ rest

abbrev pub write_chain : Words → ℕ → Name → Option (List WordCount) → Option Words
write_chain wc i word none = none
write_chain wc i word (some b) = some (record wc { mapping = set wc.mapping i (count_word word b) })

-- insert_into_wc: `none` is a division by zero, or an access outside of the table.
unfoldable pub insert_into_wc : Words → Name → Option Words
unfolding count_word
insert_into_wc wc word =
    if wc.size == 0
    then none
    else write_chain wc (slot wc.size word) word (get_elem? wc.mapping (slot wc.size word))

-- The delimiters " \t\n\r\v\f", and the words that strtok returns one after the other; `start` is the
-- part of a word that has been read.
abbrev pub is_delimiter : ℕ → Bool
is_delimiter c = if c == 32 then true else if leb 9 c then leb c 13 else false

abbrev pub ended : Name → List Name
ended [] = []
ended (c ∷ start) = (c ∷ start) ∷ []

unfoldable pub words_from : (start text : Name) → List Name
words_from start [] = ended start
words_from start (c ∷ text) =
    let next = words_from [] text in
    let longer = words_from (start ++ c ∷ []) text in
    if is_delimiter c then ended start ++ next else longer

-- The loop of wc_init.
abbrev pub insert_next : Option Words → (Words → Option Words) → Option Words
insert_next none rest = none
insert_next (some wc) rest = rest wc

unfoldable pub insert_all : List Name → Words → Option Words
unfolding insert_into_wc
insert_all [] wc = some wc
insert_all (word ∷ words) wc = insert_next (insert_into_wc wc word) (insert_all words)

abbrev pub empty_words : ℕ → List (List WordCount)
empty_words zero = []
empty_words (suc n) = [] ∷ empty_words n

-- wc_init: the copy of the text needs room for its end, too, and `2*size` is an `int`.
unfoldable pub wc_init : (word_array : Name) (size : ℕ) → Option Words
unfolding words_from insert_all
wc_init word_array size =
    if leb size (length word_array)
    then none
    else if leb (2 ^ 31) (2 * size)
    then none
    else insert_all (words_from [] word_array)
        (record { size = 2 * size; mapping = empty_words (2 * size) })
