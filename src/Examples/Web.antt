-- ===== src/Examples/Web.antt =====
-- A cache of two pages with one file, and servers with one worker.
use web_server_and_user_leve.Prelude.{
  ℕ, ◌+◌, ◌≤◌, ◌<◌, ◌≡◌, ◌≢◌, ltb-true, refl, sym, ap, ◌∙◌, ◌⊎◌, inl, true, none, [], ◌∷◌, arith,
  if◌then◌else◌, update, count,
}
use web_server_and_user_leve.Web.State.{eqb_name, File, Store, waits, undefined}
use web_server_and_user_leve.Web.Cache.{init_cache, cache_insert, cache_lookup, cache_evict}
use web_server_and_user_leve.Web.Consistent.{own_chain, IsConsistent, IsIdle}
use web_server_and_user_leve.Web.Lists.{is_in_flight, push_back}
use web_server_and_user_leve.Web.Add.{added, added-IsConsistent}
use web_server_and_user_leve.Web.Refine.{Implements, insert_spec}
use web_server_and_user_leve.Web.Policy.{cache_insert-Implements}
use web_server_and_user_leve.Web.Lookup.{lookup_spec, cache_lookup-Implements}
use web_server_and_user_leve.Web.Limits.{
  init_cache-IsConsistent, cache_insert-init_cache, cache_evict-waits,
}
use web_server_and_user_leve.Web.State.{Name, and_then}
use web_server_and_user_leve.Web.Insert.{make_room}
use web_server_and_user_leve.Web.Lists.{find_match}
use web_server_and_user_leve.Web.Request.{OnDisk, readable, get_method, parse_uri, equal_case}
use web_server_and_user_leve.Web.Handler.{do_server_request, announce}
use web_server_and_user_leve.Web.Requests.{Answers, answer_spec, do_server_request-Answers}
use web_server_and_user_leve.Web.Races.{announce-evicted}
use web_server_and_user_leve.Web.Teardown.{Destroyed, destroy_cache-Destroyed}
use web_server_and_user_leve.Web.Connections.{Request, push_connection}
use web_server_and_user_leve.Web.Pool.{
  at_top, waiting, woken, ended, joining, pushing, Pool, server_request, push_section, server_init,
  join_threads,
}
use web_server_and_user_leve.Web.Serving.{
  Run, arrive, push_alone, section, spurious_worker, begin, next, run_of, after_push, after_section,
  IsSound,
}
use web_server_and_user_leve.Web.Serving.Order.{Serves-IsSound}
use web_server_and_user_leve.Web.Serving.Exit.{join_threads-max_requests, Hangs, Step-Hangs}

-- Files 1 and 2, with different names, of 5000 bytes each.
abbrev named : ℕ → File
named i = record { file_name = i ∷ []; file_buf = []; file_size = 5000 }

abbrev blank : Store
blank = record {
  files = named;
  live = λ i. true;
  lru = [];
  inflight = [];
  cache = record { max_size = 0; curr_size = 0; array_size = 0; mapping = [] };
}

abbrev fresh : Store
fresh = record blank { cache = init_cache 8192 }

fresh-IsConsistent : IsConsistent fresh
fresh-IsConsistent = init_cache-IsConsistent 8192 blank (omega arith) (omega arith) refl

fresh-IsIdle : IsIdle fresh
fresh-IsIdle = record { sent_live = refl; unsent = λ p m. absurd (omega arith) }

fresh_room : fresh.cache.curr_size + 5000 ≤ fresh.cache.max_size
unfolding init_cache
fresh_room = omega arith

-- The cache with file 1 in it.
abbrev cached : Store
cached =
    added fresh fresh-IsConsistent 1 (own_chain fresh fresh-IsConsistent (1 ∷ [])).0 refl
      (λ q m. absurd (omega arith)) (own_chain fresh fresh-IsConsistent (1 ∷ [])).1 fresh_room

cached-IsConsistent : IsConsistent cached
cached-IsConsistent =
    added-IsConsistent fresh fresh-IsConsistent 1 (own_chain fresh fresh-IsConsistent (1 ∷ [])).0
      refl (λ q m. absurd (omega arith)) (own_chain fresh fresh-IsConsistent (1 ∷ [])).1 fresh_room

cached-IsIdle : IsIdle cached
unfolding is_in_flight
cached-IsIdle = record { sent_live = refl; unsent = λ p m. refl }

-- The insertion of file 2 evicts file 1.
cache_insert-Implements_example : Implements cached (cache_insert 2 cached) (insert_spec cached 2)
cache_insert-Implements_example =
    cache_insert-Implements 2 cached cached-IsConsistent cached-IsIdle refl

cache_lookup-Implements_example : Implements cached (cache_lookup 1 cached) (lookup_spec cached 1)
cache_lookup-Implements_example = cache_lookup-Implements 1 cached cached-IsConsistent refl

-- File 1 is being sent, under the lock and the condition variable 7.
abbrev sending : Store
sending = record cached {
  inflight = record { filename = 1; signal = 7 } ∷ record { filename = 2; signal = 9 } ∷ [];
}

sending-IsConsistent : IsConsistent sending
sending-IsConsistent = record {
  nonempty = cached-IsConsistent.nonempty;
  sized = cached-IsConsistent.sized;
  table = cached-IsConsistent.table;
  placed = cached-IsConsistent.placed;
  once = cached-IsConsistent.once;
  names = cached-IsConsistent.names;
  alive = cached-IsConsistent.alive;
  counted = cached-IsConsistent.counted;
  fits = cached-IsConsistent.fits;
  small = cached-IsConsistent.small;
}

cache_evict-waits_example : cache_evict sending ≡ waits 7
unfolding is_in_flight eqb_name push_back
cache_evict-waits_example =
    cache_evict-waits 1 [] [] (record { filename = 2; signal = 9 } ∷ [])
      (record { filename = 1; signal = 7 }) sending sending-IsConsistent refl refl refl tt refl

cache_insert-init_cache_example :
    cache_insert 1 (record (record blank { files = λ i. record (named i) { file_size = 100 } }) {
      cache = init_cache 4095;
    })
    ≡ undefined
cache_insert-init_cache_example =
    cache_insert-init_cache 4095 1
      (record blank { files = λ i. record (named i) { file_size = 100 } }) (omega arith) refl
      (omega arith)

-- A server with one worker and a queue of one request.
abbrev server : Pool
server = (server_init 1 1 0).0

abbrev client : Request
client = record { connfd = 5; sv = 0 }

-- A client has come.
abbrev one_client : Run
one_client = record (run_of server) { pool = record server { main = pushing client } }

not_waiting : (i : ℕ) → i < 1 → server.workers i ≢ waiting
not_waiting i h e = not_same (sym (ap (λ b. if b then at_top else ended) (ltb-true i 1 h)) ∙ e)
  where
    not_same : at_top ≢ waiting
    not_same e = cc

-- Its request is put into the queue, and the worker takes it.
Serves-IsSound_example : IsSound 1 (after_section true 0 (after_push client none one_client))
unfolding server_request push_section push_connection
Serves-IsSound_example = Serves-IsSound 1 1 0 (omega arith) (omega arith) (
    next (next (next begin (arrive client refl)) (push_alone client (inl refl) not_waiting))
      (section true 0 (omega arith) refl))

-- The server joins its threads, and the worker waits.
abbrev hanging : Pool
hanging = record server { main = joining; exiting = true; workers = λ i. waiting }

Step-Hangs_example :
    Hangs 0 (record hanging { workers = update hanging.workers 1 woken })
    ⊎ ◌≡◌ {A = Run}
        (record (run_of hanging) {
          pool = record hanging { workers = update hanging.workers 1 woken };
        })
        (record (run_of hanging) {
          pool = record hanging { workers = update hanging.workers 0 woken };
        })
Step-Hangs_example =
    Step-Hangs 2 0 {u = run_of hanging} (spurious_worker 1 (omega arith) refl)
      (record { joins = refl; waits = refl })

join_threads-max_requests_example : join_threads 4 2 ≡ none
join_threads-max_requests_example = join_threads-max_requests 4 2

-- A client asks for the file "a", which has one byte and is not cached, and gets it.
one_byte : Name → OnDisk
one_byte name = readable (65 ∷ [])

not_cached : count 2 cached.lru ≡ 0
unfolding push_back
not_cached = refl

is_get : equal_case get_method get_method ≡ true
unfolding equal_case
is_get = refl

do_server_request-Answers_example :
    Answers
      (do_server_request one_byte true 5 2 7 get_method (97 ∷ []) cached)
      (answer_spec one_byte cached 2 (parse_uri (97 ∷ [])))
do_server_request-Answers_example =
    do_server_request-Answers one_byte 5 2 7 cached cached-IsConsistent not_cached refl get_method
      (97 ∷ []) is_get

-- A thread has found file 1, and another one inserts file 2.
one_cached : 1 ≤ count 1 cached.lru
unfolding push_back
one_cached = omega arith

one_evicted : count 1 (insert_spec cached 2).1 ≡ 0
unfolding push_back insert_spec make_room init_cache find_match eqb_name
one_evicted = refl

announce-evicted_example : and_then (cache_insert 2 cached) (λ success. announce 1 7) ≡ undefined
announce-evicted_example =
    announce-evicted 1 7 2 cached cached-IsConsistent cached-IsIdle refl one_cached one_evicted

destroy_cache-Destroyed_example : Destroyed cached
destroy_cache-Destroyed_example = destroy_cache-Destroyed cached cached-IsConsistent
