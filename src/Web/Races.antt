-- ===== src/Web/Races.antt =====
-- A race of do_server_request in webserver/server_thread.c: between the section that finds a file in the
-- cache and the one that puts it among the files being sent, another thread may evict it.
use web_server_and_user_leve.Prelude.{ℕ, ◌≤◌, ◌≡◌, ap, ◌∙◌, true, count, if◌then◌else◌}
use web_server_and_user_leve.Web.State.{Store, returned, undefined, and_then, M, modify}
use web_server_and_user_leve.Web.Cache.{cache_insert}
use web_server_and_user_leve.Web.Lists.{add_to_queue}
use web_server_and_user_leve.Web.Consistent.{IsConsistent, IsIdle}
use web_server_and_user_leve.Web.Policy.{cache_insert-Implements}
use web_server_and_user_leve.Web.Refine.{Implements, insert_spec}
use web_server_and_user_leve.Web.Handler.{announce}

-- If the insertion of another file, while no cached file is being sent, evicts the cached file `q`, then
-- the thread that is about to announce `q` as being sent reads freed memory.
pub announce-evicted :
    (q signal p : ℕ) (s : Store)
    → IsConsistent s
    → IsIdle s
    → s.live p ≡ true
    → 1 ≤ count q s.lru
    → count q (insert_spec s p).1 ≡ 0
    → and_then (cache_insert p s) (λ success. announce q signal) ≡ undefined
unfolding announce add_to_queue
announce-evicted q signal p s ok idle live m gone =
    let i : Implements s (cache_insert p s) (insert_spec s p) =
      cache_insert-Implements p s ok idle live in
    ap (λ o. and_then o λ success. announce q signal) i.runs
    ∙ ap
        (λ b.
          and_then (if b then returned (i.after.files q) i.after else undefined) λ file. announced)
        (i.kept.freed q m (ap (count q) i.lru ∙ gone))
  where
    announced : M (Unit {0})
    announced = modify λ s. record s { inflight = add_to_queue s.inflight q signal }
