-- ===== src/Web/Handler.antt =====
-- do_server_request of webserver/server_thread.c, which serves one connection. Each function is a section
-- of it between two acquisitions of a mutex; other threads may run between them.
use web_server_and_user_leve.Prelude.{
  ℕ, Bool, Option, none, some, List, [], ◌∷◌, true, false, if◌then◌else◌, map, update,
}
use web_server_and_user_leve.Web.State.{
  Name, InFlight, Store, undefined, M, pure, ◌>>=◌, ◌>>◌, get, modify, all_live, same,
}
use web_server_and_user_leve.Web.Lists.{find_match, add_to_queue, remove_from_queue}
use web_server_and_user_leve.Web.Cache.{read_file, require, free_file, cache_lookup, cache_insert}
use web_server_and_user_leve.Web.Request.{
  Handle, OnDisk, Reply, request_init, request_readfile, request_sendfile, request_destroy,
}

-- malloc and file_data_init, for the number `p`.
abbrev pub file_data_init : ℕ → Store → Store
file_data_init p s = record s {
  files = update s.files p (record { file_name = []; file_buf = []; file_size = 0 });
  live = update s.live p true;
}

-- The cached file takes the place of `data`, which is freed; its name is not.
abbrev pub replace_data : ℕ → Option ℕ → M ℕ
replace_data p none = λ s. undefined
replace_data p (some q) = modify (free_file p) >> pure q

unfoldable pub use_cached : ℕ → M ℕ
unfolding find_match
use_cached p = do
  file ← read_file p
  s ← get
  require (all_live s.live s.lru)
  replace_data p (find_match (same s file.file_name) s.lru)

-- The first section under `cache_access`: the cached file, if there is one.
abbrev pub if_cached : ℕ → Bool → M (Option ℕ)
if_cached p true = use_cached p >>= λ q. pure (some q)
if_cached p false = pure none

unfoldable pub look_up : ℕ → M (Option ℕ)
look_up p = cache_lookup p >>= if_cached p

-- The second one, with the file read: it is inserted, unless another thread has done so.
abbrev pub unless_cached : ℕ → Bool → M ℕ
unless_cached p true = use_cached p
unless_cached p false = cache_insert p >> pure p

unfoldable pub insert_read : ℕ → M ℕ
insert_read p = cache_lookup p >>= unless_cached p

-- The first section under `inflight_access`; `signal` is the number of the new condition variable.
unfoldable pub announce : (q signal : ℕ) → M (Unit {0})
unfolding add_to_queue
announce q signal = do
  file ← read_file q
  modify λ s. record s { inflight = add_to_queue s.inflight q signal }

-- The second one: the condition variable that is signalled.
abbrev pub signalled : Option InFlight × List InFlight → M ℕ
signalled (none, l) = λ s. undefined
signalled (some e, l) = modify (λ s. record s { inflight = l }) >> pure e.signal

unfoldable pub withdraw : ℕ → M ℕ
unfolding remove_from_queue
withdraw q = do
  file ← read_file q
  s ← get
  require (all_live s.live (map (λ (e : InFlight). e.filename) s.inflight))
  signalled (remove_from_queue (same s file.file_name) s.inflight)

-- From the announcement to `done`.
unfoldable pub send : Handle → ℕ → M (List Reply)
send rq signal = do
  announce rq.file signal
  reply ← request_sendfile rq
  cv ← withdraw rq.file
  freed ← request_destroy (some rq)
  pure (reply ∷ [])

abbrev pub file_data_free : ℕ → Store → Store
file_data_free = free_file

-- Behind request_readfile: `out`, which goes on to `done`, or the insertion.
abbrev pub after_read : Handle → ℕ → Option Reply → M (List Reply)
after_read rq signal none = do q ← insert_read rq.file; send (record rq { file = q }) signal
after_read rq signal (some reply) = do
  freed ← request_destroy (some rq)
  modify (file_data_free rq.file)
  again ← request_destroy freed
  pure (reply ∷ [])

abbrev pub after_look_up : (Name → OnDisk) → Handle → ℕ → Option ℕ → M (List Reply)
after_look_up disk rq signal (some q) = send (record rq { file = q }) signal
after_look_up disk rq signal none = request_readfile disk rq >>= after_read rq signal

-- The branch without a cache.
abbrev pub send_or_not : Handle → Option Reply → M Reply
send_or_not rq none = request_sendfile rq
send_or_not rq (some reply) = pure reply

unfoldable pub serve_uncached : (Name → OnDisk) → Handle → M (List Reply)
serve_uncached disk rq = do
  failed ← request_readfile disk rq
  reply ← send_or_not rq failed
  freed ← request_destroy (some rq)
  modify (file_data_free rq.file)
  pure (reply ∷ [])

abbrev pub after_init :
    (Name → OnDisk)
    → (file_cache : Bool) → (p signal : ℕ) → Option Handle × List Reply
    → M (List Reply)
after_init disk file_cache p signal (none, replies) = modify (file_data_free p) >> pure replies
after_init disk file_cache p signal (some rq, replies) =
    if file_cache then look_up rq.file >>= after_look_up disk rq signal else serve_uncached disk rq

-- `file_cache` is `fileCache != NULL`; `p` and `signal` are what malloc returns for the file and for its
-- node among the files being sent; the method and the URI are what the client has sent.
unfoldable pub do_server_request :
    (disk : Name → OnDisk) (file_cache : Bool) (connfd p signal : ℕ) (method uri : Name)
    → M (List Reply)
unfolding look_up send serve_uncached
do_server_request disk file_cache connfd p signal method uri = do
  modify (file_data_init p)
  rq ← request_init connfd p method uri
  after_init disk file_cache p signal rq
