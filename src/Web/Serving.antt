-- ===== src/Web/Serving.antt =====
-- The runs of the server of webserver/server_thread.c: any order of the sections of its threads, with any
-- worker for a signal to wake, and with the spurious wake-ups that POSIX allows.
pub mod Sections
pub mod Order
pub mod Exit
use web_server_and_user_leve.Prelude.{
  ℕ, ◌<◌, ◌≤◌, ◌≡◌, ◌≢◌, ◌⊎◌, Bool, true, false, Option, none, some, List, [], ◌∷◌, ◌++◌,
  if◌then◌else◌, length, update,
}
use web_server_and_user_leve.Web.Connections.{
  Request, Connections, IsBounded, push_connection, pop_connection,
}
use web_server_and_user_leve.Web.Pool.{
  Worker, at_top, waiting, woken, ended, serving, Main, outside, joining, pushing, waits_for_room,
  has_woken, Pool, worker_section, server_request, server_exit,
}

-- The server with its history: the requests that were put into the queue, taken out of it, and those
-- with which a worker has called `do_server_request`.
pub record Run : Type 0 where
  pub pool : Pool
  pub queued : List Request
  pub taken : List Request
  pub served : List Request

abbrev pub queue_of : Run → List Request
queue_of u = u.pool.connections.requests

abbrev pub popped : Option Request → List Request
popped none = []
popped (some r) = r ∷ []

-- A worker that has not waited yet, and one that has been woken.
abbrev pub start_of : Bool → Worker
start_of true = at_top
start_of false = woken

-- The request with which a worker is in `do_server_request`.
abbrev pub in_hand : Worker → List Request
in_hand at_top = []
in_hand waiting = []
in_hand woken = []
in_hand ended = []
in_hand (serving r) = r ∷ []

-- A section takes the request from the queue, and then the worker serves it or not.
abbrev pub after_section : Bool → ℕ → Run → Run
after_section first i u =
    let front = popped (pop_connection u.pool.connections).0 in
    record u {
      pool = worker_section first i u.pool;
      taken = u.taken ++ front;
      served = u.served ++ in_hand ((worker_section first i u.pool).workers i);
    }

abbrev pub after_push : Request → Option ℕ → Run → Run
after_push r target u = record u {
  pool = server_request r target u.pool;
  queued = u.queued ++ (if (push_connection u.pool.connections r).0 then r ∷ [] else []);
}

-- The main thread is about to try to put the request into the queue.
abbrev pub IsTrying : Request → Main → Type 0
IsTrying r m = (m ≡ pushing r) ⊎ (m ≡ has_woken r)

-- The steps of a server with `n` workers. The last two are the spurious wake-ups.
pub data Step (n : ℕ) : Run → Run → Type 0 where
  arrive :
      (r : Request) {u : Run}
      → u.pool.main ≡ outside
      → Step n u (record u { pool = record u.pool { main = pushing r } })
  push_wakes :
      (r : Request) (i : ℕ) {u : Run}
      → IsTrying r u.pool.main
      → i < n
      → u.pool.workers i ≡ waiting
      → Step n u (after_push r (some i) u)
  push_alone :
      (r : Request) {u : Run}
      → IsTrying r u.pool.main
      → ((i : ℕ) → i < n → u.pool.workers i ≢ waiting)
      → Step n u (after_push r none u)
  section :
      (first : Bool) (i : ℕ) {u : Run}
      → i < n
      → u.pool.workers i ≡ start_of first
      → Step n u (after_section first i u)
  finish :
      (i : ℕ) (r : Request) {u : Run}
      → i < n
      → u.pool.workers i ≡ serving r
      → Step n u (record u { pool = record u.pool { workers = update u.pool.workers i at_top } })
  exit : {u : Run} → u.pool.main ≡ outside → Step n u (record u { pool = server_exit u.pool })
  spurious_worker :
      (i : ℕ) {u : Run}
      → i < n
      → u.pool.workers i ≡ waiting
      → Step n u (record u { pool = record u.pool { workers = update u.pool.workers i woken } })
  spurious_main :
      (r : Request) {u : Run}
      → u.pool.main ≡ waits_for_room r
      → Step n u (record u { pool = record u.pool { main = has_woken r } })

abbrev pub run_of : Pool → Run
run_of s = record { pool = s; queued = []; taken = []; served = [] }

-- The states that a server reaches from the pool `s`.
pub data Serves (n : ℕ) (s : Pool) : Run → Type 0 where
  begin : Serves n s (run_of s)
  next : {u v : Run} → Serves n s u → Step n u v → Serves n s v

abbrev pub is_awake : Worker → Bool
is_awake at_top = true
is_awake waiting = false
is_awake woken = true
is_awake ended = false
is_awake (serving r) = true

-- The queue is bounded, first in first out; the main thread waits only while the queue is full; and
-- before the exit no worker has ended, a worker has called `do_server_request` with each request taken
-- out, and while there is a request, a worker is awake.
pub record IsSound (n : ℕ) (u : Run) : Type 0 where
  pub queue : IsBounded u.pool.connections
  pub fifo : u.queued ≡ u.taken ++ queue_of u
  pub full :
      (r : Request)
      → u.pool.main ≡ waits_for_room r
      → length (queue_of u) ≡ u.pool.connections.max_requests
  pub served : u.pool.exiting ≡ false → u.served ≡ u.taken
  pub staffed : u.pool.exiting ≡ false → (i : ℕ) → i < n → u.pool.workers i ≢ ended
  pub awake :
      u.pool.exiting ≡ false
      → 0 < length (queue_of u)
      → (i : ℕ) × (i < n) × (is_awake (u.pool.workers i) ≡ true)
