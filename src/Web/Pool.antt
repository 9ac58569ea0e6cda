-- ===== src/Web/Pool.antt =====
-- The main thread and the worker threads of webserver/server_thread.c. A section of code between the
-- acquisition of the mutex `mp` and its release, or a wait that releases it, is one step.
use web_server_and_user_leve.Prelude.{
  ℕ, zero, suc, ◌+◌, ltb, Bool, true, false, Option, none, some, [], if◌then◌else◌, update,
}
use web_server_and_user_leve.Web.Connections.{Request, Connections, push_connection, pop_connection}
use web_server_and_user_leve.Web.State.{Cache}
use web_server_and_user_leve.Web.Cache.{init_cache}

-- Where a worker is in `do_server_t_request`: at the top of its loop; in pthread_cond_wait, and not
-- woken or woken; in `do_server_request`; or at its end.
pub data Worker : Type 0 where
  at_top waiting woken ended : Worker
  serving : Request → Worker

-- Where the main thread is: outside of the functions of the file; before the mutex of
-- `server_request`; in its pthread_cond_wait, and not woken or woken; or in the loop of joins of
-- `server_exit`.
pub data Main : Type 0 where
  outside joining : Main
  pushing waits_for_room has_woken : Request → Main

-- The globals `connection_requests` and `isServerExiting`, and the threads.
pub record Pool : Type 0 where
  pub connections : Connections
  pub exiting : Bool
  pub workers : ℕ → Worker
  pub main : Main

-- `pthread_cond_signal(&cv_main)`: only the main thread waits there.
unfoldable pub signal_main : Main → Main
signal_main outside = outside
signal_main joining = joining
signal_main (pushing r) = pushing r
signal_main (waits_for_room r) = has_woken r
signal_main (has_woken r) = has_woken r

unfoldable pub wake_worker : Worker → Worker
wake_worker at_top = at_top
wake_worker waiting = woken
wake_worker woken = woken
wake_worker ended = ended
wake_worker (serving r) = serving r

-- What follows the inner loop of `do_server_t_request`: the thread ends if the server is exiting, with
-- whatever it has taken from the queue.
unfoldable pub after_loop : Bool → Option Request → Worker
after_loop true front = ended
after_loop false none = waiting
after_loop false (some r) = serving r

-- Whether the worker leaves the inner loop: `first` before any wait, where the loop tests only the
-- descriptor, and otherwise behind a wait, where it tests `isServerExiting` too.
unfoldable pub leaves_loop : (first exiting : Bool) → Option Request → Bool
leaves_loop first exiting (some r) = true
leaves_loop true exiting none = false
leaves_loop false exiting none = exiting

-- The section of a worker: it takes a request and signals the main thread, or it waits.
abbrev pub finish_section : Bool → ℕ → Bool → Option Request × Connections → Pool → Pool
finish_section first i exiting (front, c) s =
    if leaves_loop first exiting front
    then record s {
      connections = c;
      workers = update s.workers i (after_loop exiting front);
      main = signal_main s.main;
    }
    else record s { connections = c; workers = update s.workers i waiting }

unfoldable pub worker_section : Bool → ℕ → Pool → Pool
unfolding leaves_loop after_loop signal_main
worker_section first i s = finish_section first i s.exiting (pop_connection s.connections) s

-- The section of `server_request`: `target` is the worker that the signal wakes, if any waits. The main
-- thread waits if there is no room.
unfoldable pub push_section : Request → Option ℕ → Bool × Connections → Pool → Pool
unfolding wake_worker
push_section r target (false, c) s = record s { connections = c; main = waits_for_room r }
push_section r none (true, c) s = record s { connections = c; main = outside }
push_section r (some i) (true, c) s = record s {
  connections = c;
  main = outside;
  workers = update s.workers i (wake_worker (s.workers i));
}

unfoldable pub server_request : Request → Option ℕ → Pool → Pool
unfolding push_section
server_request r target s = push_section r target (push_connection s.connections r) s

-- `server_exit` up to its joins: a broadcast wakes all workers that wait.
unfoldable pub server_exit : Pool → Pool
unfolding wake_worker
server_exit s = record s {
  exiting = true;
  workers = λ i. wake_worker (s.workers i);
  main = joining;
}

-- The loop of joins of `server_exit`, over `max_requests` entries of an array of `nr_threads`: the
-- number of threads joined, or a read behind the array.
unfoldable pub join_from : ℕ → (i nr_threads : ℕ) → Option ℕ
join_from zero i nr_threads = some i
join_from (suc n) i nr_threads =
    let rest = join_from n (i + 1) nr_threads in if ltb i nr_threads then rest else none

abbrev pub join_threads : (max_requests nr_threads : ℕ) → Option ℕ
join_threads max_requests nr_threads = join_from max_requests 0 nr_threads

-- `server_init`: the pool, and the cache, which is NULL for the size 0.
abbrev pub server_init : (nr_threads max_requests max_cache_size : ℕ) → Pool × Option Cache
server_init nr_threads max_requests max_cache_size = (
  record {
    connections = record { requests = []; queue_length = 0; max_requests = max_requests };
    exiting = false;
    workers = λ i. if ltb i nr_threads then at_top else ended;
    main = outside;
  },
  if ltb 0 max_cache_size then some (init_cache max_cache_size) else none,
)
