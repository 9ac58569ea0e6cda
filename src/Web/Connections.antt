-- ===== src/Web/Connections.antt =====
-- The queue of connections of webserver/server_thread.c.
use web_server_and_user_leve.Prelude.{
  ℕ, ◌+◌, ◌-◌, ◌%◌, ◌^◌, ◌<◌, ◌≤◌, ◌≡◌, ap, ◌==◌, ltb, ltb-true, ltb-false, Bool, true, false,
  Option, none, some, List, [], ◌∷◌, ◌++◌, arith, if◌then◌else◌, length, length-append,
}

-- `struct queue_struct`: the descriptor of a client and the server.
pub record Request : Type 0 where
  pub connfd : ℕ
  pub sv : ℕ

-- `struct queue`, with its nodes from head to tail.
pub record Connections : Type 0 where
  pub requests : List Request
  pub queue_length : ℕ
  pub max_requests : ℕ

-- atMaxCapacity
unfoldable pub at_max_capacity : Connections → Bool
at_max_capacity c = c.queue_length == c.max_requests

-- pushConnection. A node that finds no room is not freed.
abbrev pub pushed : Connections → Request → Connections
pushed c r = record c {
  requests = c.requests ++ r ∷ [];
  queue_length = (c.queue_length + 1) % 2 ^ 32;
}

unfoldable pub push_connection : Connections → Request → Bool × Connections
push_connection c r = if ltb c.queue_length c.max_requests then (true, pushed c r) else (false, c)

-- popConnection, by the nodes of the queue; the result with the descriptor -1 is `none`.
unfoldable pub pop_from : List Request → Connections → Option Request × Connections
pop_from [] c = (none, c)
pop_from (r ∷ rs) c =
    (some r, record c { requests = rs; queue_length = (c.queue_length + 2 ^ 32 - 1) % 2 ^ 32 })

abbrev pub pop_connection : Connections → Option Request × Connections
pop_connection c = pop_from c.requests c

-- The length is that of the list, and within the bound, an `int`.
pub record IsBounded (c : Connections) : Type 0 where
  pub counted : c.queue_length ≡ length c.requests
  pub bounded : length c.requests ≤ c.max_requests
  pub small : c.max_requests < 2 ^ 31

module _ (c : Connections) (b : IsBounded c) where
  pub push_connection-room :
      (r : Request) → length c.requests < c.max_requests → push_connection c r ≡ (true, pushed c r)
  unfolding push_connection
  push_connection-room r room =
      ap (λ t. if t then (true, pushed c r) else (false, c))
        (ltb-true _ _ (omega (arith, b.counted)))

  pub push_connection-full :
      (r : Request) → length c.requests ≡ c.max_requests → push_connection c r ≡ (false, c)
  unfolding push_connection
  push_connection-full r full =
      ap (λ t. if t then (true, pushed c r) else (false, c))
        (ltb-false _ _ (omega (arith, b.counted, full)))

  pub pushed-IsBounded : (r : Request) → length c.requests < c.max_requests → IsBounded (pushed c r)
  pushed-IsBounded r room = record {
    counted = omega (arith, b.counted, b.small, length-append c.requests (r ∷ []));
    bounded = omega (arith, length-append c.requests (r ∷ []));
    small = b.small;
  }

  pub pop_from-IsBounded : (rs : List Request) → c.requests ≡ rs → IsBounded (pop_from rs c).1
  unfolding pop_from
  pop_from-IsBounded [] e = b
  pop_from-IsBounded (r ∷ rs) e = record {
    counted = omega (arith, b.counted, b.bounded, b.small, ap length e);
    bounded = omega (arith, b.bounded, ap length e);
    small = b.small;
  }
