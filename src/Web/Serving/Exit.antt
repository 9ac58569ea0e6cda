-- ===== src/Web/Serving/Exit.antt =====
-- The exit of the server of webserver/server_thread.c.
use web_server_and_user_leve.Prelude.{
  updated, ℕ, zero, suc, ◌+◌, ◌<◌, ◌≤◌, ◌≡◌, ◌≢◌, sym, ap, ◌∙◌, ◌⊎◌, inl, inr, ◌==◌, ==_ne, ltb,
  leb, leb-true, leb-false, ltb-true, ltb_lt, ltb_ge, eqb_eq, Bool-cases, Bool, true, false, none,
  some, List, [], ◌∷◌, if◌then◌else◌, update, arith,
}
use web_server_and_user_leve.Web.Connections.{Request, pop_from}
use web_server_and_user_leve.Web.Pool.{
  Worker, at_top, waiting, woken, ended, serving, Main, outside, joining, waits_for_room, Pool,
  worker_section, finish_section, leaves_loop, after_loop, signal_main, join_from, join_threads,
}
use web_server_and_user_leve.Web.Serving.{
  Run, queue_of, start_of, IsTrying, Step, arrive, push_wakes, push_alone, section, finish, exit,
  spurious_worker, spurious_main,
}

-- The server joins its threads, and worker `i` waits for a signal.
pub record Hangs (i : ℕ) (s : Pool) : Type 0 where
  pub joins : s.main ≡ joining
  pub waits : s.workers i ≡ waiting

abbrev spuriously_woken : ℕ → Run → Run
spuriously_woken i u = record u { pool = record u.pool { workers = update u.pool.workers i woken } }

other_worker :
    (f : ℕ → Worker) (i j : ℕ) (w : Worker)
    → f i ≡ waiting
    → f j ≢ waiting
    → update f j w i ≡ waiting
other_worker f i j w e h =
    ap (λ b. if b then w else f i) (==_ne i j (λ is. h (sym (ap f is) ∙ e))) ∙ e

not_joining : (m : Main) → m ≡ outside → m ≡ joining → ⊥
not_joining m e g = cc

not_trying : (r : Request) (m : Main) → m ≡ joining → IsTrying r m → ⊥
not_trying r m e (inl h) = cc
not_trying r m e (inr h) = cc

section-Hangs :
    (first : Bool) (i j : ℕ) (exiting : Bool) (rs : List Request) (s : Pool)
    → Hangs i s
    → s.workers j ≡ start_of first
    → Hangs i (finish_section first j exiting (pop_from rs s.connections) s)
unfolding leaves_loop signal_main pop_from
section-Hangs first i j exiting rs s h at =
    let other : (w : Worker) → update s.workers j w i ≡ waiting =
      λ w. other_worker s.workers i j w h.waits (start_not_waiting first (s.workers j) at) in
    cases first exiting rs other
  where
    start_not_waiting : (first : Bool) (w : Worker) → w ≡ start_of first → w ≢ waiting
    start_not_waiting true w e g = cc
    start_not_waiting false w e g = cc

    cases :
        (first exiting : Bool) (rs : List Request)
        → ((w : Worker) → update s.workers j w i ≡ waiting)
        → Hangs i (finish_section first j exiting (pop_from rs s.connections) s)
    cases true exiting [] other = record { joins = h.joins; waits = other waiting }
    cases false true [] other = record {
      joins = ap signal_main h.joins;
      waits = other (after_loop true none);
    }
    cases false false [] other = record { joins = h.joins; waits = other waiting }
    cases first exiting (r ∷ rs) other = record {
      joins = ap signal_main h.joins;
      waits = other (after_loop exiting (some r));
    }

-- Once the server joins its threads, a worker that waits goes on waiting through every step but a
-- spurious wake-up of that worker: no signal will come.
pub Step-Hangs :
    (n i : ℕ) {u v : Run}
    → Step n u v
    → Hangs i u.pool
    → Hangs i v.pool ⊎ (v ≡ spuriously_woken i u)
unfolding worker_section
Step-Hangs n i (arrive r e) h = absurd (not_joining _ e h.joins)
Step-Hangs n i (push_wakes r j {u} t small e) h = absurd (not_trying r u.pool.main h.joins t)
Step-Hangs n i (push_alone r {u} t busy) h = absurd (not_trying r u.pool.main h.joins t)
Step-Hangs n i (section first j {u} small e) h =
    inl (section-Hangs first i j u.pool.exiting (queue_of u) u.pool h e)
Step-Hangs n i (finish j r {u} small e) h = inl (record {
  joins = h.joins;
  waits = other_worker u.pool.workers i j at_top h.waits (λ g. not_serving r (sym e ∙ g));
})
  where
    not_serving : (r : Request) → serving r ≢ waiting
    not_serving r e = cc
Step-Hangs n i (exit e) h = absurd (not_joining _ e h.joins)
Step-Hangs n i (spurious_worker j {u} small e) h = elim (Bool-cases (i == j)) [
  | inl e' ↦ inr (ap (λ k. spuriously_woken k u) (sym (eqb_eq i j e')))
  | inr e' ↦ inl (record {
    joins = h.joins;
    waits = ap (λ b. if b then woken else u.pool.workers i) e' ∙ h.waits;
  })
]
Step-Hangs n i (spurious_main r {u} e) h = absurd (not_room _ r e h.joins)
  where
    not_room : (m : Main) (r : Request) → m ≡ waits_for_room r → m ≡ joining → ⊥
    not_room m r e g = cc

-- A worker that comes back to the top of its loop finds no request, and waits, also when the server is
-- exiting and the broadcast of `server_exit` is over.
pub worker_section-Hangs :
    (i : ℕ) (s : Pool)
    → s.main ≡ joining
    → s.connections.requests ≡ []
    → Hangs i (worker_section true i s)
unfolding worker_section leaves_loop pop_from
worker_section-Hangs i s joins empty = record {
  joins =
      ap (λ rs. (finish_section true i s.exiting (pop_from rs s.connections) s).main) empty ∙ joins;
  waits =
      ap (λ rs. (finish_section true i s.exiting (pop_from rs s.connections) s).workers i) empty
      ∙ updated s.workers i waiting;
}

-- A worker that takes a request when the server is exiting ends without serving it.
pub worker_section-drops :
    (first : Bool) (i : ℕ) (r : Request) (rs : List Request) (s : Pool)
    → s.exiting ≡ true
    → s.connections.requests ≡ r ∷ rs
    → ((worker_section first i s).workers i ≡ ended)
      × ((worker_section first i s).connections.requests ≡ rs)
unfolding worker_section leaves_loop after_loop pop_from
worker_section-drops first i r rs s exiting e = (
  ap (λ l. (finish_section first i s.exiting (pop_from l s.connections) s).workers i) e
      ∙ ap (λ ex. (finish_section first i ex (pop_from (r ∷ rs) s.connections) s).workers i) exiting
      ∙ updated s.workers i ended,
  ap (λ l. (finish_section first i s.exiting (pop_from l s.connections) s).connections.requests) e,
)

join_from-all : (n i nr_threads : ℕ) → i + n ≤ nr_threads → join_from n i nr_threads ≡ some (i + n)
unfolding join_from
join_from-all zero i nr h = ap some (omega arith)
join_from-all (suc n) i nr h =
    ap (λ b. if b then join_from n (i + 1) nr else none) (ltb-true i nr (omega arith))
    ∙ join_from-all n (i + 1) nr (omega arith)
    ∙ ap some (omega arith)

join_from-behind :
    (n i nr_threads : ℕ) → i ≤ nr_threads → nr_threads < i + n → join_from n i nr_threads ≡ none
unfolding join_from
join_from-behind zero i nr_threads h g = absurd (omega arith)
join_from-behind (suc n) i nr_threads h g = elim (Bool-cases (ltb i nr_threads)) [
  | inl e ↦
      ap (λ b. if b then join_from n (i + 1) nr_threads else none) e
      ∙ join_from-behind n (i + 1) nr_threads (omega (arith, ltb_lt _ _ e)) (omega (arith, g))
  | inr e ↦ ap (λ b. if b then join_from n (i + 1) nr_threads else none) e
]

zero_plus : (n : ℕ) → 0 + n ≡ n
zero_plus n = omega arith

-- The loop of `server_exit` joins `max_requests` threads, whatever the number of threads: it reads behind
-- the array of threads if there are fewer, and leaves the others running if there are more.
pub join_threads-max_requests :
    (max_requests nr_threads : ℕ)
    → join_threads max_requests nr_threads
      ≡ (if leb max_requests nr_threads then some max_requests else none)
join_threads-max_requests max_requests nr_threads =
    elim (Bool-cases (ltb nr_threads max_requests)) [
      | inl fewer ↦
          join_from-behind max_requests 0 nr_threads (omega arith) (omega (arith, ltb_lt _ _ fewer))
          ∙ ap (λ b. if b then some max_requests else none) (sym (leb-false _ _ (ltb_lt _ _ fewer)))
      | inr enough ↦
          join_from-all max_requests 0 nr_threads (omega (arith, ltb_ge _ _ enough))
          ∙ ap some (zero_plus max_requests)
          ∙ ap (λ b. if b then some max_requests else none) (sym (leb-true _ _ (ltb_ge _ _ enough)))
    ]
