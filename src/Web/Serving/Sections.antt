-- ===== src/Web/Serving/Sections.antt =====
-- Every step of the server of webserver/server_thread.c keeps it sound.
use web_server_and_user_leve.Prelude.{
  updated, ℕ, ◌<◌, ◌≡◌, ◌≢◌, sym, ap, ◌∙◌, inl, inr, Bool-cases, ◌==◌, Bool, true, false, List, [],
  ◌∷◌, ◌++◌, if◌then◌else◌, length, update, arith,
}
use mathlib.Core.List.{append-nil, append_assoc}
use web_server_and_user_leve.Web.Connections.{Request, pop_from, pop_from-IsBounded}
use web_server_and_user_leve.Web.Pool.{
  Worker, waiting, ended, serving, Main, outside, joining, pushing, waits_for_room, has_woken,
  finish_section, leaves_loop, after_loop, signal_main,
}
use web_server_and_user_leve.Web.Serving.{Run, queue_of, popped, in_hand, is_awake, IsSound}

pub signal_main-waits : (m : Main) (r : Request) → signal_main m ≢ waits_for_room r
unfolding signal_main
signal_main-waits outside r e = cc
signal_main-waits joining r e = cc
signal_main-waits (pushing q) r e = cc
signal_main-waits (waits_for_room q) r e = cc
signal_main-waits (has_woken q) r e = cc

-- Workers that have not ended still have not, where the one that moves has not.
pub update-staffed :
    (n : ℕ) (f : ℕ → Worker) (i : ℕ) (w : Worker)
    → w ≢ ended
    → ((j : ℕ) → j < n → f j ≢ ended)
    → (j : ℕ) → j < n
    → update f i w j ≢ ended
update-staffed n f i w h g j small = elim (Bool-cases (j == i)) [
  | inl e ↦ λ is. h (sym (ap (λ b. if b then w else f j) e) ∙ is)
  | inr e ↦ λ is. g j small (sym (ap (λ b. if b then w else f j) e) ∙ is)
]

-- A step that changes only what one worker does, and leaves it awake.
pub moved-IsSound :
    (n i : ℕ) (w : Worker) (u : Run)
    → is_awake w ≡ true
    → i < n
    → IsSound n u
    → IsSound n (record u { pool = record u.pool { workers = update u.pool.workers i w } })
moved-IsSound n i w u a small s = record {
  queue = s.queue;
  fifo = s.fifo;
  full = s.full;
  served = s.served;
  staffed = λ e. update-staffed n u.pool.workers i w (awake_not_ended w a) (s.staffed e);
  awake = λ e m. (i, small, ap is_awake (updated u.pool.workers i w) ∙ a);
}
  where
    awake_not_ended : (w : Worker) → is_awake w ≡ true → w ≢ ended
    awake_not_ended w a e = absurd (ground (arith, sym a ∙ ap is_awake e))

pub clash : {A : Type 0} {b : Bool} → b ≡ true → b ≡ false → A
clash e h = absurd (ground (arith, sym e ∙ h))

-- The section of a worker, by what it finds in the queue and in `isServerExiting`.
abbrev pub sectioned : Bool → ℕ → Bool → List Request → Run → Run
sectioned first i exiting rs u =
    let (front, c) = pop_from rs u.pool.connections in
    record u {
      pool = finish_section first i exiting (front, c) u.pool;
      taken = u.taken ++ popped front;
      served = u.served ++ in_hand ((finish_section first i exiting (front, c) u.pool).workers i);
    }

module _ (n i : ℕ) (u : Run) (s : IsSound n u) (small : i < n) where
  -- The queue is empty, and the worker waits.
  nothing-IsSound :
      queue_of u ≡ []
      → IsSound n (record u {
        pool = record u.pool { workers = update u.pool.workers i waiting };
        taken = u.taken ++ [];
        served = u.served ++ in_hand (update u.pool.workers i waiting i);
      })
  nothing-IsSound e = record {
    queue = s.queue;
    fifo = s.fifo ∙ ap (λ l. l ++ queue_of u) (sym (append-nil u.taken));
    full = s.full;
    served = λ h.
        ap (λ w. u.served ++ in_hand w) (updated u.pool.workers i waiting)
        ∙ append-nil u.served
        ∙ s.served h
        ∙ sym (append-nil u.taken);
    staffed = λ h. update-staffed n u.pool.workers i waiting (λ e. cc) (s.staffed h);
    awake = λ h m. absurd (omega (arith, m, ap length e));
  }

  -- The worker leaves its inner loop while the server is exiting.
  exiting-IsSound :
      (rs : List Request)
      → queue_of u ≡ rs
      → u.pool.exiting ≡ true
      → IsSound n (record u {
        pool = record u.pool {
          connections = (pop_from rs u.pool.connections).1;
          workers = update u.pool.workers i ended;
          main = signal_main u.pool.main;
        };
        taken = u.taken ++ popped (pop_from rs u.pool.connections).0;
        served = u.served ++ in_hand (update u.pool.workers i ended i);
      })
  unfolding pop_from
  exiting-IsSound rs e ex = record {
    queue = pop_from-IsBounded u.pool.connections s.queue rs e;
    fifo = s.fifo ∙ first_out rs e;
    full = λ r h. absurd (signal_main-waits u.pool.main r h);
    served = λ h. clash ex h;
    staffed = λ h. clash ex h;
    awake = λ h. clash ex h;
  }
    where
      first_out :
          (rs : List Request)
          → queue_of u ≡ rs
          → u.taken ++ queue_of u
            ≡ (u.taken ++ popped (pop_from rs u.pool.connections).0)
              ++ (pop_from rs u.pool.connections).1.requests
      first_out [] e = ap (λ l. l ++ queue_of u) (sym (append-nil u.taken))
      first_out (r ∷ rs) e = ap (λ l. u.taken ++ l) e ∙ sym (append_assoc u.taken (r ∷ []) rs)

  -- The worker takes the head of the queue, and serves it.
  serving-IsSound :
      (r : Request) (rs : List Request)
      → queue_of u ≡ r ∷ rs
      → IsSound n (record u {
        pool = record u.pool {
          connections = (pop_from (r ∷ rs) u.pool.connections).1;
          workers = update u.pool.workers i (serving r);
          main = signal_main u.pool.main;
        };
        taken = u.taken ++ r ∷ [];
        served = u.served ++ in_hand (update u.pool.workers i (serving r) i);
      })
  unfolding pop_from
  serving-IsSound r rs e = record {
    queue = pop_from-IsBounded u.pool.connections s.queue (r ∷ rs) e;
    fifo = s.fifo ∙ ap (λ l. u.taken ++ l) e ∙ sym (append_assoc u.taken (r ∷ []) rs);
    full = λ q h. absurd (signal_main-waits u.pool.main q h);
    served = λ h.
        ap (λ w. u.served ++ in_hand w) (updated u.pool.workers i (serving r))
        ∙ ap (λ l. l ++ r ∷ []) (s.served h);
    staffed = λ h. update-staffed n u.pool.workers i (serving r) (λ e. cc) (s.staffed h);
    awake = λ h m. (i, small, ap is_awake (updated u.pool.workers i (serving r)));
  }

  pub sectioned-IsSound :
      (first exiting : Bool) (rs : List Request)
      → queue_of u ≡ rs
      → u.pool.exiting ≡ exiting
      → IsSound n (sectioned first i exiting rs u)
  unfolding leaves_loop after_loop pop_from
  sectioned-IsSound true exiting [] e ex = nothing-IsSound e
  sectioned-IsSound false false [] e ex = nothing-IsSound e
  sectioned-IsSound false true [] e ex = exiting-IsSound [] e ex
  sectioned-IsSound first true (r ∷ rs) e ex = exiting-IsSound (r ∷ rs) e ex
  sectioned-IsSound first false (r ∷ rs) e ex = serving-IsSound r rs e
