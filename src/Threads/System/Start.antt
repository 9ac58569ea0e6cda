-- ===== src/Threads/System/Start.antt =====
-- The state behind `thread_init` of threads/thread.c: thread 0 runs, and the ids 1 to 1023 are unused.
use web_server_and_user_leve.Prelude.{
  ◌≤◌, ◌<◌, ◌≢◌, ◌∙◌, sym, subst, false, none, List, eqb_eq, eqb_ne, ==_ne, ℕ, zero, suc, ◌+◌, ◌≡◌,
  refl, ap, inl, inr, some, [], ◌∷◌, ◌++◌, arith, Bool-cases, if◌then◌else◌, count, count_all,
  count_all-append, length, length-append, leb, Option, ◌-◌, ◌&&◌, ◌==◌,
}
use web_server_and_user_leve.Threads.State.{
  ThreadState, Thread, running, Package, and_then, returned, set_tcb, not_assigned,
}
use mathlib.Core.List.{append_assoc, append-nil}
use web_server_and_user_leve.Threads.Queues.{add_to_head_id}
use web_server_and_user_leve.Threads.Store.{wait_queue_create}
use web_server_and_user_leve.Threads.Create.{
  init_thread, init_threads, thread_init, new_thread, finish_init,
}
use web_server_and_user_leve.Threads.Places.{places}
use web_server_and_user_leve.Threads.System.Calls.{zero_package}
use web_server_and_user_leve.Threads.System.Marks.{IsMarked, AllMarked}

abbrev in_range : ℕ → ℕ → ℕ
in_range n t = if leb 1 t && leb t n then 1 else 0

-- The numbers 1 to `n`, in their order.
unfoldable pub up_to : ℕ → List ℕ
up_to zero = []
up_to (suc n) = up_to n ++ suc n ∷ []

-- `n` wait queues in which nobody sleeps.
unfoldable pub nobody : ℕ → List (Option (List ℕ))
nobody zero = []
nobody (suc n) = some [] ∷ nobody n

length-nobody : (n : ℕ) → length (nobody n) ≡ n
unfolding nobody
length-nobody zero = refl
length-nobody (suc n) = ap suc (length-nobody n)

nobody-suc : (n : ℕ) → nobody n ++ some [] ∷ [] ≡ nobody (suc n)
unfolding nobody
nobody-suc zero = refl
nobody-suc (suc n) = ap (λ q. some [] ∷ q) (nobody-suc n)

-- The control block of the id `i` in the state `st`, with the wait queue `w` for those who wait for its end,
-- and without a flag, a queue to sleep in, or a stack to free.
pub record IsNew (st : ThreadState) (i w : ℕ) (t : Thread) : Type 0 where
  pub state : t.t_state ≡ st
  pub own_id : t.id ≡ i
  pub alive : t.kill_on_next_run ≡ false
  pub fresh : t.setcontext_called ≡ false
  pub no_queue : t.wait_queue ≡ none
  pub no_stack : t.stack_to_free ≡ none
  pub own_queue : t.t_wait ≡ some w

new_thread-IsNew :
    (i j w v : ℕ) (st : ThreadState) → i ≡ j → w ≡ v → IsNew st j v (new_thread i st w)
new_thread-IsNew i j w v st same queue = record {
  state = refl;
  own_id = same;
  alive = refl;
  fresh = refl;
  no_queue = refl;
  no_stack = refl;
  own_queue = ap some queue;
}

-- What the loop of `thread_init` has done to the state `s` after the rounds `n` to 1.
record Filled (n : ℕ) (s s' : Package) : Type 0 where
  readys : s'.ready_queue ≡ s.ready_queue
  runs : s'.current_thread_id ≡ s.current_thread_id
  ids : (t : ℕ) → count t s'.available_ids ≡ count t s.available_ids + in_range n t
  queues : (t : ℕ) → count_all t s'.wait_queues ≡ count_all t s.wait_queues
  marks : AllMarked s'
  listed : s'.available_ids ≡ up_to n ++ s.available_ids
  added : s'.wait_queues ≡ s.wait_queues ++ nobody n
  blank :
      (t : ℕ) → 1 ≤ t → t ≤ n → IsNew not_assigned t (length s.wait_queues + (n - t)) (s'.tcbs t)
  beyond : (t : ℕ) → n < t → s'.tcbs t ≡ s.tcbs t

set_new-AllMarked :
    (i : ℕ) (st : ThreadState) (w : ℕ) (s : Package)
    → AllMarked s
    → (j : ℕ) → IsMarked ((set_tcb i (new_thread i st w) s).tcbs j)
set_new-AllMarked i st w s m j = elim (Bool-cases (j == i)) [ inl e ↦ rw e tt | inr e ↦ rw e (m j) ]

init_threads-Filled :
    (n : ℕ) (s : Package)
    → AllMarked s
    → (s' : Package) × (init_threads n s ≡ returned tt s') × Filled n s s'
unfolding init_threads init_thread wait_queue_create add_to_head_id up_to nobody
init_threads-Filled zero s m = (
  s,
  refl,
  record {
    readys = refl;
    runs = refl;
    ids = λ t. ground arith;
    queues = λ t. refl;
    marks = m;
    listed = refl;
    added = sym (append-nil s.wait_queues);
    blank = λ t low high. absurd (omega (arith, low, high));
    beyond = λ t h. refl;
  },
)
init_threads-Filled (suc n) s m =
    let w : ℕ = length s.wait_queues in
    let s1 : Package = set_tcb (suc n) (new_thread (suc n) not_assigned w) (record s {
      available_ids = add_to_head_id s.available_ids (suc n);
      wait_queues = s.wait_queues ++ some [] ∷ [];
    }) in
    let (s', e, f) = init_threads-Filled n s1 (set_new-AllMarked (suc n) not_assigned w s m) in
    (
      s',
      e,
      record {
        readys = f.readys;
        runs = f.runs;
        ids = λ t. ground (arith, f.ids t);
        queues = λ t. omega (arith, f.queues t, count_all-append t s.wait_queues (some [] ∷ []));
        marks = f.marks;
        listed = f.listed ∙ sym (append_assoc (up_to n) (suc n ∷ []) s.available_ids);
        added = f.added ∙ append_assoc s.wait_queues (some [] ∷ []) (nobody n);
        blank = λ t low high. elim (Bool-cases (t == suc n)) [
          | inl e ↦
              subst (IsNew not_assigned t (w + (suc n - t)))
                (sym (
                  f.beyond t (omega (arith, eqb_eq t (suc n) e))
                  ∙ ap (λ c. if c then new_thread (suc n) not_assigned w else s.tcbs t) e))
                (new_thread-IsNew (suc n) t w (w + (suc n - t)) not_assigned
                  (sym (eqb_eq t (suc n) e)) (omega (arith, eqb_eq t (suc n) e)))
          | inr e ↦
              let h = below t n high (eqb_ne t (suc n) e) in
              subst (λ v. IsNew not_assigned t v (s'.tcbs t))
                (omega (arith, length-append s.wait_queues (some [] ∷ []), h)) (f.blank t low h)
        ];
        beyond = λ t h.
            f.beyond t (omega (arith, h))
            ∙ ap (λ c. if c then new_thread (suc n) not_assigned w else s.tcbs t)
                (==_ne t (suc n) (λ e. omega (arith, e, h)));
      },
    )
  where
    below : (t n : ℕ) → t ≤ suc n → t ≢ suc n → t ≤ n
    below t n h o = ground (arith, h, o)

-- Thread 0 runs, the ids 1 to 1023 are unused, in their order, and no other id is anywhere; no control
-- block has a flag or a stack, and each has a wait queue of its own, in which nobody sleeps.
pub record IsStarted (s : Package) : Type 0 where
  pub runs : s.current_thread_id ≡ 0
  pub readys : s.ready_queue ≡ []
  pub places_once : (t : ℕ) → places t s ≡ (if leb t 1023 then 1 else 0)
  pub marks : AllMarked s
  pub listed : s.available_ids ≡ up_to 1023
  pub queues : s.wait_queues ≡ nobody 1024
  pub first : IsNew running 0 1023 (s.tcbs 0)
  pub blank : (t : ℕ) → 1 ≤ t → t ≤ 1023 → IsNew not_assigned t (1023 - t) (s.tcbs t)

-- `thread_init` returns, with thread 0 running, the ready queue empty, the ids 1 to 1023 unused in their
-- order, and each id in one place. Thread 0 is in the state running and the others are not assigned;
-- none of them is killed, recorded as having called setcontext, or about to sleep; and each of the 1024
-- has its id and a wait queue of its own, in which nobody sleeps.
pub thread_init-IsStarted :
    (s' : Package) × (thread_init zero_package ≡ returned tt s') × IsStarted s'
unfolding thread_init wait_queue_create
thread_init-IsStarted =
    let (s, e, f) = init_threads-Filled 1023 zero_package λ i. tt in
    let w : ℕ = length s.wait_queues in
    let last : Package =
      record (set_tcb 0 (new_thread 0 running w)
        (record s { wait_queues = s.wait_queues ++ some [] ∷ [] })) { current_thread_id = 0 } in
    (
      last,
      ap (λ o. and_then o finish_init) e,
      record {
        runs = refl;
        readys = f.readys;
        places_once = λ t. ground (
          arith,
          f.ids t,
          f.queues t,
          ap (count t) f.readys,
          count_all-append t s.wait_queues (some [] ∷ []),
        );
        marks = set_new-AllMarked 0 running w s f.marks;
        listed = f.listed ∙ append-nil (up_to 1023);
        queues = ap (λ q. q ++ some [] ∷ []) f.added ∙ nobody-suc 1023;
        first = new_thread-IsNew 0 0 w 1023 running refl (ap length f.added ∙ length-nobody 1023);
        blank = λ t low high.
            subst (IsNew not_assigned t (1023 - t))
              (sym (
                ap (λ c. if c then new_thread 0 running w else s.tcbs t)
                  (==_ne t 0 (λ e. omega (arith, e, low)))))
              (subst (λ v. IsNew not_assigned t v (s.tcbs t)) (omega arith) (f.blank t low high));
      },
    )
