-- ===== src/Threads/Sync.antt =====
-- Sleeping, waiting for a thread, locks and condition variables of threads/thread.c. A call that may
-- suspend the caller is given the frames that stand above it on the stack.
use web_server_and_user_leve.Prelude.{
  ℕ, zero, suc, Bool, true, false, ◌&&◌, ◌||◌, Option, none, some, List, [], ◌∷◌, ◌++◌,
  if◌then◌else◌, length, get_elem?, set,
}
use web_server_and_user_leve.Prelude.Int.{ℤ, pos, negsuc, eqb_ℤ, ltb_ℤ}
use web_server_and_user_leve.Threads.State.{
  Frame, in_sleep, in_wait, in_acquire, in_cv_sleep, in_cv_acquire, Lock, Package, returned,
  aborted, undefined, out_of_fuel, M, pure, ◌>>=◌, ◌>>◌, get, modify, set_tcb, current,
  interrupts_set, thread_invalid, thread_none,
}
use web_server_and_user_leve.Threads.Store.{
  is_not_assigned, wait_queue_create, wait_queue_destroy, thread_wakeup,
}
use web_server_and_user_leve.Threads.Schedule.{thread_yield}
use web_server_and_user_leve.Threads.Create.{read_tcb}

abbrev pub ask_wait : ℕ → Package → Package
ask_wait w s = set_tcb s.current_thread_id (record (current s) { wait_queue = some w }) s

-- `thread_sleep` behind its reading of the head of the ready queue.
unfoldable pub sleep_to : ℕ → Bool → List Frame → List ℕ → M ℤ
unfolding interrupts_set
sleep_to w enabled frames [] = do interrupts_set enabled; pure thread_none
sleep_to w enabled frames (next ∷ q) = do
  modify (ask_wait w)
  v ← thread_yield (pos next) (in_sleep enabled ∷ frames)
  interrupts_set enabled
  pure v

unfoldable pub thread_sleep : Option ℕ → List Frame → M ℤ
unfolding interrupts_set
thread_sleep none frames = do
  enabled ← interrupts_set false
  interrupts_set enabled
  pure thread_invalid
thread_sleep (some w) frames = do
  enabled ← interrupts_set false
  s ← get
  sleep_to w enabled frames s.ready_queue

unfoldable pub thread_wait : ℤ → List Frame → M ℤ
unfolding interrupts_set
thread_wait tid frames = do
  enabled ← interrupts_set false
  s ← get
  if ltb_ℤ tid (pos 0) || eqb_ℤ tid (pos s.current_thread_id)
      then (do interrupts_set enabled; pure thread_invalid)
      else do
        t ← read_tcb tid
        if is_not_assigned t.t_state then (do interrupts_set enabled; pure thread_invalid) else do
          thread_sleep t.t_wait (in_wait tid enabled ∷ frames)
          interrupts_set enabled
          pure tid

-- `*lock`: undefined where it has been freed.
unfoldable pub read_lock : ℕ → M Lock
read_lock l s = elim (get_elem? s.locks l) [ some (some k) ↦ returned k s | _ ↦ undefined ]

abbrev pub write_lock : ℕ → Option Lock → M (Unit {0})
write_lock l k = modify λ s. record s { locks = set s.locks l k }

-- `assert(p != NULL)`
abbrev pub assert_pointer : Option ℕ → M ℕ
assert_pointer none s = aborted
assert_pointer (some p) s = returned p s

unfoldable pub lock_create : M ℕ
lock_create = do
  w ← wait_queue_create
  s ← get
  modify λ s. record s {
    locks =
        s.locks
        ++ some (record { wait_on_lock = w; is_acquired = false; acquired_by = negsuc 0 }) ∷ [];
  }
  pure (length s.locks)

unfoldable pub lock_destroy : Option ℕ → M (Unit {0})
lock_destroy lock = do
  l ← assert_pointer lock
  k ← read_lock l
  if k.is_acquired then (λ s. aborted) else do wait_queue_destroy k.wait_on_lock; write_lock l none

-- The loop of `lock_acquire`.
unfoldable pub acquire_loop : ℕ → ℕ → Bool → List Frame → M (Unit {0})
acquire_loop zero l enabled frames = λ s. out_of_fuel
acquire_loop (suc fuel) l enabled frames = do
  let again = acquire_loop fuel l enabled frames
  k ← read_lock l
  s ← get
  if k.is_acquired
      then thread_sleep (some k.wait_on_lock) (in_acquire l enabled ∷ frames) >>= (λ _. again)
      else write_lock l
          (some (record k { is_acquired = true; acquired_by = pos s.current_thread_id }))

unfoldable pub lock_acquire : ℕ → Option ℕ → List Frame → M (Unit {0})
unfolding interrupts_set
lock_acquire fuel lock frames = do
  enabled ← interrupts_set false
  l ← assert_pointer lock
  acquire_loop fuel l enabled frames
  interrupts_set enabled
  pure tt

-- `lock->isAcquired && lock->acquiredBy == current_thread_id`
abbrev pub holds : Package → Lock → Bool
holds s k = k.is_acquired && eqb_ℤ k.acquired_by (pos s.current_thread_id)

unfoldable pub lock_release : Option ℕ → M (Unit {0})
unfolding interrupts_set
lock_release lock = do
  enabled ← interrupts_set false
  l ← assert_pointer lock
  k ← read_lock l
  s ← get
  if holds s k
      then (do
        thread_wakeup (some k.wait_on_lock) true
        write_lock l (some (record k { acquired_by = negsuc 0; is_acquired = false })))
      else pure tt
  interrupts_set enabled
  pure tt

-- `cv->wait_on_cv`: undefined where the condition variable has been freed.
unfoldable pub read_cv : ℕ → M ℕ
read_cv c s = elim (get_elem? s.cvs c) [ some (some w) ↦ returned w s | _ ↦ undefined ]

unfoldable pub cv_create : M ℕ
cv_create = do
  w ← wait_queue_create
  s ← get
  modify λ s. record s { cvs = s.cvs ++ some w ∷ [] }
  pure (length s.cvs)

unfoldable pub cv_destroy : Option ℕ → M (Unit {0})
cv_destroy cv = do
  c ← assert_pointer cv
  w ← read_cv c
  wait_queue_destroy w
  modify λ s. record s { cvs = set s.cvs c none }

unfoldable pub cv_wait : ℕ → Option ℕ → Option ℕ → List Frame → M (Unit {0})
unfolding interrupts_set
cv_wait fuel cv lock frames = do
  enabled ← interrupts_set false
  c ← assert_pointer cv
  l ← assert_pointer lock
  k ← read_lock l
  s ← get
  if holds s k
      then (do
        lock_release lock
        w ← read_cv c
        thread_sleep (some w) (in_cv_sleep l enabled ∷ frames)
        lock_acquire fuel lock (in_cv_acquire enabled ∷ frames))
      else pure tt
  interrupts_set enabled
  pure tt

-- cv_signal (`all` false) and cv_broadcast (`all` true) differ in this argument of `thread_wakeup`.
unfoldable pub cv_wake : Bool → Option ℕ → Option ℕ → M (Unit {0})
unfolding interrupts_set
cv_wake all cv lock = do
  enabled ← interrupts_set false
  c ← assert_pointer cv
  l ← assert_pointer lock
  k ← read_lock l
  s ← get
  if holds s k then (do w ← read_cv c; thread_wakeup (some w) all; pure tt) else pure tt
  interrupts_set enabled
  pure tt

unfoldable pub cv_signal : Option ℕ → Option ℕ → M (Unit {0})
unfolding cv_wake
cv_signal = cv_wake false

unfoldable pub cv_broadcast : Option ℕ → Option ℕ → M (Unit {0})
unfolding cv_wake
cv_broadcast = cv_wake true
