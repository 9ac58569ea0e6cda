-- ===== src/Threads/System/Closed.antt =====
-- Properties of the package state that every call of threads/thread.c keeps, from what the scheduler's
-- own operations do to them.
use web_server_and_user_leve.Prelude.{
  ℕ, ◌≡◌, zero, suc, ◌||◌, Bool, true, false, Option, none, some, List, [], ◌∷◌, get_elem?, leb,
  inl, inr, refl, Bool-cases, if◌then◌else◌,
}
use web_server_and_user_leve.Prelude.Int.{ℤ, pos, eqb_ℤ, ltb_ℤ, negsuc}
use web_server_and_user_leve.Threads.State.{
  Frame, in_sleep, in_wait, in_acquire, in_cv_sleep, in_cv_acquire, in_handler, Point, cleared,
  in_create, at_stub, in_yield, Lock, Package, Outcome, current, thread_any, and_then, M,
}
use web_server_and_user_leve.Threads.Store.{
  is_not_assigned, wait_queue_create, wait_queue_destroy, thread_wakeup,
}
use web_server_and_user_leve.Threads.Schedule.{after_getcontext, thread_yield, thread_exit}
use web_server_and_user_leve.Threads.Create.{thread_kill, thread_create, read_tcb}
use web_server_and_user_leve.Threads.Sync.{
  ask_wait, sleep_to, thread_sleep, thread_wait, read_lock, assert_pointer, lock_create,
  lock_destroy, acquire_loop, lock_acquire, holds, lock_release, read_cv, cv_create, cv_destroy,
  cv_wait, cv_wake,
}
use web_server_and_user_leve.Threads.Resume.{unwind, thread_stub, resume_at, resume, timer_signal}
use web_server_and_user_leve.Threads.Ensures.{Ensures, Ensures-if, Ensures-and_then}
use web_server_and_user_leve.Threads.System.Calls.{
  Call, create, yield, kill, sleep, wakeup, wait, exit, queue_create, make_lock, make_cv, signal,
  queue_destroy, destroy_lock, acquire, release, destroy_cv, wait_on_cv, wake_cv, do_call, void,
}

-- `P` holds while a thread is in its own code or in a call, `Q` when setcontext has just left one.
pub record Closed (P Q : Package → Type 0) : Type 0 where
  pub masks : (b : Bool) (s : Package) → P s → P (record s { interrupts = b })
  pub locks : (l : List (Option Lock)) (s : Package) → P s → P (record s { locks = l })
  pub cvs : (l : List (Option ℕ)) (s : Package) → P s → P (record s { cvs = l })
  pub asks : (w : ℕ) (s : Package) → P s → P (ask_wait w s)
  pub makes_queue : (s : Package) → P s → Ensures P Q (wait_queue_create s)
  pub destroys_queue : (w : ℕ) (s : Package) → P s → Ensures P Q (wait_queue_destroy w s)
  pub wakes :
      (queue : Option ℕ) (all : Bool) (s : Package) → P s → Ensures P Q (thread_wakeup queue all s)
  pub yields :
      (want : ℤ) (frames : List Frame) (s : Package)
      → P s
      → Ensures P Q (thread_yield want frames s)
  pub exits : (s : Package) → P s → Ensures P Q (thread_exit s)
  pub kills : (tid : ℤ) (s : Package) → P s → Ensures P Q (thread_kill tid s)
  pub creates :
      (stack : Option ℕ) (fn parg : ℕ) (s : Package)
      → P s
      → Ensures P Q (thread_create stack fn parg s)
  pub starts : (fn parg : ℕ) (s : Package) → Q s → Ensures P Q (thread_stub fn parg s)
  pub continues :
      (next old : ℕ) (enabled : Bool) (frames : List Frame) (s : Package)
      → Q s
      → (current s).mycontext.point ≡ in_yield next old enabled frames
      → Ensures P Q (after_getcontext next old enabled s)

module _ {P Q : Package → Type 0} (c : Closed P Q) where
  open c use {masks, locks, cvs, asks, makes_queue, destroys_queue, wakes, yields}

  abbrev Keeps : {A : Type 0} → M A → Type 0
  Keeps m = (s : Package) → P s → Ensures P Q (m s)

  -- The rule for a sequence, from a call that keeps `P`.
  abbrev chain :
      {A B : Type 0} (r : Outcome A) (f : A → M B)
      → Ensures P Q r
      → ((a : A) → Keeps (f a))
      → Ensures P Q (and_then r f)
  chain r f = Ensures-and_then P Q P r f

  sleep_to-Keeps :
      (w : ℕ) (enabled : Bool) (frames : List Frame) (q : List ℕ)
      → Keeps (sleep_to w enabled frames q)
  unfolding sleep_to
  sleep_to-Keeps w enabled frames [] s p = masks enabled s p
  sleep_to-Keeps w enabled frames (next ∷ q) s p =
      chain _ _ (yields (pos next) (in_sleep enabled ∷ frames) (ask_wait w s) (asks w s p))
        λ v. masks enabled

  pub thread_sleep-Keeps :
      (queue : Option ℕ) (frames : List Frame) → Keeps (thread_sleep queue frames)
  unfolding thread_sleep
  thread_sleep-Keeps none frames s p = masks s.interrupts _ (masks false s p)
  thread_sleep-Keeps (some w) frames s p =
      sleep_to-Keeps w s.interrupts frames s.ready_queue _ (masks false s p)

  read_tcb-Keeps : (tid : ℤ) → Keeps (read_tcb tid)
  unfolding read_tcb
  read_tcb-Keeps (pos n) s p = elim (Bool-cases (leb 1024 n)) [ inl e ↦ rw e tt | inr e ↦ rw e p ]
  read_tcb-Keeps (negsuc n) s p = tt

  read_lock-Keeps : (l : ℕ) → Keeps (read_lock l)
  unfolding read_lock
  read_lock-Keeps l s p = go (get_elem? s.locks l) refl
    where
      go : (o : Option (Option Lock)) → get_elem? s.locks l ≡ o → Ensures P Q (read_lock l s)
      go none e = rw (e, read_lock) tt
      go (some none) e = rw (e, read_lock) tt
      go (some (some k)) e = rw (e, read_lock) p

  read_cv-Keeps : (v : ℕ) → Keeps (read_cv v)
  unfolding read_cv
  read_cv-Keeps v s p = go (get_elem? s.cvs v) refl
    where
      go : (o : Option (Option ℕ)) → get_elem? s.cvs v ≡ o → Ensures P Q (read_cv v s)
      go none e = rw (e, read_cv) tt
      go (some none) e = rw (e, read_cv) tt
      go (some (some w)) e = rw (e, read_cv) p

  assert_pointer-Keeps : (q : Option ℕ) → Keeps (assert_pointer q)
  assert_pointer-Keeps none s p = tt
  assert_pointer-Keeps (some q) s p = p

  either : {A : Type 0} (b : Bool) (m n : M A) → Keeps m → Keeps n → Keeps (if b then m else n)
  either b m n h g s p = Ensures-if P Q b m n s (h s p) (g s p)

  pub thread_wait-Keeps : (tid : ℤ) (frames : List Frame) → Keeps (thread_wait tid frames)
  unfolding thread_wait
  thread_wait-Keeps tid frames s p =
      either (ltb_ℤ tid (pos 0) || eqb_ℤ tid (pos s.current_thread_id)) _ _ (masks s.interrupts)
        (λ s1 p1. chain _ _ (read_tcb-Keeps tid s1 p1) λ t.
          either (is_not_assigned t.t_state) _ _ (masks s.interrupts) λ s2 p2.
            chain _ _ (thread_sleep-Keeps t.t_wait (in_wait tid s.interrupts ∷ frames) s2 p2)
              λ v. masks s.interrupts)
        _ (masks false s p)

  acquire_loop-Keeps :
      (fuel l : ℕ) (enabled : Bool) (frames : List Frame)
      → Keeps (acquire_loop fuel l enabled frames)
  unfolding acquire_loop
  acquire_loop-Keeps zero l enabled frames s p = tt
  acquire_loop-Keeps (suc fuel) l enabled frames s p = chain _ _ (read_lock-Keeps l s p) λ k s1 p1.
      either k.is_acquired _ _
        (λ s2 p2.
          chain _ _ (thread_sleep-Keeps (some k.wait_on_lock) (in_acquire l enabled ∷ frames) s2 p2)
            λ v. acquire_loop-Keeps fuel l enabled frames)
        (λ s2. locks _ s2) s1 p1

  pub lock_acquire-Keeps :
      (fuel : ℕ) (lock : Option ℕ) (frames : List Frame) → Keeps (lock_acquire fuel lock frames)
  unfolding lock_acquire
  lock_acquire-Keeps fuel lock frames s p =
      chain _ _ (assert_pointer-Keeps lock _ (masks false s p)) λ l s1 p1.
        chain _ _ (acquire_loop-Keeps fuel l s.interrupts frames s1 p1) λ _. masks s.interrupts

  pub lock_release-Keeps : (lock : Option ℕ) → Keeps (lock_release lock)
  unfolding lock_release
  lock_release-Keeps lock s p = chain _ _ (assert_pointer-Keeps lock _ (masks false s p)) λ l s1 p1.
      chain _ _ (read_lock-Keeps l s1 p1) λ k s2 p2.
        chain _ _
          (either (holds s2 k) _ _
            (λ s3 p3. chain _ _ (wakes (some k.wait_on_lock) true s3 p3) λ _ s4. locks _ s4)
            (λ s3 p3. p3) s2 p2)
          λ _. masks s.interrupts

  pub cv_wait-Keeps :
      (fuel : ℕ) (cv lock : Option ℕ) (frames : List Frame) → Keeps (cv_wait fuel cv lock frames)
  unfolding cv_wait
  cv_wait-Keeps fuel cv lock frames s p =
      chain _ _ (assert_pointer-Keeps cv _ (masks false s p)) λ c s0 p0.
        chain _ _ (assert_pointer-Keeps lock s0 p0) λ l s1 p1.
          chain _ _ (read_lock-Keeps l s1 p1) λ k s2 p2.
            chain _ _
              (either (holds s2 k) _ _
                (λ s3 p3. chain _ _ (lock_release-Keeps lock s3 p3) λ _ s4 p4.
                  chain _ _ (read_cv-Keeps c s4 p4) λ w s5 p5.
                    chain _ _
                      (thread_sleep-Keeps (some w) (in_cv_sleep l s.interrupts ∷ frames) s5 p5)
                      λ _. lock_acquire-Keeps fuel lock (in_cv_acquire s.interrupts ∷ frames))
                (λ s3 p3. p3) s2 p2)
              λ _. masks s.interrupts

  pub cv_wake-Keeps : (all : Bool) (cv lock : Option ℕ) → Keeps (cv_wake all cv lock)
  unfolding cv_wake
  cv_wake-Keeps all cv lock s p = chain _ _ (assert_pointer-Keeps cv _ (masks false s p)) λ c s0 p0.
      chain _ _ (assert_pointer-Keeps lock s0 p0) λ l s1 p1.
        chain _ _ (read_lock-Keeps l s1 p1) λ k s2 p2.
          chain _ _
            (either (holds s2 k) _ _
              (λ s3 p3.
                chain _ _ (read_cv-Keeps c s3 p3)
                  λ w s4 p4. chain _ _ (wakes (some w) all s4 p4) λ _ s5 p5. p5)
              (λ s3 p3. p3) s2 p2)
            λ _. masks s.interrupts

  lock_create-Keeps : Keeps lock_create
  unfolding lock_create
  lock_create-Keeps s p = chain _ _ (makes_queue s p) λ w s1. locks _ s1

  lock_destroy-Keeps : (lock : Option ℕ) → Keeps (lock_destroy lock)
  unfolding lock_destroy
  lock_destroy-Keeps lock s p = chain _ _ (assert_pointer-Keeps lock s p) λ l s1 p1.
      chain _ _ (read_lock-Keeps l s1 p1) λ k.
        either k.is_acquired _ _ (λ s2 p2. tt)
          λ s2 p2. chain _ _ (destroys_queue k.wait_on_lock s2 p2) λ _ s3. locks _ s3

  cv_create-Keeps : Keeps cv_create
  unfolding cv_create
  cv_create-Keeps s p = chain _ _ (makes_queue s p) λ w s1. cvs _ s1

  cv_destroy-Keeps : (cv : Option ℕ) → Keeps (cv_destroy cv)
  unfolding cv_destroy
  cv_destroy-Keeps cv s p = chain _ _ (assert_pointer-Keeps cv s p) λ c s1 p1.
      chain _ _ (read_cv-Keeps c s1 p1)
        λ w s2 p2. chain _ _ (destroys_queue w s2 p2) λ _ s3. cvs _ s3

  timer_signal-Keeps : Keeps timer_signal
  unfolding timer_signal
  timer_signal-Keeps s p =
      chain _ _ (yields thread_any (in_handler ∷ []) _ (masks false s p)) λ v. masks true

  void-Keeps : {A : Type 0} (m : M A) → Keeps m → Keeps (void m)
  void-Keeps m h s p = chain (m s) _ (h s p) λ v s1 p1. p1

  -- Every call of the package keeps the property.
  pub do_call-Keeps : (fuel : ℕ) (call : Call) → Keeps (do_call fuel call)
  unfolding do_call
  do_call-Keeps fuel (create stack fn parg) = void-Keeps _ (c.creates stack fn parg)
  do_call-Keeps fuel (yield want) = void-Keeps _ (yields want [])
  do_call-Keeps fuel (kill tid) = void-Keeps _ (c.kills tid)
  do_call-Keeps fuel (sleep queue) = void-Keeps _ (thread_sleep-Keeps queue [])
  do_call-Keeps fuel (wakeup queue all) = void-Keeps _ (wakes queue all)
  do_call-Keeps fuel (wait tid) = void-Keeps _ (thread_wait-Keeps tid [])
  do_call-Keeps fuel exit = c.exits
  do_call-Keeps fuel queue_create = void-Keeps _ makes_queue
  do_call-Keeps fuel make_lock = void-Keeps _ lock_create-Keeps
  do_call-Keeps fuel make_cv = void-Keeps _ cv_create-Keeps
  do_call-Keeps fuel signal = void-Keeps _ timer_signal-Keeps
  do_call-Keeps fuel (queue_destroy w) = destroys_queue w
  do_call-Keeps fuel (destroy_lock q) = lock_destroy-Keeps q
  do_call-Keeps fuel (acquire q) = lock_acquire-Keeps fuel q []
  do_call-Keeps fuel (release q) = lock_release-Keeps q
  do_call-Keeps fuel (destroy_cv q) = cv_destroy-Keeps q
  do_call-Keeps fuel (wait_on_cv cv lock) = cv_wait-Keeps fuel cv lock []
  do_call-Keeps fuel (wake_cv all cv lock) = cv_wake-Keeps all cv lock

  unwind-Keeps : (fuel : ℕ) (frames : List Frame) (v : ℤ) → Keeps (unwind fuel frames v)
  unfolding unwind
  unwind-Keeps fuel [] v s p = p
  unwind-Keeps fuel (in_sleep enabled ∷ frames) v s p =
      unwind-Keeps fuel frames v _ (masks enabled s p)
  unwind-Keeps fuel (in_wait tid enabled ∷ frames) v s p =
      unwind-Keeps fuel frames tid _ (masks enabled s p)
  unwind-Keeps fuel (in_acquire l enabled ∷ frames) v s p =
      chain _ _ (acquire_loop-Keeps fuel l enabled frames s p)
        λ _ s1 p1. unwind-Keeps fuel frames (pos 0) _ (masks enabled s1 p1)
  unwind-Keeps fuel (in_cv_sleep l enabled ∷ frames) v s p =
      chain _ _ (lock_acquire-Keeps fuel (some l) (in_cv_acquire enabled ∷ frames) s p)
        λ _ s1 p1. unwind-Keeps fuel frames (pos 0) _ (masks enabled s1 p1)
  unwind-Keeps fuel (in_cv_acquire enabled ∷ frames) v s p =
      unwind-Keeps fuel frames (pos 0) _ (masks enabled s p)
  unwind-Keeps fuel (in_handler ∷ frames) v s p = unwind-Keeps fuel frames v _ (masks true s p)

  -- So does a thread that setcontext resumes.
  pub resume-Ensures : (fuel : ℕ) (s : Package) → Q s → Ensures P Q (resume fuel s)
  unfolding resume
  resume-Ensures fuel s q = go (current s).mycontext.point refl
    where
      go : (x : Point) → (current s).mycontext.point ≡ x → Ensures P Q (resume_at fuel x s)
      go cleared e = tt
      go in_create e = tt
      go (at_stub fn parg) e = c.starts fn parg s q
      go (in_yield next old enabled frames) e =
          chain _ _ (c.continues next old enabled frames s q e)
            λ v s1 p1. chain _ _ (unwind-Keeps fuel frames v s1 p1) λ w s2 p2. p2
