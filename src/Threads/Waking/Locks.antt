-- ===== src/Threads/Waking/Locks.antt =====
-- What the locks of threads/thread.c promise.
use web_server_and_user_leve.Prelude.{
  ◌≢◌, ◌∙◌, sym, ◌&&◌, Bool-cases, eqb_eq, ==_self, ℕ, zero, suc, ◌≡◌, refl, ap, Bool, true, false,
  Option, none, some, List, [], ◌∷◌, ◌++◌, arith, get_elem?, get_elem?-set_self, set, if◌then◌else◌,
  inl, inr, ◌⊎◌,
}
use web_server_and_user_leve.Prelude.Int.{ℤ, pos, negsuc, eqb_ℤ}
use web_server_and_user_leve.Threads.State.{
  Frame, in_acquire, Lock, Package, Outcome, returned, switched, exited, out_of_fuel, undefined,
  aborted, thread_none,
}
use web_server_and_user_leve.Threads.Sync.{
  thread_sleep, sleep_to, read_lock, acquire_loop, lock_acquire, holds, lock_release,
}
use web_server_and_user_leve.Threads.Ensures.{Ensures, Ensures-and_then, Ensures-if}
use web_server_and_user_leve.Threads.Waking.Wakeup.{thread_wakeup-woken, woken, asleep}

-- The lock `l` is taken, by the running thread.
pub record IsHeld (l : ℕ) (s : Package) : Type 0 where
  pub lock : Lock
  pub there : get_elem? s.locks l ≡ some (some lock)
  pub taken : lock.is_acquired ≡ true
  pub own : lock.acquired_by ≡ pos s.current_thread_id

pub read_lock_eq :
    (l : ℕ) (k : Lock) (s : Package)
    → get_elem? s.locks l ≡ some (some k)
    → read_lock l s ≡ returned k s
unfolding read_lock
read_lock_eq l k s e = rw (e, read_lock)

read_lock-cases :
    (l : ℕ) (s : Package)
    → ((k : Lock) × (read_lock l s ≡ returned k s) × (get_elem? s.locks l ≡ some (some k)))
      ⊎ (read_lock l s ≡ undefined)
unfolding read_lock
read_lock-cases l s = go (get_elem? s.locks l) refl
  where
    go :
        (c : Option (Option Lock))
        → get_elem? s.locks l ≡ c
        → ((k : Lock) × (read_lock l s ≡ returned k s) × (get_elem? s.locks l ≡ some (some k)))
          ⊎ (read_lock l s ≡ undefined)
    go none e = inr (rw (e, read_lock))
    go (some none) e = inr (rw (e, read_lock))
    go (some (some k)) e = inl (k, rw (e, read_lock), e)

Ensures_any : {A : Type 0} (r : Outcome A) → Ensures (λ _. Unit {0}) (λ _. Unit {0}) r
Ensures_any (returned a s) = tt
Ensures_any (switched s) = tt
Ensures_any (exited s) = tt
Ensures_any aborted = tt
Ensures_any undefined = tt
Ensures_any out_of_fuel = tt

acquire_loop-IsHeld :
    (fuel l : ℕ) (enabled : Bool) (frames : List Frame) (s : Package)
    → Ensures (IsHeld l) (λ _. Unit {0}) (acquire_loop fuel l enabled frames s)
unfolding acquire_loop
acquire_loop-IsHeld zero l enabled frames s = tt
acquire_loop-IsHeld (suc fuel) l enabled frames s = elim (read_lock-cases l s) [
  | inr e ↦ rw e tt
  | inl (k, e, there) ↦ rw e (
      Ensures-if _ _ k.is_acquired _ _ s
        (Ensures-and_then (IsHeld l) (λ _. Unit {0}) (λ _. Unit {0}) _ _
          (Ensures_any (thread_sleep (some k.wait_on_lock) (in_acquire l enabled ∷ frames) s))
          λ _ s2 _. acquire_loop-IsHeld fuel l enabled frames s2)
        (record {
          lock = record k { is_acquired = true; acquired_by = pos s.current_thread_id };
          there = get_elem?-set_self s.locks l _ _ there;
          taken = refl;
          own = refl;
        }))
]

IsHeld-mask : {l : ℕ} (b : Bool) (s : Package) → IsHeld l s → IsHeld l (record s { interrupts = b })
IsHeld-mask b s h = record { lock = h.lock; there = h.there; taken = h.taken; own = h.own }

lock_acquire-Ensures :
    (fuel l : ℕ) (frames : List Frame) (s : Package)
    → Ensures (IsHeld l) (λ _. Unit {0}) (lock_acquire fuel (some l) frames s)
unfolding lock_acquire
lock_acquire-Ensures fuel l frames s =
    Ensures-and_then (IsHeld l) (λ _. Unit {0}) (IsHeld l) _ _
      (acquire_loop-IsHeld fuel l s.interrupts frames (record s { interrupts = false }))
      λ _ s2 h. IsHeld-mask s.interrupts s2 h

-- If `lock_acquire` returns, whatever has happened while the caller slept, then the caller holds the
-- lock.
pub lock_acquire-IsHeld :
    (fuel l : ℕ) (frames : List Frame) (s s' : Package)
    → lock_acquire fuel (some l) frames s ≡ returned tt s'
    → IsHeld l s'
lock_acquire-IsHeld fuel l frames s s' e = rw e at (lock_acquire-Ensures fuel l frames s)

sleep_none :
    (w : ℕ) (frames : List Frame) (s : Package)
    → s.ready_queue ≡ []
    → thread_sleep (some w) frames s ≡ returned thread_none s
unfolding thread_sleep sleep_to
sleep_none w frames s idle =
    ap (λ q. sleep_to w s.interrupts frames q (record s { interrupts = false })) idle

acquire_loop_stuck :
    (fuel l : ℕ) (k : Lock) (enabled : Bool) (frames : List Frame) (s : Package)
    → get_elem? s.locks l ≡ some (some k)
    → k.is_acquired ≡ true
    → s.ready_queue ≡ []
    → acquire_loop fuel l enabled frames s ≡ out_of_fuel
unfolding acquire_loop
acquire_loop_stuck zero l k enabled frames s there taken idle = refl
acquire_loop_stuck (suc fuel) l k enabled frames s there taken idle =
    rw
      (
        read_lock_eq l k s there,
        taken,
        sleep_none k.wait_on_lock (in_acquire l enabled ∷ frames) s idle,
      )
      (acquire_loop_stuck fuel l k enabled frames s there taken idle)

-- `lock_acquire` of a lock that is taken, when no other thread is ready, never comes to an end: its loop
-- uses up any number of rounds.
pub lock_acquire_stuck :
    (fuel l : ℕ) (k : Lock) (frames : List Frame) (s : Package)
    → get_elem? s.locks l ≡ some (some k)
    → k.is_acquired ≡ true
    → s.ready_queue ≡ []
    → lock_acquire fuel (some l) frames s ≡ out_of_fuel
unfolding lock_acquire
lock_acquire_stuck fuel l k frames s there taken idle = rw (
    acquire_loop_stuck fuel l k s.interrupts frames (record s { interrupts = false }) there taken
      idle)

-- The lock is free, and its sleepers `q` are ready.
abbrev pub released : ℕ → Lock → List ℕ → Package → Package
released l k q s = record s {
  ready_queue = s.ready_queue ++ q;
  wait_queues = set s.wait_queues k.wait_on_lock (some []);
  locks = set s.locks l (some (record k { acquired_by = negsuc 0; is_acquired = false }));
}

woken_all : (q : List ℕ) → (woken true q ≡ q) × (asleep true q ≡ [])
unfolding woken asleep
woken_all [] = (refl, refl)
woken_all (t ∷ q) = (refl, refl)

lock_release-holds :
    (l : ℕ) (k : Lock) (q : List ℕ) (s : Package)
    → get_elem? s.locks l ≡ some (some k)
    → get_elem? s.wait_queues k.wait_on_lock ≡ some (some q)
    → lock_release (some l) s ≡ returned tt (if holds s k then released l k q s else s)
unfolding lock_release
lock_release-holds l k q s there waiting =
    let off : Package = record s { interrupts = false } in
    let (all, rest) = woken_all q in
    ground (
      arith,
      read_lock_eq l k off there,
      thread_wakeup-woken k.wait_on_lock true q off waiting,
      all,
      rest,
    )

-- What a release of the lock `l` does: that of its holder, and any other.
pub data Releases (l : ℕ) (k : Lock) (q : List ℕ) (s : Package) (r : Outcome (Unit {0}))
    : Type 0 where
  by_holder :
      k.is_acquired ≡ true
      → k.acquired_by ≡ pos s.current_thread_id
      → r ≡ returned tt (released l k q s)
      → Releases l k q s r
  by_other :
      (k.is_acquired ≡ false) ⊎ (k.acquired_by ≢ pos s.current_thread_id)
      → r ≡ returned tt s
      → Releases l k q s r

eqb_ℤ_eq : (a : ℤ) (n : ℕ) → eqb_ℤ a (pos n) ≡ true → a ≡ pos n
eqb_ℤ_eq (pos m) n h = ap pos (eqb_eq m n h)
eqb_ℤ_eq (negsuc m) n h = cc

eqb_ℤ_self : (a : ℤ) (n : ℕ) → a ≡ pos n → eqb_ℤ a (pos n) ≡ true
eqb_ℤ_self a n e = ap (λ b. eqb_ℤ b (pos n)) e ∙ ==_self n

pub holds-true :
    (s : Package) (k : Lock)
    → k.is_acquired ≡ true
    → k.acquired_by ≡ pos s.current_thread_id
    → holds s k ≡ true
holds-true s k taken own =
    ap (λ c. c && eqb_ℤ k.acquired_by (pos s.current_thread_id)) taken
    ∙ eqb_ℤ_self k.acquired_by s.current_thread_id own

pub lock_release-released :
    (l : ℕ) (k : Lock) (q : List ℕ) (s : Package)
    → get_elem? s.locks l ≡ some (some k)
    → get_elem? s.wait_queues k.wait_on_lock ≡ some (some q)
    → k.is_acquired ≡ true
    → k.acquired_by ≡ pos s.current_thread_id
    → lock_release (some l) s ≡ returned tt (released l k q s)
lock_release-released l k q s there waiting taken own =
    lock_release-holds l k q s there waiting
    ∙ ap (λ c. returned tt (if c then released l k q s else s)) (holds-true s k taken own)

pub lock_release-other :
    (l : ℕ) (k : Lock) (q : List ℕ) (s : Package)
    → get_elem? s.locks l ≡ some (some k)
    → get_elem? s.wait_queues k.wait_on_lock ≡ some (some q)
    → holds s k ≡ false
    → lock_release (some l) s ≡ returned tt s
lock_release-other l k q s there waiting not_holder =
    lock_release-holds l k q s there waiting
    ∙ ap (λ c. returned tt (if c then released l k q s else s)) not_holder

-- `lock_release` by the thread that has acquired the lock frees it and makes all threads that sleep on it
-- ready, in the order in which they went to sleep; of a free lock, or by any other thread, it changes
-- nothing.
pub lock_release-Releases :
    (l : ℕ) (k : Lock) (q : List ℕ) (s : Package)
    → get_elem? s.locks l ≡ some (some k)
    → get_elem? s.wait_queues k.wait_on_lock ≡ some (some q)
    → Releases l k q s (lock_release (some l) s)
lock_release-Releases l k q s there waiting = elim (Bool-cases k.is_acquired) [
  | inr free ↦ by_other (inl free) (
      lock_release-other l k q s there waiting
        (ap (λ c. c && eqb_ℤ k.acquired_by (pos s.current_thread_id)) free))
  | inl taken ↦ elim (Bool-cases (eqb_ℤ k.acquired_by (pos s.current_thread_id))) [
    | inl own ↦
        let e = eqb_ℤ_eq k.acquired_by s.current_thread_id own in
        by_holder taken e (lock_release-released l k q s there waiting taken e)
    | inr other ↦
        by_other
          (inr λ e. clash_bool (sym (eqb_ℤ_self k.acquired_by s.current_thread_id e) ∙ other))
          (lock_release-other l k q s there waiting
            (ap (λ c. c && eqb_ℤ k.acquired_by (pos s.current_thread_id)) taken ∙ other))
  ]
]
  where
    clash_bool : true ≢ false
    clash_bool e = cc
