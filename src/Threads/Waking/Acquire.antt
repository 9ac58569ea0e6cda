-- ===== src/Threads/Waking/Acquire.antt =====
-- What `lock_acquire` of threads/thread.c does with a lock that is free, and with one that is taken.
use web_server_and_user_leve.Prelude.{
  ℕ, suc, ◌<◌, ◌≡◌, ◌≢◌, refl, Bool, true, false, some, List, ◌∷◌, get_elem?, set, set-set,
  set-same, get_elem?-set_self, ==_ne, ap, sym, ◌∙◌, [],
}
use web_server_and_user_leve.Prelude.Int.{pos, negsuc}
use mathlib.Core.List.{append-nil}
use web_server_and_user_leve.Threads.State.{
  not_assigned, Frame, in_acquire, Lock, Package, returned, switched, current,
}
use web_server_and_user_leve.Threads.Sync.{acquire_loop, lock_acquire, lock_release, thread_sleep}
use web_server_and_user_leve.Threads.Waking.Locks.{
  read_lock_eq, lock_release-released, lock_release-other,
}
use web_server_and_user_leve.Threads.Waking.Sleep.{Slept, thread_sleep-Slept}

abbrev masked : Package → Package
masked s = record s { interrupts = false }

-- The lock with the running thread as its holder.
abbrev pub held_by : ℕ → Lock → Lock
held_by tid k = record k { is_acquired = true; acquired_by = pos tid }

round-held_by :
    (fuel l : ℕ) (k : Lock) (enabled : Bool) (frames : List Frame) (s : Package)
    → get_elem? s.locks l ≡ some (some k)
    → k.is_acquired ≡ false
    → acquire_loop (suc fuel) l enabled frames s
      ≡ returned tt (record s { locks = set s.locks l (some (held_by s.current_thread_id k)) })
unfolding acquire_loop
round-held_by fuel l k enabled frames s e free = rw (read_lock_eq l k s e, free) refl

round_sleeps :
    (fuel l : ℕ) (k : Lock) (enabled : Bool) (frames : List Frame) (s s' : Package)
    → get_elem? s.locks l ≡ some (some k)
    → k.is_acquired ≡ true
    → thread_sleep (some k.wait_on_lock) (in_acquire l enabled ∷ frames) s ≡ switched s'
    → acquire_loop (suc fuel) l enabled frames s ≡ switched s'
unfolding acquire_loop
round_sleeps fuel l k enabled frames s s' e taken leaves =
    rw (read_lock_eq l k s e, taken, leaves) refl

lock_acquire-held_by :
    (fuel l : ℕ) (k : Lock) (frames : List Frame) (s : Package)
    → get_elem? s.locks l ≡ some (some k)
    → k.is_acquired ≡ false
    → lock_acquire (suc fuel) (some l) frames s
      ≡ returned tt (record s { locks = set s.locks l (some (held_by s.current_thread_id k)) })
unfolding lock_acquire
lock_acquire-held_by fuel l k frames s e free =
    rw (round-held_by fuel l k s.interrupts frames (masked s) e free) refl

-- The state with the lock held by the running thread.
abbrev pub acquired : ℕ → Lock → Package → Package
acquired l k s = record s { locks = set s.locks l (some (held_by s.current_thread_id k)) }

-- The same state, with another thread running.
abbrev pub run_by : ℕ → Package → Package
run_by t s = record s { current_thread_id = t }

acquired-there :
    (l : ℕ) (k : Lock) (s : Package)
    → get_elem? s.locks l ≡ some (some k)
    → get_elem? (acquired l k s).locks l ≡ some (some (held_by s.current_thread_id k))
acquired-there l k s e =
    get_elem?-set_self s.locks l (some (held_by s.current_thread_id k)) (some k) e

released-acquired :
    (l : ℕ) (k : Lock) (s : Package)
    → get_elem? s.locks l ≡ some (some k)
    → k.is_acquired ≡ false
    → k.acquired_by ≡ negsuc 0
    → get_elem? s.wait_queues k.wait_on_lock ≡ some (some [])
    → lock_release (some l) (acquired l k s) ≡ returned tt s
released-acquired l k s e free unowned empty =
    let held : Lock = held_by s.current_thread_id k in
    lock_release-released l held [] (acquired l k s) (acquired-there l k s e) empty refl refl ∙ λ i.
    returned tt (record s {
      ready_queue = append-nil s.ready_queue i;
      wait_queues = set-same s.wait_queues k.wait_on_lock (some []) empty i;
      locks =
          (set-set s.locks l (some held)
                (some (record k { acquired_by = negsuc 0; is_acquired = false }))
              ∙ ap (set s.locks l)
                  (λ j. some (record k { acquired_by = sym unowned j; is_acquired = sym free j }))
              ∙ set-same s.locks l (some k) e)
            i;
    })

-- `lock_acquire` of a lock as `lock_create` and `lock_release` leave it, with nobody asleep on it, returns
-- after one round of its loop. Behind it the lock is held: `lock_release` by any other thread changes
-- nothing, and `lock_release` by the same thread gives back the whole state before the acquisition.
pub lock_release-lock_acquire :
    (fuel l other : ℕ) (k : Lock) (frames : List Frame) (s : Package)
    → get_elem? s.locks l ≡ some (some k)
    → k.is_acquired ≡ false
    → k.acquired_by ≡ negsuc 0
    → get_elem? s.wait_queues k.wait_on_lock ≡ some (some [])
    → other ≢ s.current_thread_id
    → (s' : Package) × (lock_acquire (suc fuel) (some l) frames s ≡ returned tt s')
      × ((k' : Lock) × (get_elem? s'.locks l ≡ some (some k')) × (k'.is_acquired ≡ true))
      × (lock_release (some l) (run_by other s') ≡ returned tt (run_by other s'))
      × (lock_release (some l) s' ≡ returned tt s)
lock_release-lock_acquire fuel l other k frames s e free unowned empty differs =
    let held : Lock = held_by s.current_thread_id k in
    (
      acquired l k s,
      lock_acquire-held_by fuel l k frames s e free,
      (held, acquired-there l k s e, refl),
      lock_release-other l held [] (run_by other (acquired l k s)) (acquired-there l k s e) empty
          (==_ne s.current_thread_id other λ same. differs (sym same)),
      released-acquired l k s e free unowned empty,
    )

-- `lock_acquire` of a taken lock, called by a thread that is neither killed nor recorded as having
-- called setcontext, while another thread is ready, puts the caller to sleep behind the other
-- sleepers on the lock's wait queue, and the head of the ready queue runs.
pub lock_acquire-Slept :
    (fuel l next : ℕ) (k : Lock) (asleep q : List ℕ) (frames : List Frame) (s : Package)
    → get_elem? s.locks l ≡ some (some k)
    → k.is_acquired ≡ true
    → (current s).kill_on_next_run ≡ false
    → (current s).setcontext_called ≡ false
    → get_elem? s.wait_queues k.wait_on_lock ≡ some (some asleep)
    → s.ready_queue ≡ next ∷ q
    → next < 1024
    → next ≢ s.current_thread_id
    → (s.tcbs next).t_state ≢ not_assigned
    → (s' : Package) × (lock_acquire (suc fuel) (some l) frames s ≡ switched s')
      × Slept k.wait_on_lock next asleep q (in_acquire l s.interrupts ∷ frames) (masked s) s'
unfolding lock_acquire
lock_acquire-Slept fuel l next k asleep q frames s e taken alive fresh w r small other used =
    let (s', leaves, slept) =
      thread_sleep-Slept k.wait_on_lock next asleep q (in_acquire l s.interrupts ∷ frames)
        (masked s) alive fresh w r small other used in
    (s', rw (round_sleeps fuel l k s.interrupts frames (masked s) s' e taken leaves) refl, slept)
