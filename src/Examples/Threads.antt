-- ===== src/Examples/Threads.antt =====
-- Thread 1 runs; thread 2 is ready, and thread 3 sleeps on the wait queue 0.
use web_server_and_user_leve.Prelude.{
  erase, has, ℕ, ◌+◌, ◌≡◌, ◌≢◌, refl, ap, Bool, true, false, none, some, [], ◌∷◌, arith, ◌==◌,
  if◌then◌else◌, get_elem?,
}
use web_server_and_user_leve.Prelude.Int.{pos, negsuc}
use web_server_and_user_leve.Threads.State.{
  ThreadState, not_assigned, ready, running, Point, cleared, at_stub, in_acquire, in_yield, Thread,
  Lock, Package, and_then, pure, returned, switched, undefined, out_of_fuel, thread_any,
  thread_none,
}
use web_server_and_user_leve.Threads.Queues.{remove_from_ready_queue}
use web_server_and_user_leve.Threads.Store.{thread_wakeup}
use web_server_and_user_leve.Threads.Schedule.{thread_yield}
use web_server_and_user_leve.Threads.Create.{thread_kill}
use web_server_and_user_leve.Threads.Sync.{thread_sleep, lock_acquire, lock_release}
use web_server_and_user_leve.Threads.Resume.{back, resume}
use web_server_and_user_leve.Threads.Places.{places}
use web_server_and_user_leve.Threads.Order.{remove_from_ready_queue-erase}
use web_server_and_user_leve.Threads.Switch.Leave.{
  MayYield, Switched, yield_any-Switched, yield_pos-Switched,
}
use web_server_and_user_leve.Threads.Switch.Refuse.{not_ready, none_ready, thread_yield-Refuses}
use web_server_and_user_leve.Threads.Switch.Return.{IsBack, resume-IsBack, resume_killed}
use web_server_and_user_leve.Threads.Switch.Stale.{yield_any_stale}
use web_server_and_user_leve.Threads.Waking.Wakeup.{woken, asleep, thread_wakeup-woken}
use web_server_and_user_leve.Threads.Waking.Sleep.{Slept, thread_sleep-Slept}
use web_server_and_user_leve.Threads.Waking.Acquire.{
  run_by, lock_release-lock_acquire, lock_acquire-Slept,
}
use web_server_and_user_leve.Threads.Waking.Locks.{
  lock_acquire_stuck, Releases, lock_release-Releases,
}
use web_server_and_user_leve.Threads.Faults.{thread_kill-undefined}
use web_server_and_user_leve.Threads.System.Calls.{yield, do_call, in_user, start, next, returns}
use web_server_and_user_leve.Threads.System.Start.{thread_init-IsStarted}
use web_server_and_user_leve.Threads.System.Soundness.{AtMostOnce, Reach-AtMostOnce}

abbrev thread_of : ThreadState → Point → Bool → Bool → Thread
thread_of st p called killed = record {
  t_state = st;
  id = 0;
  mycontext = record { point = p; interrupts = false };
  stack_to_free = none;
  setcontext_called = called;
  kill_on_next_run = killed;
  wait_queue = none;
  t_wait = none;
}

abbrev three : ℕ → Thread
three i =
    if i == 1
    then thread_of running cleared false false
    else if i == 2
    then thread_of ready (at_stub 7 8) false false
    else if i == 3
    then thread_of ready (in_yield 1 3 true []) true false
    else thread_of not_assigned cleared false false

abbrev free_lock : Lock
free_lock = record { wait_on_lock = 0; is_acquired = false; acquired_by = negsuc 0 }

abbrev taken_lock : Lock
taken_lock = record { wait_on_lock = 0; is_acquired = true; acquired_by = pos 1 }

abbrev sample : Package
sample = record {
  tcbs = three;
  current_thread_id = 1;
  ready_queue = 2 ∷ [];
  available_ids = 4 ∷ 5 ∷ [];
  wait_queues = some (3 ∷ []) ∷ [];
  locks = some free_lock ∷ some taken_lock ∷ [];
  cvs = [];
  interrupts = true;
}

sample-MayYield : MayYield sample
sample-MayYield = record { alive = refl; fresh = refl; no_queue = refl }

yield_any-Switched_example :
    (s' : Package) × (thread_yield thread_any [] sample ≡ switched s') × Switched 2 [] [] sample s'
yield_any-Switched_example = yield_any-Switched 2 [] [] sample sample-MayYield refl (omega arith)

yield_pos-Switched_example :
    (s' : Package) × (thread_yield (pos 2) [] sample ≡ switched s') × Switched 2 [] [] sample s'
yield_pos-Switched_example =
    yield_pos-Switched 2 [] [] [] sample sample-MayYield (omega arith) (omega arith) (λ e. cc) refl
      refl

thread_yield-Refuses_example : thread_yield (pos 3) [] sample ≡ returned thread_none sample
thread_yield-Refuses_example =
    thread_yield-Refuses [] (not_ready 3 (omega arith) (omega arith) (λ e. cc) refl)

-- Thread 3 has been given the processor.
abbrev resumed : Package
resumed = record sample { current_thread_id = 3 }

resume-IsBack_example :
    (s' : Package) × (resume 1 resumed ≡ returned (back (pos 1)) s') × IsBack true resumed s'
resume-IsBack_example = resume-IsBack 1 1 3 true resumed refl refl refl

-- Thread 3 has been killed while it slept.
abbrev killed_thread : Package
killed_thread = record resumed { tcbs = λ i. record (three i) { kill_on_next_run = true } }

resume_killed_example : resume 1 killed_thread ≢ returned (back (pos 1)) killed_thread
resume_killed_example = resume_killed 1 killed_thread (back (pos 1)) killed_thread refl

-- Thread 1 carries the flag of an earlier thread with its id.
abbrev stale : Package
stale = record sample { tcbs = λ i. record (three i) { setcontext_called = true } }

yield_any_stale_example :
    (s' : Package) × (thread_yield thread_any [] stale ≡ returned (pos 2) s')
    × (s'.current_thread_id ≡ 1)
    × (s'.ready_queue ≡ [])
    × (places 2 s' + 1 ≡ places 2 stale)
yield_any_stale_example = yield_any_stale 2 [] stale refl refl refl

thread_wakeup-woken_example :
    thread_wakeup (some 0) true sample
    ≡ returned 1 (record sample { ready_queue = 2 ∷ 3 ∷ []; wait_queues = some [] ∷ [] })
unfolding woken asleep
thread_wakeup-woken_example = thread_wakeup-woken 0 true (3 ∷ []) sample refl

thread_sleep-Slept_example :
    (s' : Package) × (thread_sleep (some 0) [] sample ≡ switched s')
    × Slept 0 2 (3 ∷ []) [] [] sample s'
thread_sleep-Slept_example =
    thread_sleep-Slept 0 2 (3 ∷ []) [] [] sample refl refl refl refl (omega arith) (omega arith)
      (λ e. cc)

lock_acquire_stuck_example :
    lock_acquire 5 (some 1) [] (record sample { ready_queue = [] }) ≡ out_of_fuel
lock_acquire_stuck_example =
    lock_acquire_stuck 5 1 taken_lock [] (record sample { ready_queue = [] }) refl refl refl

lock_release-Releases_example : Releases 1 taken_lock (3 ∷ []) sample (lock_release (some 1) sample)
lock_release-Releases_example = lock_release-Releases 1 taken_lock (3 ∷ []) sample refl refl

thread_kill-undefined_example : thread_kill (negsuc 2) sample ≡ undefined
thread_kill-undefined_example = thread_kill-undefined 2 sample (omega arith)

remove_from_ready_queue-erase_example :
    remove_from_ready_queue (pos 3) (2 ∷ 3 ∷ 4 ∷ []) ≡ (some 3, 2 ∷ 4 ∷ [])
unfolding erase has
remove_from_ready_queue-erase_example =
    remove_from_ready_queue-erase 3 (2 ∷ 3 ∷ 4 ∷ []) (omega arith)

-- The first thread asks for another, and there is none.
refused : do_call 0 (yield thread_any) thread_init-IsStarted.0 ≡ returned tt thread_init-IsStarted.0
unfolding do_call
refused =
    ap (λ o. and_then o λ _. pure tt)
      (thread_yield-Refuses [] (none_ready thread_init-IsStarted.2.readys))

Reach-AtMostOnce_example : AtMostOnce thread_init-IsStarted.0
Reach-AtMostOnce_example =
    Reach-AtMostOnce (in_user thread_init-IsStarted.0)
      (next (start thread_init-IsStarted.1) (returns 0 (yield thread_any) refused))

-- Nobody sleeps.
abbrev quiet : Package
quiet = record sample { wait_queues = some [] ∷ [] }

lock_release-lock_acquire_example :
    (s' : Package) × (lock_acquire 1 (some 0) [] quiet ≡ returned tt s')
    × ((k' : Lock) × (get_elem? s'.locks 0 ≡ some (some k')) × (k'.is_acquired ≡ true))
    × (lock_release (some 0) (run_by 2 s') ≡ returned tt (run_by 2 s'))
    × (lock_release (some 0) s' ≡ returned tt quiet)
lock_release-lock_acquire_example =
    lock_release-lock_acquire 0 0 2 free_lock [] quiet refl refl refl refl (λ e. cc)

-- Thread 2 holds the lock.
abbrev contended : Package
contended = record sample { locks = some (record taken_lock { acquired_by = pos 2 }) ∷ [] }

lock_acquire-Slept_example :
    (s' : Package) × (lock_acquire 1 (some 0) [] contended ≡ switched s')
    × Slept 0 2 (3 ∷ []) [] (in_acquire 0 true ∷ []) (record contended { interrupts = false }) s'
lock_acquire-Slept_example =
    lock_acquire-Slept 0 0 2 (record taken_lock { acquired_by = pos 2 }) (3 ∷ []) [] [] contended
      refl refl refl refl refl refl (omega arith) (omega arith) (λ e. cc)
