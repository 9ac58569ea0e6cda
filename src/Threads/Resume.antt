-- ===== src/Threads/Resume.antt =====
-- What a thread does when setcontext has given it the processor: it goes on at its saved context, and
-- the calls of threads/thread.c on its stack return one after the other. The timer signal of
-- threads/interrupt.c.
use web_server_and_user_leve.Prelude.{ℕ, true, false, some, List, [], ◌∷◌, if◌then◌else◌}
use web_server_and_user_leve.Prelude.Int.{ℤ, pos}
use web_server_and_user_leve.Threads.State.{
  Frame, in_sleep, in_wait, in_acquire, in_cv_sleep, in_cv_acquire, in_handler, Point, cleared,
  in_create, at_stub, in_yield, aborted, undefined, M, pure, ◌>>=◌, ◌>>◌, get, current,
  interrupts_set, thread_any,
}
use web_server_and_user_leve.Threads.Schedule.{
  thread_responsibilities, after_getcontext, thread_yield,
}
use web_server_and_user_leve.Threads.Sync.{acquire_loop, lock_acquire}

-- Where the thread is when it is back in the code of its own: at the start of `thread_main(arg)`, or
-- behind its call of the package with the result (0 where the function returns nothing).
pub data Landing : Type 0 where
  main_of : (fn parg : ℕ) → Landing
  back : ℤ → Landing

-- The frames return, the innermost first.
unfoldable pub unwind : ℕ → List Frame → ℤ → M ℤ
unfolding interrupts_set
unwind fuel [] v = pure v
unwind fuel (in_sleep enabled ∷ frames) v = interrupts_set enabled >> unwind fuel frames v
unwind fuel (in_wait tid enabled ∷ frames) v = interrupts_set enabled >> unwind fuel frames tid
unwind fuel (in_acquire l enabled ∷ frames) v = do
  acquire_loop fuel l enabled frames
  interrupts_set enabled
  unwind fuel frames (pos 0)
unwind fuel (in_cv_sleep l enabled ∷ frames) v = do
  lock_acquire fuel (some l) (in_cv_acquire enabled ∷ frames)
  interrupts_set enabled
  unwind fuel frames (pos 0)
unwind fuel (in_cv_acquire enabled ∷ frames) v =
    interrupts_set enabled >> unwind fuel frames (pos 0)
unwind fuel (in_handler ∷ frames) v = interrupts_set true >> unwind fuel frames v

-- thread_stub up to its call of `thread_main`.
unfoldable pub thread_stub : ℕ → ℕ → M Landing
unfolding interrupts_set
thread_stub fn parg = do
  s ← get
  (if s.interrupts then pure true else interrupts_set true)
  thread_responsibilities
  pure (main_of fn parg)

unfoldable pub resume_at : ℕ → Point → M Landing
resume_at fuel cleared = λ s. undefined
resume_at fuel in_create = λ s. undefined
resume_at fuel (at_stub fn parg) = thread_stub fn parg
resume_at fuel (in_yield next old enabled frames) = do
  v ← after_getcontext next old enabled
  v ← unwind fuel frames v
  pure (back v)

-- The thread `current_thread_id` goes on at its saved context.
unfoldable pub resume : ℕ → M Landing
unfolding resume_at
resume fuel = do s ← get; resume_at fuel (current s).mycontext.point

-- interrupt_handler: the system has blocked the signal on entry. The timer is set again and a
-- message may be printed, which changes nothing here.
unfoldable pub interrupt_handler : M ℤ
interrupt_handler = do
  s ← get
  if s.interrupts then (λ s. aborted) else thread_yield thread_any (in_handler ∷ [])

-- The timer signal: the mask is blocked during the handler and restored when it returns.
unfoldable pub timer_signal : M ℤ
unfolding interrupts_set interrupt_handler
timer_signal = do interrupts_set false; v ← interrupt_handler; interrupts_set true; pure v
