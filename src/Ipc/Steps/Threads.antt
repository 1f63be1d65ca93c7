-- ===== src/Ipc/Steps/Threads.antt =====
-- The calls of thread/thread.c keep the lists and the states of threads in step.
use s_kernel.Common.{ℕ, ◌≢◌, refl, arith, ◌||◌, Bool-cases, inl, inr, member-remove}
use s_kernel.Kernel.{Kernel, Phase, ready_at, null, same_phase, stat_is, set_stat, list_del}
use s_kernel.Kernel.Timers.{timer_delete, timer_start, timer_control, set_time}
use s_kernel.Kernel.Sched.{remove_thread, enqueue, insert_thread}
use s_kernel.Kernel.Threads.{thread_suspend, thread_resume, thread_sleep, thread_exit}
use s_kernel.Kernel.Inv.{same_queue_comm}
use s_kernel.Kernel.Blocking.{
  SameLists, SameLists-IsWellFormed, timer_stop-SameLists, put_down-IsWellFormed,
  requeue-IsWellFormed,
}
use s_kernel.Ipc.Parked.{IsSound, schedule-IsSound}

pub SameLists-IsSound : {k k' : Kernel} → SameLists k k' → IsSound k → IsSound k'
SameLists-IsSound s v = record {
  well_formed = SameLists-IsWellFormed s v.well_formed;
  parked = λ q u nr. rw (s.same_queues q, s.same_thread u) (v.parked q u nr);
}

pub put_down-IsSound :
    {k : Kernel} (t : ℕ) (p : Phase) → IsSound k → IsSound (set_stat t p (remove_thread t k))
unfolding remove_thread
put_down-IsSound {k} t p s = record {
  well_formed = put_down-IsWellFormed t p s.well_formed;
  parked = λ q u nr m. ground (arith, s.parked q u nr, member-remove u t (k.queue q));
}

pub thread_suspend-IsSound : {k : Kernel} (t : ℕ) → IsSound k → IsSound (thread_suspend t k).1
unfolding thread_suspend
thread_suspend-IsSound {k} t s =
    let phase = (k.thread t).phase in
    elim (Bool-cases (same_phase phase Phase.ready || same_phase phase Phase.running)) [
      | inr e ↦ rw e s
      | inl e ↦
          rw e (SameLists-IsSound (timer_stop-SameLists t _) (put_down-IsSound t Phase.suspend s))
    ]

pub requeue-IsSound :
    {k : Kernel} (t : ℕ) → t ≢ null → IsSound k → IsSound (insert_thread t (list_del t k))
unfolding insert_thread enqueue
requeue-IsSound {k} t ne s = record {
  well_formed = requeue-IsWellFormed s.well_formed t ne;
  parked = λ q u nr m. ground (
    arith,
    s.parked q u nr,
    member-remove u t (k.queue q),
    same_queue_comm (ready_at (k.thread t).current_pri) q,
    nr (k.thread t).current_pri,
  );
}

pub thread_resume-IsSound :
    {k : Kernel} (t : ℕ) → t ≢ null → IsSound k → IsSound (thread_resume t k).1
unfolding thread_resume
thread_resume-IsSound {k} t ne s = elim (Bool-cases (stat_is (k.thread t) Phase.suspend)) [
  | inl e ↦ rw e (requeue-IsSound t ne s)
  | inr e ↦ rw e s
]

pub thread_sleep-IsSound : {k : Kernel} (ticks : ℕ) → IsSound k → IsSound (thread_sleep ticks k)
unfolding thread_sleep thread_suspend timer_start timer_control
thread_sleep-IsSound {k} ticks s =
    schedule-IsSound (SameLists-IsSound started (thread_suspend-IsSound k.current s))
  where
    started : SameLists (thread_suspend k.current k).1 (
        timer_start k.current
          (timer_control k.current (set_time ticks) (thread_suspend k.current k).1).1)
    started = record {
      same_thread = λ u. refl;
      same_queues = λ q. refl;
      same_group = λ p. refl;
      same_current = refl;
    }

pub thread_exit-IsSound : {k : Kernel} → IsSound k → IsSound (thread_exit k)
unfolding thread_exit timer_delete
thread_exit-IsSound {k} s =
    schedule-IsSound (SameLists-IsSound deleted (put_down-IsSound k.current Phase.close s))
  where
    deleted :
        SameLists
          (set_stat k.current Phase.close (remove_thread k.current k))
          (timer_delete k.current (set_stat k.current Phase.close (remove_thread k.current k)))
    deleted = record {
      same_thread = λ u. refl;
      same_queues = λ q. refl;
      same_group = λ p. refl;
      same_current = refl;
    }
