-- ===== src/Ipc/Steps/Sound.antt =====
-- Every step of ipc/, thread/ and init/sys_tick.c keeps the lists and the states of threads in step.
use s_kernel.Common.{ℕ}
use s_kernel.Kernel.{Kernel}
use s_kernel.Ipc.Parked.{schedule-IsSound}
use s_kernel.Kernel.Callbacks.{
  schedule-SameCallbacks, thread_suspend-SameCallbacks, thread_resume-SameCallbacks,
  thread_sleep-SameCallbacks, thread_exit-SameCallbacks, timer_stop-SameCallbacks,
}
use s_kernel.Kernel.Blocking.{timer_stop-SameLists}
use s_kernel.Ipc.Steps.{Step, Reach, here, next, IsTimed}
use s_kernel.Ipc.Steps.Objects.{
  sem_wait-IsTimed, sem_post-IsTimed, mutex_lock-IsTimed, mutex_unlock-IsTimed, send_wait-IsTimed,
  send_finish-IsTimed, recv-IsTimed, recv_finish-IsTimed, event_send-IsTimed, event_recv-IsTimed,
  sem_destroy-IsTimed, mutex_delete-IsTimed, event_destroy-IsTimed, mail_delete-IsTimed,
  queue_delete-IsTimed,
}
use s_kernel.Ipc.Steps.Queues
use s_kernel.Ipc.Steps.Waits.{same-IsTimed}
use s_kernel.Ipc.Steps.Ticking.{timer_start-IsTimed, tick_increase-IsTimed}
use s_kernel.Ipc.Steps.Creation.{
  timer_control-IsTimed, timer_delete-IsTimed, thead_suspend-IsTimed, thread_init-IsTimed,
  thread_startup-IsTimed,
}
use s_kernel.Ipc.Steps.Threads.{
  SameLists-IsSound, thread_suspend-IsSound, thread_resume-IsSound, thread_sleep-IsSound,
  thread_exit-IsSound,
}

module _ (call_external : ℕ → ℕ → Kernel → Kernel)
    (kept : (f param : ℕ) (k : Kernel) → IsTimed k → IsTimed (call_external f param k)) where
  Step-IsTimed : {k k' : Kernel} → Step call_external k k' → IsTimed k → IsTimed k'
  Step-IsTimed (Step.yield k) v =
      same-IsTimed v (schedule-SameCallbacks k) (schedule-IsSound v.sound)
  Step-IsTimed (Step.suspend k t) v =
      same-IsTimed v (thread_suspend-SameCallbacks t k) (thread_suspend-IsSound t v.sound)
  Step-IsTimed (Step.resume k t ne) v =
      same-IsTimed v (thread_resume-SameCallbacks t k) (thread_resume-IsSound t ne v.sound)
  Step-IsTimed (Step.interrupt k fuel run) v = tick_increase-IsTimed call_external kept fuel run v
  Step-IsTimed (Step.sleep k ticks) v =
      same-IsTimed v (thread_sleep-SameCallbacks ticks k) (thread_sleep-IsSound ticks v.sound)
  Step-IsTimed (Step.exit k) v =
      same-IsTimed v (thread_exit-SameCallbacks k) (thread_exit-IsSound v.sound)
  Step-IsTimed (Step.start k t) v = timer_start-IsTimed t v
  Step-IsTimed (Step.stop k t) v =
      same-IsTimed v (timer_stop-SameCallbacks t k)
        (SameLists-IsSound (timer_stop-SameLists t k) v.sound)
  Step-IsTimed (Step.control k t cmd) v = timer_control-IsTimed t cmd v
  Step-IsTimed (Step.delete_timer k t) v = timer_delete-IsTimed t v
  Step-IsTimed (Step.lay_down k t) v = thead_suspend-IsTimed t v
  Step-IsTimed (Step.create k t priority tick new ne low) v =
      thread_init-IsTimed v t new ne priority tick low
  Step-IsTimed (Step.startup k k' t e) v = thread_startup-IsTimed t e v
  Step-IsTimed (Step.sem_wait k sem time run) v = sem_wait-IsTimed v sem time run
  Step-IsTimed (Step.sem_post k sem) v = sem_post-IsTimed v sem
  Step-IsTimed (Step.mutex_lock k m time run) v = mutex_lock-IsTimed v m time run
  Step-IsTimed (Step.mutex_unlock k m) v = mutex_unlock-IsTimed v m
  Step-IsTimed (Step.mail_send k mb value time run) v = send_wait-IsTimed v mb value time run
  Step-IsTimed (Step.mail_send_finish k mb value) v = send_finish-IsTimed v mb value
  Step-IsTimed (Step.mail_recv k mb time run) v = recv-IsTimed v mb time run
  Step-IsTimed (Step.mail_recv_finish k mb) v = recv_finish-IsTimed v mb
  Step-IsTimed (Step.event_send k need_schedule event set) v =
      event_send-IsTimed need_schedule event set v
  Step-IsTimed (Step.event_recv k event set option time run) v =
      event_recv-IsTimed event set option time run v
  Step-IsTimed (Step.queue_send k k' mq mq' buffer size time code e) v =
      Queues.send_wait-IsTimed v mq buffer size time e
  Step-IsTimed (Step.queue_recv k k' mq mq' size time code bytes run e) v =
      Queues.recv-IsTimed v mq size time run e
  Step-IsTimed (Step.queue_recv_finish k k' mq mq' size code bytes e) v =
      Queues.recv_finish-IsTimed v mq size e
  Step-IsTimed (Step.sem_destroy k sem) v = sem_destroy-IsTimed v sem
  Step-IsTimed (Step.mutex_delete k m) v = mutex_delete-IsTimed v m
  Step-IsTimed (Step.event_destroy k event) v = event_destroy-IsTimed v event
  Step-IsTimed (Step.mail_delete k mb) v = mail_delete-IsTimed v mb
  Step-IsTimed (Step.queue_delete k mq) v = queue_delete-IsTimed v mq

  -- The steps are the whole calls that `Step` lists and the timer interrupt, in any order: sk_schedule,
  -- suspension, resumption, sleep and exit of a thread, the initialisation of a thread that is in no
  -- list, sk_thread_startup, the calls of timers, and the waits, posts and deletions of the objects of
  -- ipc/. A call that may block is one step up to its sk_schedule and is made, as a tick comes, only
  -- while the state of the current thread is RUNNING; a tick between two parts of a call, or while the
  -- current thread is suspended, is no step. Where what the other timers do keeps this too: in each
  -- state that such steps lead to from a state of this kind, no thread stands in two lists or twice in
  -- one, the ready group is that of the ready lists, the current thread is in no ready list, every
  -- thread that waits for an object is suspended, and a timer of a thread has one to wake.
  pub Reach-IsTimed : {k k' : Kernel} → IsTimed k → Reach call_external k k' → IsTimed k'
  Reach-IsTimed v here = v
  Reach-IsTimed v (next r step) = Step-IsTimed step (Reach-IsTimed v r)
