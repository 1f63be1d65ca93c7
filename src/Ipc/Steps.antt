-- ===== src/Ipc/Steps.antt =====
-- The calls of threads and the timer interrupt as steps from one state of the kernel to the next
-- (thread/thread.c, thread/schedule.c, init/sys_tick.c, ipc/). Which call comes next, and with what
-- arguments, is left open.
pub mod Callbacks
pub mod Threads
pub mod Waits
pub mod Objects
pub mod Queues
pub mod Creation
pub mod Ticking
pub mod Sound
use s_kernel.Common.{
  ℕ, Option, some, Err, Bits, Bool, ◌≡◌, ◌≢◌, refl, sym, ap, ◌∙◌, arith, true, false, not, ◌&&◌,
  ◌||◌, ◌==◌, ltb, Bool-cases, ==_true, ==_false, inl, inr, List, [], ◌∷◌, member, member-remove,
  member-append, ℤ, ◌+◌, ◌-◌, ◌%◌, ◌^◌, ◌<◌, width,
}
use s_kernel.Kernel.{
  Kernel, Phase, EventInfo, thread_timeout, Queue, ready_at, waiters, null, same_phase, same_queue,
  stat_is, set_stat, list_del, list_empty,
}
use s_kernel.Kernel.Timers.{Control, timer_delete, timer_start, timer_stop, timer_control, set_time}
use s_kernel.Kernel.Sched.{schedule, remove_thread, enqueue, insert_thread}
use s_kernel.Kernel.Threads.{
  thread_suspend, thread_resume, on_timeout, thread_sleep, thread_exit, thead_suspend, thread_init,
  thread_startup,
}
use s_kernel.Kernel.Ticks.{tick_increase}
use s_kernel.Kernel.Inv.{same_queue_comm, IsAbsent}
use s_kernel.Kernel.Switch.{IsWellFormed, is_runnable}
use s_kernel.Kernel.Blocking.{
  SameLists, SameLists-IsWellFormed, timer_stop-SameLists, put_down-IsWellFormed,
  requeue-IsWellFormed,
}
use s_kernel.Ipc.Waiting.{IsWaitList}
use s_kernel.Ipc.Parked.{IsSound, schedule-IsSound, block-IsSound, wake-IsSound}
use s_kernel.Ipc.Base.{Progress, is_zero, flag_prio}
use s_kernel.Ipc.Semaphore
use s_kernel.Ipc.Semaphore.{Sem, sem_value_max}
use s_kernel.Ipc.Mutex
use s_kernel.Ipc.Mutex.{Mutex, hold_max}
use s_kernel.Ipc.Mailbox
use s_kernel.Ipc.Mailbox.{Mailbox}
use s_kernel.Ipc.MsgQueue
use s_kernel.Ipc.MsgQueue.{MsgQueue}
use s_kernel.Ipc.Event
use s_kernel.Ipc.Event.{Event}

-- A whole call, or the interrupt of the timer, in which `call_external` is what timers do that are not
-- timers of threads. A call that may block goes up to its `sk_schedule` in one step and is made while
-- the state of the current thread is RUNNING, and the interrupt comes only then; the checks of the
-- timers go on for any number of rounds. A thread that is created stands in no list before.
pub data Step (call_external : ℕ → ℕ → Kernel → Kernel) : Kernel → Kernel → Type 0 where
  yield : (k : Kernel) → Step call_external k (schedule k)
  suspend : (k : Kernel) (t : ℕ) → Step call_external k (thread_suspend t k).1
  resume : (k : Kernel) (t : ℕ) → t ≢ null → Step call_external k (thread_resume t k).1
  interrupt :
      (k : Kernel) (fuel : ℕ)
      → (k.thread k.current).phase ≡ Phase.running
      → Step call_external k (tick_increase call_external fuel k)
  sleep : (k : Kernel) (ticks : ℕ) → Step call_external k (thread_sleep ticks k)
  exit : (k : Kernel) → Step call_external k (thread_exit k)
  start : (k : Kernel) (t : ℕ) → Step call_external k (timer_start t k)
  stop : (k : Kernel) (t : ℕ) → Step call_external k (timer_stop t k).1
  control : (k : Kernel) (t : ℕ) (cmd : Control) → Step call_external k (timer_control t cmd k).1
  delete_timer : (k : Kernel) (t : ℕ) → Step call_external k (timer_delete t k)
  lay_down : (k : Kernel) (t : ℕ) → Step call_external k (thead_suspend t k).1
  create :
      (k : Kernel) (t priority tick : ℕ)
      → IsAbsent t k
      → t ≢ null
      → priority < width
      → Step call_external k (thread_init t priority tick k)
  startup : (k k' : Kernel) (t : ℕ) → thread_startup t k ≡ some k' → Step call_external k k'
  sem_wait :
      (k : Kernel) (sem : Sem) (time : ℤ)
      → (k.thread k.current).phase ≡ Phase.running
      → Step call_external k (Semaphore.wait sem time k).2
  sem_post : (k : Kernel) (sem : Sem) → Step call_external k (Semaphore.post sem k).2
  mutex_lock :
      (k : Kernel) (m : Mutex) (time : ℤ)
      → (k.thread k.current).phase ≡ Phase.running
      → Step call_external k (Mutex.lock m time k).2
  mutex_unlock : (k : Kernel) (m : Mutex) → Step call_external k (Mutex.unlock m k).2
  mail_send :
      (k : Kernel) (mb : Mailbox) (value : ℕ) (time : ℤ)
      → (k.thread k.current).phase ≡ Phase.running
      → Step call_external k (Mailbox.send_wait mb value time k).2
  mail_send_finish :
      (k : Kernel) (mb : Mailbox) (value : ℕ)
      → Step call_external k (Mailbox.send_finish mb value k).2
  mail_recv :
      (k : Kernel) (mb : Mailbox) (time : ℤ)
      → (k.thread k.current).phase ≡ Phase.running
      → Step call_external k (Mailbox.recv mb time k).3
  mail_recv_finish : (k : Kernel) (mb : Mailbox) → Step call_external k (Mailbox.recv_finish mb k).3
  event_send :
      (k : Kernel) (need_schedule : Bool) (event : Event) (set : Bits)
      → Step call_external k (Event.send need_schedule event set k).2
  event_recv :
      (k : Kernel) (event : Event) (set : Bits) (option : EventInfo) (time : ℤ)
      → (k.thread k.current).phase ≡ Phase.running
      → Step call_external k (Event.recv event set option time k).3
  queue_send :
      (k k' : Kernel) (mq mq' : MsgQueue) (buffer : List ℕ) (size : ℕ) (time : ℤ) (code : Err)
      → MsgQueue.send_wait mq buffer size time k ≡ some (code, mq', k')
      → Step call_external k k'
  queue_recv :
      (k k' : Kernel) (mq mq' : MsgQueue) (size : ℕ) (time : ℤ) (code : Progress)
      (bytes : Option (List ℕ))
      → (k.thread k.current).phase ≡ Phase.running
      → MsgQueue.recv mq size time k ≡ some (code, bytes, mq', k')
      → Step call_external k k'
  queue_recv_finish :
      (k k' : Kernel) (mq mq' : MsgQueue) (size : ℕ) (code : Err) (bytes : Option (List ℕ))
      → MsgQueue.recv_finish mq size k ≡ some (code, bytes, mq', k')
      → Step call_external k k'
  sem_destroy : (k : Kernel) (sem : Sem) → Step call_external k (Semaphore.destroy sem k)
  mutex_delete : (k : Kernel) (m : Mutex) → Step call_external k (Mutex.delete m k)
  event_destroy : (k : Kernel) (event : Event) → Step call_external k (Event.destroy event k)
  mail_delete : (k : Kernel) (mb : Mailbox) → Step call_external k (Mailbox.delete mb k)
  queue_delete : (k : Kernel) (mq : MsgQueue) → Step call_external k (MsgQueue.delete mq k)

-- The states that a sequence of steps leads to.
pub data Reach (call_external : ℕ → ℕ → Kernel → Kernel) (k : Kernel) : Kernel → Type 0 where
  here : Reach call_external k k
  next :
      {k' k'' : Kernel}
      → Reach call_external k k'
      → Step call_external k' k''
      → Reach call_external k k''

-- Every thread that waits for an object is suspended, and a timer of a thread has one to wake.
pub record IsTimed (k : Kernel) : Type 0 where
  pub sound : IsSound k
  pub named : (t u : ℕ) → (k.timer t).callback ≡ thread_timeout u → u ≢ null
