-- ===== src/Ipc/Steps/Objects.antt =====
-- The calls of ipc/ keep the lists, the states of threads and the timers in step.
use s_kernel.Common.{
  ℕ, Bool, ◌≡◌, refl, arith, not, ◌&&◌, ◌||◌, ◌+◌, ◌%◌, ◌==◌, ltb, if◌then◌else◌, ℤ, Bits, get_or,
  and_bits, or_bits, equal_bits, nonzero,
}
use s_kernel.Kernel.{Kernel, Phase, EventInfo, waiters, senders, null, list_empty}
use s_kernel.Kernel.Callbacks.{unchanged, schedule-SameCallbacks}
use s_kernel.Ipc.Base.{is_zero, flag_prio}
use s_kernel.Ipc.Parked.{schedule-IsSound}
use s_kernel.Ipc.Semaphore
use s_kernel.Ipc.Semaphore.{Sem, sem_value_max}
use s_kernel.Ipc.Mutex
use s_kernel.Ipc.Mutex.{Mutex, hold_max}
use s_kernel.Ipc.Mailbox
use s_kernel.Ipc.Mailbox.{Mailbox}
use s_kernel.Ipc.MsgQueue
use s_kernel.Ipc.MsgQueue.{MsgQueue}
use s_kernel.Ipc.Event
use s_kernel.Ipc.Event.{Event, half_word, note, deliver}
use s_kernel.Ipc.Event.Noted.{note-IsSound}
use s_kernel.Ipc.Steps.{IsTimed}
use s_kernel.Ipc.Steps.Waits.{
  same-IsTimed, either-IsTimed, either_call-IsTimed, either_receive-IsTimed, block-IsTimed,
  wake_some-IsTimed, notify-IsTimed, resume_all-IsTimed,
}

module _ {k : Kernel} (v : IsTimed k) where
  pub sem_wait-IsTimed :
      (sem : Sem) (time : ℤ)
      → (k.thread k.current).phase ≡ Phase.running
      → IsTimed (Semaphore.wait sem time k).2
  unfolding Semaphore.wait
  sem_wait-IsTimed sem time run =
      either_call-IsTimed _ _ (ltb 0 sem.value) (λ e. v)
        (λ e.
          either_call-IsTimed _ _ (is_zero time) (λ e. v)
            (λ e. block-IsTimed (waiters sem.self) sem.flag time (λ p. refl) run v))

  pub sem_post-IsTimed : (sem : Sem) → IsTimed (Semaphore.post sem k).2
  unfolding Semaphore.post
  sem_post-IsTimed sem =
      either_call-IsTimed _ _ (list_empty (k.queue (waiters sem.self)))
        (λ e. either_call-IsTimed _ _ (ltb sem.value sem_value_max) (λ e. v) (λ e. v))
        (λ ne. wake_some-IsTimed sem.self ne v)

  pub mutex_lock-IsTimed :
      (m : Mutex) (time : ℤ)
      → (k.thread k.current).phase ≡ Phase.running
      → IsTimed (Mutex.lock m time k).2
  unfolding Mutex.lock
  mutex_lock-IsTimed m time run =
      either_call-IsTimed _ _ (m.owner == k.current)
        (λ e. either_call-IsTimed _ _ (ltb m.hold hold_max) (λ e. v) (λ e. v))
        (λ e.
          either_call-IsTimed _ _ (ltb 0 m.value)
            (λ e. either_call-IsTimed _ _ (ltb m.hold hold_max) (λ e. v) (λ e. v))
            (λ e.
              either_call-IsTimed _ _ (is_zero time) (λ e. v)
                (λ e. block-IsTimed (waiters m.self) flag_prio time (λ p. refl) run v)))

  pub mutex_unlock-IsTimed : (m : Mutex) → IsTimed (Mutex.unlock m k).2
  unfolding Mutex.unlock
  mutex_unlock-IsTimed m =
      either_call-IsTimed _ _ (not (k.current == m.owner)) (λ e. v)
        (λ e.
          either_call-IsTimed _ _ (not ((m.hold + 255) % 256 == 0)) (λ e. v)
            (λ e.
              either_call-IsTimed _ _ (list_empty (k.queue (waiters m.self))) (λ e. v)
                (λ ne. wake_some-IsTimed m.self ne v)))

  pub send_finish-IsTimed : (mb : Mailbox) (value : ℕ) → IsTimed (Mailbox.send_finish mb value k).2
  unfolding Mailbox.send_finish
  send_finish-IsTimed mb value =
      either_call-IsTimed _ _ (mb.entry == mb.size) (λ e. v)
        (λ e.
          either_call-IsTimed _ _ (ltb mb.entry mb.size) (λ e. notify-IsTimed mb.self v) (λ e. v))

  pub send_wait-IsTimed :
      (mb : Mailbox) (value : ℕ) (time : ℤ)
      → (k.thread k.current).phase ≡ Phase.running
      → IsTimed (Mailbox.send_wait mb value time k).2
  unfolding Mailbox.send_wait
  send_wait-IsTimed mb value time run =
      either_call-IsTimed _ _ (mb.entry == mb.size && is_zero time) (λ e. v)
        (λ e.
          either_call-IsTimed _ _ (mb.entry == mb.size)
            (λ e. block-IsTimed (senders mb.self) mb.flag time (λ p. refl) run v)
            (λ e. send_finish-IsTimed mb value))

  pub recv_finish-IsTimed : (mb : Mailbox) → IsTimed (Mailbox.recv_finish mb k).3
  unfolding Mailbox.recv_finish
  recv_finish-IsTimed mb =
      either_receive-IsTimed _ _ (mb.entry == 0) (λ e. v) (λ e. notify-IsTimed mb.self v)

  pub recv-IsTimed :
      (mb : Mailbox) (time : ℤ)
      → (k.thread k.current).phase ≡ Phase.running
      → IsTimed (Mailbox.recv mb time k).3
  unfolding Mailbox.recv
  recv-IsTimed mb time run =
      either_receive-IsTimed _ _ (mb.entry == 0 && is_zero time) (λ e. v)
        (λ e.
          either_receive-IsTimed _ _ (mb.entry == 0)
            (λ e. block-IsTimed (waiters mb.self) mb.flag time (λ p. refl) run v)
            (λ e. recv_finish-IsTimed mb))

  pub sem_destroy-IsTimed : (sem : Sem) → IsTimed (Semaphore.destroy sem k)
  unfolding Semaphore.destroy
  sem_destroy-IsTimed sem = resume_all-IsTimed (waiters sem.self) v

  pub mutex_delete-IsTimed : (m : Mutex) → IsTimed (Mutex.delete m k)
  unfolding Mutex.delete
  mutex_delete-IsTimed m = resume_all-IsTimed (waiters m.self) v

  pub event_destroy-IsTimed : (event : Event) → IsTimed (Event.destroy event k)
  unfolding Event.destroy
  event_destroy-IsTimed event = resume_all-IsTimed (waiters event.self) v

  pub mail_delete-IsTimed : (mb : Mailbox) → IsTimed (Mailbox.delete mb k)
  unfolding Mailbox.delete
  mail_delete-IsTimed mb =
      resume_all-IsTimed (senders mb.self) (resume_all-IsTimed (waiters mb.self) v)

  pub queue_delete-IsTimed : (mq : MsgQueue) → IsTimed (MsgQueue.delete mq k)
  unfolding MsgQueue.delete
  queue_delete-IsTimed mq =
      resume_all-IsTimed (senders mq.self) (resume_all-IsTimed (waiters mq.self) v)

  note-IsTimed : (t : ℕ) (set : Bits) (info : EventInfo) → IsTimed (note t set info k)
  note-IsTimed t set info = same-IsTimed v (unchanged (λ u. refl)) (note-IsSound t set info v.sound)

pub event_send-IsTimed :
    {k : Kernel} (need_schedule : Bool) (event : Event) (set : Bits)
    → IsTimed k
    → IsTimed (Event.send need_schedule event set k).2
unfolding Event.send deliver
event_send-IsTimed {k} need_schedule event set v =
    let t = get_or (k.queue (waiters event.self)) 0 null in
    let th = k.thread t in
    let hit = and_bits th.event_set (or_bits event.set (half_word set)) in
    let missed =
      either-IsTimed need_schedule
        (same-IsTimed v (schedule-SameCallbacks k) (schedule-IsSound v.sound)) v in
    either_call-IsTimed _ _ (not (nonzero (half_word set))) (λ e. v)
      (λ e.
        either_call-IsTimed _ _ (list_empty (k.queue (waiters event.self))) (λ e. missed)
          (λ ne.
            either_call-IsTimed _ _ th.event_info.flag_and
              (λ e.
                either_call-IsTimed _ _ (equal_bits hit th.event_set)
                  (λ e. wake_some-IsTimed event.self ne v) (λ e. missed))
              (λ e.
                either_call-IsTimed _ _ th.event_info.flag_or
                  (λ e.
                    either_call-IsTimed _ _ (nonzero hit)
                      (λ e. wake_some-IsTimed event.self ne (note-IsTimed v t hit th.event_info))
                      (λ e. missed))
                  (λ e. v))))

pub event_recv-IsTimed :
    {k : Kernel} (event : Event) (set : Bits) (option : EventInfo) (time : ℤ)
    → (k.thread k.current).phase ≡ Phase.running
    → IsTimed k
    → IsTimed (Event.recv event set option time k).3
unfolding Event.recv
event_recv-IsTimed {k} event set option time run v =
    let hit = and_bits event.set set in
    either_receive-IsTimed _ _ (not (nonzero set)) (λ e. v)
      (λ e.
        either_receive-IsTimed _ _ (not (option.flag_and || option.flag_or)) (λ e. v)
          (λ e.
            either_receive-IsTimed _ _ (if option.flag_and then equal_bits hit set else nonzero hit)
              (λ e. note-IsTimed v k.current hit option)
              (λ e.
                either_receive-IsTimed _ _ (is_zero time) (λ e. v)
                  (λ e.
                    block-IsTimed (waiters event.self) event.flag time (λ p. refl) (ground arith)
                      (note-IsTimed v k.current set option)))))
