-- ===== src/Ipc/Steps/Queues.antt =====
-- The calls of ipc/msg_queue.c, where they return, keep the lists, the states of threads and the
-- timers in step.
use s_kernel.Common.{
  ℕ, ◌≡◌, refl, subst, ◌==◌, ltb, Bool-cases, inl, inr, ℤ, List, Option, none, some, Err,
}
use s_kernel.Kernel.{Kernel, Phase, waiters, null}
use s_kernel.Ipc.Base.{Progress, is_zero}
use s_kernel.Ipc.MsgQueue.{MsgQueue, send_finish, recv_finish, send_wait, recv}
use s_kernel.Ipc.Steps.{IsTimed}
use s_kernel.Ipc.Steps.Waits.{block-IsTimed, notify-IsTimed}

-- The state that a call of sending leaves, if it returns.
abbrev IsSent : Option (Err × MsgQueue × Kernel) → Type 0
IsSent none = Unit {0}
IsSent (some (code, mq, k)) = IsTimed k

-- The state that a call of receiving leaves, if it returns.
abbrev IsReceived : Option (Progress × Option (List ℕ) × MsgQueue × Kernel) → Type 0
IsReceived none = Unit {0}
IsReceived (some (code, bytes, mq, k)) = IsTimed k

-- The same for the second half of receiving.
abbrev IsFinished : Option (Err × Option (List ℕ) × MsgQueue × Kernel) → Type 0
IsFinished none = Unit {0}
IsFinished (some (code, bytes, mq, k)) = IsTimed k

module _ {k : Kernel} (v : IsTimed k) (mq : MsgQueue) where
  send_wait-IsSent :
      (buffer : List ℕ) (size : ℕ) (time : ℤ) → IsSent (send_wait mq buffer size time k)
  unfolding send_wait send_finish
  send_wait-IsSent buffer size time = elim (Bool-cases (ltb mq.msg_size size)) [
    | inl long ↦ rw long v
    | inr fits ↦ elim (Bool-cases (mq.free == null)) [
      | inr room ↦ rw (fits, room) (notify-IsTimed mq.self v)
      | inl full ↦ elim (Bool-cases (is_zero time)) [
        | inl e ↦ rw (fits, full, e) v
        | inr e ↦ rw (fits, full, e) tt
      ]
    ]
  ]

  pub send_wait-IsTimed :
      {k' : Kernel} {mq' : MsgQueue} {code : Err} (buffer : List ℕ) (size : ℕ) (time : ℤ)
      → send_wait mq buffer size time k ≡ some (code, mq', k')
      → IsTimed k'
  send_wait-IsTimed buffer size time e = subst IsSent e (send_wait-IsSent buffer size time)

  recv-IsReceived :
      (size : ℕ) (time : ℤ)
      → (k.thread k.current).phase ≡ Phase.running
      → IsReceived (recv mq size time k)
  unfolding recv recv_finish
  recv-IsReceived size time run = elim (Bool-cases (mq.entry == 0)) [
    | inr there ↦ elim (Bool-cases (mq.head == null)) [
      | inl e ↦ rw (there, e) tt
      | inr e ↦ rw (there, e) (notify-IsTimed mq.self v)
    ]
    | inl empty ↦ elim (Bool-cases (is_zero time)) [
      | inl e ↦ rw (empty, e) v
      | inr e ↦ rw (empty, e) (block-IsTimed (waiters mq.self) mq.flag time (λ p. refl) run v)
    ]
  ]

  pub recv-IsTimed :
      {k' : Kernel} {mq' : MsgQueue} {code : Progress} {bytes : Option (List ℕ)} (size : ℕ)
      (time : ℤ)
      → (k.thread k.current).phase ≡ Phase.running
      → recv mq size time k ≡ some (code, bytes, mq', k')
      → IsTimed k'
  recv-IsTimed size time run e = subst IsReceived e (recv-IsReceived size time run)

  recv_finish-IsFinished : (size : ℕ) → IsFinished (recv_finish mq size k)
  unfolding recv_finish
  recv_finish-IsFinished size = elim (Bool-cases (mq.entry == 0)) [
    | inl empty ↦ rw empty v
    | inr there ↦ elim (Bool-cases (mq.head == null)) [
      | inl e ↦ rw (there, e) tt
      | inr e ↦ rw (there, e) (notify-IsTimed mq.self v)
    ]
  ]

  pub recv_finish-IsTimed :
      {k' : Kernel} {mq' : MsgQueue} {code : Err} {bytes : Option (List ℕ)} (size : ℕ)
      → recv_finish mq size k ≡ some (code, bytes, mq', k')
      → IsTimed k'
  recv_finish-IsTimed size e = subst IsFinished e (recv_finish-IsFinished size)
