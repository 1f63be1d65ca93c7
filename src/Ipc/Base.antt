-- ===== src/Ipc/Base.antt =====
-- ipc/ipc_base.c: threads that wait for a communication object.
use s_kernel.Common.{
  ℕ, zero, suc, Bool, false, List, [], ◌∷◌, ltb, ◌==◌, if◌then◌else◌, length, get_or, ℤ, pos,
  negsuc, Err,
}
use s_kernel.Kernel.{waiters, Kernel, Queue, null, same_queue, list_add_tail, list_empty}
use s_kernel.Kernel.Timers.{start_timeout}
use s_kernel.Kernel.Sched.{schedule}
use s_kernel.Kernel.Threads.{thread_suspend, thread_resume}

-- `SK_IPC_FLAG_FIFO` and `SK_IPC_FLAG_PRIO`
abbrev pub flag_fifo : ℕ
flag_fifo = 0

abbrev pub flag_prio : ℕ
flag_prio = 1

-- The loop of the priority case: in front of the first thread of lower priority, else at the end.
abbrev pub insert_by_priority : (ℕ → ℕ) → ℕ → List ℕ → List ℕ
insert_by_priority pri t [] = t ∷ []
insert_by_priority pri t (x ∷ xs) =
    if ltb (pri t) (pri x) then t ∷ x ∷ xs else x ∷ insert_by_priority pri t xs

-- `__ipc_list_suspend`; the result of `sk_thread_suspend` is not looked at.
unfoldable pub list_suspend : Queue → ℕ → ℕ → Kernel → Kernel
list_suspend q t flag k =
    let k' = (thread_suspend t k).1 in
    let pri = λ (u : ℕ). (k'.thread u).current_pri in
    if flag == flag_fifo
    then list_add_tail q t k'
    else if flag == flag_prio
    then record k' {
      queue = λ r. if same_queue q r then insert_by_priority pri t (k'.queue r) else k'.queue r;
    }
    else k'

-- The first thread of a list that is not empty is resumed.
unfoldable pub resume_first : Queue → Kernel → Kernel
resume_first q k = (thread_resume (get_or (k.queue q) 0 null) k).1

-- `__ipc_list_resume_all`, for at most so many rounds.
unfoldable pub resume_rounds : ℕ → Queue → Kernel → Kernel
resume_rounds zero q k = k
resume_rounds (suc n) q k =
    let rest = resume_rounds n q (resume_first q k) in if list_empty (k.queue q) then k else rest

unfoldable pub resume_all : Queue → Kernel → Kernel
resume_all q k = resume_rounds (length (k.queue q)) q k

-- `time == 0`
abbrev pub is_zero : ℤ → Bool
is_zero (pos n) = n == 0
is_zero (negsuc n) = false

-- What every blocking call does with the current thread: it is suspended in a list, its timer is
-- started for a positive time-out, and the processor is given away.
unfoldable pub block : Queue → ℕ → ℤ → Kernel → Kernel
block q flag time k = schedule (start_timeout k.current time (list_suspend q k.current flag k))

-- Whether a call has returned, or its thread waits and will go on later.
pub data Progress : Type 0 where
  returned : Err → Progress
  waits : Progress

-- The threads that wait at an object for a message: the first one is resumed.
unfoldable pub notify : ℕ → Kernel → Kernel
notify self k =
    if list_empty (k.queue (waiters self)) then k else schedule (resume_first (waiters self) k)
