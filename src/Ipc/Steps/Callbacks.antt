-- ===== src/Ipc/Steps/Callbacks.antt =====
-- The calls of ipc/ leave what the timers call as it was.
use s_kernel.Common.{ℕ, ◌==◌, ℤ}
use s_kernel.Kernel.{Kernel, Queue}
use s_kernel.Kernel.Callbacks.{
  SameCallbacks, unchanged, in_turn, either_way, schedule-SameCallbacks,
  start_timeout-SameCallbacks, thread_suspend-SameCallbacks,
}
use s_kernel.Ipc.Base.{flag_fifo, flag_prio, list_suspend, block}

list_suspend-SameCallbacks :
    (q : Queue) (t flag : ℕ) (k : Kernel) → SameCallbacks k (list_suspend q t flag k)
unfolding list_suspend
list_suspend-SameCallbacks q t flag k =
    let same = thread_suspend-SameCallbacks t k in
    either_way (flag == flag_fifo) (unchanged same.same)
      (either_way (flag == flag_prio) (unchanged same.same) same)

pub block-SameCallbacks :
    (q : Queue) (flag : ℕ) (time : ℤ) (k : Kernel) → SameCallbacks k (block q flag time k)
unfolding block
block-SameCallbacks q flag time k =
    in_turn (list_suspend-SameCallbacks q k.current flag k)
      (in_turn (start_timeout-SameCallbacks k.current time _) (schedule-SameCallbacks _))
