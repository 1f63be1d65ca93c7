-- ===== src/Ipc/Completion.antt =====
-- common/completion.c. `none` as the result is a function that ends without a value.
use s_kernel.Common.{
  ℕ, ◌==◌, ◌≡◌, ◌≢◌, arith, true, false, not, Option, none, some, if◌then◌else◌, Err, ℤ, [],
  ==_self,
}
use s_kernel.Kernel.{Kernel, Phase, waiters, same_queue, stat_is, list_add_tail}
use s_kernel.Kernel.Threads.{thead_suspend}
use s_kernel.Ipc.Base.{is_zero}

-- `struct sk_completion`; `self` names its list `suspend_list`.
pub record Completion : Type 0 where
  pub self : ℕ
  pub flag : ℕ

-- SK_COMPLETION and SK_UNCOMPLETION
abbrev pub completed : ℕ
completed = 1

abbrev pub uncompleted : ℕ
uncompleted = 0

-- `sk_completion_init`: the flag, and the empty list.
unfoldable pub init : ℕ → Kernel → Completion × Kernel
init self k = (
  record { self = self; flag = uncompleted },
  record k { queue = λ q. if same_queue (waiters self) q then [] else k.queue q },
)

-- `sk_completion_wait` by the current thread; the result of `sk_thead_suspend` is not looked at.
unfoldable pub wait : Completion → ℤ → Kernel → Option Err × Kernel
wait cpt timeout k =
    let suspended = (thead_suspend k.current k).1 in
    if not (cpt.flag == completed)
    then (if is_zero timeout
        then (some Err.etimeout, k)
        else (none, list_add_tail (waiters cpt.self) k.current suspended))
    else (none, k)

-- The wait does not wait: `sk_thead_suspend` refuses the running thread, so that it goes on as the
-- current one, in the state that it had, although its node stands in the list of the completion.
pub wait_goes_on :
    (cpt : Completion) (timeout : ℤ) (k : Kernel)
    → cpt.flag ≢ completed
    → is_zero timeout ≡ false
    → stat_is (k.thread k.current) Phase.running ≡ true
    → wait cpt timeout k ≡ (none, list_add_tail (waiters cpt.self) k.current k)
unfolding wait thead_suspend
wait_goes_on cpt timeout k open_flag some_time runs = ground (arith, ==_self k.current)
