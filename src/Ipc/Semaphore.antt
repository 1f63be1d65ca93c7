-- ===== src/Ipc/Semaphore.antt =====
-- ipc/semaphore.c. A call that blocks ends at its `sk_schedule`: what it returns once the thread runs
-- again is the code given here, as nothing but `return SK_EOK` follows.
pub mod Laws
use s_kernel.Common.{
  ℕ, ◌+◌, ◌-◌, ◌%◌, ◌^◌, Bool, Option, none, some, ltb, ◌==◌, if◌then◌else◌, Err, ℤ, pos, negsuc,
  true, false,
}
use s_kernel.Kernel.{Kernel, Queue, waiters, list_empty}
use s_kernel.Kernel.Sched.{schedule}
use s_kernel.Ipc.Base.{is_zero, block, resume_first, resume_all}

-- `struct sk_sem`; `self` names its list `suspend_thread`.
pub record Sem : Type 0 where
  pub self : ℕ
  pub flag : ℕ
  pub value : ℕ

abbrev pub sem_value_max : ℕ
sem_value_max = 0xFFFF

-- `sk_sem_init`, less the object's name; the value is a `sk_uint16_t`.
unfoldable pub init : ℕ → ℕ → ℕ → Sem
init self value flag = record { self = self; flag = flag; value = value % 2 ^ 16 }

-- `sk_sem_create`: `object` says whether `sk_object_alloc` succeeds; `none` is SK_NULL.
unfoldable pub create : Bool → ℕ → ℕ → ℕ → Option Sem
unfolding init
create object self value flag = if object then some (init self value flag) else none

-- `sk_sem_wait` by the current thread.
unfoldable pub wait : Sem → ℤ → Kernel → Err × Sem × Kernel
wait sem time k =
    if ltb 0 sem.value
    then (Err.eok, record sem { value = sem.value - 1 }, k)
    else if is_zero time
    then (Err.etimeout, sem, k)
    else (Err.eok, sem, block (waiters sem.self) sem.flag time k)

-- `sk_sem_trywait`
unfoldable pub trywait : Sem → Kernel → Err × Sem × Kernel
unfolding wait
trywait sem k = wait sem (pos 0) k

-- `sk_sem_post`
unfoldable pub post : Sem → Kernel → Err × Sem × Kernel
post sem k =
    if list_empty (k.queue (waiters sem.self))
    then (if ltb sem.value sem_value_max
        then (Err.eok, record sem { value = sem.value + 1 }, k)
        else (Err.efull, sem, k))
    else (Err.eok, sem, schedule (resume_first (waiters sem.self) k))

-- `sk_sem_destroy`, less the release of the object.
unfoldable pub destroy : Sem → Kernel → Kernel
destroy sem k = resume_all (waiters sem.self) k
