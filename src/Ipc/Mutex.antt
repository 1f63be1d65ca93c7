-- ===== src/Ipc/Mutex.antt =====
-- ipc/mutex.c. A call that blocks ends at its `sk_schedule`, as in `Semaphore`.
pub mod Laws
use s_kernel.Common.{
  ℕ, ◌+◌, ◌-◌, ◌%◌, not, Bool, Option, none, some, ltb, ◌==◌, if◌then◌else◌, get_or, Err, ℤ, pos,
}
use s_kernel.Kernel.{Kernel, null, waiters, list_empty}
use s_kernel.Kernel.Sched.{schedule}
use s_kernel.Ipc.Base.{flag_prio, is_zero, block, resume_first, resume_all}

-- `struct sk_mutex`; `self` names its list `suspend_thread`.
pub record Mutex : Type 0 where
  pub self : ℕ
  pub value : ℕ
  pub original_pri : ℕ
  pub hold : ℕ
  pub owner : ℕ

abbrev pub hold_max : ℕ
hold_max = 0xFF

-- `sk_mutex_init`, less the object's name and its flag, which is always `SK_IPC_FLAG_PRIO`.
unfoldable pub init : ℕ → Mutex
init self = record { self = self; value = 1; original_pri = 0xFF; hold = 0; owner = null }

-- `sk_mutex_create`: `object` says whether `sk_object_alloc` succeeds; `none` is SK_NULL.
unfoldable pub create : Bool → ℕ → Option Mutex
unfolding init
create object self = if object then some (init self) else none

-- `sk_mutex_lock` by the current thread.
unfoldable pub lock : Mutex → ℤ → Kernel → Err × Mutex × Kernel
lock m time k =
    let t = k.current in
    let taken = record m {
      value = m.value - 1;
      owner = t;
      original_pri = (k.thread t).current_pri;
    } in
    if m.owner == t
    then (if ltb m.hold hold_max
        then (Err.eok, record m { hold = m.hold + 1 }, k)
        else (Err.efull, m, k))
    else if ltb 0 m.value
    then (if ltb m.hold hold_max
        then (Err.eok, record taken { hold = m.hold + 1 }, k)
        else (Err.efull, taken, k))
    else if is_zero time
    then (Err.etimeout, m, k)
    else (Err.eok, m, block (waiters m.self) flag_prio time k)

-- `sk_mutex_trylock`
unfoldable pub trylock : Mutex → Kernel → Err × Mutex × Kernel
unfolding lock
trylock m k = lock m (pos 0) k

-- `sk_mutex_unlock` by the current thread. `hold` is a `sk_uint8_t`, `value` a `sk_uint16_t`.
unfoldable pub unlock : Mutex → Kernel → Err × Mutex × Kernel
unlock m k =
    let hold = (m.hold + 255) % 256 in
    let heir = get_or (k.queue (waiters m.self)) 0 null in
    if not (k.current == m.owner)
    then (Err.error, m, k)
    else if not (hold == 0)
    then (Err.eok, record m { hold = hold }, k)
    else if list_empty (k.queue (waiters m.self))
    then (
      Err.eok,
      record m { hold = hold; value = (m.value + 1) % 0x10000; owner = null; original_pri = 0xFF },
      k,
    )
    else (
      Err.eok,
      record m {
        hold = (hold + 1) % 256;
        owner = heir;
        original_pri = (k.thread heir).current_pri;
      },
      schedule (resume_first (waiters m.self) k),
    )

-- `sk_mutex_delete`, less the release of the object.
unfoldable pub delete : Mutex → Kernel → Kernel
delete m k = resume_all (waiters m.self) k
