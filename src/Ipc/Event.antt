-- ===== src/Ipc/Event.antt =====
-- ipc/event.c. A receiver that blocks is two steps: up to its `sk_schedule`, and `recv_finish` when
-- its thread runs again.
pub mod Noted
pub mod Sending
pub mod Receiving
use s_kernel.Common.{
  ltb, ℕ, Bool, false, not, ◌&&◌, ◌||◌, Option, none, some, if◌then◌else◌, get_or, Err, ℤ, Bits,
  zero_bits, and_bits, or_bits, clear_bits, nonzero, equal_bits,
}
use s_kernel.Kernel.{Kernel, EventInfo, null, waiters, set_thread, list_empty}
use s_kernel.Kernel.Sched.{schedule}
use s_kernel.Ipc.Base.{Progress, returned, waits, is_zero, block, resume_first, resume_all}

-- `struct sk_event`; `self` names its list `suspend_thread`.
pub record Event : Type 0 where
  pub self : ℕ
  pub flag : ℕ
  pub set : Bits

-- `sk_event_init`, less the object's name.
unfoldable pub init : ℕ → ℕ → Event
init self flag = record { self = self; flag = flag; set = zero_bits }

-- `sk_event_create`: `object` says whether `sk_object_alloc` succeeds; `none` is SK_NULL.
unfoldable pub create : Bool → ℕ → ℕ → Option Event
unfolding init
create object self flag = if object then some (init self flag) else none

-- `sk_event_destroy`, less the release of the object.
unfoldable pub destroy : Event → Kernel → Kernel
destroy event k = resume_all (waiters event.self) k

-- `thread->event_set = set; thread->event_info = info`
abbrev pub note : ℕ → Bits → EventInfo → Kernel → Kernel
note t set info k = set_thread t (record (k.thread t) { event_set = set; event_info = info }) k

-- The first waiting thread has its event: it is resumed, and may clear what it waited for.
unfoldable pub deliver : Event → ℕ → Kernel → Err × Event × Kernel
deliver event t k =
    let th = k.thread t in
    let cleared = record event { set = clear_bits event.set th.event_set } in
    (
      Err.eok,
      if th.event_info.flag_clear then cleared else event,
      schedule (resume_first (waiters event.self) k),
    )

-- The conversion of a word to a `sk_uint16_t`.
abbrev pub half_word : Bits → Bits
half_word set i = ltb i 16 && set i

-- `sk_event_send`, whose `set` is a `sk_uint16_t`. `need_schedule` is the value that the variable of
-- this name happens to have: the code sets it only where it resumes a thread.
unfoldable pub send : Bool → Event → Bits → Kernel → Err × Event × Kernel
unfolding deliver
send need_schedule event sent k =
    let set = half_word sent in
    let event' = record event { set = or_bits event.set set } in
    let t = get_or (k.queue (waiters event.self)) 0 null in
    let th = k.thread t in
    let hit = and_bits th.event_set event'.set in
    let missed : Err × Event × Kernel =
      (Err.eok, event', if need_schedule then schedule k else k) in
    if not (nonzero set)
    then (Err.error, event, k)
    else if list_empty (k.queue (waiters event.self))
    then missed
    else if th.event_info.flag_and
    then (if equal_bits hit th.event_set then deliver event' t k else missed)
    else if th.event_info.flag_or
    then (if nonzero hit then deliver event' t (note t hit th.event_info k) else missed)
    else (Err.einval, event', k)

-- `sk_event_recv` by the current thread; what it stores through `recved`, if it has returned.
unfoldable pub recv :
    Event → Bits → EventInfo → ℤ → Kernel → Progress × Option Bits × Event × Kernel
recv event set option timeout k =
    let t = k.current in
    let hit = and_bits event.set set in
    let cleared = record event { set = clear_bits event.set set } in
    if not (nonzero set)
    then (returned Err.error, none, event, k)
    else if not (option.flag_and || option.flag_or)
    then (returned Err.einval, none, event, k)
    else if (if option.flag_and then equal_bits hit set else nonzero hit)
    then (
      returned Err.eok,
      some hit,
      if option.flag_clear then cleared else event,
      note t hit option k,
    )
    else if is_zero timeout
    then (returned Err.etimeout, none, event, k)
    else (waits, none, event, block (waiters event.self) event.flag timeout (note t set option k))

-- `sk_event_recv` after its `sk_schedule`.
unfoldable pub recv_finish : Kernel → Err × Bits
recv_finish k = (Err.eok, (k.thread k.current).event_set)
