-- ===== src/Kernel.antt =====
-- The state that the scheduler, the timers and the communication objects share
-- (include/kernel/sched.h, include/kernel/timer.h, thread/schedule.c, init/sys_tick.c), and the
-- operations of include/kernel/klist.h on it.
--
-- A pointer to a thread is a number, `null` is 0. The node `tlist` of a thread stands in at most one
-- list, and a list is the threads whose nodes are in it, head first: `Klist` has the pointers.
-- The code between `hw_interrupt_disable` and `hw_interrupt_enable` is one step of the model, so the
-- interrupt level itself is no part of the state.
pub mod Timers
pub mod Sched
pub mod Threads
pub mod Ticks
pub mod Stack
pub mod Creating
pub mod Inv
pub mod Highest
pub mod Switch
pub mod Choice
pub mod Blocking
pub mod Callbacks
pub mod Starting
use s_kernel.Common.{
  ℕ, Bool, true, false, ◌&&◌, not, List, [], ◌∷◌, ◌++◌, ◌==◌, if◌then◌else◌, remove, Bits, ℤ,
}

abbrev pub null : ℕ
null = 0

-- `SK_THREAD_INIT`, `_READY`, `_SUSPEND`, `_RUNNING`, `_CLOSE`.
pub data Phase : Type 0 where
  fresh ready suspend running close : Phase

abbrev pub same_phase : Phase → Phase → Bool
same_phase Phase.fresh Phase.fresh = true
same_phase Phase.ready Phase.ready = true
same_phase Phase.suspend Phase.suspend = true
same_phase Phase.running Phase.running = true
same_phase Phase.close Phase.close = true
same_phase _ _ = false

-- The option bits of an event: `SK_EVENT_FLAG_AND`, `_OR`, `_CLEAR`.
pub record EventInfo : Type 0 where
  pub flag_and : Bool
  pub flag_or : Bool
  pub flag_clear : Bool

-- `struct sk_thread`. The byte `stat` is a phase and the bit `SK_THREAD_YIELD`: a store of a phase
-- clears the bit. `priority` is `current_pri`.
pub record Thread : Type 0 where
  pub phase : Phase
  pub yielded : Bool
  pub current_pri : ℕ
  pub init_pri : ℕ
  pub number_mask : Bits
  pub init_tick : ℕ
  pub remain_tick : ℕ
  pub event_set : Bits
  pub event_info : EventInfo

-- `timeout_func` with its `param`: `sk_thread_timeout` of a thread, or another function.
pub data Callback : Type 0 where
  thread_timeout : ℕ → Callback
  external : ℕ → ℕ → Callback

-- `struct sk_sys_timer`; the flag bits `SK_TIMER_FLAG_ACTIVE` and `SK_TIMER_FLAG_PERIODIC`.
pub record Timer : Type 0 where
  pub active : Bool
  pub periodic : Bool
  pub init_tick : ℕ
  pub timeout_tick : ℕ
  pub callback : Callback

-- The heads of the lists that a `tlist` can be in: `sk_thread_prio_table[p]`, the `suspend_thread`
-- and the `suspend_sender_thread` of a communication object.
pub data Queue : Type 0 where
  ready_at : ℕ → Queue
  waiters : ℕ → Queue
  senders : ℕ → Queue

abbrev pub same_queue : Queue → Queue → Bool
same_queue (ready_at p) (ready_at q) = p == q
same_queue (waiters a) (waiters b) = a == b
same_queue (senders a) (senders b) = a == b
same_queue _ _ = false

-- `current_thread`, `sk_thread_ready_prio_group`, `sk_tick`, `__timer_list`; the timer at the
-- number of a thread is its `thread_timer`, timers of their own have other numbers.
pub record Kernel : Type 0 where
  pub thread : ℕ → Thread
  pub queue : Queue → List ℕ
  pub group : Bits
  pub current : ℕ
  pub timer : ℕ → Timer
  pub timers : List ℕ
  pub tick : ℕ

abbrev pub update {ℓ} : {A : Type ℓ} → (ℕ → A) → ℕ → A → ℕ → A
update f t v u = if t == u then v else f u

abbrev pub set_thread : ℕ → Thread → Kernel → Kernel
set_thread t th k = record k { thread = update k.thread t th }

-- `thread->stat = p`
abbrev pub set_stat : ℕ → Phase → Kernel → Kernel
set_stat t p k = set_thread t (record (k.thread t) { phase = p; yielded = false }) k

-- `thread->stat == p`
abbrev pub stat_is : Thread → Phase → Bool
stat_is th p = same_phase th.phase p && not th.yielded

-- `sk_list_del(&thread->tlist)`: the node leaves the list that it is in.
abbrev pub list_del : ℕ → Kernel → Kernel
list_del t k = record k { queue = λ q. remove t (k.queue q) }

-- `sk_list_add_tail(head, &thread->tlist)`
abbrev pub list_add_tail : Queue → ℕ → Kernel → Kernel
list_add_tail r t k = record k {
  queue = λ q. if same_queue r q then k.queue q ++ (t ∷ []) else k.queue q;
}

-- `sk_list_empty`
abbrev pub list_empty : List ℕ → Bool
list_empty [] = true
list_empty (x ∷ xs) = false
