-- ===== src/Kernel/Threads.antt =====
-- thread/thread.c: suspension, resumption, sleep and time-out of threads.
use s_kernel.Common.{
  ℕ, Option, none, some, ◌+◌, ◌*◌, ◌/◌, ◌%◌, ◌^◌, false, not, ◌&&◌, ◌||◌, ◌==◌, if◌then◌else◌, Err,
  bit,
}
use s_kernel.Kernel.{
  Kernel, Phase, thread_timeout, null, same_phase, set_thread, set_stat, stat_is, list_del,
}
use s_kernel.Kernel.Timers.{
  timer_init, timer_start, timer_stop, timer_delete, timer_control, set_time,
}
use s_kernel.Kernel.Sched.{insert_thread, remove_thread, schedule}

-- `sk_thread_suspend`; the test is on the phase, `stat & SK_THREAD_MASK`.
unfoldable pub thread_suspend : ℕ → Kernel → Err × Kernel
thread_suspend t k =
    let phase = (k.thread t).phase in
    if same_phase phase Phase.ready || same_phase phase Phase.running
    then (Err.eok, (timer_stop t (set_stat t Phase.suspend (remove_thread t k))).1)
    else (Err.error, k)

-- `sk_thead_suspend`, which refuses to suspend the current thread.
unfoldable pub thead_suspend : ℕ → Kernel → Err × Kernel
thead_suspend t k =
    let th = k.thread t in
    if not (stat_is th Phase.ready || stat_is th Phase.running)
    then (Err.error, k)
    else if stat_is th Phase.running && (t == k.current)
    then (Err.error, k)
    else (Err.eok, set_stat t Phase.suspend (remove_thread t k))

-- `sk_thread_resume`
unfoldable pub thread_resume : ℕ → Kernel → Err × Kernel
thread_resume t k =
    if stat_is (k.thread t) Phase.suspend
    then (Err.eok, insert_thread t (list_del t k))
    else (Err.error, k)

-- `sk_thread_timeout`, the callback of a thread's timer.
unfoldable pub on_timeout : ℕ → Kernel → Kernel
on_timeout t k = schedule (insert_thread t (list_del t k))

-- `sk_thread_startup`; `none`: the code writes through SK_NULL.
unfoldable pub thread_startup : ℕ → Kernel → Option Kernel
thread_startup t k =
    let k' = set_stat t Phase.suspend k in
    if t == null then none else some (if k'.current == null then k' else schedule k')

-- `__thread_init`, less the name, the entry point and the stack. The thread is new: `sk_list_init`
-- of its node changes no list.
unfoldable pub thread_init : ℕ → ℕ → ℕ → Kernel → Kernel
thread_init t priority tick k =
    let th = record (k.thread t) {
      phase = Phase.fresh;
      yielded = false;
      current_pri = priority;
      init_pri = priority;
      number_mask = bit priority;
      init_tick = tick;
      remain_tick = tick;
    } in
    insert_thread t (set_thread t th (timer_init t (thread_timeout t) 0 false k))

-- `__thread_exit`, less the call of the thread's `cleanup`.
unfoldable pub thread_exit : Kernel → Kernel
thread_exit k =
    let t = k.current in schedule (timer_delete t (set_stat t Phase.close (remove_thread t k)))

-- `sk_thread_sleep`
unfoldable pub thread_sleep : ℕ → Kernel → Kernel
thread_sleep tick k =
    let t = k.current in
    schedule (timer_start t (timer_control t (set_time tick) (thread_suspend t k).1).1)

abbrev pub tick_per_second : ℕ
tick_per_second = 1000

-- `sk_tick_from_ms`
unfoldable pub tick_from_ms : ℕ → ℕ
tick_from_ms ms =
    (tick_per_second * (ms / 1000) + (tick_per_second * (ms % 1000) + 999) / 1000) % 2 ^ 32

-- `sk_thread_delay`
unfoldable pub thread_delay : ℕ → Kernel → Kernel
thread_delay ms k = thread_sleep (tick_from_ms ms) k
