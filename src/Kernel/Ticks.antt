-- ===== src/Kernel/Ticks.antt =====
-- init/sys_tick.c: what the timer interrupt does, `sk_tick_increase` and `sk_timer_check`. `call_external`
-- is what the functions of timers do that are not timers of threads.
pub mod Walk
pub mod Due
pub mod Slice
use s_kernel.Common.{
  ℕ, zero, suc, ◌+◌, ◌-◌, ◌%◌, ◌^◌, Bool, true, false, not, ◌&&◌, ◌||◌, List, [], ◌∷◌, get_or,
  member, length, leb, ◌==◌, if◌then◌else◌,
}
use s_kernel.Kernel.{Kernel, Timer, Callback, thread_timeout, external, null, update, set_thread}
use s_kernel.Kernel.Sched.{schedule}
use s_kernel.Kernel.Timers.{timer_start}
use s_kernel.Kernel.Threads.{on_timeout}

-- `list_1->next`, where `list_1` is in the list; SK_NULL stands for the head.
abbrev pub next_in : ℕ → List ℕ → ℕ
next_in t [] = null
next_in t (x ∷ xs) = if x == t then get_or xs 0 null else next_in t xs

-- `list_1->next == list_1->prev`: the node is in no list, or it is the only one.
abbrev pub is_alone : ℕ → List ℕ → Bool
is_alone t xs = not (member t xs) || (length xs == 1)

-- `sk_tick_increase` up to the check of the timers; a time slice has 64 bits.
unfoldable pub count_tick : Kernel → Kernel
count_tick k =
    let th = k.thread k.current in
    let left = (th.remain_tick + 2 ^ 64 - 1) % 2 ^ 64 in
    let ticked = record k { tick = (k.tick + 1) % 2 ^ 32 } in
    if left == 0
    then schedule
        (set_thread k.current (record th { remain_tick = th.init_tick; yielded = true }) ticked)
    else set_thread k.current (record th { remain_tick = left }) ticked

module _ (call_external : ℕ → ℕ → Kernel → Kernel) where
  -- `timer->timeout_func(timer->param)`
  unfoldable pub run_callback : Callback → Kernel → Kernel
  run_callback (thread_timeout t) k = on_timeout t k
  run_callback (external f param) k = call_external f param k

  -- The timeout of the timer `t`, if it is active.
  unfoldable pub expire : ℕ → Kernel → Kernel
  unfolding run_callback
  expire t k = if (k.timer t).active then run_callback (k.timer t).callback k else k

  -- The timer starts again if it is periodic, and is not active any more otherwise.
  unfoldable pub restart : ℕ → Kernel → Kernel
  restart t k =
      let tm = k.timer t in
      if tm.periodic
      then timer_start t k
      else record k { timer = update k.timer t (record tm { active = false }) }

  -- The loop of `sk_timer_check` from the node of the timer `t` on.
  unfoldable pub check_from : ℕ → ℕ → Kernel → Kernel
  unfolding expire restart
  check_from zero t k = k
  check_from (suc fuel) t k =
      let due = leb (k.timer t).timeout_tick k.tick in
      let k' = if due then restart t (expire t k) else k in
      let rest = check_from fuel (next_in t k'.timers) k' in
      if t == null then k else if due && is_alone t (expire t k).timers then expire t k else rest

  -- `sk_timer_check`
  unfoldable pub timer_check : ℕ → Kernel → Kernel
  unfolding check_from
  timer_check fuel k = check_from fuel (get_or k.timers 0 null) k

  -- `sk_tick_increase`
  unfoldable pub tick_increase : ℕ → Kernel → Kernel
  unfolding count_tick timer_check
  tick_increase fuel k = timer_check fuel (count_tick k)
