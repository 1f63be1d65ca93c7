-- ===== src/Kernel/Sched.antt =====
-- thread/schedule.c: the ready lists, the ready group and the choice of the next thread.
use s_kernel.Common.{
  ℕ, ◌-◌, false, ◌&&◌, ◌||◌, ◌==◌, leb, if◌then◌else◌, get_or, zero_bits, or_bits, clear_bits, ffs,
  nonzero, [],
}
use s_kernel.Kernel.{
  Kernel, Phase, ready_at, null, set_thread, set_stat, stat_is, list_del, list_add_tail, list_empty,
}

-- `__schedule_get_hp_thread`: the head of the list of the highest priority in the group, and that
-- priority.
unfoldable pub get_hp_thread : Kernel → ℕ × ℕ
get_hp_thread k =
    let ready_prio = ffs k.group - 1 in (get_or (k.queue (ready_at ready_prio)) 0 null, ready_prio)

-- `sk_schedule_remove_thread`
unfoldable pub remove_thread : ℕ → Kernel → Kernel
remove_thread t k =
    let th = k.thread t in
    record (list_del t k) {
      group =
          if list_empty ((list_del t k).queue (ready_at th.current_pri))
          then clear_bits k.group th.number_mask
          else k.group;
    }

-- The thread becomes ready, at the end of the list of its priority.
unfoldable pub enqueue : ℕ → Kernel → Kernel
enqueue t k =
    let th = k.thread t in
    record (list_add_tail (ready_at th.current_pri) t (set_stat t Phase.ready k)) {
      group = or_bits k.group th.number_mask;
    }

-- `sk_schedule_insert_thread`
unfoldable pub insert_thread : ℕ → Kernel → Kernel
insert_thread t k = if t == k.current then set_stat t Phase.running k else enqueue t k

-- `sk_system_scheduler_init`: every list head of the table is initialised.
unfoldable pub scheduler_init : Kernel → Kernel
scheduler_init k = record k {
  queue = λ q. elim q [ ready_at p ↦ [] | other ↦ k.queue other ];
  group = zero_bits;
}

-- `current_thread->stat &= ~SK_THREAD_YIELD`
abbrev pub clear_yield : ℕ → Kernel → Kernel
clear_yield t k = set_thread t (record (k.thread t) { yielded = false }) k

-- The switch of `sk_schedule` from the current thread to another; the processor's registers are
-- saved and loaded by `hw_context_switch` and are no part of the state.
unfoldable pub switch_to : ℕ → Kernel → Kernel
switch_to to_thread k =
    let from_thread = k.current in
    let k₁ = record k { current = to_thread } in
    let from = k₁.thread from_thread in
    let k₂ =
      if stat_is from Phase.suspend || stat_is from Phase.close
      then k₁
      else insert_thread from_thread k₁ in
    set_stat to_thread Phase.running (remove_thread to_thread (clear_yield to_thread k₂))

-- `sk_schedule`
unfoldable pub schedule : Kernel → Kernel
schedule k =
    let (hp, ready_hp_prio) = get_hp_thread k in
    let cur = k.thread k.current in
    let to_thread =
      if stat_is cur Phase.running && leb cur.current_pri ready_hp_prio then k.current else hp in
    if nonzero k.group then (if k.current == to_thread then k else switch_to to_thread k) else k

-- `sk_system_scheduler_start`
unfoldable pub scheduler_start : Kernel → Kernel
scheduler_start k =
    let (to_thread, prio) = get_hp_thread k in
    set_stat to_thread Phase.running (remove_thread to_thread (record k { current = to_thread }))
