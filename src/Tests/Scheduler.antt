-- ===== src/Tests/Scheduler.antt =====
-- The scheduler at concrete inputs.
use s_kernel.Common.{
  ℕ, ◌<◌, ◌≤◌, ◌≡◌, refl, arith, true, false, ◌||◌, ◌==◌, member, nonzero_from, ffs, value_from,
  ffs-eq-first_from, first_from, width, Bits,
}
use s_kernel.Kernel.{Kernel, ready_at}
use s_kernel.Kernel.Sched.{get_hp_thread, schedule, switch_to, enqueue, remove_thread}
use s_kernel.Kernel.Threads.{thread_suspend}
use s_kernel.Kernel.Timers.{timer_stop}
use s_kernel.Kernel.Switch.{IsWellFormed}
use s_kernel.Kernel.Choice.{schedule-IsWellFormed, schedule_highest}
use s_kernel.Kernel.Blocking.{thread_suspend-IsWellFormed}
use s_kernel.Tests.Samples.{sample, sample-IsWellFormed}

-- Thread 1 has suspended itself and is about to give the processor away.
abbrev leaving : Kernel
unfolding thread_suspend timer_stop
leaving = (thread_suspend 1 (sample false true)).1

leaving-IsWellFormed : IsWellFormed leaving
unfolding leaving thread_suspend
leaving-IsWellFormed = thread_suspend-IsWellFormed 1 (sample-IsWellFormed false true)

next_leaving : (schedule leaving).current ≡ 2
unfolding schedule switch_to get_hp_thread enqueue remove_thread nonzero_from leaving ffs value_from
next_leaving = refl

schedule-IsWellFormed_example : IsWellFormed (schedule leaving)
schedule-IsWellFormed_example = schedule-IsWellFormed leaving-IsWellFormed

schedule_highest_example : ((schedule leaving).thread (schedule leaving).current).current_pri ≤ 7
unfolding schedule switch_to get_hp_thread enqueue remove_thread nonzero_from leaving ffs value_from
schedule_highest_example = schedule_highest leaving-IsWellFormed (λ h. absurd (cc h)) 3 7 refl

sample_best : (t p : ℕ) → member t ((sample true true).queue (ready_at p)) ≡ true → 5 ≤ p
sample_best t p h = ground arith

sample_worse : (t p : ℕ) → member t ((sample true false).queue (ready_at p)) ≡ true → 5 < p
sample_worse t p h = ground arith

-- The word 0x10100.
abbrev two_set : Bits
two_set i = (i == 8) || (i == 16)

ffs-eq-first_from_example : ffs two_set ≡ first_from width 0 two_set
ffs-eq-first_from_example = ffs-eq-first_from two_set
