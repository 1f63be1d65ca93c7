-- ===== src/Ipc/Steps/Ticking.antt =====
-- The timer interrupt keeps the lists and the states of threads in step, whichever timers are due.
use s_kernel.Common.{
  ℕ, ==_true, ◌+◌, ◌-◌, ◌%◌, ◌^◌, zero, suc, ◌≡◌, ◌≢◌, refl, arith, Bool, true, false, ◌&&◌, ◌==◌,
  leb,
}
use s_kernel.Kernel.{Kernel, Phase, Callback, thread_timeout, external, null, update}
use s_kernel.Kernel.Timers.{timer_start}
use s_kernel.Kernel.Threads.{on_timeout}
use s_kernel.Kernel.Blocking.{SameLists}
use s_kernel.Kernel.Callbacks.{
  unchanged, in_turn, schedule-SameCallbacks, on_timeout-SameCallbacks, timer_start-SameCallbacks,
}
use s_kernel.Kernel.Ticks.{
  run_callback, expire, restart, check_from, timer_check, count_tick, tick_increase, is_alone,
}
use s_kernel.Kernel.Ticks.Slice.{counted, counted-IsWellFormed}
use s_kernel.Ipc.Parked.{IsSound, schedule-IsSound}
use s_kernel.Ipc.Steps.{IsTimed}
use s_kernel.Ipc.Steps.Waits.{same-IsTimed, either-IsTimed}
use s_kernel.Ipc.Steps.Threads.{SameLists-IsSound, requeue-IsSound}

pub timer_start-IsTimed : {k : Kernel} (t : ℕ) → IsTimed k → IsTimed (timer_start t k)
unfolding timer_start
timer_start-IsTimed {k} t v =
    same-IsTimed v (timer_start-SameCallbacks t k) (SameLists-IsSound started v.sound)
  where
    started : SameLists k (timer_start t k)
    started = record {
      same_thread = λ u. refl;
      same_queues = λ q. refl;
      same_group = λ p. refl;
      same_current = refl;
    }

on_timeout-IsTimed : {k : Kernel} (t : ℕ) → t ≢ null → IsTimed k → IsTimed (on_timeout t k)
unfolding on_timeout
on_timeout-IsTimed {k} t ne v =
    same-IsTimed v (on_timeout-SameCallbacks t k) (schedule-IsSound (requeue-IsSound t ne v.sound))

counted-IsSound :
    {k : Kernel} (remain_tick : ℕ) (yielded : Bool)
    → (k.thread k.current).phase ≡ Phase.running
    → IsSound k
    → IsSound (counted remain_tick yielded k)
counted-IsSound {k} remain_tick yielded run s = record {
  well_formed = counted-IsWellFormed remain_tick yielded run s.well_formed;
  parked = λ q u nr m. ground (arith, s.parked q u nr, ==_true k.current u);
}

count_tick-IsTimed :
    {k : Kernel} → (k.thread k.current).phase ≡ Phase.running → IsTimed k → IsTimed (count_tick k)
unfolding count_tick
count_tick-IsTimed {k} run v =
    let th = k.thread k.current in
    let left = (th.remain_tick + 2 ^ 64 - 1) % 2 ^ 64 in
    either-IsTimed (left == 0)
      (same-IsTimed v (in_turn (unchanged (λ u. refl)) (schedule-SameCallbacks _))
        (schedule-IsSound (counted-IsSound th.init_tick true run v.sound)))
      (same-IsTimed v (unchanged (λ u. refl)) (counted-IsSound left th.yielded run v.sound))

module _ (call_external : ℕ → ℕ → Kernel → Kernel)
    (kept : (f param : ℕ) (k : Kernel) → IsTimed k → IsTimed (call_external f param k)) where
  run_callback-IsTimed :
      {k : Kernel} (t : ℕ) → IsTimed k → IsTimed (run_callback call_external (k.timer t).callback k)
  unfolding run_callback
  run_callback-IsTimed {k} t v = go (k.timer t).callback refl
    where
      go : (c : Callback) → (k.timer t).callback ≡ c → IsTimed (run_callback call_external c k)
      go (thread_timeout u) e = on_timeout-IsTimed u (v.named t u e) v
      go (external f param) e = kept f param k v

  expire-IsTimed : {k : Kernel} (t : ℕ) → IsTimed k → IsTimed (expire call_external t k)
  unfolding expire
  expire-IsTimed {k} t v = either-IsTimed (k.timer t).active (run_callback-IsTimed t v) v

  restart-IsTimed : {k : Kernel} (t : ℕ) → IsTimed k → IsTimed (restart call_external t k)
  unfolding restart
  restart-IsTimed {k} t v =
      either-IsTimed (k.timer t).periodic (timer_start-IsTimed t v)
        (same-IsTimed v (unchanged (λ u. ground arith)) (SameLists-IsSound stopped v.sound))
    where
      stopped :
          SameLists k
            (record k { timer = update k.timer t (record (k.timer t) { active = false }) })
      stopped = record {
        same_thread = λ u. refl;
        same_queues = λ q. refl;
        same_group = λ p. refl;
        same_current = refl;
      }

  check_from-IsTimed :
      (fuel t : ℕ) {k : Kernel} → IsTimed k → IsTimed (check_from call_external fuel t k)
  unfolding check_from
  check_from-IsTimed zero t v = v
  check_from-IsTimed (suc fuel) t {k} v =
      let due = leb (k.timer t).timeout_tick k.tick in
      let expired = expire-IsTimed t v in
      either-IsTimed (t == null) v (
        either-IsTimed (due && is_alone t (expire call_external t k).timers) expired
          (check_from-IsTimed fuel _ (either-IsTimed due (restart-IsTimed t expired) v)))

  pub tick_increase-IsTimed :
      {k : Kernel} (fuel : ℕ)
      → (k.thread k.current).phase ≡ Phase.running
      → IsTimed k
      → IsTimed (tick_increase call_external fuel k)
  unfolding tick_increase timer_check
  tick_increase-IsTimed fuel run v = check_from-IsTimed fuel _ (count_tick-IsTimed run v)
