-- ===== src/Tests/Ticks.antt =====
-- The timer interrupt at concrete inputs.
use s_kernel.Common.{
  ℕ, ◌%◌, ◌^◌, ◌⊎◌, suc, ◌+◌, ◌≡◌, refl, arith, Bool, true, false, ◌==◌, if◌then◌else◌, [], ◌∷◌,
}
use s_kernel.Kernel.{Kernel, Timer, external, ready_at, update}
use s_kernel.Kernel.Ticks.{count_tick, run_callback, timer_check}
use s_kernel.Kernel.Ticks.Due.{timer_check_one}
use s_kernel.Kernel.Ticks.Slice.{count_tick_round_robin}
use s_kernel.Tests.Samples.{sample, sample-IsWellFormed}

abbrev kernel : Kernel
kernel = sample false true

-- The slice of thread 1 ends; thread 2 has the same priority.
count_tick_round_robin_example :
    ((count_tick kernel).current ≡ 2)
    × ((count_tick kernel).queue (ready_at 5) ≡ 1 ∷ [])
    × (((count_tick kernel).thread 1).remain_tick ≡ 10)
count_tick_round_robin_example =
    count_tick_round_robin 2 [] (sample-IsWellFormed false true) refl refl refl
      (λ t p h. ground arith)

abbrev quiet : ℕ → ℕ → Kernel → Kernel
quiet f param k = k

abbrev make_timer : Bool → ℕ → Timer
make_timer periodic timeout_tick = record {
  active = true;
  periodic = periodic;
  init_tick = 5;
  timeout_tick = timeout_tick;
  callback = external 1 2;
}

-- At tick 7 the periodic timer 20 is due, the timer 21 before it is not.
abbrev two_timers : Kernel
two_timers = record kernel {
  tick = 7;
  timers = 21 ∷ 20 ∷ [];
  timer = λ t. if t == 20 then make_timer true 7 else make_timer false 9;
}

timer_check_one_example :
    let k' = run_callback quiet (external 1 2) two_timers in
    let r = timer_check quiet (1 + suc (1 + 0)) two_timers in
    ((true ≡ true)
      × (r ≡ record k' {
        timer =
            update two_timers.timer 20
              (record (make_timer true 7) { active = true; timeout_tick = (7 + 5) % 2 ^ 32 });
        timers = 20 ∷ 21 ∷ [];
      }))
    ⊎ ((true ≡ false)
        × (r ≡ record k' {
          timer = update two_timers.timer 20 (record (make_timer true 7) { active = false });
          timers = 21 ∷ 20 ∷ [];
        }))
unfolding run_callback
timer_check_one_example =
    timer_check_one quiet 0 20 (21 ∷ []) [] two_timers refl (refl, (refl, tt)) (omega arith)
      (omega arith, omega arith, tt) tt (omega arith) refl (omega arith) refl refl refl

abbrev one_timer : Kernel
one_timer = record two_timers { timers = 20 ∷ [] }
