-- ===== src/Kernel/Timers.antt =====
-- init/sys_tick.c: the timer list.
use s_kernel.Common.{
  ℕ, ◌+◌, ◌%◌, ◌^◌, ◌==◌, Bool, true, false, Option, none, some, [], ◌∷◌, if◌then◌else◌, remove,
  Err, ℤ, pos, negsuc,
}
use s_kernel.Kernel.{Kernel, Timer, Callback, update}

abbrev set_timer : ℕ → Timer → Kernel → Kernel
set_timer t tm k = record k { timer = update k.timer t tm }

-- `__timer_remove`
abbrev pub timer_remove : ℕ → Kernel → Kernel
timer_remove t k = record k { timers = remove t k.timers }

-- `sk_system_timer_init`
unfoldable pub system_timer_init : Kernel → Kernel
system_timer_init k = record k { timers = [] }

-- `__timer_init`, as `sk_timer_init` calls it on a new timer, whose node is in no list.
unfoldable pub timer_init : ℕ → Callback → ℕ → Bool → Kernel → Kernel
timer_init t timeout tick periodic k =
    set_timer t
      (record {
        active = false;
        periodic = periodic;
        init_tick = tick;
        timeout_tick = 0;
        callback = timeout;
      })
      k

-- `sk_timer_start`: the timer goes to the head of the list; tick counts have 32 bits.
unfoldable pub timer_start : ℕ → Kernel → Kernel
timer_start t k =
    let tm = k.timer t in
    record (timer_remove t k) {
      timer =
          update k.timer t
            (record tm { timeout_tick = (k.tick + tm.init_tick) % 2 ^ 32; active = true });
      timers = t ∷ remove t k.timers;
    }

-- `sk_timer_stop`
unfoldable pub timer_stop : ℕ → Kernel → Err × Kernel
timer_stop t k =
    if (k.timer t).active
    then (
      Err.eok,
      timer_remove t
          (record k { timer = update k.timer t (record (k.timer t) { active = false }) }),
    )
    else (Err.error, k)

-- `sk_timer_delete`, less the release of the object that `sk_object_delete` makes.
unfoldable pub timer_delete : ℕ → Kernel → Kernel
timer_delete t k = record (timer_remove t k) {
  timer = update k.timer t (record (k.timer t) { active = false });
}

-- The commands of `sk_timer_control`.
pub data Control : Type 0 where
  get_time : Control
  set_time : ℕ → Control
  set_onshot : Control
  set_periodic : Control
  get_state : Control

-- `sk_timer_control`; what it stores through `arg`, if it stores there.
unfoldable pub timer_control : ℕ → Control → Kernel → Option ℕ × Kernel
timer_control t get_time k = (some (k.timer t).init_tick, k)
timer_control t (set_time n) k =
    (none, record k { timer = update k.timer t (record (k.timer t) { init_tick = n }) })
timer_control t set_onshot k =
    (none, record k { timer = update k.timer t (record (k.timer t) { periodic = false }) })
timer_control t set_periodic k =
    (none, record k { timer = update k.timer t (record (k.timer t) { periodic = true }) })
timer_control t get_state k = (some (if (k.timer t).active then 1 else 0), k)

-- What a blocking call does with its `sk_int32_t` timeout: a positive one starts the timer of the
-- thread, a negative one waits for ever.
unfoldable pub start_timeout : ℕ → ℤ → Kernel → Kernel
unfolding timer_control timer_start
start_timeout t (pos n) k = if n == 0 then k else timer_start t (timer_control t (set_time n) k).1
start_timeout t (negsuc n) k = k
