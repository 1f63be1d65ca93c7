-- ===== src/Interrupt/Ticking.antt =====
-- The timer interrupt (init/sys_tick.c) on the table of handlers, and the depth of interrupts (init/irq.c).
-- The registers of the timer are left out, but for the compare value.
use s_kernel.Common.{
  ℕ, ◌+◌, ◌-◌, ◌/◌, ◌%◌, ◌^◌, ◌≡◌, ◌≢◌, arith, some, ◌∷◌, ◌==◌, if◌then◌else◌, Bool, false, not,
  ==_self,
}
use s_kernel.Kernel.{Kernel, null}
use s_kernel.Kernel.Ticks.{tick_increase}
use s_kernel.Interrupt.{
  Gic, interrupt_install, interrupt_umask, trap_irq, cpu_eoi, dist_pending_clear, mask_of,
}

-- `sk_interrupt_enter` and `sk_interrupt_leave` on `interrupt_nest`, a `sk_uint8_t`.
unfoldable pub interrupt_enter : ℕ → ℕ
interrupt_enter nest = (nest + 1) % 2 ^ 8

unfoldable pub interrupt_leave : ℕ → ℕ
interrupt_leave nest = (nest + 2 ^ 8 - 1) % 2 ^ 8

-- `sk_is_in_interrupt`
unfoldable pub is_in_interrupt : ℕ → Bool
is_in_interrupt nest = not (nest == 0)

-- HW_TIMER_VECTOR_NUM
abbrev pub hw_timer_vector_num : ℕ
hw_timer_vector_num = 27

-- `timer_val` and `timer_step`, `sk_uint64_t`, and the state of the kernel.
pub record Clock : Type 0 where
  pub timer_val : ℕ
  pub timer_step : ℕ
  pub kernel : Kernel

-- `isr` is the address of `sk_hw_timer_isr`; the functions of timers that are not timers of threads
-- are `call_external`.
module _ (isr : ℕ) (call_external : ℕ → ℕ → Kernel → Kernel) where
  -- `sk_hw_timer_isr`; `fuel` is for `sk_timer_check`.
  unfoldable pub hw_timer_isr : ℕ → Clock → Clock
  hw_timer_isr fuel c = record c {
    timer_val = (c.timer_val + c.timer_step) % 2 ^ 64;
    kernel = tick_increase call_external fuel c.kernel;
  }

  -- The part of `sk_hw_timer_init` that is not about the registers of the timer, but for the frequency
  -- that it reads.
  unfoldable pub hw_timer_init : ℕ → Clock → Gic → Clock × Gic
  hw_timer_init frequency c g =
      let step = frequency / 1000 in
      (
        record c { timer_val = step; timer_step = step },
        interrupt_umask hw_timer_vector_num (interrupt_install hw_timer_vector_num isr null g).1,
      )

  -- The call of a handler at an address: that of the timer.
  unfoldable pub call_handler : ℕ → ℕ → ℕ → ℕ → Gic × Clock → Gic × Clock
  unfolding hw_timer_isr
  call_handler fuel handler vector param (g, c) =
      if handler == isr then (g, hw_timer_isr fuel c) else (g, c)

  -- After `sk_hw_timer_init`, each interrupt of the timer is a tick of the kernel and moves the
  -- compare value on by one step, after which its pending bit is cleared and its end is reported.
  pub trap_irq-hw_timer_init :
      (fuel frequency : ℕ) (c : Clock) (g : Gic)
      → isr ≢ null
      → g.offset ≡ 0
      → let (c', g') = hw_timer_init frequency c g in
        trap_irq (call_handler fuel) hw_timer_vector_num g' c'
        ≡ some (
          record g' {
            writes =
                (cpu_eoi g.cpu_base, 27)
                ∷ (dist_pending_clear g.dist_base 27, mask_of 27)
                ∷ g'.writes;
          },
          record c' {
            timer_val = (frequency / 1000 + frequency / 1000) % 2 ^ 64;
            kernel = tick_increase call_external fuel c.kernel;
          },
        )
  unfolding hw_timer_init call_handler trap_irq interrupt_install interrupt_umask
  trap_irq-hw_timer_init fuel frequency c g there zero_offset =
      let known : (isr == null) ≡ false = ground arith in
      rw known (ground (arith, zero_offset, known, ==_self isr))
