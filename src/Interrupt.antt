-- ===== src/Interrupt.antt =====
-- The interrupt controller (arch/aarch64/src/interrupt.c and trap.c, include/kernel/hw.h,
-- include/config/config.h). What the code does to the controller is the list of its writes, newest first:
-- what a register does with them is up to the hardware, and what a read returns is a parameter.
pub mod Starting
pub mod Dispatch
pub mod Ticking
use s_kernel.Common.{
  ℕ, zero, suc, ◌+◌, ◌-◌, ◌*◌, ◌/◌, ◌%◌, ◌^◌, Option, none, some, List, [], ◌∷◌, min, ltb, ◌==◌,
  if◌then◌else◌,
}
use s_kernel.Kernel.{null, update}

-- GIC_DIST_BASE, GIC_CPU_BASE, GIC_IRQ_START, GIC_MAX_HANDLERS
abbrev pub gic_dist_base : ℕ
gic_dist_base = 0x08000000

abbrev pub gic_cpu_base : ℕ
gic_cpu_base = 0x08010000

abbrev pub gic_irq_start : ℕ
gic_irq_start = 0

abbrev pub gic_max_handlers : ℕ
gic_max_handlers = 96

-- `struct sk_irq_desc`: the address of a handler, or SK_NULL, and its parameter.
pub record IrqDesc : Type 0 where
  pub handler : ℕ
  pub param : ℕ

-- `gic_ctl`, which is a `struct gic_info`, `isr_table`, and the writes to the registers.
pub record Gic : Type 0 where
  pub offset : ℕ
  pub dist_base : ℕ
  pub cpu_base : ℕ
  pub isr_table : ℕ → IrqDesc
  pub writes : List (ℕ × ℕ)

-- The macros GIC_CPU_* and GIC_DIST_* for the registers that the code uses.
abbrev pub cpu_ctrl : ℕ → ℕ
cpu_ctrl hw_base = hw_base + 0x00

abbrev pub cpu_primask : ℕ → ℕ
cpu_primask hw_base = hw_base + 0x04

abbrev pub cpu_binpoint : ℕ → ℕ
cpu_binpoint hw_base = hw_base + 0x08

abbrev pub cpu_eoi : ℕ → ℕ
cpu_eoi hw_base = hw_base + 0x10

abbrev pub dist_ctrl : ℕ → ℕ
dist_ctrl hw_base = hw_base + 0x00

abbrev pub dist_igroup : ℕ → ℕ → ℕ
dist_igroup hw_base n = hw_base + 0x080 + n / 32 * 4

abbrev pub dist_enable_set : ℕ → ℕ → ℕ
dist_enable_set hw_base n = hw_base + 0x100 + n / 32 * 4

abbrev pub dist_enable_clear : ℕ → ℕ → ℕ
dist_enable_clear hw_base n = hw_base + 0x180 + n / 32 * 4

abbrev pub dist_pending_clear : ℕ → ℕ → ℕ
dist_pending_clear hw_base n = hw_base + 0x280 + n / 32 * 4

abbrev pub dist_pri : ℕ → ℕ → ℕ
dist_pri hw_base n = hw_base + 0x400 + n / 4 * 4

abbrev pub dist_target : ℕ → ℕ → ℕ
dist_target hw_base n = hw_base + 0x800 + n / 4 * 4

abbrev pub dist_config : ℕ → ℕ → ℕ
dist_config hw_base n = hw_base + 0xC00 + n / 16 * 4

-- `__REG32(a) = value`
abbrev pub write : ℕ → ℕ → Gic → Gic
write a value g = record g { writes = (a, value) ∷ g.writes }

-- `vector - gic_ctl.offset`, of a vector that is not negative and not below the offset.
abbrev pub irq_of : Gic → ℕ → ℕ
irq_of g vector = vector - g.offset

-- `1U << (vector % 32U)`
abbrev pub mask_of : ℕ → ℕ
mask_of vector = 2 ^ (vector % 32)

-- `sk_hw_interrupt_mask`
unfoldable pub interrupt_mask : ℕ → Gic → Gic
interrupt_mask vector g = write (dist_enable_clear g.dist_base (irq_of g vector)) (mask_of vector) g

-- `sk_hw_interrupt_umask`
unfoldable pub interrupt_umask : ℕ → Gic → Gic
interrupt_umask vector g = write (dist_enable_set g.dist_base (irq_of g vector)) (mask_of vector) g

-- `sk_hw_interrupt_get_irq`, with what GIC_CPU_INTACK reads: a `sk_int32_t`, as its 32 bits.
unfoldable pub interrupt_get_irq : ℕ → Gic → ℕ
interrupt_get_irq intack g = (intack + g.offset) % 2 ^ 32

-- `sk_hw_interrupt_ack`
unfoldable pub interrupt_ack : ℕ → Gic → Gic
interrupt_ack vector g =
    let irq = irq_of g vector in
    write (cpu_eoi g.cpu_base) irq (write (dist_pending_clear g.dist_base irq) (mask_of vector) g)

-- `sk_hw_interrupt_install`: the old handler and the new table.
unfoldable pub interrupt_install : ℕ → ℕ → ℕ → Gic → ℕ × Gic
interrupt_install vector handler param g =
    let desc : IrqDesc = record { handler = handler; param = param } in
    let installed = record g { isr_table = update g.isr_table vector desc } in
    if ltb vector gic_max_handlers
    then ((g.isr_table vector).handler, if handler == null then g else installed)
    else (null, g)

-- `for(i = i; i < gic_max_irq; i += step) reg(i) = value;` with rounds for `fuel` values.
unfoldable pub write_from : ℕ → ℕ → ℕ → ℕ → (ℕ → ℕ) → ℕ → Gic → Gic
write_from zero i max step reg value g = g
write_from (suc fuel) i max step reg value g =
    let rest = write_from fuel (i + step) max step reg value (write (reg i) value g) in
    if ltb i max then rest else g

-- `gic_max_irq`, from what GIC_DIST_TYPE reads.
abbrev pub max_irq : ℕ → ℕ
max_irq gic_type = min ((gic_type % 32 + 1) * 32) 1020

-- The loops of `gic_dist_init`.
unfoldable pub configure : ℕ → ℕ → Gic → Gic
configure base max g =
    let g₁ = write_from max 32 max 16 (dist_config base) 0 g in
    let g₂ = write_from max 32 max 4 (dist_target base) 0x01010101 g₁ in
    let g₃ = write_from max 0 max 4 (dist_pri base) 0xa0a0a0a0 g₂ in
    let g₄ = write_from max 0 max 32 (dist_enable_clear base) 0xffffffff g₃ in
    write_from max 0 max 32 (dist_igroup base) 0 g₄

-- `gic_dist_init`, with what GIC_DIST_TYPE reads.
unfoldable pub gic_dist_init : ℕ → ℕ → ℕ → Gic → Gic
gic_dist_init gic_type base start g =
    let g₀ = write (dist_ctrl base) 0 (record g { dist_base = base; offset = start }) in
    write (dist_ctrl base) 1 (configure base (max_irq gic_type) g₀)

-- `gic_cpu_init`
unfoldable pub gic_cpu_init : ℕ → Gic → Gic
gic_cpu_init base g =
    write (cpu_ctrl base) 1
      (write (cpu_binpoint base) 7 (write (cpu_primask base) 0xF0 (record g { cpu_base = base })))

-- `sk_hw_interrupt_init` behind `sk_hw_vector_init`.
unfoldable pub interrupt_init : ℕ → Gic → Gic
unfolding gic_dist_init gic_cpu_init
interrupt_init gic_type g =
    gic_cpu_init gic_cpu_base (gic_dist_init gic_type gic_dist_base gic_irq_start g)

-- `sk_hw_trap_irq` of trap.c. `run` is the call of the handler at an address with its two arguments, on the
-- controller and the state `S` of the rest of the system. `none`: the code reads behind `isr_table`.
module _ {S : Type 0} (run : ℕ → ℕ → ℕ → Gic × S → Gic × S) where
  unfoldable pub trap_irq : ℕ → Gic → S → Option (Gic × S)
  unfolding interrupt_get_irq interrupt_ack
  trap_irq intack g s =
      let irq = interrupt_get_irq intack g in
      let desc = g.isr_table irq in
      let (g', s') =
        if desc.handler == null then (g, s) else run desc.handler irq desc.param (g, s) in
      if irq == 1023
      then some (g, s)
      else if ltb irq gic_max_handlers
      then some (interrupt_ack irq g', s')
      else none
