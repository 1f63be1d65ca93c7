-- ===== src/Interrupt/Dispatch.antt =====
-- arch/aarch64/src/trap.c over interrupt.c: an interrupt reaches the handler that was installed for it.
use s_kernel.Common.{
  ℕ, ◌+◌, ◌-◌, ◌%◌, ◌^◌, ◌<◌, ◌≤◌, ◌≡◌, ◌≢◌, refl, arith, true, false, none, some, ◌∷◌, ltb, ◌==◌,
  if◌then◌else◌, ==_self,
}
use s_kernel.Kernel.{null}
use s_kernel.Interrupt.{
  Gic, gic_max_handlers, interrupt_install, trap_irq, cpu_eoi, dist_pending_clear, mask_of,
}

module _ {S : Type 0} (run : ℕ → ℕ → ℕ → Gic × S → Gic × S) where
  -- Once a handler is installed for a vector of the table, the interrupt with that number calls it, with
  -- the vector and its parameter, on the controller as it was; to the controller as the handler leaves
  -- it, behind all that the handler writes, first the clearing of the pending bit of the interrupt is
  -- written and then its end. The handlers of the other vectors are as before.
  pub trap_irq-interrupt_install :
      (vector handler param intack : ℕ) (g : Gic) (s : S)
      → vector < gic_max_handlers
      → handler ≢ null
      → intack + g.offset ≡ vector
      → let g' = (interrupt_install vector handler param g).1 in
        let (g'', s'') = run handler vector param (g', s) in
        (trap_irq run intack g' s
          ≡ some (
            record g'' {
              writes =
                  (cpu_eoi g''.cpu_base, vector - g''.offset)
                  ∷ (dist_pending_clear g''.dist_base (vector - g''.offset), mask_of vector)
                  ∷ g''.writes;
            },
            s'',
          ))
        × ((other : ℕ) → other ≢ vector → g'.isr_table other ≡ g.isr_table other)
  unfolding interrupt_install trap_irq
  trap_irq-interrupt_install vector handler param intack g s lt there e =
      let known : (handler == null) ≡ false = ground arith in
      let in_table : ltb vector gic_max_handlers ≡ true = ground arith in
      let number : (intack + g.offset) % 2 ^ 32 ≡ vector = omega arith in
      let self : (vector == vector) ≡ true = ==_self vector in
      let regular : (vector == 1023) ≡ false = ground arith in
      (
        rw (in_table, known) (rw (number, regular, in_table, self, known) refl),
        λ other ne. ground arith,
      )

  -- An interrupt that no entry of the table belongs to makes the code read behind the table, unless it
  -- is the spurious one, 1023, which is not acknowledged.
  pub trap_irq_overrun :
      (intack : ℕ) (g : Gic) (s : S)
      → gic_max_handlers ≤ intack + g.offset
      → intack + g.offset < 2 ^ 32
      → trap_irq run intack g s ≡ (if intack + g.offset == 1023 then some (g, s) else none)
  unfolding trap_irq
  trap_irq_overrun intack g s le lt = ground arith
