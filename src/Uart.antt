-- ===== src/Uart.antt =====
-- The driver of the UART of the board (bsp/driver/drv_uart.c, include/config/config.h) as a port of the
-- serial driver. Reads of registers are a parameter on the state `H` of the hardware; what is written
-- is kept as a sequence, the last write at its end. A `char` has no sign on this machine.
pub mod Sending
use s_kernel.Common.{
  ℕ, ◌+◌, ◌-◌, ◌/◌, ◌%◌, ◌^◌, Option, none, some, List, [], ◌∷◌, ◌++◌, ◌==◌, if◌then◌else◌, Err,
}
use s_kernel.Serial.{SerialOps, Serial, serial_isr}

-- PL011_UART_DR, PL011_UART0_BASE, and the offsets that the code writes as numbers.
abbrev pub uart_dr : ℕ
uart_dr = 0

abbrev pub uart_fr : ℕ
uart_fr = 0x18

abbrev pub uart_imsc : ℕ
uart_imsc = 0x38

abbrev pub uart0_base : ℕ
uart0_base = 0x09000000

-- The hardware behind the registers, and the addresses and words that have been written.
pub record Port (H : Type 0) : Type 0 where
  pub hardware : H
  pub written : List (ℕ × ℕ)

-- `hw_base` is that of `struct sk_uart_device`.
module _ {H : Type 0} (read : ℕ → H → ℕ × H) (hw_base : ℕ) where
  -- `readl`
  abbrev readl : ℕ → Port H → ℕ × Port H
  readl addr s = let (word, h) = read addr s.hardware in (word, record s { hardware = h })

  -- `writel`
  abbrev writel : ℕ → ℕ → Port H → Port H
  writel addr word s = record s { written = s.written ++ ((addr, word) ∷ []) }

  -- `uart_getc`; bit 4 is RXFE. All callers keep only the low byte of a word that is not -1.
  unfoldable pub uart_getc : Port H → Option ℕ × Port H
  uart_getc s =
      let (flags, s') = readl (hw_base + uart_fr) s in
      let (ch, s'') = readl hw_base s' in
      if flags / 2 ^ 4 % 2 == 0
      then (if ch == 2 ^ 32 - 1 then none else some (ch % 2 ^ 8), s'')
      else (none, s')

  -- `uart_putc`
  unfoldable pub uart_putc : ℕ → Port H → Port H
  uart_putc c s = writel (hw_base + uart_dr) c s

  -- `uart_transmit` of the bytes in the buffer.
  unfoldable pub uart_transmit : List ℕ → Port H → Port H
  uart_transmit [] s = s
  uart_transmit (byte ∷ rest) s = uart_transmit rest (uart_putc byte s)

  -- `uart_configure`: the interrupt for received bytes is let through.
  unfoldable pub uart_configure : Port H → Err × Port H
  uart_configure s =
      let (val, s') = readl (hw_base + uart_imsc) s in
      let set = if val / 2 ^ 4 % 2 == 0 then val + 0x10 else val in
      (Err.eok, writel (hw_base + uart_imsc) set s')

  -- `__uart_ops`
  abbrev pub uart_ops : SerialOps (Port H)
  uart_ops = record { putc = uart_putc; getc = uart_getc; transmit = uart_transmit }

  -- `sk_hw_uart_isr`
  unfoldable pub uart_isr : ℕ → Serial → Port H → Option (Serial × Port H)
  uart_isr fuel serial s = serial_isr uart_ops fuel serial s
