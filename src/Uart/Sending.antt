-- ===== src/Uart/Sending.antt =====
-- What the serial driver writes to the registers of the UART.
use s_kernel.Common.{
  ℕ, true, ◌^◌, ◌+◌, ◌<◌, ◌≤◌, ◌≡◌, sym, ap, ◌∙◌, List, [], ◌∷◌, ◌++◌, append_assoc, append-nil,
  map, min, some, read_at,
}
use s_kernel.RingBuffer.{RingBuffer, data_len, space_len}
use s_kernel.RingBuffer.Inv.{IsValid, contents}
use s_kernel.Serial.{Serial, send_data_size, serial_write}
use s_kernel.Serial.Writing.{serial_write_lem}
use s_kernel.Uart.{Port, uart_dr, uart_putc, uart_transmit, uart_ops}

module _ {H : Type 0} (read : ℕ → H → ℕ × H) (hw_base : ℕ) where
  -- The writes to the data register that send some bytes.
  abbrev pub sends : List ℕ → List (ℕ × ℕ)
  sends bytes = map (λ byte. (hw_base + uart_dr, byte)) bytes

  uart_transmit_lem :
      (bytes : List ℕ) (s : Port H)
      → uart_transmit read hw_base bytes s ≡ record s { written = s.written ++ sends bytes }
  unfolding uart_transmit uart_putc
  uart_transmit_lem [] s =
      ap (λ (l : List (ℕ × ℕ)). record s { written = l }) (sym (append-nil s.written))
  uart_transmit_lem (byte ∷ rest) s =
      uart_transmit_lem rest (uart_putc read hw_base byte s)
      ∙ ap (λ (l : List (ℕ × ℕ)). record s { written = l })
          (append_assoc s.written ((hw_base + uart_dr, byte) ∷ []) (sends rest))

  -- `sk_serial_write` of some bytes, fewer than 2^16, on an open UART whose ring for sending is valid
  -- and empty: the first bytes, as many as fit into the ring, if those are at most 64, are written to
  -- the data register in their order, and nothing else is written; their number is returned, and the
  -- ring is valid and empty again.
  pub serial_write-uart_transmit :
      (buf : List ℕ) (size : ℕ) (serial : Serial) (rb : RingBuffer) (s : Port H)
      → IsValid rb
      → data_len rb ≡ 0
      → serial.serial_tx ≡ some rb
      → 0 < serial.tx_buf_size
      → 0 < size
      → size < 2 ^ 16
      → min size (space_len rb) ≤ send_data_size
      → let n = min size (space_len rb) in
        (rb' : RingBuffer) × (serial_write (uart_ops read hw_base) buf size serial s
          ≡ some (
            n,
            record serial { serial_tx = some rb'; activated = true },
            record s { written = s.written ++ sends (read_at buf 0 n) },
          ))
        × IsValid rb'
        × (contents rb' ≡ [])
  serial_write-uart_transmit buf size serial rb s v empty ring buffered some_bytes small fits =
      let n = min size (space_len rb) in
      let (rb', result, v', left) =
        serial_write_lem (uart_ops read hw_base) buf size serial rb s v empty ring buffered
          some_bytes small fits in
      (
        rb',
        result
            ∙ ap
                (λ (s' : Port H).
                  some (n, record serial { serial_tx = some rb'; activated = true }, s'))
                (uart_transmit_lem (read_at buf 0 n) s),
        v',
        left,
      )
