-- ===== src/Tests/Port.antt =====
-- The serial driver at concrete inputs.
use s_kernel.Common.{
  ℕ, ◌≡◌, refl, arith, true, false, List, [], ◌∷◌, ◌++◌, Option, none, some, read_at, take, min,
}
use s_kernel.RingBuffer.{RingBuffer, data_len, space_len, status}
use s_kernel.RingBuffer.Inv.{IsValid, contents}
use s_kernel.Serial.{Serial, SerialOps, serial_write, serial_isr}
use s_kernel.Uart.{Port, uart_ops, uart0_base}
use s_kernel.Uart.Sending.{sends, serial_write-uart_transmit}
use s_kernel.Serial.Receiving.{serial_isr_lem}

-- Three places, none of them in use.
abbrev empty_ring : RingBuffer
empty_ring = record {
  buffer = 0 ∷ 0 ∷ 0 ∷ [];
  read_mirror = false;
  read_index = 1;
  write_mirror = false;
  write_index = 1;
  buffer_size = 3;
}

empty_ring-IsValid : IsValid empty_ring
empty_ring-IsValid = omega arith

abbrev serial : Serial
serial = record {
  serial_rx = some empty_ring;
  serial_tx = some empty_ring;
  activated = false;
  rx_buf_size = 3;
  tx_buf_size = 3;
}

abbrev next_byte : List ℕ → Option ℕ × List ℕ
next_byte [] = (none, [])
next_byte (x ∷ xs) = (some x, xs)

-- A port whose state is the bytes that it delivers, behind those that it has sent.
abbrev ops : SerialOps (List ℕ)
ops = record { putc = λ c s. s; getc = next_byte; transmit = λ bytes s. bytes ++ s }

-- Every register reads as 0, and nothing has been written yet.
abbrev quiet : ℕ → ℕ → ℕ × ℕ
quiet addr h = (0, h)

abbrev idle : Port ℕ
idle = record { hardware = 0; written = [] }

serial_write-uart_transmit_example :
    let n = min 4 (space_len empty_ring) in
    (rb' : RingBuffer) × (serial_write
        (uart_ops quiet uart0_base)
        (1 ∷ 2 ∷ 3 ∷ 4 ∷ [])
        4
        serial
        idle
      ≡ some (
        n,
        record serial { serial_tx = some rb'; activated = true },
        record idle { written = [] ++ sends quiet uart0_base (read_at (1 ∷ 2 ∷ 3 ∷ 4 ∷ []) 0 n) },
      ))
    × IsValid rb'
    × (contents rb' ≡ [])
unfolding space_len data_len status
serial_write-uart_transmit_example =
    serial_write-uart_transmit quiet uart0_base (1 ∷ 2 ∷ 3 ∷ 4 ∷ []) 4 serial empty_ring idle
      empty_ring-IsValid refl refl (omega arith) (omega arith) (omega arith) (omega arith)

serial_isr_lem_example :
    (rb' : RingBuffer) × (serial_isr ops 5 serial (7 ∷ 8 ∷ 9 ∷ 6 ∷ [])
      ≡ some (record serial { serial_rx = some rb' }, []))
    × IsValid rb'
    × (contents rb' ≡ contents empty_ring ++ take (space_len empty_ring) (7 ∷ 8 ∷ 9 ∷ 6 ∷ []))
unfolding data_len status
serial_isr_lem_example =
    serial_isr_lem ops 5 (7 ∷ 8 ∷ 9 ∷ 6 ∷ []) serial empty_ring (7 ∷ 8 ∷ 9 ∷ 6 ∷ []) []
      empty_ring-IsValid refl (omega arith)
      (8 ∷ 9 ∷ 6 ∷ [], refl, (9 ∷ 6 ∷ [], refl, (6 ∷ [], refl, ([], refl, refl)))) (omega arith)
