-- ===== src/Serial.antt =====
-- The serial driver (driver/serial/serial.c, include/driver/serial.h) over the ring buffer. The
-- functions of the port are parameters that work on its state `S`. `none` is SK_NULL, and as the result
-- of a call that it goes through SK_NULL or writes behind the end of a buffer.
pub mod Writing
pub mod Receiving
use s_kernel.Common.{
  ℕ, zero, suc, ◌+◌, ◌-◌, ◌%◌, ◌^◌, Bool, true, false, Option, none, some, List, [], ◌∷◌, length,
  read_at, ltb, ◌==◌, if◌then◌else◌,
}
use s_kernel.RingBuffer
use s_kernel.RingBuffer.{RingBuffer, data_len, put, get, putchar}

-- `struct sk_serial_ops`, less `control`; `none` from `getc` is -1.
pub record SerialOps (S : Type 0) : Type 0 where
  pub putc : ℕ → S → S
  pub getc : S → Option ℕ × S
  pub transmit : List ℕ → S → S

-- `struct sk_serial_device`: the two rings, `activated` of the one for sending, and the sizes of the
-- configuration.
pub record Serial : Type 0 where
  pub serial_rx : Option RingBuffer
  pub serial_tx : Option RingBuffer
  pub activated : Bool
  pub rx_buf_size : ℕ
  pub tx_buf_size : ℕ

-- The size of `send_data`.
abbrev pub send_data_size : ℕ
send_data_size = 64

-- `sk_serial_get_ringbuf`: the bytes, whose number it returns, and the ring.
unfoldable pub get_ringbuf : RingBuffer → List ℕ × RingBuffer
get_ringbuf rb =
    let (len, bytes, rb') = get rb (data_len rb) in
    if data_len rb == 0 then ([], rb) else (bytes, rb')

-- `sk_serial_init`, less the call of `configure`.
unfoldable pub serial_init : Serial → Serial
serial_init serial = record serial { serial_rx = none; serial_tx = none }

-- `sk_serial_rx_enable` and `sk_serial_tx_enable` with the memory that `sk_malloc` returns.
unfoldable pub rx_enable : List ℕ → Bool → Serial → Serial
rx_enable buffer non_block serial =
    let ready = record serial { serial_rx = some (RingBuffer.init buffer serial.rx_buf_size) } in
    if serial.rx_buf_size == 0 then (if non_block then serial else ready) else ready

unfoldable pub tx_enable : List ℕ → Serial → Serial
tx_enable buffer serial = if serial.tx_buf_size == 0 then serial else record serial {
  serial_tx = some (RingBuffer.init buffer serial.tx_buf_size);
  activated = false;
}

-- `sk_serial_open` of a device that is not open; `non_block` is the bit SK_SERIAL_RX_NON_BLOCK of its flag.
unfoldable pub serial_open : List ℕ → List ℕ → Bool → Serial → Serial
unfolding rx_enable tx_enable
serial_open rx_buffer tx_buffer non_block serial =
    let with_rx : Serial = elim serial.serial_rx [
      | none ↦ rx_enable rx_buffer non_block serial
      | some rb ↦ serial
    ] in
    elim serial.serial_tx [ none ↦ tx_enable tx_buffer with_rx | some rb ↦ with_rx ]

module _ {S : Type 0} (ops : SerialOps S) where
  -- `__serial_poll_tx`; it returns the size that it has counted down, 0.
  unfoldable pub poll_tx : List ℕ → S → ℕ × S
  poll_tx [] s = (0, s)
  poll_tx (byte ∷ rest) s = poll_tx rest (ops.putc byte s)

  -- The loop of `sk_serial_read` without a ring.
  unfoldable pub poll_rx : ℕ → S → List ℕ × S
  poll_rx zero s = ([], s)
  poll_rx (suc size) s =
      let (ch, s') = ops.getc s in
      let (bytes, s'') = poll_rx size s' in
      elim ch [ none ↦ ([], s') | some byte ↦ (byte ∷ bytes, s'') ]

  -- `sk_serial_read`: the bytes, whose number it returns.
  unfoldable pub serial_read : ℕ → Serial → S → Option (List ℕ × Serial × S)
  unfolding poll_rx
  serial_read size serial s =
      let (bytes, s') = poll_rx size s in
      if serial.rx_buf_size == 0 then some (bytes, serial, s') else elim serial.serial_rx [
        | none ↦ none
        | some rb ↦
            let (len, got, rb') = get rb (size % 2 ^ 16) in
            some (got, record serial { serial_rx = some rb' }, s)
      ]

  -- `sk_serial_write` of the first `size` bytes of `buf`.
  unfoldable pub serial_write : List ℕ → ℕ → Serial → S → Option (ℕ × Serial × S)
  unfolding poll_tx get_ringbuf
  serial_write buf size serial s =
      let (polled, s') = poll_tx (read_at buf 0 size) s in
      if size == 0
      then some (0, serial, s)
      else if serial.tx_buf_size == 0
      then some (polled, serial, s')
      else elim serial.serial_tx [
        | none ↦ none
        | some rb ↦
            let (len, filled) = put rb buf (size % 2 ^ 16) in
            let (bytes, sent) = get_ringbuf filled in
            if ltb send_data_size (length bytes)
            then none
            else some (
              len,
              record serial { serial_tx = some sent; activated = true },
              ops.transmit bytes s,
            )
      ]

  -- The loop of `sk_hw_serial_isr` for received bytes, with one round for each and one more.
  unfoldable pub drain : ℕ → RingBuffer → S → RingBuffer × S
  drain zero rb s = (rb, s)
  drain (suc fuel) rb s =
      let (ch, s') = ops.getc s in
      elim ch [ none ↦ (rb, s') | some byte ↦ drain fuel (putchar rb byte).1 s' ]

  -- `sk_hw_serial_isr` for SK_SERIAL_EVENT_RX_IND and _RX_DMADONE; no other part of the repository
  -- sets `rx_indicate`.
  unfoldable pub serial_isr : ℕ → Serial → S → Option (Serial × S)
  unfolding drain
  serial_isr fuel serial s = elim serial.serial_rx [
    | none ↦ none
    | some rb ↦
        let (rb', s') = drain fuel rb s in
        some (
          if data_len rb == rb.buffer_size
          then (serial, s)
          else (record serial { serial_rx = some rb' }, s'))
  ]
