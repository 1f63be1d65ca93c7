-- ===== src/RingBuffer.antt =====
-- common/ring_buffer.c and include/common/ring_buffer.h: a byte ring with mirror bits.
-- `read_mirror` and `write_mirror` are one-bit fields, flipped by `~`; the two indices have 15 bits.
-- A function that updates `*rb` returns the new ring beside its result. `none` for a byte that a
-- function does not deliver.
pub mod Inv
pub mod Put
pub mod Get
pub mod Chars
pub mod Force
pub mod Storage
use s_kernel.Common.{
  ℕ, ◌+◌, ◌-◌, ◌%◌, ◌^◌, Bool, false, not, Option, none, some, List, ◌++◌, ltb, leb, ◌==◌,
  if◌then◌else◌, set, get_or, read_at, write_at,
}

-- `enum sk_ring_buffer_state`
pub data State : Type 0 where
  empty full halffull : State

-- `struct sk_ring_buffer`; `buffer` is what `rb->buffer` points at.
pub record RingBuffer : Type 0 where
  pub buffer : List ℕ
  pub read_mirror : Bool
  pub read_index : ℕ
  pub write_mirror : Bool
  pub write_index : ℕ
  pub buffer_size : ℕ

abbrev same_bit : Bool → Bool → Bool
same_bit a b = if a then b else not b

-- Stores into a 15-bit index and into a `sk_uint16_t`.
abbrev pub u15 : ℕ → ℕ
u15 n = n % 2 ^ 15

abbrev pub u16 : ℕ → ℕ
u16 n = n % 2 ^ 16

-- `sk_get_ring_buffer_status`
unfoldable pub status : RingBuffer → State
status rb =
    if rb.read_index == rb.write_index
    then (if same_bit rb.read_mirror rb.write_mirror then State.empty else State.full)
    else State.halffull

-- `sk_ring_buffer_data_len`
unfoldable pub data_len : RingBuffer → ℕ
data_len rb = elim (status rb) [
  | State.empty ↦ 0
  | State.full ↦ rb.buffer_size
  | State.halffull ↦
      if ltb rb.read_index rb.write_index
      then rb.write_index - rb.read_index
      else rb.buffer_size - (rb.read_index - rb.write_index)
]

-- `sk_ring_buffer_space_len`
unfoldable pub space_len : RingBuffer → ℕ
space_len rb = rb.buffer_size - data_len rb

-- `sk_ring_buffer_init`; `buf` is the storage that it is given.
pub init : List ℕ → ℕ → RingBuffer
init buf size = record {
  buffer = buf;
  read_mirror = false;
  read_index = 0;
  write_mirror = false;
  write_index = 0;
  buffer_size = size;
}

-- The two copies that put `put_len` bytes of `src` at the write index, and the new write index.
unfoldable pub store : RingBuffer → List ℕ → ℕ → RingBuffer
store rb src put_len =
    let side_len = u16 (rb.buffer_size + 2 ^ 16 - rb.write_index) in
    if ltb put_len side_len
    then record rb {
      buffer = write_at rb.buffer rb.write_index (read_at src 0 put_len);
      write_index = u15 (rb.write_index + put_len);
    }
    else record rb {
      buffer =
          write_at (write_at rb.buffer rb.write_index (read_at src 0 side_len)) 0
            (read_at src side_len (put_len - side_len));
      write_mirror = not rb.write_mirror;
      write_index = u15 (put_len - side_len);
    }

-- `sk_ring_buffer_put`; the number of bytes that it took.
unfoldable pub put : RingBuffer → List ℕ → ℕ → ℕ × RingBuffer
put rb src len =
    let size = u16 (space_len rb) in
    let put_len = if ltb size len then size else len in
    if size == 0 then (0, rb) else (put_len, store rb src put_len)

-- `sk_ring_buffer_get`: the number of bytes, the bytes that it copies out, the ring.
unfoldable pub get : RingBuffer → ℕ → ℕ × List ℕ × RingBuffer
get rb len =
    let size = u16 (data_len rb) in
    let get_len = if ltb size len then size else len in
    let side_len = u16 (rb.buffer_size + 2 ^ 16 - rb.read_index) in
    if size == 0
    then (0, List.[], rb)
    else if ltb get_len side_len
    then (
      get_len,
      read_at rb.buffer rb.read_index get_len,
      record rb { read_index = u15 (rb.read_index + get_len) },
    )
    else (
      get_len,
      read_at rb.buffer rb.read_index side_len ++ read_at rb.buffer 0 (get_len - side_len),
      record rb { read_mirror = not rb.read_mirror; read_index = u15 (get_len - side_len) },
    )

-- `sk_ring_buffer_putchar`
unfoldable pub putchar : RingBuffer → ℕ → ℕ × RingBuffer
putchar rb byte =
    if space_len rb == 0
    then (0, rb)
    else if rb.write_index + 1 == rb.buffer_size
    then (
      1,
      record rb {
        buffer = set rb.buffer rb.write_index byte;
        write_index = 0;
        write_mirror = not rb.write_mirror;
      },
    )
    else (
      1,
      record rb {
        buffer = set rb.buffer rb.write_index byte;
        write_index = u15 (rb.write_index + 1);
      },
    )

-- `sk_ring_buffer_getchar`: the count, the byte, the ring.
unfoldable pub getchar : RingBuffer → ℕ × Option ℕ × RingBuffer
getchar rb =
    let byte = some (get_or rb.buffer rb.read_index 0) in
    if data_len rb == 0
    then (0, none, rb)
    else if rb.read_index + 1 == rb.buffer_size
    then (1, byte, record rb { read_index = 0; read_mirror = not rb.read_mirror })
    else (1, byte, record rb { read_index = u15 (rb.read_index + 1) })

-- `sk_ring_buffer_put_force`
unfoldable pub put_force : RingBuffer → List ℕ → ℕ → ℕ × RingBuffer
put_force rb src len =
    let space_size = u16 (space_len rb) in
    let side_len = u16 (rb.buffer_size + 2 ^ 16 - rb.write_index) in
    let rb' = store rb src len in
    if ltb len side_len
    then (len, rb')
    else if ltb space_size len
    then (
      len,
      record rb' {
        read_mirror =
            if leb rb'.write_index rb'.read_index then not rb'.read_mirror else rb'.read_mirror;
        read_index = rb'.write_index;
      },
    )
    else (len, rb')

-- `sk_ring_buffer_putchar_force`
unfoldable pub putchar_force : RingBuffer → ℕ → ℕ × RingBuffer
putchar_force rb byte =
    let is_full : Bool = elim (status rb) [ State.full ↦ Bool.true | _ ↦ Bool.false ] in
    let buffer' = set rb.buffer rb.write_index byte in
    if rb.write_index + 1 == rb.buffer_size
    then (
      1,
      record rb {
        buffer = buffer';
        write_index = 0;
        write_mirror = if is_full then rb.write_mirror else not rb.write_mirror;
        read_index = if is_full then 0 else rb.read_index;
      },
    )
    else (
      1,
      record rb {
        buffer = buffer';
        write_index = u15 (rb.write_index + 1);
        read_index = if is_full then u15 (rb.write_index + 1) else rb.read_index;
      },
    )
