-- ===== src/RingBuffer/Inv.antt =====
-- The representation invariant of a ring, and the bytes that it holds.
use s_kernel.Common.{
  ℕ, ◌+◌, ◌-◌, ◌^◌, ◌<◌, ◌≤◌, ◌≡◌, arith, if◌then◌else◌, List, length, length-tabulate, get_or,
  tabulate, wrap,
}
use s_kernel.RingBuffer.{RingBuffer, status, data_len, same_bit}

pub record IsValid (rb : RingBuffer) : Type 0 where
  pub positive : 0 < rb.buffer_size
  pub small : rb.buffer_size < 2 ^ 15
  pub storage : rb.buffer_size ≤ length rb.buffer
  pub read_in : rb.read_index < rb.buffer_size
  pub write_in : rb.write_index < rb.buffer_size
  -- On the same side of the mirror the reader is behind, on different sides the writer is.
  pub ordered :
      if same_bit rb.read_mirror rb.write_mirror
      then rb.read_index ≤ rb.write_index
      else rb.write_index ≤ rb.read_index

-- The `k`-th byte that the ring holds.
abbrev pub nth : RingBuffer → ℕ → ℕ
nth rb k = get_or rb.buffer (wrap rb.buffer_size (rb.read_index + k)) 0

-- The bytes that the ring holds, oldest first.
abbrev pub contents : RingBuffer → List ℕ
contents rb = tabulate (data_len rb) 0 (nth rb)

pub length-contents : (rb : RingBuffer) → length (contents rb) ≡ data_len rb
length-contents rb = length-tabulate (data_len rb) 0 (nth rb)

-- The distance from the reader to the writer is the length.
pub data_len_cases :
    {rb : RingBuffer}
    → IsValid rb
    → data_len rb ≡ (
        if same_bit rb.read_mirror rb.write_mirror
        then rb.write_index - rb.read_index
        else rb.buffer_size - (rb.read_index - rb.write_index))
unfolding data_len status
data_len_cases v = ground arith
