-- ===== src/RingBuffer/Force.antt =====
-- The operations that overwrite: `sk_ring_buffer_put_force` and `sk_ring_buffer_putchar_force`.
use s_kernel.Common.{
  wrap, ℕ, ◌+◌, ◌-◌, ◌<◌, ◌≤◌, ◌≡◌, sym, arith, ◌∙◌, ap, ap₂, min, List, [], ◌∷◌, ◌++◌, get_or,
  drop, tabulate, tabulate-congr, tabulate-add, tabulate-shift, drop-tabulate, length-set,
  get_or-set_self, get_or-set_ne, read_at, write_at, length-tabulate, length-write_at,
  get_or-write_at_in, get_or-write_at_out, get_or-tabulate,
}
use s_kernel.RingBuffer.{
  RingBuffer, status, data_len, space_len, put, put_force, putchar_force, store,
}
use s_kernel.RingBuffer.Inv.{IsValid, nth, contents, data_len_cases}
use s_kernel.RingBuffer.Put.{data_len-le}

module _ {rb : RingBuffer} (v : IsValid rb) (byte : ℕ) where
  putchar_force-IsValid : IsValid (putchar_force rb byte).1
  unfolding putchar_force status
  putchar_force-IsValid = ground (arith, length-set rb.buffer rb.write_index byte)

  -- One byte more, unless the ring was full.
  data_len-putchar_force : data_len (putchar_force rb byte).1 ≡ min (data_len rb + 1) rb.buffer_size
  unfolding putchar_force status
  data_len-putchar_force =
      ground (arith, putchar_force-IsValid, data_len_cases v, data_len_cases putchar_force-IsValid)

  nth-putchar_force_old :
      (k : ℕ)
      → k + 1 < data_len (putchar_force rb byte).1
      → nth (putchar_force rb byte).1 k
        ≡ nth rb (data_len rb + 1 - data_len (putchar_force rb byte).1 + k)
  unfolding putchar_force status
  nth-putchar_force_old k h =
      let j = wrap rb.buffer_size ((putchar_force rb byte).1.read_index + k) in
      ground (
        arith,
        data_len_cases v,
        data_len-putchar_force,
        get_or-set_ne rb.buffer {i = rb.write_index} {j = j} byte 0,
      )

  nth-putchar_force_new :
      nth (putchar_force rb byte).1 (min (data_len rb) (rb.buffer_size - 1)) ≡ byte
  unfolding putchar_force status
  nth-putchar_force_new =
      ground (arith, data_len_cases v, get_or-set_self rb.buffer rb.write_index byte 0)

  -- `sk_ring_buffer_putchar_force` on a valid ring appends the byte; on a full ring it drops the
  -- oldest byte for it. The ring stays valid.
  pub putchar_force_lem :
      (contents (putchar_force rb byte).1
        ≡ drop (data_len rb + 1 - rb.buffer_size) (contents rb) ++ (byte ∷ []))
      × IsValid (putchar_force rb byte).1
  putchar_force_lem =
      let rb' = (putchar_force rb byte).1 in
      let m = min (data_len rb) (rb.buffer_size - 1) in
      let d = data_len rb + 1 - rb.buffer_size in
      let new : data_len rb' ≡ m + 1 =
        omega (arith, data_len-putchar_force, v.positive, data_len-le v) in
      let old : data_len rb ≡ d + m = omega (arith, v.positive, data_len-le v) in
      let from_d : 0 + d ≡ d + 0 = omega arith in
      let at_m : 0 + m ≡ m = omega arith in
      let gone : data_len rb + 1 - data_len rb' ≡ d =
        omega (arith, data_len-putchar_force, data_len-le v) in
      (
        rw new (
              tabulate-add m 1 0 (nth rb')
              ∙ ap₂ ◌++◌
                  (tabulate-congr m 0 _ (λ k. nth rb (d + k))
                      (λ k _ hi.
                        nth-putchar_force_old k (omega arith) ∙ ap (λ (a : ℕ). nth rb (a + k)) gone)
                    ∙ sym (tabulate-shift m 0 d (nth rb)))
                  (rw at_m (ap (λ (a : ℕ). a ∷ []) nth-putchar_force_new)))
            ∙ ap (λ (l : List ℕ). l ++ (byte ∷ []))
                (sym (
                  ap (λ (a : ℕ). drop d (tabulate a 0 (nth rb))) old
                  ∙ drop-tabulate d m 0 (nth rb)
                  ∙ ap (λ (a : ℕ). tabulate m a (nth rb)) from_d)),
        putchar_force-IsValid,
      )

-- An overwriting block that reaches the end of the storage and is no longer than the storage.
module _ {rb : RingBuffer} (v : IsValid rb) (src : List ℕ) (len : ℕ) (over : space_len rb < len)
    (wraps : rb.buffer_size ≤ len + rb.write_index) (fits : len ≤ rb.buffer_size) where
  put_force_wrap-IsValid : IsValid (put_force rb src len).1
  unfolding put_force store space_len
  put_force_wrap-IsValid =
      let side = rb.buffer_size - rb.write_index in
      ground (
        arith,
        data_len_cases v,
        length-write_at rb.buffer rb.write_index (read_at src 0 side),
        length-write_at (write_at rb.buffer rb.write_index (read_at src 0 side)) 0
            (read_at src side (len - side)),
      )

  data_len-put_force_wrap : data_len (put_force rb src len).1 ≡ rb.buffer_size
  unfolding put_force store space_len
  data_len-put_force_wrap =
      ground
        (arith, data_len_cases v, put_force_wrap-IsValid, data_len_cases put_force_wrap-IsValid)

  nth-put_force_old :
      (k : ℕ)
      → k + len < rb.buffer_size
      → nth (put_force rb src len).1 k ≡ nth rb (len - space_len rb + k)
  unfolding put_force store space_len
  nth-put_force_old k h =
      let side = rb.buffer_size - rb.write_index in
      let j = len - side + k in
      ground (
        arith,
        data_len_cases v,
        length-tabulate side 0 (λ i. get_or src i 0),
        length-tabulate (len - side) side (λ i. get_or src i 0),
        get_or-write_at_out rb.buffer rb.write_index (read_at src 0 side) j,
        get_or-write_at_out (write_at rb.buffer rb.write_index (read_at src 0 side)) 0
            (read_at src side (len - side)) j,
      )

  nth-put_force_new :
      (k : ℕ) → k < len → nth (put_force rb src len).1 (rb.buffer_size - len + k) ≡ get_or src k 0
  unfolding put_force store space_len
  nth-put_force_new k h =
      let side = rb.buffer_size - rb.write_index in
      let f = λ (i : ℕ). get_or src i 0 in
      let inner = write_at rb.buffer rb.write_index (read_at src 0 side) in
      ground (
        arith,
        data_len_cases v,
        length-tabulate side 0 f,
        length-tabulate (len - side) side f,
        length-write_at rb.buffer rb.write_index (read_at src 0 side),
        get_or-write_at_in rb.buffer rb.write_index (read_at src 0 side) k,
        get_or-write_at_out inner 0 (read_at src side (len - side)) (rb.write_index + k),
        get_or-write_at_in inner 0 (read_at src side (len - side)) (k - side),
        get_or-tabulate side 0 k f 0,
        get_or-tabulate (len - side) side (k - side) f 0,
      )

  -- `sk_ring_buffer_put_force` on a valid ring of a block that is longer than the free space,
  -- reaches the end of the storage and is no longer than the storage: the ring is then full, has
  -- dropped as many of its oldest bytes as were in the way, holds the whole block behind the rest,
  -- and is valid.
  pub put_force_wraps :
      (contents (put_force rb src len).1
        ≡ drop (len - space_len rb) (contents rb) ++ read_at src 0 len)
      × (data_len (put_force rb src len).1 ≡ rb.buffer_size)
      × IsValid (put_force rb src len).1
  unfolding space_len
  put_force_wraps =
      let rb' = (put_force rb src len).1 in
      let d = len - space_len rb in
      let m = rb.buffer_size - len in
      let new : data_len rb' ≡ m + len = omega (arith, data_len-put_force_wrap) in
      let old : data_len rb ≡ d + m = omega (arith, data_len-le v) in
      let from_d : 0 + d ≡ d + 0 = omega arith in
      let from_m : 0 + m ≡ m + 0 = omega arith in
      (
        rw new (tabulate-add m len 0 (nth rb'))
            ∙ ap₂ ◌++◌
                (tabulate-congr m 0 _ (λ k. nth rb (d + k))
                    (λ k _ hi. nth-put_force_old k (omega arith))
                  ∙ sym (tabulate-shift m 0 d (nth rb))
                  ∙ sym (
                      ap (λ (a : ℕ). drop d (tabulate a 0 (nth rb))) old
                      ∙ drop-tabulate d m 0 (nth rb)
                      ∙ ap (λ (a : ℕ). tabulate m a (nth rb)) from_d))
                (ap (λ (a : ℕ). tabulate len a (nth rb')) from_m
                  ∙ tabulate-shift len 0 m (nth rb')
                  ∙ tabulate-congr len 0 _ (λ k. get_or src k 0)
                      (λ k _ hi. nth-put_force_new k (omega arith))),
        data_len-put_force_wrap,
        put_force_wrap-IsValid,
      )

-- While there is room `sk_ring_buffer_put_force` is `sk_ring_buffer_put`.
pub put_force-eq-put :
    {rb : RingBuffer} (src : List ℕ) (len : ℕ)
    → IsValid rb
    → len ≤ space_len rb
    → 0 < len
    → put_force rb src len ≡ put rb src len
unfolding put_force put space_len
put_force-eq-put src len v h pos = ground (arith, data_len-le v)

-- `sk_ring_buffer_put_force` on a valid ring of a block that is longer than the free space and
-- ends before the end of the storage does not move the reader: the ring then claims to hold only
-- the bytes by which the block was too long, and is not valid.
pub put_force_overrun :
    {rb : RingBuffer} (src : List ℕ) (len : ℕ)
    → IsValid rb
    → space_len rb < len
    → len + rb.write_index < rb.buffer_size
    → (data_len (put_force rb src len).1 ≡ len - space_len rb) × ¬ IsValid (put_force rb src len).1
unfolding put_force store space_len data_len status
put_force_overrun {rb} src len v h k =
    ground (arith, data_len_cases v, length-write_at rb.buffer rb.write_index (read_at src 0 len))
