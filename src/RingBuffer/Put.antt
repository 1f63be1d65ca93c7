-- ===== src/RingBuffer/Put.antt =====
-- `sk_ring_buffer_put` appends to the ring as many bytes as fit.
use s_kernel.Common.{
  wrap, ℕ, ◌+◌, ◌-◌, ◌^◌, ◌<◌, ◌≤◌, ◌≡◌, ◌≢◌, refl, sym, arith, ◌∙◌, ap₂, inl, inr, ltb, ◌==◌,
  Bool-cases, ==_true, ==_false, ==_ne, if◌then◌else◌, min, List, ◌++◌, append-nil, get_or,
  tabulate-congr, tabulate-add, tabulate-shift, read_at, write_at, length-tabulate, length-write_at,
  get_or-write_at_in, get_or-write_at_out, get_or-tabulate,
}
use s_kernel.RingBuffer.{RingBuffer, data_len, space_len, store, put, u16}
use s_kernel.RingBuffer.Inv.{IsValid, nth, contents, data_len_cases}

pub data_len-le : {rb : RingBuffer} → IsValid rb → data_len rb ≤ rb.buffer_size
data_len-le v = ground (arith, data_len_cases v)

buffer_size-store :
    (rb : RingBuffer) (src : List ℕ) (n : ℕ) → (store rb src n).buffer_size ≡ rb.buffer_size
unfolding store
buffer_size-store rb src n = ground arith

module _ {rb : RingBuffer} (v : IsValid rb) (src : List ℕ) (n : ℕ) (fits : n ≤ space_len rb) where
  pub store-IsValid : IsValid (store rb src n)
  unfolding store space_len
  store-IsValid =
      let side = rb.buffer_size - rb.write_index in
      ground (
        arith,
        data_len_cases v,
        length-write_at rb.buffer rb.write_index (read_at src 0 n),
        length-write_at rb.buffer rb.write_index (read_at src 0 side),
        length-write_at (write_at rb.buffer rb.write_index (read_at src 0 side)) 0
            (read_at src side (n - side)),
      )

  pub data_len-store : data_len (store rb src n) ≡ data_len rb + n
  unfolding store space_len
  data_len-store = ground (arith, data_len_cases v, store-IsValid, data_len_cases store-IsValid)

  -- The bytes that were there stay, in their places.
  nth-store_old : (k : ℕ) → k < data_len rb → nth (store rb src n) k ≡ nth rb k
  unfolding store space_len
  nth-store_old k h =
      let side = rb.buffer_size - rb.write_index in
      let j = wrap rb.buffer_size (rb.read_index + k) in
      ground (
        arith,
        data_len_cases v,
        length-tabulate n 0 (λ i. get_or src i 0),
        length-tabulate side 0 (λ i. get_or src i 0),
        length-tabulate (n - side) side (λ i. get_or src i 0),
        get_or-write_at_out rb.buffer rb.write_index (read_at src 0 n) j,
        get_or-write_at_out rb.buffer rb.write_index (read_at src 0 side) j,
        get_or-write_at_out (write_at rb.buffer rb.write_index (read_at src 0 side)) 0
            (read_at src side (n - side)) j,
      )

  nth-store_new : (k : ℕ) → k < n → nth (store rb src n) (data_len rb + k) ≡ get_or src k 0
  unfolding store space_len
  nth-store_new k h =
      let side = rb.buffer_size - rb.write_index in
      let f = λ (i : ℕ). get_or src i 0 in
      let inner = write_at rb.buffer rb.write_index (read_at src 0 side) in
      ground (
        arith,
        data_len_cases v,
        length-tabulate n 0 f,
        length-tabulate side 0 f,
        length-tabulate (n - side) side f,
        length-write_at rb.buffer rb.write_index (read_at src 0 side),
        get_or-write_at_in rb.buffer rb.write_index (read_at src 0 n) k,
        get_or-write_at_in rb.buffer rb.write_index (read_at src 0 side) k,
        get_or-write_at_out inner 0 (read_at src side (n - side)) (rb.write_index + k),
        get_or-write_at_in inner 0 (read_at src side (n - side)) (k - side),
        get_or-tabulate n 0 k f 0,
        get_or-tabulate side 0 k f 0,
        get_or-tabulate (n - side) side (k - side) f 0,
      )

  -- `store` appends the first `n` bytes of its source.
  pub contents-store : contents (store rb src n) ≡ contents rb ++ read_at src 0 n
  contents-store =
      let e : data_len (store rb src n) ≡ data_len rb + n = data_len-store in
      rw e (
        tabulate-add (data_len rb) n 0 (nth (store rb src n))
        ∙ ap₂ ◌++◌
            (tabulate-congr (data_len rb) 0 _ (nth rb) (λ k _ hi. nth-store_old k (omega arith)))
            (let e' : 0 + data_len rb ≡ data_len rb + 0 = omega arith in
              rw e' (
                tabulate-shift n 0 (data_len rb) (nth (store rb src n))
                ∙ tabulate-congr n 0 _ (λ k. get_or src k 0)
                    (λ k _ hi. nth-store_new k (omega arith)))))

module _ {rb : RingBuffer} (v : IsValid rb) (src : List ℕ) (len : ℕ) where
  pub space_len-le : space_len rb ≤ rb.buffer_size
  unfolding space_len
  space_len-le = ground arith

  put_none : space_len rb ≡ 0 → put rb src len ≡ (0, rb)
  unfolding put
  put_none e = rw e

  put_some :
      space_len rb ≢ 0
      → len < 2 ^ 16
      → put rb src len ≡ (min len (space_len rb), store rb src (min len (space_len rb)))
  unfolding put
  put_some ne h =
      let e : u16 (space_len rb) ≡ space_len rb = omega (arith, space_len-le, v.small) in
      let e' : (if ltb (space_len rb) len then space_len rb else len) ≡ min len (space_len rb) =
        ground arith in
      rw (e, e', ==_ne _ _ ne)

-- `sk_ring_buffer_put` on a valid ring: it takes as many of the `len` bytes that it is given as
-- there is room for, and returns their number; the ring then holds what it held, and behind it
-- exactly the first so many bytes of the source; the ring stays valid, with its size.
pub put_lem :
    {rb : RingBuffer} (src : List ℕ) (len : ℕ)
    → IsValid rb
    → len < 2 ^ 16
    → let n = min len (space_len rb) in
      ((put rb src len).0 ≡ n)
      × (contents (put rb src len).1 ≡ contents rb ++ read_at src 0 n)
      × ((put rb src len).1.buffer_size ≡ rb.buffer_size)
      × IsValid (put rb src len).1
put_lem {rb} src len v h = elim (Bool-cases (space_len rb == 0)) [
  | inl e ↦
      let z = ==_true (space_len rb) 0 e in
      let z' : min len (space_len rb) ≡ 0 = omega (arith, z) in
      rw (put_none v src len z, z') (refl, sym (append-nil _), refl, v)
  | inr ne ↦
      let n = min len (space_len rb) in
      let fits : n ≤ space_len rb = omega arith in
      rw (put_some v src len (==_false _ _ ne) h)
        (refl, contents-store v src n fits, buffer_size-store rb src n, store-IsValid v src n fits)
]
