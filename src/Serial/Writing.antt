-- ===== src/Serial/Writing.antt =====
-- What `sk_serial_write` transmits.
use s_kernel.Common.{
  ℕ, zero, suc, ◌%◌, ◌^◌, ◌<◌, ◌≤◌, ◌≡◌, refl, sym, ap, ◌∙◌, arith, true, false, Bool-cases, inl,
  inr, some, List, [], ◌∷◌, ◌++◌, length, read_at, tabulate, length-tabulate, get_or, take, drop,
  min, ltb, ◌==◌, ==_true,
}
use s_kernel.RingBuffer.{RingBuffer, data_len, space_len, put}
use s_kernel.RingBuffer.Inv.{IsValid, contents, nth, length-contents}
use s_kernel.RingBuffer.Put.{put_lem, data_len-le}
use s_kernel.RingBuffer.Get.{get_lem}
use s_kernel.Serial.{Serial, SerialOps, send_data_size, get_ringbuf, serial_write}

take_all : (n : ℕ) (xs : List ℕ) → length xs ≡ n → take n xs ≡ xs
take_all zero [] e = refl
take_all zero (x ∷ xs) e = absurd (omega arith)
take_all (suc n) [] e = refl
take_all (suc n) (x ∷ xs) e = ap (λ (l : List ℕ). x ∷ l) (take_all n xs (omega arith))

drop_all : (n : ℕ) (xs : List ℕ) → length xs ≡ n → drop n xs ≡ []
drop_all zero [] e = refl
drop_all zero (x ∷ xs) e = absurd (omega arith)
drop_all (suc n) [] e = refl
drop_all (suc n) (x ∷ xs) e = drop_all n xs (omega arith)

contents_empty : (rb : RingBuffer) → data_len rb ≡ 0 → contents rb ≡ []
contents_empty rb e = ap (λ (d : ℕ). tabulate d 0 (nth rb)) e

-- All bytes leave the ring, in order.
get_ringbuf_lem :
    {rb : RingBuffer}
    → IsValid rb
    → let (bytes, rb') = get_ringbuf rb in (bytes ≡ contents rb) × (contents rb' ≡ []) × IsValid rb'
unfolding get_ringbuf
get_ringbuf_lem {rb} v =
    let d = data_len rb in
    let (count, bytes, left, valid) = get_lem d v (omega (arith, data_len-le v, v.small)) in
    let all : min d d ≡ d = omega arith in
    elim (Bool-cases (data_len rb == 0)) [
      | inl e ↦ let z = contents_empty rb (==_true _ _ e) in rw e (sym z, z, v)
      | inr e ↦ rw e (
        bytes
            ∙ ap (λ (n : ℕ). take n (contents rb)) all
            ∙ take_all d (contents rb) (length-contents rb),
        left
            ∙ ap (λ (n : ℕ). drop n (contents rb)) all
            ∙ drop_all d (contents rb) (length-contents rb),
        valid,
      )
    ]

module _ {S : Type 0} (ops : SerialOps S) where
  -- `sk_serial_write` of some bytes, fewer than 2^16, on an open port whose ring for sending is valid
  -- and empty: as many bytes as fit into the ring are transmitted, if those are at most 64, exactly the
  -- first ones and in one call, their number is returned, and the ring is valid and empty again.
  pub serial_write_lem :
      (buf : List ℕ) (size : ℕ) (serial : Serial) (rb : RingBuffer) (s : S)
      → IsValid rb
      → data_len rb ≡ 0
      → serial.serial_tx ≡ some rb
      → 0 < serial.tx_buf_size
      → 0 < size
      → size < 2 ^ 16
      → min size (space_len rb) ≤ send_data_size
      → let n = min size (space_len rb) in
        (rb' : RingBuffer) × (serial_write ops buf size serial s
          ≡ some (
            n,
            record serial { serial_tx = some rb'; activated = true },
            ops.transmit (read_at buf 0 n) s,
          ))
        × IsValid rb'
        × (contents rb' ≡ [])
  unfolding serial_write
  serial_write_lem buf size serial rb s v empty ring buffered some_bytes small fits =
      let n = min size (space_len rb) in
      let filled = (put rb buf size).1 in
      let (count, held, kept, v') = put_lem buf size v small in
      let (bytes, left, v'') = get_ringbuf_lem v' in
      let content : (get_ringbuf filled).0 ≡ read_at buf 0 n =
        bytes ∙ held ∙ ap (λ (l : List ℕ). l ++ read_at buf 0 n) (contents_empty rb empty) in
      let size_same : size % 2 ^ 16 ≡ size = omega arith in
      let there : (size == 0) ≡ false = ground arith in
      let has_ring : (serial.tx_buf_size == 0) ≡ false = ground arith in
      let many : length (get_ringbuf filled).0 ≡ n =
        ap length content ∙ length-tabulate n 0 (λ k. get_or buf k 0) in
      let room : ltb send_data_size (length (get_ringbuf filled).0) ≡ false =
        ground (arith, many) in
      (
        (get_ringbuf filled).1,
        rw (there, has_ring, ring, size_same, room, count, content) refl,
        v'',
        left,
      )
