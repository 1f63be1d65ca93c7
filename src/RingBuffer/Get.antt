-- ===== src/RingBuffer/Get.antt =====
-- `sk_ring_buffer_get` takes the oldest bytes out.
use s_kernel.Common.{
  wrap, ℕ, ◌+◌, ◌-◌, ◌^◌, ◌<◌, ◌≤◌, ◌≡◌, ◌≢◌, refl, sym, not, arith, ◌∙◌, ap, ap₂, inl, inr, ltb,
  ◌==◌, Bool-cases, ==_true, ==_false, ==_ne, if◌then◌else◌, min, List, [], ◌++◌, get_or, take,
  drop, take-tabulate, drop-tabulate, tabulate, tabulate-congr, tabulate-add, tabulate-shift,
  read_at,
}
use s_kernel.RingBuffer.{RingBuffer, data_len, get, u16}
use s_kernel.RingBuffer.Inv.{IsValid, nth, contents, data_len_cases}
use s_kernel.RingBuffer.Put.{data_len-le}

-- The ring after the `n` oldest bytes are gone.
fetch : RingBuffer → ℕ → RingBuffer
fetch rb n =
    if ltb n (rb.buffer_size - rb.read_index)
    then record rb { read_index = rb.read_index + n }
    else record rb {
      read_mirror = not rb.read_mirror;
      read_index = n - (rb.buffer_size - rb.read_index);
    }

fetched : RingBuffer → ℕ → List ℕ
fetched rb n =
    let side = rb.buffer_size - rb.read_index in
    if ltb n side
    then read_at rb.buffer rb.read_index n
    else read_at rb.buffer rb.read_index side ++ read_at rb.buffer 0 (n - side)

module _ {rb : RingBuffer} (v : IsValid rb) (n : ℕ) (fits : n ≤ data_len rb) where
  fetch-IsValid : IsValid (fetch rb n)
  unfolding fetch
  fetch-IsValid = ground (arith, data_len_cases v)

  data_len-fetch : data_len (fetch rb n) + n ≡ data_len rb
  unfolding fetch
  data_len-fetch = ground (arith, data_len_cases v, fetch-IsValid, data_len_cases fetch-IsValid)

  nth-fetch : (k : ℕ) → n + k < data_len rb → nth (fetch rb n) k ≡ nth rb (n + k)
  unfolding fetch
  nth-fetch k h = ground (arith, data_len_cases v)

  contents-fetch : contents (fetch rb n) ≡ drop n (contents rb)
  contents-fetch =
      let m = data_len (fetch rb n) in
      let e : data_len rb ≡ n + m = omega (arith, data_len-fetch) in
      let z : 0 + n ≡ n + 0 = omega arith in
      rw e (
        sym (
          drop-tabulate n m 0 (nth rb)
          ∙ rw z (
              tabulate-shift m 0 n (nth rb)
              ∙ tabulate-congr m 0 _ (nth (fetch rb n))
                  (λ k _ hi. sym (nth-fetch k (omega arith))))))

  -- A run of the storage is a run of what the ring holds.
  run :
      (i j m : ℕ)
      → ((k : ℕ) → k < m → wrap rb.buffer_size (rb.read_index + (j + k)) ≡ i + k)
      → read_at rb.buffer i m ≡ tabulate m j (nth rb)
  run i j m h =
      let z : i ≡ i + 0 = omega arith in
      let z' : j ≡ j + 0 = omega arith in
      rw (z, z')
        (tabulate-shift m 0 i (λ k. get_or rb.buffer k 0)
          ∙ tabulate-congr m 0 _ (λ k. nth rb (j + k))
              (λ k _ hi. ap (λ (a : ℕ). get_or rb.buffer a 0) (sym (h k (omega arith))))
          ∙ sym (tabulate-shift m 0 j (nth rb)))

  take-contents : take n (contents rb) ≡ tabulate n 0 (nth rb)
  take-contents =
      let e : data_len rb ≡ n + (data_len rb - n) = omega arith in
      rw e (take-tabulate n (data_len rb - n) 0 (nth rb))

  -- The copies deliver the oldest bytes.
  fetched-take : fetched rb n ≡ take n (contents rb)
  unfolding fetched
  fetched-take = elim (Bool-cases (ltb n (rb.buffer_size - rb.read_index))) [
    | inl short ↦
        rw (short, take-contents)
          (run rb.read_index 0 n (λ k hi. ground (arith, data_len_cases v, data_len-le v)))
    | inr long ↦
        let side = rb.buffer_size - rb.read_index in
        let e : n ≡ side + (n - side) = ground arith in
        let joined : tabulate n 0 (nth rb)
            ≡ tabulate side 0 (nth rb) ++ tabulate (n - side) (0 + side) (nth rb) =
          ap (λ (a : ℕ). tabulate a 0 (nth rb)) e ∙ tabulate-add side (n - side) 0 (nth rb) in
        rw (long, take-contents, joined)
          (ap₂ ◌++◌ (run rb.read_index 0 side (λ k hi. ground arith))
            (run 0 (0 + side) (n - side) (λ k hi. ground (arith, data_len_cases v, data_len-le v))))
  ]

  get_some :
      (len : ℕ)
      → len < 2 ^ 16
      → data_len rb ≢ 0
      → n ≡ min len (data_len rb)
      → get rb len ≡ (n, fetched rb n, fetch rb n)
  unfolding get fetched fetch
  get_some len h ne e =
      let e' : u16 (data_len rb) ≡ data_len rb = omega (arith, data_len-le v, v.small) in
      let side : u16 (rb.buffer_size + 2 ^ 16 - rb.read_index) ≡ rb.buffer_size - rb.read_index =
        omega (arith, v.small, v.read_in) in
      let cut : (if ltb (data_len rb) len then data_len rb else len) ≡ n = ground arith in
      rw (e', side, cut, ==_ne _ _ ne) (ground (arith, data_len_cases v))

get_none : (rb : RingBuffer) (len : ℕ) → data_len rb ≡ 0 → get rb len ≡ (0, [], rb)
unfolding get
get_none rb len e = rw e

-- `sk_ring_buffer_get` on a valid ring: it delivers as many bytes as are asked for and there, and
-- returns their number; they are the oldest ones in order, exactly they leave the ring, and the
-- ring stays valid.
pub get_lem :
    {rb : RingBuffer} (len : ℕ)
    → IsValid rb
    → len < 2 ^ 16
    → let n = min len (data_len rb) in
      ((get rb len).0 ≡ n)
      × ((get rb len).1 ≡ take n (contents rb))
      × (contents (get rb len).2 ≡ drop n (contents rb))
      × IsValid (get rb len).2
get_lem {rb} len v h = elim (Bool-cases (data_len rb == 0)) [
  | inl e ↦
      let z = ==_true (data_len rb) 0 e in
      let z' : min len (data_len rb) ≡ 0 = omega (arith, z) in
      rw (get_none rb len z, z') (refl, refl, refl, v)
  | inr ne ↦
      let n = min len (data_len rb) in
      let fits : n ≤ data_len rb = omega arith in
      rw (get_some v n fits len h (==_false _ _ ne) refl)
        (refl, fetched-take v n fits, contents-fetch v n fits, fetch-IsValid v n fits)
]
