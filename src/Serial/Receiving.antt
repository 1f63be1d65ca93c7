-- ===== src/Serial/Receiving.antt =====
-- What `sk_hw_serial_isr` receives.
use s_kernel.Common.{
  ℕ, zero, suc, ◌+◌, ◌-◌, ◌<◌, ◌≡◌, ◌≢◌, refl, sym, ap, ap₂, ◌∙◌, arith, false, Option, none, some,
  List, [], ◌∷◌, ◌++◌, append-nil, append_assoc, length, length-append, length-tabulate, get_or,
  read_at, take, min, ◌==◌,
}
use s_kernel.RingBuffer.{RingBuffer, data_len, space_len, put, putchar}
use s_kernel.RingBuffer.Inv.{IsValid, contents, length-contents}
use s_kernel.RingBuffer.Put.{put_lem}
use s_kernel.RingBuffer.Chars.{putchar-eq-put}
use s_kernel.Serial.{Serial, SerialOps, drain, serial_isr}

-- The port delivers these bytes and then none.
abbrev pub Delivers : {S : Type 0} → SerialOps S → S → List ℕ → S → Type 0
Delivers ops s [] s' = ops.getc s ≡ (none, s')
Delivers {S} ops s (byte ∷ bytes) s' =
    (s1 : S) × (ops.getc s ≡ (some byte, s1)) × Delivers ops s1 bytes s'

take_nil : (n : ℕ) → take {A = ℕ} n [] ≡ []
take_nil zero = refl
take_nil (suc n) = refl

one_more :
    (xs : List ℕ) (byte : ℕ) (bytes : List ℕ) (n : ℕ)
    → (xs ++ read_at (byte ∷ []) 0 (min 1 n)) ++ take (n - min 1 n) bytes
      ≡ xs ++ take n (byte ∷ bytes)
one_more xs byte bytes zero = append-nil (xs ++ [])
one_more xs byte bytes (suc n) =
    let one : min 1 (suc n) ≡ 1 = omega arith in
    let rest : suc n - 1 ≡ n = omega arith in
    rw (one, rest) (append_assoc xs (byte ∷ []) (take n bytes))

-- A byte goes behind the others if there is room.
putchar_lem :
    {rb : RingBuffer} (byte : ℕ) (bytes : List ℕ)
    → IsValid rb
    → let rb' = (putchar rb byte).1 in
      IsValid rb'
      × (contents rb' ++ take (space_len rb') bytes
          ≡ contents rb ++ take (space_len rb) (byte ∷ bytes))
unfolding space_len
putchar_lem {rb} byte bytes v =
    let (count, held, size, valid) = put_lem (byte ∷ []) 1 v (omega arith) in
    let rb' = (put rb (byte ∷ []) 1).1 in
    let n = min 1 (space_len rb) in
    let grown : data_len rb' ≡ data_len rb + n =
      sym (length-contents rb')
      ∙ ap length held
      ∙ length-append (contents rb) (read_at (byte ∷ []) 0 n)
      ∙ ap₂ (λ (a b : ℕ). a + b) (length-contents rb)
          (length-tabulate n 0 (λ k. get_or (byte ∷ []) k 0)) in
    let left : space_len rb' ≡ space_len rb - n = omega (arith, grown, size) in
    rw (putchar-eq-put byte v) (
      valid,
      ap₂ (λ (l : List ℕ) (k : ℕ). l ++ take k bytes) held left
          ∙ one_more (contents rb) byte bytes (space_len rb),
    )

module _ {S : Type 0} (ops : SerialOps S) where
  -- One round of the loop, by what the port returns.
  abbrev step : ℕ → RingBuffer → Option ℕ × S → RingBuffer × S
  step fuel rb (none, s) = (rb, s)
  step fuel rb (some byte, s) = drain ops fuel (putchar rb byte).1 s

  drain-step :
      (fuel : ℕ) (rb : RingBuffer) (s : S) (r : Option ℕ × S)
      → ops.getc s ≡ r
      → drain ops (suc fuel) rb s ≡ step fuel rb r
  unfolding drain
  drain-step fuel rb s (none, s1) e =
      rw (drain, ap (λ (r : Option ℕ × S). r.0) e) (ap (λ (r : Option ℕ × S). (rb, r.1)) e)
  drain-step fuel rb s (some byte, s1) e =
      rw (drain, ap (λ (r : Option ℕ × S). r.0) e)
        (ap (λ (r : Option ℕ × S). drain ops fuel (putchar rb byte).1 r.1) e)

  drain_lem :
      (fuel : ℕ) (bytes : List ℕ) (rb : RingBuffer) (s s' : S)
      → IsValid rb
      → Delivers ops s bytes s'
      → length bytes < fuel
      → let (rb', s'') = drain ops fuel rb s in
        (s'' ≡ s') × IsValid rb' × (contents rb' ≡ contents rb ++ take (space_len rb) bytes)
  drain_lem zero bytes rb s s' v d enough = absurd (omega arith)
  drain_lem (suc fuel) [] rb s s' v d enough = rw (drain-step fuel rb s (none, s') d) (
    refl,
    v,
    sym (
        ap (λ (l : List ℕ). contents rb ++ l) (take_nil (space_len rb)) ∙ append-nil (contents rb)),
  )
  drain_lem (suc fuel) (byte ∷ bytes) rb s s' v (s1, got, more) enough =
      let (valid, same) = putchar_lem byte bytes v in
      let (end, valid', held) =
        drain_lem fuel bytes (putchar rb byte).1 s1 s' valid more (omega arith) in
      rw (drain-step fuel rb s (some byte, s1) got) (end, valid', held ∙ same)

  -- `sk_hw_serial_isr` for received bytes on an open port whose ring for receiving is valid and not
  -- full, where the port delivers some bytes and then none: it comes to an end, one round for each byte
  -- and one more are enough, all bytes are taken from the port, and those that fit go into the ring
  -- behind what it held, in order; the ring stays valid.
  pub serial_isr_lem :
      (fuel : ℕ) (bytes : List ℕ) (serial : Serial) (rb : RingBuffer) (s s' : S)
      → IsValid rb
      → serial.serial_rx ≡ some rb
      → data_len rb ≢ rb.buffer_size
      → Delivers ops s bytes s'
      → length bytes < fuel
      → (rb' : RingBuffer) × (serial_isr ops fuel serial s
          ≡ some (record serial { serial_rx = some rb' }, s'))
        × IsValid rb'
        × (contents rb' ≡ contents rb ++ take (space_len rb) bytes)
  unfolding serial_isr
  serial_isr_lem fuel bytes serial rb s s' v ring not_full d enough =
      let (end, valid, held) = drain_lem fuel bytes rb s s' v d enough in
      let room : (data_len rb == rb.buffer_size) ≡ false = ground arith in
      ((drain ops fuel rb s).0, rw (ring, room, end) refl, valid, held)
