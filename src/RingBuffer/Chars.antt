-- ===== src/RingBuffer/Chars.antt =====
-- `sk_ring_buffer_putchar` and `sk_ring_buffer_getchar` against the block operations.
use s_kernel.Common.{ℕ, ◌≡◌, arith, List, [], ◌∷◌, Option, none, some}
use s_kernel.RingBuffer.{RingBuffer, space_len, put, store, get, putchar, getchar}
use s_kernel.RingBuffer.Inv.{IsValid}
use s_kernel.RingBuffer.Put.{data_len-le}

-- On a valid ring `sk_ring_buffer_putchar` is `sk_ring_buffer_put` of a block of one byte.
pub putchar-eq-put :
    {rb : RingBuffer} (byte : ℕ) → IsValid rb → putchar rb byte ≡ put rb (byte ∷ []) 1
unfolding putchar put store space_len
putchar-eq-put byte v = ground arith

abbrev pub first : List ℕ → Option ℕ
first [] = none
first (x ∷ xs) = some x

-- On a valid ring `sk_ring_buffer_getchar` is `sk_ring_buffer_get` of a block of one byte: the
-- same count, the byte of that block, and the same ring.
pub getchar-eq-get :
    {rb : RingBuffer} → IsValid rb → getchar rb ≡ ((get rb 1).0, first (get rb 1).1, (get rb 1).2)
unfolding getchar get
getchar-eq-get v = ground (arith, data_len-le v)
