-- ===== src/RingBuffer/Storage.antt =====
-- `sk_ring_buffer_create` and `sk_ring_buffer_destroy` of common/ring_buffer.c, over the allocator.
use s_kernel.Common.{ℕ, Option, none, some, List, ◌==◌, if◌then◌else◌}
use s_kernel.Kernel.{null}
use s_kernel.Slab.Heap.{Heap, malloc, free}
use s_kernel.RingBuffer
use s_kernel.RingBuffer.{RingBuffer}

-- A ring that was created: the addresses of the structure and of its storage, and its fields.
pub record Created : Type 0 where
  pub rb : ℕ
  pub buf : ℕ
  pub ring : RingBuffer

-- `sk_ring_buffer_create`, with the size of the structure and the bytes that stand in the storage;
-- `fuel` is for `sk_free`.
unfoldable pub create : ℕ → ℕ → ℕ → List ℕ → Heap → Option Created × Heap
create fuel sizeof size bytes h =
    let (rb, h₁) = malloc sizeof h in
    let (buf, h₂) = malloc size h₁ in
    let created : Created = record { rb = rb; buf = buf; ring = RingBuffer.init bytes size } in
    if rb == null
    then (none, h₁)
    else if buf == null
    then (none, free fuel rb h₂)
    else (some created, h₂)

-- `sk_ring_buffer_destroy`
unfoldable pub destroy : ℕ → Option Created → Heap → Heap
destroy fuel none h = h
destroy fuel (some c) h = free fuel c.rb (free fuel c.buf h)
