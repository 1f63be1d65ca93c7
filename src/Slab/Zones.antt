-- ===== src/Slab/Zones.antt =====
-- The zones of mem/slab.c. A zone, a chunk and SK_NULL are byte addresses; the head of a zone and the
-- links of the free chunks are kept apart from the bytes that the callers write.
use s_kernel.Common.{
  ℕ, ◌+◌, ◌-◌, ◌*◌, ◌/◌, ◌%◌, Bool, not, [], ◌∷◌, member, ltb, ◌==◌, if◌then◌else◌,
}
use s_kernel.Kernel.{null, update}

-- `struct slab_zone`, less the magic number, which nothing reads.
pub record Zone : Type 0 where
  pub nfree : ℕ
  pub nmax : ℕ
  pub next : ℕ
  pub baseptr : ℕ
  pub uindex : ℕ
  pub chunksize : ℕ
  pub zoneindex : ℕ
  pub freechunk : ℕ

-- SK_ALIGN for a power of two.
unfoldable pub align : ℕ → ℕ → ℕ
align size to = (size + to - 1) / to * to

-- SK_ALIGN(n, 127) clears the bits 1 to 6 of n + 126.
unfoldable pub align_127 : ℕ → ℕ
align_127 n = (n + 126) / 128 * 128 + (n + 126) % 2

-- `zone_index`: the result and the new `*bytes`. The source returns nothing from 16384 on.
unfoldable pub zone_index : ℕ → ℕ × ℕ
unfolding align align_127
zone_index n =
    if ltb n 128
    then (align n 8 / 8 - 1, align n 8)
    else if ltb n 256
    then (align n 16 / 16 + 7, align n 16)
    else if ltb n 512
    then (align n 32 / 32 + 15, align n 32)
    else if ltb n 1024
    then (align n 64 / 64 + 23, align n 64)
    else if ltb n 2048
    then (align_127 n / 128 + 31, align_127 n)
    else if ltb n 4096
    then (align n 256 / 256 + 39, align n 256)
    else if ltb n 8192
    then (align n 512 / 512 + 47, align n 512)
    else (align n 1024 / 1024 + 55, align n 1024)

-- The test `(size | (size - 1)) + 1 == (size << 1)` for the sizes that `zone_index` returns.
abbrev pub is_power_of_two : ℕ → Bool
is_power_of_two size =
    member size (8 ∷ 16 ∷ 32 ∷ 64 ∷ 128 ∷ 256 ∷ 512 ∷ 1024 ∷ 2048 ∷ 4096 ∷ 8192 ∷ 16384 ∷ [])

-- The size of `struct slab_zone`.
abbrev pub zone_head : ℕ
zone_head = 56

-- `sk_malloc` on a zone that it has just got; `old` is what the memory of the head held before.
unfoldable pub new_zone : ℕ → ℕ → ℕ → ℕ → ℕ → Zone → Zone
unfolding align
new_zone zone index size zone_size next old =
    let off = if is_power_of_two size then align zone_head size else align zone_head 8 in
    let nmax = (zone_size - off) / size in
    record old {
      zoneindex = index;
      nmax = nmax;
      nfree = nmax - 1;
      baseptr = zone + off;
      uindex = 0;
      chunksize = size;
      next = next;
    }

-- `sk_malloc` in a zone with a free chunk: the chunk and the zone. It counts the free chunks down
-- from a positive number.
unfoldable pub take_chunk : ℕ → Zone → (ℕ → ℕ) → ℕ × Zone
take_chunk size zone c_next =
    let counted = record zone {
      nfree = zone.nfree - 1;
      next = if zone.nfree == 1 then null else zone.next;
    } in
    if not (zone.uindex + 1 == zone.nmax)
    then (zone.baseptr + (zone.uindex + 1) * size, record counted { uindex = zone.uindex + 1 })
    else (zone.freechunk, record counted { freechunk = c_next zone.freechunk })

-- `sk_free` of a chunk, up to the count: the zone and the links of the chunks.
unfoldable pub put_chunk : ℕ → Zone → (ℕ → ℕ) → Zone × (ℕ → ℕ)
put_chunk chunk zone c_next =
    (record zone { freechunk = chunk; nfree = zone.nfree + 1 }, update c_next chunk zone.freechunk)
