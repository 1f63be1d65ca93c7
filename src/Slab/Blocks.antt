-- ===== src/Slab/Blocks.antt =====
-- What `sk_malloc` and `sk_free` do with large blocks, and the zones that `sk_system_mem_init` sets up.
use s_kernel.Common.{
  ℕ, ◌-◌, ◌*◌, ◌/◌, ◌%◌, ◌^◌, ◌<◌, ◌≤◌, ◌≡◌, ◌≢◌, refl, ◌∙◌, ap, arith, true, false, ◌||◌, List,
  Option, none, some, ltb, leb, ◌==◌, ◌⊎◌, inl, inr, Bool-cases, Err,
}
use s_kernel.Kernel.{null}
use s_kernel.Slab.Pages.{page_free, page_alloc}
use s_kernel.Slab.Freeing.{in_block, is_free, is_free_below, IsAbove, IsOrdered, IsApart}
use s_kernel.Slab.Taking.{IsShort, page_alloc_lem}
use s_kernel.Slab.Zones.{align, align_127, zone_index}
use s_kernel.Slab.Heap.{
  Heap, PageType, page_size, set_usage, double_zone_size, mem_init, malloc_large, malloc, free,
}

-- The pages of a block of `size` bytes.
abbrev pub pages_of : ℕ → ℕ
pages_of size = align size page_size / page_size

pages_of_positive : (size : ℕ) → 0 < size → 0 < pages_of size
unfolding align
pages_of_positive size positive = ground arith

zone_index_below : (n : ℕ) → 0 < n → n < 8192 → (0 < (zone_index n).1) × ((zone_index n).1 ≤ 8192)
unfolding zone_index align align_127
zone_index_below n positive small = ground arith

zone_index_above :
    (n : ℕ) → 8192 ≤ n → n < 16384 → (0 < (zone_index n).1) × ((zone_index n).1 ≤ 16384)
unfolding zone_index align align_127
zone_index_above n large small = ground arith

double_zone_size_lem :
    (limit : ℕ)
    → let size = double_zone_size 2 limit (32 * 1024) in
      (size ≡ 32768) ⊎ ((size ≡ 65536) ⊎ (size ≡ 131072))
unfolding double_zone_size
double_zone_size_lem limit = ground arith

-- `sk_system_mem_init` of a heap that does not end before it begins succeeds, and every size that
-- zones serve from then on gets chunks of at most a quarter of a zone, of at least 32 KB.
pub mem_init_lem :
    (begin_addr end_addr : ℕ) (h : Heap)
    → align begin_addr page_size ≤ align end_addr page_size
    → let (code, h') = mem_init begin_addr end_addr h in
      (code ≡ Err.eok)
      × (32768 ≤ h'.zone_size)
      × ((size : ℕ)
          → 0 < size
          → size < h'.zone_limit
          → (0 < (zone_index size).1) × (4 * (zone_index size).1 ≤ h'.zone_size))
unfolding mem_init
mem_init_lem begin_addr end_addr h le =
    let no_error : ltb (align end_addr page_size) (align begin_addr page_size) ≡ false =
      ground arith in
    let limit_size = (align end_addr page_size - align begin_addr page_size) % 2 ^ 32 in
    let cases = double_zone_size_lem limit_size in
    rw no_error (
      refl,
      omega (arith, cases),
      λ size positive small. elim (Bool-cases (ltb size 8192)) [
        | inl e ↦
            let below = zone_index_below size positive (ground arith) in
            (below.0, omega (arith, cases, below))
        | inr e ↦
            let above = zone_index_above size (ground arith) (omega (arith, cases)) in
            let large : 8192 ≤ size = ground arith in (above.0, omega (arith, cases, above, large))
      ],
    )

-- The heap after a large block has been taken out of the page list.
abbrev large_taken : ℕ → ℕ → List (ℕ × ℕ) → Heap → Heap
large_taken b count pages h = record h {
  page_list = pages;
  mem_usage = set_usage h.mem_usage b (PageType.large_page, count);
}

malloc-eq-malloc_large :
    (size : ℕ) (h : Heap) → 0 < size → h.zone_limit ≤ size → malloc size h ≡ malloc_large size h
unfolding malloc
malloc-eq-malloc_large size h positive large =
    let some_bytes : (size == 0) ≡ false = ground arith in
    let direct : leb h.zone_limit size ≡ true = ground arith in rw (some_bytes, direct) refl

malloc_large-some :
    (size b : ℕ) (h : Heap)
    → (page_alloc (pages_of size) h.page_list).0 ≡ some b
    → malloc_large size h
      ≡ (b * page_size, large_taken b (pages_of size) (page_alloc (pages_of size) h.page_list).1 h)
unfolding malloc_large
malloc_large-some size b h found = rw (malloc_large, found) refl

malloc_large-none :
    (size : ℕ) (h : Heap)
    → page_alloc (pages_of size) h.page_list ≡ (none, h.page_list)
    → malloc_large size h ≡ (null, h)
unfolding malloc_large
malloc_large-none size h nothing =
    let pages = page_alloc (pages_of size) h.page_list in
    let found : pages.0 ≡ none = ap (λ (r : Option ℕ × List (ℕ × ℕ)). r.0) nothing in
    let left : pages.1 ≡ h.page_list = ap (λ (r : Option ℕ × List (ℕ × ℕ)). r.1) nothing in
    rw (malloc_large, found, left) refl

free_of_large :
    (fuel ptr page count : ℕ) (h : Heap)
    → ptr ≢ null
    → ptr / page_size ≡ page
    → h.mem_usage page ≡ (PageType.large_page, count)
    → (free fuel ptr h).page_list ≡ page_free page count h.page_list
unfolding free
free_of_large fuel ptr page count h ne at usage =
    let there : (ptr == null) ≡ false = ground arith in rw (there, at, usage) (rw (at, usage) refl)

free_large :
    (fuel b count : ℕ) (pages : List (ℕ × ℕ)) (h : Heap)
    → 0 < b
    → (free fuel (b * page_size) (large_taken b count pages h)).page_list ≡ page_free b count pages
free_large fuel b count pages h positive =
    free_of_large fuel (b * page_size) b count (large_taken b count pages h) (omega arith)
      (omega arith) (ground arith)

-- What `sk_malloc` returns for a large block.
abbrev pub Served : ℕ → ℕ → Heap → ℕ × Heap → Type 0
Served fuel size h (ptr, h') =
    ((ptr ≡ null) × (h' ≡ h) × IsShort (pages_of size) h.page_list)
    ⊎ ((b : ℕ) × (ptr ≡ b * page_size)
        × (ptr ≢ null)
        × ((a : ℕ)
            → is_free h.page_list a ≡ (is_free h'.page_list a || in_block b (pages_of size) a))
        × IsApart b (pages_of size) h'.page_list
        × ((free fuel ptr h').page_list ≡ h.page_list))

-- `sk_malloc` of a size that zones do not serve, on free pages in order and joined, of which none has
-- the address SK_NULL: if it returns SK_NULL, no free block is long enough and nothing has changed;
-- otherwise all pages of the block were free and are not any more, and `sk_free` of it makes the list
-- of free pages the same as before.
pub free-malloc :
    (fuel size : ℕ) (h : Heap)
    → 0 < size
    → h.zone_limit ≤ size
    → IsOrdered h.page_list
    → IsAbove 0 h.page_list
    → Served fuel size h (malloc size h)
free-malloc fuel size h positive large ordered above =
    let more = pages_of_positive size positive in
    let pages = page_alloc_lem (pages_of size) more h.page_list ordered in
    rw (malloc-eq-malloc_large size h positive large) (elim pages [
      | inl (nothing, short) ↦ rw (malloc_large-none size h nothing) (inl (refl, refl, short))
      | inr (b, found, ordered', apart, freed, back) ↦
          let b_positive : 0 < b =
            ground (arith, is_free_below 0 b h.page_list above ordered, freed b) in
          rw (malloc_large-some size b h found) (
            inr (
              b,
              refl,
              omega arith,
              freed,
              apart,
              free_large fuel b (pages_of size) (page_alloc (pages_of size) h.page_list).1 h
                    b_positive
                  ∙ back,
            ))
    ])
