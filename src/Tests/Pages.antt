-- ===== src/Tests/Pages.antt =====
-- The allocator at concrete inputs.
use s_kernel.Common.{ℕ, ◌≡◌, refl, arith, ◌||◌, ◌⊎◌, List, [], ◌∷◌, some}
use s_kernel.Slab.Pages.{page_free, page_alloc}
use s_kernel.Slab.Freeing.{in_block, is_free, IsOrdered, page_free_lem}
use s_kernel.Slab.Taking.{Exhausted, Allocated, page_alloc_lem}
use s_kernel.Slab.Zones.{Zone, zone_index}
use s_kernel.Slab.Chunks.{IsZone}
use s_kernel.Slab.Heap.{Heap, PageType, malloc}
use s_kernel.Slab.Blocks.{Served, free-malloc}

-- The pages 16 to 19 and 24 to 31 are free.
abbrev two_blocks : List (ℕ × ℕ)
two_blocks = (16, 4) ∷ (24, 8) ∷ []

two_blocks-IsOrdered : IsOrdered two_blocks
two_blocks-IsOrdered = (omega arith, omega arith, (omega arith, tt, tt))

page_alloc_lem_example :
    Exhausted 6 two_blocks (page_alloc 6 two_blocks)
    ⊎ Allocated 6 two_blocks (page_alloc 6 two_blocks)
page_alloc_lem_example = page_alloc_lem 6 (omega arith) two_blocks two_blocks-IsOrdered

-- The pages 20 to 23 join the two blocks.
page_free_lem_example :
    IsOrdered (page_free 20 4 two_blocks)
    × ((a : ℕ) → is_free (page_free 20 4 two_blocks) a ≡ (is_free two_blocks a || in_block 20 4 a))
page_free_lem_example =
    page_free_lem 20 4 (omega arith) two_blocks two_blocks-IsOrdered (λ a h. ground arith)

page_free_run : page_free 20 4 two_blocks ≡ (16, 16) ∷ []
unfolding page_free
page_free_run = refl

page_alloc_run : page_alloc 6 two_blocks ≡ (some 24, (16, 4) ∷ (30, 2) ∷ [])
unfolding page_alloc
page_alloc_run = refl

-- Two sizes with the same index, but not the same chunks.
zone_index_run : (zone_index 1024 ≡ (39, 1024)) × (zone_index 1025 ≡ (39, 1025))
unfolding zone_index
zone_index_run = (refl, refl)

-- A zone with four chunks of 16 bytes: the chunks 0 to 2 have been used, 1 has been given back.
abbrev zone : Zone
zone = record {
  nfree = 2;
  nmax = 4;
  next = 0;
  baseptr = 64;
  uindex = 2;
  chunksize = 16;
  zoneindex = 1;
  freechunk = 80;
}

abbrev no_links : ℕ → ℕ
no_links a = 0

zone-IsZone : IsZone zone no_links (1 ∷ [])
zone-IsZone = record {
  sized = omega arith;
  within = omega arith;
  list = (refl, omega arith, tt);
  distinct = (refl, tt);
  counted = refl;
}

abbrev heap : Heap
heap = record {
  page_list = two_blocks;
  mem_usage = λ page. (PageType.free_page, 0);
  zones = λ z. zone;
  c_next = no_links;
  zone_array = λ i. 0;
  zone_free = 0;
  zone_free_cnt = 0;
  zone_size = 32768;
  zone_limit = 8192;
}

free-malloc_example : Served 1 20000 heap (malloc 20000 heap)
free-malloc_example =
    free-malloc 1 20000 heap (omega arith) (omega arith) two_blocks-IsOrdered (omega arith)
