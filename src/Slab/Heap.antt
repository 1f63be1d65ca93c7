-- ===== src/Slab/Heap.antt =====
-- `sk_system_mem_init`, `sk_malloc` and `sk_free` of mem/slab.c. Blocks are byte addresses, pages are
-- counted from address 0 on; interrupts do not come in between.
use s_kernel.Common.{
  ℕ, zero, suc, ◌+◌, ◌-◌, ◌*◌, ◌/◌, ◌%◌, ◌^◌, not, ◌&&◌, ◌||◌, none, some, List, ltb, leb, ◌==◌,
  if◌then◌else◌, min, Err,
}
use s_kernel.Kernel.{null, update}
use s_kernel.Slab.Pages.{page_init, page_free, page_alloc}
use s_kernel.Slab.Zones.{Zone, align, zone_index, new_zone, take_chunk, put_chunk}

-- SK_PAGE_TYPE_FREE, _SMALL and _LARGE.
pub data PageType : Type 0 where
  free_page small_page large_page : PageType

-- The variables of the file, and behind them the page list, the zones and the links of the chunks.
-- `mem_usage` is what `btokup` finds for a page: `type` and `size`.
pub record Heap : Type 0 where
  pub page_list : List (ℕ × ℕ)
  pub mem_usage : ℕ → PageType × ℕ
  pub zones : ℕ → Zone
  pub c_next : ℕ → ℕ
  pub zone_array : ℕ → ℕ
  pub zone_free : ℕ
  pub zone_free_cnt : ℕ
  pub zone_size : ℕ
  pub zone_limit : ℕ

abbrev pub page_size : ℕ
page_size = 4096

-- The head of one zone is written.
abbrev pub set_zone : (ℕ → Zone) → ℕ → Zone → ℕ → Zone
set_zone zones z zone x = if x == z then zone else zones x

abbrev pub set_usage : (ℕ → PageType × ℕ) → ℕ → PageType × ℕ → ℕ → PageType × ℕ
set_usage usage page value x = if x == page then value else usage x

-- The loop of `sk_system_mem_init` that doubles the zone size; two rounds reach the maximum.
unfoldable pub double_zone_size : ℕ → ℕ → ℕ → ℕ
double_zone_size zero limit_size size = size
double_zone_size (suc fuel) limit_size size =
    let more = double_zone_size fuel limit_size (size * 2) in
    if ltb size (128 * 1024) && ltb (size * 2) (limit_size / 1024) then more else size

-- `sk_system_mem_init`; an entry of `sys_mem_usage` has four bytes. `h` is the memory before.
unfoldable pub mem_init : ℕ → ℕ → Heap → Err × Heap
unfolding align page_init double_zone_size
mem_init begin_addr end_addr h =
    let mem_start = align begin_addr page_size in
    let mem_end = align end_addr page_size in
    let limit_size = (mem_end - mem_start) % 2 ^ 32 in
    let num_pages = limit_size / page_size in
    let zone_size = double_zone_size 2 limit_size (32 * 1024) in
    let usage_size = align (num_pages * 4) page_size % 2 ^ 32 in
    let (usage_array, pages) =
      page_alloc (usage_size / page_size) (page_init (mem_start / page_size) num_pages) in
    if ltb mem_end mem_start then (Err.einval, h) else (
      Err.eok,
      record h {
        page_list = pages;
        zone_size = zone_size;
        zone_limit = min (zone_size / 4) (16 * 1024);
      },
    )

-- `sk_malloc` of a size that zones do not serve.
unfoldable pub malloc_large : ℕ → Heap → ℕ × Heap
unfolding align
malloc_large size h =
    let num_pages = align size page_size / page_size in
    let (found, pages) = page_alloc num_pages h.page_list in
    elim found [
      | none ↦ (null, record h { page_list = pages })
      | some page ↦ (
        page * page_size,
        record h {
          page_list = pages;
          mem_usage = set_usage h.mem_usage page (PageType.large_page, num_pages);
        },
      )
    ]

-- `sk_malloc` in the first zone of the array, which leaves the array when it becomes full.
unfoldable pub malloc_chunk : ℕ → ℕ → Heap → ℕ × Heap
malloc_chunk index size h =
    let z = h.zone_array index in
    let zone = h.zones z in
    let (chunk, zone') = take_chunk size zone h.c_next in
    (
      chunk,
      record h {
        zones = set_zone h.zones z zone';
        zone_array = if zone.nfree == 1 then update h.zone_array index zone.next else h.zone_array;
      },
    )

-- The loops that write the entries of the first `count` pages of a zone.
unfoldable pub mark_small : ℕ → ℕ → (ℕ → PageType × ℕ) → ℕ → PageType × ℕ
mark_small page zero usage = usage
mark_small page (suc off) usage =
    set_usage (mark_small page off usage) (page + off) (PageType.small_page, off)

unfoldable pub mark_free : ℕ → ℕ → (ℕ → PageType × ℕ) → ℕ → PageType × ℕ
mark_free page zero usage = usage
mark_free page (suc i) usage = set_usage (mark_free page i usage) (page + i) (PageType.free_page, 0)

-- Where `sk_malloc` gets a zone from: the free zones, or the pages; SK_NULL if there are none.
unfoldable pub get_zone : Heap → ℕ × Heap
unfolding mark_small
get_zone h =
    let count = h.zone_size / page_size in
    let (found, pages) = page_alloc count h.page_list in
    if not (h.zone_free == null)
    then (
      h.zone_free,
      record h { zone_free = (h.zones h.zone_free).next; zone_free_cnt = h.zone_free_cnt - 1 },
    )
    else elim found [
      | none ↦ (null, record h { page_list = pages })
      | some page ↦ (
        page * page_size,
        record h { page_list = pages; mem_usage = mark_small page count h.mem_usage },
      )
    ]

-- `sk_malloc` where no zone has a free chunk: the first chunk of a new one.
unfoldable pub malloc_zone : ℕ → ℕ → Heap → ℕ × Heap
unfolding get_zone
malloc_zone index size h =
    let (z, h') = get_zone h in
    let zone = new_zone z index size h.zone_size (h'.zone_array index) (h'.zones z) in
    if z == null then (null, h') else (
      zone.baseptr,
      record h' { zones = set_zone h'.zones z zone; zone_array = update h'.zone_array index z },
    )

-- `sk_malloc`
unfoldable pub malloc : ℕ → Heap → ℕ × Heap
unfolding malloc_large malloc_chunk malloc_zone
malloc size h =
    let (index, chunk_size) = zone_index size in
    if size == 0
    then (null, h)
    else if leb h.zone_limit size
    then malloc_large size h
    else if not (h.zone_array index == null)
    then malloc_chunk index chunk_size h
    else malloc_zone index chunk_size h

-- The loop of `sk_free` that takes the zone `z` out of the list that begins at `p`: the new beginning
-- and the zones; one round for each zone in front of `z`, and one more, are enough.
unfoldable pub unlink_zone : ℕ → ℕ → ℕ → (ℕ → Zone) → ℕ × (ℕ → Zone)
unlink_zone zero z p zones = (p, zones)
unlink_zone (suc fuel) z p zones =
    let (rest, zones') = unlink_zone fuel z (zones p).next zones in
    if p == z
    then ((zones z).next, zones)
    else (p, set_zone zones' p (record (zones' p) { next = rest }))

-- The zone that has become free last goes back to the pages. The source counts the pointer
-- `sys_zone_free` down, by one head, and not `sys_zone_free_cnt`.
unfoldable pub release_zone : Heap → Heap
unfolding mark_free
release_zone h =
    let z = h.zone_free in
    let count = h.zone_size / page_size in
    record h {
      zone_free = ((h.zones z).next + 2 ^ 64 - 56) % 2 ^ 64;
      mem_usage = mark_free (z / page_size) count h.mem_usage;
      page_list = page_free (z / page_size) count h.page_list;
    }

-- `sk_free` of a zone that has become free: it moves to the free zones.
unfoldable pub retire_zone : ℕ → ℕ → Heap → Heap
unfolding unlink_zone release_zone
retire_zone fuel z h =
    let index = (h.zones z).zoneindex in
    let (first, zones) = unlink_zone fuel z (h.zone_array index) h.zones in
    let retired = record h {
      zone_array = update h.zone_array index first;
      zones = set_zone zones z (record (zones z) { next = h.zone_free });
      zone_free = z;
      zone_free_cnt = h.zone_free_cnt + 1;
    } in
    let released = release_zone retired in if ltb 2 retired.zone_free_cnt then released else retired

-- `sk_free` of a chunk of the zone `z`.
unfoldable pub free_chunk : ℕ → ℕ → ℕ → Heap → Heap
unfolding retire_zone
free_chunk fuel chunk z h =
    let zone = h.zones z in
    let index = zone.zoneindex in
    let (put, c_next) = put_chunk chunk zone h.c_next in
    let linked = if zone.nfree == 0 then record put { next = h.zone_array index } else put in
    let array = if zone.nfree == 0 then update h.zone_array index z else h.zone_array in
    let h' = record h { zones = set_zone h.zones z linked; c_next = c_next; zone_array = array } in
    let retired = retire_zone fuel z h' in
    if linked.nfree == linked.nmax && (not (linked.next == null) || not (array index == z))
    then retired
    else h'

-- `sk_free`
unfoldable pub free : ℕ → ℕ → Heap → Heap
unfolding free_chunk
free fuel ptr h =
    let page = ptr / page_size in
    let (type, size) = h.mem_usage page in
    let large = record h {
      mem_usage = set_usage h.mem_usage page (type, 0);
      page_list = page_free page size h.page_list;
    } in
    let small = free_chunk fuel ptr ((page - size) * page_size) h in
    if ptr == null then h else elim type [
      | PageType.large_page ↦ large
      | PageType.small_page ↦ small
      | PageType.free_page ↦ small
    ]
