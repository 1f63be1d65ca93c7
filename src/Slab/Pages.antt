-- ===== src/Slab/Pages.antt =====
-- The page allocator of mem/slab.c. Addresses are counted in pages: a `struct sk_page_head` has the
-- size of a page, so that pointer arithmetic on it counts pages too. The free list is the blocks of
-- free pages, each with its address and its number of pages, as the heads link them; no page has
-- the address SK_NULL.
use s_kernel.Common.{ℕ, ◌+◌, ◌-◌, Option, none, some, List, [], ◌∷◌, ltb, ◌==◌, if◌then◌else◌}

-- `sk_page_init`: the new `sys_page_list`.
unfoldable pub page_init : ℕ → ℕ → List (ℕ × ℕ)
page_init addr npages = (addr, npages) ∷ []

-- The block has been extended up to the next one, or not so far.
unfoldable pub join_next : ℕ → ℕ → List (ℕ × ℕ) → List (ℕ × ℕ)
join_next b page [] = (b, page) ∷ []
join_next b page ((next, next_page) ∷ rest) =
    if b + page == next then (b, page + next_page) ∷ rest else (b, page) ∷ (next, next_page) ∷ rest

-- `sk_page_free`
unfoldable pub page_free : ℕ → ℕ → List (ℕ × ℕ) → List (ℕ × ℕ)
unfolding join_next
page_free n num_pages [] = (n, num_pages) ∷ []
page_free n num_pages ((b, page) ∷ rest) =
    let later = (b, page) ∷ page_free n num_pages rest in
    if b + page == n
    then join_next b (page + num_pages) rest
    else if b == n + num_pages
    then (n, page + num_pages) ∷ rest
    else if ltb (n + num_pages) b
    then (n, num_pages) ∷ (b, page) ∷ rest
    else later

-- The loop of `sk_page_alloc`: the address, if there is a block that is long enough, and the list.
unfoldable pub take_pages : ℕ → List (ℕ × ℕ) → Option ℕ × List (ℕ × ℕ)
take_pages npages [] = (none, [])
take_pages npages ((b, page) ∷ rest) =
    let (found, rest') = take_pages npages rest in
    if ltb npages page
    then (some b, (b + npages, page - npages) ∷ rest)
    else if page == npages
    then (some b, rest)
    else (found, (b, page) ∷ rest')

-- `sk_page_alloc`
unfoldable pub page_alloc : ℕ → List (ℕ × ℕ) → Option ℕ × List (ℕ × ℕ)
unfolding take_pages
page_alloc npages pages = if npages == 0 then (none, pages) else take_pages npages pages
