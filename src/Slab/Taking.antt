-- ===== src/Slab/Taking.antt =====
-- What `sk_page_alloc` does to the free list.
use s_kernel.Common.{
  ℕ, ◌+◌, ◌-◌, ◌<◌, ◌≤◌, ◌≡◌, refl, arith, Bool, true, false, ◌||◌, ◌⊎◌, inl, inr, Option, none,
  some, List, [], ◌∷◌, ltb, ◌==◌, Bool-cases,
}
use s_kernel.Slab.Pages.{page_free, take_pages, page_alloc}
use s_kernel.Slab.Freeing.{in_block, is_free, is_free_below, IsAbove, IsOrdered, IsApart}

-- No block has `npages` pages or more.
abbrev pub IsShort : ℕ → List (ℕ × ℕ) → Type 0
IsShort npages [] = Unit {0}
IsShort npages ((b, page) ∷ rest) = (page < npages) × IsShort npages rest

-- What `sk_page_alloc` returns for `npages` pages.
abbrev pub Exhausted : ℕ → List (ℕ × ℕ) → Option ℕ × List (ℕ × ℕ) → Type 0
Exhausted npages xs r = (r ≡ (none, xs)) × IsShort npages xs

abbrev pub Allocated : ℕ → List (ℕ × ℕ) → Option ℕ × List (ℕ × ℕ) → Type 0
Allocated npages xs r =
    (b : ℕ) × (r.0 ≡ some b)
    × IsOrdered r.1
    × IsApart b npages r.1
    × ((a : ℕ) → is_free xs a ≡ (is_free r.1 a || in_block b npages a))
    × (page_free b npages r.1 ≡ xs)

bool_swap : (x y z : Bool) → ((x || y) || z) ≡ ((y || z) || x)
bool_swap x y z = ground arith

IsAbove-of_free :
    (lo : ℕ) (xs : List (ℕ × ℕ))
    → IsOrdered xs
    → ((a : ℕ) → a ≤ lo → is_free xs a ≡ false)
    → IsAbove lo xs
IsAbove-of_free lo [] o h = tt
IsAbove-of_free lo ((b, page) ∷ rest) o h = ground (arith, h b)

module _ (npages : ℕ) (positive : 0 < npages) where
  in_block_split :
      (b page a : ℕ)
      → npages < page
      → in_block b page a ≡ (in_block b npages a || in_block (b + npages) (page - npages) a)
  in_block_split b page a h = ground arith

  in_block_apart :
      (b page a : ℕ) → in_block b npages a ≡ true → in_block (b + npages) (page - npages) a ≡ false
  in_block_apart b page a h = ground arith

  in_block_low : (b page a : ℕ) → in_block b npages a ≡ true → npages < page → a ≤ b + page
  in_block_low b page a h h' = ground arith

  -- A longer block gives its first pages.
  first_part :
      (b page : ℕ) (rest : List (ℕ × ℕ))
      → IsOrdered ((b, page) ∷ rest)
      → npages < page
      → Allocated npages ((b, page) ∷ rest) (some b, (b + npages, page - npages) ∷ rest)
  unfolding page_free
  first_part b page rest o longer =
      let reach : b + npages + (page - npages) ≡ b + page = omega arith in
      (
        b,
        refl,
        (omega arith, rw reach o.1, o.2),
        λ a h. rw (
          in_block_apart b page a h,
          is_free_below (b + page) a rest o.1 o.2 (in_block_low b page a h longer),
        ),
        λ a. rw (in_block_split b page a longer) (
            bool_swap (in_block b npages a) (in_block (b + npages) (page - npages) a)
              (is_free rest a)),
        ground arith,
      )

  -- A block of the same length is taken whole.
  page_free_first :
      (b page : ℕ) (rest : List (ℕ × ℕ))
      → IsAbove (b + page) rest
      → IsOrdered rest
      → page_free b page rest ≡ (b, page) ∷ rest
  unfolding page_free
  page_free_first b page [] h o = refl
  page_free_first b page ((b', page') ∷ rest) h o = ground arith

  whole_block :
      (b page : ℕ) (rest : List (ℕ × ℕ))
      → IsOrdered ((b, page) ∷ rest)
      → npages ≡ page
      → Allocated npages ((b, page) ∷ rest) (some b, rest)
  whole_block b page rest o e = (
    b,
    refl,
    o.2,
    λ a h. ground (arith, is_free_below (b + page) a rest o.1 o.2),
    λ a. ground arith,
    rw e (page_free_first b page rest o.1 o.2),
  )

  later_block :
      (b page : ℕ) (rest : List (ℕ × ℕ)) (r : Option ℕ × List (ℕ × ℕ))
      → IsOrdered ((b, page) ∷ rest)
      → Allocated npages rest r
      → Allocated npages ((b, page) ∷ rest) (r.0, (b, page) ∷ r.1)
  unfolding page_free
  later_block b page rest r o (b', found, o', apart, free, back) =
      let behind : b + page < b' =
        ground (arith, is_free_below (b + page) b' rest o.1 o.2, free b') in
      (
        b',
        found,
        (
          o.0,
          IsAbove-of_free (b + page) r.1 o'
              (λ a le. ground (arith, free a, is_free_below (b + page) a rest o.1 o.2)),
          o',
        ),
        λ a h. ground (arith, apart a),
        λ a. ground (arith, free a),
        ground arith,
      )

  take_pages_lem :
      (xs : List (ℕ × ℕ))
      → IsOrdered xs
      → Exhausted npages xs (take_pages npages xs) ⊎ Allocated npages xs (take_pages npages xs)
  unfolding take_pages
  take_pages_lem [] o = inl (refl, tt)
  take_pages_lem ((b, page) ∷ rest) o = elim (Bool-cases (ltb npages page)) [
    | inl longer ↦ rw longer (inr (first_part b page rest o (ground arith)))
    | inr e ↦ elim (Bool-cases (page == npages)) [
      | inl same ↦ rw (e, same) (inr (whole_block b page rest o (ground arith)))
      | inr e' ↦ elim (take_pages_lem rest o.2) [
        | inl (none_left, short) ↦ rw (e, e', none_left) (inl (refl, (ground arith, short)))
        | inr got ↦ rw (e, e') (inr (later_block b page rest (take_pages npages rest) o got))
      ]
    ]
  ]

  -- `sk_page_alloc` of at least one page: either no block is long enough, and nothing changes; or
  -- it returns pages that were free and are no longer, all other pages are as before, the list stays
  -- in order and joined, and `sk_page_free` of these pages gives back the very list.
  pub page_alloc_lem :
      (xs : List (ℕ × ℕ))
      → IsOrdered xs
      → Exhausted npages xs (page_alloc npages xs) ⊎ Allocated npages xs (page_alloc npages xs)
  unfolding page_alloc
  page_alloc_lem xs o =
      let more : (npages == 0) ≡ false = ground arith in rw more (take_pages_lem xs o)
