-- ===== src/Slab/Freeing.antt =====
-- The free list, in order and with neighbouring blocks joined, and what `sk_page_free` does to it.
use s_kernel.Common.{
  ℕ, ◌+◌, ◌<◌, ◌≤◌, ◌≡◌, refl, arith, Bool, true, false, ◌&&◌, ◌||◌, ◌⊎◌, inl, inr, ==_true, List,
  [], ◌∷◌, ltb, leb, ◌==◌, Bool-cases,
}
use s_kernel.Slab.Pages.{join_next, page_free}

abbrev pub in_block : ℕ → ℕ → ℕ → Bool
in_block b page a = leb b a && ltb a (b + page)

-- The page is free.
abbrev pub is_free : List (ℕ × ℕ) → ℕ → Bool
is_free [] a = false
is_free ((b, page) ∷ rest) a = in_block b page a || is_free rest a

-- All blocks begin behind the page `lo`.
abbrev pub IsAbove : ℕ → List (ℕ × ℕ) → Type 0
IsAbove lo [] = Unit {0}
IsAbove lo ((b, page) ∷ rest) = lo < b

-- Blocks in order, none empty, and at least one page that is not free between any two.
abbrev pub IsOrdered : List (ℕ × ℕ) → Type 0
IsOrdered [] = Unit {0}
IsOrdered ((b, page) ∷ rest) = (0 < page) × IsAbove (b + page) rest × IsOrdered rest

-- Pages below all blocks are not free.
pub is_free_below :
    (lo a : ℕ) (xs : List (ℕ × ℕ)) → IsAbove lo xs → IsOrdered xs → a ≤ lo → is_free xs a ≡ false
is_free_below lo a [] h o le = refl
is_free_below lo a ((b, page) ∷ rest) h o le =
    ground (arith, is_free_below (b + page) a rest o.1 o.2)

-- None of the `num` pages from `n` on is free.
abbrev pub IsApart : ℕ → ℕ → List (ℕ × ℕ) → Type 0
IsApart n num xs = (a : ℕ) → in_block n num a ≡ true → is_free xs a ≡ false

module _ (n num : ℕ) (positive : 0 < num) where
  apart_first :
      (b page : ℕ) (rest : List (ℕ × ℕ))
      → 0 < page
      → IsApart n num ((b, page) ∷ rest)
      → (n + num ≤ b) ⊎ (b + page ≤ n)
  apart_first b page rest h apart = ground (arith, apart n, apart b)

  IsApart-rest :
      (b page : ℕ) (rest : List (ℕ × ℕ)) → IsApart n num ((b, page) ∷ rest) → IsApart n num rest
  IsApart-rest b page rest apart a h = ground (arith, apart a)

  join_next-IsOrdered :
      (b page : ℕ) (rest : List (ℕ × ℕ))
      → b + page ≡ n
      → IsAbove (b + page) rest
      → IsOrdered rest
      → IsApart n num rest
      → IsOrdered (join_next b (page + num) rest)
  unfolding join_next
  join_next-IsOrdered b page [] e h o apart = ground arith
  join_next-IsOrdered b page ((b', page') ∷ rest) e h o apart =
      ground (arith, apart_first b' page' rest o.0 apart)

  is_free-join_next :
      (b page : ℕ) (rest : List (ℕ × ℕ)) (a : ℕ)
      → b + page ≡ n
      → is_free (join_next b (page + num) rest) a
        ≡ (is_free ((b, page) ∷ rest) a || in_block n num a)
  unfolding join_next
  is_free-join_next b page [] a e = ground arith
  is_free-join_next b page ((b', page') ∷ rest) a e = ground arith

  IsAbove-page_free :
      (lo : ℕ) (xs : List (ℕ × ℕ)) → IsAbove lo xs → lo < n → IsAbove lo (page_free n num xs)
  unfolding page_free join_next
  IsAbove-page_free lo [] h lt = lt
  IsAbove-page_free lo ((b, page) ∷ []) h lt = ground arith
  IsAbove-page_free lo ((b, page) ∷ (b', page') ∷ rest) h lt = ground arith

  page_free-IsOrdered :
      (xs : List (ℕ × ℕ)) → IsOrdered xs → IsApart n num xs → IsOrdered (page_free n num xs)
  unfolding page_free
  page_free-IsOrdered [] o apart = (positive, tt, tt)
  page_free-IsOrdered ((b, page) ∷ rest) o apart =
      let first = apart_first b page rest o.0 apart in
      let away = IsApart-rest b page rest apart in
      let behind = IsAbove-page_free (b + page) rest o.1 in
      let ih = page_free-IsOrdered rest o.2 away in
      elim (Bool-cases (b + page == n)) [
        | inl e ↦ rw e (join_next-IsOrdered b page rest (==_true _ _ e) o.1 o.2 away)
        | inr e ↦ elim (Bool-cases (b == n + num)) [
          | inl e' ↦
              let reach : b + page ≡ n + (page + num) = omega (arith, ==_true b (n + num) e') in
              rw (e, e') (omega arith, rw⁻¹ reach o.1, o.2)
          | inr e' ↦ ground (arith, first, behind)
        ]
      ]

  is_free-page_free :
      (xs : List (ℕ × ℕ))
      → (a : ℕ) → is_free (page_free n num xs) a ≡ (is_free xs a || in_block n num a)
  unfolding page_free
  is_free-page_free [] a = ground arith
  is_free-page_free ((b, page) ∷ rest) a =
      ground (arith, is_free-page_free rest a, is_free-join_next b page rest a)

  -- `sk_page_free` of pages of which none is free makes free these pages and no others, and keeps
  -- the list in order and joined.
  pub page_free_lem :
      (xs : List (ℕ × ℕ))
      → IsOrdered xs
      → IsApart n num xs
      → IsOrdered (page_free n num xs)
        × ((a : ℕ) → is_free (page_free n num xs) a ≡ (is_free xs a || in_block n num a))
  page_free_lem xs o apart = (page_free-IsOrdered xs o apart, is_free-page_free xs)
