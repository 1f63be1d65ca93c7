-- ===== src/Common/Ffs.antt =====
-- `__sk_ffs` of include/kernel/base_def.h: the lowest set bit, by a table for each byte. Of an index
-- outside the table nothing is read; a byte is below 256.
use Prim.Native.Nat.{ℕ, zero, suc, ◌+◌, ◌*◌}
use mathlib.Core.Path.{◌≡◌, refl, sym, ap, ◌∙◌}
use mathlib.Core.Logic.{inl, inr}
use native.Mathlib.Omega.{arith}
use mathlib.Core.Bool.{Bool, true, false, not, ◌&&◌, ◌||◌}
use mathlib.Core.List.{List, [], ◌∷◌}
use s_kernel.Common.Tests.{◌==◌, if◌then◌else◌, Bool-cases}
use s_kernel.Common.Lists.{get_or}
use s_kernel.Common.Words.{Bits, width, first_from, nonzero, nonzero_from}

-- `__lowest_bit_bitmap`
abbrev pub lowest_bit_bitmap : List ℕ
lowest_bit_bitmap =
    0 ∷ 0 ∷ 1 ∷ 0 ∷ 2 ∷ 0 ∷ 1 ∷ 0 ∷ 3 ∷ 0 ∷ 1 ∷ 0 ∷ 2 ∷ 0 ∷ 1 ∷ 0 ∷ 4 ∷ 0 ∷ 1 ∷ 0 ∷ 2 ∷ 0 ∷ 1 ∷ 0
    ∷ 3 ∷ 0 ∷ 1 ∷ 0 ∷ 2 ∷ 0 ∷ 1 ∷ 0 ∷ 5 ∷ 0 ∷ 1 ∷ 0 ∷ 2 ∷ 0 ∷ 1 ∷ 0 ∷ 3 ∷ 0 ∷ 1 ∷ 0 ∷ 2 ∷ 0 ∷ 1 ∷ 0
    ∷ 4 ∷ 0 ∷ 1 ∷ 0 ∷ 2 ∷ 0 ∷ 1 ∷ 0 ∷ 3 ∷ 0 ∷ 1 ∷ 0 ∷ 2 ∷ 0 ∷ 1 ∷ 0 ∷ 6 ∷ 0 ∷ 1 ∷ 0 ∷ 2 ∷ 0 ∷ 1 ∷ 0
    ∷ 3 ∷ 0 ∷ 1 ∷ 0 ∷ 2 ∷ 0 ∷ 1 ∷ 0 ∷ 4 ∷ 0 ∷ 1 ∷ 0 ∷ 2 ∷ 0 ∷ 1 ∷ 0 ∷ 3 ∷ 0 ∷ 1 ∷ 0 ∷ 2 ∷ 0 ∷ 1 ∷ 0
    ∷ 5 ∷ 0 ∷ 1 ∷ 0 ∷ 2 ∷ 0 ∷ 1 ∷ 0 ∷ 3 ∷ 0 ∷ 1 ∷ 0 ∷ 2 ∷ 0 ∷ 1 ∷ 0 ∷ 4 ∷ 0 ∷ 1 ∷ 0 ∷ 2 ∷ 0 ∷ 1 ∷ 0
    ∷ 3 ∷ 0 ∷ 1 ∷ 0 ∷ 2 ∷ 0 ∷ 1 ∷ 0 ∷ 7 ∷ 0 ∷ 1 ∷ 0 ∷ 2 ∷ 0 ∷ 1 ∷ 0 ∷ 3 ∷ 0 ∷ 1 ∷ 0 ∷ 2 ∷ 0 ∷ 1 ∷ 0
    ∷ 4 ∷ 0 ∷ 1 ∷ 0 ∷ 2 ∷ 0 ∷ 1 ∷ 0 ∷ 3 ∷ 0 ∷ 1 ∷ 0 ∷ 2 ∷ 0 ∷ 1 ∷ 0 ∷ 5 ∷ 0 ∷ 1 ∷ 0 ∷ 2 ∷ 0 ∷ 1 ∷ 0
    ∷ 3 ∷ 0 ∷ 1 ∷ 0 ∷ 2 ∷ 0 ∷ 1 ∷ 0 ∷ 4 ∷ 0 ∷ 1 ∷ 0 ∷ 2 ∷ 0 ∷ 1 ∷ 0 ∷ 3 ∷ 0 ∷ 1 ∷ 0 ∷ 2 ∷ 0 ∷ 1 ∷ 0
    ∷ 6 ∷ 0 ∷ 1 ∷ 0 ∷ 2 ∷ 0 ∷ 1 ∷ 0 ∷ 3 ∷ 0 ∷ 1 ∷ 0 ∷ 2 ∷ 0 ∷ 1 ∷ 0 ∷ 4 ∷ 0 ∷ 1 ∷ 0 ∷ 2 ∷ 0 ∷ 1 ∷ 0
    ∷ 3 ∷ 0 ∷ 1 ∷ 0 ∷ 2 ∷ 0 ∷ 1 ∷ 0 ∷ 5 ∷ 0 ∷ 1 ∷ 0 ∷ 2 ∷ 0 ∷ 1 ∷ 0 ∷ 3 ∷ 0 ∷ 1 ∷ 0 ∷ 2 ∷ 0 ∷ 1 ∷ 0
    ∷ 4 ∷ 0 ∷ 1 ∷ 0 ∷ 2 ∷ 0 ∷ 1 ∷ 0 ∷ 3 ∷ 0 ∷ 1 ∷ 0 ∷ 2 ∷ 0 ∷ 1 ∷ 0 ∷ []

-- The byte of the word whose lowest bit is the bit `i`: `(value >> i) & 0xff`.
unfoldable pub value_from : ℕ → ℕ → Bits → ℕ
value_from zero i b = 0
value_from (suc n) i b = (if b i then 1 else 0) + 2 * value_from n (i + 1) b

abbrev pub byte : ℕ → Bits → ℕ
byte i b = value_from 8 i b

-- `__sk_ffs`
unfoldable pub ffs : Bits → ℕ
ffs value =
    if not (nonzero value)
    then 0
    else if not (byte 0 value == 0)
    then get_or lowest_bit_bitmap (byte 0 value) 0 + 1
    else if not (byte 8 value == 0)
    then get_or lowest_bit_bitmap (byte 8 value) 0 + 9
    else if not (byte 16 value == 0)
    then get_or lowest_bit_bitmap (byte 16 value) 0 + 17
    else get_or lowest_bit_bitmap (byte 24 value) 0 + 25

-- The table agrees with the lowest set bit for the byte with the bits of a list.
value_of : List Bool → ℕ
value_of [] = 0
value_of (x ∷ xs) = (if x then 1 else 0) + 2 * value_of xs

first_of : List Bool → ℕ
first_of [] = 0
first_of (x ∷ xs) = if x then 0 else suc (first_of xs)

agrees : List Bool → Bool
agrees l = (value_of l == 0) || (get_or lowest_bit_bitmap (value_of l) 0 == first_of l)

for_all : ℕ → (List Bool → Bool) → Bool
for_all zero f = f []
for_all (suc n) f = for_all n (λ l. f (true ∷ l)) && for_all n (λ l. f (false ∷ l))

table : for_all 8 agrees ≡ true
unfolding for_all agrees value_of first_of
table = refl

bits_from : ℕ → ℕ → Bits → List Bool
bits_from zero i b = []
bits_from (suc n) i b = b i ∷ bits_from n (i + 1) b

for_all-bits_from :
    (n : ℕ) (f : List Bool → Bool)
    → for_all n f ≡ true
    → (i : ℕ) (b : Bits) → f (bits_from n i b) ≡ true
unfolding for_all bits_from
for_all-bits_from zero f h i b = h
for_all-bits_from (suc n) f h i b = elim (Bool-cases (b i)) [
  | inl e ↦ rw e (for_all-bits_from n (λ l. f (true ∷ l)) (ground arith) (i + 1) b)
  | inr e ↦ rw e (for_all-bits_from n (λ l. f (false ∷ l)) (ground arith) (i + 1) b)
]

value_of-bits_from : (n i : ℕ) (b : Bits) → value_of (bits_from n i b) ≡ value_from n i b
unfolding value_of bits_from value_from
value_of-bits_from zero i b = refl
value_of-bits_from (suc n) i b = ground (arith, value_of-bits_from n (i + 1) b)

first_of-bits_from :
    (n i : ℕ) (b : Bits)
    → nonzero_from n i b ≡ true
    → first_from n i b ≡ first_of (bits_from n i b) + (i + 1)
unfolding first_of bits_from nonzero_from first_from
first_of-bits_from zero i b h = cc
first_of-bits_from (suc n) i b h = ground (arith, first_of-bits_from n (i + 1) b)

value_from-zero : (n i : ℕ) (b : Bits) → not (value_from n i b == 0) ≡ nonzero_from n i b
unfolding value_from nonzero_from
value_from-zero zero i b = refl
value_from-zero (suc n) i b = ground (arith, value_from-zero n (i + 1) b)

second_of_or : (a c d : ℕ) → ((a == 0) || (c == d)) ≡ true → not (a == 0) ≡ true → c ≡ d
second_of_or a c d h h' = ground arith

-- The table entry of a byte that is not zero.
byte_lem :
    (i : ℕ) (b : Bits)
    → nonzero_from 8 i b ≡ true
    → get_or lowest_bit_bitmap (byte i b) 0 + (i + 1) ≡ first_from 8 i b
unfolding agrees
byte_lem i b h =
    let l = bits_from 8 i b in
    let v = value_of-bits_from 8 i b in
    let there : not (value_of l == 0) ≡ true = rw v (value_from-zero 8 i b ∙ h) in
    let t : agrees l ≡ true = for_all-bits_from 8 agrees table i b in
    let same : get_or lowest_bit_bitmap (value_of l) 0 ≡ first_of l = second_of_or _ _ _ t there in
    ap (λ (a : ℕ). get_or lowest_bit_bitmap a 0 + (i + 1)) (sym v)
    ∙ ap (λ (a : ℕ). a + (i + 1)) same
    ∙ sym (first_of-bits_from 8 i b h)

first_from_add :
    (m n i : ℕ) (b : Bits)
    → first_from (m + n) i b
      ≡ (if nonzero_from m i b then first_from m i b else first_from n (m + i) b)
unfolding first_from nonzero_from
first_from_add zero n i b = ground arith
first_from_add (suc m) n i b =
    let left : suc m + n ≡ suc (m + n) = omega arith in
    let right : suc m + i ≡ m + (i + 1) = omega arith in
    rw (left, right) (ground (arith, first_from_add m n (i + 1) b))

nonzero_from_add :
    (m n i : ℕ) (b : Bits)
    → nonzero_from (m + n) i b ≡ (nonzero_from m i b || nonzero_from n (m + i) b)
unfolding nonzero_from
nonzero_from_add zero n i b = ground arith
nonzero_from_add (suc m) n i b =
    let left : suc m + n ≡ suc (m + n) = omega arith in
    let right : suc m + i ≡ m + (i + 1) = omega arith in
    rw (left, right) (ground (arith, nonzero_from_add m n (i + 1) b))

first_from_zero : (n i : ℕ) (b : Bits) → nonzero_from n i b ≡ false → first_from n i b ≡ 0
unfolding first_from nonzero_from
first_from_zero zero i b h = refl
first_from_zero (suc n) i b h = ground (arith, first_from_zero n (i + 1) b)

-- `__sk_ffs` of a 32-bit word is one more than the number of its lowest set bit, and 0 for 0.
pub ffs-eq-first_from : (b : Bits) → ffs b ≡ first_from width 0 b
unfolding ffs
ffs-eq-first_from b = ground (
  arith,
  first_from_add 8 24 0 b,
  first_from_add 8 16 8 b,
  first_from_add 8 8 16 b,
  nonzero_from_add 8 24 0 b,
  nonzero_from_add 8 16 8 b,
  nonzero_from_add 8 8 16 b,
  value_from-zero 8 0 b,
  value_from-zero 8 8 b,
  value_from-zero 8 16 b,
  byte_lem 0 b,
  byte_lem 8 b,
  byte_lem 16 b,
  byte_lem 24 b,
  first_from_zero 32 0 b,
)
