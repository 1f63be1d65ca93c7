-- ===== src/Memory/Copying.antt =====
-- Setting and copying blocks of memory, which may overlap.
use s_kernel.Common.{
  ℕ, zero, suc, ◌+◌, ◌-◌, ◌%◌, ◌≤◌, ◌≡◌, arith, Bool, ◌&&◌, ◌||◌, Bool-cases, ◌⊎◌, inl, inr, ltb,
  leb, if◌then◌else◌,
}
use s_kernel.Memory.{Memory, store, memset, copy_up, copy_down, memcpy}

-- The address lies in the block of `count` bytes at `d`.
abbrev pub inside : ℕ → ℕ → ℕ → Bool
inside d count a = leb d a && ltb a (d + count)

-- `sk_memset` sets the bytes of the block to the low byte of `c`, and no others.
pub memset_lem :
    (dst c count : ℕ) (m : Memory) (a : ℕ)
    → memset dst c count m a ≡ (if inside dst count a then c % 256 else m a)
unfolding memset
memset_lem dst c zero m a = ground arith
memset_lem dst c (suc count) m a =
    ground (arith, memset_lem (dst + 1) c count (store dst (c % 256) m) a)

copy_up_lem :
    (d s count : ℕ) (m : Memory) (a : ℕ)
    → (d ≤ s) ⊎ (s + count ≤ d)
    → copy_up d s count m a ≡ (if inside d count a then m (s + (a - d)) else m a)
unfolding copy_up
copy_up_lem d s zero m a h = ground arith
copy_up_lem d s (suc count) m a h =
    ground (arith, copy_up_lem (d + 1) (s + 1) count (store d (m s) m) a)

copy_down_lem :
    (d s count : ℕ) (m : Memory) (a : ℕ)
    → s ≤ d
    → copy_down d s count m a ≡ (if inside d count a then m (s + (a - d)) else m a)
unfolding copy_down
copy_down_lem d s zero m a h = ground arith
copy_down_lem d s (suc count) m a h =
    ground (arith, copy_down_lem d s count (store (d + count) (m (s + count)) m) a)

-- `sk_memcpy`, also of blocks that overlap: the destination holds afterwards what the source held
-- before, and no other byte changes.
pub memcpy_lem :
    (d s count : ℕ) (m : Memory) (a : ℕ)
    → memcpy d s count m a ≡ (if inside d count a then m (s + (a - d)) else m a)
unfolding memcpy
memcpy_lem d s count m a = elim (Bool-cases (leb d s || ltb (s + count) d)) [
  | inl up ↦ rw up (copy_up_lem d s count m a (ground arith))
  | inr down ↦ rw down (copy_down_lem d s count m a (ground arith))
]
