-- ===== src/Common/Words.antt =====
-- A 32-bit word as its bits: bit `i` of the word is the value at `i`, for `i` below 32.
use Prim.Native.Nat.{ℕ, zero, suc, ◌+◌, ◌-◌, ◌<◌, ◌≤◌}
use mathlib.Core.Path.{◌≡◌, ap}
use mathlib.Core.Logic.{◌≢◌, inl, inr}
use native.Mathlib.Omega.{arith}
use mathlib.Core.Bool.{Bool, true, false, not, ◌&&◌, ◌||◌}
use s_kernel.Common.Tests.{◌==◌, if◌then◌else◌, Bool-cases, ==_true, ==_false}

abbrev pub Bits : Type 0
Bits = ℕ → Bool

abbrev pub width : ℕ
width = 32

abbrev pub zero_bits : Bits
zero_bits i = false

-- `1 << p`
abbrev pub bit : ℕ → Bits
bit p i = p == i

abbrev pub or_bits : Bits → Bits → Bits
or_bits a b i = a i || b i

abbrev pub and_bits : Bits → Bits → Bits
and_bits a b i = a i && b i

-- `a & ~b`
abbrev pub clear_bits : Bits → Bits → Bits
clear_bits a b i = a i && not (b i)

-- One more than the lowest set bit among the `n` bits from `i` on, 0 if none is set.
unfoldable pub first_from : ℕ → ℕ → Bits → ℕ
first_from zero i b = 0
first_from (suc n) i b = if b i then i + 1 else first_from n (i + 1) b

-- `w != 0`
unfoldable pub nonzero_from : ℕ → ℕ → Bits → Bool
nonzero_from zero i b = false
nonzero_from (suc n) i b = b i || nonzero_from n (i + 1) b

abbrev pub nonzero : Bits → Bool
nonzero b = nonzero_from width 0 b

-- `a == b`
unfoldable pub equal_from : ℕ → ℕ → Bits → Bits → Bool
equal_from zero i a b = true
equal_from (suc n) i a b = (if a i then b i else not (b i)) && equal_from n (i + 1) a b

abbrev pub equal_bits : Bits → Bits → Bool
equal_bits a b = equal_from width 0 a b

-- The lowest set bit, when one is set.
pub record IsLowest (n i : ℕ) (b : Bits) : Type 0 where
  pub above : i < first_from n i b
  pub below : first_from n i b ≤ i + n
  pub set_there : b (first_from n i b - 1) ≡ true
  pub least : (j : ℕ) → i ≤ j → j < i + n → b j ≡ true → first_from n i b ≤ j + 1

pub first_from-IsLowest : (n i : ℕ) (b : Bits) → nonzero_from n i b ≡ true → IsLowest n i b
unfolding nonzero_from first_from
first_from-IsLowest zero i b h = cc
first_from-IsLowest (suc n) i b h = elim (Bool-cases (b i)) [
  | inl e ↦
      let here : first_from (suc n) i b ≡ i + 1 = rw e in
      let at_i : i + 1 - 1 ≡ i = omega arith in
      record {
        above = omega (arith, here);
        below = omega (arith, here);
        set_there = rw (here, at_i, e);
        least = λ j lo hi _. omega (arith, here);
      }
  | inr e ↦
      let later : first_from (suc n) i b ≡ first_from n (i + 1) b = rw e in
      let more : nonzero_from n (i + 1) b ≡ true = ground arith in
      let rest = first_from-IsLowest n (i + 1) b more in
      record {
        above = omega (arith, rest.above, later);
        below = omega (arith, rest.below, later);
        set_there = rw later rest.set_there;
        least = λ j lo hi s.
            let ne : i ≢ j = λ at. cc (ap b at) in
            omega (arith, rest.least j (omega arith) (omega arith) s, later);
      }
]

-- A set bit makes the word nonzero.
pub nonzero_of_set :
    (n i j : ℕ) (b : Bits) → i ≤ j → j < i + n → b j ≡ true → nonzero_from n i b ≡ true
unfolding nonzero_from
nonzero_of_set zero i j b lo hi h = absurd (omega arith)
nonzero_of_set (suc n) i j b lo hi h = elim (Bool-cases (i == j)) [
  | inl e ↦ ground (arith, ==_true i j e)
  | inr ne ↦ ground (arith, ==_false i j ne, nonzero_of_set n (i + 1) j b)
]
