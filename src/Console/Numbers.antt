-- ===== src/Console/Numbers.antt =====
-- `sk_itoa` and `skip_atoi` of driver/serial/console.c: a number is read back from its text.
use s_kernel.Common.{ℕ, zero, suc, ◌+◌, ◌-◌, ◌^◌, ◌<◌, ◌≤◌, ◌≡◌, sym, ap, subst, ◌∙◌, arith, pos}
use native.Mathlib.Nat.{zero-add}
use s_kernel.Memory.{Memory, store}
use s_kernel.Console.{skip_atoi, reverse_from, finish, itoa, is_digit}
use s_kernel.Console.Digits.{
  AllDigits, low_first, high_first, high_first-reversed, atoi_from_lem, reverse_from_lem,
  AllDigits-cons, put_digits_lem,
}

-- A text of `k` digits and a terminating byte, from which `skip_atoi` reads the number.
pub record IsNumeral (n k str : ℕ) (m : Memory) : Type 0 where
  pub not_empty : 0 < k
  pub digits : AllDigits k str m
  pub end : m (str + k) ≡ 0
  pub read_back : (fuel : ℕ) → k < fuel → skip_atoi fuel str m ≡ (n, str + k)

IsNumeral-intro :
    (n k str : ℕ) (m : Memory)
    → 0 < k
    → n < 2 ^ 31
    → AllDigits k str m
    → m (str + k) ≡ 0
    → high_first 0 k str m ≡ n
    → IsNumeral n k str m
unfolding skip_atoi
IsNumeral-intro n k str m some_digit small digits end number = record {
  not_empty = some_digit;
  digits = digits;
  end = end;
  read_back = λ rounds lt.
      atoi_from_lem rounds 0 k str m lt digits (ap is_digit end) (omega (arith, number))
      ∙ ap (λ (x : ℕ). (x, str + k)) number;
}

finish-IsNumeral :
    (fuel n k str : ℕ) (m : Memory)
    → 0 < k
    → k ≤ fuel
    → n < 2 ^ 31
    → AllDigits k str m
    → low_first k str m ≡ n
    → IsNumeral n k str (finish fuel str k m)
unfolding finish
finish-IsNumeral fuel n k str m pos_k le small d value =
    let m₁ = store (str + k) 0 m in
    let m' = reverse_from fuel 0 (k - 1) str m₁ in
    let turned : (j : ℕ) → j < k → m' (str + j) ≡ m (str + (k - 1 - j)) = λ j lt.
      let at : str + 0 + (str + (k - 1) - (str + j)) ≡ str + (k - 1 - j) = omega arith in
      ground (arith, reverse_from_lem fuel 0 (k - 1) str m₁ (str + j) (omega arith), at) in
    let end : m' (str + k) ≡ 0 =
      ground (arith, reverse_from_lem fuel 0 (k - 1) str m₁ (str + k) (omega arith)) in
    let digits : AllDigits k str m' =
      λ j lt. let t = turned j lt in let there = d (k - 1 - j) (omega arith) in rw t there in
    let number : high_first 0 k str m' ≡ n = high_first-reversed k str str m m' turned ∙ value in
    IsNumeral-intro n k str m' pos_k small digits end number

-- `sk_itoa` in base 10 of a number that is not negative and that an `int` holds writes digits and a
-- terminating byte, and `skip_atoi` reads the number back from them and stops at the end: rounds
-- for the digits are enough.
pub skip_atoi-itoa :
    (fuel n str : ℕ) (m : Memory)
    → n < 10 ^ fuel
    → n < 2 ^ 31
    → (k : ℕ) × (k ≤ fuel + 1) × IsNumeral n k str (itoa fuel (pos n) str 10 m)
unfolding itoa finish
skip_atoi-itoa fuel zero str m lt small = (
  1,
  omega arith,
  let m' = store (str + 1) 0 (store str 48 m) in
      let there : m' str ≡ 48 = ground arith in
      let value : high_first 0 1 str m' ≡ 0 = unfold high_first in omega (arith, there) in
      IsNumeral-intro 0 1 str m' (omega arith) small
        (AllDigits-cons 0 str m' (omega (arith, there), omega (arith, there))
          (λ j (lt : j < 0). absurd (omega arith)))
        (ground arith) value,
)
skip_atoi-itoa fuel (suc n) str m lt small =
    let (k, m', w) = put_digits_lem fuel (suc n) 0 str m lt in
    let at : str + 0 ≡ str = omega arith in
    let whole =
      finish-IsNumeral fuel (suc n) k str m' (w.some_digit (omega arith)) w.most small
        (subst (λ x. AllDigits k x m') at w.digits)
        (ap (λ (x : ℕ). low_first k x m') (sym at) ∙ w.value) in
    (k, omega (arith, w.most), rw (w.result, zero-add) whole)
