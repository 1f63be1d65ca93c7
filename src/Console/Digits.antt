-- ===== src/Console/Digits.antt =====
-- The loops of `sk_itoa` and `skip_atoi` in driver/serial/console.c.
use s_kernel.Common.{
  ℕ, zero, suc, ◌+◌, ◌-◌, ◌*◌, ◌/◌, ◌%◌, ◌^◌, ◌<◌, ◌≤◌, ◌≡◌, refl, sym, ap, subst, ◌∙◌, arith, true,
  false, Bool-cases, inl, inr, ltb, leb, ◌&&◌, ◌==◌, if◌then◌else◌,
}
use native.Mathlib.Nat.{pow-suc}
use s_kernel.Memory.{Memory, store}
use s_kernel.Console.{atoi_from, put_digits, reverse_from, is_digit}

-- The `k` characters at `a` are digits.
abbrev pub AllDigits : ℕ → ℕ → Memory → Type 0
AllDigits k a m = (j : ℕ) → j < k → (48 ≤ m (a + j)) × (m (a + j) ≤ 57)

-- The value of the digits, the lowest first, and the highest first behind a value read before.
unfoldable pub low_first : ℕ → ℕ → Memory → ℕ
low_first zero a m = 0
low_first (suc k) a m = (m a - 48) + 10 * low_first k (a + 1) m

unfoldable pub high_first : ℕ → ℕ → ℕ → Memory → ℕ
high_first acc zero a m = acc
high_first acc (suc k) a m = high_first (acc * 10 + (m a - 48)) k (a + 1) m

high_first_last :
    (acc k a : ℕ) (m : Memory)
    → high_first acc (suc k) a m ≡ high_first acc k a m * 10 + (m (a + k) - 48)
unfolding high_first
high_first_last acc zero a m = let e : a + 0 ≡ a = omega arith in rw e
high_first_last acc (suc k) a m =
    let e : a + 1 + k ≡ a + suc k = omega arith in
    high_first_last (acc * 10 + (m a - 48)) k (a + 1) m
    ∙ ap (λ (x : ℕ). high_first acc (suc k) a m * 10 + (m x - 48)) e

-- Digits turned round have the same value read from the other end.
pub high_first-reversed :
    (k a b : ℕ) (m m' : Memory)
    → ((j : ℕ) → j < k → m' (a + j) ≡ m (b + (k - 1 - j)))
    → high_first 0 k a m' ≡ low_first k b m
unfolding high_first low_first
high_first-reversed zero a b m m' h = refl
high_first-reversed (suc k) a b m m' h =
    let last : m' (a + k) ≡ m b = h k (omega arith) ∙ ap m (omega arith) in
    let ih =
      high_first-reversed k a (b + 1) m m' (λ j lt. h j (omega arith) ∙ ap m (omega arith)) in
    high_first_last 0 k a m' ∙ omega (arith, ih, last)

high_first_grows : (acc k a : ℕ) (m : Memory) → acc ≤ high_first acc k a m
unfolding high_first
high_first_grows acc zero a m = omega arith
high_first_grows acc (suc k) a m =
    omega (arith, high_first_grows (acc * 10 + (m a - 48)) k (a + 1) m)

-- `skip_atoi` of `k` digits that something else follows.
pub atoi_from_lem :
    (fuel acc k a : ℕ) (m : Memory)
    → k < fuel
    → AllDigits k a m
    → is_digit (m (a + k)) ≡ false
    → high_first acc k a m < 2 ^ 64
    → atoi_from fuel acc a m ≡ (high_first acc k a m, a + k)
unfolding atoi_from high_first
atoi_from_lem zero acc k a m lt d end small = absurd (omega arith)
atoi_from_lem (suc fuel) acc zero a m lt d end small =
    let e : a + 0 ≡ a = omega arith in
    let stop : is_digit (m a) ≡ false = ap (λ (x : ℕ). is_digit (m x)) (sym e) ∙ end in
    rw stop (ap (λ (x : ℕ). (acc, x)) (sym e))
atoi_from_lem (suc fuel) acc (suc k) a m lt d end small =
    let e : a + 0 ≡ a = omega arith in
    let first = d 0 (omega arith) in
    let lo : 48 ≤ m a = rw (← e) first.0 in
    let hi : m a ≤ 57 = rw (← e) first.1 in
    let here : is_digit (m a) ≡ true = ground arith in
    let next : a + 1 + k ≡ a + suc k = omega arith in
    let grown = high_first_grows (acc * 10 + (m a - 48)) k (a + 1) m in
    let same : (acc * 10 + m a + 2 ^ 64 - 48) % 2 ^ 64 ≡ acc * 10 + (m a - 48) =
      omega (arith, grown) in
    let ih =
      atoi_from_lem fuel (acc * 10 + (m a - 48)) k (a + 1) m (omega arith)
        (λ j jt. let at : a + 1 + j ≡ a + suc j = omega arith in rw at (d (suc j) (omega arith)))
        (rw next end) small in
    rw (here, same) (ih ∙ ap (λ (x : ℕ). (high_first (acc * 10 + (m a - 48)) k (a + 1) m, x)) next)

-- The text between `lo` and `hi` is turned round, and no other byte changes.
pub reverse_from_lem :
    (fuel lo hi str : ℕ) (m : Memory) (a : ℕ)
    → hi ≤ lo + 2 * fuel
    → reverse_from fuel lo hi str m a
      ≡ (if leb (str + lo) a && leb a (str + hi) then m (str + lo + (str + hi - a)) else m a)
unfolding reverse_from
reverse_from_lem zero lo hi str m a le = elim (Bool-cases (leb (str + lo) a && leb a (str + hi))) [
  | inl e ↦ let at : str + lo + (str + hi - a) ≡ a = ground arith in rw (e, at)
  | inr e ↦ rw e
]
reverse_from_lem (suc fuel) lo hi str m a le = elim (Bool-cases (ltb lo hi)) [
  | inl more ↦
      let swapped = store (str + hi) (m (str + lo)) (store (str + lo) (m (str + hi)) m) in
      let ih = reverse_from_lem fuel (lo + 1) (hi - 1) str swapped a (ground arith) in
      rw more (ground (arith, ih))
  | inr done ↦ rw done (ground arith)
]

pub AllDigits-cons :
    (k a : ℕ) (m : Memory) → (48 ≤ m a) × (m a ≤ 57) → AllDigits k (a + 1) m → AllDigits (suc k) a m
AllDigits-cons k a m first rest zero lt = let at : a + 0 ≡ a = omega arith in rw at first
AllDigits-cons k a m first rest (suc j) lt =
    let at : a + suc j ≡ a + 1 + j = omega arith in rw at (rest j (omega arith))

-- What the loop of `sk_itoa` leaves: `k` digits from `i` on, the lowest first.
pub record Wrote (fuel n i str : ℕ) (m : Memory) (k : ℕ) (m' : Memory) : Type 0 where
  pub result : put_digits fuel false n 10 i str m ≡ (i + k, m')
  pub digits : AllDigits k (str + i) m'
  pub value : low_first k (str + i) m' ≡ n
  pub before : (a : ℕ) → a < str + i → m' a ≡ m a
  pub most : k ≤ fuel
  pub some_digit : 0 < n → 0 < k

pub put_digits_lem :
    (fuel n i str : ℕ) (m : Memory)
    → n < 10 ^ fuel
    → (k : ℕ) × (m' : Memory) × Wrote fuel n i str m k m'
unfolding put_digits low_first
put_digits_lem zero n i str m lt = (
  0,
  m,
  record {
    result = ground arith;
    digits = λ j (jt : j < 0). absurd (omega arith);
    value = omega arith;
    before = λ a at. refl;
    most = omega arith;
    some_digit = λ more. absurd (omega arith);
  },
)
put_digits_lem (suc fuel) n i str m lt = elim (Bool-cases (n == 0)) [
  | inl e ↦ (
    0,
    m,
    record {
      result = rw e (ground arith);
      digits = λ j (jt : j < 0). absurd (omega arith);
      value = ground arith;
      before = λ a at. refl;
      most = omega arith;
      some_digit = λ more. absurd (ground arith);
    },
  )
  | inr ne ↦
      let ch = n % 10 + 48 in
      let m₁ = store (str + i) ch m in
      let (k, m', w) =
        put_digits_lem fuel (n / 10) (i + 1) str m₁ (omega (arith, pow-suc 10 fuel)) in
      let first : m' (str + i) ≡ ch = w.before (str + i) (omega arith) ∙ ground arith in
      let next : str + (i + 1) ≡ str + i + 1 = omega arith in
      let single : ltb 9 (n % 10) ≡ false = ground arith in
      (
        suc k,
        m',
        record {
          result = rw (ne, single) (w.result ∙ ap (λ (x : ℕ). (x, m')) (omega arith));
          digits =
              AllDigits-cons k (str + i) m' (omega (arith, first), omega (arith, first))
                (subst (λ x. AllDigits k x m') next w.digits);
          value = omega (arith, first, ap (λ (x : ℕ). low_first k x m') (sym next) ∙ w.value);
          before = λ a at. w.before a (omega arith) ∙ ground arith;
          most = omega (arith, w.most);
          some_digit = λ more. omega arith;
        },
      )
]
