-- ===== src/Memory/Comparing.antt =====
-- Comparisons of blocks and of strings tell equality.
use s_kernel.Common.{
  ℕ, zero, suc, ◌+◌, ◌<◌, ◌≡◌, ◌≢◌, ◌↔◌, ◌⊎◌, refl, arith, Bool, true, false, Bool-cases, inl, inr,
  ltb, ◌==◌, ℤ, pos, negsuc, ==_true,
}
use s_kernel.Memory.{Memory, minus, memcmp, byte_minus, strcmp, strncmp}

-- The sign of a difference.
abbrev pub is_negative : ℤ → Bool
is_negative (pos n) = false
is_negative (negsuc n) = true

-- The first `i` bytes are the same, and at `i` the two differ.
abbrev pub DifferFirstAt : ℕ → ℕ → ℕ → Memory → Type 0
DifferFirstAt i s1 s2 m = ((j : ℕ) → j < i → m (s1 + j) ≡ m (s2 + j)) × (m (s1 + i) ≢ m (s2 + i))

same_from_first :
    (s1 s2 n : ℕ) (m : Memory)
    → m s1 ≡ m s2
    → ((j : ℕ) → j < n → m (s1 + 1 + j) ≡ m (s2 + 1 + j))
    → (j : ℕ) → j < n + 1
    → m (s1 + j) ≡ m (s2 + j)
same_from_first s1 s2 n m e same zero lt = ground arith
same_from_first s1 s2 n m e same (suc j) lt = ground (arith, same j)

-- `sk_memcmp` is 0 for blocks with the same bytes, and otherwise negative or positive as the first
-- byte that differs is smaller or larger in the first block.
pub memcmp_lem :
    (s1 s2 count : ℕ) (m : Memory)
    → ((memcmp s1 s2 count m ≡ pos 0) × ((j : ℕ) → j < count → m (s1 + j) ≡ m (s2 + j)))
      ⊎ ((i : ℕ) × (i < count)
          × DifferFirstAt i s1 s2 m
          × (memcmp s1 s2 count m ≡ minus (m (s1 + i)) (m (s2 + i)))
          × (is_negative (memcmp s1 s2 count m) ≡ ltb (m (s1 + i)) (m (s2 + i))))
unfolding memcmp
memcmp_lem s1 s2 zero m = inl (refl, λ j h. absurd (omega arith))
memcmp_lem s1 s2 (suc count) m = elim (Bool-cases (m s1 == m s2)) [
  | inr ne ↦ rw ne (
      inr (0, omega arith, (λ j h. absurd (omega arith), ground arith), ground arith, ground arith))
  | inl e ↦
      let first = ==_true (m s1) (m s2) e in
      elim (memcmp_lem (s1 + 1) (s2 + 1) count m) [
        | inl (zero_result, same) ↦
            rw e
              (inl (zero_result, λ j h. same_from_first s1 s2 count m first same j (omega arith)))
        | inr (i, lt, (same, differ), result, sign) ↦
            let there : s1 + 1 + i ≡ s1 + (i + 1) = omega arith in
            let there' : s2 + 1 + i ≡ s2 + (i + 1) = omega arith in
            rw e (
              inr (
                i + 1,
                omega arith,
                (same_from_first s1 s2 i m first same, rw (← there, ← there') differ),
                rw (← there, ← there') result,
                rw (← there, ← there') sign,
              ))
      ]
]

-- The strings agree in each of the first `count` bytes that no terminating byte of the second one
-- comes before.
abbrev pub AgreeUpTo : ℕ → ℕ → ℕ → Memory → Type 0
AgreeUpTo st_1 st_2 count m =
    (i : ℕ) → i < count → ((j : ℕ) → j < i → m (st_2 + j) ≢ 0) → m (st_1 + i) ≡ m (st_2 + i)

-- Bytes are below 256.
abbrev pub IsBytes : Memory → Type 0
IsBytes m = (a : ℕ) → m a < 256

module _ {m : Memory} (bytes : IsBytes m) where
  same_byte : (a b : ℕ) → byte_minus (m a) (m b) ≡ 0 → m a ≡ m b
  same_byte a b h = omega (arith, bytes a, bytes b)

  live_from :
      (s t i : ℕ)
      → m t ≢ 0
      → ((j : ℕ) → j < i → m (t + 1 + j) ≢ 0)
      → (j : ℕ) → j < i + 1
      → m (t + j) ≢ 0
  live_from s t i ne live zero lt z = ne (ground arith)
  live_from s t i ne live (suc j) lt z = live j (omega arith) (ground arith)

  AgreeUpTo-next :
      (s t count : ℕ)
      → m s ≡ m t
      → ((m t ≡ 0) ⊎ AgreeUpTo (s + 1) (t + 1) count m)
      → AgreeUpTo s t (suc count) m
  AgreeUpTo-next s t count e h zero lt live = ground arith
  AgreeUpTo-next s t count e (inl end) (suc i) lt live =
      absurd (live 0 (omega arith) (ground arith))
  AgreeUpTo-next s t count e (inr more) (suc i) lt live =
      let r : m (s + 1 + i) ≡ m (t + 1 + i) =
        more i (omega arith) (λ j h z. live (j + 1) (omega arith) (ground arith)) in
      ground arith

  AgreeUpTo-first : (s t count : ℕ) → AgreeUpTo s t (suc count) m → m s ≡ m t
  AgreeUpTo-first s t count h =
      let r : m (s + 0) ≡ m (t + 0) = h 0 (omega arith) (λ j lt. absurd (omega arith)) in
      ground arith

  AgreeUpTo-rest :
      (s t count : ℕ) → AgreeUpTo s t (suc count) m → m t ≢ 0 → AgreeUpTo (s + 1) (t + 1) count m
  AgreeUpTo-rest s t count h ne i lt live =
      let r : m (s + (i + 1)) ≡ m (t + (i + 1)) =
        h (i + 1) (omega arith) (live_from s t i ne live) in
      ground arith

  -- `sk_strcmp` is 0 exactly for strings that agree up to their end, or in the first `count` bytes.
  pub strcmp_lem :
      (st_1 st_2 count : ℕ) → (strcmp st_1 st_2 count m ≡ 0) ↔ AgreeUpTo st_1 st_2 count m
  unfolding strcmp
  strcmp_lem s t zero = (λ e i lt live. absurd (omega arith), λ h. refl)
  strcmp_lem s t (suc count) =
      let ih = strcmp_lem (s + 1) (t + 1) count in
      (
        λ e.
            let same = same_byte s t (ground arith) in
            AgreeUpTo-next s t count same (elim (Bool-cases (m t == 0)) [
              | inl end ↦ inl (ground arith)
              | inr more ↦ inr (ih.0 (ground arith))
            ]),
        λ h.
            let same = AgreeUpTo-first s t count h in
            elim (Bool-cases (m t == 0)) [
              | inl end ↦ ground (arith, bytes t)
              | inr more ↦
                  let rest : strcmp (s + 1) (t + 1) count m ≡ 0 =
                    ih.1 (AgreeUpTo-rest s t count h (ground arith)) in
                  ground (arith, bytes t)
            ],
      )

  -- `sk_strncmp` is 0 exactly when `sk_strcmp` is.
  pub strncmp-eq-strcmp : (cs ct count : ℕ) → strncmp cs ct count m ≡ strcmp cs ct count m
  unfolding strcmp strncmp
  strncmp-eq-strcmp cs ct zero = refl
  strncmp-eq-strcmp cs ct (suc count) =
      ground (arith, strncmp-eq-strcmp (cs + 1) (ct + 1) count, bytes cs, bytes ct)
