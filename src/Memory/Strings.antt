-- ===== src/Memory/Strings.antt =====
-- The length of a string and its copy.
use s_kernel.Common.{
  ℕ, zero, suc, ◌+◌, ◌-◌, ◌<◌, ◌≤◌, ◌≡◌, ◌≢◌, ◌⊎◌, sym, ◌∙◌, arith, if◌then◌else◌,
}
use s_kernel.Memory.{Memory, store, strcpy, strlen}
use s_kernel.Memory.Copying.{inside}

-- A string of `n` bytes stands at `s`: the first terminating byte is the one at `s + n`.
abbrev pub IsString : ℕ → ℕ → Memory → Type 0
IsString s n m = ((i : ℕ) → i < n → m (s + i) ≢ 0) × (m (s + n) ≡ 0)

IsString-rest : (s n : ℕ) (m : Memory) → IsString s (suc n) m → IsString (s + 1) n m
IsString-rest s n m h =
    let end : m (s + suc n) ≡ 0 = h.1 in
    (λ i lt z. h.0 (i + 1) (omega arith) (ground arith), ground arith)

IsString-first : (s n : ℕ) (m : Memory) → IsString s (suc n) m → m s ≢ 0
IsString-first s n m h z = h.0 0 (omega arith) (ground arith)

IsString-frame :
    (s n : ℕ) (m m' : Memory)
    → ((i : ℕ) → i ≤ n → m' (s + i) ≡ m (s + i))
    → IsString s n m
    → IsString s n m'
IsString-frame s n m m' same h =
    (λ i lt z. h.0 i lt (sym (same i (omega arith)) ∙ z), same n (omega arith) ∙ h.1)

-- `sk_strlen` of a string ends at its terminating byte and is its length: rounds for more bytes than
-- that are enough.
pub strlen_lem : (fuel s n : ℕ) (m : Memory) → IsString s n m → n < fuel → strlen fuel s m ≡ n
unfolding strlen
strlen_lem zero s n m h lt = absurd (omega arith)
strlen_lem (suc fuel) s zero m h lt = let end : m (s + 0) ≡ 0 = h.1 in ground arith
strlen_lem (suc fuel) s (suc n) m h lt = ground (
  arith,
  IsString-first s n m h,
  strlen_lem fuel (s + 1) n m (IsString-rest s n m h) (omega arith),
)

-- `sk_strcpy` of a string, to a place that does not begin inside it: rounds for more bytes than it
-- has are enough; it copies them and the terminating byte, and changes no other byte.
pub strcpy_lem :
    (fuel dest src n : ℕ) (m : Memory) (a : ℕ)
    → IsString src n m
    → (dest ≤ src) ⊎ (src + n < dest)
    → n < fuel
    → strcpy fuel dest src m a ≡ (if inside dest (n + 1) a then m (src + (a - dest)) else m a)
unfolding strcpy
strcpy_lem zero dest src n m a h apart lt = absurd (omega arith)
strcpy_lem (suc fuel) dest src zero m a h apart lt = let end : m (src + 0) ≡ 0 = h.1 in ground arith
strcpy_lem (suc fuel) dest src (suc n) m a h apart lt =
    let m' = store dest (m src) m in
    let next : IsString (src + 1) n m' =
      IsString-frame (src + 1) n m m' (λ i le. ground arith) (IsString-rest src n m h) in
    let ih = strcpy_lem fuel (dest + 1) (src + 1) n m' a next (omega arith) (omega arith) in
    ground (arith, IsString-first src n m h, ih)
