-- ===== src/Common/Lists.antt =====
-- Lists measured and indexed by native numbers, membership, and the removal of an entry.
use Prim.Native.Nat.{ℕ, zero, suc, ◌+◌, ◌-◌, ◌<◌, ◌≤◌}
use mathlib.Core.Path.{◌≡◌, refl, ap, ap₂, ◌∙◌}
use mathlib.Core.Logic.{◌≢◌, ◌⊎◌, inl}
use mathlib.Core.Bool.{Bool, true, false, ◌||◌}
use mathlib.Core.List.{List, [], ◌∷◌, ◌++◌}
use native.Mathlib.Omega.{arith}
use s_kernel.Common.Tests.{◌==◌, ltb, if◌then◌else◌}

module _ {ℓ} {A : Type ℓ} where
  abbrev pub length : List A → ℕ
  length [] = 0
  length (x ∷ xs) = suc (length xs)

  abbrev pub get_or : List A → ℕ → A → A
  get_or [] i d = d
  get_or (x ∷ xs) zero d = x
  get_or (x ∷ xs) (suc i) d = get_or xs i d

  -- A write out of bounds changes nothing.
  abbrev pub set : List A → ℕ → A → List A
  set [] i v = []
  set (x ∷ xs) zero v = v ∷ xs
  set (x ∷ xs) (suc i) v = x ∷ set xs i v

  abbrev pub take : ℕ → List A → List A
  take zero xs = []
  take (suc n) [] = []
  take (suc n) (x ∷ xs) = x ∷ take n xs

  abbrev pub replicate : ℕ → A → List A
  replicate zero x = []
  replicate (suc n) x = x ∷ replicate n x

  abbrev pub drop : ℕ → List A → List A
  drop zero xs = xs
  drop (suc n) [] = []
  drop (suc n) (x ∷ xs) = drop n xs

  pub length-append : (xs ys : List A) → length (xs ++ ys) ≡ length xs + length ys
  length-append [] ys = omega arith
  length-append (x ∷ xs) ys = omega (arith, length-append xs ys)

  pub length-set : (xs : List A) (i : ℕ) (v : A) → length (set xs i v) ≡ length xs
  length-set [] i v = refl
  length-set (x ∷ xs) zero v = refl
  length-set (x ∷ xs) (suc i) v = ap suc (length-set xs i v)

  pub get_or-set_self :
      (xs : List A) (i : ℕ) (v d : A) → i < length xs → get_or (set xs i v) i d ≡ v
  get_or-set_self [] i v d h = absurd (omega arith)
  get_or-set_self (x ∷ xs) zero v d h = refl
  get_or-set_self (x ∷ xs) (suc i) v d h = get_or-set_self xs i v d (omega arith)

  pub get_or-set_ne :
      (xs : List A) {i j : ℕ} (v d : A) → i ≢ j → get_or (set xs i v) j d ≡ get_or xs j d
  get_or-set_ne [] v d h = refl
  get_or-set_ne (x ∷ xs) {i = zero} {j = zero} v d h = absurd (h refl)
  get_or-set_ne (x ∷ xs) {i = zero} {j = suc j} v d h = refl
  get_or-set_ne (x ∷ xs) {i = suc i} {j = zero} v d h = refl
  get_or-set_ne (x ∷ xs) {i = suc i} {j = suc j} v d h = get_or-set_ne xs v d (λ e. h (ap suc e))

-- An index below twice the size of a circular array, brought back into the array.
abbrev pub wrap : ℕ → ℕ → ℕ
wrap size i = if ltb i size then i else i - size

abbrev pub member : ℕ → List ℕ → Bool
member t [] = false
member t (x ∷ xs) = x == t || member t xs

abbrev pub remove : ℕ → List ℕ → List ℕ
remove t [] = []
remove t (x ∷ xs) = if x == t then remove t xs else x ∷ remove t xs

-- No entry stands twice.
abbrev pub IsDistinct : List ℕ → Type 0
IsDistinct [] = Unit {0}
IsDistinct (x ∷ xs) = (member x xs ≡ false) × IsDistinct xs

pub member-append : (t : ℕ) (xs ys : List ℕ) → member t (xs ++ ys) ≡ (member t xs || member t ys)
member-append t [] ys = refl
member-append t (x ∷ xs) ys = ground (arith, member-append t xs ys)

pub member-remove :
    (t u : ℕ) (xs : List ℕ) → member t (remove u xs) ≡ (if u == t then false else member t xs)
member-remove t u [] = ground arith
member-remove t u (x ∷ xs) = ground (arith, member-remove t u xs)

pub remove_absent : (t : ℕ) (xs : List ℕ) → member t xs ≡ false → remove t xs ≡ xs
remove_absent t [] h = refl
remove_absent t (x ∷ xs) h = ground (arith, remove_absent t xs)

pub remove-append : (t : ℕ) (xs ys : List ℕ) → remove t (xs ++ ys) ≡ remove t xs ++ remove t ys
remove-append t [] ys = refl
remove-append t (x ∷ xs) ys = ground (arith, remove-append t xs ys)

pub remove-IsDistinct : (t : ℕ) (xs : List ℕ) → IsDistinct xs → IsDistinct (remove t xs)
remove-IsDistinct t [] h = tt
remove-IsDistinct t (x ∷ xs) h = ground (arith, member-remove x t xs, remove-IsDistinct t xs h.1)

pub append-IsDistinct :
    (t : ℕ) (xs : List ℕ) → IsDistinct xs → member t xs ≡ false → IsDistinct (xs ++ (t ∷ []))
append-IsDistinct t [] h n = (refl, tt)
append-IsDistinct t (x ∷ xs) h n =
    ground (arith, member-append x xs (t ∷ []), append-IsDistinct t xs h.1)

-- The head of a list that is not empty is an entry of it.
pub member_head : (xs : List ℕ) (d : ℕ) → xs ≢ [] → member (get_or xs 0 d) xs ≡ true
member_head [] d h = absurd (h refl)
member_head (x ∷ xs) d h = ground arith

-- The values of `f` at the `n` numbers from `i` on.
module _ {ℓ} {A : Type ℓ} where
  abbrev pub tabulate : ℕ → ℕ → (ℕ → A) → List A
  tabulate zero i f = []
  tabulate (suc n) i f = f i ∷ tabulate n (i + 1) f

  pub tabulate-congr :
      (n i : ℕ) (f g : ℕ → A)
      → ((k : ℕ) → i ≤ k → k < i + n → f k ≡ g k)
      → tabulate n i f ≡ tabulate n i g
  tabulate-congr zero i f g h = refl
  tabulate-congr (suc n) i f g h =
      ap₂ ◌∷◌ (h i (omega arith) (omega arith))
        (tabulate-congr n (i + 1) f g (λ k lo hi. h k (omega arith) (omega arith)))

  pub tabulate-add :
      (n m i : ℕ) (f : ℕ → A) → tabulate (n + m) i f ≡ tabulate n i f ++ tabulate m (i + n) f
  tabulate-add zero m i f = ap₂ (λ (a b : ℕ). tabulate a b f) (omega arith) (omega arith)
  tabulate-add (suc n) m i f =
      let e : suc n + m ≡ suc (n + m) = omega arith in
      let e' : i + suc n ≡ i + 1 + n = omega arith in rw (e, e') (rw (tabulate-add n m (i + 1) f))

  pub tabulate-shift :
      (n i j : ℕ) (f : ℕ → A) → tabulate n (j + i) f ≡ tabulate n i (λ k. f (j + k))
  tabulate-shift zero i j f = refl
  tabulate-shift (suc n) i j f =
      let e : j + i + 1 ≡ j + (i + 1) = omega arith in rw e (rw (tabulate-shift n (i + 1) j f))

  pub length-tabulate : (n i : ℕ) (f : ℕ → A) → length (tabulate n i f) ≡ n
  length-tabulate zero i f = refl
  length-tabulate (suc n) i f = ap suc (length-tabulate n (i + 1) f)

  pub get_or-tabulate :
      (n i k : ℕ) (f : ℕ → A) (d : A) → k < n → get_or (tabulate n i f) k d ≡ f (i + k)
  get_or-tabulate zero i k f d h = absurd (omega arith)
  get_or-tabulate (suc n) i zero f d h = ap f (omega arith)
  get_or-tabulate (suc n) i (suc k) f d h =
      get_or-tabulate n (i + 1) k f d (omega arith) ∙ ap f (omega arith)

  pub take-tabulate : (n m i : ℕ) (f : ℕ → A) → take n (tabulate (n + m) i f) ≡ tabulate n i f
  take-tabulate zero m i f = refl
  take-tabulate (suc n) m i f =
      let e : suc n + m ≡ suc (n + m) = omega arith in rw e (rw (take-tabulate n m (i + 1) f))

  pub drop-tabulate : (n m i : ℕ) (f : ℕ → A) → drop n (tabulate (n + m) i f) ≡ tabulate m (i + n) f
  drop-tabulate zero m i f = ap₂ (λ (a b : ℕ). tabulate a b f) (omega arith) (omega arith)
  drop-tabulate (suc n) m i f =
      let e : suc n + m ≡ suc (n + m) = omega arith in
      let e' : i + suc n ≡ i + 1 + n = omega arith in rw (e, e') (drop-tabulate n m (i + 1) f)

-- `memcpy` from `&xs[i]`: the `n` bytes that stand there.
abbrev pub read_at : List ℕ → ℕ → ℕ → List ℕ
read_at xs i n = tabulate n i (λ k. get_or xs k 0)

-- `memcpy` to `&xs[i]`.
abbrev pub write_at : List ℕ → ℕ → List ℕ → List ℕ
write_at xs i [] = xs
write_at xs i (y ∷ ys) = write_at (set xs i y) (i + 1) ys

pub length-write_at : (xs : List ℕ) (i : ℕ) (ys : List ℕ) → length (write_at xs i ys) ≡ length xs
length-write_at xs i [] = refl
length-write_at xs i (y ∷ ys) = length-write_at (set xs i y) (i + 1) ys ∙ length-set xs i y

pub get_or-write_at_out :
    (xs : List ℕ) (i : ℕ) (ys : List ℕ) (j : ℕ)
    → (j < i) ⊎ (i + length ys ≤ j)
    → get_or (write_at xs i ys) j 0 ≡ get_or xs j 0
get_or-write_at_out xs i [] j h = refl
get_or-write_at_out xs i (y ∷ ys) j h =
    get_or-write_at_out (set xs i y) (i + 1) ys j (omega arith)
    ∙ get_or-set_ne xs {i = i} {j = j} y 0 (omega arith)

pub get_or-write_at_in :
    (xs : List ℕ) (i : ℕ) (ys : List ℕ) (j : ℕ)
    → j < length ys
    → i + length ys ≤ length xs
    → get_or (write_at xs i ys) (i + j) 0 ≡ get_or ys j 0
get_or-write_at_in xs i [] j h k = absurd (omega arith)
get_or-write_at_in xs i (y ∷ ys) zero h k =
    let e : i + 0 ≡ i = omega arith in
    rw e (
      get_or-write_at_out (set xs i y) (i + 1) ys i (inl (omega arith))
      ∙ get_or-set_self xs i y 0 (omega arith))
get_or-write_at_in xs i (y ∷ ys) (suc j) h k =
    let e : i + suc j ≡ i + 1 + j = omega arith in
    rw e (
      get_or-write_at_in (set xs i y) (i + 1) ys j (omega arith) (omega (arith, length-set xs i y)))

read_at-cons :
    (x : ℕ) (xs ys : List ℕ)
    → read_at xs 0 (length xs) ≡ ys
    → read_at (x ∷ xs) 0 (suc (length xs)) ≡ x ∷ ys
read_at-cons x xs ys h =
    ap (λ (l : List ℕ). x ∷ l)
      (tabulate-shift (length xs) 0 1 (λ k. get_or (x ∷ xs) k 0)
        ∙ tabulate-congr (length xs) 0 _ (λ k. get_or xs k 0)
            (λ k _ _. let e : 1 + k ≡ suc k = omega arith in rw e)
        ∙ h)

pub read_at_all : (xs : List ℕ) → read_at xs 0 (length xs) ≡ xs
read_at_all [] = refl
read_at_all (x ∷ xs) = read_at-cons x xs xs (read_at_all xs)

-- What has been written at the beginning of bytes that are enough is read there.
pub read_at-write_at :
    (xs ys : List ℕ) (n : ℕ)
    → n ≤ length xs
    → read_at (write_at xs 0 (read_at ys 0 n)) 0 n ≡ read_at ys 0 n
read_at-write_at xs ys n h =
    let size = length-tabulate n 0 (λ k. get_or ys k 0) in
    tabulate-congr n 0 (λ k. get_or (write_at xs 0 (read_at ys 0 n)) k 0) (λ k. get_or ys k 0)
      (λ k lo hi.
        ap (λ (j : ℕ). get_or (write_at xs 0 (read_at ys 0 n)) j 0) (omega arith)
        ∙ get_or-write_at_in xs 0 (read_at ys 0 n) k (omega (arith, size, hi))
            (omega (arith, size, h))
        ∙ get_or-tabulate n 0 k (λ j. get_or ys j 0) 0 (omega arith)
        ∙ ap (λ (j : ℕ). get_or ys j 0) (omega arith))
