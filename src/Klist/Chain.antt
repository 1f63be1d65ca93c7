-- ===== src/Klist/Chain.antt =====
-- Nodes that are linked in a row.
use s_kernel.Common.{
  ℕ, ◌≡◌, ◌∙◌, arith, true, false, ◌||◌, ◌==◌, Bool-cases, ==_true, inl, inr, List, [], ◌∷◌, ◌++◌,
  member, remove, IsDistinct, remove_absent,
}
use s_kernel.Kernel
use s_kernel.Klist.{Heap, list_empty, list_del, link_between, unlink}

-- From `a` over the nodes of the list to `b`, and back.
abbrev pub IsChain : Heap → ℕ → List ℕ → ℕ → Type 0
IsChain h a [] b = (h.next a ≡ b) × (h.prev b ≡ a)
IsChain h a (x ∷ xs) b = (h.next a ≡ x) × (h.prev x ≡ a) × IsChain h x xs b

-- A chain stays where no field of its nodes changes.
pub IsChain-frame :
    (h h' : Heap) (a : ℕ) (xs : List ℕ) (b : ℕ)
    → ((z : ℕ) → (z == a || member z xs) ≡ true → h'.next z ≡ h.next z)
    → ((z : ℕ) → (z == b || member z xs) ≡ true → h'.prev z ≡ h.prev z)
    → IsChain h a xs b
    → IsChain h' a xs b
IsChain-frame h h' a [] b n p c = (n a (ground arith) ∙ c.0, p b (ground arith) ∙ c.1)
IsChain-frame h h' a (x ∷ xs) b n p c = (
  n a (ground arith) ∙ c.0,
  p x (ground arith) ∙ c.1,
  IsChain-frame h h' x xs b (λ z m. n z (ground arith)) (λ z m. p z (ground arith)) c.2,
)

-- The last node before the end.
pub last_of : ℕ → List ℕ → ℕ
last_of a [] = a
last_of a (x ∷ xs) = last_of x xs

pub prev_of_end :
    (h : Heap) (a : ℕ) (xs : List ℕ) (b : ℕ) → IsChain h a xs b → h.prev b ≡ last_of a xs
unfolding last_of
prev_of_end h a [] b c = c.1
prev_of_end h a (x ∷ xs) b c = prev_of_end h x xs b c.2

-- The successor of a node of the chain is a later node or the end, its predecessor an earlier one or
-- the start.
pub next_member :
    (h : Heap) (a : ℕ) (xs : List ℕ) (b n : ℕ)
    → IsChain h a xs b
    → member n xs ≡ true
    → (h.next n == b || member (h.next n) xs) ≡ true
next_member h a [] b n c m = cc
next_member h a (x ∷ []) b n c m = ground arith
next_member h a (x ∷ y ∷ xs) b n c m = ground (arith, next_member h x (y ∷ xs) b n c.2)

pub prev_member :
    (h : Heap) (a : ℕ) (xs : List ℕ) (b n : ℕ)
    → IsChain h a xs b
    → member n xs ≡ true
    → (h.prev n == a || member (h.prev n) xs) ≡ true
prev_member h a [] b n c m = cc
prev_member h a (x ∷ xs) b n c m = ground (arith, prev_member h x xs b n c.2)

-- Taking the first node out.
IsChain-skip :
    (h : Heap) (a : ℕ) (xs : List ℕ) (b n : ℕ)
    → IsChain h a (n ∷ xs) b
    → IsDistinct (n ∷ xs)
    → member a (n ∷ xs) ≡ false
    → member b (n ∷ xs) ≡ false
    → IsChain (list_del n h) a xs b
unfolding list_del unlink
IsChain-skip h a [] b n c d oa ob = ground arith
IsChain-skip h a (y ∷ xs) b n c d oa ob = (
  ground arith,
  ground arith,
  IsChain-frame h (list_del n h) y xs b (λ z m. ground (arith, d)) (λ z m. ground (arith, d)) c.2.2,
)

pub list_del-IsChain :
    (h : Heap) (a : ℕ) (xs : List ℕ) (b n : ℕ)
    → IsChain h a xs b
    → IsDistinct xs
    → member n xs ≡ true
    → member a xs ≡ false
    → member b xs ≡ false
    → IsChain (list_del n h) a (remove n xs) b
unfolding list_del unlink
list_del-IsChain h a [] b n c d m oa ob = cc
list_del-IsChain h a (x ∷ xs) b n c d m oa ob = elim (Bool-cases (x == n)) [
  | inl e ↦
      let z = ==_true x n e in
      let away : member n xs ≡ false = rw⁻¹ z d.0 in
      rw (e, remove_absent n xs away)
        (IsChain-skip h a xs b n (rw⁻¹ z c) (rw⁻¹ z d) (rw⁻¹ z oa) (rw⁻¹ z ob))
  | inr ne ↦
      let there : member n xs ≡ true = ground arith in
      let before = prev_member h x xs b n c.2 there in
      let after = next_member h x xs b n c.2 there in
      rw ne (
        ground (arith, before),
        ground (arith, after, d.0),
        list_del-IsChain h x xs b n c.2 d.1 there d.0 (ground arith),
      )
]

pub member-last_of : (a : ℕ) (xs : List ℕ) → (last_of a xs == a || member (last_of a xs) xs) ≡ true
unfolding last_of
member-last_of a [] = ground arith
member-last_of a (x ∷ xs) = ground (arith, member-last_of x xs)

-- A new node behind the last one.
pub append-IsChain :
    (h : Heap) (a : ℕ) (xs : List ℕ) (b n : ℕ)
    → IsChain h a xs b
    → IsDistinct xs
    → member a xs ≡ false
    → member b xs ≡ false
    → (a == n || (b == n || member n xs)) ≡ false
    → IsChain (link_between n (last_of a xs) b h) a (xs ++ (n ∷ [])) b
unfolding link_between last_of
append-IsChain h a [] b n c d oa ob o = ground arith
append-IsChain h a (x ∷ xs) b n c d oa ob o = (
  ground (arith, member-last_of x xs),
  ground arith,
  append-IsChain h x xs b n c.2 d.1 d.0 (ground arith) (ground arith),
)

-- A new node in front of the first one.
pub prepend-IsChain :
    (h : Heap) (a : ℕ) (xs : List ℕ) (b n : ℕ)
    → IsChain h a xs b
    → IsDistinct xs
    → member a xs ≡ false
    → member b xs ≡ false
    → (a == n || (b == n || member n xs)) ≡ false
    → IsChain (link_between n a (h.next a) h) a (n ∷ xs) b
unfolding link_between
prepend-IsChain h a [] b n c d oa ob o = ground arith
prepend-IsChain h a (x ∷ xs) b n c d oa ob o =
    let rest =
      IsChain-frame h (link_between n a (h.next a) h) x xs b (λ z m. ground arith)
        (λ z m. ground (arith, d)) c.2 in
    (ground arith, ground arith, (ground arith, ground arith, rest))

pub list_del-alone : (h : Heap) (n : ℕ) → IsChain (list_del n h) n [] n
unfolding list_del unlink
list_del-alone h n = ground arith

pub list_empty-IsChain :
    (h : Heap) (a : ℕ) (xs : List ℕ)
    → IsChain h a xs a
    → member a xs ≡ false
    → list_empty a h ≡ Kernel.list_empty xs
unfolding list_empty
list_empty-IsChain h a [] c o = ground arith
list_empty-IsChain h a (x ∷ xs) c o = ground arith
