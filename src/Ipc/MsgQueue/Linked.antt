-- ===== src/Ipc/MsgQueue/Linked.antt =====
-- Messages that are linked in a row, up to SK_NULL.
use s_kernel.Common.{
  ℕ, ◌≡◌, ◌≢◌, refl, sym, subst, arith, true, false, ◌==◌, if◌then◌else◌, List, [], ◌∷◌, ◌++◌,
  member, IsDistinct,
}
use s_kernel.Kernel.{null, update}

abbrev pub Linked : (ℕ → ℕ) → ℕ → List ℕ → Type 0
Linked next p [] = p ≡ null
Linked next p (x ∷ xs) = (p ≡ x) × (x ≢ null) × Linked next (next x) xs

-- The last message, SK_NULL if there is none.
abbrev pub last_of : List ℕ → ℕ
last_of [] = null
last_of (x ∷ []) = x
last_of (x ∷ y ∷ xs) = last_of (y ∷ xs)

-- Links of other messages do not matter.
pub Linked-frame :
    (next next' : ℕ → ℕ) (p : ℕ) (xs : List ℕ)
    → ((x : ℕ) → member x xs ≡ true → next' x ≡ next x)
    → Linked next p xs
    → Linked next' p xs
Linked-frame next next' p [] same l = l
Linked-frame next next' p (x ∷ xs) same l =
    let e = same x (ground arith) in
    (l.0, l.1, Linked-frame next next' (next' x) xs (λ y m. same y (ground arith)) (rw e l.2))

pub Linked-update :
    (next : ℕ → ℕ) (p m v : ℕ) (xs : List ℕ)
    → member m xs ≡ false
    → Linked next p xs
    → Linked (update next m v) p xs
Linked-update next p m v xs out = Linked-frame next (update next m v) p xs (λ x h. ground arith)

pub last_of-member : (x : ℕ) (xs : List ℕ) → member (last_of (x ∷ xs)) (x ∷ xs) ≡ true
last_of-member x [] = ground arith
last_of-member x (y ∷ xs) = ground (arith, last_of-member y xs)

-- A message is linked behind the last one.
pub append-Linked :
    (next : ℕ → ℕ) (p : ℕ) (x : ℕ) (xs : List ℕ) (m : ℕ)
    → Linked next p (x ∷ xs)
    → IsDistinct (x ∷ xs)
    → member m (x ∷ xs) ≡ false
    → m ≢ null
    → Linked (update (update next m null) (last_of (x ∷ xs)) m) p (x ∷ xs ++ (m ∷ []))
append-Linked next p x [] m l d out ne = ground arith
append-Linked next p x (y ∷ xs) m l d out ne =
    let links = update (update next m null) (last_of (y ∷ xs)) m in
    let e : links x ≡ next x = ground (arith, last_of-member y xs) in
    let ih : Linked links (next x) (y ∷ xs ++ (m ∷ [])) =
      append-Linked next (next x) y xs m l.2 d.1 (ground arith) ne in
    (l.0, l.1, subst (λ (z : ℕ). Linked links z (y ∷ xs ++ (m ∷ []))) (sym e) ih)

pub Linked-ne_null :
    (next : ℕ → ℕ) (p x : ℕ) (xs : List ℕ) → Linked next p xs → member x xs ≡ true → x ≢ null
Linked-ne_null next p x [] l m = cc
Linked-ne_null next p x (y ∷ xs) l m = ground (arith, Linked-ne_null next (next y) x xs l.2)

pub last_of-append : (xs : List ℕ) (m : ℕ) → last_of (xs ++ (m ∷ [])) ≡ m
last_of-append [] m = refl
last_of-append (x ∷ []) m = refl
last_of-append (x ∷ y ∷ xs) m = last_of-append (y ∷ xs) m

-- What `sk_msg_queue_send_wait` does to the links.
pub queue-Linked :
    (next : ℕ → ℕ) (head tail m : ℕ) (xs : List ℕ)
    → Linked next head xs
    → tail ≡ last_of xs
    → IsDistinct xs
    → member m xs ≡ false
    → m ≢ null
    → Linked
        (if tail == null then update next m null else update (update next m null) tail m)
        (if head == null then m else head)
        (xs ++ (m ∷ []))
queue-Linked next head tail m [] l e d out ne = ground arith
queue-Linked next head tail m (x ∷ xs) l e d out ne =
    let some_tail : (last_of (x ∷ xs) == null) ≡ false =
      ground
        (arith, Linked-ne_null next head (last_of (x ∷ xs)) (x ∷ xs) l (last_of-member x xs)) in
    let ys = x ∷ xs ++ (m ∷ []) in
    let same_head : (if head == null then m else head) ≡ head = ground arith in
    let links : (if tail == null then update next m null else update (update next m null) tail m)
        ≡ update (update next m null) (last_of (x ∷ xs)) m =
      rw (e, some_tail) in
    subst (λ (f : ℕ → ℕ). Linked f (if head == null then m else head) ys) (sym links)
      (subst (λ (p : ℕ). Linked (update (update next m null) (last_of (x ∷ xs)) m) p ys)
        (sym same_head) (append-Linked next head x xs m l d out ne))

-- What `sk_msg_queue_recv` does to the tail.
pub last_of_rest :
    (tail m : ℕ) (xs : List ℕ)
    → tail ≡ last_of (m ∷ xs)
    → member m xs ≡ false
    → (if tail == m then null else tail) ≡ last_of xs
last_of_rest tail m [] e out = ground arith
last_of_rest tail m (x ∷ xs) e out = ground (arith, last_of-member x xs)

-- The chain of the free messages does not notice.
pub unused-Linked :
    (next : ℕ → ℕ) (p tail m : ℕ) (xs ys : List ℕ)
    → Linked next p ys
    → tail ≡ last_of xs
    → member m ys ≡ false
    → ((x : ℕ) → member x xs ≡ true → member x ys ≡ false)
    → Linked (if tail == null then update next m null else update (update next m null) tail m) p ys
unused-Linked next p tail m [] ys l e out apart = rw e (Linked-update next p m null ys out l)
unused-Linked next p tail m (x ∷ xs) ys l e out apart =
    Linked-frame next _ p ys (λ y h. ground (arith, last_of-member x xs, apart (last_of (x ∷ xs))))
      l
