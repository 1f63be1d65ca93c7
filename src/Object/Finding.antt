-- ===== src/Object/Finding.antt =====
-- Which object `sk_object_find` returns.
use s_kernel.Common.{
  ℕ, ◌+◌, ◌-◌, ◌≤◌, ◌≡◌, ◌≢◌, refl, ap, arith, true, false, ◌==◌, ◌⊎◌, inl, inr, Bool-cases,
  ==_true, ==_false, List, [], ◌∷◌, ◌++◌, member,
}
use s_kernel.Kernel.{null}
use s_kernel.Memory.{Memory, memcpy, strcmp}
use s_kernel.Memory.Copying.{memcpy_lem}
use s_kernel.Memory.Comparing.{AgreeUpTo, IsBytes, strcmp_lem}
use s_kernel.Slab.Heap.{malloc}
use s_kernel.Object.{
  ObjectType, Registry, index, name_max, obj_size, find_in, find, enter, alloc, init,
}

-- The object has the name.
abbrev pub Named : Memory → ℕ → ℕ → Type 0
Named m name obj = AgreeUpTo obj name name_max m

-- None of the objects has the name.
abbrev pub NoneNamed : Memory → ℕ → List ℕ → Type 0
NoneNamed m name [] = Unit {0}
NoneNamed m name (obj ∷ rest) = (Named m name obj → ⊥) × NoneNamed m name rest

-- The first object of the list with the name.
abbrev pub FirstNamed : Memory → ℕ → List ℕ → ℕ → Type 0
FirstNamed m name objects obj =
    (before after : List ℕ) × (objects ≡ before ++ (obj ∷ after))
    × NoneNamed m name before
    × Named m name obj

module _ {m : Memory} (bytes : IsBytes m) (name : ℕ) where
  find_in_lem :
      (objects : List ℕ)
      → ((find_in name objects m ≡ null) × NoneNamed m name objects)
        ⊎ FirstNamed m name objects (find_in name objects m)
  unfolding find_in
  find_in_lem [] = inl (refl, tt)
  find_in_lem (obj ∷ rest) =
      let (forth, back) = strcmp_lem bytes obj name name_max in
      elim (Bool-cases (strcmp obj name name_max m == 0)) [
        | inl e ↦ rw e (inr ([], rest, refl, tt, forth (==_true _ _ e)))
        | inr e ↦
            let other : Named m name obj → ⊥ = λ h. ==_false _ _ e (back h) in
            elim (find_in_lem rest) [
              | inl (nothing, nobody) ↦ rw e (inl (nothing, (other, nobody)))
              | inr (before, after, split, nobody, named) ↦ rw e (
                  inr (
                    obj ∷ before,
                    after,
                    ap (λ (l : List ℕ). obj ∷ l) split,
                    (other, nobody),
                    named,
                  ))
            ]
      ]

-- `sk_object_find` of a name that is not SK_NULL: either it returns SK_NULL, and no registered object
-- of the type has the name; or it returns the first object that has it.
pub find_lem :
    (name : ℕ) (type : ObjectType) (r : Registry)
    → IsBytes r.memory
    → name ≢ null
    → let objects = r.obj_list (index type) in
      ((find name type r ≡ null) × NoneNamed r.memory name objects)
      ⊎ FirstNamed r.memory name objects (find name type r)
unfolding find
find_lem name type r bytes ne =
    let given : (name == null) ≡ false = ground arith in
    rw given (find_in_lem bytes name (r.obj_list (index type)))

-- A copy of the name behind which the memory is as before has the name.
copied-IsBytes : (obj name count : ℕ) (m : Memory) → IsBytes m → IsBytes (memcpy obj name count m)
copied-IsBytes obj name count m bytes a =
    ground (arith, memcpy_lem obj name count m a, bytes a, bytes (name + (a - obj)))

copied-Named :
    (obj name : ℕ) (m : Memory)
    → (name + name_max ≤ obj) ⊎ (obj + name_max ≤ name)
    → Named (memcpy obj name name_max m) name obj
copied-Named obj name m apart i lt live =
    let there : obj + i - obj ≡ i = omega arith in
    ground (
      arith,
      memcpy_lem obj name name_max m (obj + i),
      memcpy_lem obj name name_max m (name + i),
      there,
    )

-- `sk_object_init` of an object that is not registered under a name that does not overlap it:
-- right after it `sk_object_find` of this name returns this object.
pub find-init :
    (obj name : ℕ) (type : ObjectType) (r : Registry)
    → IsBytes r.memory
    → name ≢ null
    → (name + name_max ≤ obj) ⊎ (obj + name_max ≤ name)
    → member obj (r.obj_list (index type)) ≡ false
    → find name type (init obj type name r) ≡ obj
unfolding find find_in init enter
find-init obj name type r bytes ne apart new =
    let given : (name == null) ≡ false = ground arith in
    let m' = memcpy obj name name_max r.memory in
    let here : (index type == index type) ≡ true = ground arith in
    let equal : strcmp obj name name_max m' ≡ 0 =
      (strcmp_lem (copied-IsBytes obj name name_max r.memory bytes) obj name name_max).1
        (copied-Named obj name r.memory apart) in
    rw (given, new, here, equal) refl

-- `sk_object_alloc` of a semaphore, a mutex, an event, a mailbox or a message queue always returns
-- SK_NULL and changes nothing: their size in the table is 0.
pub alloc_fails :
    (sizeof : ObjectType → ℕ) (name : ℕ) (r : Registry)
    → (alloc sizeof ObjectType.semaphore name r ≡ (null, r))
      × (alloc sizeof ObjectType.mutex name r ≡ (null, r))
      × (alloc sizeof ObjectType.event name r ≡ (null, r))
      × (alloc sizeof ObjectType.mailbox name r ≡ (null, r))
      × (alloc sizeof ObjectType.msque name r ≡ (null, r))
unfolding alloc obj_size malloc
alloc_fails sizeof name r = (refl, refl, refl, refl, refl)
