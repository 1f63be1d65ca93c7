-- ===== src/Klist/Rings.antt =====
-- The circular list at a head implements the list of its nodes.
use s_kernel.Common.{
  ℕ, ◌≡◌, refl, arith, true, false, ◌||◌, ◌==◌, List, [], ◌∷◌, ◌++◌, member, remove, IsDistinct,
  member-append, member-remove, remove-IsDistinct, append-IsDistinct,
}
use s_kernel.Kernel
use s_kernel.Klist.{
  Heap, list_init, list_add, list_add_tail, list_del, list_empty, link_between, unlink,
}
use s_kernel.Klist.Chain.{
  IsChain, IsChain-frame, list_del-IsChain, append-IsChain, prepend-IsChain, list_del-alone,
  list_empty-IsChain, prev_of_end, last_of, member-last_of, prev_member, next_member,
}

-- From the head over the nodes back to the head, no node twice.
pub record IsRing (h : Heap) (head : ℕ) (xs : List ℕ) : Type 0 where
  pub chain : IsChain h head xs head
  pub distinct : IsDistinct xs
  pub headless : member head xs ≡ false

-- A list head that is initialised is the empty list.
pub list_init-IsRing : (h : Heap) (head : ℕ) → IsRing (list_init head h) head []
unfolding list_init
list_init-IsRing h head = record { chain = ground arith; distinct = tt; headless = refl }

module _ {h : Heap} {head : ℕ} {xs : List ℕ} (r : IsRing h head xs) where
  -- `sk_list_empty` tells whether the list has no node.
  pub list_empty_lem : list_empty head h ≡ Kernel.list_empty xs
  list_empty_lem = list_empty-IsChain h head xs r.chain r.headless

  module _ (node : ℕ) (new : (head == node || member node xs) ≡ false) where
    -- `sk_list_add_tail` of a node that is neither the head nor in the list puts it behind the
    -- last one.
    pub list_add_tail-IsRing : IsRing (list_add_tail head node h) head (xs ++ (node ∷ []))
    unfolding list_add_tail
    list_add_tail-IsRing = record {
      chain = rw (prev_of_end h head xs head r.chain) (
          append-IsChain h head xs head node r.chain r.distinct r.headless r.headless
            (ground arith));
      distinct = append-IsDistinct node xs r.distinct (ground arith);
      headless = ground (arith, r.headless, member-append head xs (node ∷ []));
    }

    -- `sk_list_add` puts it in front of the first one.
    pub list_add-IsRing : IsRing (list_add head node h) head (node ∷ xs)
    unfolding list_add
    list_add-IsRing = record {
      chain =
          prepend-IsChain h head xs head node r.chain r.distinct r.headless r.headless
            (ground arith);
      distinct = (ground arith, r.distinct);
      headless = ground (arith, r.headless);
    }

  -- `sk_list_del` of a node of the list takes out that node and no other, and leaves it linked to
  -- itself alone.
  pub list_del-IsRing :
      (node : ℕ)
      → member node xs ≡ true
      → IsRing (list_del node h) head (remove node xs) × IsRing (list_del node h) node []
  list_del-IsRing node m = (
    record {
      chain = list_del-IsChain h head xs head node r.chain r.distinct m r.headless r.headless;
      distinct = remove-IsDistinct node xs r.distinct;
      headless = ground (arith, r.headless, member-remove head node xs);
    },
    record { chain = list_del-alone h node; distinct = tt; headless = refl },
  )

-- Another list with no node in common.
module _ {h : Heap} {head : ℕ} {xs : List ℕ} (r : IsRing h head xs) {other : ℕ} {ys : List ℕ}
    (r' : IsRing h other ys)
    (apart : (z : ℕ)
      → (z == head || member z xs) ≡ true
      → (z == other || member z ys) ≡ false) where
  -- `sk_list_del` of a node of one list leaves a list that has no node and no head in common with
  -- it as it is.
  pub list_del-frame : (node : ℕ) → member node xs ≡ true → IsRing (list_del node h) other ys
  unfolding list_del unlink
  list_del-frame node m =
      let before = prev_member h head xs head node r.chain m in
      let after = next_member h head xs head node r.chain m in
      record {
        chain =
            IsChain-frame h (list_del node h) other ys other
              (λ z in_ys. ground (arith, m, before, apart node, apart (h.prev node)))
              (λ z in_ys. ground (arith, m, after, apart node, apart (h.next node))) r'.chain;
        distinct = r'.distinct;
        headless = r'.headless;
      }

  -- So does `sk_list_add_tail` of a node that is in neither.
  pub list_add_tail-frame :
      (node : ℕ)
      → (other == node || member node ys) ≡ false
      → IsRing (list_add_tail head node h) other ys
  unfolding list_add_tail link_between
  list_add_tail-frame node new =
      let last = prev_of_end h head xs head r.chain in
      record {
        chain =
            IsChain-frame h (list_add_tail head node h) other ys other
              (λ z in_ys. ground (arith, last, member-last_of head xs, apart (last_of head xs)))
              (λ z in_ys. ground (arith, apart head)) r'.chain;
        distinct = r'.distinct;
        headless = r'.headless;
      }
