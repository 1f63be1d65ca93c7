-- ===== src/Kernel/Highest.antt =====
-- `__schedule_get_hp_thread` finds a ready thread of the highest priority.
use s_kernel.Common.{
  ℕ, ◌-◌, ◌<◌, ◌≤◌, ◌≡◌, refl, sym, ◌∙◌, arith, true, not, List, [], ◌∷◌, member, get_or, width,
  first_from, ffs-eq-first_from, nonzero, first_from-IsLowest, nonzero_of_set,
}
use s_kernel.Kernel.{Kernel, ready_at, null, list_empty}
use s_kernel.Kernel.Sched.{get_hp_thread}
use s_kernel.Kernel.Inv.{IsLinked}

pub not_empty_of_member : (t : ℕ) (xs : List ℕ) → member t xs ≡ true → not (list_empty xs) ≡ true
not_empty_of_member t [] h = cc
not_empty_of_member t (x ∷ xs) h = refl

head_member : (xs : List ℕ) (d : ℕ) → not (list_empty xs) ≡ true → member (get_or xs 0 d) xs ≡ true
head_member [] d h = cc
head_member (x ∷ xs) d h = ground arith

-- What is known of the pair that `__schedule_get_hp_thread` finds.
pub record IsHighest (k : Kernel) (to : ℕ × ℕ) : Type 0 where
  pub in_table : to.1 < width
  pub is_ready : member to.0 (k.queue (ready_at to.1)) ≡ true
  pub its_priority : (k.thread to.0).current_pri ≡ to.1
  pub best : (t p : ℕ) → member t (k.queue (ready_at p)) ≡ true → to.1 ≤ p

module _ {k : Kernel} (v : IsLinked k) where
  pub ready_priority_low : (t p : ℕ) → member t (k.queue (ready_at p)) ≡ true → p < width
  ready_priority_low t p h = ground (arith, v.priority t p h, v.low t)

  pub group_set : (t p : ℕ) → member t (k.queue (ready_at p)) ≡ true → k.group p ≡ true
  group_set t p h =
      v.grouped p (ready_priority_low t p h) ∙ not_empty_of_member t (k.queue (ready_at p)) h

  -- A ready thread makes the group nonzero.
  pub nonzero_of_ready : (t p : ℕ) → member t (k.queue (ready_at p)) ≡ true → nonzero k.group ≡ true
  nonzero_of_ready t p h =
      nonzero_of_set width 0 p k.group (omega arith) (omega (arith, ready_priority_low t p h))
        (group_set t p h)

  pub get_hp_thread-IsHighest : nonzero k.group ≡ true → IsHighest k (get_hp_thread k)
  unfolding get_hp_thread
  get_hp_thread-IsHighest h = rw (ffs-eq-first_from k.group) (
      let f = first_from-IsLowest width 0 k.group h in
      let p = first_from width 0 k.group - 1 in
      let low : p < width = omega (arith, f.above, f.below) in
      let there = head_member (k.queue (ready_at p)) null (sym (v.grouped p low) ∙ f.set_there) in
      record {
        in_table = low;
        is_ready = there;
        its_priority = v.priority _ p there;
        best = λ t q m.
            let low' = ready_priority_low t q m in
            let least = f.least q (omega arith) (omega (arith, low')) (group_set t q m) in
            omega (arith, least, f.above);
      })
