-- ===== src/Kernel/Ticks/Walk.antt =====
-- The loop of `sk_timer_check` past timers that are not due.
use s_kernel.Common.{
  ℕ, zero, suc, ◌+◌, ◌<◌, ◌≡◌, ◌≢◌, refl, sym, ap, subst, ◌∙◌, arith, true, false, List, [], ◌∷◌,
  ◌++◌, append-nil, append_assoc, get_or, member, member-append, length, remove, remove_absent,
  IsDistinct, leb, ◌==◌,
}
use s_kernel.Kernel.{Kernel, null}
use s_kernel.Kernel.Ticks.{next_in, check_from}

-- None of the timers is due.
abbrev pub NoneDue : Kernel → List ℕ → Type 0
NoneDue k [] = Unit {0}
NoneDue k (t ∷ ts) = (k.tick < (k.timer t).timeout_tick) × (t ≢ null) × NoneDue k ts

pub next_in-append :
    (before : List ℕ) (t : ℕ) (after : List ℕ)
    → member t before ≡ false
    → next_in t (before ++ (t ∷ after)) ≡ get_or after 0 null
next_in-append [] t after out = ground arith
next_in-append (x ∷ before) t after out = ground (arith, next_in-append before t after)

pub distinct_apart :
    (before : List ℕ) (t : ℕ) (after : List ℕ)
    → IsDistinct (before ++ (t ∷ after))
    → member t before ≡ false
distinct_apart [] t after d = refl
distinct_apart (x ∷ before) t after d =
    ground (arith, distinct_apart before t after d.1, member-append x before (t ∷ after), d.0)

pub remove_between :
    (before : List ℕ) (t : ℕ) (after : List ℕ)
    → IsDistinct (before ++ (t ∷ after))
    → remove t (before ++ (t ∷ after)) ≡ before ++ after
remove_between [] t after d = ground (arith, remove_absent t after d.0)
remove_between (x ∷ before) t after d =
    ground (arith, remove_between before t after d.1, distinct_apart (x ∷ before) t after d)

pub NoneDue-frame :
    (k k' : Kernel) (ts : List ℕ)
    → k'.tick ≡ k.tick
    → ((u : ℕ) → member u ts ≡ true → (k'.timer u).timeout_tick ≡ (k.timer u).timeout_tick)
    → NoneDue k ts
    → NoneDue k' ts
NoneDue-frame k k' [] tick same n = tt
NoneDue-frame k k' (t ∷ ts) tick same n = (
  omega (arith, n.0, same t (ground arith)),
  n.1,
  NoneDue-frame k k' ts tick (λ u h. same u (ground arith)) n.2,
)

pub append-NoneDue :
    (k : Kernel) (xs ys : List ℕ) → NoneDue k xs → NoneDue k ys → NoneDue k (xs ++ ys)
append-NoneDue k [] ys n m = m
append-NoneDue k (x ∷ xs) ys n m = (n.0, n.1, append-NoneDue k xs ys n.2 m)

pub IsDistinct-without :
    (before : List ℕ) (t : ℕ) (after : List ℕ)
    → IsDistinct (before ++ (t ∷ after))
    → IsDistinct (t ∷ (before ++ after))
IsDistinct-without [] t after d = d
IsDistinct-without (x ∷ before) t after d =
    let rest = IsDistinct-without before t after d.1 in
    (
      ground (arith, rest.0, d.0, member-append x before (t ∷ after)),
      (
        ground (arith, d.0, member-append x before (t ∷ after), member-append x before after),
        rest.1,
      ),
    )

module _ (call_external : ℕ → ℕ → Kernel → Kernel) where
  -- The loop goes past timers that are not due, one round for each.
  pub check_from_past :
      (fuel : ℕ) (k : Kernel) (before between after : List ℕ)
      → k.timers ≡ before ++ (between ++ after)
      → IsDistinct k.timers
      → NoneDue k between
      → check_from call_external (length between + fuel) (get_or (between ++ after) 0 null) k
        ≡ check_from call_external fuel (get_or after 0 null) k
  unfolding check_from
  check_from_past fuel k before [] after split distinct none_due =
      let same : 0 + fuel ≡ fuel = omega arith in rw same refl
  check_from_past fuel k before (t ∷ between) after split distinct none_due =
      let waits : leb (k.timer t).timeout_tick k.tick ≡ false = ground (arith, none_due) in
      let there : (t == null) ≡ false = ground (arith, none_due) in
      let out : member t before ≡ false =
        distinct_apart before t (between ++ after) (subst IsDistinct split distinct) in
      let follows : next_in t k.timers ≡ get_or (between ++ after) 0 null =
        ap (next_in t) split ∙ next_in-append before t (between ++ after) out in
      let split' : k.timers ≡ (before ++ (t ∷ [])) ++ (between ++ after) =
        split ∙ sym (append_assoc before (t ∷ []) (between ++ after)) in
      let round : suc (length between) + fuel ≡ suc (length between + fuel) = omega arith in
      rw (round, there, waits, follows)
        (check_from_past fuel k (before ++ (t ∷ [])) between after split' distinct none_due.2)

  check_from_end : (fuel : ℕ) (k : Kernel) → check_from call_external fuel null k ≡ k
  unfolding check_from
  check_from_end zero k = refl
  check_from_end (suc fuel) k = refl

  pub check_from_all :
      (extra : ℕ) (k : Kernel) (before rest : List ℕ)
      → k.timers ≡ before ++ rest
      → IsDistinct k.timers
      → NoneDue k rest
      → check_from call_external (length rest + extra) (get_or rest 0 null) k ≡ k
  check_from_all extra k before rest split distinct none_due =
      let all : rest ++ [] ≡ rest = append-nil rest in
      subst
        (λ (l : List ℕ).
          check_from call_external (length rest + extra) (get_or l 0 null) k
          ≡ check_from call_external extra null k)
        all
        (check_from_past extra k before rest [] (split ∙ ap (λ (l : List ℕ). before ++ l) (sym all))
          distinct none_due)
      ∙ check_from_end extra k
