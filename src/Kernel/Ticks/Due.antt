-- ===== src/Kernel/Ticks/Due.antt =====
-- Which timers the interrupt calls.
use s_kernel.Common.{
  ℕ, suc, ◌⊎◌, ◌%◌, ◌^◌, ◌+◌, ◌<◌, ◌≤◌, ◌≡◌, ◌≢◌, refl, sym, ap, subst, ◌∙◌, arith, Bool, true,
  false, List, [], ◌∷◌, ◌++◌, append_assoc, get_or, member, member-append, length, length-append,
  Bool-cases, inl, inr, remove, IsDistinct, leb, ◌==◌, if◌then◌else◌,
}
use s_kernel.Kernel.{Kernel, Timer, null, update}
use s_kernel.Kernel.Timers.{timer_start}
use s_kernel.Kernel.Ticks.{
  next_in, is_alone, run_callback, expire, restart, check_from, timer_check,
}
use s_kernel.Kernel.Ticks.Walk.{
  NoneDue, next_in-append, distinct_apart, remove_between, NoneDue-frame, append-NoneDue,
  IsDistinct-without, check_from_past, check_from_all,
}

module _ (call_external : ℕ → ℕ → Kernel → Kernel) where
  -- `sk_timer_check` where no timer is due comes to an end, as many rounds as there are timers are
  -- enough, and changes nothing.
  pub timer_check_none :
      (extra : ℕ) (k : Kernel)
      → IsDistinct k.timers
      → NoneDue k k.timers
      → timer_check call_external (length k.timers + extra) k ≡ k
  unfolding timer_check
  timer_check_none extra k distinct none_due =
      check_from_all call_external extra k [] k.timers refl distinct none_due

  expire_active :
      (t : ℕ) (k : Kernel)
      → (k.timer t).active ≡ true
      → expire call_external t k ≡ run_callback call_external (k.timer t).callback k
  unfolding expire
  expire_active t k active = rw active refl

  module _ (fuel t : ℕ) (k : Kernel) (ne : t ≢ null)
      (late : (k.timer t).timeout_tick ≤ k.tick) where
    there : (t == null) ≡ false
    there = ground arith

    due : leb (k.timer t).timeout_tick k.tick ≡ true
    due = ground arith

    check_from_alone :
        is_alone t (expire call_external t k).timers ≡ true
        → check_from call_external (suc fuel) t k ≡ expire call_external t k
    unfolding check_from
    check_from_alone alone = rw (there, due, alone) refl

    check_from_due :
        is_alone t (expire call_external t k).timers ≡ false
        → let k' = restart call_external t (expire call_external t k) in
          check_from call_external (suc fuel) t k
          ≡ check_from call_external fuel (next_in t k'.timers) k'
    unfolding check_from
    check_from_due others = rw (there, due, others) refl

  -- `sk_timer_check` with a single timer that is due and active, and that stays the only one: it runs
  -- the callback and leaves the timer as the callback has left it, active and due.
  pub timer_check_alone :
      (fuel t : ℕ) (k : Kernel)
      → k.timers ≡ t ∷ []
      → t ≢ null
      → (k.timer t).active ≡ true
      → (k.timer t).timeout_tick ≤ k.tick
      → (run_callback call_external (k.timer t).callback k).timers ≡ t ∷ []
      → timer_check call_external (suc fuel) k ≡ run_callback call_external (k.timer t).callback k
  unfolding timer_check
  timer_check_alone fuel t k single ne active late kept =
      let called = expire_active t k active in
      let kept' : (expire call_external t k).timers ≡ t ∷ [] =
        ap (λ (h : Kernel). h.timers) called ∙ kept in
      let alone : is_alone t (expire call_external t k).timers ≡ true =
        ap (is_alone t) kept' ∙ ground arith in
      let first : get_or k.timers 0 null ≡ t = ap (λ (l : List ℕ). get_or l 0 null) single in
      ap (λ (u : ℕ). check_from call_external (suc fuel) u k) first
      ∙ check_from_alone fuel t k ne late alone
      ∙ called

  check_from_first :
      (extra t : ℕ) (before after : List ℕ) (k : Kernel)
      → k.timers ≡ before ++ (t ∷ after)
      → IsDistinct k.timers
      → NoneDue k before
      → NoneDue k after
      → let k' = timer_start t k in
        check_from call_external (length (before ++ after) + extra) (next_in t k'.timers) k' ≡ k'
  unfolding timer_start
  check_from_first extra t before after k split distinct early later =
      let k' = timer_start t k in
      let apart = IsDistinct-without before t after (subst IsDistinct split distinct) in
      let others : remove t k.timers ≡ before ++ after =
        ap (remove t) split ∙ remove_between before t after (subst IsDistinct split distinct) in
      let split' : k'.timers ≡ (t ∷ []) ++ (before ++ after) = ap (λ (l : List ℕ). t ∷ l) others in
      let follows : next_in t k'.timers ≡ get_or (before ++ after) 0 null =
        ap (next_in t) split' ∙ ground arith in
      rw follows (
        check_from_all call_external extra k' (t ∷ []) (before ++ after) split'
          (subst IsDistinct (sym split') apart)
          (NoneDue-frame k k' (before ++ after) refl (λ u h. ground (arith, apart))
            (append-NoneDue k before after early later)))

  abbrev stopped : ℕ → Kernel → Kernel
  stopped t k = record k { timer = update k.timer t (record (k.timer t) { active = false }) }

  restart_periodic :
      (t : ℕ) (k : Kernel)
      → (k.timer t).periodic ≡ true
      → restart call_external t k ≡ timer_start t k
  unfolding restart
  restart_periodic t k e = ap (λ (b : Bool). if b then timer_start t k else stopped t k) e

  restart_once :
      (t : ℕ) (k : Kernel) → (k.timer t).periodic ≡ false → restart call_external t k ≡ stopped t k
  unfolding restart
  restart_once t k e = ap (λ (b : Bool). if b then timer_start t k else stopped t k) e

  -- From the timer that has been called on, the loop only passes timers that are not due.
  check_from-restart :
      (extra t : ℕ) (before after : List ℕ) (k : Kernel)
      → k.timers ≡ before ++ (t ∷ after)
      → IsDistinct k.timers
      → NoneDue k before
      → NoneDue k after
      → let k' = restart call_external t k in
        check_from call_external (length (before ++ after) + extra) (next_in t k'.timers) k' ≡ k'
  check_from-restart extra t before after k split distinct early later =
      let out = distinct_apart before t after (subst IsDistinct split distinct) in
      let follows : next_in t k.timers ≡ get_or after 0 null =
        ap (next_in t) split ∙ next_in-append before t after out in
      let rounds : length (before ++ after) + extra ≡ length after + (length before + extra) =
        omega (arith, length-append before after) in
      elim (Bool-cases (k.timer t).periodic) [
        | inl e ↦
            rw (restart_periodic t k e)
              (check_from_first extra t before after k split distinct early later)
        | inr e ↦
            rw (restart_once t k e, rounds, follows)
              (check_from_all call_external (length before + extra) (stopped t k)
                (before ++ (t ∷ [])) after (split ∙ sym (append_assoc before (t ∷ []) after))
                distinct (NoneDue-frame k (stopped t k) after refl (λ u h. ground arith) later))
      ]

  -- One timer is called, and then started again or made inactive.
  timer_check-restart :
      (extra t : ℕ) (before after : List ℕ) (k : Kernel)
      → k.timers ≡ before ++ (t ∷ after)
      → IsDistinct k.timers
      → 1 < length k.timers
      → NoneDue k before
      → NoneDue k after
      → t ≢ null
      → (k.timer t).active ≡ true
      → (k.timer t).timeout_tick ≤ k.tick
      → let k' = run_callback call_external (k.timer t).callback k in
        (k'.timers ≡ k.timers)
        → (k'.timer ≡ k.timer)
        → (k'.tick ≡ k.tick)
        → timer_check call_external (length before + suc (length (before ++ after) + extra)) k
          ≡ restart call_external t k'
  unfolding timer_check
  timer_check-restart extra t before after k split distinct several early later ne active late
        timers timer tick =
      let k' = run_callback call_external (k.timer t).callback k in
      let called = expire_active t k active in
      let same : (u : ℕ) → (k'.timer u).timeout_tick ≡ (k.timer u).timeout_tick =
        λ u. ap (λ (f : ℕ → Timer). (f u).timeout_tick) timer in
      let listed : member t k.timers ≡ true =
        ap (member t) split ∙ ground (arith, member-append t before (t ∷ after)) in
      let others : is_alone t (expire call_external t k).timers ≡ false =
        ap (λ (h : Kernel). is_alone t h.timers) called
        ∙ ap (is_alone t) timers
        ∙ ground (arith, listed, several) in
      ap
        (λ (l : List ℕ).
          check_from call_external (length before + suc (length (before ++ after) + extra))
            (get_or l 0 null) k)
        split
      ∙ check_from_past call_external (suc (length (before ++ after) + extra)) k [] before
          (t ∷ after) split distinct early
      ∙ check_from_due (length (before ++ after) + extra) t k ne late others
      ∙ ap
          (λ (h : Kernel).
            let h' = restart call_external t h in
            check_from call_external (length (before ++ after) + extra) (next_in t h'.timers) h')
          called
      ∙ check_from-restart extra t before after k' (timers ∙ split)
          (subst IsDistinct (sym timers) distinct)
          (NoneDue-frame k k' before tick (λ u h. same u) early)
          (NoneDue-frame k k' after tick (λ u h. same u) later)

  -- `sk_timer_check` with at least two timers of which one is due and active and no other one is due,
  -- active or not, with a callback that leaves the timers and the tick alone: it comes to an end, twice
  -- as many rounds as there are timers are enough, and it runs this callback once; then the timer, if
  -- it is periodic, goes to the head of the list, active and due `init_tick` ticks later, and if not,
  -- it stays in its place and is not active any more. No other timer changes.
  pub timer_check_one :
      (extra t : ℕ) (before after : List ℕ) (k : Kernel)
      → k.timers ≡ before ++ (t ∷ after)
      → IsDistinct k.timers
      → 1 < length k.timers
      → NoneDue k before
      → NoneDue k after
      → t ≢ null
      → (k.timer t).active ≡ true
      → (k.timer t).timeout_tick ≤ k.tick
      → let k' = run_callback call_external (k.timer t).callback k in
        (k'.timers ≡ k.timers)
        → (k'.timer ≡ k.timer)
        → (k'.tick ≡ k.tick)
        → let r =
            timer_check call_external (length before + suc (length (before ++ after) + extra)) k in
          (((k.timer t).periodic ≡ true)
            × (r ≡ record k' {
              timer = update k.timer t (record (k.timer t) {
                active = true;
                timeout_tick = (k.tick + (k.timer t).init_tick) % 2 ^ 32;
              });
              timers = t ∷ (before ++ after);
            }))
          ⊎ (((k.timer t).periodic ≡ false)
              × (r ≡ record k' {
                timer = update k.timer t (record (k.timer t) { active = false });
                timers = before ++ (t ∷ after);
              }))
  unfolding timer_start
  timer_check_one extra t before after k split distinct several early later ne active late timers
        timer tick =
      let k' = run_callback call_external (k.timer t).callback k in
      let done =
        timer_check-restart extra t before after k split distinct several early later ne active late
          timers timer tick in
      let same : (k'.timer t).periodic ≡ (k.timer t).periodic =
        ap (λ (f : ℕ → Timer). (f t).periodic) timer in
      let again = λ (tm : ℕ → Timer) (now : ℕ).
        update tm t
          (record (tm t) { active = true; timeout_tick = (now + (tm t).init_tick) % 2 ^ 32 }) in
      let begun : timer_start t k'
          ≡ record k' { timer = again k.timer k.tick; timers = t ∷ (before ++ after) } =
        ap
          (λ (tm : ℕ → Timer). record k' {
            timer = again tm k'.tick;
            timers = t ∷ remove t k'.timers;
          })
          timer
        ∙ ap (λ (now : ℕ). record k' { timer = again k.timer now; timers = t ∷ remove t k'.timers })
            tick
        ∙ ap (λ (l : List ℕ). record k' { timer = again k.timer k.tick; timers = t ∷ l })
            (ap (remove t) (timers ∙ split)
              ∙ remove_between before t after (subst IsDistinct split distinct)) in
      let ended : stopped t k' ≡ record k' {
        timer = update k.timer t (record (k.timer t) { active = false });
        timers = before ++ (t ∷ after);
      } =
        ap
          (λ (tm : ℕ → Timer). record k' { timer = update tm t (record (tm t) { active = false }) })
          timer
        ∙ ap
            (λ (l : List ℕ). record k' {
              timer = update k.timer t (record (k.timer t) { active = false });
              timers = l;
            })
            (timers ∙ split) in
      elim (Bool-cases (k.timer t).periodic) [
        | inl e ↦ inl (e, done ∙ restart_periodic t k' (same ∙ e) ∙ begun)
        | inr e ↦ inr (e, done ∙ restart_once t k' (same ∙ e) ∙ ended)
      ]
