-- ===== src/Ipc/Parked.antt =====
-- The invariant of the scheduler and the wait lists together: every thread that waits for an object
-- is suspended. Blocking and waking keep it.
use s_kernel.Common.{
  ℕ, ◌≡◌, sym, ap, ◌∙◌, arith, true, false, not, ◌&&◌, ◌||◌, ◌==◌, Bool-cases, ==_true, ==_false,
  inl, inr, List, [], ◌∷◌, member, member-append, ℤ,
}
use s_kernel.Kernel.{Kernel, Phase, Queue, ready_at, same_queue, stat_is}
use s_kernel.Kernel.Timers.{start_timeout}
use s_kernel.Kernel.Sched.{schedule}
use s_kernel.Kernel.Inv.{same_queue_comm, same_queue-eq}
use s_kernel.Kernel.Switch.{IsWellFormed}
use s_kernel.Kernel.Choice.{schedule_down, schedule_waiting, schedule-IsWellFormed}
use s_kernel.Ipc.Base.{list_suspend, block, resume_first}
use s_kernel.Ipc.Waiting.{
  IsWaitList, member-insert_by_priority, queue-list_suspend, stat-list_suspend, other-list_suspend,
}
use s_kernel.Ipc.Waking.{resume_first-IsWellFormed, queue-resume_first, other-resume_first, once}
use s_kernel.Ipc.Blocked.{joined, before, timed}

pub record IsSound (k : Kernel) : Type 0 where
  pub well_formed : IsWellFormed k
  pub parked :
      (q : Queue) (u : ℕ)
      → IsWaitList q
      → member u (k.queue q) ≡ true
      → stat_is (k.thread u) Phase.suspend ≡ true

-- A thread in a wait list is in no ready list.
pub away_of_waiting :
    {k : Kernel} (w : IsWellFormed k) (q : Queue) (u : ℕ)
    → IsWaitList q
    → member u (k.queue q) ≡ true
    → (p : ℕ) → member u (k.queue (ready_at p)) ≡ false
away_of_waiting {k} w q u nr m p = ground (arith, nr p, w.linked.one_queue u q (ready_at p))

pub schedule-IsSound : {k : Kernel} → IsSound k → IsSound (schedule k)
schedule-IsSound {k} s = record {
  well_formed = schedule-IsWellFormed s.well_formed;
  parked = λ q u nr m.
      let same = schedule_waiting s.well_formed q (λ p. same_queue_comm (ready_at p) q ∙ nr p) in
      let m' : member u (k.queue q) ≡ true = sym (ap (member u) same) ∙ m in
      schedule_down s.well_formed u (away_of_waiting s.well_formed q u nr m') (s.parked q u nr m');
}

member-joined :
    (flag t u : ℕ) (k : Kernel) (xs : List ℕ)
    → member u (joined flag t k xs) ≡ true
    → (t == u || member u xs) ≡ true
member-joined flag t u k xs m = ground (
  arith,
  member-append u xs (t ∷ []),
  member-insert_by_priority (λ v. (k.thread v).current_pri) t u xs,
)

module _ {k : Kernel} (s : IsSound k) (run : (k.thread k.current).phase ≡ Phase.running) (q : Queue)
    (nr : IsWaitList q) (flag : ℕ) (time : ℤ) where
  before-IsSound : IsSound (start_timeout k.current time (list_suspend q k.current flag k))
  before-IsSound =
      let w = s.well_formed in
      let t = timed w run q nr flag time in
      record {
        well_formed = before w run q nr flag time;
        parked = λ r u nr' m. rw (t.same_thread u) (elim (Bool-cases (u == k.current)) [
          | inl me ↦ rw (==_true u k.current me) (stat-list_suspend w run q nr flag)
          | inr ne ↦
              let m' =
                sym (ap (member u) (t.same_queues r ∙ queue-list_suspend w run q nr flag r)) ∙ m in
              let old : member u (k.queue r) ≡ true =
                ground (arith, m', member-joined flag k.current u k (k.queue r)) in
              rw (other-list_suspend w run q nr flag u (==_false u k.current ne))
                (s.parked r u nr' old)
        ]);
      }

  -- A call that blocks keeps the invariant.
  pub block-IsSound : IsSound (block q flag time k)
  unfolding block
  block-IsSound = schedule-IsSound before-IsSound

module _ {k : Kernel} (s : IsSound k) (q : Queue) (nr : IsWaitList q) (x : ℕ) (xs : List ℕ)
    (e : k.queue q ≡ x ∷ xs) where
  pub first_down : stat_is (k.thread x) Phase.suspend ≡ true
  first_down = s.parked q x nr (rw e (ground arith))

  -- A call that wakes the first thread of a list keeps the invariant.
  pub wake-IsSound : IsSound (schedule (resume_first q k))
  wake-IsSound =
      let w = s.well_formed in
      let down = first_down in
      schedule-IsSound (record {
        well_formed = resume_first-IsWellFormed w q nr x xs e down;
        parked = λ r u nr' m.
            let m' = sym (ap (member u) (queue-resume_first w q nr x xs e down r nr')) ∙ m in
            let old : (member u (k.queue r) && not (u == x)) ≡ true =
              elim (Bool-cases (same_queue q r)) [
                | inl same ↦
                    let here : k.queue r ≡ x ∷ xs = ap k.queue (sym (same_queue-eq q r same)) ∙ e in
                    let fresh = once w q nr x xs e down in
                    rw here (ground (arith, ap (λ (a : ℕ). member a xs)))
                | inr other ↦
                    let there : member x (k.queue q) ≡ true = rw e (ground arith) in
                    ground
                      (arith, w.linked.one_queue x q r there, ap (λ (a : ℕ). member a (k.queue r)))
              ] in
            rw (other-resume_first w q nr x xs e down u (ground arith))
              (s.parked r u nr' (ground arith));
      })
