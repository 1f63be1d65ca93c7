-- ===== src/Ipc/Blocked.antt =====
-- What a call that blocks, and a call that wakes a thread, leave behind.
use s_kernel.Common.{
  ℕ, ◌≡◌, ◌≢◌, sym, ap, ◌∙◌, arith, true, false, ◌||◌, ◌==◌, if◌then◌else◌, List, [], ◌∷◌, ◌++◌,
  member, member-append, ◌⊎◌, inl, inr, ℤ,
}
use s_kernel.Kernel.{Kernel, Phase, Queue, ready_at, same_queue, stat_is}
use s_kernel.Kernel.Timers.{start_timeout}
use s_kernel.Kernel.Sched.{schedule}
use s_kernel.Kernel.Inv.{same_queue_comm}
use s_kernel.Kernel.Switch.{IsWellFormed, is_runnable}
use s_kernel.Kernel.Choice.{
  is_ready, schedule-IsWellFormed, schedule_waiting, schedule_keeps_one, schedule_gives_up,
}
use s_kernel.Kernel.Blocking.{SameLists, SameLists-IsWellFormed, start_timeout-SameLists}
use s_kernel.Ipc.Base.{list_suspend, insert_by_priority, flag_fifo, flag_prio, block, resume_first}
use s_kernel.Ipc.Waiting.{
  IsWaitList, member-insert_by_priority, list_suspend-IsWellFormed, queue-list_suspend,
  current-list_suspend, stat-list_suspend,
}
use s_kernel.Ipc.Waking.{resume_first-IsWellFormed, queue-resume_first, woken-resume_first}

-- The list of an object after a thread has joined it.
abbrev pub joined : ℕ → ℕ → Kernel → List ℕ → List ℕ
joined flag t k xs =
    if flag == flag_fifo
    then xs ++ (t ∷ [])
    else if flag == flag_prio
    then insert_by_priority (λ u. (k.thread u).current_pri) t xs
    else xs

-- A list has one of the two orders.
abbrev pub IsOrder : ℕ → Type 0
IsOrder flag = (flag ≡ flag_fifo) ⊎ (flag ≡ flag_prio)

pub member-joined :
    (flag t : ℕ) (k : Kernel) (xs : List ℕ) → IsOrder flag → member t (joined flag t k xs) ≡ true
member-joined flag t k xs (inl fifo) = rw fifo (ground (arith, member-append t xs (t ∷ [])))
member-joined flag t k xs (inr prio) =
    rw prio (ground (arith, member-insert_by_priority (λ u. (k.thread u).current_pri) t t xs))

module _ {k : Kernel} (w : IsWellFormed k) (run : (k.thread k.current).phase ≡ Phase.running)
    (q : Queue) (nr : IsWaitList q) (flag : ℕ) (time : ℤ) where
  pub timed :
      SameLists
        (list_suspend q k.current flag k)
        (start_timeout k.current time (list_suspend q k.current flag k))
  timed = start_timeout-SameLists k.current time (list_suspend q k.current flag k)

  pub before : IsWellFormed (start_timeout k.current time (list_suspend q k.current flag k))
  before = SameLists-IsWellFormed timed (list_suspend-IsWellFormed w run q nr flag)

  pub block-IsWellFormed : IsWellFormed (block q flag time k)
  unfolding block
  block-IsWellFormed = schedule-IsWellFormed before

  pub queue-block :
      (r : Queue)
      → IsWaitList r
      → (block q flag time k).queue r
        ≡ (if same_queue q r then joined flag k.current k (k.queue r) else k.queue r)
  unfolding block
  queue-block r nr' =
      schedule_waiting before r (λ p. same_queue_comm (ready_at p) r ∙ nr' p)
      ∙ timed.same_queues r
      ∙ queue-list_suspend w run q nr flag r

  -- With a ready thread there, the thread that blocks does not run on.
  pub current-block :
      (t p : ℕ) → member t (k.queue (ready_at p)) ≡ true → (block q flag time k).current ≢ k.current
  unfolding block
  current-block t p m e =
      let k₁ = list_suspend q k.current flag k in
      let k₂ = start_timeout k.current time k₁ in
      let me : k₂.current ≡ k.current = timed.same_current ∙ current-list_suspend w run q nr flag in
      let there : member t (k₂.queue (ready_at p)) ≡ true =
        ap (member t)
          (timed.same_queues (ready_at p) ∙ queue-list_suspend w run q nr flag (ready_at p))
        ∙ ground (arith, nr p) in
      let down : is_runnable (k₂.thread k₂.current) ≡ false =
        rw (me, timed.same_thread k.current) (ground (arith, stat-list_suspend w run q nr flag)) in
      schedule_gives_up before down t p there (e ∙ sym me)

-- A call that resumes the first thread of a list and gives the processor away.
module _ {k : Kernel} (w : IsWellFormed k) (q : Queue) (nr : IsWaitList q) (x : ℕ) (xs : List ℕ)
    (e : k.queue q ≡ x ∷ xs) (down : stat_is (k.thread x) Phase.suspend ≡ true) where
  pub wake-IsWellFormed : IsWellFormed (schedule (resume_first q k))
  wake-IsWellFormed = schedule-IsWellFormed (resume_first-IsWellFormed w q nr x xs e down)

  pub queue-wake :
      (r : Queue)
      → IsWaitList r
      → (schedule (resume_first q k)).queue r ≡ (if same_queue q r then xs else k.queue r)
  queue-wake r nr' =
      schedule_waiting (resume_first-IsWellFormed w q nr x xs e down) r
        (λ p. same_queue_comm (ready_at p) r ∙ nr' p)
      ∙ queue-resume_first w q nr x xs e down r nr'

  -- The thread that is woken is ready or runs.
  pub woken-wake :
      (is_ready x (schedule (resume_first q k)) || (schedule (resume_first q k)).current == x)
      ≡ true
  woken-wake =
      schedule_keeps_one (resume_first-IsWellFormed w q nr x xs e down) x
        (woken-resume_first w q nr x xs e down)
