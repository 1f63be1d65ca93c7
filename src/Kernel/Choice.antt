-- ===== src/Kernel/Choice.antt =====
-- What `sk_schedule` chooses, and what it leaves alone.
use s_kernel.Common.{
  ℕ, ◌<◌, ◌≤◌, ◌≡◌, ◌≢◌, refl, sym, ap, subst, ◌∙◌, arith, Bool, true, false, ◌&&◌, ◌||◌, ◌==◌,
  List, [], ◌∷◌, ◌++◌, member, remove_absent, remove-append, get_or, IsDistinct, nonzero,
}
use s_kernel.Kernel.{Kernel, Phase, Queue, ready_at, waiters, senders, same_queue, null, stat_is}
use s_kernel.Kernel.Sched.{get_hp_thread, switch_to, schedule}
use s_kernel.Kernel.Highest.{nonzero_of_ready}
use s_kernel.Kernel.Switch.{
  IsWellFormed, is_runnable, idles, stays, switches, schedule-Outcome, switch_to-IsWellFormed,
  current-switch_to, member-switch_to, pri-switch_to, slice-switch_to, down-switch_to,
  queue-switch_to,
}

-- The thread stands in the ready list of its priority.
abbrev pub is_ready : ℕ → Kernel → Bool
is_ready t k = member t (k.queue (ready_at (k.thread t).current_pri))

get_hp_thread_head :
    (k : Kernel) → (get_hp_thread k).0 ≡ get_or (k.queue (ready_at (get_hp_thread k).1)) 0 null
unfolding get_hp_thread
get_hp_thread_head k = refl

module _ {k : Kernel} (w : IsWellFormed k) where
  not_null_of_ready : (t p : ℕ) → member t (k.queue (ready_at p)) ≡ true → t ≢ null
  not_null_of_ready t p h e =
      cc (h, ap (λ (a : ℕ). member a (k.queue (ready_at p))) e, w.linked.no_null (ready_at p))

  -- From a well-formed state `sk_schedule` leads to a well-formed one: no thread twice in a list
  -- or in two of them, the ready group the set of the priorities with a ready thread, the current
  -- thread in no ready list, and in no list at all while it can run on.
  pub schedule-IsWellFormed : IsWellFormed (schedule k)
  schedule-IsWellFormed = elim (schedule-Outcome w) [
    | idles z e ↦ rw e w
    | stays h r p e ↦ rw e w
    | switches h ne p e ↦ rw e (switch_to-IsWellFormed w _ ne (not_null_of_ready _ _ h.is_ready))
  ]

  -- In a well-formed state whose current thread is running and has not used up its time, or cannot
  -- go on: after `sk_schedule` no ready thread has a higher priority (a smaller number) than the
  -- thread that runs.
  pub schedule_highest :
      (is_runnable (k.thread k.current) ≡ true → stat_is (k.thread k.current) Phase.running ≡ true)
      → (t p : ℕ) → member t ((schedule k).queue (ready_at p)) ≡ true
      → ((schedule k).thread (schedule k).current).current_pri ≤ p
  schedule_highest up t p m = elim (schedule-Outcome w) [
    | idles z e ↦
        let m' : member t (k.queue (ready_at p)) ≡ true = rw e at m in
        absurd (cc (z, nonzero_of_ready w.linked t p m'))
    | stays h r le e ↦
        let m' : member t (k.queue (ready_at p)) ≡ true = rw e at m in
        rw e (omega (arith, h.best t p m'))
    | switches h ne lt e ↦
        let to = (get_hp_thread k).0 in
        let m' : member t ((switch_to to k).queue (ready_at p)) ≡ true = rw e at m in
        rw (e, current-switch_to w to ne, pri-switch_to w to ne)
          (ground (arith, h.its_priority, h.best t p, member-switch_to w to ne t (ready_at p), lt))
  ]

  -- In a well-formed state with a ready thread, the threads that are ready or run after
  -- `sk_schedule` are exactly those that were ready before, and the one that ran, unless that was
  -- suspended or closed.
  pub schedule_keeps :
      nonzero k.group ≡ true
      → (u : ℕ)
      → (is_ready u (schedule k) || (schedule k).current == u)
        ≡ (is_ready u k || (k.current == u && is_runnable (k.thread k.current)))
  schedule_keeps z u = elim (schedule-Outcome w) [
    | idles z' e ↦ cc (z, z')
    | stays h r le e ↦ rw e (ground arith)
    | switches h ne lt e ↦
        let to = (get_hp_thread k).0 in
        rw (e, current-switch_to w to ne, pri-switch_to w to ne)
          (ground (
            arith,
            h.is_ready,
            h.its_priority,
            member-switch_to w to ne u (ready_at (k.thread u).current_pri),
          ))
  ]

  -- A thread that is ready, or runs and can go on, is ready or runs after `sk_schedule`.
  pub schedule_keeps_one :
      (u : ℕ)
      → (is_ready u k || (k.current == u && is_runnable (k.thread k.current))) ≡ true
      → (is_ready u (schedule k) || (schedule k).current == u) ≡ true
  schedule_keeps_one u h = elim (schedule-Outcome w) [
    | idles z e ↦ rw e (ground arith)
    | stays n r le e ↦ rw e (ground arith)
    | switches n ne lt e ↦
        let there = nonzero_of_ready w.linked (get_hp_thread k).0 (get_hp_thread k).1 n.is_ready in
        schedule_keeps there u ∙ h
  ]

  -- In a well-formed state with a ready thread, `sk_schedule` makes a current thread that is
  -- suspended or closed give the processor to another.
  pub schedule_gives_up :
      is_runnable (k.thread k.current) ≡ false
      → (t p : ℕ) → member t (k.queue (ready_at p)) ≡ true
      → (schedule k).current ≢ k.current
  schedule_gives_up down t p m e = elim (schedule-Outcome w) [
    | idles z q ↦ cc (z, nonzero_of_ready w.linked t p m)
    | stays n r le q ↦ ground arith
    | switches n ne lt q ↦
        ne (sym e ∙ ap (λ (j : Kernel). j.current) q ∙ current-switch_to w (get_hp_thread k).0 ne)
  ]

  -- A suspended thread that is in no ready list stays suspended.
  pub schedule_down :
      (u : ℕ)
      → ((p : ℕ) → member u (k.queue (ready_at p)) ≡ false)
      → stat_is (k.thread u) Phase.suspend ≡ true
      → stat_is ((schedule k).thread u) Phase.suspend ≡ true
  schedule_down u nr down = elim (schedule-Outcome w) [
    | idles z e ↦ rw e down
    | stays n r le e ↦ rw e down
    | switches n ne lt e ↦
        let (to, p) = get_hp_thread k in
        let other : u ≢ to =
          λ z. cc (nr p, n.is_ready, ap (λ (a : ℕ). member a (k.queue (ready_at p))) z) in
        rw e (down-switch_to w to ne u other down)
  ]

  -- The lists of the communication objects are as they were.
  pub schedule_waiting :
      (q : Queue) → ((p : ℕ) → same_queue (ready_at p) q ≡ false) → (schedule k).queue q ≡ k.queue q
  schedule_waiting q nr = elim (schedule-Outcome w) [
    | idles z e ↦ rw e
    | stays h r le e ↦ rw e
    | switches h ne lt e ↦
        let to = (get_hp_thread k).0 in
        let away : member to (k.queue q) ≡ false = ground (
          arith,
          h.is_ready,
          w.linked.one_queue to (ready_at (get_hp_thread k).1) q,
          nr (get_hp_thread k).1,
        ) in
        rw e (
          queue-switch_to w to ne q
          ∙ ground (arith, nr (k.thread k.current).current_pri, remove_absent to (k.queue q)))
  ]

  -- In a well-formed state `sk_schedule` leaves the two lists of every communication object as
  -- they are.
  pub schedule-queue :
      (a : ℕ)
      → ((schedule k).queue (waiters a) ≡ k.queue (waiters a))
        × ((schedule k).queue (senders a) ≡ k.queue (senders a))
  schedule-queue a =
      (schedule_waiting (waiters a) (λ p. refl), schedule_waiting (senders a) (λ p. refl))

  -- `sk_schedule` counts no slice.
  pub schedule_slice : (u : ℕ) → ((schedule k).thread u).remain_tick ≡ (k.thread u).remain_tick
  schedule_slice u = elim (schedule-Outcome w) [
    | idles z e ↦ rw e refl
    | stays h r le e ↦ rw e refl
    | switches h ne lt e ↦ rw e (slice-switch_to w _ ne u)
  ]

  -- In a well-formed state whose current thread is running with its YIELD bit set, and in which a
  -- thread of the same priority is ready and none of a higher one: `sk_schedule` runs the first
  -- thread that is ready at this priority, and the current thread goes behind the others.
  pub schedule_round_robin :
      (k.thread k.current).phase ≡ Phase.running
      → (k.thread k.current).yielded ≡ true
      → (x : ℕ) (xs : List ℕ) → k.queue (ready_at (k.thread k.current).current_pri) ≡ x ∷ xs
      → ((t p : ℕ) → member t (k.queue (ready_at p)) ≡ true → (k.thread k.current).current_pri ≤ p)
      → ((schedule k).current ≡ x)
        × ((schedule k).queue (ready_at (k.thread k.current).current_pri) ≡ xs ++ (k.current ∷ []))
  schedule_round_robin run yield x xs e best =
      let cur = k.thread k.current in
      let pri = cur.current_pri in
      let there : member x (k.queue (ready_at pri)) ≡ true = rw e (ground arith) in
      elim (schedule-Outcome w) [
        | idles z q ↦ absurd (cc (z, nonzero_of_ready w.linked x pri there))
        | stays h r le q ↦ absurd (ground arith)
        | switches h ne lt q ↦
            let to = (get_hp_thread k).0 in
            let level : (get_hp_thread k).1 ≡ pri =
              omega (arith, best to (get_hp_thread k).1 h.is_ready, h.best x pri there) in
            let to_x : to ≡ x =
              get_hp_thread_head k
              ∙ ap (λ (a : ℕ). get_or (k.queue (ready_at a)) 0 null) level
              ∙ ap (λ (l : List ℕ). get_or l 0 null) e in
            let once : member x xs ≡ false =
              (subst IsDistinct e (w.linked.distinct (ready_at pri))).0 in
            (
              rw q (current-switch_to w to ne ∙ to_x),
              rw q (
                  queue-switch_to w to ne (ready_at pri)
                  ∙ ground (
                    arith,
                    e,
                    to_x,
                    once,
                    run,
                    remove-append x xs (k.current ∷ []),
                    remove_absent x xs,
                  )),
            )
      ]

  -- In a well-formed state whose current thread is running with its YIELD bit set, and in which a
  -- thread is ready and all ready threads have lower priorities: `sk_schedule` hands the processor
  -- to one of these, and the current thread waits in its ready list.
  pub schedule_inverts :
      (k.thread k.current).phase ≡ Phase.running
      → (k.thread k.current).yielded ≡ true
      → nonzero k.group ≡ true
      → ((t p : ℕ) → member t (k.queue (ready_at p)) ≡ true → (k.thread k.current).current_pri < p)
      → ((k.thread k.current).current_pri < ((schedule k).thread (schedule k).current).current_pri)
        × (is_ready k.current (schedule k) ≡ true)
  schedule_inverts run yield z worse = elim (schedule-Outcome w) [
    | idles z' q ↦ absurd (cc (z, z'))
    | stays h r le q ↦ absurd (ground arith)
    | switches h ne lt q ↦
        let to = (get_hp_thread k).0 in
        let pri = (k.thread k.current).current_pri in
        rw (q, current-switch_to w to ne, pri-switch_to w to ne to, pri-switch_to w to ne k.current)
          (
            omega (arith, worse to (get_hp_thread k).1 h.is_ready, h.its_priority),
            ground (arith, run, member-switch_to w to ne k.current (ready_at pri)),
          )
  ]
