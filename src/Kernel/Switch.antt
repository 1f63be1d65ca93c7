-- ===== src/Kernel/Switch.antt =====
-- `sk_schedule` keeps the invariant of the whole scheduler, loses no thread and runs a thread of
-- the highest priority.
use s_kernel.Common.{
  ℕ, ◌<◌, ◌≤◌, ◌≡◌, ◌≢◌, ap, arith, Bool, true, false, not, ◌&&◌, ◌||◌, ◌==◌, leb, if◌then◌else◌,
  Bool-cases, inl, inr, [], ◌∷◌, ◌++◌, member, remove, member-append, member-remove, nonzero,
}
use s_kernel.Kernel.{Kernel, Thread, Phase, Queue, ready_at, same_queue, null, stat_is, set_stat}
use s_kernel.Kernel.Sched.{
  get_hp_thread, remove_thread, enqueue, insert_thread, clear_yield, switch_to, schedule,
}
use s_kernel.Kernel.Inv.{
  IsLinked, IsAbsent, remove_thread-IsLinked, enqueue-IsLinked, set_stat-IsLinked,
}
use s_kernel.Kernel.Highest.{IsHighest, get_hp_thread-IsHighest}

-- `stat` says that the scheduler may give the processor to the thread again.
abbrev pub is_runnable : Thread → Bool
is_runnable th = not (stat_is th Phase.suspend || stat_is th Phase.close)

-- Between two calls: the lists are sound, the current thread is a thread, it is in no ready list,
-- and in no list at all while it can go on running.
pub record IsWellFormed (k : Kernel) : Type 0 where
  pub linked : IsLinked k
  pub is_thread : k.current ≢ null
  pub not_ready : (p : ℕ) → member k.current (k.queue (ready_at p)) ≡ false
  pub unlinked : is_runnable (k.thread k.current) ≡ true → IsAbsent k.current k

-- Changing `current_thread` or the YIELD bit leaves the lists as they are.
pub current-IsLinked : {k : Kernel} → IsLinked k → (t : ℕ) → IsLinked (record k { current = t })
current-IsLinked v t = record {
  distinct = v.distinct;
  one_queue = v.one_queue;
  grouped = v.grouped;
  priority = v.priority;
  masked = v.masked;
  low = v.low;
  no_null = v.no_null;
}

clear_yield-IsLinked : {k : Kernel} → IsLinked k → (t : ℕ) → IsLinked (clear_yield t k)
clear_yield-IsLinked v t = record {
  distinct = v.distinct;
  one_queue = v.one_queue;
  grouped = v.grouped;
  priority = λ u q h. ground (arith, v.priority u q h);
  masked = λ u i. ground (arith, v.masked u i);
  low = λ u. ground (arith, v.low u);
  no_null = v.no_null;
}

-- The state before the chosen thread is taken out of its list.
parked : ℕ → Kernel → Kernel
parked to k =
    let k₁ = record k { current = to } in
    if is_runnable (k.thread k.current) then enqueue k.current k₁ else k₁

module _ {k : Kernel} (w : IsWellFormed k) (to : ℕ) (other : k.current ≢ to) where
  switch_to_lem :
      switch_to to k ≡ set_stat to Phase.running (remove_thread to (clear_yield to (parked to k)))
  unfolding switch_to parked insert_thread
  switch_to_lem = ground arith

  parked-IsLinked : IsLinked (parked to k)
  unfolding parked
  parked-IsLinked = elim (Bool-cases (is_runnable (k.thread k.current))) [
    | inl e ↦
        rw e (enqueue-IsLinked (current-IsLinked w.linked to) k.current (w.unlinked e) w.is_thread)
    | inr e ↦ rw e (current-IsLinked w.linked to)
  ]

  pub switch_to-IsLinked : IsLinked (switch_to to k)
  switch_to-IsLinked = rw switch_to_lem (
      set_stat-IsLinked (remove_thread-IsLinked (clear_yield-IsLinked parked-IsLinked to) to) to
        Phase.running)

  pub current-switch_to : (switch_to to k).current ≡ to
  unfolding parked remove_thread enqueue
  current-switch_to = rw switch_to_lem (ground arith)

  -- Where the node of a thread is after the switch.
  pub member-switch_to :
      (u : ℕ) (q : Queue)
      → member u ((switch_to to k).queue q) ≡ (
          not (to == u)
          && (member u (k.queue q)
              || (k.current == u
                  && (is_runnable (k.thread k.current)
                      && same_queue (ready_at (k.thread k.current).current_pri) q))))
  unfolding parked remove_thread enqueue
  member-switch_to u q = rw switch_to_lem (
      ground (
        arith,
        member-remove u to (k.queue q),
        member-remove u to (k.queue q ++ (k.current ∷ [])),
        member-append u (k.queue q) (k.current ∷ []),
      ))

  pub switch_to-IsWellFormed : to ≢ null → IsWellFormed (switch_to to k)
  switch_to-IsWellFormed ne = record {
    linked = switch_to-IsLinked;
    is_thread = rw current-switch_to ne;
    not_ready = λ p. ground (arith, current-switch_to, member-switch_to to (ready_at p));
    unlinked = λ _ q. ground (arith, current-switch_to, member-switch_to to q);
  }

  pub queue-switch_to :
      (q : Queue)
      → (switch_to to k).queue q
        ≡ remove to (
            if is_runnable (k.thread k.current)
              && same_queue (ready_at (k.thread k.current).current_pri) q
            then k.queue q ++ (k.current ∷ [])
            else k.queue q)
  unfolding parked remove_thread enqueue
  queue-switch_to q = rw switch_to_lem (ground arith)

  pub pri-switch_to : (u : ℕ) → ((switch_to to k).thread u).current_pri ≡ (k.thread u).current_pri
  unfolding parked remove_thread enqueue
  pri-switch_to u = rw switch_to_lem (ground arith)

  pub slice-switch_to : (u : ℕ) → ((switch_to to k).thread u).remain_tick ≡ (k.thread u).remain_tick
  unfolding parked remove_thread enqueue
  slice-switch_to u = rw switch_to_lem (ground arith)

  -- A thread that is suspended, and is not the one that is chosen, stays suspended.
  pub down-switch_to :
      (u : ℕ)
      → u ≢ to
      → stat_is (k.thread u) Phase.suspend ≡ true
      → stat_is ((switch_to to k).thread u) Phase.suspend ≡ true
  unfolding parked remove_thread enqueue
  down-switch_to u ne down = rw switch_to_lem (ground (arith, ap k.thread))

-- The three ways through `sk_schedule`.
pub data Outcome (k : Kernel) : Type 0 where
  idles : nonzero k.group ≡ false → schedule k ≡ k → Outcome k
  stays :
      IsHighest k (get_hp_thread k)
      → stat_is (k.thread k.current) Phase.running ≡ true
      → (k.thread k.current).current_pri ≤ (get_hp_thread k).1
      → schedule k ≡ k
      → Outcome k
  switches :
      IsHighest k (get_hp_thread k)
      → k.current ≢ (get_hp_thread k).0
      → (stat_is (k.thread k.current) Phase.running ≡ true
          → (get_hp_thread k).1 < (k.thread k.current).current_pri)
      → schedule k ≡ switch_to (get_hp_thread k).0 k
      → Outcome k

module _ {k : Kernel} (w : IsWellFormed k) where
  hp_ne_current : IsHighest k (get_hp_thread k) → k.current ≢ (get_hp_thread k).0
  hp_ne_current h e =
      let p = (get_hp_thread k).1 in
      cc (w.not_ready p, h.is_ready, ap (λ (t : ℕ). member t (k.queue (ready_at p))) e)

  pub schedule-Outcome : Outcome k
  unfolding schedule
  schedule-Outcome = elim (Bool-cases (nonzero k.group)) [
    | inr e ↦ idles e (rw e)
    | inl e ↦
        let h = get_hp_thread-IsHighest w.linked e in
        let ne = hp_ne_current h in
        let cur = k.thread k.current in
        elim (Bool-cases (stat_is cur Phase.running && leb cur.current_pri (get_hp_thread k).1)) [
          | inl b ↦ stays h (ground arith) (ground arith) (ground arith)
          | inr b ↦ switches h ne (λ r. ground arith) (ground arith)
        ]
  ]
