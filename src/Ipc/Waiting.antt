-- ===== src/Ipc/Waiting.antt =====
-- What the lists of `ipc_base.c` do to the scheduler's state.
use s_kernel.Common.{
  ℕ, ◌≤◌, ◌≡◌, ◌≢◌, refl, ap, fun_ext, ◌∙◌, arith, true, false, ◌||◌, ◌==◌, if◌then◌else◌,
  Bool-cases, inl, inr, List, [], ◌∷◌, ◌++◌, member, remove, remove_absent, IsDistinct,
}
use s_kernel.Kernel.{
  Kernel, Phase, Queue, ready_at, same_queue, same_phase, null, stat_is, list_add_tail,
}
use s_kernel.Kernel.Timers.{timer_stop}
use s_kernel.Kernel.Sched.{remove_thread}
use s_kernel.Kernel.Threads.{thread_suspend}
use s_kernel.Kernel.Inv.{
  IsAbsent, list_add_tail-IsDistinct, list_add_tail-one_queue, list_add_tail-no_null,
  same_queue-both,
}
use s_kernel.Kernel.Switch.{IsWellFormed}
use s_kernel.Kernel.Blocking.{thread_suspend-IsWellFormed}
use s_kernel.Ipc.Base.{insert_by_priority, list_suspend, flag_fifo, flag_prio}

-- A list of a communication object, and not one of the ready lists.
abbrev pub IsWaitList : Queue → Type 0
IsWaitList q = (p : ℕ) → same_queue q (ready_at p) ≡ false

pub member-insert_by_priority :
    (pri : ℕ → ℕ) (t u : ℕ) (xs : List ℕ)
    → member u (insert_by_priority pri t xs) ≡ (t == u || member u xs)
member-insert_by_priority pri t u [] = refl
member-insert_by_priority pri t u (x ∷ xs) = ground (arith, member-insert_by_priority pri t u xs)

insert_by_priority-IsDistinct :
    (pri : ℕ → ℕ) (t : ℕ) (xs : List ℕ)
    → IsDistinct xs
    → member t xs ≡ false
    → IsDistinct (insert_by_priority pri t xs)
insert_by_priority-IsDistinct pri t [] d n = (refl, tt)
insert_by_priority-IsDistinct pri t (x ∷ xs) d n =
    ground (arith, member-insert_by_priority pri t x xs, insert_by_priority-IsDistinct pri t xs d.1)

-- Highest priority first.
abbrev pub IsSorted : (ℕ → ℕ) → List ℕ → Type 0
IsSorted pri [] = Unit {0}
IsSorted pri (x ∷ []) = Unit {0}
IsSorted pri (x ∷ y ∷ xs) = (pri x ≤ pri y) × IsSorted pri (y ∷ xs)

insert_by_priority-IsSorted :
    (pri : ℕ → ℕ) (t : ℕ) (xs : List ℕ)
    → IsSorted pri xs
    → IsSorted pri (insert_by_priority pri t xs)
insert_by_priority-IsSorted pri t [] s = tt
insert_by_priority-IsSorted pri t (x ∷ []) s = ground arith
insert_by_priority-IsSorted pri t (x ∷ y ∷ xs) s =
    ground (arith, insert_by_priority-IsSorted pri t (y ∷ xs) s.1)

-- What `sk_thread_suspend` does to a thread that is ready or running.
module _ (t : ℕ) (k : Kernel)
    (up : (same_phase (k.thread t).phase Phase.ready || same_phase (k.thread t).phase Phase.running)
      ≡ true) where
  thread_suspend-queue : (q : Queue) → (thread_suspend t k).1.queue q ≡ remove t (k.queue q)
  unfolding thread_suspend remove_thread timer_stop
  thread_suspend-queue q = ground arith

  thread_suspend-stat : stat_is ((thread_suspend t k).1.thread t) Phase.suspend ≡ true
  unfolding thread_suspend remove_thread timer_stop
  thread_suspend-stat = ground arith

  thread_suspend-current : (thread_suspend t k).1.current ≡ k.current
  unfolding thread_suspend remove_thread timer_stop
  thread_suspend-current = ground arith

  thread_suspend-pri :
      (u : ℕ) → ((thread_suspend t k).1.thread u).current_pri ≡ (k.thread u).current_pri
  unfolding thread_suspend remove_thread timer_stop
  thread_suspend-pri u = ground arith

-- A suspended current thread may stand in a list of a communication object.
module _ {k : Kernel} (w : IsWellFormed k) (t : ℕ) (me : k.current ≡ t) (a : IsAbsent t k)
    (down : stat_is (k.thread t) Phase.suspend ≡ true) (q : Queue) (nr : IsWaitList q) where
  not_null : t ≢ null
  not_null e = w.is_thread (me ∙ e)

  list_add_tail-IsWellFormed : IsWellFormed (list_add_tail q t k)
  list_add_tail-IsWellFormed = record {
    linked = record {
      distinct = list_add_tail-IsDistinct w.linked t a q;
      one_queue = list_add_tail-one_queue w.linked t a q;
      grouped = λ p h. ground (arith, w.linked.grouped p h, nr p);
      priority = λ u p h. ground (arith, w.linked.priority u p, nr p);
      masked = w.linked.masked;
      low = w.linked.low;
      no_null = list_add_tail-no_null w.linked t not_null q;
    };
    is_thread = w.is_thread;
    not_ready = λ p. ground (arith, w.not_ready p, nr p, me);
    unlinked = λ r s. ground (arith, down, me, ap k.thread me);
  }

  module _ (pri : ℕ → ℕ) where
    abbrev placed : Kernel
    placed = record k {
      queue = λ r. if same_queue q r then insert_by_priority pri t (k.queue r) else k.queue r;
    }

    placed-IsWellFormed : IsWellFormed placed
    placed-IsWellFormed = record {
      linked = record {
        distinct = λ r. ground (
          arith,
          w.linked.distinct r,
          insert_by_priority-IsDistinct pri t (k.queue r) (w.linked.distinct r) (a r),
        );
        one_queue = λ u r s h h'. ground (
          arith,
          w.linked.one_queue u r s,
          a r,
          a s,
          member-insert_by_priority pri t u (k.queue r),
          member-insert_by_priority pri t u (k.queue s),
          same_queue-both q r s,
        );
        grouped = λ p h. ground (arith, w.linked.grouped p h, nr p);
        priority = λ u p h. ground (arith, w.linked.priority u p, nr p);
        masked = w.linked.masked;
        low = w.linked.low;
        no_null = λ r.
            ground (
              arith,
              w.linked.no_null r,
              not_null,
              member-insert_by_priority pri t null (k.queue r),
            );
      };
      is_thread = w.is_thread;
      not_ready = λ p. ground (arith, w.not_ready p, nr p, me);
      unlinked = λ r s. ground (arith, down, me, ap k.thread me);
    }

-- The current thread, running and in no list, waits in the list `q` of an object.
module _ {k : Kernel} (w : IsWellFormed k) (run : (k.thread k.current).phase ≡ Phase.running)
    (q : Queue) (nr : IsWaitList q) (flag : ℕ) where
  up :
      (same_phase (k.thread k.current).phase Phase.ready
        || same_phase (k.thread k.current).phase Phase.running)
      ≡ true
  up = ground arith

  alone : IsAbsent k.current k
  alone = w.unlinked (ground arith)

  -- `__ipc_list_suspend` of the current thread keeps the invariant of the scheduler.
  pub list_suspend-IsWellFormed : IsWellFormed (list_suspend q k.current flag k)
  unfolding list_suspend
  list_suspend-IsWellFormed =
      let t = k.current in
      let k' = (thread_suspend t k).1 in
      let w' = thread_suspend-IsWellFormed t w in
      let same = thread_suspend-current t k up in
      let down = thread_suspend-stat t k up in
      let gone =
        λ (r : Queue). thread_suspend-queue t k up r ∙ remove_absent t (k.queue r) (alone r) in
      let away = λ (r : Queue). ap (member t) (gone r) ∙ alone r in
      elim (Bool-cases (flag == flag_fifo)) [
        | inl e ↦ rw e (list_add_tail-IsWellFormed w' t same away down q nr)
        | inr e ↦ elim (Bool-cases (flag == flag_prio)) [
          | inl e' ↦
              rw (e, e')
                (placed-IsWellFormed w' t same away down q nr (λ u. (k'.thread u).current_pri))
          | inr e' ↦ rw (e, e') w'
        ]
      ]

  -- `__ipc_list_suspend` of the current thread puts it into the list: at the end under the flag
  -- FIFO, in front of the first thread of lower priority under the flag PRIO. The other lists stay,
  -- and so does the current thread, which is suspended.
  pub queue-list_suspend :
      (r : Queue)
      → (list_suspend q k.current flag k).queue r ≡ (
          if same_queue q r
          then (if flag == flag_fifo
              then k.queue r ++ (k.current ∷ [])
              else if flag == flag_prio
              then insert_by_priority (λ u. (k.thread u).current_pri) k.current (k.queue r)
              else k.queue r)
          else k.queue r)
  unfolding list_suspend
  queue-list_suspend r =
      let t = k.current in
      let gone = thread_suspend-queue t k up r ∙ remove_absent t (k.queue r) (alone r) in
      let pris : (λ (u : ℕ). ((thread_suspend t k).1.thread u).current_pri)
          ≡ (λ (u : ℕ). (k.thread u).current_pri) =
        fun_ext (thread_suspend-pri t k up) in
      rw (← gone, ← pris) (ground arith)

  pub stat-list_suspend :
      stat_is ((list_suspend q k.current flag k).thread k.current) Phase.suspend ≡ true
  unfolding list_suspend
  stat-list_suspend = ground (arith, thread_suspend-stat k.current k up)

  pub current-list_suspend : (list_suspend q k.current flag k).current ≡ k.current
  unfolding list_suspend
  current-list_suspend = ground (arith, thread_suspend-current k.current k up)

  pub pri-list_suspend :
      (u : ℕ) → ((list_suspend q k.current flag k).thread u).current_pri ≡ (k.thread u).current_pri
  unfolding list_suspend
  pri-list_suspend u = ground (arith, thread_suspend-pri k.current k up u)

  pub other-list_suspend :
      (u : ℕ) → u ≢ k.current → (list_suspend q k.current flag k).thread u ≡ k.thread u
  unfolding list_suspend thread_suspend remove_thread timer_stop
  other-list_suspend u ne = ground arith
