-- ===== src/Kernel/Blocking.antt =====
-- Suspension, resumption and time-out of a thread keep the invariant of the scheduler.
use s_kernel.Common.{
  ℕ, ◌≡◌, ◌≢◌, refl, arith, true, ◌||◌, ◌==◌, Bool-cases, ==_true, ==_false, inl, inr, [], ◌∷◌,
  remove, member-remove, member-append, remove-IsDistinct, append-IsDistinct, remove_absent, ℤ, pos,
  negsuc,
}
use s_kernel.Kernel.{Kernel, Phase, Queue, ready_at, null, same_phase, stat_is, set_stat, list_del}
use s_kernel.Kernel.Timers.{timer_stop, start_timeout}
use s_kernel.Kernel.Sched.{enqueue, insert_thread, remove_thread}
use s_kernel.Kernel.Threads.{thread_suspend, thread_resume, on_timeout}
use s_kernel.Kernel.Inv.{
  IsLinked, remove_thread-IsLinked, set_stat-IsLinked, list_empty-append, same_queue-both,
}
use s_kernel.Kernel.Switch.{IsWellFormed, is_runnable}
use s_kernel.Kernel.Choice.{schedule-IsWellFormed}

-- A step that touches only timers leaves the scheduler as it was.
pub record SameLists (k k' : Kernel) : Type 0 where
  pub same_thread : (t : ℕ) → k'.thread t ≡ k.thread t
  pub same_queues : (q : Queue) → k'.queue q ≡ k.queue q
  pub same_group : (p : ℕ) → k'.group p ≡ k.group p
  pub same_current : k'.current ≡ k.current

pub SameLists-IsLinked : {k k' : Kernel} → SameLists k k' → IsLinked k → IsLinked k'
SameLists-IsLinked {k} {k'} s v = record {
  distinct = λ q. rw (s.same_queues q) (v.distinct q);
  one_queue = λ t q r. rw (s.same_queues q, s.same_queues r) (v.one_queue t q r);
  grouped = λ p h. rw (s.same_group p, s.same_queues (ready_at p)) (v.grouped p h);
  priority = λ t p. rw (s.same_queues (ready_at p), s.same_thread t) (v.priority t p);
  masked = λ t i. rw (s.same_thread t) (v.masked t i);
  low = λ t. rw (s.same_thread t) (v.low t);
  no_null = λ q. rw (s.same_queues q) (v.no_null q);
}

pub SameLists-IsWellFormed : {k k' : Kernel} → SameLists k k' → IsWellFormed k → IsWellFormed k'
SameLists-IsWellFormed {k} {k'} s w = record {
  linked = SameLists-IsLinked s w.linked;
  is_thread = rw (s.same_current) w.is_thread;
  not_ready = λ p. rw (s.same_current, s.same_queues (ready_at p)) (w.not_ready p);
  unlinked =
      rw (s.same_current, s.same_thread k.current) (λ r q. rw (s.same_queues q) (w.unlinked r q));
}

pub timer_stop-SameLists : (t : ℕ) (k : Kernel) → SameLists k (timer_stop t k).1
unfolding timer_stop
timer_stop-SameLists t k = record {
  same_thread = λ u. ground arith;
  same_queues = λ q. ground arith;
  same_group = λ p. ground arith;
  same_current = ground arith;
}

pub start_timeout-SameLists : (t : ℕ) (time : ℤ) (k : Kernel) → SameLists k (start_timeout t time k)
unfolding start_timeout
start_timeout-SameLists t (pos n) k = record {
  same_thread = λ u. ground arith;
  same_queues = λ q. ground arith;
  same_group = λ p. ground arith;
  same_current = ground arith;
}
start_timeout-SameLists t (negsuc n) k = record {
  same_thread = λ u. refl;
  same_queues = λ q. refl;
  same_group = λ p. refl;
  same_current = refl;
}

-- A thread that leaves its list may get any phase.
pub put_down-IsWellFormed :
    {k : Kernel} (t : ℕ) (p : Phase)
    → IsWellFormed k
    → IsWellFormed (set_stat t p (remove_thread t k))
unfolding remove_thread
put_down-IsWellFormed {k} t p w = record {
  linked = set_stat-IsLinked (remove_thread-IsLinked w.linked t) t p;
  is_thread = w.is_thread;
  not_ready = λ r. ground (arith, w.not_ready r, member-remove k.current t (k.queue (ready_at r)));
  unlinked = λ r q. ground (
    arith,
    λ (e : is_runnable (k.thread k.current) ≡ true). w.unlinked e q,
    member-remove k.current t (k.queue q),
  );
}

-- `sk_thread_suspend` keeps a state well-formed, whether it suspends the thread or refuses to.
pub thread_suspend-IsWellFormed :
    {k : Kernel} (t : ℕ) → IsWellFormed k → IsWellFormed (thread_suspend t k).1
unfolding thread_suspend
thread_suspend-IsWellFormed {k} t w =
    let phase = (k.thread t).phase in
    elim (Bool-cases (same_phase phase Phase.ready || same_phase phase Phase.running)) [
      | inr e ↦ rw e w
      | inl e ↦ rw e (
          SameLists-IsWellFormed (timer_stop-SameLists t _)
            (put_down-IsWellFormed t Phase.suspend w))
    ]

-- `sk_thread_resume` and the first half of `sk_thread_timeout`: the thread leaves the list that it
-- is in and becomes ready, or goes on if it is the current one.
module _ {k : Kernel} (w : IsWellFormed k) (t : ℕ) (ne : t ≢ null) where
  moved-IsLinked : t ≢ k.current → IsLinked (enqueue t (list_del t k))
  unfolding enqueue
  moved-IsLinked other = record {
    distinct = λ q. ground (
      arith,
      member-remove t t (k.queue q),
      remove-IsDistinct t (k.queue q) (w.linked.distinct q),
      append-IsDistinct t (remove t (k.queue q)),
    );
    one_queue = λ u q r h h'. ground (
      arith,
      w.linked.one_queue u q r,
      member-remove u t (k.queue q),
      member-remove u t (k.queue r),
      member-append u (remove t (k.queue q)) (t ∷ []),
      member-append u (remove t (k.queue r)) (t ∷ []),
      same_queue-both (ready_at (k.thread t).current_pri) q r,
    );
    grouped = λ p h. ground (
      arith,
      w.linked.grouped p h,
      w.linked.masked t p,
      w.linked.priority t p,
      remove_absent t (k.queue (ready_at p)),
      list_empty-append (remove t (k.queue (ready_at p))) t,
    );
    priority = λ u p h. ground (
      arith,
      w.linked.priority u p,
      member-remove u t (k.queue (ready_at p)),
      member-append u (remove t (k.queue (ready_at p))) (t ∷ []),
    );
    masked = λ u i. ground (arith, w.linked.masked u i);
    low = λ u. ground (arith, w.linked.low u);
    no_null = λ q. ground (
      arith,
      w.linked.no_null q,
      member-remove null t (k.queue q),
      member-append null (remove t (k.queue q)) (t ∷ []),
    );
  }

  moved-IsWellFormed : t ≢ k.current → IsWellFormed (enqueue t (list_del t k))
  unfolding enqueue
  moved-IsWellFormed other = record {
    linked = moved-IsLinked other;
    is_thread = w.is_thread;
    not_ready = λ p. ground (
      arith,
      w.not_ready p,
      member-remove k.current t (k.queue (ready_at p)),
      member-append k.current (remove t (k.queue (ready_at p))) (t ∷ []),
    );
    unlinked = λ r q. ground (
      arith,
      λ (e : is_runnable (k.thread k.current) ≡ true). w.unlinked e q,
      member-remove k.current t (k.queue q),
      member-append k.current (remove t (k.queue q)) (t ∷ []),
    );
  }

  -- The current thread, if it is resumed before the processor is given away, just goes on.
  current-IsLinked : t ≡ k.current → IsLinked (list_del t k)
  current-IsLinked e = record {
    distinct = λ q. remove-IsDistinct t (k.queue q) (w.linked.distinct q);
    one_queue = λ u q r h h'. ground (
      arith,
      w.linked.one_queue u q r,
      member-remove u t (k.queue q),
      member-remove u t (k.queue r),
    );
    grouped = λ p h. ground (
      arith,
      w.linked.grouped p h,
      w.not_ready p,
      remove_absent k.current (k.queue (ready_at p)),
    );
    priority =
        λ u p h. ground (arith, w.linked.priority u p, member-remove u t (k.queue (ready_at p)));
    masked = w.linked.masked;
    low = w.linked.low;
    no_null = λ q. ground (arith, w.linked.no_null q, member-remove null t (k.queue q));
  }

  current-IsWellFormed : t ≡ k.current → IsWellFormed (set_stat t Phase.running (list_del t k))
  current-IsWellFormed e = record {
    linked = set_stat-IsLinked (current-IsLinked e) t Phase.running;
    is_thread = w.is_thread;
    not_ready =
        λ p. ground (arith, w.not_ready p, member-remove k.current t (k.queue (ready_at p)));
    unlinked = λ r q. ground (arith, member-remove k.current t (k.queue q));
  }

  pub requeue-IsWellFormed : IsWellFormed (insert_thread t (list_del t k))
  unfolding insert_thread
  requeue-IsWellFormed = elim (Bool-cases (t == k.current)) [
    | inl e ↦ rw e (current-IsWellFormed (==_true _ _ e))
    | inr e ↦ rw e (moved-IsWellFormed (==_false _ _ e))
  ]

  -- `sk_thread_resume` of a thread (not SK_NULL) keeps a state well-formed, whether it resumes the
  -- thread or refuses to.
  pub thread_resume-IsWellFormed : IsWellFormed (thread_resume t k).1
  unfolding thread_resume
  thread_resume-IsWellFormed = elim (Bool-cases (stat_is (k.thread t) Phase.suspend)) [
    | inl e ↦ rw e requeue-IsWellFormed
    | inr e ↦ rw e w
  ]

  -- `sk_thread_timeout` of a thread (not SK_NULL) keeps a state well-formed.
  pub on_timeout-IsWellFormed : IsWellFormed (on_timeout t k)
  unfolding on_timeout
  on_timeout-IsWellFormed = schedule-IsWellFormed requeue-IsWellFormed
