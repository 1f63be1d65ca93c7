-- ===== src/Kernel/Starting.antt =====
-- What holds from `sk_system_scheduler_init` to `sk_system_scheduler_start`: threads that are created and
-- started before there is a current thread stand in the ready lists, and one of them runs first.
use s_kernel.Common.{
  ℕ, some, IsDistinct, ◌<◌, ◌≡◌, ◌≢◌, refl, ap, arith, true, false, ◌==◌, if◌then◌else◌, ==_self,
  width, bit, [], ◌∷◌, ◌++◌, member, member-remove, nonzero,
}
use s_kernel.Kernel.{
  Kernel, Thread, Timer, Phase, Queue, ready_at, waiters, senders, null, thread_timeout, set_stat,
  same_queue, update,
}
use s_kernel.Kernel.Timers.{timer_init, system_timer_init}
use s_kernel.Kernel.Sched.{
  get_hp_thread, remove_thread, enqueue, insert_thread, scheduler_init, scheduler_start,
}
use s_kernel.Kernel.Threads.{thread_init, thread_startup}
use s_kernel.Kernel.Inv.{
  IsLinked, IsAbsent, set_stat-IsLinked, insert_thread-IsLinked, remove_thread-IsLinked,
}
use s_kernel.Kernel.Highest.{get_hp_thread-IsHighest}
use s_kernel.Kernel.Switch.{IsWellFormed, current-IsLinked}

-- The lists before there is a current thread.
pub record IsStarting (k : Kernel) : Type 0 where
  pub linked : IsLinked k
  pub none_runs : k.current ≡ null

pub system_timer_init-IsStarting : {k : Kernel} → IsStarting k → IsStarting (system_timer_init k)
unfolding system_timer_init
system_timer_init-IsStarting v = record {
  linked = record {
    distinct = v.linked.distinct;
    one_queue = v.linked.one_queue;
    grouped = v.linked.grouped;
    priority = v.linked.priority;
    masked = v.linked.masked;
    low = v.linked.low;
    no_null = v.linked.no_null;
  };
  none_runs = v.none_runs;
}

-- `sk_system_scheduler_init` empties the ready lists.
pub scheduler_init-IsStarting : {k : Kernel} → IsStarting k → IsStarting (scheduler_init k)
unfolding scheduler_init
scheduler_init-IsStarting {k} v = record {
  linked = record {
    distinct = apart;
    one_queue = one;
    grouped = λ p low. refl;
    priority = λ t p h. absurd (cc h);
    masked = v.linked.masked;
    low = v.linked.low;
    no_null = no_null;
  };
  none_runs = v.none_runs;
}
  where
    apart : (q : Queue) → IsDistinct ((scheduler_init k).queue q)
    apart (ready_at p) = tt
    apart (waiters a) = v.linked.distinct (waiters a)
    apart (senders a) = v.linked.distinct (senders a)

    no_null : (q : Queue) → member null ((scheduler_init k).queue q) ≡ false
    no_null (ready_at p) = refl
    no_null (waiters a) = v.linked.no_null (waiters a)
    no_null (senders a) = v.linked.no_null (senders a)

    one :
        (t : ℕ) (q r : Queue)
        → member t ((scheduler_init k).queue q) ≡ true
        → member t ((scheduler_init k).queue r) ≡ true
        → same_queue q r ≡ true
    one t (ready_at p) r h h' = absurd (cc h)
    one t (waiters a) (ready_at p) h h' = absurd (cc h')
    one t (senders a) (ready_at p) h h' = absurd (cc h')
    one t (waiters a) (waiters b) h h' = v.linked.one_queue t (waiters a) (waiters b) h h'
    one t (waiters a) (senders b) h h' = v.linked.one_queue t (waiters a) (senders b) h h'
    one t (senders a) (waiters b) h h' = v.linked.one_queue t (senders a) (waiters b) h h'
    one t (senders a) (senders b) h h' = v.linked.one_queue t (senders a) (senders b) h h'

-- The fields of a thread that is in no list may change.
module _ {k : Kernel} (v : IsLinked k) (t : ℕ) (new : IsAbsent t k) where
  pub prepared-IsLinked :
      (th : Thread) (tm : Timer)
      → th.current_pri < width
      → ((i : ℕ) → th.number_mask i ≡ (th.current_pri == i))
      → IsLinked (record k { thread = update k.thread t th; timer = update k.timer t tm })
  prepared-IsLinked th tm low mask = record {
    distinct = v.distinct;
    one_queue = v.one_queue;
    grouped = v.grouped;
    priority = λ u p h. ground (arith, v.priority u p h, new (ready_at p));
    masked = λ u i. ground (arith, v.masked u i, mask i);
    low = λ u. ground (arith, v.low u);
    no_null = v.no_null;
  }

-- A new thread, in no list.
module _ {k : Kernel} (v : IsStarting k) (t : ℕ) (new : IsAbsent t k) (ne : t ≢ null)
    (priority tick : ℕ) (low : priority < width) where
  pub thread_init-IsStarting : IsStarting (thread_init t priority tick k)
  unfolding thread_init timer_init insert_thread enqueue
  thread_init-IsStarting =
      let th = record (k.thread t) {
        phase = Phase.fresh;
        yielded = false;
        current_pri = priority;
        init_pri = priority;
        number_mask = bit priority;
        init_tick = tick;
        remain_tick = tick;
      } in
      let tm : Timer = record {
        active = false;
        periodic = false;
        init_tick = 0;
        timeout_tick = 0;
        callback = thread_timeout t;
      } in
      record {
        linked =
            insert_thread-IsLinked (prepared-IsLinked v.linked t new th tm low (λ i. refl)) t new
              ne;
        none_runs = ground (arith, v.none_runs);
      }

  pub queue-thread_init :
      (q : Queue)
      → (thread_init t priority tick k).queue q
        ≡ (if same_queue (ready_at priority) q then k.queue q ++ (t ∷ []) else k.queue q)
  unfolding thread_init timer_init insert_thread enqueue
  queue-thread_init q = ground (arith, v.none_runs, ==_self t)

-- `sk_thread_startup` of a thread before there is a current thread only sets the state.
module _ {k : Kernel} (v : IsStarting k) (t : ℕ) where
  pub thread_startup_lem : t ≢ null → thread_startup t k ≡ some (set_stat t Phase.suspend k)
  unfolding thread_startup
  thread_startup_lem ne =
      let there : (t == null) ≡ false = ground arith in
      let none_runs : (k.current == null) ≡ true = ground (arith, v.none_runs) in
      rw (there, none_runs) refl

  pub set_stat-IsStarting : IsStarting (set_stat t Phase.suspend k)
  set_stat-IsStarting = record {
    linked = set_stat-IsLinked v.linked t Phase.suspend;
    none_runs = v.none_runs;
  }

-- `sk_system_scheduler_start` with a ready thread.
module _ {k : Kernel} (v : IsLinked k) (some_ready : nonzero k.group ≡ true) where
  first_not_null : (get_hp_thread k).0 ≢ null
  first_not_null e =
      let h = get_hp_thread-IsHighest v some_ready in
      cc (
        h.is_ready,
        ap (λ (a : ℕ). member a (k.queue (ready_at (get_hp_thread k).1))) e,
        v.no_null (ready_at (get_hp_thread k).1),
      )

  pub scheduler_start-IsWellFormed : IsWellFormed (scheduler_start k)
  unfolding scheduler_start remove_thread
  scheduler_start-IsWellFormed =
      let to = (get_hp_thread k).0 in
      record {
        linked =
            set_stat-IsLinked (remove_thread-IsLinked (current-IsLinked v to) to) to Phase.running;
        is_thread = first_not_null;
        not_ready = λ p. ground (arith, member-remove to to (k.queue (ready_at p)));
        unlinked = λ e q. ground (arith, member-remove to to (k.queue q));
      }

  pub current-scheduler_start : (scheduler_start k).current ≡ (get_hp_thread k).0
  unfolding scheduler_start remove_thread
  current-scheduler_start = refl
