-- ===== src/Ipc/Steps/Creation.antt =====
-- The creation and the start of a thread, and the calls of timers, keep the lists, the states of threads
-- and the timers in step.
use s_kernel.Common.{
  ℕ, ◌<◌, ◌≡◌, ◌≢◌, refl, subst, arith, false, ◌&&◌, ◌||◌, ◌==◌, ==_true, Bool-cases, inl, inr,
  member, remove_absent, width, bit, some, none, Option,
}
use s_kernel.Kernel.{
  Kernel, Thread, Timer, Phase, thread_timeout, null, stat_is, set_stat, update, list_del,
}
use s_kernel.Kernel.Timers.{timer_init, timer_delete, timer_control, Control}
use s_kernel.Kernel.Sched.{insert_thread, remove_thread}
use s_kernel.Kernel.Threads.{thread_init, thread_startup, thead_suspend}
use s_kernel.Kernel.Inv.{IsAbsent, set_stat-IsLinked}
use s_kernel.Kernel.Blocking.{SameLists}
use s_kernel.Kernel.Callbacks.{
  unchanged, schedule-SameCallbacks, timer_delete-SameCallbacks, insert_thread-SameCallbacks,
}
use s_kernel.Kernel.Starting.{prepared-IsLinked}
use s_kernel.Ipc.Parked.{IsSound, schedule-IsSound}
use s_kernel.Ipc.Steps.{IsTimed}
use s_kernel.Ipc.Steps.Threads.{SameLists-IsSound, put_down-IsSound, requeue-IsSound}
use s_kernel.Ipc.Steps.Waits.{same-IsTimed, either-IsTimed}

timer_delete-SameLists : (t : ℕ) (k : Kernel) → SameLists k (timer_delete t k)
unfolding timer_delete
timer_delete-SameLists t k = record {
  same_thread = λ u. refl;
  same_queues = λ q. refl;
  same_group = λ p. refl;
  same_current = refl;
}

pub timer_delete-IsTimed : {k : Kernel} (t : ℕ) → IsTimed k → IsTimed (timer_delete t k)
timer_delete-IsTimed {k} t v =
    same-IsTimed v (timer_delete-SameCallbacks t k)
      (SameLists-IsSound (timer_delete-SameLists t k) v.sound)

pub timer_control-IsTimed :
    {k : Kernel} (t : ℕ) (cmd : Control) → IsTimed k → IsTimed (timer_control t cmd k).1
unfolding timer_control
timer_control-IsTimed t Control.get_time v = v
timer_control-IsTimed t (Control.set_time n) v = same-IsTimed v (unchanged (λ u. ground arith)) (
    SameLists-IsSound
      (record {
        same_thread = λ u. refl;
        same_queues = λ q. refl;
        same_group = λ p. refl;
        same_current = refl;
      })
      v.sound)
timer_control-IsTimed t Control.set_onshot v = same-IsTimed v (unchanged (λ u. ground arith)) (
    SameLists-IsSound
      (record {
        same_thread = λ u. refl;
        same_queues = λ q. refl;
        same_group = λ p. refl;
        same_current = refl;
      })
      v.sound)
timer_control-IsTimed t Control.set_periodic v = same-IsTimed v (unchanged (λ u. ground arith)) (
    SameLists-IsSound
      (record {
        same_thread = λ u. refl;
        same_queues = λ q. refl;
        same_group = λ p. refl;
        same_current = refl;
      })
      v.sound)
timer_control-IsTimed t Control.get_state v = v

-- The state of a thread becomes that of a suspended one, wherever its node stands.
laid_down-IsSound : {k : Kernel} (t : ℕ) → IsSound k → IsSound (set_stat t Phase.suspend k)
laid_down-IsSound {k} t s = record {
  well_formed = record {
    linked = set_stat-IsLinked s.well_formed.linked t Phase.suspend;
    is_thread = s.well_formed.is_thread;
    not_ready = s.well_formed.not_ready;
    unlinked = λ r q. elim (Bool-cases (t == k.current)) [
      | inl e ↦ absurd (ground (arith, e, r))
      | inr e ↦ s.well_formed.unlinked (ground (arith, e, r)) q
    ];
  };
  parked = λ q u nr m. ground (arith, s.parked q u nr m);
}

-- The state that a call leaves, if it comes to an end.
abbrev IsKept : Option Kernel → Type 0
IsKept none = Unit {0}
IsKept (some k) = IsTimed k

thread_startup-IsKept : {k : Kernel} (t : ℕ) → IsTimed k → IsKept (thread_startup t k)
unfolding thread_startup
thread_startup-IsKept {k} t v =
    let laid = same-IsTimed v (unchanged (λ u. refl)) (laid_down-IsSound t v.sound) in
    elim (Bool-cases (t == null)) [
      | inl e ↦ rw e tt
      | inr e ↦ rw e (
          either-IsTimed (k.current == null) laid
            (same-IsTimed laid (schedule-SameCallbacks _) (schedule-IsSound laid.sound)))
    ]

pub thread_startup-IsTimed :
    {k k' : Kernel} (t : ℕ) → thread_startup t k ≡ some k' → IsTimed k → IsTimed k'
thread_startup-IsTimed t e v = subst IsKept e (thread_startup-IsKept t v)

pub thead_suspend-IsTimed : {k : Kernel} (t : ℕ) → IsTimed k → IsTimed (thead_suspend t k).1
unfolding thead_suspend remove_thread
thead_suspend-IsTimed {k} t v =
    let th = k.thread t in
    elim (Bool-cases (stat_is th Phase.ready || stat_is th Phase.running)) [
      | inr e ↦ rw e v
      | inl e ↦ elim (Bool-cases (stat_is th Phase.running && (t == k.current))) [
        | inl c ↦ rw (e, c) v
        | inr c ↦
            rw (e, c)
              (same-IsTimed v (unchanged (λ u. refl)) (put_down-IsSound t Phase.suspend v.sound))
      ]
    ]

-- To take a node out of its list changes nothing if it is in none.
list_del_absent : (t : ℕ) (k : Kernel) → IsAbsent t k → list_del t k ≡ k
list_del_absent t k new i = record k { queue = λ q. remove_absent t (k.queue q) (new q) i }

-- A new thread that is in no list.
module _ {k : Kernel} (v : IsTimed k) (t : ℕ) (new : IsAbsent t k) (ne : t ≢ null) where
  prepared-IsSound :
      (th : Thread) (tm : Timer)
      → th.current_pri < width
      → ((i : ℕ) → th.number_mask i ≡ (th.current_pri == i))
      → IsSound (record k { thread = update k.thread t th; timer = update k.timer t tm })
  prepared-IsSound th tm low mask =
      let w = v.sound.well_formed in
      record {
        well_formed = record {
          linked = prepared-IsLinked w.linked t new th tm low mask;
          is_thread = w.is_thread;
          not_ready = w.not_ready;
          unlinked = λ r q. elim (Bool-cases (t == k.current)) [
            | inl e ↦
                subst (λ (u : ℕ). member u (k.queue q) ≡ false) (==_true t k.current e) (new q)
            | inr e ↦ w.unlinked (ground (arith, e, r)) q
          ];
        };
        parked = λ q u nr m. ground (arith, v.sound.parked q u nr m, new q);
      }

  pub thread_init-IsTimed :
      (priority tick : ℕ) → priority < width → IsTimed (thread_init t priority tick k)
  unfolding thread_init timer_init
  thread_init-IsTimed priority tick low =
      let th = record (k.thread t) {
        phase = Phase.fresh;
        yielded = false;
        current_pri = priority;
        init_pri = priority;
        number_mask = bit priority;
        init_tick = tick;
        remain_tick = tick;
      } in
      let tm : Timer = record {
        active = false;
        periodic = false;
        init_tick = 0;
        timeout_tick = 0;
        callback = thread_timeout t;
      } in
      let made = record k { thread = update k.thread t th; timer = update k.timer t tm } in
      let sound = prepared-IsSound th tm low (λ i. refl) in
      let timed : IsTimed made = record {
        sound = sound;
        named = λ x u e. elim (Bool-cases (t == x)) [
          | inl same ↦ λ z. ne (ground (arith, same, e, z))
          | inr other ↦ v.named x u (ground (arith, other, e))
        ];
      } in
      same-IsTimed timed (insert_thread-SameCallbacks t made) (
        subst (λ (h : Kernel). IsSound (insert_thread t h)) (list_del_absent t made new)
          (requeue-IsSound t ne sound))
