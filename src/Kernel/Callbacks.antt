-- ===== src/Kernel/Callbacks.antt =====
-- What the timers call: the functions of thread/ and init/sys_tick.c that run later leave it as
-- `sk_timer_init` has set it.
use s_kernel.Common.{
  ℕ, ◌≡◌, refl, ◌∙◌, arith, Bool, true, false, ◌&&◌, ◌||◌, ◌==◌, if◌then◌else◌, Bool-cases, inl,
  inr, ℤ, pos, negsuc, leb, nonzero,
}
use s_kernel.Kernel.{Kernel, Phase, same_phase, stat_is, set_stat, list_del}
use s_kernel.Kernel.Timers.{
  timer_start, timer_stop, timer_delete, timer_control, set_time, start_timeout,
}
use s_kernel.Kernel.Sched.{
  get_hp_thread, remove_thread, enqueue, insert_thread, switch_to, schedule,
}
use s_kernel.Kernel.Threads.{thread_suspend, thread_resume, on_timeout, thread_sleep, thread_exit}

pub record SameCallbacks (k k' : Kernel) : Type 0 where
  pub same : (u : ℕ) → (k'.timer u).callback ≡ (k.timer u).callback

pub unchanged :
    {k k' : Kernel} → ((u : ℕ) → (k'.timer u).callback ≡ (k.timer u).callback) → SameCallbacks k k'
unchanged h = record { same = h }

pub in_turn : {k k' k'' : Kernel} → SameCallbacks k k' → SameCallbacks k' k'' → SameCallbacks k k''
in_turn h h' = unchanged (λ u. h'.same u ∙ h.same u)

pub either_way :
    {k x y : Kernel} (b : Bool)
    → SameCallbacks k x
    → SameCallbacks k y
    → SameCallbacks k (if b then x else y)
either_way true h h' = h
either_way false h h' = h'

pub insert_thread-SameCallbacks : (t : ℕ) (k : Kernel) → SameCallbacks k (insert_thread t k)
unfolding insert_thread enqueue
insert_thread-SameCallbacks t k =
    either_way (t == k.current) (unchanged (λ u. refl)) (unchanged (λ u. refl))

switch_to-SameCallbacks : (t : ℕ) (k : Kernel) → SameCallbacks k (switch_to t k)
unfolding switch_to remove_thread
switch_to-SameCallbacks t k =
    let k₁ = record k { current = t } in
    let from = k.thread k.current in
    let saved : SameCallbacks k (
        if stat_is from Phase.suspend || stat_is from Phase.close
        then k₁
        else insert_thread k.current k₁) =
      either_way (stat_is from Phase.suspend || stat_is from Phase.close) (unchanged (λ u. refl))
        (unchanged (insert_thread-SameCallbacks k.current k₁).same) in
    unchanged saved.same

pub schedule-SameCallbacks : (k : Kernel) → SameCallbacks k (schedule k)
unfolding schedule
schedule-SameCallbacks k =
    let cur = k.thread k.current in
    let to_thread =
      if stat_is cur Phase.running && leb cur.current_pri (get_hp_thread k).1
      then k.current
      else (get_hp_thread k).0 in
    either_way (nonzero k.group)
      (either_way (k.current == to_thread) (unchanged (λ u. refl))
        (switch_to-SameCallbacks to_thread k))
      (unchanged (λ u. refl))

pub timer_start-SameCallbacks : (t : ℕ) (k : Kernel) → SameCallbacks k (timer_start t k)
unfolding timer_start
timer_start-SameCallbacks t k = unchanged (λ u. ground arith)

pub start_for-SameCallbacks :
    (t ticks : ℕ) (k : Kernel)
    → SameCallbacks k (timer_start t (timer_control t (set_time ticks) k).1)
unfolding timer_control timer_start
start_for-SameCallbacks t ticks k = unchanged (λ u. ground arith)

pub start_timeout-SameCallbacks :
    (t : ℕ) (time : ℤ) (k : Kernel) → SameCallbacks k (start_timeout t time k)
unfolding start_timeout
start_timeout-SameCallbacks t (pos n) k =
    either_way (n == 0) (unchanged (λ u. refl)) (start_for-SameCallbacks t n k)
start_timeout-SameCallbacks t (negsuc n) k = unchanged (λ u. refl)

pub timer_stop-SameCallbacks : (t : ℕ) (k : Kernel) → SameCallbacks k (timer_stop t k).1
unfolding timer_stop
timer_stop-SameCallbacks t k = elim (Bool-cases (k.timer t).active) [
  | inl e ↦ rw e (unchanged (λ u. ground arith))
  | inr e ↦ rw e (unchanged (λ u. refl))
]

pub timer_delete-SameCallbacks : (t : ℕ) (k : Kernel) → SameCallbacks k (timer_delete t k)
unfolding timer_delete
timer_delete-SameCallbacks t k = unchanged (λ u. ground arith)

pub thread_suspend-SameCallbacks : (t : ℕ) (k : Kernel) → SameCallbacks k (thread_suspend t k).1
unfolding thread_suspend remove_thread
thread_suspend-SameCallbacks t k =
    let phase = (k.thread t).phase in
    elim (Bool-cases (same_phase phase Phase.ready || same_phase phase Phase.running)) [
      | inl e ↦ rw e (
          unchanged
            (timer_stop-SameCallbacks t (set_stat t Phase.suspend (remove_thread t k))).same)
      | inr e ↦ rw e (unchanged (λ u. refl))
    ]

pub requeue-SameCallbacks : (t : ℕ) (k : Kernel) → SameCallbacks k (insert_thread t (list_del t k))
requeue-SameCallbacks t k = unchanged (insert_thread-SameCallbacks t (list_del t k)).same

pub thread_resume-SameCallbacks : (t : ℕ) (k : Kernel) → SameCallbacks k (thread_resume t k).1
unfolding thread_resume
thread_resume-SameCallbacks t k = elim (Bool-cases (stat_is (k.thread t) Phase.suspend)) [
  | inl e ↦ rw e (requeue-SameCallbacks t k)
  | inr e ↦ rw e (unchanged (λ u. refl))
]

pub on_timeout-SameCallbacks : (t : ℕ) (k : Kernel) → SameCallbacks k (on_timeout t k)
unfolding on_timeout
on_timeout-SameCallbacks t k = in_turn (requeue-SameCallbacks t k) (schedule-SameCallbacks _)

pub thread_sleep-SameCallbacks : (ticks : ℕ) (k : Kernel) → SameCallbacks k (thread_sleep ticks k)
unfolding thread_sleep
thread_sleep-SameCallbacks ticks k =
    in_turn (thread_suspend-SameCallbacks k.current k)
      (in_turn (start_for-SameCallbacks k.current ticks _) (schedule-SameCallbacks _))

pub thread_exit-SameCallbacks : (k : Kernel) → SameCallbacks k (thread_exit k)
unfolding thread_exit remove_thread timer_delete
thread_exit-SameCallbacks k =
    in_turn
      (unchanged
        (timer_delete-SameCallbacks k.current
          (set_stat k.current Phase.close (remove_thread k.current k))).same)
      (schedule-SameCallbacks _)
