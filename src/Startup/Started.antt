-- ===== src/Startup/Started.antt =====
-- The ready lists while the start puts its threads into them, one behind the other (init/startup.c).
use s_kernel.Common.{
  ℕ, member-append, ◌<◌, ◌≤◌, ◌≡◌, ◌≢◌, sym, ap, ◌∙◌, arith, true, ◌==◌, if◌then◌else◌, [], ◌∷◌,
  ◌++◌, member,
}
use s_kernel.Kernel.{Kernel, Queue, ready_at, null, same_queue}
use s_kernel.Kernel.Sched.{get_hp_thread, scheduler_start}
use s_kernel.Kernel.Inv.{IsAbsent}
use s_kernel.Kernel.Highest.{get_hp_thread-IsHighest, nonzero_of_ready}
use s_kernel.Kernel.Switch.{IsWellFormed}
use s_kernel.Kernel.Starting.{IsStarting, scheduler_start-IsWellFormed, current-scheduler_start}

-- A call that starts a thread `t` of a priority, unless there is none.
pub record Starts (t priority : ℕ) (k k' : Kernel) : Type 0 where
  pub starting : IsStarting k'
  pub queues :
      (q : Queue)
      → k'.queue q ≡ (
          if t == null
          then k.queue q
          else if same_queue (ready_at priority) q
          then k.queue q ++ (t ∷ [])
          else k.queue q)

-- Another thread than the one that is started stays in no list.
pub still-IsAbsent :
    {t priority u : ℕ} {k k' : Kernel}
    → Starts t priority k k'
    → IsAbsent u k
    → u ≢ t
    → IsAbsent u k'
still-IsAbsent {t} {priority} {u} {k} s absent ne q =
    ground (arith, s.queues q, absent q, member-append u (k.queue q) (t ∷ []))

-- After three threads have been started on empty ready lists.
module _ {k₁ k₂ k₃ k₄ : Kernel} {t idle shell : ℕ} (empty : (p : ℕ) → k₁.queue (ready_at p) ≡ [])
    (main : Starts t 10 k₁ k₂) (idling : Starts idle 31 k₂ k₃) (shelling : Starts shell 20 k₃ k₄)
    (there : t ≢ null) where
  main_ready : k₄.queue (ready_at 10) ≡ t ∷ []
  main_ready = ground (
    arith,
    empty 10,
    main.queues (ready_at 10),
    idling.queues (ready_at 10),
    shelling.queues (ready_at 10),
  )

  none_before : (p : ℕ) → p < 10 → k₄.queue (ready_at p) ≡ []
  none_before p low = ground (
    arith,
    empty p,
    main.queues (ready_at p),
    idling.queues (ready_at p),
    shelling.queues (ready_at p),
  )

  pub main_first : IsWellFormed (scheduler_start k₄) × ((scheduler_start k₄).current ≡ t)
  main_first =
      let v = shelling.starting.linked in
      let listed : member t (k₄.queue (ready_at 10)) ≡ true = rw main_ready (ground arith) in
      let some_ready = nonzero_of_ready v t 10 listed in
      let h = get_hp_thread-IsHighest v some_ready in
      let (to, p) = get_hp_thread k₄ in
      let not_less : 10 ≤ p = ground (arith, h.is_ready, none_before p) in
      let tenth : p ≡ 10 = omega (arith, not_less, h.best t 10 listed) in
      let first : member to (t ∷ []) ≡ true =
        sym (ap (member to) (ap (λ (n : ℕ). k₄.queue (ready_at n)) tenth ∙ main_ready))
        ∙ h.is_ready in
      (
        scheduler_start-IsWellFormed v some_ready,
        current-scheduler_start v some_ready ∙ ground (arith, first),
      )
