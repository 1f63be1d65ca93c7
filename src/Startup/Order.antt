-- ===== src/Startup/Order.antt =====
-- The thread of `main` runs first.
use s_kernel.Common.{
  ℕ, Option, none, some, ◌<◌, ◌≡◌, ◌≢◌, refl, sym, ap, subst, ◌∙◌, arith, Bool, true, false, ◌==◌,
  if◌then◌else◌, Bool-cases, inl, inr, [], width, ==_false,
}
use s_kernel.Kernel.{Kernel, ready_at, null}
use s_kernel.Kernel.Timers.{system_timer_init}
use s_kernel.Kernel.Threads
use s_kernel.Kernel.Threads.{thread_startup}
use s_kernel.Kernel.Sched.{scheduler_init, scheduler_start}
use s_kernel.Kernel.Inv.{IsAbsent}
use s_kernel.Kernel.Switch.{IsWellFormed}
use s_kernel.Kernel.Creating.{System, Attributes, thread_create}
use s_kernel.Kernel.Starting.{
  IsStarting, scheduler_init-IsStarting, system_timer_init-IsStarting, thread_init-IsStarting,
  queue-thread_init, thread_startup_lem, set_stat-IsStarting,
}
use s_kernel.Object.{alloc, ObjectType}
use s_kernel.Slab.Heap.{malloc}
use s_kernel.Startup.{
  Image, main_thread, idle_thread, shell_thread, with_kernel, and_then, start_thread,
  application_init, thread_idle_init, alloc_shell, shell_system_init, prepare, skernel_startup,
}
use s_kernel.Startup.Started.{Starts, still-IsAbsent, main_first}

module _ (im : Image) (fuel : ℕ) where
  -- The thread that is created.
  abbrev pub created : ℕ → Attributes → System → ℕ × System
  created name a sys = thread_create im.timer_of im.thread_exit im.sizeof fuel name a sys

  kernel-created :
      (name : ℕ) (a : Attributes) (sys : System)
      → let (t, sys') = created name a sys in
        sys'.kernel
        ≡ (if t == null then sys.kernel else Threads.thread_init t a.priority a.tick sys.kernel)
  unfolding thread_create
  kernel-created name a sys =
      let (t, r) = alloc im.sizeof ObjectType.thread name sys.registry in
      elim (Bool-cases (t == null)) [
        | inl e ↦ rw e refl
        | inr ne ↦ elim (Bool-cases ((malloc a.stack_size r.heap).0 == null)) [
          | inl e ↦ rw (ne, e) refl
          | inr there ↦ rw (ne, there, ne) refl
        ]
      ]

  -- A state that starting a thread leads to, if it comes to an end.
  abbrev StartsIn : ℕ → ℕ → Kernel → Option System → Type 0
  StartsIn t priority k none = Unit {0}
  StartsIn t priority k (some sys) = Starts t priority k sys.kernel × (t ≢ null)

  abbrev BeginsIn : ℕ → Kernel → Option System → Type 0
  BeginsIn priority k none = Unit {0}
  BeginsIn priority k (some sys) = Starts null priority k sys.kernel

  start_thread-StartsIn :
      (name : ℕ) (a : Attributes) (sys : System)
      → IsStarting sys.kernel
      → a.priority < width
      → let t = (created name a sys).0 in
        IsAbsent t sys.kernel → StartsIn t a.priority sys.kernel (start_thread im fuel name a sys)
  unfolding start_thread
  start_thread-StartsIn name a sys v low new =
      let (t, sys') = created name a sys in
      elim (Bool-cases (t == null)) [
        | inl e ↦
            let lost : thread_startup t sys'.kernel ≡ none = unfold thread_startup in rw e refl in
            subst (StartsIn t a.priority sys.kernel) (sym (ap (with_kernel sys') lost)) tt
        | inr e ↦
            let ne = ==_false t null e in
            let same : sys'.kernel ≡ Threads.thread_init t a.priority a.tick sys.kernel =
              kernel-created name a sys
              ∙ ap
                  (λ (b : Bool).
                    if b then sys.kernel else Threads.thread_init t a.priority a.tick sys.kernel)
                  e in
            let v' =
              subst IsStarting (sym same)
                (thread_init-IsStarting v t new ne a.priority a.tick low) in
            subst (StartsIn t a.priority sys.kernel)
              (sym (ap (with_kernel sys') (thread_startup_lem v' t ne)))
              (
                record {
                  starting = set_stat-IsStarting v' t;
                  queues = λ q. rw e (
                      ap (λ (k : Kernel). k.queue q) same
                      ∙ queue-thread_init v t new ne a.priority a.tick low q);
                },
                ne,
              )
      ]

  -- Where no thread can be created, starting it goes through SK_NULL.
  pub start_thread_fails :
      (name : ℕ) (a : Attributes) (sys : System)
      → (created name a sys).0 ≡ null
      → start_thread im fuel name a sys ≡ none
  unfolding start_thread
  start_thread_fails name a sys e =
      let (t, sys') = created name a sys in
      let nothing : (t == null) ≡ true = ground arith in
      let lost : thread_startup t sys'.kernel ≡ none = unfold thread_startup in rw nothing refl in
      ap (with_kernel sys') lost

  kernel-alloc_shell : (sys : System) → (alloc_shell im fuel sys).1.kernel ≡ sys.kernel
  unfolding alloc_shell
  kernel-alloc_shell sys = elim (Bool-cases ((malloc im.shell_size sys.registry.heap).0 == null)) [
    | inl e ↦ rw e refl
    | inr e ↦ rw e refl
  ]

  -- The thread of the shell, if there is memory for the shell and for it.
  abbrev pub shell_of : System → ℕ
  shell_of sys =
      let (shell, sys') = alloc_shell im fuel sys in
      if shell == null then null else (created im.shell_thread_name (shell_thread im) sys').0

  shell_branch-StartsIn :
      (there : Bool) (sys : System)
      → IsStarting sys.kernel
      → let t = if there then null else (created im.shell_thread_name (shell_thread im) sys).0 in
        IsAbsent t sys.kernel
        → (s' : System)
        → (if there
            then some sys
            else start_thread im fuel im.shell_thread_name (shell_thread im) sys)
          ≡ some s'
        → Starts t 20 sys.kernel s'.kernel
  shell_branch-StartsIn true sys v new s' e =
      subst (BeginsIn 20 sys.kernel) e (record { starting = v; queues = λ q. refl })
  shell_branch-StartsIn false sys v new s' e =
      (subst (StartsIn (created im.shell_thread_name (shell_thread im) sys).0 20 sys.kernel) e
        (start_thread-StartsIn im.shell_thread_name (shell_thread im) sys v (omega arith) new)).0

  shell_system_init-Starts :
      (sys s' : System)
      → IsStarting sys.kernel
      → IsAbsent (shell_of sys) sys.kernel
      → shell_system_init im fuel sys ≡ some s'
      → Starts (shell_of sys) 20 sys.kernel s'.kernel
  unfolding shell_system_init
  shell_system_init-Starts sys s' v new e =
      let (shell, sys') = alloc_shell im fuel sys in
      let same : sys'.kernel ≡ sys.kernel = kernel-alloc_shell sys in
      subst (λ (k : Kernel). Starts (shell_of sys) 20 k s'.kernel) same
        (shell_branch-StartsIn (shell == null) sys' (subst IsStarting (sym same) v)
          (subst (IsAbsent (shell_of sys)) (sym same) new) s' e)

  prepared :
      (components : System → System) (sys : System)
      → ((s : System) → (components s).kernel ≡ s.kernel)
      → IsStarting sys.kernel
      → IsStarting (prepare im fuel components sys).kernel
        × ((p : ℕ) → (prepare im fuel components sys).kernel.queue (ready_at p) ≡ [])
  unfolding prepare scheduler_init system_timer_init
  prepared components sys quiet v =
      let k = scheduler_init (system_timer_init sys.kernel) in
      let same = quiet (record sys { kernel = k }) in
      (
        subst IsStarting (sym same) (scheduler_init-IsStarting (system_timer_init-IsStarting v)),
        λ p. ap (λ (h : Kernel). h.queue (ready_at p)) same,
      )

  -- From lists that are in order, with no current thread, where `main`, the idle thread and the shell
  -- could be created, the shell if there is memory for it, as three different threads that are in no list
  -- before, and the functions of the components leave threads, lists and timers alone: the start
  -- leads to a well-formed state in which the thread of `main` runs.
  pub skernel_startup_lem :
      (components : System → System) (sys s₂ s₃ s₄ : System)
      → ((s : System) → (components s).kernel ≡ s.kernel)
      → IsStarting sys.kernel
      → let s₁ = prepare im fuel components sys in
        let t = (created im.user_thread_name (main_thread im) s₁).0 in
        let idle = (created im.idle_thread_name (idle_thread im) s₂).0 in
        let shell = shell_of s₃ in
        application_init im fuel s₁ ≡ some s₂
        → thread_idle_init im fuel s₂ ≡ some s₃
        → shell_system_init im fuel s₃ ≡ some s₄
        → IsAbsent t s₁.kernel
        → IsAbsent idle s₁.kernel
        → IsAbsent shell s₁.kernel
        → idle ≢ t
        → shell ≢ t
        → shell ≢ idle
        → (sys' : System) × (skernel_startup im fuel components sys ≡ some sys')
          × IsWellFormed sys'.kernel
          × (sys'.kernel.current ≡ t)
  unfolding skernel_startup application_init thread_idle_init
  skernel_startup_lem components sys s₂ s₃ s₄ quiet v e₂ e₃ e₄ new new_idle new_shell idle_main
        shell_main shell_idle =
      let s₁ = prepare im fuel components sys in
      let t = (created im.user_thread_name (main_thread im) s₁).0 in
      let idle = (created im.idle_thread_name (idle_thread im) s₂).0 in
      let (v₁, empty) = prepared components sys quiet v in
      let (main, there) =
        subst (StartsIn t 10 s₁.kernel) e₂
          (start_thread-StartsIn im.user_thread_name (main_thread im) s₁ v₁ (omega arith) new) in
      let absent = still-IsAbsent main new_idle idle_main in
      let (idling, _) = subst (StartsIn idle 31 s₂.kernel) e₃ (
        start_thread-StartsIn im.idle_thread_name (idle_thread im) s₂ main.starting (omega arith)
          absent) in
      let absent' = still-IsAbsent idling (still-IsAbsent main new_shell shell_main) shell_idle in
      let shelling = shell_system_init-Starts s₃ s₄ idling.starting absent' e₄ in
      let running = λ (s : System). some (record s { kernel = scheduler_start s.kernel }) in
      let (well, runs) = main_first empty main idling shelling there in
      (
        record s₄ { kernel = scheduler_start s₄.kernel },
        ap
              (λ (o : Option System). and_then o (λ s.
                and_then (thread_idle_init im fuel s)
                  (λ s'. and_then (shell_system_init im fuel s') running)))
              e₂
            ∙ ap
                (λ (o : Option System).
                  and_then o (λ s'. and_then (shell_system_init im fuel s') running))
                e₃
            ∙ ap (λ (o : Option System). and_then o running) e₄,
        well,
        runs,
      )
