-- ===== src/Tests/Steps.antt =====
-- A few steps of threads and of the timer from a concrete state.
use s_kernel.Common.{ℕ, ◌≡◌, refl, arith, false, true}
use s_kernel.Kernel.{Kernel, Phase, ready_at, waiters, senders}
use s_kernel.Kernel.Sched.{schedule, insert_thread, enqueue}
use s_kernel.Kernel.Threads.{thread_suspend, thread_init}
use s_kernel.Kernel.Ticks.{tick_increase}
use s_kernel.Kernel.Timers.{timer_init}
use s_kernel.Kernel.Inv.{IsAbsent}
use s_kernel.Ipc.Base.{flag_fifo}
use s_kernel.Ipc.Semaphore
use s_kernel.Ipc.Semaphore.{Sem}
use s_kernel.Ipc.Steps.{Step, here, next, IsTimed}
use s_kernel.Ipc.Steps.Sound.{Reach-IsTimed}
use s_kernel.Tests.Samples.{sample, sample-IsSound}

abbrev kernel : Kernel
kernel = sample false true

abbrev busy : Sem
busy = record { self = 9; flag = flag_fifo; value = 0 }

-- What a timer calls that is not the timer of a thread.
abbrev nothing : ℕ → ℕ → Kernel → Kernel
nothing f param k = k

kernel-IsTimed : IsTimed kernel
kernel-IsTimed = record { sound = sample-IsSound false true; named = λ t u e. absurd (cc e) }

absent : IsAbsent 7 kernel
absent (ready_at p) = ground arith
absent (waiters a) = ground arith
absent (senders a) = refl

abbrev created : Kernel
created = thread_init 7 3 5 kernel

created_runs : (created.thread created.current).phase ≡ Phase.running
unfolding thread_init insert_thread enqueue timer_init
created_runs = refl

-- Thread 7 is created, the timer interrupts, a permit is given, thread 2 is suspended, and the running
-- thread gives the processor away.
Reach-IsTimed_example :
    IsTimed
      (schedule (thread_suspend 2 (Semaphore.post busy (tick_increase nothing 9 created)).2).1)
Reach-IsTimed_example =
    Reach-IsTimed nothing (λ f param k v. v) kernel-IsTimed
      (next
        (next
          (next
            (next
              (next here (Step.create kernel 7 3 5 absent (λ e. omega (arith, e)) (omega arith)))
              (Step.interrupt created 9 created_runs))
            (Step.sem_post _ busy))
          (Step.suspend _ 2))
        (Step.yield _))
