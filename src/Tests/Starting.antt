-- ===== src/Tests/Starting.antt =====
-- The start of the kernel at a concrete input, with memory for the three threads and the shell.
use s_kernel.Common.{Option, none, some, ℕ, ◌+◌, ◌≡◌, ◌≢◌, refl, arith, false, zero_bits, [], ◌∷◌}
use s_kernel.Kernel.{Phase, ready_at, waiters, senders, null}
use s_kernel.Kernel.Inv.{IsAbsent}
use s_kernel.Kernel.Switch.{IsWellFormed}
use s_kernel.Kernel.Sched.{scheduler_init}
use s_kernel.Kernel.Timers.{system_timer_init}
use s_kernel.Kernel.Starting.{IsStarting}
use s_kernel.Kernel.Threads.{thread_startup}
use s_kernel.Kernel.Creating.{System, thread_create, thread_init}
use s_kernel.Object
use s_kernel.Object.{alloc, obj_size}
use s_kernel.Slab.Heap.{malloc, malloc_large}
use s_kernel.Slab.Pages.{page_alloc}
use s_kernel.Slab.Zones.{zone_index}
use s_kernel.Startup.{
  Image, main_thread, idle_thread, prepare, application_init, thread_idle_init, shell_system_init,
  alloc_shell, start_thread, skernel_startup,
}
use s_kernel.Startup.Order.{created, shell_of, skernel_startup_lem}
use s_kernel.Tests.Samples.{empty_heap, make_thread, idle_timer}

abbrev image : Image
image = record {
  main = 7000;
  idle_entry = 7100;
  shell_thread_entry = 7200;
  thread_exit = 7300;
  user_thread_name = 40;
  idle_thread_name = 60;
  shell_thread_name = 80;
  timer_of = λ t. t + 200;
  sizeof = λ type. 20000;
  shell_size = 20000;
}

abbrev system : System
system = record {
  registry = record {
    heap = record empty_heap { page_list = (16, 30) ∷ []; zone_limit = 1 };
    memory = λ a. 0;
    obj_list = λ i. [];
    type = λ obj. 0;
    flag = λ obj. 0;
  };
  kernel = record {
    thread = λ t. make_thread Phase.fresh false 0;
    queue = λ q. [];
    group = zero_bits;
    current = null;
    timer = λ t. idle_timer;
    timers = [];
    tick = 0;
  };
  stack = λ a. 0;
  sp = λ t. 0;
}

system-IsStarting : IsStarting system.kernel
system-IsStarting = record {
  linked = record {
    distinct = λ q. tt;
    one_queue = λ t q r h h'. absurd (cc h);
    grouped = λ p low. refl;
    priority = λ t p h. absurd (cc h);
    masked = λ t i. refl;
    low = λ t. omega arith;
    no_null = λ q. refl;
  };
  none_runs = refl;
}

abbrev prepared : System
prepared = prepare image 40 (λ s. s) system

abbrev main : ℕ
main = (created image 40 40 (main_thread image) prepared).0

-- The state that a call leaves, if it comes to an end.
abbrev left_by : Option System → System
left_by none = system
left_by (some s) = s

abbrev started : System
started = left_by (application_init image 40 prepared)

abbrev idling : System
idling = left_by (thread_idle_init image 40 started)

abbrev shelled : System
shelled = left_by (shell_system_init image 40 idling)

abbrev idle : ℕ
idle = (created image 40 60 (idle_thread image) started).0

abbrev shell : ℕ
shell = shell_of image 40 idling

-- No thread is in a list before.
new : (t : ℕ) → IsAbsent t prepared.kernel
unfolding prepare scheduler_init system_timer_init
new t (ready_at p) = refl
new t (waiters a) = refl
new t (senders a) = refl

main_starts : application_init image 40 prepared ≡ some started
unfolding application_init start_thread thread_startup thread_create thread_init Object.init alloc
    malloc malloc_large prepare page_alloc zone_index
main_starts = refl

idle_starts : thread_idle_init image 40 started ≡ some idling
unfolding application_init start_thread thread_startup thread_create thread_init Object.init alloc
    malloc malloc_large prepare page_alloc zone_index thread_idle_init
idle_starts = refl

shell_starts : shell_system_init image 40 idling ≡ some shelled
unfolding application_init start_thread thread_startup thread_create thread_init Object.init alloc
    malloc malloc_large prepare page_alloc zone_index thread_idle_init shell_system_init alloc_shell
shell_starts = refl

idle_main : idle ≢ main
unfolding application_init start_thread thread_startup thread_create thread_init Object.init alloc
    malloc malloc_large prepare page_alloc zone_index thread_idle_init
idle_main e = omega (arith, e)

shell_main : shell ≢ main
unfolding application_init start_thread thread_startup thread_create thread_init Object.init alloc
    malloc malloc_large prepare page_alloc zone_index thread_idle_init alloc_shell
shell_main e = omega (arith, e)

shell-idle : shell ≢ idle
unfolding application_init start_thread thread_startup thread_create thread_init Object.init alloc
    malloc malloc_large prepare page_alloc zone_index thread_idle_init alloc_shell
shell-idle e = omega (arith, e)

skernel_startup_lem_example :
    (sys' : System) × (skernel_startup image 40 (λ s. s) system ≡ some sys')
    × IsWellFormed sys'.kernel
    × (sys'.kernel.current ≡ main)
skernel_startup_lem_example =
    skernel_startup_lem image 40 (λ s. s) system started idling shelled (λ s. refl)
      system-IsStarting main_starts idle_starts shell_starts (new main) (new idle) (new shell)
      idle_main shell_main shell-idle
