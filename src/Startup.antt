-- ===== src/Startup.antt =====
-- init/startup.c from the timers on, with the idle thread of thread/thread.c and the thread of the shell
-- of common/shell.c. The interrupts, the memory and the drivers of the board are set up before.
pub mod Order
pub mod Started
use s_kernel.Common.{ℕ, Option, none, some, ◌-◌, ◌/◌, ◌==◌, if◌then◌else◌, width, []}
use s_kernel.Kernel.{Kernel, null}
use s_kernel.Kernel.Timers.{system_timer_init}
use s_kernel.Kernel.Threads.{thread_startup}
use s_kernel.Kernel.Sched.{scheduler_init, scheduler_start}
use s_kernel.Kernel.Creating.{System, Attributes, thread_create}
use s_kernel.Memory.{memset}
use s_kernel.Slab.Heap.{malloc}
use s_kernel.Object.{ObjectType}

-- What the linker and the stack give: the functions `main`, `sk_idle_entry`, `shell_thread_entry` and
-- `__thread_exit`, the names of the threads, the timer in a thread, and the sizes of objects.
pub record Image : Type 0 where
  pub main : ℕ
  pub idle_entry : ℕ
  pub shell_thread_entry : ℕ
  pub thread_exit : ℕ
  pub user_thread_name : ℕ
  pub idle_thread_name : ℕ
  pub shell_thread_name : ℕ
  pub timer_of : ℕ → ℕ
  pub sizeof : ObjectType → ℕ
  pub shell_size : ℕ

abbrev pub main_thread : Image → Attributes
main_thread im = record {
  entry = im.main;
  param = null;
  stack_size = 2048;
  priority = width / 3;
  tick = 20;
}

abbrev pub idle_thread : Image → Attributes
idle_thread im = record {
  entry = im.idle_entry;
  param = null;
  stack_size = 128;
  priority = width - 1;
  tick = 32;
}

abbrev pub shell_thread : Image → Attributes
shell_thread im = record {
  entry = im.shell_thread_entry;
  param = null;
  stack_size = 4096;
  priority = 20;
  tick = 10;
}

-- The system with the state of the kernel that a call leaves.
abbrev pub with_kernel : System → Option Kernel → Option System
with_kernel sys none = none
with_kernel sys (some k) = some (record sys { kernel = k })

-- The next call, if the last one has come to an end.
abbrev pub and_then : Option System → (System → Option System) → Option System
and_then none f = none
and_then (some s) f = f s

-- `fuel` is for `sk_free`.
module _ (im : Image) (fuel : ℕ) where
  -- A thread is created, and started whether there is one or not; `none`: the code goes through SK_NULL.
  unfoldable pub start_thread : ℕ → Attributes → System → Option System
  start_thread name a sys =
      let (t, sys') = thread_create im.timer_of im.thread_exit im.sizeof fuel name a sys in
      with_kernel sys' (thread_startup t sys'.kernel)

  -- `sk_application_init`
  unfoldable pub application_init : System → Option System
  application_init sys = start_thread im.user_thread_name (main_thread im) sys

  -- `sk_thread_idle_init`
  unfoldable pub thread_idle_init : System → Option System
  thread_idle_init sys = start_thread im.idle_thread_name (idle_thread im) sys

  -- The memory of the shell, cleared if there is any.
  unfoldable pub alloc_shell : System → ℕ × System
  alloc_shell sys =
      let r = sys.registry in
      let (shell, heap) = malloc im.shell_size r.heap in
      if shell == null then (null, record sys { registry = record r { heap = heap } }) else (
        shell,
        record sys {
          registry = record r { heap = heap; memory = memset shell 0 im.shell_size r.memory };
        },
      )

  -- `shell_system_init`, less the table of commands and the message.
  unfoldable pub shell_system_init : System → Option System
  shell_system_init sys =
      let (shell, sys') = alloc_shell sys in
      if shell == null then some sys' else start_thread im.shell_thread_name (shell_thread im) sys'

  -- `skernel_startup` up to the creation of threads; `components` are the functions that
  -- `sk_system_component_init` finds.
  unfoldable pub prepare : (System → System) → System → System
  prepare components sys =
      components (record sys { kernel = scheduler_init (system_timer_init sys.kernel) })

  -- `skernel_startup` from `sk_system_timer_init` to `sk_system_scheduler_start`.
  unfoldable pub skernel_startup : (System → System) → System → Option System
  skernel_startup components sys = and_then (application_init (prepare components sys)) (λ s₂.
      and_then (thread_idle_init s₂) (λ s₃.
        and_then (shell_system_init s₃)
          (λ s₄. some (record s₄ { kernel = scheduler_start s₄.kernel }))))
