-- ===== src/Kernel/Creating.antt =====
-- Threads and timers as kernel objects (thread/thread.c, init/sys_tick.c): `sk_timer_create`,
-- `sk_timer_init`, `__thread_init` and `sk_thread_create` over the registry (init/kobj.c), the
-- allocator (mem/slab.c) and the state of the kernel.
use s_kernel.Common.{ℕ, ◌+◌, ◌-◌, ◌==◌, Bool, if◌then◌else◌}
use s_kernel.Kernel.{Kernel, Callback, null}
use s_kernel.Kernel.Timers
use s_kernel.Kernel.Threads
use s_kernel.Kernel.Stack.{Words, stack_init}
use s_kernel.Memory.{memcpy}
use s_kernel.Slab.Heap.{malloc}
use s_kernel.Object
use s_kernel.Object.{ObjectType, Registry, alloc, delete, name_max}

-- The registry with its memory, the threads and timers, the words of the stacks, and the field `sp` of
-- each thread.
pub record System : Type 0 where
  pub registry : Registry
  pub kernel : Kernel
  pub stack : Words
  pub sp : ℕ → ℕ

-- `sk_timer_create`, with the size of each kind of object.
unfoldable pub timer_create : (ObjectType → ℕ) → ℕ → Callback → ℕ → Bool → System → ℕ × System
timer_create sizeof name timeout tick periodic sys =
    let (timer, r) = alloc sizeof ObjectType.timer name sys.registry in
    if timer == null then (null, record sys { registry = r }) else (
      timer,
      record sys {
        registry = r;
        kernel = Timers.timer_init timer timeout tick periodic sys.kernel;
      },
    )

-- `sk_timer_init` of the timer with the object `obj`.
unfoldable pub timer_init : ℕ → ℕ → ℕ → Callback → ℕ → Bool → System → System
timer_init timer obj name timeout tick periodic sys = record sys {
  registry = Object.init obj ObjectType.timer name sys.registry;
  kernel = Timers.timer_init timer timeout tick periodic sys.kernel;
}

-- What is set when a thread is created: `entry`, `param`, `stack_size`, `priority` and `tick`.
pub record Attributes : Type 0 where
  pub entry : ℕ
  pub param : ℕ
  pub stack_size : ℕ
  pub priority : ℕ
  pub tick : ℕ

-- `timer_of` is the address of the field `thread_timer` of a thread, `exit` that of `__thread_exit`.
module _ (timer_of : ℕ → ℕ) (exit : ℕ) where
  -- `__thread_init` on a stack that begins at `stack_start`; the name is the object's.
  unfoldable pub thread_init : ℕ → ℕ → ℕ → Attributes → System → System
  thread_init t name stack_start a sys =
      let r = sys.registry in
      let named = record r { memory = memcpy t name name_max r.memory } in
      let (sp, stack) =
        stack_init a.entry a.param (stack_start + a.stack_size - 8) exit sys.stack in
      record sys {
        registry = Object.init (timer_of t) ObjectType.timer t named;
        kernel = Threads.thread_init t a.priority a.tick sys.kernel;
        stack = stack;
        sp = λ u. if t == u then sp else sys.sp u;
      }

  -- `sk_thread_create`; `fuel` is for `sk_free`.
  unfoldable pub thread_create : (ObjectType → ℕ) → ℕ → ℕ → Attributes → System → ℕ × System
  unfolding thread_init
  thread_create sizeof fuel name a sys =
      let (t, r) = alloc sizeof ObjectType.thread name sys.registry in
      let (stack_start, heap) = malloc a.stack_size r.heap in
      let taken = record r { heap = heap } in
      if t == null
      then (null, record sys { registry = r })
      else if stack_start == null
      then (null, record sys { registry = delete fuel t taken })
      else (t, thread_init t name stack_start a (record sys { registry = taken }))
