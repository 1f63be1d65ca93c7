-- ===== src/Tests/Creation.antt =====
-- The creation of a thread at a concrete input.
use s_kernel.Common.{ℕ, false, true, [], ◌∷◌}
use s_kernel.Kernel.{Kernel}
use s_kernel.Kernel.Creating.{System, Attributes}
use s_kernel.Object.{ObjectType}
use s_kernel.Tests.Samples.{empty_heap, sample}

abbrev kernel : Kernel
kernel = sample false true

-- A hundred pages are free.
abbrev system : System
system = record {
  registry = record {
    heap = record empty_heap { page_list = (16, 100) ∷ [] };
    memory = λ a. 0;
    obj_list = λ i. [];
    type = λ obj. 0;
    flag = λ obj. 0;
  };
  kernel = kernel;
  stack = λ a. 0;
  sp = λ t. 0;
}

abbrev attributes : Attributes
attributes = record { entry = 7000; param = 5; stack_size = 20000; priority = 6; tick = 20 }

abbrev sizeof : ObjectType → ℕ
sizeof type = 20000
