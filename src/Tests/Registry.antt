-- ===== src/Tests/Registry.antt =====
-- Objects and devices at concrete inputs.
use s_kernel.Common.{
  ℕ, ◌+◌, ◌≡◌, refl, arith, true, ◌==◌, if◌then◌else◌, inl, [], ◌∷◌, none, some, Err,
}
use s_kernel.Memory.{Memory}
use s_kernel.Memory.Comparing.{IsBytes}
use s_kernel.Object.{ObjectType, Registry, index, find, init}
use s_kernel.Object.Finding.{find-init}
use s_kernel.Device.{DeviceOps, Device}
use s_kernel.Tests.Samples.{empty_heap}

-- Address 40 begins with the name "a", address 80 with "b"; all else is 0.
abbrev names : Memory
names a = if a == 40 then 97 else if a == 80 then 98 else 0

names-IsBytes : IsBytes names
names-IsBytes a = ground arith

-- The device at address 40 is registered.
abbrev registry : Registry
registry = record {
  heap = empty_heap;
  memory = names;
  obj_list = λ k. if k == 6 then 40 ∷ [] else [];
  type = λ obj. 6;
  flag = λ obj. 0;
}

find-init_example : find 80 ObjectType.device (init 120 ObjectType.device 80 registry) ≡ 120
unfolding index
find-init_example =
    find-init 120 80 ObjectType.device registry names-IsBytes (omega arith) (inl (omega arith)) refl

-- A driver whose state counts the calls.
abbrev ops : DeviceOps ℕ
ops = record {
  init = none;
  open_dev = some (λ flag able s. (Err.eok, able, s + 1));
  close = some (λ u s. (Err.eok, s + 1));
  read = some (λ p size s. (1, 65 ∷ [], s + 1));
  write = none;
}

abbrev device : Device
device = record {
  is_device = true;
  flag = record { able = 3; activated = true; is_open = true };
  ref_cnt = 1;
}
