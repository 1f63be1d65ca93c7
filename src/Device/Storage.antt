-- ===== src/Device/Storage.antt =====
-- `sk_device_create` and `sk_device_destroy` of init/device.c, over the allocator.
use s_kernel.Common.{ℕ, ◌+◌, false, ◌==◌, if◌then◌else◌}
use s_kernel.Kernel.{null}
use s_kernel.Memory.{memset}
use s_kernel.Slab.Zones.{align}
use s_kernel.Slab.Heap.{malloc, free}
use s_kernel.Object.{Registry, delete}
use s_kernel.Device.{Device}

-- SK_ALIGN_SIZE
abbrev pub align_size : ℕ
align_size = 4

-- A device whose fields are all 0, which is no device yet.
abbrev pub blank : Device
blank = record {
  is_device = false;
  flag = record { able = 0; activated = false; is_open = false };
  ref_cnt = 0;
}

-- `sk_device_create`, with the size of `struct sk_device`: the address and the fields, less `type`.
unfoldable pub device_create : ℕ → ℕ → Registry → ℕ × Device × Registry
unfolding align
device_create sizeof attach_size r =
    let (device, heap) = malloc (align sizeof align_size + align attach_size align_size) r.heap in
    let cleared = if device == null then r.memory else memset device 0 sizeof r.memory in
    (device, blank, record r { heap = heap; memory = cleared })

-- `sk_device_destroy`; `sk_object_delete` has released the object already.
unfoldable pub device_destroy : ℕ → ℕ → Registry → Registry
device_destroy fuel dev r =
    let r' = delete fuel dev r in
    if dev == null then r else record r' { heap = free fuel dev r'.heap }
