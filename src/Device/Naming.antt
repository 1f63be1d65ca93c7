-- ===== src/Device/Naming.antt =====
-- The names of devices.
use s_kernel.Common.{ℕ, ◌+◌, ◌≤◌, ◌≡◌, ◌≢◌, refl, arith, false, ◌==◌, ◌⊎◌, member, Err}
use s_kernel.Kernel.{null}
use s_kernel.Memory.Comparing.{IsBytes}
use s_kernel.Object.{ObjectType, Registry, index, name_max, find, init}
use s_kernel.Object.Finding.{find-init}
use s_kernel.Device.{Device, DeviceFlag, register}

-- `sk_device_register` under a name that no device has, of a device that is not registered and that
-- does not overlap the name, succeeds; from then on `sk_device_find` returns it, and another device
-- is refused under that name and nothing changes.
pub register_once :
    (obj name : ℕ) (flag : DeviceFlag) (dev : Device) (r : Registry)
    → IsBytes r.memory
    → obj ≢ null
    → name ≢ null
    → (name + name_max ≤ obj) ⊎ (obj + name_max ≤ name)
    → member obj (r.obj_list (index ObjectType.device)) ≡ false
    → find name ObjectType.device r ≡ null
    → let (code, dev', r') = register obj name flag dev r in
      (code ≡ Err.eok)
      × (find name ObjectType.device r' ≡ obj)
      × ((other : ℕ) (flag' : DeviceFlag) (dev2 : Device)
          → register other name flag' dev2 r' ≡ (Err.error, dev2, r'))
unfolding register
register_once obj name flag dev r bytes obj_ne ne apart new free =
    let there : find name ObjectType.device (init obj ObjectType.device name r) ≡ obj =
      find-init obj name ObjectType.device r bytes ne apart new in
    let taken : (obj == null) ≡ false = ground arith in
    rw free (refl, there, λ other flag' dev2. rw (there, taken) refl)
