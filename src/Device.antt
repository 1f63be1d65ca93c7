-- ===== src/Device.antt =====
-- Devices (init/device.c, include/kernel/device.h). The functions of a driver are parameters; they
-- work on the state `S` of the hardware; one that opens is given the flag of the call and the lower bits
-- of the flag of the device, which it may change (driver/serial/serial.c does).

pub mod Counting
pub mod Naming
pub mod Storage
use s_kernel.Common.{
  ℕ, ◌+◌, ◌-◌, ◌%◌, ◌^◌, Bool, true, false, not, ◌&&◌, Option, none, some, List, [], ◌==◌,
  if◌then◌else◌, Err,
}
use s_kernel.Kernel.{null, update}
use s_kernel.Object.{ObjectType, Registry, index, find, enter, init, delete}

-- `struct sk_device_ops`, less `ioctl`, which nothing calls (`open_dev` is `open`); `none` is
-- SK_NULL. A reader returns the bytes that it puts into the buffer, next to the size that it
-- returns.
pub record DeviceOps (S : Type 0) : Type 0 where
  pub init : Option (S → Err × S)
  pub open_dev : Option (ℕ → ℕ → S → Err × ℕ × S)
  pub close : Option (Unit {0} → S → Err × S)
  pub read : Option (ℕ → ℕ → S → ℕ × List ℕ × S)
  pub write : Option (ℕ → List ℕ → ℕ → S → ℕ × S)

-- `flag` of a device: the bits SK_DEVICE_FLAG_ACTIVATED and _OPEN, and the lower ones, which say what
-- it can do.
pub record DeviceFlag : Type 0 where
  pub able : ℕ
  pub activated : Bool
  pub is_open : Bool

-- `struct sk_device`; `is_device` says whether the type of its object is SK_OBJECT_DEVICE.
pub record Device : Type 0 where
  pub is_device : Bool
  pub flag : DeviceFlag
  pub ref_cnt : ℕ

abbrev pub is_ok : Err → Bool
is_ok Err.eok = true
is_ok _ = false

-- The lower bits of the flag have been set.
abbrev pub touched : ℕ → Device → Device
touched able dev = record dev { flag = record (dev.flag) { able = able } }

-- SK_EINVAL as a `sk_size_t`.
abbrev pub einval_size : ℕ
einval_size = 2 ^ 64 - 8

module _ {S : Type 0} (ops : DeviceOps S) where
  -- A function of the driver that may be missing.
  abbrev pub call : {A : Type 0} → Option (A → S → Err × S) → A → S → Err × S
  call none a s = (Err.eok, s)
  call (some f) a s = f a s

  abbrev pub call_open : Option (ℕ → ℕ → S → Err × ℕ × S) → ℕ → ℕ → S → Err × ℕ × S
  call_open none flag able s = (Err.eok, able, s)
  call_open (some f) flag able s = f flag able s

  -- `sk_device_init`
  unfoldable pub device_init : Device → S → Err × Device × S
  device_init dev s =
      let ready = record dev { flag = record (dev.flag) { activated = true } } in
      if dev.flag.activated then (Err.eok, dev, s) else elim ops.init [
        | none ↦ (Err.eok, dev, s)
        | some f ↦ let (code, s') = f s in (code, if is_ok code then ready else dev, s')
      ]

  -- `sk_device_open` behind the initialization.
  unfoldable pub open_finish : ℕ → Err × Device × S → Err × Device × S
  open_finish flag (code, dev, s) =
      let (code', able, s') = call_open ops.open_dev flag dev.flag.able s in
      let dev' = touched able dev in
      let opened = record dev' {
        flag = record (dev'.flag) { is_open = true };
        ref_cnt = (dev'.ref_cnt + 1) % 2 ^ 8;
      } in
      if is_ok code then (code', if is_ok code' then opened else dev', s') else (code, dev, s)

  -- `sk_device_open`
  unfoldable pub device_open : ℕ → Device → S → Err × Device × S
  unfolding device_init open_finish
  device_open flag dev s =
      if not dev.is_device then (Err.einval, dev, s) else open_finish flag (device_init dev s)

  -- `sk_device_close`
  unfoldable pub device_close : Device → S → Err × Device × S
  device_close dev s =
      let counted = record dev { ref_cnt = dev.ref_cnt - 1 } in
      let closed = record counted {
        flag = record { able = 0; activated = false; is_open = false };
      } in
      let (code, s') = call ops.close tt s in
      if not dev.is_device
      then (Err.einval, dev, s)
      else if dev.ref_cnt == 0
      then (Err.error, dev, s)
      else if not (dev.ref_cnt == 1)
      then (Err.eok, counted, s)
      else (code, if is_ok code then closed else counted, s')

  -- `sk_device_read`.
  unfoldable pub device_read : ℕ → ℕ → Device → S → ℕ × List ℕ × S
  device_read pos size dev s =
      if not dev.is_device
      then (einval_size, [], s)
      else if dev.ref_cnt == 0
      then (0, [], s)
      else elim ops.read [ none ↦ (0, [], s) | some f ↦ f pos size s ]

  -- `sk_device_write`
  unfoldable pub device_write : ℕ → List ℕ → ℕ → Device → S → ℕ × S
  device_write pos buf size dev s =
      if not dev.is_device
      then (einval_size, s)
      else if dev.ref_cnt == 0
      then (0, s)
      else elim ops.write [ none ↦ (0, s) | some f ↦ f pos buf size s ]

-- `sk_device_register` of the device whose object is `obj`.
unfoldable pub register : ℕ → ℕ → DeviceFlag → Device → Registry → Err × Device × Registry
unfolding find init
register obj name flag dev r =
    if not (find name ObjectType.device r == null) then (Err.error, dev, r) else (
      Err.eok,
      record { is_device = true; flag = flag; ref_cnt = 0 },
      init obj ObjectType.device name r,
    )

-- `sk_device_unregister`
unfoldable pub unregister : ℕ → ℕ → Device → Registry → Err × Device × Registry
unregister fuel obj dev r =
    if not dev.is_device
    then (Err.error, dev, r)
    else (Err.eok, record dev { is_device = false }, delete fuel obj r)
