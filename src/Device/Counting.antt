-- ===== src/Device/Counting.antt =====
-- The reference count of a device.
use s_kernel.Common.{
  ℕ, ◌+◌, ◌-◌, ◌%◌, ◌^◌, ◌<◌, ◌≡◌, refl, sym, ◌∙◌, ap, subst, arith, Bool, true, false, not, ◌==◌,
  if◌then◌else◌, Bool-cases, inl, inr, List, [], Err,
}
use s_kernel.Device.{
  DeviceOps, Device, is_ok, touched, call, call_open, device_init, open_finish, device_open,
  device_close, device_read, device_write,
}

module _ {S : Type 0} (ops : DeviceOps S) where
  device_init-ref_cnt : (dev : Device) (s : S) → (device_init ops dev s).1.ref_cnt ≡ dev.ref_cnt
  unfolding device_init
  device_init-ref_cnt dev s = ground arith

  open_finish-ref_cnt :
      (flag : ℕ) (code : Err) (dev : Device) (s : S)
      → let (code', dev', s') = open_finish ops flag (code, dev, s) in
        dev'.ref_cnt ≡ (if is_ok code' then (dev.ref_cnt + 1) % 2 ^ 8 else dev.ref_cnt)
  unfolding open_finish
  open_finish-ref_cnt flag code dev s = ground arith

  device_open_device :
      (flag : ℕ) (dev : Device) (s : S)
      → dev.is_device ≡ true
      → device_open ops flag dev s ≡ open_finish ops flag (device_init ops dev s)
  unfolding device_open
  device_open_device flag dev s is_device =
      ap
        (λ (b : Bool).
          if not b then (Err.einval, dev, s) else open_finish ops flag (device_init ops dev s))
        is_device

  device_open_other :
      (flag : ℕ) (dev : Device) (s : S)
      → dev.is_device ≡ false
      → device_open ops flag dev s ≡ (Err.einval, dev, s)
  unfolding device_open
  device_open_other flag dev s is_device =
      ap
        (λ (b : Bool).
          if not b then (Err.einval, dev, s) else open_finish ops flag (device_init ops dev s))
        is_device

  -- `sk_device_open` counts, in eight bits, exactly if it succeeds, whatever the driver does.
  pub device_open-ref_cnt :
      (flag : ℕ) (dev : Device) (s : S)
      → let (code, dev', s') = device_open ops flag dev s in
        dev'.ref_cnt ≡ (if is_ok code then (dev.ref_cnt + 1) % 2 ^ 8 else dev.ref_cnt)
  device_open-ref_cnt flag dev s = elim (Bool-cases dev.is_device) [
    | inl e ↦
        let (code, dev', s') = device_init ops dev s in
        rw (device_open_device flag dev s e) (
          subst
            (λ (n : ℕ).
              let r = open_finish ops flag (device_init ops dev s) in
              r.1.ref_cnt ≡ (if is_ok r.0 then (n + 1) % 2 ^ 8 else n))
            (device_init-ref_cnt dev s) (open_finish-ref_cnt flag code dev' s'))
    | inr e ↦ rw (device_open_other flag dev s e) refl
  ]

  abbrev opened : Device → Device
  opened dev = record dev {
    flag = record (dev.flag) { is_open = true };
    ref_cnt = (dev.ref_cnt + 1) % 2 ^ 8;
  }

  abbrev closed : Device → Device
  closed dev = record dev {
    flag = record { able = 0; activated = false; is_open = false };
    ref_cnt = dev.ref_cnt - 1;
  }

  device_init_again :
      (dev : Device) (s : S) → dev.flag.activated ≡ true → device_init ops dev s ≡ (Err.eok, dev, s)
  unfolding device_init
  device_init_again dev s activated = rw activated refl

  open_finish_accepted :
      (flag able : ℕ) (dev : Device) (s s' : S)
      → call_open ops ops.open_dev flag dev.flag.able s ≡ (Err.eok, able, s')
      → open_finish ops flag (Err.eok, dev, s) ≡ (Err.eok, opened (touched able dev), s')
  unfolding open_finish
  open_finish_accepted flag able dev s s' accepted = rw accepted refl

  device_open_accepted :
      (flag able : ℕ) (dev : Device) (s s' : S)
      → dev.is_device ≡ true
      → dev.flag.activated ≡ true
      → call_open ops ops.open_dev flag dev.flag.able s ≡ (Err.eok, able, s')
      → device_open ops flag dev s ≡ (Err.eok, opened (touched able dev), s')
  device_open_accepted flag able dev s s' is_device activated accepted =
      device_open_device flag dev s is_device
      ∙ ap (open_finish ops flag) (device_init_again dev s activated)
      ∙ open_finish_accepted flag able dev s s' accepted

  device_read_unused :
      (pos size : ℕ) (dev : Device) (s : S)
      → dev.is_device ≡ true
      → dev.ref_cnt ≡ 0
      → device_read ops pos size dev s ≡ (0, [], s)
  unfolding device_read
  device_read_unused pos size dev s is_device unused = rw (is_device, unused) refl

  device_write_unused :
      (pos : ℕ) (buf : List ℕ) (size : ℕ) (dev : Device) (s : S)
      → dev.is_device ≡ true
      → dev.ref_cnt ≡ 0
      → device_write ops pos buf size dev s ≡ (0, s)
  unfolding device_write
  device_write_unused pos buf size dev s is_device unused = rw (is_device, unused) refl

  device_close_unused :
      (dev : Device) (s : S)
      → dev.is_device ≡ true
      → dev.ref_cnt ≡ 0
      → (device_close ops dev s).0 ≡ Err.error
  unfolding device_close
  device_close_unused dev s is_device unused = simp (is_device, unused) refl

  device_close_shared :
      (dev : Device) (s : S)
      → dev.is_device ≡ true
      → 1 < dev.ref_cnt
      → device_close ops dev s ≡ (Err.eok, record dev { ref_cnt = dev.ref_cnt - 1 }, s)
  unfolding device_close
  device_close_shared dev s is_device shared =
      let used : (dev.ref_cnt == 0) ≡ false = ground arith in
      let more : (dev.ref_cnt == 1) ≡ false = ground arith in simp (is_device, used, more) refl

  device_close_last :
      (dev : Device) (s s' : S)
      → dev.is_device ≡ true
      → dev.ref_cnt ≡ 1
      → call ops ops.close tt s ≡ (Err.eok, s')
      → device_close ops dev s ≡ (Err.eok, closed dev, s')
  unfolding device_close
  device_close_last dev s s' is_device once accepted =
      let used : (dev.ref_cnt == 0) ≡ false = ground arith in
      let last : (dev.ref_cnt == 1) ≡ true = ground arith in
      simp (is_device, used, last, accepted) refl

  same_device :
      (dev : Device)
      → dev.flag.is_open ≡ true
      → dev.ref_cnt < 255
      → record (opened dev) { ref_cnt = (opened dev).ref_cnt - 1 } ≡ dev
  same_device dev is_open few =
      let count : (dev.ref_cnt + 1) % 2 ^ 8 - 1 ≡ dev.ref_cnt = omega arith in
      rw (sym is_open) (ap (λ (n : ℕ). record dev { ref_cnt = n }) count)

  -- `sk_device_open` of an initialized open device that is open less than 255 times, with a driver that
  -- accepts it, and then `sk_device_close`: both succeed, the device is as before but for the lower bits of its
  -- flag as the driver has left them, and the driver's own function to close is not called.
  pub device_close-device_open :
      (flag able : ℕ) (dev : Device) (s s' : S)
      → dev.is_device ≡ true
      → dev.flag.activated ≡ true
      → dev.flag.is_open ≡ true
      → 0 < dev.ref_cnt
      → dev.ref_cnt < 255
      → call_open ops ops.open_dev flag dev.flag.able s ≡ (Err.eok, able, s')
      → let (code, dev', s'') = device_open ops flag dev s in
        (code ≡ Err.eok) × (device_close ops dev' s'' ≡ (Err.eok, touched able dev, s'))
  device_close-device_open flag able dev s s' is_device activated is_open some_use few accepted =
      let same : record (opened (touched able dev)) { ref_cnt = (opened dev).ref_cnt - 1 }
          ≡ touched able dev =
        same_device (touched able dev) is_open few in
      rw (device_open_accepted flag able dev s s' is_device activated accepted) (
        refl,
        device_close_shared (opened (touched able dev)) s' is_device (omega arith)
            ∙ ap (λ (d : Device). (Err.eok, d, s')) same,
      )

  -- `sk_device_close` of a device that is open once, with a driver that accepts it: the device can
  -- not be read or written any more, the driver is not called for that.
  pub read-close :
      (dev : Device) (s s' : S) (pos size : ℕ) (buf : List ℕ)
      → dev.is_device ≡ true
      → dev.ref_cnt ≡ 1
      → call ops ops.close tt s ≡ (Err.eok, s')
      → let (code, dev', s'') = device_close ops dev s in
        (code ≡ Err.eok)
        × (dev'.flag.is_open ≡ false)
        × (device_read ops pos size dev' s'' ≡ (0, [], s'))
        × (device_write ops pos buf size dev' s'' ≡ (0, s'))
  read-close dev s s' pos size buf is_device once accepted =
      rw (device_close_last dev s s' is_device once accepted) (
        refl,
        refl,
        device_read_unused pos size (closed dev) s' is_device (omega arith),
        device_write_unused pos buf size (closed dev) s' is_device (omega arith),
      )

  -- `sk_device_open` for the 256th time: it succeeds, but the count is 0 again, so that the device
  -- can be neither read nor closed.
  pub device_open_wraps :
      (flag able : ℕ) (dev : Device) (s s' : S) (pos size : ℕ)
      → dev.is_device ≡ true
      → dev.flag.activated ≡ true
      → dev.ref_cnt ≡ 255
      → call_open ops ops.open_dev flag dev.flag.able s ≡ (Err.eok, able, s')
      → let (code, dev', s'') = device_open ops flag dev s in
        (code ≡ Err.eok)
        × (dev'.flag.is_open ≡ true)
        × (device_read ops pos size dev' s'' ≡ (0, [], s''))
        × ((device_close ops dev' s'').0 ≡ Err.error)
  device_open_wraps flag able dev s s' pos size is_device activated full accepted =
      let zero_uses : (dev.ref_cnt + 1) % 2 ^ 8 ≡ 0 = omega arith in
      rw (device_open_accepted flag able dev s s' is_device activated accepted) (
        refl,
        refl,
        device_read_unused pos size (opened (touched able dev)) s' is_device zero_uses,
        device_close_unused (opened (touched able dev)) s' is_device zero_uses,
      )
