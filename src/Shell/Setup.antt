-- ===== src/Shell/Setup.antt =====
-- `shell_getchar`, `shell_set_device` and `shell_system_init` of common/shell.c.
use s_kernel.Common.{ℕ, ◌+◌, true, false, not, Option, none, some, get_or, ◌==◌, if◌then◌else◌}
use s_kernel.Kernel.{null, update}
use s_kernel.Memory.{Memory, memset}
use s_kernel.Object.{Registry, ObjectType, find}
use s_kernel.Device.{Device, DeviceOps, is_ok, device_open, device_close, device_read}
use s_kernel.Shell.{Shell, wait_normal, line, cmd_size}

-- The devices by address, with the functions of their drivers.
module _ {S : Type 0} (ops : ℕ → DeviceOps S) where
  -- `shell_getchar`; `none` is -1. The character is 0 if the device leaves the buffer alone.
  unfoldable pub getchar : (ℕ → Device) → Shell → S → Option ℕ × S
  getchar devices shell s =
      let (size, bytes, s') = device_read (ops shell.device) 0 1 (devices shell.device) s in
      if shell.device == null
      then (none, s)
      else (if size == 0 then none else some (get_or bytes 0 0), s')

  -- The line is cleared and the device becomes the shell's.
  unfoldable pub switch_device : ℕ → Shell → Memory → Shell × Memory
  switch_device dev shell m = (
    record shell { line_curpos = 0; line_position = 0; device = dev },
    memset (line shell) 0 (cmd_size + 1) m,
  )

  -- `shell_set_device`, with the registry in which the name is looked up, before the message if it
  -- is not found. `none`: the code opens a device through SK_NULL.
  unfoldable pub set_device :
      ℕ → Registry → (ℕ → Device) → Shell → Memory → S → Option ((ℕ → Device) × Shell × Memory × S)
  unfolding switch_device
  set_device name r devices shell m s =
      let dev = find name ObjectType.device r in
      let old = shell.device in
      let (code, opened, s₁) = device_open (ops old) 3 (devices old) s in
      let (_, closed, s₂) = device_close (ops old) opened s₁ in
      let (shell', m') = switch_device dev shell m in
      if dev == null
      then some (devices, shell, m, s)
      else if dev == old
      then some (devices, shell, m, s)
      else if old == null
      then none
      else some (
          if is_ok code
          then (update devices old closed, shell', m', s₂)
          else (update devices old opened, shell', m', s₁))

  -- The start of `shell_thread_entry`, before the prompt; `console` is what `sk_console_get_device`
  -- returns, whose name stands at its address.
  unfoldable pub thread_start :
      ℕ → Registry → (ℕ → Device) → Shell → Memory → S → Option ((ℕ → Device) × Shell × Memory × S)
  unfolding set_device
  thread_start console r devices shell m s =
      let ready = record shell { echo_mode = true } in
      if not (shell.device == null)
      then some (devices, ready, m, s)
      else if console == null
      then some (devices, ready, m, s)
      else set_device console r devices ready m s

-- The shell that `shell_system_init` clears.
abbrev pub cleared : ℕ → Shell
cleared self = record {
  self = self;
  stat = wait_normal;
  echo_mode = false;
  current_history = 0;
  history_count = 0;
  line_position = 0;
  line_curpos = 0;
  device = null;
}

-- `shell_system_init`, with the address that `sk_malloc` returns, before the thread is created.
-- `none` is the return of -1.
unfoldable pub system_init : ℕ → Memory → Option (Shell × Memory)
system_init self m = if self == null then none else some (cleared self, memset self 0 504 m)
