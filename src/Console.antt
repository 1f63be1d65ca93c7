-- ===== src/Console.antt =====
-- The console (driver/serial/console.c): numbers and formats as text in memory, and the device that
-- prints it. `%d` and `%x` take an `int`, which is not -2 ^ 31, whose negation overflows.
pub mod Digits
pub mod Numbers
use s_kernel.Common.{
  ℕ, zero, suc, ◌+◌, ◌-◌, ◌*◌, ◌/◌, ◌%◌, ◌^◌, Bool, true, false, not, ◌&&◌, Option, none, some,
  List, [], ◌∷◌, read_at, tabulate, min, ltb, leb, ◌==◌, if◌then◌else◌, ℤ, pos, negsuc,
}
use s_kernel.Kernel.{null, update}
use s_kernel.Memory.{Memory, store, strcpy, strlen}
use s_kernel.Object.{Registry, ObjectType, find}
use s_kernel.Device.{Device, DeviceOps, device_open, device_close, device_write}

-- SK_ISDIGIT of include/kernel/base_def.h
abbrev pub is_digit : ℕ → Bool
is_digit c = leb b'0' c && leb c b'9'

-- `skip_atoi` from a position with the value that has been read so far: the value, a `sk_size_t`, and
-- the position behind the number.
unfoldable pub atoi_from : ℕ → ℕ → ℕ → Memory → ℕ × ℕ
atoi_from zero i s m = (i, s)
atoi_from (suc fuel) i s m =
    let rest = atoi_from fuel ((i * 10 + m s + 2 ^ 64 - 48) % 2 ^ 64) (s + 1) m in
    if is_digit (m s) then rest else (i, s)

-- `skip_atoi`
unfoldable pub skip_atoi : ℕ → ℕ → Memory → ℕ × ℕ
unfolding atoi_from
skip_atoi fuel s m = atoi_from fuel 0 s m

-- The character of `num % base`: of a negative number, `rem` is a negative remainder as a `sk_uint32_t`.
abbrev pub digit_char : Bool → ℕ → ℕ
digit_char negative r =
    let rem = if negative then (2 ^ 32 - r) % 2 ^ 32 else r in
    if ltb 9 rem then (rem - 10 + 97) % 256 else rem + 48

-- The loop of `sk_itoa` over the digits of a number with the magnitude `num`: the number of characters.
unfoldable pub put_digits : ℕ → Bool → ℕ → ℕ → ℕ → ℕ → Memory → ℕ × Memory
put_digits zero negative num base i str m = (i, m)
put_digits (suc fuel) negative num base i str m =
    let ch = digit_char negative (num % base) in
    let rest = put_digits fuel negative (num / base) base (i + 1) str (store (str + i) ch m) in
    if num == 0 then (i, m) else rest

-- The loop of `sk_itoa` that turns the string round.
unfoldable pub reverse_from : ℕ → ℕ → ℕ → ℕ → Memory → Memory
reverse_from zero start end str m = m
reverse_from (suc fuel) start end str m =
    let swapped = store (str + end) (m (str + start)) (store (str + start) (m (str + end)) m) in
    let rest = reverse_from fuel (start + 1) (end - 1) str swapped in
    if ltb start end then rest else m

-- The end of `sk_itoa`, with `i` characters in the string.
unfoldable pub finish : ℕ → ℕ → ℕ → Memory → Memory
unfolding reverse_from
finish fuel str i m = reverse_from fuel 0 (i - 1) str (store (str + i) 0 m)

-- `sk_itoa`
unfoldable pub itoa : ℕ → ℤ → ℕ → ℕ → Memory → Memory
unfolding put_digits finish
itoa fuel (pos zero) str base m = store (str + 1) 0 (store str b'0' m)
itoa fuel (pos (suc n)) str base m =
    let (i, m') = put_digits fuel false (suc n) base 0 str m in finish fuel str i m'
itoa fuel (negsuc n) str base m =
    let (i, m') = put_digits fuel false (suc n) base 0 str m in
    let (j, m'') = put_digits fuel true (suc n) base 0 str m in
    if base == 10 then finish fuel str (i + 1) (store (str + i) b'-' m') else finish fuel str j m''

-- The arguments of a format: a number, or the address of a string.
pub data Arg : Type 0 where
  int : ℤ → Arg
  str : ℕ → Arg

-- The position in the buffer, the arguments that are left, and the memory.
abbrev pub Formatted : Type 0
Formatted = Option (ℕ × List Arg × Memory)

-- `int` as a `char`.
abbrev pub char_of : ℤ → ℕ
char_of (pos n) = n % 256
char_of (negsuc n) = 255 - n % 256

-- A number, or a string, for the conversion.
abbrev pub next_int : List Arg → (ℤ → List Arg → Formatted) → Formatted
next_int (int num ∷ rest) f = f num rest
next_int _ f = none

abbrev pub next_str : List Arg → (ℕ → List Arg → Formatted) → Formatted
next_str (str s ∷ rest) f = f s rest
next_str _ f = none

-- `fuel` is for the loops over digits and strings, `temp` the address of the buffer for digits.
module _ (fuel temp : ℕ) where
  -- `sk_itoa` into `temp`, and the copy of it.
  unfoldable pub put_number : ℤ → ℕ → ℕ → List Arg → Memory → Formatted
  put_number num base buf args m =
      let m' = itoa fuel num temp base m in
      some (buf + strlen fuel temp m', args, strcpy fuel buf temp m')

  -- The cases of the `switch` of `sk_vsprintf`; `none`: an argument is missing, or is of another kind.
  unfoldable pub convert : ℕ → ℕ → List Arg → Memory → Formatted
  unfolding put_number
  convert ch buf args m =
      let other : Formatted = some (buf + 2, args, store (buf + 1) ch (store buf b'%' m)) in
      if ch == b'd'
      then next_int args (λ num rest. put_number num 10 buf rest m)
      else if ch == b'x'
      then next_int args (λ num rest. put_number num 16 buf rest m)
      else if ch == b's'
      then next_str args (λ s rest. some (buf + strlen fuel s m, rest, strcpy fuel buf s m))
      else if ch == b'c'
      then next_int args (λ num rest. some (buf + 1, rest, store buf (char_of num) m))
      else other

  -- The loop of `sk_vsprintf` from the position `p` of the format on: the position behind the text.
  unfoldable pub format_from : ℕ → ℕ → ℕ → List Arg → Memory → Option (ℕ × Memory)
  unfolding convert
  format_from zero p buf args m = none
  format_from (suc rounds) p buf args m =
      let copied = format_from rounds (p + 1) (buf + 1) args (store buf (m p) m) in
      let converted : Option (ℕ × Memory) = elim (convert (m (p + 1)) buf args m) [
        | none ↦ none
        | some (buf', args', m') ↦ format_from rounds (p + 2) buf' args' m'
      ] in
      if m p == 0
      then some (buf, store buf 0 m)
      else if m p == b'%' && not (m (p + 1) == 0)
      then converted
      else copied

  -- `sk_vsprintf`: the length and the memory.
  unfoldable pub vsprintf : ℕ → ℕ → ℕ → List Arg → Memory → Option (ℕ × Memory)
  unfolding format_from
  vsprintf rounds buf fmt args m = elim (format_from rounds fmt buf args m) [
    | none ↦ none
    | some (behind, m') ↦ some (behind - buf, m')
  ]

-- SK_CONSOLE_BUF_SIZE
abbrev pub console_buf_size : ℕ
console_buf_size = 128

-- The devices by address, with the functions of their drivers; `console` is `_console_device`.
module _ {S : Type 0} (ops : ℕ → DeviceOps S) where
  -- `sk_kprintf`, with the address of `sk_log_buf`.
  unfoldable pub kprintf :
      ℕ → ℕ → ℕ → ℕ → ℕ → List Arg → ℕ → (ℕ → Device) → Memory → S → Option (Memory × S)
  unfolding vsprintf
  kprintf fuel rounds temp log_buf fmt args console devices m s =
      elim (vsprintf fuel temp rounds log_buf fmt args m) [
        | none ↦ none
        | some (length, m') ↦
            let size = min length console_buf_size in
            let (_, s') =
              device_write (ops console) 0 (tabulate size log_buf m') size (devices console) s in
            some (m', if console == null then s else s')
      ]

  -- `sk_console_set_device`: what it returns, the console, the devices and the hardware.
  unfoldable pub set_device : ℕ → Registry → ℕ → (ℕ → Device) → S → ℕ × ℕ × (ℕ → Device) × S
  set_device name r console devices s =
      let new_device = find name ObjectType.device r in
      let (_, closed, s₁) = device_close (ops console) (devices console) s in
      let left = if console == null then devices else update devices console closed in
      let s₂ = if console == null then s else s₁ in
      let (_, opened, s₃) = device_open (ops new_device) 3 (left new_device) s₂ in
      if new_device == console
      then (null, console, devices, s)
      else if new_device == null
      then (console, console, devices, s)
      else (console, new_device, update left new_device opened, s₃)
