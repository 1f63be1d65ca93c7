-- ===== src/Tests/Typing.antt =====
-- The shell and the interrupt controller at concrete inputs.
use s_kernel.Common.{
  ℕ, ◌+◌, ◌-◌, ◌<◌, ◌≤◌, ◌≡◌, ◌≢◌, ◌⊎◌, refl, arith, some, none, List, [], ◌∷◌, ◌++◌, map, ◌==◌,
  if◌then◌else◌, pos, negsuc,
}
use s_kernel.Memory.{store, Memory, strncmp}
use s_kernel.Memory.Copying.{inside}
use s_kernel.Memory.Comparing.{IsBytes}
use s_kernel.Shell.{Shell, Action, line, exec}
use s_kernel.Shell.Keys.{key, keys}
use s_kernel.Shell.Setup.{cleared}
use s_kernel.Shell.Inv.{IsValid}
use s_kernel.Shell.Editing.{Succeeds}
use s_kernel.Shell.Session.{key-IsValid, keys_append, keys_overrun, text_of}
use s_kernel.Shell.Recall.{keys_recall, return_and_up}
use s_kernel.Shell.Commands.{Blanks, FirstCommand, NoCommand, exec_lem}
use s_kernel.Interrupt.{
  Gic, interrupt_install, trap_irq, gic_dist_init, max_irq, cpu_eoi, dist_pending_clear, mask_of,
  dist_ctrl, gic_dist_base,
}
use s_kernel.Interrupt.Dispatch.{trap_irq-interrupt_install}
use s_kernel.Console.{itoa, put_digits, finish, reverse_from}
use s_kernel.Console.Numbers.{IsNumeral, skip_atoi-itoa}
use s_kernel.Interrupt.Starting.{IsConfigured, last, gic_dist_init_lem}

-- A shell at 1000 with `n` letters in its line, and the command "top" at 3000.
abbrev typed : ℕ → Shell
typed n = record (cleared 1000) { line_position = n; line_curpos = n }

abbrev letters : ℕ → Memory
letters n a =
    if inside 1410 n a
    then 97
    else if a == 3000
    then 116
    else if a == 3001
    then 111
    else if a == 3002
    then 112
    else 0

typed-IsValid : (n : ℕ) → n ≤ 80 → IsValid (typed n) (letters n)
typed-IsValid n le = record {
  text = λ j jt. ground arith;
  blank = λ j lo hi. ground arith;
  room = le;
  cursor = omega arith;
  rows = λ i lt j k jk kt z. ground arith;
  count = omega arith;
  current = omega arith;
}

abbrev fuel : ℕ
fuel = 100

abbrev names : List ℕ
names = 3000 ∷ []

key-IsValid_example : Succeeds (key fuel names 0x41 (typed 3) (letters 3))
key-IsValid_example =
    key-IsValid names 0x41 (omega arith) (typed-IsValid 3 (omega arith)) (omega arith)

keys_append_example :
    (s' : Shell) × (m' : Memory) × (keys fuel names (98 ∷ 99 ∷ []) (typed 3) (letters 3)
      ≡ some (map (λ c. Action.print (c ∷ [])) (98 ∷ 99 ∷ []), s', m'))
    × (text_of s' m' ≡ text_of (typed 3) (letters 3) ++ (98 ∷ 99 ∷ []))
    × (s'.line_curpos ≡ 3 + 2)
    × IsValid s' m'
keys_append_example =
    keys_append fuel names (98 ∷ 99 ∷ []) (typed-IsValid 3 (omega arith)) refl (refl, (refl, tt))
      (omega arith)

keys_recall_example :
    (done : List Action) × (s' : Shell) × (m' : Memory) × (keys fuel names return_and_up
        (typed 3)
        (letters 3)
      ≡ some (done, s', m'))
    × (s'.line_position ≡ 3)
    × (s'.line_curpos ≡ 3)
    × ((j : ℕ) → j < 80 → m' (line s' + j) ≡ letters 3 (line (typed 3) + j))
    × IsValid s' m'
keys_recall_example =
    keys_recall names (omega arith) (typed-IsValid 3 (omega arith)) refl (omega arith)

keys_overrun_example :
    (key fuel names 98 (typed 80) (letters 80)
      ≡ some (
        Action.print (98 ∷ []) ∷ [],
        record (typed 80) { line_curpos = 81; line_position = 81 },
        store (line (typed 80) + 80) 98 (letters 80),
      ))
    × (keys fuel names (98 ∷ 99 ∷ []) (typed 80) (letters 80) ≡ none)
keys_overrun_example =
    keys_overrun fuel names 98 99 (typed-IsValid 80 (omega arith)) refl refl refl refl

letters-IsBytes : (n : ℕ) → IsBytes (letters n)
letters-IsBytes n a = ground arith

exec_lem_example :
    (k : ℕ) × Blanks k 3000 2 (letters 0)
    × ((k ≡ 2) × (exec fuel names 3000 2 (letters 0) ≡ (0, []))
        ⊎ ((k < 2)
            × (i : ℕ) × (exec fuel names 3000 2 (letters 0) ≡ (0, Action.call i ∷ []))
            × FirstCommand names i (3000 + k) (2 - k) (letters 0))
        ⊎ ((k < 2)
            × ((exec fuel names 3000 2 (letters 0)).0 ≡ 255)
            × NoCommand names (3000 + k) (2 - k) (letters 0)))
exec_lem_example = exec_lem (letters-IsBytes 0) fuel names 3000 2

-- "to" calls "top".
exec_run : exec fuel names 3000 2 (letters 0) ≡ (0, Action.call 0 ∷ [])
unfolding exec strncmp
exec_run = refl

abbrev gic : Gic
gic = record {
  offset = 0;
  dist_base = 0x08000000;
  cpu_base = 0x08010000;
  isr_table = λ _. record { handler = 0; param = 0 };
  writes = [];
}

-- A handler writes to a register, and writes down its vector and its parameter.
abbrev note : ℕ → ℕ → ℕ → Gic × List ℕ → Gic × List ℕ
note handler vector param (g, s) =
    (record g { writes = (0x08000180, 1) ∷ g.writes }, handler ∷ vector ∷ param ∷ s)

trap_irq-interrupt_install_example :
    let g' = (interrupt_install 33 700 5 gic).1 in
    (trap_irq note 33 g' []
      ≡ some (
        record g' {
          writes =
              (cpu_eoi 0x08010000, 33)
              ∷ (dist_pending_clear 0x08000000 33, mask_of 33)
              ∷ (0x08000180, 1)
              ∷ [];
        },
        700 ∷ 33 ∷ 5 ∷ [],
      ))
    × ((other : ℕ) → other ≢ 33 → g'.isr_table other ≡ gic.isr_table other)
unfolding interrupt_install
trap_irq-interrupt_install_example =
    trap_irq-interrupt_install note 33 700 5 33 gic [] (omega arith) (omega arith) refl

gic_dist_init_lem_example :
    (before : List (ℕ × ℕ)) × ((gic_dist_init 3 gic_dist_base 0 gic).writes
      ≡ (dist_ctrl gic_dist_base, 1) ∷ before)
    × (last (dist_ctrl gic_dist_base) before ≡ some 0)
    × ((n : ℕ) → n < max_irq 3 → IsConfigured gic_dist_base n before)
gic_dist_init_lem_example = gic_dist_init_lem 3 gic_dist_base 0 gic

skip_atoi-itoa_example :
    (k : ℕ) × (k ≤ 10 + 1) × IsNumeral 2025 k 500 (itoa 10 (pos 2025) 500 10 (letters 0))
skip_atoi-itoa_example = skip_atoi-itoa 10 2025 500 (letters 0) (omega arith) (omega arith)

-- `%x` of -1: the remainder of a negative number is no digit.
itoa_negative : itoa 10 (negsuc 0) 500 16 (letters 0) 500 ≡ 86
unfolding itoa put_digits finish reverse_from
itoa_negative = refl
