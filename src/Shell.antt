-- ===== src/Shell.antt =====
-- The shell (common/shell.c, include/common/shell.h): the line that is typed, the history of lines and
-- the commands. `Shell.Keys` models the loop of the thread, `Shell.Setup` the device and the start.
-- What goes to the console, and the commands that are called, are a list of actions. The arrays of
-- `struct shell_cmd` stand in memory; a command leaves them alone.
pub mod Keys
pub mod Inv
pub mod History
pub mod Editing
pub mod Typing
pub mod Session
pub mod Recall
pub mod Commands
pub mod Setup
use Prim.Native.Char.{code}
use Prim.Native.String.{String}
use s_kernel.Common.{
  ℕ, zero, suc, ◌+◌, ◌-◌, ◌*◌, ◌%◌, ◌^◌, Bool, ◌||◌, Option, none, some, List, [], ◌∷◌, ◌++◌,
  tabulate, leb, ◌==◌, if◌then◌else◌,
}
use s_kernel.Ipc.Base.{is_zero}
use s_kernel.Memory.{Memory, memset, memcpy, memcmp, strncmp, strlen}

-- `enum input_stat`
pub data InputStat : Type 0 where
  wait_normal wait_spec_key wait_func_key : InputStat

-- `struct shell_cmd`, less `prompt_mode`, which nothing uses; `self` is its address.
pub record Shell : Type 0 where
  pub self : ℕ
  pub stat : InputStat
  pub echo_mode : Bool
  pub current_history : ℕ
  pub history_count : ℕ
  pub line_position : ℕ
  pub line_curpos : ℕ
  pub device : ℕ

-- SHELL_CMD_HISTORY_LINE
abbrev pub history_line : ℕ
history_line = 5

-- SHELL_CMD_SIZE
abbrev pub cmd_size : ℕ
cmd_size = 80

-- `&shell->cmd_history[i][0]` and `shell->line`: the fields in front of them take 10 bytes.
abbrev pub cmd_history : Shell → ℕ → ℕ
cmd_history s i = s.self + 10 + i * 80

abbrev pub line : Shell → ℕ
line s = s.self + 410

-- What a thread does that the shell's state does not show: output, and the call of the command at an
-- index of the table.
pub data Action : Type 0 where
  print : List ℕ → Action
  call : ℕ → Action

abbrev pub codes : String → List ℕ
codes String.[] = []
codes (String.◌∷◌ c s) = code c ∷ codes s

-- SHELL_PROMPT
abbrev pub prompt : List ℕ
prompt = codes "shell:> "

-- Stores into a `sk_uint16_t`; `dec16` is `--`.
abbrev pub u16 : ℕ → ℕ
u16 n = n % 2 ^ 16

abbrev pub dec16 : ℕ → ℕ
dec16 n = (n + 2 ^ 16 - 1) % 2 ^ 16

-- The string at an address, as `%s` prints it.
unfoldable pub string_at : ℕ → ℕ → Memory → List ℕ
string_at fuel a m = tabulate (strlen fuel a m) a m

-- The loop of `shell_push_history` that moves the lines of the history down by one.
unfoldable pub shift_lines : ℕ → ℕ → Shell → Memory → Memory
shift_lines zero i s m = m
shift_lines (suc n) i s m =
    shift_lines n (i + 1) s (memcpy (cmd_history s i) (cmd_history s (i + 1)) cmd_size m)

-- The line is put into the history at `i`.
unfoldable pub keep_line : ℕ → Shell → Memory → Memory
keep_line i s m =
    memcpy (cmd_history s i) (line s) s.line_position (memset (cmd_history s i) 0 cmd_size m)

-- `shell_push_history` of a line that is not empty, before it sets `current_history`.
unfoldable pub add_history : Shell → Memory → Shell × Memory
unfolding shift_lines keep_line
add_history s m =
    if leb history_line s.history_count
    then (if is_zero (memcmp (cmd_history s (history_line - 1)) (line s) cmd_size m)
        then (s, m)
        else (
          record s { history_count = history_line },
          keep_line (history_line - 1) s (shift_lines (history_line - 1) 0 s m),
        ))
    else if s.history_count == 0
    then (record s { history_count = s.history_count + 1 }, keep_line s.history_count s m)
    else if is_zero (memcmp (cmd_history s (s.history_count - 1)) (line s) cmd_size m)
    then (s, m)
    else (record s { history_count = s.history_count + 1 }, keep_line s.history_count s m)

-- `shell_push_history`
unfoldable pub push_history : Shell → Memory → Shell × Memory
unfolding add_history
push_history s m =
    let (s', m') = if s.line_position == 0 then (s, m) else add_history s m in
    (record s' { current_history = s'.history_count }, m')

-- `shell_handle_history`
unfoldable pub handle_history : ℕ → Shell → Memory → List Action
unfolding string_at
handle_history fuel s m =
    print (0x1b ∷ codes "[2K" ++ 0x0d ∷ []) ∷ print (prompt ++ string_at fuel (line s) m) ∷ []

-- The loop of `shell_auto_complete` over the names of the table, which are addresses.
unfoldable pub list_matching : ℕ → ℕ → List ℕ → Memory → List Action
unfolding string_at
list_matching fuel prefix [] m = []
list_matching fuel prefix (name ∷ names) m =
    let rest = list_matching fuel prefix names m in
    if strncmp prefix name (strlen fuel prefix m) m == 0
    then print (string_at fuel name m ++ 0x0a ∷ []) ∷ rest
    else rest

-- `shell_auto_complete`
unfoldable pub auto_complete : ℕ → ℕ → List ℕ → Memory → List Action
unfolding string_at list_matching
auto_complete fuel prefix names m =
    print (0x0a ∷ [])
    ∷ (list_matching fuel prefix names m ++ print (prompt ++ string_at fuel prefix m) ∷ [])

-- The blanks that `shell_exec` skips: what is left of the command.
unfoldable pub skip_blanks : ℕ → ℕ → Memory → ℕ × ℕ
skip_blanks cmd zero m = (cmd, 0)
skip_blanks cmd (suc len) m =
    let rest = skip_blanks (cmd + 1) len m in
    if m cmd == b' ' || m cmd == 0x09 then rest else (cmd, suc len)

-- The loop of `shell_exec` over the table, from the index `i` on: the command that it calls.
unfoldable pub find_command : ℕ → List ℕ → ℕ → ℕ → Memory → Option ℕ
find_command i [] cmd len m = none
find_command i (name ∷ names) cmd len m =
    let rest = find_command (i + 1) names cmd len m in
    if strncmp name cmd len m == 0 then some i else rest

-- `shell_exec`; -1 as a `sk_uint8_t` is 255.
unfoldable pub exec : ℕ → List ℕ → ℕ → ℕ → Memory → ℕ × List Action
unfolding skip_blanks find_command string_at
exec fuel names cmd len m =
    let (cmd', len') = skip_blanks cmd len m in
    if len' == 0 then (0, []) else elim (find_command 0 names cmd' len' m) [
      | some i ↦ (0, call i ∷ [])
      | none ↦ (255, print (string_at fuel cmd' m ++ codes ": command not found.\n") ∷ [])
    ]
