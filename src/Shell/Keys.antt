-- ===== src/Shell/Keys.antt =====
-- The loop of `shell_thread_entry` in common/shell.c, one character at a time. A result is `none` if the
-- code writes behind `shell->line`.
use s_kernel.Common.{
  ℕ, ◌+◌, ◌-◌, not, ◌||◌, Option, none, some, List, [], ◌∷◌, ◌++◌, replicate, ltb, ◌==◌,
  if◌then◌else◌,
}
use s_kernel.Memory.{Memory, store, memset, memcpy, strlen}
use s_kernel.Shell.{
  Shell, Action, wait_normal, wait_spec_key, wait_func_key, print, prompt, u16, dec16, cmd_size,
  cmd_history, line, push_history, handle_history, auto_complete, exec,
}

-- What a character does: its actions, the shell and the memory.
abbrev pub Result : Type 0
Result = Option (List Action × Shell × Memory)

-- `shell->line[i] = ch`
unfoldable pub set_line : ℕ → ℕ → Shell → Memory → Option Memory
set_line i ch s m = if ltb i (cmd_size + 1) then some (store (line s + i) ch m) else none

-- A line of the history is shown and becomes the line.
unfoldable pub recall : ℕ → Shell → Memory → Result
recall fuel s m =
    let m' = memcpy (line s) (cmd_history s s.current_history) cmd_size m in
    let n = strlen fuel (line s) m' in
    some (handle_history fuel s m', record s { line_position = u16 n; line_curpos = u16 n }, m')

unfoldable pub up_key : ℕ → Shell → Memory → Result
unfolding recall
up_key fuel s m =
    if ltb 0 s.current_history
    then recall fuel (record s { current_history = s.current_history - 1 }) m
    else some ([], record s { current_history = 0 }, m)

unfoldable pub down_key : ℕ → Shell → Memory → Result
unfolding recall
down_key fuel s m =
    if ltb (s.current_history + 1) s.history_count
    then recall fuel (record s { current_history = s.current_history + 1 }) m
    else if not (s.history_count == 0)
    then recall fuel (record s { current_history = s.history_count - 1 }) m
    else some ([], s, m)

unfoldable pub left_key : Shell → Memory → Result
left_key s m =
    if not (s.line_curpos == 0)
    then some (print (0x08 ∷ []) ∷ [], record s { line_curpos = s.line_curpos - 1 }, m)
    else some ([], s, m)

unfoldable pub right_key : Shell → Memory → Result
right_key s m =
    if ltb s.line_curpos s.line_position
    then some (
      print (m (line s + s.line_curpos) ∷ []) ∷ [],
      record s { line_curpos = u16 (s.line_curpos + 1) },
      m,
    )
    else some ([], s, m)

unfoldable pub tab_key : ℕ → List ℕ → Shell → Memory → Result
tab_key fuel names s m =
    let n = strlen fuel (line s) m in
    some (
      replicate s.line_curpos (print (0x08 ∷ [])) ++ auto_complete fuel (line s) names m,
      record s { line_position = u16 n; line_curpos = u16 n },
      m,
    )

unfoldable pub backspace_key : Shell → Memory → Result
unfolding set_line
backspace_key s m =
    let s' = record s { line_position = dec16 s.line_position; line_curpos = s.line_curpos - 1 } in
    if s.line_curpos == 0 then some ([], s, m) else elim (set_line s'.line_position 0 s m) [
      | none ↦ none
      | some m' ↦ some (print (0x08 ∷ 0x20 ∷ 0x08 ∷ []) ∷ [], s', m')
    ]

unfoldable pub enter_key : ℕ → List ℕ → ℕ → Shell → Memory → Result
unfolding push_history
enter_key fuel names ch s m =
    let (s', m') = push_history s m in
    let ran = if ch == 0x03 then [] else (exec fuel names (line s') s'.line_position m').1 in
    some (
      print (0x0a ∷ []) ∷ (ran ++ print prompt ∷ []),
      record s' { line_position = 0; line_curpos = 0 },
      memset (line s') 0 (cmd_size + 1) m',
    )

unfoldable pub normal_key : ℕ → Shell → Memory → Result
unfolding set_line
normal_key ch s m = elim (set_line s.line_position ch s m) [
  | none ↦ none
  | some m' ↦ some (
    print (ch ∷ []) ∷ [],
    record s { line_curpos = u16 (s.line_curpos + 1); line_position = u16 (s.line_position + 1) },
    m',
  )
]

-- The loop behind the escape sequences.
unfoldable pub plain_key : ℕ → List ℕ → ℕ → Shell → Memory → Result
unfolding tab_key backspace_key enter_key normal_key
plain_key fuel names ch s m =
    if ch == 0 || ch == 0xff
    then some ([], s, m)
    else if ch == 0x09
    then tab_key fuel names s m
    else if ch == 0x7f || ch == 0x08
    then backspace_key s m
    else if ch == 0x0d || (ch == 0x0a || ch == 0x03)
    then enter_key fuel names ch s m
    else normal_key ch s m

-- The character after ESC [.
unfoldable pub func_key : ℕ → List ℕ → ℕ → Shell → Memory → Result
unfolding plain_key up_key down_key left_key right_key
func_key fuel names ch s m =
    if ch == 0x41
    then up_key fuel s m
    else if ch == 0x42
    then down_key fuel s m
    else if ch == 0x44
    then left_key s m
    else if ch == 0x43
    then right_key s m
    else plain_key fuel names ch s m

-- One character of the loop of `shell_thread_entry`.
unfoldable pub key : ℕ → List ℕ → ℕ → Shell → Memory → Result
unfolding plain_key func_key
key fuel names ch s m =
    let s' = record s { stat = wait_normal } in
    if ch == 0x1b then some ([], record s { stat = wait_spec_key }, m) else elim s.stat [
      | wait_spec_key ↦
          if ch == 0x5b
          then some ([], record s { stat = wait_func_key }, m)
          else plain_key fuel names ch s' m
      | wait_func_key ↦ func_key fuel names ch s' m
      | wait_normal ↦ plain_key fuel names ch s m
    ]

-- The rounds of the loop for the characters that `shell_getchar` returns, -1 left out.
unfoldable pub keys : ℕ → List ℕ → List ℕ → Shell → Memory → Result
keys fuel names [] s m = some ([], s, m)
keys fuel names (ch ∷ rest) s m = elim (key fuel names ch s m) [
  | none ↦ none
  | some (done, s', m') ↦ elim (keys fuel names rest s' m') [
    | none ↦ none
    | some (later, s'', m'') ↦ some (done ++ later, s'', m'')
  ]
]
