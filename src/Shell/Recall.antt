-- ===== src/Shell/Recall.antt =====
-- The history of common/shell.c brings the line back that was entered last.
use s_kernel.Common.{
  ℕ, ◌+◌, ◌-◌, ◌<◌, ◌≡◌, refl, sym, ◌∙◌, arith, true, false, ltb, ◌==◌, ap, some, List, [], ◌∷◌,
  ◌++◌,
}
use s_kernel.Memory.{Memory, memset, memcpy}
use s_kernel.Memory.Copying.{memset_lem, memcpy_lem}
use s_kernel.Shell.{
  Shell, Action, cmd_history, line, add_history, wait_normal, wait_spec_key, wait_func_key,
  handle_history, exec, prompt,
}
use s_kernel.Shell.Keys.{enter_key, up_key, plain_key, key, keys}
use s_kernel.Shell.Inv.{IsValid}
use s_kernel.Shell.History.{add_history-Pushed}
use s_kernel.Shell.Editing.{stat-IsValid, chosen-IsValid, recall_lem}
use s_kernel.Shell.Typing.{cleared-IsValid}
use s_kernel.Shell.Session.{keys_step}

-- The shell and the memory after a line that is not empty has been entered.
abbrev entered : Shell → Memory → Shell × Memory
entered s m =
    let (s', m') = add_history s m in
    (
      record s' { current_history = s'.history_count; line_position = 0; line_curpos = 0 },
      memset (line s') 0 81 m',
    )

-- The keys: return, ESC [ A.
abbrev pub return_and_up : List ℕ
return_and_up = 0x0d ∷ 0x1b ∷ 0x5b ∷ 0x41 ∷ []

module _ {fuel : ℕ} (enough : 80 < fuel) {s : Shell} {m : Memory} (v : IsValid s m) where
  entered-IsValid : IsValid (entered s m).0 (entered s m).1
  entered-IsValid =
      let p = add_history-Pushed v in
      cleared-IsValid (add_history s m).0 (add_history s m).1 v p.same_self p.count p.rows

  -- The newest line of the history.
  newest_there :
      (j : ℕ)
      → j < 80
      → (entered s m).1 (cmd_history (entered s m).0 ((entered s m).0.history_count - 1) + j)
        ≡ m (line s + j)
  newest_there j lt =
      let p = add_history-Pushed v in
      let (s', m') = add_history s m in
      let a = cmd_history s' (s'.history_count - 1) + j in
      let kept : memset (line s') 0 81 m' a ≡ m' a =
        ground (arith, memset_lem (line s') 0 81 m' a, p.count) in
      let at : a ≡ cmd_history s (s'.history_count - 1) + j = omega (arith, p.same_self) in
      kept ∙ ap m' at ∙ p.newest j lt

  -- What the line is copied from.
  back :
      (s' : Shell) (m' : Memory) (i : ℕ)
      → s'.self ≡ s.self
      → (j : ℕ) → j < 80
      → memcpy (line s') (cmd_history s' i) 80 m' (line s + j) ≡ m' (cmd_history s' i + j)
  back s' m' i same j lt =
      let e : cmd_history s' i + (line s + j - line s') ≡ cmd_history s' i + j = omega arith in
      ground (arith, memcpy_lem (line s') (cmd_history s' i) 80 m' (line s + j))

  up_after_enter :
      let s' : Shell = record ((entered s m).0) { stat = wait_normal } in
      (s'' : Shell) × (m'' : Memory) × (done : List Action) × (up_key fuel s' (entered s m).1
        ≡ some (done, s'', m''))
      × (s''.line_position ≡ s.line_position)
      × (s''.line_curpos ≡ s.line_position)
      × ((j : ℕ) → j < 80 → m'' (line s + j) ≡ m (line s + j))
      × (s''.self ≡ s.self)
      × IsValid s'' m''
  unfolding up_key
  up_after_enter =
      let p = add_history-Pushed v in
      let s' : Shell = record ((entered s m).0) { stat = wait_normal } in
      let m' = (entered s m).1 in
      let i = s'.history_count - 1 in
      let chosen : Shell = record s' { current_history = i } in
      let (e, v') =
        recall_lem enough
          (chosen-IsValid i (omega arith) (stat-IsValid wait_normal entered-IsValid))
          (omega (arith, p.count)) s.line_position v.room
          (λ j lt z. v.text j lt (sym (newest_there j (omega (arith, v.room))) ∙ z))
          (λ j lo hi. newest_there j hi ∙ v.blank j lo (omega arith)) in
      let m'' = memcpy (line s') (cmd_history s' i) 80 m' in
      let more : ltb 0 s'.history_count ≡ true = ground (arith, p.not_empty) in
      (
        record chosen { line_position = s.line_position; line_curpos = s.line_position },
        m'',
        handle_history fuel chosen m'',
        rw more e,
        refl,
        refl,
        λ j lt. back s' m' i p.same_self j lt ∙ newest_there j lt,
        p.same_self,
        v',
      )

  module _ (names : List ℕ) (typed : 0 < s.line_position) where
    return_key : s.stat ≡ wait_normal → key fuel names 0x0d s m ≡ enter_key fuel names 0x0d s m
    unfolding key plain_key
    return_key e = ground arith

    -- The actions of the line that is entered.
    entering : List Action
    entering =
        let (s', m') = add_history s m in
        Action.print (0x0a ∷ [])
        ∷ ((exec fuel names (line s') s'.line_position m').1 ++ Action.print prompt ∷ [])

    enter_lem : enter_key fuel names 0x0d s m ≡ some (entering, (entered s m).0, (entered s m).1)
    unfolding enter_key entering
    enter_lem = let more : (s.line_position == 0) ≡ false = ground arith in rw more

    escape_lem :
        (s' : Shell) (m' : Memory)
        → key fuel names 0x1b s' m' ≡ some ([], record s' { stat = wait_spec_key }, m')
    unfolding key
    escape_lem s' m' = refl

    bracket_lem :
        (s' : Shell) (m' : Memory)
        → key fuel names 0x5b (record s' { stat = wait_spec_key }) m'
          ≡ some ([], record s' { stat = wait_func_key }, m')
    unfolding key
    bracket_lem s' m' = refl

    up_lem :
        (s' : Shell) (m' : Memory)
        → key fuel names 0x41 (record s' { stat = wait_func_key }) m'
          ≡ up_key fuel (record s' { stat = wait_normal }) m'
    unfolding key
    up_lem s' m' = refl

-- A line that is not empty comes back by return, ESC [ A: its bytes and its position are the old
-- ones, with the cursor behind it, and the shell is valid.
pub keys_recall :
    {fuel : ℕ} {s : Shell} {m : Memory} (names : List ℕ)
    → 80 < fuel
    → IsValid s m
    → s.stat ≡ wait_normal
    → 0 < s.line_position
    → (done : List Action) × (s' : Shell) × (m' : Memory) × (keys fuel names return_and_up s m
        ≡ some (done, s', m'))
      × (s'.line_position ≡ s.line_position)
      × (s'.line_curpos ≡ s.line_position)
      × ((j : ℕ) → j < 80 → m' (line s' + j) ≡ m (line s + j))
      × IsValid s' m'
keys_recall {fuel} {s} {m} names enough v e typed =
    let entered_by = return_key enough v names typed e ∙ enter_lem enough v names typed in
    let (s', m') = entered s m in
    let (s'', m'', _, up, position, cursor, same, self, v') = up_after_enter enough v in
    let last = up_lem enough v names typed s' m' ∙ up in
    let nothing : keys fuel names [] s'' m'' ≡ some ([], s'', m'') = unfold keys in refl in
    (
      _,
      s'',
      m'',
      keys_step fuel names 0x0d (0x1b ∷ 0x5b ∷ 0x41 ∷ []) s m entered_by (
          keys_step fuel names 0x1b (0x5b ∷ 0x41 ∷ []) s' m' (escape_lem enough v names typed s' m')
            (keys_step fuel names 0x5b (0x41 ∷ []) (record s' { stat = wait_spec_key }) m'
              (bracket_lem enough v names typed s' m')
              (keys_step fuel names 0x41 [] (record s' { stat = wait_func_key }) m' last nothing))),
      position,
      cursor,
      λ j lt. ap m'' (omega (arith, self)) ∙ same j lt,
      v',
    )
