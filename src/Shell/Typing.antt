-- ===== src/Shell/Typing.antt =====
-- The characters that common/shell.c puts into the line, takes out of it, or ends it by.
use s_kernel.Common.{
  ℕ, ◌+◌, ◌-◌, ◌<◌, ◌≤◌, ◌≡◌, ◌≢◌, refl, sym, ◌∙◌, arith, ◌||◌, Bool-cases, inl, inr, ltb, ◌==◌,
  some, List, [], ◌∷◌,
}
use s_kernel.Memory.{Memory, memset, store}
use s_kernel.Memory.Copying.{memset_lem}
use s_kernel.Memory.Strings.{strlen_lem}
use s_kernel.Shell.{Shell, Action, cmd_history, line, add_history, u16, dec16}
use s_kernel.Shell.Keys.{
  left_key, right_key, tab_key, backspace_key, enter_key, normal_key, plain_key, func_key, set_line,
}
use s_kernel.Shell.Inv.{IsPadded, IsValid}
use s_kernel.Shell.History.{add_history-Pushed}
use s_kernel.Shell.Editing.{
  Succeeds, rows_kept, moved-IsValid, u16_small, line-IsString, up_key-Succeeds, down_key-Succeeds,
}

left_key-Succeeds : {s : Shell} {m : Memory} → IsValid s m → Succeeds (left_key s m)
unfolding left_key
left_key-Succeeds {s} {m} v = elim (Bool-cases (s.line_curpos == 0)) [
  | inl e ↦ rw e ([], s, m, refl, v)
  | inr ne ↦ rw ne (_, _, m, refl, moved-IsValid (s.line_curpos - 1) (omega (arith, v.cursor)) v)
]

right_key-Succeeds : {s : Shell} {m : Memory} → IsValid s m → Succeeds (right_key s m)
unfolding right_key
right_key-Succeeds {s} {m} v = elim (Bool-cases (ltb s.line_curpos s.line_position)) [
  | inr e ↦ rw e ([], s, m, refl, v)
  | inl more ↦
      rw more (_, _, m, refl, moved-IsValid (u16 (s.line_curpos + 1)) (ground (arith, v.room)) v)
]

pub set_line_fits :
    (i ch : ℕ) (s : Shell) (m : Memory)
    → i ≤ 80
    → set_line i ch s m ≡ some (store (line s + i) ch m)
unfolding set_line
set_line_fits i ch s m le = ground arith

-- A character goes behind the text, wherever the cursor is.
pub normal_key_lem :
    {s : Shell} {m : Memory} (ch : ℕ)
    → IsValid s m
    → s.line_position < 80
    → ch ≢ 0
    → let m' = store (line s + s.line_position) ch m in
      let s' : Shell = record s {
        line_curpos = s.line_curpos + 1;
        line_position = s.line_position + 1;
      } in
      (normal_key ch s m ≡ some (Action.print (ch ∷ []) ∷ [], s', m')) × IsValid s' m'
unfolding normal_key
normal_key_lem {s} {m} ch v lt nz =
    let m' = store (line s + s.line_position) ch m in
    (
      ground (
        arith,
        set_line_fits s.line_position ch s m (omega arith),
        u16_small (s.line_curpos + 1) (omega (arith, v.cursor)),
        u16_small (s.line_position + 1) (omega arith),
      ),
      record {
        text = λ j jt. elim (Bool-cases (j == s.line_position)) [
          | inl e ↦ ground arith
          | inr ne ↦ ground (arith, v.text j)
        ];
        blank = λ j lo hi. ground (arith, v.blank j);
        room = omega arith;
        cursor = omega (arith, v.cursor);
        rows = rows_kept m' v (λ a out. ground arith);
        count = v.count;
        current = v.current;
      },
    )

-- The key takes out the last character, wherever the cursor is, unless the cursor is at the start.
pub backspace_key_lem :
    {s : Shell} {m : Memory}
    → IsValid s m
    → 0 < s.line_curpos
    → let m' = store (line s + (s.line_position - 1)) 0 m in
      let s' : Shell = record s {
        line_position = s.line_position - 1;
        line_curpos = s.line_curpos - 1;
      } in
      (backspace_key s m ≡ some (Action.print (0x08 ∷ 0x20 ∷ 0x08 ∷ []) ∷ [], s', m'))
      × IsValid s' m'
unfolding backspace_key
backspace_key_lem {s} {m} v pos =
    let m' = store (line s + (s.line_position - 1)) 0 m in
    let less : dec16 s.line_position ≡ s.line_position - 1 = omega (arith, v.cursor, v.room) in
    (
      ground
          (arith, less, v.room, set_line_fits (s.line_position - 1) 0 s m (omega (arith, v.room))),
      record {
        text = λ j jt. ground (arith, v.text j, v.cursor);
        blank = λ j lo hi. elim (Bool-cases (j == s.line_position - 1)) [
          | inl e ↦ ground arith
          | inr ne ↦ ground (arith, v.blank j, v.cursor)
        ];
        room = omega (arith, v.room);
        cursor = omega (arith, v.cursor);
        rows = rows_kept m' v (λ a out. ground arith);
        count = v.count;
        current = v.current;
      },
    )

backspace_key-Succeeds : {s : Shell} {m : Memory} → IsValid s m → Succeeds (backspace_key s m)
backspace_key-Succeeds {s} {m} v = elim (Bool-cases (s.line_curpos == 0)) [
  | inl e ↦ ([], s, m, unfold backspace_key in rw e, v)
  | inr ne ↦ let (e, v') = backspace_key_lem v (ground arith) in (_, _, _, e, v')
]

-- The shell after the line has been entered and cleared.
pub cleared-IsValid :
    {s : Shell} {m : Memory} (s' : Shell) (m' : Memory)
    → IsValid s m
    → s'.self ≡ s.self
    → s'.history_count ≤ 5
    → ((i : ℕ) → i < 5 → IsPadded (cmd_history s i) 80 m')
    → IsValid
        (record s' { current_history = s'.history_count; line_position = 0; line_curpos = 0 })
        (memset (line s') 0 81 m')
cleared-IsValid {s} {m} s' m' v self count rows =
    let outside = λ (i j : ℕ) (lt : i < 5) (jt : j < 80).
      let e : memset (line s') 0 81 m' (cmd_history s' i + j) ≡ m' (cmd_history s i + j) =
        ground (arith, memset_lem (line s') 0 81 m' (cmd_history s' i + j)) in
      e in
    record {
      text = λ j jt. absurd (omega arith);
      blank = λ j lo hi. ground (arith, memset_lem (line s') 0 81 m' (line s' + j));
      room = omega arith;
      cursor = omega arith;
      rows = λ i lt j k le kt z.
          outside i k lt kt ∙ rows i lt j k le kt (sym (outside i j lt (omega arith)) ∙ z);
      count = count;
      current = omega arith;
    }

module _ {fuel : ℕ} (enough : 80 < fuel) (names : List ℕ) where
  enter_key-Succeeds :
      {s : Shell} {m : Memory} (ch : ℕ) → IsValid s m → Succeeds (enter_key fuel names ch s m)
  unfolding enter_key
  enter_key-Succeeds {s} {m} ch v = elim (Bool-cases (s.line_position == 0)) [
    | inl e ↦ rw e (_, _, _, refl, cleared-IsValid s m v refl v.count v.rows)
    | inr ne ↦
        let p = add_history-Pushed v in
        rw ne (
          _,
          _,
          _,
          refl,
          cleared-IsValid (add_history s m).0 (add_history s m).1 v p.same_self p.count p.rows,
        )
  ]

  tab_key-Succeeds : {s : Shell} {m : Memory} → IsValid s m → Succeeds (tab_key fuel names s m)
  unfolding tab_key
  tab_key-Succeeds {s} {m} v =
      let found =
        strlen_lem fuel (line s) s.line_position m (line-IsString v) (omega (arith, v.room)) in
      rw (found, u16_small s.line_position (omega (arith, v.room)))
        (_, _, m, refl, moved-IsValid s.line_position (omega arith) v)

  pub plain_key-Succeeds :
      {s : Shell} {m : Memory} (ch : ℕ)
      → IsValid s m
      → s.line_position < 80
      → Succeeds (plain_key fuel names ch s m)
  unfolding plain_key
  plain_key-Succeeds {s} {m} ch v lt = elim (Bool-cases (ch == 0 || ch == 0xff)) [
    | inl e ↦ rw e ([], s, m, refl, v)
    | inr char ↦ elim (Bool-cases (ch == 0x09)) [
      | inl e ↦ rw (char, e) (tab_key-Succeeds v)
      | inr tab ↦ elim (Bool-cases (ch == 0x7f || ch == 0x08)) [
        | inl e ↦ rw (char, tab, e) (backspace_key-Succeeds v)
        | inr back ↦ elim (Bool-cases (ch == 0x0d || (ch == 0x0a || ch == 0x03))) [
          | inl e ↦ rw (char, tab, back, e) (enter_key-Succeeds ch v)
          | inr line_end ↦
              let (e, v') = normal_key_lem ch v lt (ground arith) in
              rw (char, tab, back, line_end) (_, _, _, e, v')
        ]
      ]
    ]
  ]

  pub func_key-Succeeds :
      {s : Shell} {m : Memory} (ch : ℕ)
      → IsValid s m
      → s.line_position < 80
      → Succeeds (func_key fuel names ch s m)
  unfolding func_key
  func_key-Succeeds {s} {m} ch v lt = elim (Bool-cases (ch == 0x41)) [
    | inl e ↦ rw e (up_key-Succeeds enough v)
    | inr up ↦ elim (Bool-cases (ch == 0x42)) [
      | inl e ↦ rw (up, e) (down_key-Succeeds enough v)
      | inr down ↦ elim (Bool-cases (ch == 0x44)) [
        | inl e ↦ rw (up, down, e) (left_key-Succeeds v)
        | inr left ↦ elim (Bool-cases (ch == 0x43)) [
          | inl e ↦ rw (up, down, left, e) (right_key-Succeeds v)
          | inr right ↦ rw (up, down, left, right) (plain_key-Succeeds ch v lt)
        ]
      ]
    ]
  ]
