-- ===== src/Shell/Editing.antt =====
-- The keys of common/shell.c keep the shell valid.
use s_kernel.Common.{
  ℕ, ◌+◌, ◌-◌, ◌<◌, ◌≤◌, ◌≡◌, ◌≢◌, refl, sym, ◌∙◌, arith, true, Bool-cases, inl, inr, ltb, ◌==◌,
  ==_true, some, List, [],
}
use s_kernel.Memory.{Memory, memcpy, strlen}
use s_kernel.Memory.Copying.{inside, memcpy_lem}
use s_kernel.Memory.Strings.{IsString, strlen_lem}
use s_kernel.Shell.{Shell, Action, cmd_history, line, handle_history, InputStat, u16}
use s_kernel.Shell.Keys.{Result, recall, up_key, down_key}
use s_kernel.Shell.Inv.{IsPadded, IsValid, padded_length}

-- The code ends with a valid shell.
abbrev pub Succeeds : Result → Type 0
Succeeds r =
    (done : List Action) × (s : Shell) × (m : Memory) × (r ≡ some (done, s, m)) × IsValid s m

-- The lines of the history in a memory that has the same bytes there.
pub rows_kept :
    {s : Shell} {m : Memory} (m' : Memory)
    → IsValid s m
    → ((a : ℕ) → inside (cmd_history s 0) 400 a ≡ true → m' a ≡ m a)
    → (i : ℕ) → i < 5
    → IsPadded (cmd_history s i) 80 m'
rows_kept {s} m' v same i lt j k le kt z =
    let at_j = same (cmd_history s i + j) (ground arith) in
    let at_k = same (cmd_history s i + k) (ground arith) in
    at_k ∙ v.rows i lt j k le kt (sym at_j ∙ z)

pub stat-IsValid :
    {s : Shell} {m : Memory} (stat : InputStat) → IsValid s m → IsValid (record s { stat = stat }) m
stat-IsValid stat v = record {
  text = v.text;
  blank = v.blank;
  room = v.room;
  cursor = v.cursor;
  rows = v.rows;
  count = v.count;
  current = v.current;
}

pub moved-IsValid :
    {s : Shell} {m : Memory} (c : ℕ)
    → c ≤ s.line_position
    → IsValid s m
    → IsValid (record s { line_curpos = c }) m
moved-IsValid c le v = record {
  text = v.text;
  blank = v.blank;
  room = v.room;
  cursor = le;
  rows = v.rows;
  count = v.count;
  current = v.current;
}

pub chosen-IsValid :
    {s : Shell} {m : Memory} (i : ℕ)
    → i ≤ s.history_count
    → IsValid s m
    → IsValid (record s { current_history = i }) m
chosen-IsValid i le v = record {
  text = v.text;
  blank = v.blank;
  room = v.room;
  cursor = v.cursor;
  rows = v.rows;
  count = v.count;
  current = le;
}

pub u16_small : (n : ℕ) → n ≤ 81 → u16 n ≡ n
u16_small n le = omega arith

-- The length of the line.
pub line-IsString : {s : Shell} {m : Memory} → IsValid s m → IsString (line s) s.line_position m
line-IsString {s} v = (v.text, v.blank s.line_position (omega arith) v.room)

module _ {fuel : ℕ} (enough : 80 < fuel) where
  -- The line `i` of the history becomes the line: its text and the length of its text.
  pub recall_lem :
      {s : Shell} {m : Memory}
      → IsValid s m
      → s.current_history < 5
      → (len : ℕ) → len ≤ 80
      → ((j : ℕ) → j < len → m (cmd_history s s.current_history + j) ≢ 0)
      → ((j : ℕ) → len ≤ j → j < 80 → m (cmd_history s s.current_history + j) ≡ 0)
      → let m' = memcpy (line s) (cmd_history s s.current_history) 80 m in
        let s' : Shell = record s { line_position = len; line_curpos = len } in
        (recall fuel s m ≡ some (handle_history fuel s m', s', m')) × IsValid s' m'
  unfolding recall
  recall_lem {s} {m} v lt len le text blank =
      let src = cmd_history s s.current_history in
      let m' = memcpy (line s) src 80 m in
      let copied : (j : ℕ) → j < 80 → m' (line s + j) ≡ m (src + j) = λ j jt.
        let e : src + (line s + j - line s) ≡ src + j = omega arith in
        ground (arith, memcpy_lem (line s) src 80 m (line s + j)) in
      let end : m' (line s + 80) ≡ 0 =
        ground
          (arith, memcpy_lem (line s) src 80 m (line s + 80), v.blank 80 v.room (omega arith)) in
      let text' : (j : ℕ) → j < len → m' (line s + j) ≢ 0 =
        λ j jt z. text j jt (sym (copied j (omega arith)) ∙ z) in
      let blank' : (j : ℕ) → len ≤ j → j ≤ 80 → m' (line s + j) ≡ 0 = λ j lo hi.
        elim (Bool-cases (j == 80)) [
          | inl e ↦ let at : j ≡ 80 = ==_true j 80 e in rw at end
          | inr ne ↦ let less : j < 80 = ground arith in copied j less ∙ blank j lo less
        ] in
      let found : strlen fuel (line s) m' ≡ len =
        strlen_lem fuel (line s) len m' (text', blank' len (omega arith) le) (omega arith) in
      (
        rw (found, u16_small len (omega arith)),
        record {
          text = text';
          blank = blank';
          room = le;
          cursor = omega arith;
          rows = rows_kept m' v (λ a out. ground (arith, memcpy_lem (line s) src 80 m a));
          count = v.count;
          current = v.current;
        },
      )

  recall-Succeeds :
      {s : Shell} {m : Memory} → IsValid s m → s.current_history < 5 → Succeeds (recall fuel s m)
  recall-Succeeds {s} {m} v lt =
      let (len, le, text, blank) =
        padded_length 80 (cmd_history s s.current_history) m (v.rows _ lt) in
      let (e, v') = recall_lem v lt len le text blank in (_, _, _, e, v')

  pub up_key-Succeeds : {s : Shell} {m : Memory} → IsValid s m → Succeeds (up_key fuel s m)
  unfolding up_key
  up_key-Succeeds {s} {m} v = elim (Bool-cases (ltb 0 s.current_history)) [
    | inl more ↦ rw more (
        recall-Succeeds (chosen-IsValid (s.current_history - 1) (omega (arith, v.current)) v)
          (ground (arith, v.current, v.count)))
    | inr first ↦ rw first ([], _, m, refl, chosen-IsValid 0 (omega arith) v)
  ]

  pub down_key-Succeeds : {s : Shell} {m : Memory} → IsValid s m → Succeeds (down_key fuel s m)
  unfolding down_key
  down_key-Succeeds {s} {m} v = elim (Bool-cases (ltb (s.current_history + 1) s.history_count)) [
    | inl more ↦ rw more (
        recall-Succeeds (chosen-IsValid (s.current_history + 1) (ground arith) v)
          (ground (arith, v.count)))
    | inr last ↦ elim (Bool-cases (s.history_count == 0)) [
      | inl none_there ↦ rw (last, none_there) ([], s, m, refl, v)
      | inr some_there ↦
          rw (last, some_there)
            (recall-Succeeds (chosen-IsValid (s.history_count - 1) (omega arith) v)
              (ground (arith, v.count)))
    ]
  ]
