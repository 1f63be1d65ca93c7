-- ===== src/Shell/History.antt =====
-- `shell_push_history` of common/shell.c: the line that is entered becomes the newest of the history.
use s_kernel.Common.{
  ℕ, ◌+◌, ◌-◌, ◌<◌, ◌≤◌, ◌≡◌, refl, sym, ◌∙◌, arith, true, false, Bool-cases, inl, inr, ltb, leb,
  ◌==◌, subst, ==_true, ==_false,
}
use s_kernel.Ipc.Base.{is_zero}
use s_kernel.Memory.{Memory, memcmp}
use s_kernel.Memory.Copying.{inside}
use s_kernel.Memory.Comparing.{memcmp_lem}
use s_kernel.Shell.{Shell, cmd_history, line, shift_lines, keep_line, add_history, history_line}
use s_kernel.Shell.Inv.{IsPadded, IsValid, shift_lines_lem, keep_line_lem}

-- Blocks that `sk_memcmp` finds the same.
pub same_of_memcmp :
    (a b n : ℕ) (m : Memory)
    → is_zero (memcmp a b n m) ≡ true
    → (j : ℕ) → j < n
    → m (a + j) ≡ m (b + j)
same_of_memcmp a b n m z j lt = elim (memcmp_lem a b n m) [
  | inl (_, same) ↦ same j lt
  | inr (i, _, (_, differ), result, _) ↦ absurd (ground (arith, result))
]

-- What entering the line leaves: it stands in the last line of the history, which is padded; the
-- bytes outside the history and the other fields of the shell are as before.
pub record Pushed (s : Shell) (m : Memory) (s' : Shell) (m' : Memory) : Type 0 where
  pub newest : (j : ℕ) → j < 80 → m' (cmd_history s (s'.history_count - 1) + j) ≡ m (line s + j)
  pub not_empty : 0 < s'.history_count
  pub count : s'.history_count ≤ 5
  pub rows : (i : ℕ) → i < 5 → IsPadded (cmd_history s i) 80 m'
  pub outside : (a : ℕ) → inside (cmd_history s 0) 400 a ≡ false → m' a ≡ m a
  pub same_self : s'.self ≡ s.self
  pub same_position : s'.line_position ≡ s.line_position
  pub same_cursor : s'.line_curpos ≡ s.line_curpos

module _ {s : Shell} {m : Memory} (v : IsValid s m) where
  -- The line is padded.
  pub line-IsPadded : IsPadded (line s) 80 m
  line-IsPadded j k le lt z = elim (Bool-cases (ltb j s.line_position)) [
    | inl before ↦ absurd (v.text j (ground arith) z)
    | inr behind ↦ v.blank k (ground arith) (omega arith)
  ]

  -- Of a memory that agrees with `m` at the line.
  module _ (m₀ : Memory)
      (same : (a : ℕ) → inside (cmd_history s 0) 400 a ≡ false → m₀ a ≡ m a) where
    kept_there :
        (i j : ℕ) → i < 5 → j < 80 → keep_line i s m₀ (cmd_history s i + j) ≡ m (line s + j)
    kept_there i j lt jt =
        let a = cmd_history s i + j in
        let e : line s + (a - cmd_history s i) ≡ line s + j = omega arith in
        let at_line : m₀ (line s + j) ≡ m (line s + j) = same (line s + j) (ground arith) in
        elim (Bool-cases (ltb j s.line_position)) [
          | inl before ↦ ground (arith, keep_line_lem i s m₀ a lt v.room)
          | inr behind ↦ ground (arith, keep_line_lem i s m₀ a lt v.room, v.blank j)
        ]

    kept_outside :
        (i a : ℕ) → i < 5 → inside (cmd_history s i) 80 a ≡ false → keep_line i s m₀ a ≡ m₀ a
    kept_outside i a lt out = ground (arith, keep_line_lem i s m₀ a lt v.room, v.room)

    kept_row_self : (i : ℕ) → i < 5 → IsPadded (cmd_history s i) 80 (keep_line i s m₀)
    kept_row_self i lt j k le jt z =
        kept_there i k lt jt ∙ line-IsPadded j k le jt (sym (kept_there i j lt (omega arith)) ∙ z)

    kept_row :
        (i r : ℕ)
        → i < 5
        → r < 5
        → IsPadded (cmd_history s r) 80 m₀
        → IsPadded (cmd_history s r) 80 (keep_line i s m₀)
    kept_row i r lt rt p j k le jt z = elim (Bool-cases (r == i)) [
      | inl e ↦
          subst (λ x. IsPadded (cmd_history s x) 80 (keep_line i s m₀)) (sym (==_true r i e))
            (kept_row_self i lt) j k le jt z
      | inr ne ↦
          let differ = ==_false r i ne in
          let at_k = kept_outside i (cmd_history s r + k) lt (ground arith) in
          let at_j = kept_outside i (cmd_history s r + j) lt (ground arith) in
          at_k ∙ p j k le jt (sym at_j ∙ z)
    ]

    kept-Pushed :
        (i : ℕ)
        → i < 5
        → ((r : ℕ) → r < 5 → IsPadded (cmd_history s r) 80 m₀)
        → Pushed s m (record s { history_count = i + 1 }) (keep_line i s m₀)
    kept-Pushed i lt p = record {
      newest = λ j jt. let e : i + 1 - 1 ≡ i = omega arith in rw e (kept_there i j lt jt);
      not_empty = omega arith;
      count = omega arith;
      rows = λ r rt. kept_row i r lt rt (p r rt);
      outside = λ a out. kept_outside i a lt (ground arith) ∙ same a out;
      same_self = refl;
      same_position = refl;
      same_cursor = refl;
    }

  same-Pushed :
      (i : ℕ)
      → i < s.history_count
      → i + 1 ≡ s.history_count
      → is_zero (memcmp (cmd_history s i) (line s) 80 m) ≡ true
      → Pushed s m s m
  same-Pushed i lt last z = record {
    newest = λ j jt.
        let e : s.history_count - 1 ≡ i = omega arith in
        rw e (same_of_memcmp (cmd_history s i) (line s) 80 m z j jt);
    not_empty = omega arith;
    count = v.count;
    rows = v.rows;
    outside = λ a out. refl;
    same_self = refl;
    same_position = refl;
    same_cursor = refl;
  }

  -- The lines above the first have moved down by one.
  shifted_below :
      (r j : ℕ)
      → r < 4
      → j < 80
      → shift_lines 4 0 s m (cmd_history s r + j) ≡ m (cmd_history s (r + 1) + j)
  shifted_below r j lt jt =
      let e : cmd_history s r + j + 80 ≡ cmd_history s (r + 1) + j = omega arith in
      ground (arith, shift_lines_lem 4 0 s m (cmd_history s r + j))

  shifted_out : (a : ℕ) → inside (cmd_history s 0) 320 a ≡ false → shift_lines 4 0 s m a ≡ m a
  shifted_out a out = ground (arith, shift_lines_lem 4 0 s m a)

  shifted_row : (r : ℕ) → r < 5 → IsPadded (cmd_history s r) 80 (shift_lines 4 0 s m)
  shifted_row r lt j k le kt z = elim (Bool-cases (ltb r 4)) [
    | inl low ↦
        shifted_below r k (ground arith) kt
        ∙ v.rows (r + 1) (ground arith) j k le kt
            (sym (shifted_below r j (ground arith) (omega arith)) ∙ z)
    | inr last ↦
        shifted_out (cmd_history s r + k) (ground arith)
        ∙ v.rows r lt j k le kt (sym (shifted_out (cmd_history s r + j) (ground arith)) ∙ z)
  ]

  pub add_history-Pushed : Pushed s m (add_history s m).0 (add_history s m).1
  unfolding add_history
  add_history-Pushed = elim (Bool-cases (leb history_line s.history_count)) [
    | inl full ↦ elim (Bool-cases (is_zero (memcmp (cmd_history s 4) (line s) 80 m))) [
      | inl again ↦ rw (full, again) (same-Pushed 4 (ground arith) (ground (arith, v.count)) again)
      | inr new ↦
          rw (full, new)
            (kept-Pushed (shift_lines 4 0 s m) (λ a out. shifted_out a (ground arith)) 4
              (omega arith) shifted_row)
    ]
    | inr space ↦ elim (Bool-cases (s.history_count == 0)) [
      | inl first ↦
          rw (space, first) (kept-Pushed m (λ a out. refl) s.history_count (ground arith) v.rows)
      | inr more ↦
          let i = s.history_count - 1 in
          elim (Bool-cases (is_zero (memcmp (cmd_history s i) (line s) 80 m))) [
            | inl again ↦
                rw (space, more, again) (same-Pushed i (ground arith) (ground arith) again)
            | inr new ↦
                rw (space, more, new)
                  (kept-Pushed m (λ a out. refl) s.history_count (ground arith) v.rows)
          ]
    ]
  ]
