-- ===== src/Shell/Inv.antt =====
-- common/shell.c: what holds of the shell between two characters, and the memory of the history.
use s_kernel.Common.{
  ℕ, zero, suc, ◌+◌, ◌-◌, ◌*◌, ◌<◌, ◌≤◌, ◌≡◌, ◌≢◌, arith, Bool-cases, inl, inr, ◌==◌, if◌then◌else◌,
  ==_true, ==_false,
}
use s_kernel.Memory.{Memory, memset, memcpy}
use s_kernel.Memory.Copying.{inside, memcpy_lem, memset_lem}
use s_kernel.Shell.{Shell, cmd_history, line, shift_lines, keep_line}

-- The `n` bytes at `a` are text and then zeros.
abbrev pub IsPadded : ℕ → ℕ → Memory → Type 0
IsPadded a n m = (j k : ℕ) → j ≤ k → k < n → m (a + j) ≡ 0 → m (a + k) ≡ 0

-- Between two characters the line is text that zeros follow, with room for its end, the cursor lies in
-- it, and each line of the history is text that zeros follow.
pub record IsValid (s : Shell) (m : Memory) : Type 0 where
  pub text : (j : ℕ) → j < s.line_position → m (line s + j) ≢ 0
  pub blank : (j : ℕ) → s.line_position ≤ j → j ≤ 80 → m (line s + j) ≡ 0
  pub room : s.line_position ≤ 80
  pub cursor : s.line_curpos ≤ s.line_position
  pub rows : (i : ℕ) → i < 5 → IsPadded (cmd_history s i) 80 m
  pub count : s.history_count ≤ 5
  pub current : s.current_history ≤ s.history_count

-- The length of the text of a padded block.
pub padded_length :
    (n a : ℕ) (m : Memory)
    → IsPadded a n m
    → (len : ℕ) × (len ≤ n)
      × ((j : ℕ) → j < len → m (a + j) ≢ 0)
      × ((j : ℕ) → len ≤ j → j < n → m (a + j) ≡ 0)
padded_length zero a m h =
    (0, omega arith, λ j lt. absurd (omega arith), λ j le lt. absurd (omega arith))
padded_length (suc n) a m h =
    let (len, le, text, blank) = padded_length n a m (λ j k le lt. h j k le (omega arith)) in
    elim (Bool-cases (len == n)) [
      | inr ne ↦ (
        len,
        omega arith,
        text,
        λ j lo hi. h len j lo hi (blank len (omega arith) (ground arith)),
      )
      | inl e ↦ elim (Bool-cases (m (a + n) == 0)) [
        | inl z ↦ (
          n,
          omega arith,
          λ j lt. text j (ground (arith, ==_true len n e)),
          λ j lo hi. let at : j ≡ n = omega arith in rw at (==_true _ _ z),
        )
        | inr nz ↦ (
          suc n,
          omega arith,
          λ j lt. elim (Bool-cases (j == n)) [
            | inl at ↦ rw (==_true j n at) (==_false _ _ nz)
            | inr before ↦ text j (ground arith)
          ],
          λ j lo hi. absurd (omega arith),
        )
      ]
    ]

-- The loop of `shell_push_history` moves the lines above `i` down by one, and no other byte.
pub shift_lines_lem :
    (n i : ℕ) (s : Shell) (m : Memory) (a : ℕ)
    → shift_lines n i s m a ≡ (if inside (cmd_history s i) (n * 80) a then m (a + 80) else m a)
unfolding shift_lines
shift_lines_lem zero i s m a = ground arith
shift_lines_lem (suc n) i s m a =
    let d = cmd_history s i in
    let src = cmd_history s (i + 1) in
    let m' = memcpy d src 80 m in
    ground (
      arith,
      shift_lines_lem n (i + 1) s m' a,
      memcpy_lem d src 80 m a,
      memcpy_lem d src 80 m (a + 80),
    )

-- The history at `i` becomes the line and zeros behind it.
pub keep_line_lem :
    (i : ℕ) (s : Shell) (m : Memory) (a : ℕ)
    → i < 5
    → s.line_position ≤ 80
    → keep_line i s m a ≡ (
        if inside (cmd_history s i) s.line_position a
        then m (line s + (a - cmd_history s i))
        else if inside (cmd_history s i) 80 a
        then 0
        else m a)
unfolding keep_line
keep_line_lem i s m a lt room =
    let d = cmd_history s i in
    let m' = memset d 0 80 m in
    ground (
      arith,
      memcpy_lem d (line s) s.line_position m' a,
      memset_lem d 0 80 m a,
      memset_lem d 0 80 m (line s + (a - d)),
    )
