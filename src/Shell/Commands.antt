-- ===== src/Shell/Commands.antt =====
-- `shell_exec` of common/shell.c: which command a line calls.
use s_kernel.Common.{
  ℕ, zero, suc, ◌+◌, ◌-◌, ◌<◌, ◌≤◌, ◌≡◌, ◌⊎◌, refl, sym, ◌∙◌, arith, Bool, true, false, ◌||◌,
  Bool-cases, inl, inr, ◌==◌, ap, ==_true, ==_false, none, some, List, [], ◌∷◌,
}
use s_kernel.Memory.{Memory, strncmp}
use s_kernel.Memory.Comparing.{AgreeUpTo, IsBytes, strcmp_lem, strncmp-eq-strcmp}
use s_kernel.Shell.{Action, skip_blanks, find_command, exec}

abbrev is_blank : ℕ → Bool
is_blank c = c == 0x20 || c == 0x09

-- The command `i` of the table is the first one whose name agrees with the `len` bytes at `cmd`, up to
-- a terminating byte of these.
abbrev pub FirstCommand : List ℕ → ℕ → ℕ → ℕ → Memory → Type 0
FirstCommand [] i cmd len m = ⊥
FirstCommand (name ∷ names) zero cmd len m = AgreeUpTo name cmd len m
FirstCommand (name ∷ names) (suc i) cmd len m =
    (¬ AgreeUpTo name cmd len m) × FirstCommand names i cmd len m

-- No name of the table agrees.
abbrev pub NoCommand : List ℕ → ℕ → ℕ → Memory → Type 0
NoCommand [] cmd len m = Unit {0}
NoCommand (name ∷ names) cmd len m = (¬ AgreeUpTo name cmd len m) × NoCommand names cmd len m

-- The first `k` bytes of a command are blank, and no more.
pub record Blanks (k cmd len : ℕ) (m : Memory) : Type 0 where
  pub within : k ≤ len
  pub blank : (j : ℕ) → j < k → is_blank (m (cmd + j)) ≡ true
  pub stop : k < len → is_blank (m (cmd + k)) ≡ false

skip_blanks_lem :
    (cmd len : ℕ) (m : Memory)
    → (k : ℕ) × (skip_blanks cmd len m ≡ (cmd + k, len - k)) × Blanks k cmd len m
unfolding skip_blanks
skip_blanks_lem cmd zero m = (
  0,
  ground arith,
  record {
    within = omega arith;
    blank = λ j (lt : j < 0). absurd (omega arith);
    stop = λ (lt : 0 < 0). absurd (omega arith);
  },
)
skip_blanks_lem cmd (suc len) m = elim (Bool-cases (is_blank (m cmd))) [
  | inl e ↦
      let (k, rest, b) = skip_blanks_lem (cmd + 1) len m in
      (
        k + 1,
        rw (e, rest) (ground arith),
        record {
          within = omega (arith, b.within);
          blank = λ j lt. next_blank k j e b.blank lt;
          stop = λ lt.
              let at : cmd + 1 + k ≡ cmd + (k + 1) = omega arith in
              rw (← at) (b.stop (omega arith));
        },
      )
  | inr ne ↦ (
    0,
    rw ne (ground arith),
    record {
      within = omega arith;
      blank = λ j (lt : j < 0). absurd (omega arith);
      stop = λ _. let at : cmd + 0 ≡ cmd = omega arith in rw at ne;
    },
  )
]
  where
    next_blank :
        (k j : ℕ)
        → is_blank (m cmd) ≡ true
        → ((i : ℕ) → i < k → is_blank (m (cmd + 1 + i)) ≡ true)
        → j < k + 1
        → is_blank (m (cmd + j)) ≡ true
    next_blank k zero e b lt = let at : cmd + 0 ≡ cmd = omega arith in rw at e
    next_blank k (suc j) e b lt =
        let at : cmd + 1 + j ≡ cmd + suc j = omega arith in rw (← at) (b j (omega arith))

module _ {m : Memory} (bytes : IsBytes m) where
  agree_of_strncmp : (s t n : ℕ) → (strncmp s t n m == 0) ≡ true → AgreeUpTo s t n m
  agree_of_strncmp s t n e =
      (strcmp_lem bytes s t n).0 (sym (strncmp-eq-strcmp bytes s t n) ∙ ==_true _ _ e)

  differ_of_strncmp : (s t n : ℕ) → (strncmp s t n m == 0) ≡ false → ¬ AgreeUpTo s t n m
  differ_of_strncmp s t n ne a =
      ==_false _ _ ne (strncmp-eq-strcmp bytes s t n ∙ (strcmp_lem bytes s t n).1 a)

  find_command_lem :
      (b : ℕ) (names : List ℕ) (cmd len : ℕ)
      → ((find_command b names cmd len m ≡ none) × NoCommand names cmd len m)
        ⊎ ((i : ℕ) × (find_command b names cmd len m ≡ some (b + i))
            × FirstCommand names i cmd len m)
  unfolding find_command
  find_command_lem b [] cmd len = inl (refl, tt)
  find_command_lem b (name ∷ names) cmd len = elim (Bool-cases (strncmp name cmd len m == 0)) [
    | inl e ↦
        let at : b ≡ b + 0 = omega arith in
        inr (0, rw e (ap some at), agree_of_strncmp name cmd len e)
    | inr ne ↦ elim (find_command_lem (b + 1) names cmd len) [
      | inl (rest, no_command) ↦
          inl (rw (ne, rest), (differ_of_strncmp name cmd len ne, no_command))
      | inr (i, rest, first) ↦
          let at : b + 1 + i ≡ b + (i + 1) = omega arith in
          let later : FirstCommand (name ∷ names) (suc i) cmd len m =
            (differ_of_strncmp name cmd len ne, first) in
          inr (suc i, rw (ne, rest) (ap some (omega arith)), later)
    ]
  ]

  -- Behind its leading blanks, a line that is not all blank calls the first command of the table whose
  -- name agrees with all of the rest of the line, so that a name may be cut short, and nothing else; where
  -- there is no such command the result is -1. A line of blanks does nothing.
  pub exec_lem :
      (fuel : ℕ) (names : List ℕ) (cmd len : ℕ)
      → (k : ℕ) × Blanks k cmd len m
        × ((k ≡ len) × (exec fuel names cmd len m ≡ (0, []))
            ⊎ ((k < len)
                × (i : ℕ) × (exec fuel names cmd len m ≡ (0, Action.call i ∷ []))
                × FirstCommand names i (cmd + k) (len - k) m)
            ⊎ ((k < len)
                × ((exec fuel names cmd len m).0 ≡ 255)
                × NoCommand names (cmd + k) (len - k) m))
  unfolding exec
  exec_lem fuel names cmd len =
      let (k, skipped, b) = skip_blanks_lem cmd len m in
      (
        k,
        b,
        elim (Bool-cases (len - k == 0)) [
          | inl e ↦ inl (ground (arith, b.within), rw (skipped, e))
          | inr ne ↦
              let more : k < len = ground arith in
              elim (find_command_lem 0 names (cmd + k) (len - k)) [
                | inl (found, no_command) ↦ inr (inr (more, rw (skipped, ne, found), no_command))
                | inr (i, found, first) ↦
                    let found' : find_command 0 names (cmd + k) (len - k) m ≡ some i =
                      found ∙ ap some (omega arith) in
                    inr (inl (more, i, rw (skipped, ne, found'), first))
              ]
        ],
      )
