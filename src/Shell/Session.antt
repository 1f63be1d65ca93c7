-- ===== src/Shell/Session.antt =====
-- What a session of keys at the shell of common/shell.c does.
use s_kernel.Common.{
  ℕ, ◌+◌, ◌*◌, ◌<◌, ◌≤◌, ◌≡◌, ◌≢◌, refl, sym, ◌∙◌, arith, Bool, true, false, ◌||◌, Bool-cases, inl,
  inr, ◌==◌, ap, if◌then◌else◌, none, some, List, [], ◌∷◌, ◌++◌, map, ap₂, not, length, tabulate,
  tabulate-add, tabulate-congr, append_assoc, append-nil,
}
use s_kernel.Kernel.{null}
use s_kernel.Memory.{Memory, memset, store}
use s_kernel.Memory.Copying.{memset_lem}
use s_kernel.Shell.{Shell, Action, line, wait_normal, wait_spec_key, wait_func_key, InputStat}
use s_kernel.Shell.Keys.{normal_key, plain_key, func_key, key, keys, set_line}
use s_kernel.Shell.Setup.{cleared, system_init}
use s_kernel.Shell.Inv.{IsValid}
use s_kernel.Shell.Editing.{Succeeds, stat-IsValid, u16_small}
use s_kernel.Shell.Typing.{plain_key-Succeeds, func_key-Succeeds, normal_key_lem}

-- Whatever the character, in each state of an escape sequence: where the line has room for one more
-- character the code handles it, writes nowhere behind the line and leaves a valid shell.
pub key-IsValid :
    {fuel : ℕ} {s : Shell} {m : Memory} (names : List ℕ) (ch : ℕ)
    → 80 < fuel
    → IsValid s m
    → s.line_position < 80
    → Succeeds (key fuel names ch s m)
unfolding key
key-IsValid {fuel} {s} {m} names ch enough v lt = elim (Bool-cases (ch == 0x1b)) [
  | inl e ↦ rw e ([], _, m, refl, stat-IsValid wait_spec_key v)
  | inr ne ↦ rw ne (by_stat s.stat)
]
  where
    by_stat :
        (t : InputStat)
        → Succeeds (elim t [
          | wait_spec_key ↦
              if ch == 0x5b
              then some ([], record s { stat = wait_func_key }, m)
              else plain_key fuel names ch (record s { stat = wait_normal }) m
          | wait_func_key ↦ func_key fuel names ch (record s { stat = wait_normal }) m
          | wait_normal ↦ plain_key fuel names ch s m
        ])
    by_stat wait_normal = plain_key-Succeeds enough names ch v lt
    by_stat wait_func_key = func_key-Succeeds enough names ch (stat-IsValid wait_normal v) lt
    by_stat wait_spec_key = elim (Bool-cases (ch == 0x5b)) [
      | inl e ↦ rw e ([], _, m, refl, stat-IsValid wait_func_key v)
      | inr ne ↦ rw ne (plain_key-Succeeds enough names ch (stat-IsValid wait_normal v) lt)
    ]

-- The shell starts valid.
pub system_init-IsValid :
    (self : ℕ) (m : Memory)
    → self ≢ null
    → (s : Shell) × (m' : Memory) × (system_init self m ≡ some (s, m')) × IsValid s m'
unfolding system_init
system_init-IsValid self m there =
    let zeros = λ (a : ℕ) (lo : self ≤ a) (hi : a < self + 504).
      let e : memset self 0 504 m a ≡ 0 = ground (arith, memset_lem self 0 504 m a) in e in
    let known : (self == null) ≡ false = ground arith in
    (
      cleared self,
      memset self 0 504 m,
      rw known,
      record {
        text = λ j (jt : j < 0). absurd (omega arith);
        blank = λ j lo hi. zeros (self + 410 + j) (omega arith) (omega arith);
        room = omega arith;
        cursor = omega arith;
        rows = λ i lt j k le kt z. zeros (self + 10 + i * 80 + k) (omega arith) (omega arith);
        count = omega arith;
        current = omega arith;
      },
    )

-- The line as text.
abbrev pub text_of : Shell → Memory → List ℕ
text_of s m = tabulate s.line_position (line s) m

-- A character that is none of the keys that the loop treats apart.
abbrev pub is_plain : ℕ → Bool
is_plain ch = not (
    ch == 0
    || ch == 0xff
    || ch == 0x09
    || ch == 0x7f
    || ch == 0x08
    || ch == 0x0d
    || ch == 0x0a
    || ch == 0x03
    || ch == 0x1b)

abbrev pub ArePlain : List ℕ → Type 0
ArePlain [] = Unit {0}
ArePlain (ch ∷ rest) = (is_plain ch ≡ true) × ArePlain rest

key_plain :
    (fuel : ℕ) (s : Shell) (m : Memory) (names : List ℕ) (ch : ℕ)
    → is_plain ch ≡ true
    → s.stat ≡ wait_normal
    → key fuel names ch s m ≡ normal_key ch s m
unfolding key plain_key
key_plain fuel s m names ch p e = ground arith

text_of-store :
    (s : Shell) (m : Memory) (ch : ℕ)
    → tabulate (s.line_position + 1) (line s) (store (line s + s.line_position) ch m)
      ≡ text_of s m ++ (ch ∷ [])
text_of-store s m ch =
    let m' = store (line s + s.line_position) ch m in
    let last : m' (line s + s.line_position) ≡ ch = ground arith in
    tabulate-add s.line_position 1 (line s) m'
    ∙ ap₂ (λ (a b : List ℕ). a ++ b)
        (tabulate-congr s.line_position (line s) m' m (λ k lo hi. ground arith))
        (ap (λ (x : ℕ). x ∷ []) last)

-- A round of the loop, and the rest of the rounds.
pub keys_step :
    (fuel : ℕ) (names : List ℕ) (ch : ℕ) (rest : List ℕ) (s : Shell) (m : Memory) {s' s'' : Shell}
    {m' m'' : Memory} {done later : List Action}
    → key fuel names ch s m ≡ some (done, s', m')
    → keys fuel names rest s' m' ≡ some (later, s'', m'')
    → keys fuel names (ch ∷ rest) s m ≡ some (done ++ later, s'', m'')
unfolding keys
keys_step fuel names ch rest s m e e' = rw (e, keys) (rw (e', keys))

keys_fail :
    (fuel : ℕ) (names : List ℕ) (ch : ℕ) (rest : List ℕ) (s : Shell) (m : Memory) {s' : Shell}
    {m' : Memory} {done : List Action}
    → key fuel names ch s m ≡ some (done, s', m')
    → keys fuel names rest s' m' ≡ none
    → keys fuel names (ch ∷ rest) s m ≡ none
unfolding keys
keys_fail fuel names ch rest s m e e' = rw (e, keys) (rw (e', keys))

-- Plain characters that the line has room for are echoed and stand behind its text, wherever the
-- cursor is, which moves on by one for each; the shell stays valid.
pub keys_append :
    (fuel : ℕ) (names chs : List ℕ) {s : Shell} {m : Memory}
    → IsValid s m
    → s.stat ≡ wait_normal
    → ArePlain chs
    → s.line_position + length chs ≤ 80
    → (s' : Shell) × (m' : Memory) × (keys fuel names chs s m
        ≡ some (map (λ c. Action.print (c ∷ [])) chs, s', m'))
      × (text_of s' m' ≡ text_of s m ++ chs)
      × (s'.line_curpos ≡ s.line_curpos + length chs)
      × IsValid s' m'
unfolding keys
keys_append fuel names [] {s} {m} v e p le =
    (s, m, refl, sym (append-nil (text_of s m)), omega arith, v)
keys_append fuel names (ch ∷ chs) {s} {m} v e p le =
    let (typed, v') = normal_key_lem ch v (omega arith) (ground (arith, p.0)) in
    let (s', m', later, text, cursor, v'') = keys_append fuel names chs v' e p.1 (omega arith) in
    let first = key_plain fuel s m names ch p.0 e ∙ typed in
    (
      s',
      m',
      keys_step fuel names ch chs s m first later,
      text
          ∙ ap (λ (l : List ℕ). l ++ chs) (text_of-store s m ch)
          ∙ append_assoc (text_of s m) (ch ∷ []) chs,
      omega (arith, cursor),
      v'',
    )

full_key :
    (s : Shell) (m : Memory) (c : ℕ)
    → s.line_position ≡ 80
    → s.line_curpos ≤ 80
    → normal_key c s m
      ≡ some (
        Action.print (c ∷ []) ∷ [],
        record s { line_curpos = s.line_curpos + 1; line_position = 81 },
        store (line s + 80) c m,
      )
unfolding normal_key set_line
full_key s m c full le = ground (arith, u16_small (s.line_curpos + 1) (omega arith))

overfull_key : (s : Shell) (m : Memory) (c : ℕ) → s.line_position ≡ 81 → normal_key c s m ≡ none
unfolding normal_key set_line
overfull_key s m c over = ground arith

-- The line has no bound: where it has 80 characters, one more is accepted, echoed and stored in place
-- of the terminating byte, and the next one is written behind `shell->line`.
pub keys_overrun :
    (fuel : ℕ) {s : Shell} {m : Memory} (names : List ℕ) (c d : ℕ)
    → IsValid s m
    → s.stat ≡ wait_normal
    → is_plain c ≡ true
    → is_plain d ≡ true
    → s.line_position ≡ 80
    → (key fuel names c s m
        ≡ some (
          Action.print (c ∷ []) ∷ [],
          record s { line_curpos = s.line_curpos + 1; line_position = 81 },
          store (line s + 80) c m,
        ))
      × (keys fuel names (c ∷ d ∷ []) s m ≡ none)
unfolding keys
keys_overrun fuel {s} {m} names c d v e p q full =
    let s₁ : Shell = record s { line_curpos = s.line_curpos + 1; line_position = 81 } in
    let m₁ = store (line s + 80) c m in
    let first = key_plain fuel s m names c p e ∙ full_key s m c full (omega (arith, v.cursor)) in
    let second = key_plain fuel s₁ m₁ names d q e ∙ overfull_key s₁ m₁ d refl in
    (first, keys_fail fuel names c (d ∷ []) s m first (rw (second, keys)))
