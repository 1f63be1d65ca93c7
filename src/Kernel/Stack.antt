-- ===== src/Kernel/Stack.antt =====
-- `__thread_stack_init` of thread/thread.c: the registers that the first switch to a thread loads. A stack is
-- the 64-bit word at each address.
use s_kernel.Common.{
  ℕ, zero, suc, ◌+◌, ◌-◌, ◌*◌, ◌<◌, ◌≤◌, ◌≡◌, ◌⊎◌, refl, ap, ◌∙◌, inl, arith, List, [], ◌∷◌, length,
  get_or, ◌==◌, if◌then◌else◌,
}

abbrev pub Words : Type 0
Words = ℕ → ℕ

-- `*(--stk) = word`, for each word in turn: the last value of `stk` and the stack.
unfoldable pub push : List ℕ → ℕ → Words → ℕ × Words
push [] stk m = (stk, m)
push (word ∷ rest) stk m = push rest (stk - 8) (λ a. if a == stk - 8 then word else m a)

-- INITIAL_SPSR_EL1
abbrev pub initial_spsr : ℕ
initial_spsr = 0x04

-- What the function pushes.
abbrev pub frame : ℕ → ℕ → ℕ → List ℕ
frame entry param exit =
    11 ∷ param ∷ 33 ∷ 22 ∷ 55 ∷ 44 ∷ 77 ∷ 66 ∷ 99 ∷ 88 ∷ 11 ∷ 10 ∷ 13 ∷ 12 ∷ 15 ∷ 14 ∷ 17 ∷ 16 ∷ 19
    ∷ 18 ∷ 21 ∷ 20 ∷ 23 ∷ 22 ∷ 25 ∷ 24 ∷ 27 ∷ 26 ∷ 29 ∷ 28 ∷ 0 ∷ exit ∷ initial_spsr ∷ entry ∷ []

-- `__thread_stack_init`
unfoldable pub stack_init : ℕ → ℕ → ℕ → ℕ → Words → ℕ × Words
unfolding push
stack_init entry param stack_addr exit m = push (frame entry param exit) stack_addr m

push_frame :
    (ws : List ℕ) (stk : ℕ) (m : Words) (a : ℕ)
    → 8 * length ws ≤ stk
    → (stk ≤ a) ⊎ (a < stk - 8 * length ws)
    → (push ws stk m).1 a ≡ m a
unfolding push
push_frame [] stk m a le out = refl
push_frame (w ∷ ws) stk m a le out =
    push_frame ws (stk - 8) (λ x. if x == stk - 8 then w else m x) a (omega arith) (omega arith)
    ∙ ground arith

push_there :
    (ws : List ℕ) (stk : ℕ) (m : Words) (i : ℕ)
    → 8 * length ws ≤ stk
    → i < length ws
    → (push ws stk m).1 (stk - 8 * (i + 1)) ≡ get_or ws i 0
unfolding push
push_there [] stk m i le lt = absurd (omega arith)
push_there (w ∷ ws) stk m zero le lt =
    push_frame ws (stk - 8) (λ x. if x == stk - 8 then w else m x) (stk - 8 * (0 + 1)) (omega arith)
      (inl (omega arith))
    ∙ ground arith
push_there (w ∷ ws) stk m (suc i) le lt =
    let at : stk - 8 * (suc i + 1) ≡ stk - 8 - 8 * (i + 1) = omega arith in
    rw at
      (push_there ws (stk - 8) (λ x. if x == stk - 8 then w else m x) i (omega arith) (omega arith))

push_pointer :
    (ws : List ℕ) (stk : ℕ) (m : Words)
    → 8 * length ws ≤ stk
    → (push ws stk m).0 ≡ stk - 8 * length ws
unfolding push
push_pointer [] stk m le = omega arith
push_pointer (w ∷ ws) stk m le =
    push_pointer ws (stk - 8) (λ x. if x == stk - 8 then w else m x) (omega arith) ∙ omega arith

-- On a stack with room for 34 words, the stack pointer ends 34 words below; from there up stand the
-- entry, the state register, the exit function as the return address, and in the last word but one the
-- parameter, and no word outside these changes.
pub stack_init_lem :
    (entry param stack_addr exit : ℕ) (m : Words)
    → 272 ≤ stack_addr
    → let (sp, m') = stack_init entry param stack_addr exit m in
      (sp ≡ stack_addr - 272)
      × (m' sp ≡ entry)
      × (m' (sp + 8) ≡ initial_spsr)
      × (m' (sp + 16) ≡ exit)
      × (m' (sp + 256) ≡ param)
      × ((a : ℕ) → (stack_addr ≤ a) ⊎ (a < sp) → m' a ≡ m a)
unfolding stack_init
stack_init_lem entry param stack_addr exit m le =
    let ws = frame entry param exit in
    let sp_lem = push_pointer ws stack_addr m le in
    let m' = (push ws stack_addr m).1 in
    let at = λ (i x : ℕ) (lt : i < 34) (e : x ≡ stack_addr - 8 * (i + 1)).
      ap m' e ∙ push_there ws stack_addr m i le lt in
    (
      sp_lem,
      at 33 _ (omega arith) (omega (arith, sp_lem)),
      at 32 _ (omega arith) (omega (arith, sp_lem)),
      at 31 _ (omega arith) (omega (arith, sp_lem)),
      at 1 _ (omega arith) (omega (arith, sp_lem)),
      λ a out. push_frame ws stack_addr m a le (omega (arith, sp_lem)),
    )
