-- ===== src/Interrupt/Starting.antt =====
-- `gic_dist_init` of arch/aarch64/src/interrupt.c: what the registers of the distributor are set to.
use s_kernel.Common.{
  ℕ, zero, suc, ◌+◌, ◌-◌, ◌*◌, ◌/◌, ◌<◌, ◌≤◌, ◌≡◌, ◌≢◌, refl, ◌∙◌, arith, true, Option, none, some,
  List, [], ◌∷◌, ltb, ◌==◌, if◌then◌else◌,
}
use s_kernel.Interrupt.{
  Gic, write, write_from, max_irq, configure, gic_dist_init, dist_ctrl, dist_igroup,
  dist_enable_clear, dist_pri, dist_target, dist_config,
}

-- The value that was written last to the address.
abbrev pub last : ℕ → List (ℕ × ℕ) → Option ℕ
last a [] = none
last a ((b, value) ∷ older) = if b == a then some value else last a older

module _ (max step : ℕ) (reg : ℕ → ℕ) (value a : ℕ) where
  write_from_keeps :
      (fuel i : ℕ) (g : Gic)
      → last a g.writes ≡ some value
      → last a (write_from fuel i max step reg value g).writes ≡ some value
  unfolding write_from
  write_from_keeps zero i g h = h
  write_from_keeps (suc fuel) i g h =
      ground (arith, write_from_keeps fuel (i + step) (write (reg i) value g))

  -- The round for the index `i + t * step` writes the register.
  write_from_hits :
      (fuel i t : ℕ) (g : Gic)
      → t < fuel
      → i + t * step < max
      → reg (i + t * step) ≡ a
      → last a (write_from fuel i max step reg value g).writes ≡ some value
  unfolding write_from
  write_from_hits zero i t g lt below e = absurd (omega arith)
  write_from_hits (suc fuel) i zero g lt below e =
      let at : i + 0 * step ≡ i = omega arith in
      let now : reg i ≡ a = rw (← at) e in
      ground (arith, write_from_keeps fuel (i + step) (write (reg i) value g))
  write_from_hits (suc fuel) i (suc t) g lt below e =
      let at : i + suc t * step ≡ i + step + t * step = grind arith in
      let later : last a
            (write_from fuel (i + step) max step reg value (write (reg i) value g)).writes
          ≡ some value =
        write_from_hits fuel (i + step) t (write (reg i) value g) (omega arith) (rw (← at) below)
          (rw (← at) e) in
      let first : ltb i max ≡ true = ground (arith, at) in rw first later

  write_from_misses :
      (fuel i : ℕ) (g : Gic)
      → ((j : ℕ) → j < max → reg j ≢ a)
      → last a (write_from fuel i max step reg value g).writes ≡ last a g.writes
  unfolding write_from
  write_from_misses zero i g h = refl
  write_from_misses (suc fuel) i g h =
      ground (arith, write_from_misses fuel (i + step) (write (reg i) value g) h, h i)

-- What the loops of `gic_dist_init` set for the interrupt `n`, and that they leave the control register.
pub record IsConfigured (base n : ℕ) (writes : List (ℕ × ℕ)) : Type 0 where
  pub pri : last (dist_pri base n) writes ≡ some 0xa0a0a0a0
  pub enable : last (dist_enable_clear base n) writes ≡ some 0xffffffff
  pub igroup : last (dist_igroup base n) writes ≡ some 0
  pub config : 32 ≤ n → last (dist_config base n) writes ≡ some 0
  pub target : 32 ≤ n → last (dist_target base n) writes ≡ some 0x01010101

module _ (base max : ℕ) (small : max ≤ 1020) (g : Gic) where
  configure-ctrl :
      last (dist_ctrl base) (configure base max g).writes ≡ last (dist_ctrl base) g.writes
  unfolding configure
  configure-ctrl =
      let a = dist_ctrl base in
      let g₁ = write_from max 32 max 16 (dist_config base) 0 g in
      let g₂ = write_from max 32 max 4 (dist_target base) 0x01010101 g₁ in
      let g₃ = write_from max 0 max 4 (dist_pri base) 0xa0a0a0a0 g₂ in
      let g₄ = write_from max 0 max 32 (dist_enable_clear base) 0xffffffff g₃ in
      write_from_misses max 32 (dist_igroup base) 0 a max 0 g₄ (λ j lt e. omega arith)
      ∙ write_from_misses max 32 (dist_enable_clear base) 0xffffffff a max 0 g₃
          (λ j lt e. omega arith)
      ∙ write_from_misses max 4 (dist_pri base) 0xa0a0a0a0 a max 0 g₂ (λ j lt e. omega arith)
      ∙ write_from_misses max 4 (dist_target base) 0x01010101 a max 32 g₁ (λ j lt e. omega arith)
      ∙ write_from_misses max 16 (dist_config base) 0 a max 32 g (λ j lt e. omega arith)

  configure-IsConfigured : (n : ℕ) → n < max → IsConfigured base n (configure base max g).writes
  unfolding configure
  configure-IsConfigured n below =
      let g₁ = write_from max 32 max 16 (dist_config base) 0 g in
      let g₂ = write_from max 32 max 4 (dist_target base) 0x01010101 g₁ in
      let g₃ = write_from max 0 max 4 (dist_pri base) 0xa0a0a0a0 g₂ in
      let g₄ = write_from max 0 max 32 (dist_enable_clear base) 0xffffffff g₃ in
      let past₅ = λ (a : ℕ) (far : base + 0x100 ≤ a).
        write_from_misses max 32 (dist_igroup base) 0 a max 0 g₄ (λ j lt e. omega arith) in
      let past₄ = λ (a : ℕ) (far : base + 0x400 ≤ a).
        past₅ a (omega arith)
        ∙ write_from_misses max 32 (dist_enable_clear base) 0xffffffff a max 0 g₃
            (λ j lt e. omega arith) in
      let past₃ = λ (a : ℕ) (far : base + 0x800 ≤ a).
        past₄ a (omega arith)
        ∙ write_from_misses max 4 (dist_pri base) 0xa0a0a0a0 a max 0 g₂ (λ j lt e. omega arith) in
      let past₂ = λ (a : ℕ) (far : base + 0xC00 ≤ a).
        past₃ a (omega arith)
        ∙ write_from_misses max 4 (dist_target base) 0x01010101 a max 32 g₁
            (λ j lt e. omega arith) in
      record {
        igroup =
            write_from_hits max 32 (dist_igroup base) 0 (dist_igroup base n) max 0 (n / 32) g₄
              (omega arith) (omega arith) (omega arith);
        enable =
            past₅ (dist_enable_clear base n) (omega arith)
            ∙ write_from_hits max 32 (dist_enable_clear base) 0xffffffff (dist_enable_clear base n)
                max 0 (n / 32) g₃ (omega arith) (omega arith) (omega arith);
        pri =
            past₄ (dist_pri base n) (omega arith)
            ∙ write_from_hits max 4 (dist_pri base) 0xa0a0a0a0 (dist_pri base n) max 0 (n / 4) g₂
                (omega arith) (omega arith) (omega arith);
        target = λ le.
            past₃ (dist_target base n) (omega arith)
            ∙ write_from_hits max 4 (dist_target base) 0x01010101 (dist_target base n) max 32
                (n / 4 - 8) g₁ (omega arith) (omega arith) (omega arith);
        config = λ le.
            past₂ (dist_config base n) (omega arith)
            ∙ write_from_hits max 16 (dist_config base) 0 (dist_config base n) max 32 (n / 16 - 2) g
                (omega arith) (omega arith) (omega arith);
      }

-- Whatever number of interrupts the controller reports, for each of them that it can have the registers
-- get, before the last write, the priority 0xa0, disabled, group 0, and from 32 on level triggered and
-- the first processor; up to then the distributor is off, and the last write turns it on.
pub gic_dist_init_lem :
    (gic_type base start : ℕ) (g : Gic)
    → (before : List (ℕ × ℕ)) × ((gic_dist_init gic_type base start g).writes
        ≡ (dist_ctrl base, 1) ∷ before)
      × (last (dist_ctrl base) before ≡ some 0)
      × ((n : ℕ) → n < max_irq gic_type → IsConfigured base n before)
unfolding gic_dist_init
gic_dist_init_lem gic_type base start g =
    let g₀ = write (dist_ctrl base) 0 (record g { dist_base = base; offset = start }) in
    let max = max_irq gic_type in
    let off : last (dist_ctrl base) g₀.writes ≡ some 0 = ground arith in
    (
      (configure base max g₀).writes,
      refl,
      configure-ctrl base max (omega arith) g₀ ∙ off,
      λ n below. configure-IsConfigured base max (omega arith) g₀ n below,
    )
