-- ===== src/Vfs/Descriptors.antt =====
-- The table of descriptors.
use s_kernel.Common.{
  ℕ, zero, suc, ◌+◌, ◌-◌, ◌<◌, ◌≤◌, ◌≡◌, ◌≢◌, refl, sym, ap, subst, ◌%◌, ◌^◌, ◌∙◌, arith, true,
  false, Bool-cases, ◌⊎◌, inl, inr, Option, none, some, ltb, leb, ◌==◌, ==_true, ==_false,
  if◌then◌else◌,
}
use s_kernel.Vfs.{
  Descriptor, Vfs, fd_magic, set_fd, vfs_lock, vfs_unlock, alloc_from, fd_alloc, fd_new, get_fd,
  put_fd,
}

-- No descriptor from `i` on and below `k` is free.
abbrev pub AllUsed : {S : Type 0} → ℕ → ℕ → Vfs S → Type 0
AllUsed i k v = (j : ℕ) → i ≤ j → j < k → (v.fds j).file.ref_count ≢ 0

-- The first free descriptor from `i` on and below `k`.
abbrev pub FirstFree : {S : Type 0} → ℕ → ℕ → Vfs S → ℕ → Type 0
FirstFree i k v j = (i ≤ j) × (j < k) × ((v.fds j).file.ref_count ≡ 0) × AllUsed i j v

module _ {S : Type 0} where
  AllUsed-next :
      (i k : ℕ) (v : Vfs S) → (v.fds i).file.ref_count ≢ 0 → AllUsed (i + 1) k v → AllUsed i k v
  AllUsed-next i k v ne used j le lt = elim (Bool-cases (i == j)) [
    | inl e ↦ subst (λ (x : ℕ). (v.fds x).file.ref_count ≢ 0) (==_true i j e) ne
    | inr e ↦ used j (ground arith) lt
  ]

  alloc_from_lem :
      (n i : ℕ) (v : Vfs S)
      → ((alloc_from n i v ≡ none) × AllUsed i (i + n) v)
        ⊎ ((j : ℕ) × (alloc_from n i v ≡ some j) × FirstFree i (i + n) v j)
  unfolding alloc_from
  alloc_from_lem zero i v = inl (refl, λ j l h. absurd (omega arith))
  alloc_from_lem (suc n) i v =
      let more : i + 1 + n ≡ i + suc n = omega arith in
      elim (Bool-cases ((v.fds i).file.ref_count == 0)) [
        | inl e ↦ rw e (
            inr (i, refl, (omega arith, omega arith, ==_true _ _ e, λ j l h. absurd (omega arith))))
        | inr e ↦
            let ne = ==_false (v.fds i).file.ref_count 0 e in
            elim (alloc_from_lem n (i + 1) v) [
              | inl (nothing, used) ↦ rw e (
                  inl (
                    nothing,
                    AllUsed-next i (i + suc n) v ne
                        (subst (λ (k : ℕ). AllUsed (i + 1) k v) more used),
                  ))
              | inr (j, found, (above, below, unused, used)) ↦
                  rw e
                    (inr (j, found, (omega arith, omega arith, unused, AllUsed-next i j v ne used)))
            ]
      ]

  fd_alloc_first : (v : Vfs S) → fd_alloc 0 v ≡ alloc_from v.max_fd 0 v
  unfolding fd_alloc
  fd_alloc_first v =
      let inside : ltb v.max_fd 0 ≡ false = ground arith in
      let all : v.max_fd - 0 ≡ v.max_fd = omega arith in rw (inside, all) refl

  fd_alloc_lem :
      (v : Vfs S)
      → ((fd_alloc 0 v ≡ none) × AllUsed 0 v.max_fd v)
        ⊎ ((j : ℕ) × (fd_alloc 0 v ≡ some j) × FirstFree 0 v.max_fd v j)
  fd_alloc_lem v =
      let all : 0 + v.max_fd ≡ v.max_fd = omega arith in
      rw (fd_alloc_first v) (
        subst
          (λ (n : ℕ).
            ((alloc_from v.max_fd 0 v ≡ none) × AllUsed 0 n v)
            ⊎ ((j : ℕ) × (alloc_from v.max_fd 0 v ≡ some j) × FirstFree 0 n v j))
          all (alloc_from_lem v.max_fd 0 v))

  -- What `sk_fd_new` returns.
  abbrev pub Given : Vfs S → Option ℕ × Vfs S → Type 0
  Given v (result, v') =
      ((result ≡ none) × AllUsed 0 v.max_fd v × (v'.fds ≡ v.fds))
      ⊎ ((i : ℕ) × (result ≡ some i)
          × FirstFree 0 v.max_fd v i
          × ((v'.fds i).file.ref_count ≡ 1)
          × ((v'.fds i).file.magic ≡ fd_magic)
          × ((j : ℕ) → j ≢ i → v'.fds j ≡ v.fds j))

  -- `sk_fd_new` on a table with `max_fd` descriptors: either all of them are in use, or there is none, as
  -- before `sk_fdt_init`, and it returns -1 and changes none of them; or it returns the first one that
  -- is free, which then has one user and the magic number, and changes no other one.
  pub fd_new_lem : (v : Vfs S) → Given v (fd_new v)
  unfolding fd_new vfs_lock vfs_unlock
  fd_new_lem v = elim (fd_alloc_lem (vfs_lock v)) [
    | inl (nothing, used) ↦ rw (fd_new, nothing) (inl (refl, used, refl))
    | inr (i, found, first) ↦
        rw (fd_new, found) (inr (i, refl, first, ground arith, ground arith, λ j ne. ground arith))
  ]

  -- One more user, and then one less.
  put_fd_counted :
      (fd : ℕ) (v : Vfs S) (j : ℕ)
      → (v.fds fd).file.ref_count < 2 ^ 32 - 1
      → let d = v.fds fd in
        let more = (d.file.ref_count + 1) % 2 ^ 32 in
        let counted = record d { file = record (d.file) { ref_count = more } } in
        (put_fd fd (set_fd fd counted v)).fds j ≡ v.fds j
  unfolding put_fd
  put_fd_counted fd v j few =
      let d = v.fds fd in
      let positive : ltb 0 ((d.file.ref_count + 1) % 2 ^ 32) ≡ true = ground arith in
      let self : (fd == fd) ≡ true = ground arith in
      let back : (d.file.ref_count + 1) % 2 ^ 32 - 1 ≡ d.file.ref_count = omega arith in
      let whole : record d {
        file = record (d.file) { ref_count = (d.file.ref_count + 1) % 2 ^ 32 - 1 };
      }
          ≡ d =
        ap (λ (n : ℕ). record d { file = record (d.file) { ref_count = n } }) back in
      elim (Bool-cases (fd == j)) [
        | inl e ↦ simp (self, positive, e) (whole ∙ ap (λ (i : ℕ). v.fds i) (==_true fd j e))
        | inr e ↦ simp (self, positive, e) refl
      ]

  -- `sk_put_fd` looks only at the descriptors.
  abbrev put_fds : ℕ → (ℕ → Descriptor S) → ℕ → Descriptor S
  put_fds fd fds j =
      let d = fds fd in
      if ltb 0 d.file.ref_count
      then (if fd == j
          then record d { file = record (d.file) { ref_count = d.file.ref_count - 1 } }
          else fds j)
      else fds j

  put_fd-put_fds : (fd : ℕ) (v : Vfs S) (j : ℕ) → (put_fd fd v).fds j ≡ put_fds fd v.fds j
  unfolding put_fd
  put_fd-put_fds fd v j = elim (Bool-cases (ltb 0 (v.fds fd).file.ref_count)) [
    | inl e ↦ simp e refl
    | inr e ↦ simp e refl
  ]

  abbrev counted : ℕ → Vfs S → Descriptor S
  counted fd v =
      let d = v.fds fd in
      record d { file = record (d.file) { ref_count = (d.file.ref_count + 1) % 2 ^ 32 } }

  get_fd_counted :
      (fd : ℕ) (v : Vfs S)
      → fd < v.max_fd
      → (v.fds fd).file.magic ≡ fd_magic
      → get_fd fd v ≡ (some fd, vfs_unlock (set_fd fd (counted fd v) (vfs_lock v)))
  unfolding get_fd vfs_lock
  get_fd_counted fd v inside magic =
      let within : leb v.max_fd fd ≡ false = ground arith in
      let real : ((v.fds fd).file.magic == fd_magic) ≡ true = ground arith in rw (within, real) refl

  -- `sk_get_fd` of a descriptor with the magic number and `sk_put_fd` of it leave all descriptors as
  -- they were.
  pub put_fd-get_fd :
      (fd : ℕ) (v : Vfs S)
      → fd < v.max_fd
      → (v.fds fd).file.magic ≡ fd_magic
      → (v.fds fd).file.ref_count < 2 ^ 32 - 1
      → let (result, v') = get_fd fd v in
        (result ≡ some fd) × ((j : ℕ) → (put_fd fd v').fds j ≡ v.fds j)
  unfolding vfs_lock vfs_unlock
  put_fd-get_fd fd v inside magic few =
      let w = vfs_unlock (set_fd fd (counted fd v) (vfs_lock v)) in
      rw (get_fd_counted fd v inside magic) (
        refl,
        λ j.
            put_fd-put_fds fd w j
            ∙ sym (put_fd-put_fds fd (set_fd fd (counted fd v) v) j)
            ∙ put_fd_counted fd v j few,
      )
