-- ===== src/Ipc/Semaphore/Laws.antt =====
-- What the calls of a semaphore do, and that they keep it sound.
use s_kernel.Common.{
  ℕ, ◌+◌, ◌-◌, ◌<◌, ◌≤◌, ◌≡◌, ◌≢◌, refl, ap, ◌∙◌, arith, true, false, ◌||◌, ◌==◌, ltb, ◌⊎◌, inl,
  inr, Bool-cases, List, [], ◌∷◌, member, Err, ℤ,
}
use s_kernel.Kernel.{Kernel, Phase, ready_at, waiters, list_empty}
use s_kernel.Kernel.Inv.{same_queue_refl}
use s_kernel.Kernel.Choice.{is_ready}
use s_kernel.Ipc.Base.{is_zero, block}
use s_kernel.Ipc.Blocked.{
  IsOrder, joined, member-joined, queue-block, current-block, queue-wake, woken-wake,
}
use s_kernel.Ipc.Waiting.{IsWaitList}
use s_kernel.Ipc.Parked.{IsSound, block-IsSound, wake-IsSound, first_down}
use s_kernel.Ipc.Semaphore.{Sem, wait, post, sem_value_max}

-- A semaphore beside the scheduler: the count in its range, and no thread waiting while it is
-- positive.
pub record IsValid (sem : Sem) (k : Kernel) : Type 0 where
  pub sound : IsSound k
  pub bounded : sem.value ≤ sem_value_max
  pub no_lost_permit : (sem.value ≡ 0) ⊎ (k.queue (waiters sem.self) ≡ [])

waiters-IsWaitList : (a : ℕ) → IsWaitList (waiters a)
waiters-IsWaitList a p = refl

-- The three ways through `sk_sem_wait`.
abbrev pub Took : Sem → ℤ → Kernel → Err × Sem × Kernel → Type 0
Took sem time k r = (0 < sem.value) × (r.0 ≡ Err.eok) × (r.1.value + 1 ≡ sem.value) × (r.2 ≡ k)

abbrev pub Refused : Sem → ℤ → Kernel → Err × Sem × Kernel → Type 0
Refused sem time k r = (sem.value ≡ 0) × (is_zero time ≡ true) × (r ≡ (Err.etimeout, sem, k))

abbrev pub Queued : Sem → ℤ → Kernel → Err × Sem × Kernel → Type 0
Queued sem time k r =
    (sem.value ≡ 0)
    × (is_zero time ≡ false)
    × (r.0 ≡ Err.eok)
    × (r.1 ≡ sem)
    × (r.2.queue (waiters sem.self) ≡ joined sem.flag k.current k (k.queue (waiters sem.self)))
    × (member k.current (r.2.queue (waiters sem.self)) ≡ true)

module _ {sem : Sem} {k : Kernel} (v : IsValid sem k) where
  -- `sk_sem_wait` by a running thread on a valid semaphore whose flag is FIFO or PRIO: with a permit
  -- there it takes one and returns at once; without one and with no time to wait it fails and changes
  -- nothing; otherwise the current thread stands in the list of the semaphore, at the end or before
  -- the first of lower priority as the flag says, and the count stays 0. On every way the semaphore
  -- stays valid, and with it the scheduler sound.
  pub wait_lem :
      (time : ℤ)
      → IsOrder sem.flag
      → (k.thread k.current).phase ≡ Phase.running
      → let r = wait sem time k in
        IsValid r.1 r.2 × (Took sem time k r ⊎ Refused sem time k r ⊎ Queued sem time k r)
  unfolding wait
  wait_lem time order run =
      let q = waiters sem.self in
      let nr = waiters-IsWaitList sem.self in
      let after : (block q sem.flag time k).queue q ≡ joined sem.flag k.current k (k.queue q) =
        queue-block v.sound.well_formed run q nr sem.flag time q nr ∙ rw (same_queue_refl q) in
      elim (Bool-cases (ltb 0 sem.value)) [
        | inl e ↦
            let some_left : 0 < sem.value = ground arith in
            rw e (
              record {
                sound = v.sound;
                bounded = omega (arith, v.bounded);
                no_lost_permit = ground (arith, v.no_lost_permit);
              },
              inl (some_left, refl, omega (arith, some_left), refl),
            )
        | inr e ↦
            let none_left : sem.value ≡ 0 = ground arith in
            elim (Bool-cases (is_zero time)) [
              | inl z ↦ rw (e, z) (v, inr (inl (none_left, refl, refl)))
              | inr z ↦
                  rw (e, z)
                    (
                      record {
                        sound = block-IsSound v.sound run q nr sem.flag time;
                        bounded = v.bounded;
                        no_lost_permit = inl none_left;
                      },
                      inr (
                          inr (
                            none_left,
                            refl,
                            refl,
                            refl,
                            after,
                            ap (member k.current) after
                                ∙ member-joined sem.flag k.current k (k.queue q) order,
                          )),
                    )
            ]
      ]

  -- While another thread is ready, a running thread that calls `sk_sem_wait` on a valid semaphore
  -- without a permit, and with time to wait, does not run on.
  pub wait_gives_up :
      (time : ℤ)
      → (k.thread k.current).phase ≡ Phase.running
      → sem.value ≡ 0
      → is_zero time ≡ false
      → (t p : ℕ) → member t (k.queue (ready_at p)) ≡ true
      → (wait sem time k).2.current ≢ k.current
  unfolding wait
  wait_gives_up time run z nz t p m =
      rw (z, nz)
        (current-block v.sound.well_formed run (waiters sem.self) (waiters-IsWaitList sem.self)
          sem.flag time t p m)

  -- `sk_sem_post` of a valid semaphore with threads waiting hands the permit to the first of them:
  -- the count stays, that thread leaves the list, and is ready or runs afterwards. The semaphore
  -- stays valid, and with it the scheduler sound.
  pub post_wakes :
      (x : ℕ) (xs : List ℕ)
      → k.queue (waiters sem.self) ≡ x ∷ xs
      → let r = post sem k in
        (r.0 ≡ Err.eok)
        × (r.1 ≡ sem)
        × (r.2.queue (waiters sem.self) ≡ xs)
        × ((is_ready x r.2 || r.2.current == x) ≡ true)
        × IsValid r.1 r.2
  unfolding post
  post_wakes x xs e =
      let q = waiters sem.self in
      let nr = waiters-IsWaitList sem.self in
      let w = v.sound.well_formed in
      let down = first_down v.sound q nr x xs e in
      rw (ap list_empty e) (
        refl,
        refl,
        queue-wake w q nr x xs e down q nr ∙ rw (same_queue_refl q),
        woken-wake w q nr x xs e down,
        record {
          sound = wake-IsSound v.sound q nr x xs e;
          bounded = v.bounded;
          no_lost_permit = ground (arith, v.no_lost_permit);
        },
      )

  -- `sk_sem_post` of a valid semaphore with nobody waiting: one more permit, unless the count is
  -- at its maximum, when it fails and changes nothing. The semaphore stays valid, and the
  -- scheduler is left alone.
  pub post_counts :
      k.queue (waiters sem.self) ≡ []
      → let r = post sem k in
        (r.2 ≡ k)
        × IsValid r.1 r.2
        × (((sem.value < sem_value_max) × (r.0 ≡ Err.eok) × (r.1.value ≡ sem.value + 1))
            ⊎ ((sem.value ≡ sem_value_max) × (r.0 ≡ Err.efull) × (r.1 ≡ sem)))
  unfolding post
  post_counts e = elim (Bool-cases (ltb sem.value sem_value_max)) [
    | inl room ↦
        let below : sem.value < sem_value_max = ground arith in
        rw (e, room)
          (
            refl,
            record { sound = v.sound; bounded = omega (arith, below); no_lost_permit = inr e },
            inl (below, refl, refl),
          )
    | inr full ↦
        let at : sem.value ≡ sem_value_max = ground (arith, v.bounded) in
        rw (e, full) (refl, v, inr (at, refl, refl))
  ]

  -- `sk_sem_wait` on a valid semaphore with a permit there, and `sk_sem_post` after it, leave the
  -- semaphore and the scheduler as they were.
  pub post-wait :
      (time : ℤ) → 0 < sem.value → let r = wait sem time k in post r.1 r.2 ≡ (Err.eok, sem, k)
  unfolding wait post
  post-wait time pos_value =
      let nobody : k.queue (waiters sem.self) ≡ [] = ground (arith, v.no_lost_permit) in
      let taken : ltb 0 sem.value ≡ true = ground arith in
      let below : ltb (sem.value - 1) sem_value_max ≡ true = ground (arith, v.bounded) in
      rw (taken, nobody, below) (ground arith)
