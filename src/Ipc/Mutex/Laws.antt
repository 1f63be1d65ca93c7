-- ===== src/Ipc/Mutex/Laws.antt =====
-- A mutex has one owner at a time, is recursive, and passes to the first of its waiting threads.
use s_kernel.Common.{
  ℕ, ◌+◌, ◌-◌, ◌%◌, ◌<◌, ◌≤◌, ◌≡◌, ◌≢◌, refl, ap, ◌∙◌, arith, true, false, ◌||◌, ◌==◌, ltb, ◌⊎◌,
  inl, inr, Bool-cases, ==_false, ==_self, ==_ne, List, [], ◌∷◌, member, get_or, Err, ℤ,
}
use s_kernel.Kernel.{Kernel, Phase, Queue, waiters, null, list_empty}
use s_kernel.Kernel.Inv.{same_queue_refl}
use s_kernel.Kernel.Choice.{is_ready}
use s_kernel.Ipc.Base.{is_zero, flag_prio}
use s_kernel.Ipc.Waiting.{IsWaitList}
use s_kernel.Ipc.Parked.{IsSound, block-IsSound, wake-IsSound, first_down}
use s_kernel.Ipc.Blocked.{joined, queue-block, queue-wake, woken-wake}
use s_kernel.Ipc.Mutex.{Mutex, init, lock, unlock, hold_max}

-- A free mutex has count 1, no hold and nobody waiting; a held one has count 0 and a positive hold.
pub record IsValid (m : Mutex) (k : Kernel) : Type 0 where
  pub sound : IsSound k
  pub holds :
      ((m.owner ≡ null) × (m.value ≡ 1) × (m.hold ≡ 0) × (k.queue (waiters m.self) ≡ []))
      ⊎ ((m.owner ≢ null) × (m.value ≡ 0) × (0 < m.hold) × (m.hold ≤ hold_max))

waiters-IsWaitList : (a : ℕ) → IsWaitList (waiters a)
waiters-IsWaitList a p = refl

-- The ways through `sk_mutex_lock`.
abbrev pub Nested : Mutex → ℤ → Kernel → Err × Mutex × Kernel → Type 0
Nested m time k r =
    (m.owner ≡ k.current)
    × (r.2 ≡ k)
    × (((m.hold < hold_max) × (r.0 ≡ Err.eok) × (r.1 ≡ record m { hold = m.hold + 1 }))
        ⊎ ((m.hold ≡ hold_max) × (r.0 ≡ Err.efull) × (r.1 ≡ m)))

abbrev pub Acquired : Mutex → ℤ → Kernel → Err × Mutex × Kernel → Type 0
Acquired m time k r =
    (m.owner ≡ null)
    × (r.0 ≡ Err.eok)
    × (r.2 ≡ k)
    × (r.1.owner ≡ k.current)
    × (r.1.hold ≡ 1)
    × (r.1.value ≡ 0)

abbrev pub Refused : Mutex → ℤ → Kernel → Err × Mutex × Kernel → Type 0
Refused m time k r =
    (m.owner ≢ null) × (m.owner ≢ k.current) × (is_zero time ≡ true) × (r ≡ (Err.etimeout, m, k))

abbrev pub Queued : Mutex → ℤ → Kernel → Err × Mutex × Kernel → Type 0
Queued m time k r =
    (m.owner ≢ null)
    × (m.owner ≢ k.current)
    × (is_zero time ≡ false)
    × (r.0 ≡ Err.eok)
    × (r.1 ≡ m)
    × (r.2.queue (waiters m.self) ≡ joined flag_prio k.current k (k.queue (waiters m.self)))

module _ {m : Mutex} {k : Kernel} (v : IsValid m k) where
  current_ne_null : k.current ≢ null
  current_ne_null = v.sound.well_formed.is_thread

  first_member :
      (q : Queue) (x : ℕ) (xs : List ℕ) → k.queue q ≡ x ∷ xs → member x (k.queue q) ≡ true
  first_member q x xs e = rw e (ground arith)

  -- `sk_mutex_lock` by a running thread keeps a valid mutex valid, on every branch.
  pub lock-IsValid :
      (time : ℤ)
      → (k.thread k.current).phase ≡ Phase.running
      → let r = lock m time k in IsValid r.1 r.2
  unfolding lock
  lock-IsValid time run =
      let nr = waiters-IsWaitList m.self in
      elim (Bool-cases (m.owner == k.current || (ltb 0 m.value || is_zero time))) [
        | inl e ↦ record {
          sound = ground (arith, v.sound);
          holds = ground (arith, v.holds, current_ne_null);
        }
        | inr e ↦
            let other : (m.owner == k.current) ≡ false = ground arith in
            let held : ltb 0 m.value ≡ false = ground arith in
            let wait : is_zero time ≡ false = ground arith in
            rw (other, held, wait)
              (record {
                sound = block-IsSound v.sound run (waiters m.self) nr flag_prio time;
                holds = ground (arith, v.holds);
              })
      ]

  -- `sk_mutex_lock` by a running thread on a valid mutex goes one of four ways: the owner locks
  -- once more, up to the limit of the hold count; a free mutex gets the current thread as its
  -- owner; a mutex that another thread holds is refused to a caller that does not wait, and
  -- changes nothing; a caller that waits joins the list by its priority and the mutex stays with
  -- its owner.
  pub lock_lem :
      (time : ℤ)
      → (k.thread k.current).phase ≡ Phase.running
      → let r = lock m time k in
        Nested m time k r ⊎ Acquired m time k r ⊎ Refused m time k r ⊎ Queued m time k r
  unfolding lock
  lock_lem time run =
      let q = waiters m.self in
      let nr = waiters-IsWaitList m.self in
      elim (Bool-cases (m.owner == k.current)) [
        | inl e ↦ inl (ground (arith, v.holds, current_ne_null))
        | inr e ↦ elim (Bool-cases (ltb 0 m.value)) [
          | inl free ↦ inr (inl (ground (arith, v.holds, current_ne_null)))
          | inr held ↦
              let owned : m.owner ≢ null = ground (arith, v.holds) in
              let other = ==_false m.owner k.current e in
              elim (Bool-cases (is_zero time)) [
                | inl z ↦ rw (e, held, z) (inr (inr (inl (owned, other, refl, refl))))
                | inr z ↦
                    rw (e, held, z)
                      (inr (
                        inr (
                          inr (
                            owned,
                            other,
                            refl,
                            refl,
                            refl,
                            queue-block v.sound.well_formed run q nr flag_prio time q nr
                                ∙ rw (same_queue_refl q),
                          ))))
              ]
        ]
      ]

  -- Only the owner can unlock: `sk_mutex_unlock` by another thread fails and changes nothing.
  pub unlock_stranger : k.current ≢ m.owner → unlock m k ≡ (Err.error, m, k)
  unfolding unlock
  unlock_stranger ne = rw (==_ne _ _ ne)

  -- `sk_mutex_unlock` by the owner that has locked more than once takes one hold back; nothing else
  -- changes.
  pub unlock_nested :
      k.current ≡ m.owner → 1 < m.hold → unlock m k ≡ (Err.eok, record m { hold = m.hold - 1 }, k)
  unfolding unlock
  unlock_nested e h =
      let less : (m.hold + 255) % 256 ≡ m.hold - 1 = ground (arith, v.holds) in
      let more : (m.hold - 1 == 0) ≡ false = ground arith in rw (e, ==_self m.owner, less, more)

  -- `sk_mutex_unlock` of a valid mutex by its owner, with one hold and nobody waiting, leaves the
  -- mutex as `sk_mutex_init` makes it, and valid; the scheduler is left alone.
  pub unlock_frees :
      k.current ≡ m.owner
      → m.hold ≡ 1
      → k.queue (waiters m.self) ≡ []
      → let r = unlock m k in (r ≡ (Err.eok, init m.self, k)) × IsValid r.1 r.2
  unfolding unlock init
  unlock_frees e h none =
      let me : (k.current == m.owner) ≡ true = ground arith in
      let last : (m.hold + 255) % 256 ≡ 0 = omega (arith, h) in
      let zero_value : (m.value + 1) % 0x10000 ≡ 1 = ground (arith, v.holds) in
      rw (me, last, none, zero_value)
        (refl, record { sound = v.sound; holds = inl (refl, refl, refl, none) })

  -- `sk_mutex_unlock` of a valid mutex by its owner, with one hold and threads waiting, makes the
  -- first of them the owner, with one hold and its priority noted; it leaves the list, and is
  -- ready or runs afterwards; the mutex stays valid.
  pub unlock_passes_on :
      k.current ≡ m.owner
      → m.hold ≡ 1
      → (x : ℕ) (xs : List ℕ) → k.queue (waiters m.self) ≡ x ∷ xs
      → let r = unlock m k in
        (r.0 ≡ Err.eok)
        × (r.1.owner ≡ x)
        × (r.1.hold ≡ 1)
        × (r.1.original_pri ≡ (k.thread x).current_pri)
        × (r.2.queue (waiters m.self) ≡ xs)
        × ((is_ready x r.2 || r.2.current == x) ≡ true)
        × IsValid r.1 r.2
  unfolding unlock
  unlock_passes_on e h x xs e' =
      let q = waiters m.self in
      let nr = waiters-IsWaitList m.self in
      let w = v.sound.well_formed in
      let down = first_down v.sound q nr x xs e' in
      let me : (k.current == m.owner) ≡ true = ground arith in
      let last : (m.hold + 255) % 256 ≡ 0 = omega (arith, h) in
      let head : get_or (k.queue q) 0 null ≡ x = rw e' in
      let some_wait : list_empty (k.queue q) ≡ false = rw e' in
      let held : m.value ≡ 0 = ground (arith, v.holds) in
      let thread : x ≢ null = λ z.
        cc (w.linked.no_null q, first_member q x xs e', ap (λ (a : ℕ). member a (k.queue q)) z) in
      rw (me, last, some_wait, head)
        (
          refl,
          refl,
          refl,
          refl,
          queue-wake w q nr x xs e' down q nr ∙ rw (same_queue_refl q),
          woken-wake w q nr x xs e' down,
          record {
            sound = wake-IsSound v.sound q nr x xs e';
            holds = inr (thread, held, omega arith, omega arith);
          },
        )

  -- On a valid mutex that is free, or that the current thread owns with room for one more hold,
  -- `sk_mutex_lock` and `sk_mutex_unlock` after it leave owner, hold count and value as they were,
  -- and the scheduler untouched.
  pub unlock-lock :
      (time : ℤ)
      → (m.owner ≡ null) ⊎ ((m.owner ≡ k.current) × (m.hold < hold_max))
      → let r = lock m time k in
        let s = unlock r.1 r.2 in
        (s.0 ≡ Err.eok)
        × (s.1.owner ≡ m.owner)
        × (s.1.hold ≡ m.hold)
        × (s.1.value ≡ m.value)
        × (s.2 ≡ k)
  unfolding lock unlock
  unlock-lock time (inl free) = ground (arith, v.holds, current_ne_null)
  unlock-lock time (inr held) = ground (arith, v.holds, current_ne_null)
