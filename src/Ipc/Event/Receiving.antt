-- ===== src/Ipc/Event/Receiving.antt =====
-- What `sk_event_recv` does, and that it finds what was sent.
use s_kernel.Common.{
  ℕ, ap, member, zero, suc, ◌+◌, ◌≡◌, refl, ◌∙◌, arith, Bool, true, false, not, ◌&&◌, ◌||◌,
  if◌then◌else◌, ◌⊎◌, inl, inr, Bool-cases, List, [], ◌∷◌, none, some, Err, ℤ, Bits, and_bits,
  or_bits, nonzero, equal_bits, equal_from, nonzero_from,
}
use s_kernel.Kernel.{Kernel, EventInfo, Phase, waiters}
use s_kernel.Kernel.Inv.{same_queue_refl}
use s_kernel.Ipc.Base.{returned, waits, is_zero, block, insert_by_priority}
use s_kernel.Ipc.Waiting.{IsWaitList}
use s_kernel.Ipc.Parked.{IsSound, block-IsSound}
use s_kernel.Ipc.Blocked.{IsOrder, joined, member-joined, queue-block}
use s_kernel.Ipc.Event.{Event, half_word, note, send, recv}
use s_kernel.Ipc.Event.Noted.{is_met, note-IsSound}

insert_by_priority_congr :
    (f g : ℕ → ℕ)
    → ((u : ℕ) → f u ≡ g u)
    → (t : ℕ) (xs : List ℕ) → insert_by_priority f t xs ≡ insert_by_priority g t xs
insert_by_priority_congr f g h t [] = refl
insert_by_priority_congr f g h t (x ∷ xs) =
    ground (arith, h t, h x, insert_by_priority_congr f g h t xs)

joined-note :
    (k : Kernel) (t : ℕ) (set : Bits) (info : EventInfo) (flag u : ℕ) (xs : List ℕ)
    → joined flag u (note t set info k) xs ≡ joined flag u k xs
joined-note k t set info flag u xs = ground (
  arith,
  insert_by_priority_congr (λ v. ((note t set info k).thread v).current_pri)
      (λ v. (k.thread v).current_pri) (λ v. ground arith) u xs,
)

-- A word is met by the bits of a union with it.
equal_from_union : (n i : ℕ) (a b : Bits) → equal_from n i (and_bits (or_bits a b) b) b ≡ true
unfolding equal_from
equal_from_union zero i a b = refl
equal_from_union (suc n) i a b = ground (arith, equal_from_union n (i + 1) a b)

nonzero_from_union :
    (n i : ℕ) (a b : Bits)
    → nonzero_from n i b ≡ true
    → nonzero_from n i (and_bits (or_bits a b) b) ≡ true
unfolding nonzero_from
nonzero_from_union zero i a b h = h
nonzero_from_union (suc n) i a b h = ground (arith, nonzero_from_union n (i + 1) a b)

-- With nobody waiting, `sk_event_recv` after `sk_event_send` of the same low 16 bits, at least one,
-- returns at once, whether all of them are wanted or one, and delivers exactly the bits that were
-- sent.
pub recv-send :
    (k : Kernel) (event : Event) (set : Bits) (need_schedule : Bool) (option : EventInfo)
    (timeout : ℤ)
    → half_word set ≡ set
    → nonzero set ≡ true
    → k.queue (waiters event.self) ≡ []
    → (option.flag_and || option.flag_or) ≡ true
    → let r = send need_schedule event set k in
      let s = recv r.1 set option timeout r.2 in
      (s.0 ≡ returned Err.eok)
      × (s.1 ≡ some (and_bits (or_bits event.set set) set))
      × ((i : ℕ) → and_bits (or_bits event.set set) set i ≡ set i)
unfolding send recv
recv-send k event set need_schedule option timeout low bits nobody asks = rw low (
    ground (
      arith,
      bits,
      nobody,
      asks,
      equal_from_union 32 0 event.set set,
      nonzero_from_union 32 0 event.set set,
    ))

-- `sk_event_recv` by a running thread, with a sound scheduler, a word that is not zero and an
-- option that is AND or OR, on an event whose flag is FIFO or PRIO: when the event has the bits, it
-- returns at once and clears them if that is asked; when not, a caller that does not wait is refused
-- and changes nothing, and one that waits stands in the list of the event, at the end or before the
-- first of lower priority as the flag says. The scheduler stays sound.
pub recv_lem :
    {k : Kernel} (event : Event) (set : Bits) (option : EventInfo) (timeout : ℤ)
    → IsSound k
    → IsOrder event.flag
    → (k.thread k.current).phase ≡ Phase.running
    → nonzero set ≡ true
    → (option.flag_and || option.flag_or) ≡ true
    → let r = recv event set option timeout k in
      let hit = and_bits event.set set in
      IsSound r.3
      × (((is_met option hit set ≡ true)
            × (r.0 ≡ returned Err.eok)
            × (r.1 ≡ some hit)
            × ((i : ℕ) → r.2.set i ≡ (event.set i && not (option.flag_clear && set i))))
          ⊎ ((is_met option hit set ≡ false)
              × (((is_zero timeout ≡ true) × (r ≡ (returned Err.etimeout, none, event, k)))
                  ⊎ ((is_zero timeout ≡ false)
                      × (r.0 ≡ waits)
                      × (r.2 ≡ event)
                      × (r.3.queue (waiters event.self)
                          ≡ joined event.flag k.current k (k.queue (waiters event.self)))
                      × (member k.current (r.3.queue (waiters event.self)) ≡ true)))))
unfolding recv
recv_lem {k} event set option timeout s order run bits asks =
    let hit = and_bits event.set set in
    let k' = note k.current set option k in
    let q = waiters event.self in
    let nr : IsWaitList q = λ p. refl in
    let run' : (k'.thread k'.current).phase ≡ Phase.running = ground (arith, run) in
    let s' = note-IsSound k.current set option s in
    let after : (block q event.flag timeout k').queue q
        ≡ joined event.flag k.current k (k.queue q) =
      queue-block s'.well_formed run' q nr event.flag timeout q nr
      ∙ rw (same_queue_refl q)
          (joined-note k k.current set option event.flag k.current (k.queue q)) in
    elim (Bool-cases (is_met option hit set)) [
      | inl met ↦
          let c : (if option.flag_and then equal_bits hit set else nonzero hit) ≡ true =
            ground arith in
          rw (bits, asks, c)
            (note-IsSound k.current hit option s, inl (met, refl, refl, λ i. ground arith))
      | inr unmet ↦
          let c : (if option.flag_and then equal_bits hit set else nonzero hit) ≡ false =
            ground arith in
          elim (Bool-cases (is_zero timeout)) [
            | inl z ↦ rw (bits, asks, c, z) (s, inr (unmet, inl (refl, refl)))
            | inr z ↦
                rw (bits, asks, c, z)
                  (
                    block-IsSound s' run' q nr event.flag timeout,
                    inr (
                      unmet,
                      inr (
                        refl,
                        refl,
                        refl,
                        after,
                        ap (member k.current) after
                            ∙ member-joined event.flag k.current k (k.queue q) order,
                      ),
                    ),
                  )
          ]
    ]
