-- ===== src/Ipc/Event/Sending.antt =====
-- What `sk_event_send` does to the waiting threads.
use s_kernel.Common.{
  ℕ, ◌≡◌, refl, ◌∙◌, arith, Bool, true, false, not, ◌&&◌, ◌||◌, ◌==◌, if◌then◌else◌, ◌⊎◌, inl, inr,
  Bool-cases, List, ◌∷◌, Err, Bits, and_bits, or_bits, nonzero,
}
use s_kernel.Kernel.{Kernel, waiters}
use s_kernel.Kernel.Sched.{schedule}
use s_kernel.Kernel.Inv.{same_queue_refl}
use s_kernel.Kernel.Choice.{is_ready, schedule-queue}
use s_kernel.Ipc.Waiting.{IsWaitList}
use s_kernel.Ipc.Parked.{IsSound, wake-IsSound, schedule-IsSound, first_down}
use s_kernel.Ipc.Blocked.{queue-wake, woken-wake}
use s_kernel.Ipc.Event.{Event, half_word, note, deliver, send}
use s_kernel.Ipc.Event.Noted.{is_met, note-IsSound}

deliver-IsSound :
    {k : Kernel} (event : Event) (t x : ℕ) (xs : List ℕ)
    → IsSound k
    → k.queue (waiters event.self) ≡ x ∷ xs
    → let r = deliver event t k in
      (r.0 ≡ Err.eok)
      × (r.2.queue (waiters event.self) ≡ xs)
      × ((is_ready x r.2 || r.2.current == x) ≡ true)
      × IsSound r.2
unfolding deliver
deliver-IsSound event t x xs s e =
    let q = waiters event.self in
    let nr : IsWaitList q = λ p. refl in
    let w = s.well_formed in
    let down = first_down s q nr x xs e in
    (
      refl,
      queue-wake w q nr x xs e down q nr ∙ rw (same_queue_refl q),
      woken-wake w q nr x xs e down,
      wake-IsSound s q nr x xs e,
    )

module _ {k : Kernel} (s : IsSound k) (event : Event) (sent : Bits)
    (bits : nonzero (half_word sent) ≡ true) (need_schedule : Bool) (x : ℕ) (xs : List ℕ)
    (e : k.queue (waiters event.self) ≡ x ∷ xs) where
  abbrev set : Bits
  set = half_word sent

  arrived : Event
  arrived = record event { set = or_bits event.set set }

  -- The state in which the first thread is resumed: for the option OR it holds the bits that came.
  resumed_in : Kernel
  resumed_in =
      let th = k.thread x in
      if th.event_info.flag_and
      then k
      else note x (and_bits th.event_set (or_bits event.set set)) th.event_info k

  resumed_in-IsSound : IsSound resumed_in
  unfolding resumed_in
  resumed_in-IsSound = elim (Bool-cases (k.thread x).event_info.flag_and) [
    | inl both ↦ rw both s
    | inr one ↦ rw one (note-IsSound x _ _ s)
  ]

  queue-resumed_in : resumed_in.queue (waiters event.self) ≡ x ∷ xs
  unfolding resumed_in
  queue-resumed_in = elim (Bool-cases (k.thread x).event_info.flag_and) [
    | inl both ↦ rw both e
    | inr one ↦ rw one e
  ]

  send-deliver :
      let th = k.thread x in
      is_met th.event_info (and_bits th.event_set (or_bits event.set set)) th.event_set ≡ true
      → send need_schedule event sent k ≡ deliver arrived x resumed_in
  unfolding send arrived resumed_in
  send-deliver met = ground (arith, e, bits, met)

  set-deliver :
      (i : ℕ)
      → let th = k.thread x in
        (deliver arrived x resumed_in).1.set i
        ≡ ((event.set i || set i) && not (th.event_info.flag_clear && th.event_set i))
  unfolding deliver arrived resumed_in
  set-deliver i = ground arith

  -- `sk_event_send` of a word whose low 16 bits are not zero, with a sound scheduler, when the
  -- first waiting thread has its event with those bits added: that thread leaves the list and is
  -- ready or runs afterwards, the bits of the event are the old ones and those of the low 16 that
  -- were sent, less those that the thread waited for if it asked to clear them, and the scheduler
  -- stays sound.
  pub send_wakes :
      let th = k.thread x in
      is_met th.event_info (and_bits th.event_set (or_bits event.set set)) th.event_set ≡ true
      → let r = send need_schedule event sent k in
        (r.0 ≡ Err.eok)
        × (r.2.queue (waiters event.self) ≡ xs)
        × ((is_ready x r.2 || r.2.current == x) ≡ true)
        × IsSound r.2
        × ((i : ℕ)
            → r.1.set i
              ≡ ((event.set i || set i) && not (th.event_info.flag_clear && th.event_set i)))
  unfolding arrived
  send_wakes met =
      let d = deliver-IsSound arrived x x xs resumed_in-IsSound queue-resumed_in in
      rw (send-deliver met) (d.0, d.1, d.2, d.3, set-deliver)

  send_missed :
      let th = k.thread x in
      is_met th.event_info (and_bits th.event_set (or_bits event.set set)) th.event_set ≡ false
      → let r = send need_schedule event sent k in
        (r.1 ≡ record event { set = or_bits event.set set }) × ((r.2 ≡ k) ⊎ (r.2 ≡ schedule k))
  unfolding send
  send_missed missed = elim (Bool-cases need_schedule) [
    | inl y ↦ ground (arith, e, bits, missed, y)
    | inr n ↦ ground (arith, e, bits, missed, n)
  ]

  -- `sk_event_send` of a word whose low 16 bits are not zero, with a sound scheduler, when the
  -- first waiting thread does not have its event with the new bits: whatever the others wait for,
  -- no thread leaves the list. The new bits are added and the scheduler stays sound.
  pub send_misses :
      let th = k.thread x in
      is_met th.event_info (and_bits th.event_set (or_bits event.set set)) th.event_set ≡ false
      → let r = send need_schedule event sent k in
        (r.2.queue (waiters event.self) ≡ x ∷ xs) × (r.1.set ≡ or_bits event.set set) × IsSound r.2
  send_misses missed =
      let r = send need_schedule event sent k in
      let (same, left) = send_missed missed in
      elim left [
        | inl q ↦ rw (q, same) (e, refl, s)
        | inr q ↦
            rw (q, same) ((schedule-queue s.well_formed event.self).0 ∙ e, refl, schedule-IsSound s)
      ]
