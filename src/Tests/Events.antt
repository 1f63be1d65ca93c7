-- ===== src/Tests/Events.antt =====
-- Events at concrete inputs: thread 4 waits for bit 1 or bit 2 of the event 9.
use s_kernel.Common.{
  inl, member, ℕ, ◌≡◌, refl, true, false, not, ◌&&◌, ◌||◌, ◌==◌, ◌⊎◌, [], ◌∷◌, none, some, Err, pos,
  Bits, bit, zero_bits, and_bits, nonzero_from,
}
use s_kernel.Kernel.{Kernel, EventInfo, waiters}
use s_kernel.Kernel.Choice.{is_ready}
use s_kernel.Ipc.Base.{returned, waits, is_zero, flag_fifo}
use s_kernel.Ipc.Blocked.{joined}
use s_kernel.Ipc.Parked.{IsSound}
use s_kernel.Ipc.Event.{Event, half_word, note, send, recv}
use s_kernel.Ipc.Event.Noted.{is_met, note-IsSound}
use s_kernel.Ipc.Event.Sending.{send_wakes}
use s_kernel.Ipc.Event.Receiving.{recv_lem}
use s_kernel.Tests.Samples.{sample, sample-IsSound}

abbrev either : EventInfo
either = record { flag_and = false; flag_or = true; flag_clear = true }

abbrev one_or_two : Bits
one_or_two i = i == 1 || i == 2

abbrev waiting : Kernel
waiting = note 4 one_or_two either (sample false true)

waiting-IsSound : IsSound waiting
waiting-IsSound = note-IsSound 4 one_or_two either (sample-IsSound false true)

abbrev event : Event
event = record { self = 9; flag = flag_fifo; set = zero_bits }

send_wakes_example :
    let r = send false event (bit 1) waiting in
    (r.0 ≡ Err.eok)
    × (r.2.queue (waiters 9) ≡ [])
    × ((is_ready 4 r.2 || r.2.current == 4) ≡ true)
    × IsSound r.2
    × ((i : ℕ) → r.1.set i ≡ ((false || half_word (bit 1) i) && not (true && one_or_two i)))
unfolding nonzero_from
send_wakes_example = send_wakes waiting-IsSound event (bit 1) refl false 4 [] refl refl

recv_lem_example :
    let r = recv event (bit 3) either (pos 3) waiting in
    let hit = and_bits zero_bits (bit 3) in
    IsSound r.3
    × (((is_met either hit (bit 3) ≡ true)
          × (r.0 ≡ returned Err.eok)
          × (r.1 ≡ some hit)
          × ((i : ℕ) → r.2.set i ≡ (false && not (true && 3 == i))))
        ⊎ ((is_met either hit (bit 3) ≡ false)
            × (((is_zero (pos 3) ≡ true) × (r ≡ (returned Err.etimeout, none, event, waiting)))
                ⊎ ((is_zero (pos 3) ≡ false)
                    × (r.0 ≡ waits)
                    × (r.2 ≡ event)
                    × (r.3.queue (waiters 9) ≡ joined flag_fifo 1 waiting (4 ∷ []))
                    × (member 1 (r.3.queue (waiters 9)) ≡ true)))))
unfolding nonzero_from
recv_lem_example = recv_lem event (bit 3) either (pos 3) waiting-IsSound (inl refl) refl refl refl

abbrev quiet : Event
quiet = record event { self = 8 }
