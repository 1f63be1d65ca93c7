-- ===== src/Ipc/Notified.antt =====
-- What `notify` does to the scheduler and the lists.
use s_kernel.Common.{ℕ, ◌≡◌, refl, ap, List, [], ◌∷◌}
use s_kernel.Kernel.{Kernel, waiters, senders, list_empty}
use s_kernel.Ipc.Base.{notify}
use s_kernel.Ipc.Waiting.{IsWaitList}
use s_kernel.Ipc.Parked.{IsSound, wake-IsSound, first_down}
use s_kernel.Ipc.Blocked.{queue-wake}

-- It leaves the scheduler sound.
pub notify-IsSound :
    (self : ℕ) (k : Kernel) (xs : List ℕ)
    → k.queue (waiters self) ≡ xs
    → IsSound k
    → IsSound (notify self k)
unfolding notify
notify-IsSound self k [] e s = rw e s
notify-IsSound self k (x ∷ xs) e s =
    rw (ap list_empty e) (wake-IsSound s (waiters self) (λ p. refl) x xs e)

pub senders-notify :
    (self : ℕ) (k : Kernel) (xs : List ℕ)
    → k.queue (waiters self) ≡ xs
    → IsSound k
    → (notify self k).queue (senders self) ≡ k.queue (senders self)
unfolding notify
senders-notify self k [] e s = rw e
senders-notify self k (x ∷ xs) e s =
    let q = waiters self in
    let nr : IsWaitList q = λ p. refl in
    rw (ap list_empty e)
      (queue-wake s.well_formed q nr x xs e (first_down s q nr x xs e) (senders self) (λ p. refl))
