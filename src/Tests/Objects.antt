-- ===== src/Tests/Objects.antt =====
-- Semaphores, mutexes and mailboxes at concrete inputs. In the sample, thread 4 waits for object 9
-- and nobody for object 8.
use s_kernel.Common.{
  ℕ, ◌≡◌, refl, arith, true, false, ◌||◌, ◌==◌, ◌⊎◌, inl, inr, member, List, [], ◌∷◌, Option, none,
  some, Err, pos,
}
use s_kernel.Kernel.{Kernel, waiters}
use s_kernel.Kernel.Switch.{IsWellFormed, is_runnable}
use s_kernel.Kernel.Choice.{is_ready}
use s_kernel.Ipc.Base.{resume_all, flag_fifo, flag_prio}
use s_kernel.Ipc.Waking.{resume_all_lem}
use s_kernel.Ipc.Parked.{IsSound}
use s_kernel.Ipc.Semaphore
use s_kernel.Ipc.Semaphore.Laws.{wait_lem, wait_gives_up, post_wakes, post_counts, post-wait}
use s_kernel.Ipc.Mutex
use s_kernel.Ipc.Mutex.Laws.{lock-IsValid, lock_lem, unlock_frees, unlock_passes_on, unlock-lock}
use s_kernel.Ipc.Mailbox
use s_kernel.Ipc.Mailbox.Laws.{send_waits, recv_leaves_senders, create_without_pool}
use s_kernel.Tests.Samples.{sample, sample-IsWellFormed, sample-IsSound}

abbrev kernel : Kernel
kernel = sample false true

kernel-IsSound : IsSound kernel
kernel-IsSound = sample-IsSound false true

resume_all_lem_example :
    ((resume_all (waiters 9) kernel).queue (waiters 9) ≡ [])
    × IsWellFormed (resume_all (waiters 9) kernel)
    × ((u : ℕ)
        → member u (kernel.queue (waiters 9)) ≡ true
        → is_runnable ((resume_all (waiters 9) kernel).thread u) ≡ true)
resume_all_lem_example =
    resume_all_lem (waiters 9) (sample-IsWellFormed false true) (λ p. refl) (λ u m. ground arith)

abbrev busy : Semaphore.Sem
busy = record { self = 9; flag = flag_fifo; value = 0 }

busy-IsValid : Semaphore.Laws.IsValid busy kernel
busy-IsValid = record { sound = kernel-IsSound; bounded = omega arith; no_lost_permit = inl refl }

abbrev free : Semaphore.Sem
free = record { self = 8; flag = flag_fifo; value = 2 }

free-IsValid : Semaphore.Laws.IsValid free kernel
free-IsValid = record { sound = kernel-IsSound; bounded = omega arith; no_lost_permit = inr refl }

wait_lem_example :
    let r = Semaphore.wait free (pos 0) kernel in
    Semaphore.Laws.IsValid r.1 r.2
    × (Semaphore.Laws.Took free (pos 0) kernel r
        ⊎ Semaphore.Laws.Refused free (pos 0) kernel r
        ⊎ Semaphore.Laws.Queued free (pos 0) kernel r)
wait_lem_example = wait_lem free-IsValid (pos 0) (inl refl) refl

post_wakes_example :
    let r = Semaphore.post busy kernel in
    (r.0 ≡ Err.eok)
    × (r.1 ≡ busy)
    × (r.2.queue (waiters 9) ≡ [])
    × ((is_ready 4 r.2 || r.2.current == 4) ≡ true)
    × Semaphore.Laws.IsValid r.1 r.2
post_wakes_example = post_wakes busy-IsValid 4 [] refl

-- A mutex that a thread holds.
abbrev held_by : ℕ → ℕ → ℕ → Mutex.Mutex
held_by self owner hold = record {
  self = self;
  value = 0;
  original_pri = 5;
  hold = hold;
  owner = owner;
}

once-IsValid : Mutex.Laws.IsValid (held_by 9 1 1) kernel
once-IsValid = record {
  sound = kernel-IsSound;
  holds = inr (omega arith, refl, omega arith, omega arith);
}

alone-IsValid : Mutex.Laws.IsValid (held_by 8 1 1) kernel
alone-IsValid = record {
  sound = kernel-IsSound;
  holds = inr (omega arith, refl, omega arith, omega arith);
}

foreign-IsValid : Mutex.Laws.IsValid (held_by 9 2 1) kernel
foreign-IsValid = record {
  sound = kernel-IsSound;
  holds = inr (omega arith, refl, omega arith, omega arith);
}

lock_lem_example :
    let m = held_by 9 2 1 in
    let r = Mutex.lock m (pos 3) kernel in
    Mutex.Laws.Nested m (pos 3) kernel r
    ⊎ Mutex.Laws.Acquired m (pos 3) kernel r
    ⊎ Mutex.Laws.Refused m (pos 3) kernel r
    ⊎ Mutex.Laws.Queued m (pos 3) kernel r
lock_lem_example = lock_lem foreign-IsValid (pos 3) refl

unlock_passes_on_example :
    let r = Mutex.unlock (held_by 9 1 1) kernel in
    (r.0 ≡ Err.eok)
    × (r.1.owner ≡ 4)
    × (r.1.hold ≡ 1)
    × (r.1.original_pri ≡ 6)
    × (r.2.queue (waiters 9) ≡ [])
    × ((is_ready 4 r.2 || r.2.current == 4) ≡ true)
    × Mutex.Laws.IsValid r.1 r.2
unlock_passes_on_example = unlock_passes_on once-IsValid refl refl 4 [] refl

-- A pool of two places with the value 5; the same, full.
abbrev partial : Mailbox.Mailbox
partial = record {
  self = 9;
  flag = flag_prio;
  msg_pool = 7 ∷ 5 ∷ [];
  size = 2;
  entry = 1;
  in_offset = 0;
  out_offset = 1;
}

abbrev full : Mailbox.Mailbox
full = record partial { entry = 2; in_offset = 1 }

full-IsValid : Mailbox.Laws.IsValid full
full-IsValid = record {
  positive = omega arith;
  small = omega arith;
  storage = omega arith;
  out_in = omega arith;
  entry_in = omega arith;
  write_at_end = refl;
}

unpooled : Mailbox.create true none 9 2 flag_prio ≡ some (none, Mailbox.init 9 [] 2 flag_prio)
unfolding Mailbox.create
unpooled = refl

abbrev no_pool : Option (List ℕ)
no_pool = none
