-- ===== src/Ipc/Mailbox/Laws.antt =====
-- A mailbox is a bounded queue of words.
use s_kernel.Common.{
  ℕ, ◌+◌, ◌-◌, ◌^◌, ◌<◌, ◌≤◌, ◌≡◌, refl, ◌∙◌, arith, Bool, true, false, ◌==◌, inl, inr, Bool-cases,
  List, length, set, get_or, tabulate, wrap, Option, none, some, ℤ,
}
use s_kernel.Kernel.{Kernel, Phase, waiters, senders}
use s_kernel.Kernel.Inv.{same_queue_refl}
use s_kernel.Ipc.Base.{waits, is_zero}
use s_kernel.Ipc.Waiting.{IsWaitList}
use s_kernel.Ipc.Parked.{IsSound, block-IsSound}
use s_kernel.Ipc.Blocked.{joined, queue-block}
use s_kernel.Ipc.Notified.{senders-notify}
use s_kernel.Ipc.Mailbox.{Mailbox, waits, create, advance, send_wait, recv_finish, recv}

-- The circular pool of a mailbox.
pub record IsValid (mb : Mailbox) : Type 0 where
  pub positive : 0 < mb.size
  pub small : mb.size < 2 ^ 16
  pub storage : mb.size ≤ length mb.msg_pool
  pub out_in : mb.out_offset < mb.size
  pub entry_in : mb.entry ≤ mb.size
  pub write_at_end : mb.in_offset ≡ wrap mb.size (mb.out_offset + mb.entry)

abbrev pub nth : Mailbox → ℕ → ℕ
nth mb i = get_or mb.msg_pool (wrap mb.size (mb.out_offset + i)) 0

-- The values in the mailbox, oldest first.
abbrev pub contents : Mailbox → List ℕ
contents mb = tabulate mb.entry 0 (nth mb)

-- The mailbox after a value is stored and after one is taken.
abbrev stored : Mailbox → ℕ → Mailbox
stored mb value = record mb {
  msg_pool = set mb.msg_pool mb.in_offset value;
  in_offset = advance mb.size mb.in_offset;
  entry = mb.entry + 1;
}

abbrev taken : Mailbox → Mailbox
taken mb = record mb { out_offset = advance mb.size mb.out_offset; entry = mb.entry - 1 }

module _ {mb : Mailbox} {k : Kernel} (v : IsValid mb) (s : IsSound k) where
  -- `sk_mailbox_send_wait` by a running thread on a full valid mailbox with time to wait: the
  -- current thread joins the list of the senders, the mailbox stays as it is, and the scheduler
  -- sound.
  pub send_waits :
      (value : ℕ) (timeout : ℤ)
      → (k.thread k.current).phase ≡ Phase.running
      → mb.entry ≡ mb.size
      → is_zero timeout ≡ false
      → let r = send_wait mb value timeout k in
        (r.0 ≡ waits)
        × (r.1 ≡ mb)
        × (r.2.queue (senders mb.self) ≡ joined mb.flag k.current k (k.queue (senders mb.self)))
        × IsSound r.2
  unfolding send_wait
  send_waits value timeout run full more =
      let q = senders mb.self in
      let nr : IsWaitList q = λ p. refl in
      let f : (mb.entry == mb.size) ≡ true = ground arith in
      rw (f, more)
        (
          refl,
          refl,
          queue-block s.well_formed run q nr mb.flag timeout q nr ∙ rw (same_queue_refl q),
          block-IsSound s run q nr mb.flag timeout,
        )

  -- `sk_mailbox_recv` by a running thread, on a valid mailbox and with a sound scheduler, leaves
  -- the list of the senders as it is: one that waits for room is not woken when a value is
  -- received.
  pub recv_leaves_senders :
      (timeout : ℤ)
      → (k.thread k.current).phase ≡ Phase.running
      → (recv mb timeout k).3.queue (senders mb.self) ≡ k.queue (senders mb.self)
  unfolding recv recv_finish
  recv_leaves_senders timeout run = elim (Bool-cases (mb.entry == 0)) [
    | inr e ↦ rw e (senders-notify mb.self k (k.queue (waiters mb.self)) refl s)
    | inl e ↦ elim (Bool-cases (is_zero timeout)) [
      | inl z ↦ rw (e, z)
      | inr z ↦
          rw (e, z)
            (queue-block s.well_formed run (waiters mb.self) (λ p. refl) mb.flag timeout
              (senders mb.self) (λ p. refl))
    ]
  ]

-- `sk_mailbox_create` never returns a mailbox with a pool: where the pool is allocated it returns
-- SK_NULL, and where it returns a mailbox the pool is SK_NULL.
pub create_without_pool :
    (object : Bool) (pool : Option (List ℕ)) (self size flag : ℕ) {got : Option (List ℕ) × Mailbox}
    → create object pool self size flag ≡ some got
    → (pool ≡ none) × (got.0 ≡ none)
unfolding create
create_without_pool false pool self size flag e = cc
create_without_pool true (some storage) self size flag e = cc
create_without_pool true none self size flag e = ground arith
