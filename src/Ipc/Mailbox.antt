-- ===== src/Ipc/Mailbox.antt =====
-- ipc/mailbox.c. A call that blocks is two steps: up to its `sk_schedule`, and from there on when the
-- thread runs again (`send_finish`, `recv_finish`).
pub mod Laws
use s_kernel.Common.{
  ℕ, ◌+◌, ◌-◌, ◌*◌, ◌%◌, ◌^◌, Bool, true, false, ◌&&◌, Option, none, some, List, [], ltb, ◌==◌,
  if◌then◌else◌, set, get_or, Err, ℤ, pos,
}
use s_kernel.Kernel.{Kernel, waiters, senders, list_empty}
use s_kernel.Kernel.Sched.{schedule}
use s_kernel.Ipc.Base.{notify, Progress, returned, waits, is_zero, block, resume_first, resume_all}

-- `struct sk_mailbox`; `self` names its two lists, `msg_pool` is what it points at.
pub record Mailbox : Type 0 where
  pub self : ℕ
  pub flag : ℕ
  pub msg_pool : List ℕ
  pub size : ℕ
  pub entry : ℕ
  pub in_offset : ℕ
  pub out_offset : ℕ

-- `sk_mailbox_init`, less the object's name; `size` is a `sk_uint16_t`.
unfoldable pub init : ℕ → List ℕ → ℕ → ℕ → Mailbox
init self msgpool size flag = record {
  self = self;
  flag = flag;
  msg_pool = msgpool;
  size = size % 2 ^ 16;
  entry = 0;
  in_offset = 0;
  out_offset = 0;
}

-- `sk_mailbox_create`: `object` says whether `sk_object_alloc` succeeds, `pool` is what `sk_malloc`
-- returns. `none` is SK_NULL, for the result and for the pool.
unfoldable pub create : Bool → Option (List ℕ) → ℕ → ℕ → ℕ → Option (Option (List ℕ) × Mailbox)
unfolding init
create false pool self size flag = none
create true (some storage) self size flag = none
create true none self size flag = some (none, init self [] size flag)

-- The next index into the pool.
unfoldable pub advance : ℕ → ℕ → ℕ
advance size i = let i' = (i + 1) % 2 ^ 16 in if ltb i' size then i' else 0

-- `sk_mailbox_send_wait` from its second test of the entries on.
unfoldable pub send_finish : Mailbox → ℕ → Kernel → Err × Mailbox × Kernel
unfolding notify advance
send_finish mb value k =
    let stored = record mb {
      msg_pool = set mb.msg_pool mb.in_offset value;
      in_offset = advance mb.size mb.in_offset;
    } in
    if mb.entry == mb.size
    then (Err.efull, mb, k)
    else if ltb mb.entry mb.size
    then (Err.eok, record stored { entry = mb.entry + 1 }, notify mb.self k)
    else (Err.efull, stored, k)

-- `sk_mailbox_send_wait` by the current thread.
unfoldable pub send_wait : Mailbox → ℕ → ℤ → Kernel → Progress × Mailbox × Kernel
send_wait mb value timeout k =
    let (code, mb', k') = send_finish mb value k in
    if mb.entry == mb.size && is_zero timeout
    then (returned Err.efull, mb, k)
    else if mb.entry == mb.size
    then (waits, mb, block (senders mb.self) mb.flag timeout k)
    else (returned code, mb', k')

-- `sk_mailbox_send`
unfoldable pub send : Mailbox → ℕ → Kernel → Progress × Mailbox × Kernel
unfolding send_wait
send mb value k = send_wait mb value (pos 0) k

-- `sk_mailbox_recv` from its second test of the entries on; the value that it stores, if any.
unfoldable pub recv_finish : Mailbox → Kernel → Err × Option ℕ × Mailbox × Kernel
unfolding notify advance
recv_finish mb k = if mb.entry == 0 then (Err.etimeout, none, mb, k) else (
  Err.eok,
  some (get_or mb.msg_pool mb.out_offset 0),
  record mb { out_offset = advance mb.size mb.out_offset; entry = mb.entry - 1 },
  notify mb.self k,
)

-- `sk_mailbox_recv` by the current thread.
unfoldable pub recv : Mailbox → ℤ → Kernel → Progress × Option ℕ × Mailbox × Kernel
recv mb timeout k =
    let (code, value, mb', k') = recv_finish mb k in
    if mb.entry == 0 && is_zero timeout
    then (returned Err.etimeout, none, mb, k)
    else if mb.entry == 0
    then (waits, none, mb, block (waiters mb.self) mb.flag timeout k)
    else (returned code, value, mb', k')

-- `sk_mailbox_delete`, less the release of the pool and the object.
unfoldable pub delete : Mailbox → Kernel → Kernel
delete mb k = resume_all (senders mb.self) (resume_all (waiters mb.self) k)
