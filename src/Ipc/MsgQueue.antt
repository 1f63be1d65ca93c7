-- ===== src/Ipc/MsgQueue.antt =====
-- ipc/msg_queue.c. The messages are the nodes of the pool: the node number `i` of the pool is `i + 1`,
-- SK_NULL is 0. `none` is a call that reads or writes through SK_NULL.
pub mod Linked
pub mod Laws
pub mod Initial
use s_kernel.Common.{
  ◌*◌, ℕ, zero, suc, ◌+◌, ◌-◌, ◌%◌, ◌/◌, ◌^◌, Bool, true, false, ◌&&◌, Option, none, some, List, [],
  ltb, ◌==◌, if◌then◌else◌, min, read_at, write_at, Err, ℤ, pos,
}
use s_kernel.Kernel.{Kernel, waiters, senders, null, update}
use s_kernel.Ipc.Base.{Progress, returned, waits, is_zero, block, resume_all, notify}

-- `struct sk_msg_queue`; `self` names its two lists. `next` and `body` are the memory of the pool:
-- the link of each message and the bytes behind it.
pub record MsgQueue : Type 0 where
  pub self : ℕ
  pub flag : ℕ
  pub msg_size : ℕ
  pub max_msgs : ℕ
  pub entry : ℕ
  pub head : ℕ
  pub tail : ℕ
  pub free : ℕ
  pub next : ℕ → ℕ
  pub body : ℕ → List ℕ

-- The loop that links the messages of the pool into the free list, up to the message `i`; each of them
-- takes `stride` bytes.
unfoldable pub link_pool : ℕ → ℕ → ℕ → (ℕ → ℕ) → ℕ × (ℕ → ℕ)
link_pool pool stride zero next = (null, next)
link_pool pool stride (suc i) next =
    let (free, next') = link_pool pool stride i next in
    let head = pool + i * stride in (head, update next' head free)

-- The size of `struct sk_mq_message`.
abbrev pub header_size : ℕ
header_size = 8

-- `sk_msg_queue_init`, less the object's name; sizes have 16 bits.
unfoldable pub init : ℕ → ℕ → (ℕ → ℕ) → (ℕ → List ℕ) → ℕ → ℕ → ℕ → MsgQueue
unfolding link_pool
init self pool next body msg_size pool_size flag =
    let size = msg_size % 2 ^ 16 in
    let max_msgs = pool_size / (size + header_size) % 2 ^ 16 in
    let (free, next') = link_pool pool (size + header_size) max_msgs next in
    record {
      self = self;
      flag = flag;
      msg_size = size;
      max_msgs = max_msgs;
      entry = 0;
      head = null;
      tail = null;
      free = free;
      next = next';
      body = body;
    }

-- `sk_msg_queue_create`, less the object's name: `object` says whether `sk_object_alloc` succeeds,
-- `allocated` whether `sk_malloc` does. `some none` is the result SK_NULL. The test of the pool is the
-- wrong way round: it is linked only where it is SK_NULL.
unfoldable pub create :
    Bool → Bool → ℕ → (ℕ → ℕ) → (ℕ → List ℕ) → ℕ → ℕ → ℕ → Option (Option MsgQueue)
create false allocated self next body msg_size max_msgs flag = some none
create true true self next body msg_size max_msgs flag = some none
create true false self next body msg_size max_msgs flag =
    let mq : MsgQueue = record {
      self = self;
      flag = flag;
      msg_size = msg_size % 2 ^ 16;
      max_msgs = max_msgs % 2 ^ 16;
      entry = 0;
      head = null;
      tail = null;
      free = null;
      next = next;
      body = body;
    } in
    if max_msgs % 2 ^ 16 == 0 then some (some mq) else none

-- `sk_msg_queue_send_wait` with a message to fill.
unfoldable pub send_finish : MsgQueue → List ℕ → ℕ → Kernel → Err × MsgQueue × Kernel
send_finish mq buffer size k =
    let msg = mq.free in
    let next = update mq.next msg null in
    (
      Err.eok,
      record mq {
        free = mq.next msg;
        body = update mq.body msg (write_at (mq.body msg) 0 (read_at buffer 0 size));
        next = if mq.tail == null then next else update next mq.tail msg;
        tail = msg;
        head = if mq.head == null then msg else mq.head;
        entry = (mq.entry + 1) % 2 ^ 16;
      },
      notify mq.self k,
    )

-- `sk_msg_queue_send_wait` by the current thread. The test for a full queue compares `mq`, which is
-- not SK_NULL, with SK_NULL.
unfoldable pub send_wait : MsgQueue → List ℕ → ℕ → ℤ → Kernel → Option (Err × MsgQueue × Kernel)
send_wait mq buffer size timeout k =
    if ltb mq.msg_size size
    then some (Err.error, mq, k)
    else if mq.free == null && is_zero timeout
    then some (Err.efull, mq, k)
    else if mq.free == null
    then none
    else some (send_finish mq buffer size k)

-- `sk_msg_queue_send`
unfoldable pub send : MsgQueue → List ℕ → ℕ → Kernel → Option (Err × MsgQueue × Kernel)
unfolding send_wait
send mq buffer size k = send_wait mq buffer size (pos 0) k

-- `sk_msg_queue_recv` from its second test of the entries on; the bytes that it copies out, if any.
unfoldable pub recv_finish :
    MsgQueue → ℕ → Kernel → Option (Err × Option (List ℕ) × MsgQueue × Kernel)
recv_finish mq size k =
    let msg = mq.head in
    if mq.entry == 0
    then some (Err.etimeout, none, mq, k)
    else if msg == null
    then none
    else some (
      Err.eok,
      some (read_at (mq.body msg) 0 (min size mq.msg_size)),
      record mq {
        head = mq.next msg;
        tail = if mq.tail == msg then null else mq.tail;
        entry = mq.entry - 1;
        next = update mq.next msg mq.free;
        free = msg;
      },
      notify mq.self k,
    )

-- `sk_msg_queue_recv` by the current thread, up to its `sk_schedule` where it waits.
unfoldable pub recv :
    MsgQueue → ℕ → ℤ → Kernel → Option (Progress × Option (List ℕ) × MsgQueue × Kernel)
recv mq size timeout k =
    if mq.entry == 0 && is_zero timeout
    then some (returned Err.etimeout, none, mq, k)
    else if mq.entry == 0
    then some (waits, none, mq, block (waiters mq.self) mq.flag timeout k)
    else elim (recv_finish mq size k) [
      | none ↦ none
      | some (code, bytes, mq', k') ↦ some (returned code, bytes, mq', k')
    ]

-- `sk_msg_queue_delete`, less the release of the pool and the object.
unfoldable pub delete : MsgQueue → Kernel → Kernel
delete mq k = resume_all (senders mq.self) (resume_all (waiters mq.self) k)
