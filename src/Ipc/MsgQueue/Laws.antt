-- ===== src/Ipc/MsgQueue/Laws.antt =====
-- A message queue is a bounded queue of messages: its two chains of links hold the messages in it
-- and the free ones.
use s_kernel.Common.{
  ℕ, ◌+◌, ◌-◌, ◌%◌, ◌^◌, ◌<◌, ◌≤◌, ◌≡◌, refl, sym, subst, ap, ap₂, ◌∙◌, arith, true, false, ◌==◌,
  ltb, if◌then◌else◌, List, [], ◌∷◌, ◌++◌, map, length, length-append, member, member-append,
  IsDistinct, append-IsDistinct, min, read_at, read_at-write_at, write_at, Option, none, some, Err,
  ℤ,
}
use s_kernel.Kernel.{Kernel, waiters, null, update}
use s_kernel.Ipc.Base.{returned, is_zero, notify}
use s_kernel.Ipc.Parked.{IsSound}
use s_kernel.Ipc.Notified.{notify-IsSound}
use s_kernel.Ipc.MsgQueue.{MsgQueue, send_finish, send_wait, recv_finish, recv}
use s_kernel.Ipc.MsgQueue.Linked.{
  Linked, Linked-update, last_of, last_of-append, last_of_rest, queue-Linked, unused-Linked,
}

-- The messages of the queue, oldest first, and the free ones.
pub record IsValid (mq : MsgQueue) (queued unused : List ℕ) : Type 0 where
  pub queue : Linked mq.next mq.head queued
  pub end : mq.tail ≡ last_of queued
  pub free_list : Linked mq.next mq.free unused
  pub distinct : IsDistinct queued
  pub distinct_free : IsDistinct unused
  pub apart : (x : ℕ) → member x queued ≡ true → member x unused ≡ false
  pub counted : mq.entry ≡ length queued
  pub all : length queued + length unused ≡ mq.max_msgs
  pub small : mq.max_msgs < 2 ^ 16

-- The bytes of the messages in the queue.
abbrev pub contents : MsgQueue → List ℕ → List (List ℕ)
contents mq queued = map mq.body queued

map-update :
    (f : ℕ → List ℕ) (m : ℕ) (v : List ℕ) (xs : List ℕ)
    → member m xs ≡ false
    → map (update f m v) xs ≡ map f xs
map-update f m v [] out = refl
map-update f m v (x ∷ xs) out = ground (arith, map-update f m v xs)

map-append_one :
    (f : ℕ → List ℕ) (xs : List ℕ) (m : ℕ) → map f (xs ++ (m ∷ [])) ≡ map f xs ++ (f m ∷ [])
map-append_one f [] m = refl
map-append_one f (x ∷ xs) m = ap (λ (l : List (List ℕ)). f x ∷ l) (map-append_one f xs m)

-- The queue after the free message `m` has been filled and linked.
abbrev filled : MsgQueue → ℕ → List ℕ → ℕ → MsgQueue
filled mq m buffer size =
    let next = update mq.next m null in
    record mq {
      free = mq.next m;
      body = update mq.body m (write_at (mq.body m) 0 (read_at buffer 0 size));
      next = if mq.tail == null then next else update next mq.tail m;
      tail = m;
      head = if mq.head == null then m else mq.head;
      entry = (mq.entry + 1) % 2 ^ 16;
    }

module _ {mq : MsgQueue} {queued : List ℕ} {m : ℕ} {unused : List ℕ}
    (v : IsValid mq queued (m ∷ unused)) (buffer : List ℕ) (size : ℕ) where
  fresh : member m queued ≡ false
  fresh = ground (arith, v.apart m)

  filled-IsDistinct : IsDistinct (queued ++ (m ∷ []))
  filled-IsDistinct = append-IsDistinct m queued v.distinct fresh

  filled-IsValid : IsValid (filled mq m buffer size) (queued ++ (m ∷ [])) unused
  filled-IsValid = record {
    queue =
        queue-Linked mq.next mq.head mq.tail m queued v.queue v.end v.distinct fresh v.free_list.1;
    end = sym (last_of-append queued m);
    free_list =
        unused-Linked mq.next (mq.next m) mq.tail m queued unused v.free_list.2 v.end
          v.distinct_free.0 (λ x h. ground (arith, v.apart x));
    distinct = filled-IsDistinct;
    distinct_free = v.distinct_free.1;
    apart = λ x h. ground (arith, v.apart x, member-append x queued (m ∷ []), v.distinct_free.0);
    counted = omega (arith, v.counted, v.all, v.small, length-append queued (m ∷ []));
    all = omega (arith, v.all, length-append queued (m ∷ []));
    small = v.small;
  }

  contents-filled :
      contents (filled mq m buffer size) (queued ++ (m ∷ []))
      ≡ contents mq queued ++ (write_at (mq.body m) 0 (read_at buffer 0 size) ∷ [])
  contents-filled =
      let bytes = write_at (mq.body m) 0 (read_at buffer 0 size) in
      let here : update mq.body m bytes m ≡ bytes = ground arith in
      map-append_one (update mq.body m bytes) queued m
      ∙ ap₂ (λ (l : List (List ℕ)) (b : List ℕ). l ++ (b ∷ []))
          (map-update mq.body m bytes queued fresh) here

  send_finish-filled :
      (k : Kernel)
      → send_finish mq buffer size k ≡ (Err.eok, filled mq m buffer size, notify mq.self k)
  unfolding send_finish
  send_finish-filled k =
      ap (λ (f : ℕ). (Err.eok, filled mq f buffer size, notify mq.self k)) v.free_list.0

-- The queue after its first message `m` has been taken out and given back to the free ones.
abbrev emptied : MsgQueue → ℕ → MsgQueue
emptied mq m = record mq {
  head = mq.next m;
  tail = if mq.tail == m then null else mq.tail;
  entry = mq.entry - 1;
  next = update mq.next m mq.free;
  free = m;
}

abbrev delivered : MsgQueue → ℕ → ℕ → Kernel → Err × Option (List ℕ) × MsgQueue × Kernel
delivered mq m size k =
    (Err.eok, some (read_at (mq.body m) 0 (min size mq.msg_size)), emptied mq m, notify mq.self k)

module _ {mq : MsgQueue} {m : ℕ} {queued unused : List ℕ} (v : IsValid mq (m ∷ queued) unused) where
  emptied-IsValid : IsValid (emptied mq m) queued (m ∷ unused)
  emptied-IsValid =
      let here : update mq.next m mq.free m ≡ mq.free = ground arith in
      record {
        queue = Linked-update mq.next (mq.next m) m mq.free queued v.distinct.0 v.queue.2;
        end = last_of_rest mq.tail m queued v.end v.distinct.0;
        free_list = (
          refl,
          v.queue.1,
          subst (λ (p : ℕ). Linked (update mq.next m mq.free) p unused) (sym here)
              (Linked-update mq.next mq.free m mq.free unused (v.apart m (ground arith))
                v.free_list),
        );
        distinct = v.distinct.1;
        distinct_free = (ground (arith, v.apart m), v.distinct_free);
        apart = λ x h. ground (arith, v.apart x, v.distinct);
        counted = omega (arith, v.counted);
        all = omega (arith, v.all);
        small = v.small;
      }

  recv_finish-delivered :
      (size : ℕ) (k : Kernel) → recv_finish mq size k ≡ some (delivered mq m size k)
  unfolding recv_finish
  recv_finish-delivered size k =
      let more : (mq.entry == 0) ≡ false = ground (arith, v.counted) in
      let there : (mq.head == null) ≡ false = ground (arith, v.queue) in
      let taken : some (delivered mq mq.head size k) ≡ some (delivered mq m size k) =
        ap (λ (f : ℕ). some (delivered mq f size k)) v.queue.0 in
      simp (more, there) taken

  -- `sk_msg_queue_recv` with a sound scheduler on a valid queue with a message: it delivers the first
  -- bytes of the oldest message, as many as are asked for and as a message has, that message leaves
  -- the queue and becomes the first free one. The queue stays valid, the scheduler sound.
  pub recv_delivers :
      {k : Kernel} (size : ℕ) (timeout : ℤ)
      → IsSound k
      → (mq' : MsgQueue) × (k' : Kernel) × (recv mq size timeout k
          ≡ some (returned Err.eok, some (read_at (mq.body m) 0 (min size mq.msg_size)), mq', k'))
        × IsValid mq' queued (m ∷ unused)
        × (contents mq (m ∷ queued) ≡ mq.body m ∷ contents mq' queued)
        × IsSound k'
  unfolding recv
  recv_delivers {k} size timeout s =
      let more : (mq.entry == 0) ≡ false = ground (arith, v.counted) in
      (
        emptied mq m,
        notify mq.self k,
        rw (more, recv_finish-delivered size k),
        emptied-IsValid,
        refl,
        notify-IsSound mq.self k (k.queue (waiters mq.self)) refl s,
      )

-- `sk_msg_queue_send_wait` of no more bytes than a message holds, with a sound scheduler, on a valid
-- queue whose first free message has storage for as many: it returns at once, and behind the messages
-- that are there the queue holds this one, which begins with these bytes and has its old ones behind
-- them. The queue stays valid, the scheduler sound.
pub send_wait_lem :
    {mq : MsgQueue} {queued rest : List ℕ} {m : ℕ} {k : Kernel} (buffer : List ℕ) (size : ℕ)
    (timeout : ℤ)
    → IsValid mq queued (m ∷ rest)
    → IsSound k
    → size ≤ mq.msg_size
    → mq.msg_size ≤ length (mq.body m)
    → (mq' : MsgQueue) × (k' : Kernel) × (send_wait mq buffer size timeout k
        ≡ some (Err.eok, mq', k'))
      × (read_at (mq'.body m) 0 size ≡ read_at buffer 0 size)
      × IsValid mq' (queued ++ (m ∷ [])) rest
      × (contents mq' (queued ++ (m ∷ []))
          ≡ contents mq queued ++ (write_at (mq.body m) 0 (read_at buffer 0 size) ∷ []))
      × IsSound k'
unfolding send_wait
send_wait_lem {mq} {m} {k} buffer size timeout v s fits stored =
    let short : ltb mq.msg_size size ≡ false = ground arith in
    let here : (filled mq m buffer size).body m ≡ write_at (mq.body m) 0 (read_at buffer 0 size) =
      ground arith in
    let room : (mq.free == null) ≡ false = ground (arith, v.free_list) in
    (
      filled mq m buffer size,
      notify mq.self k,
      rw (short, room, send_finish-filled v buffer size k),
      ap (λ (l : List ℕ). read_at l 0 size) here
          ∙ read_at-write_at (mq.body m) buffer size (omega (arith, fits, stored)),
      filled-IsValid v buffer size,
      contents-filled v buffer size,
      notify-IsSound mq.self k (k.queue (waiters mq.self)) refl s,
    )

-- `sk_msg_queue_send_wait` of no more bytes than a message holds, on a valid queue whose messages are
-- all in use: without time to wait it fails and changes nothing; with time to wait it goes through
-- SK_NULL.
pub send_wait_full :
    {mq : MsgQueue} {queued unused : List ℕ} (buffer : List ℕ) (size : ℕ) (timeout : ℤ) (k : Kernel)
    → IsValid mq queued unused
    → size ≤ mq.msg_size
    → length queued ≡ mq.max_msgs
    → send_wait mq buffer size timeout k
      ≡ (if is_zero timeout then some (Err.efull, mq, k) else none)
unfolding send_wait
send_wait_full {mq} {queued} {unused} buffer size timeout k v fits full =
    let short : ltb mq.msg_size size ≡ false = ground arith in
    let used_up : mq.free ≡ null = free_none unused v.free_list (omega (arith, v.all)) in
    let none_free : (mq.free == null) ≡ true = ground arith in rw (short, none_free) (ground arith)
  where
    free_none : (xs : List ℕ) → Linked mq.next mq.free xs → length xs ≡ 0 → mq.free ≡ null
    free_none [] l e = l
    free_none (x ∷ xs) l e = absurd (omega arith)
