-- ===== src/Tests/Messages.antt =====
-- Message queues at concrete inputs.
use s_kernel.Common.{
  ℕ, ◌≤◌, member, ◌+◌, ◌%◌, ◌/◌, ◌^◌, ◌≡◌, ◌==◌, refl, arith, true, false, [], ◌∷◌, ◌++◌, some,
  if◌then◌else◌, min, read_at, write_at, Err, pos,
}
use s_kernel.Kernel.{Kernel}
use s_kernel.Ipc.Base.{returned, flag_fifo}
use s_kernel.Ipc.Parked.{IsSound}
use s_kernel.Ipc.MsgQueue.{MsgQueue, init, send_wait, recv}
use s_kernel.Ipc.MsgQueue.Laws.{IsValid, contents, send_wait_lem, recv_delivers}
use s_kernel.Ipc.MsgQueue.Initial.{down_from, init-IsValid}
use s_kernel.Tests.Samples.{sample, sample-IsSound}

abbrev kernel : Kernel
kernel = sample false true

-- Two messages of 4 bytes; the first one is in the queue `half`, both are in the queue `full`.
abbrev half : MsgQueue
half = record {
  self = 9;
  flag = flag_fifo;
  msg_size = 4;
  max_msgs = 2;
  entry = 1;
  head = 1;
  tail = 1;
  free = 2;
  next = λ i. 0;
  body = λ i. 7 ∷ 7 ∷ 7 ∷ 7 ∷ [];
}

half-IsValid : IsValid half (1 ∷ []) (2 ∷ [])
half-IsValid = record {
  queue = (refl, omega arith, refl);
  end = refl;
  free_list = (refl, omega arith, refl);
  distinct = (refl, tt);
  distinct_free = (refl, tt);
  apart = λ x h. ground arith;
  counted = refl;
  all = refl;
  small = omega arith;
}

abbrev full : MsgQueue
full = record half { entry = 2; tail = 2; free = 0; next = λ i. if i == 1 then 2 else 0 }

full-IsValid : IsValid full (1 ∷ 2 ∷ []) []
full-IsValid = record {
  queue = (refl, omega arith, (refl, omega arith, refl));
  end = refl;
  free_list = refl;
  distinct = (refl, (refl, tt));
  distinct_free = tt;
  apart = λ x h. refl;
  counted = refl;
  all = refl;
  small = omega arith;
}

send_wait_lem_example :
    (mq' : MsgQueue) × (k' : Kernel) × (send_wait half (5 ∷ 6 ∷ []) 2 (pos 0) kernel
      ≡ some (Err.eok, mq', k'))
    × (read_at (mq'.body 2) 0 2 ≡ read_at (5 ∷ 6 ∷ []) 0 2)
    × IsValid mq' (1 ∷ 2 ∷ []) []
    × (contents mq' (1 ∷ 2 ∷ [])
        ≡ contents half (1 ∷ [])
          ++ (write_at (7 ∷ 7 ∷ 7 ∷ 7 ∷ []) 0 (read_at (5 ∷ 6 ∷ []) 0 2) ∷ []))
    × IsSound k'
send_wait_lem_example =
    send_wait_lem (5 ∷ 6 ∷ []) 2 (pos 0) half-IsValid (sample-IsSound false true) (omega arith)
      (omega arith)

recv_delivers_example :
    (mq' : MsgQueue) × (k' : Kernel) × (recv full 3 (pos 0) kernel
      ≡ some (returned Err.eok, some (read_at (7 ∷ 7 ∷ 7 ∷ 7 ∷ []) 0 (min 3 4)), mq', k'))
    × IsValid mq' (2 ∷ []) (1 ∷ [])
    × (contents full (1 ∷ 2 ∷ []) ≡ (7 ∷ 7 ∷ 7 ∷ 7 ∷ []) ∷ contents mq' (2 ∷ []))
    × IsSound k'
recv_delivers_example = recv_delivers full-IsValid 3 (pos 0) (sample-IsSound false true)

init-IsValid_example :
    let mq = init 9 500 (λ i. 0) (λ i. 7 ∷ 7 ∷ 7 ∷ 7 ∷ []) 4 40 flag_fifo in
    IsValid mq [] (down_from 500 12 mq.max_msgs)
    × (mq.max_msgs ≡ 40 / (4 % 2 ^ 16 + 8) % 2 ^ 16)
    × ((x : ℕ) → member x (down_from 500 12 mq.max_msgs) ≡ true → (500 ≤ x) × (x + 12 ≤ 500 + 40))
init-IsValid_example =
    init-IsValid 9 500 (λ i. 0) (λ i. 7 ∷ 7 ∷ 7 ∷ 7 ∷ []) 4 40 flag_fifo (omega arith)
