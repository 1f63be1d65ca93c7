-- ===== src/Tests/Samples.antt =====
-- A kernel with threads that run, are ready and wait: thread 1 runs at priority 5, thread 2 is ready
-- at 5 and thread 3 at 7, thread 4 waits for the object 9 at priority 6.
use s_kernel.Common.{
  ℕ, ◌≡◌, refl, arith, Bool, true, false, ◌&&◌, ◌||◌, member, IsDistinct, ◌==◌, if◌then◌else◌, List,
  [], ◌∷◌, zero_bits, bit,
}
use s_kernel.Kernel.{
  same_queue, stat_is, null, Kernel, Thread, Timer, Callback, Phase, EventInfo, Queue, ready_at,
  waiters, senders,
}
use s_kernel.Kernel.Switch.{IsWellFormed}
use s_kernel.Kernel.Inv.{IsLinked}
use s_kernel.Slab.Heap.{Heap, PageType}
use s_kernel.Ipc.Waiting.{IsWaitList}
use s_kernel.Ipc.Parked.{IsSound}

-- A heap without free pages.
abbrev pub empty_heap : Heap
empty_heap = record {
  page_list = [];
  mem_usage = λ page. (PageType.free_page, 0);
  zones = λ z. record {
    nfree = 0;
    nmax = 0;
    next = 0;
    baseptr = 0;
    uindex = 0;
    chunksize = 0;
    zoneindex = 0;
    freechunk = 0;
  };
  c_next = λ a. 0;
  zone_array = λ i. 0;
  zone_free = 0;
  zone_free_cnt = 0;
  zone_size = 32768;
  zone_limit = 8192;
}

abbrev pub no_event : EventInfo
no_event = record { flag_and = false; flag_or = false; flag_clear = false }

abbrev pub make_thread : Phase → Bool → ℕ → Thread
make_thread phase yielded pri = record {
  phase = phase;
  yielded = yielded;
  current_pri = pri;
  init_pri = pri;
  number_mask = bit pri;
  init_tick = 10;
  remain_tick = 1;
  event_set = zero_bits;
  event_info = no_event;
}

abbrev pub idle_timer : Timer
idle_timer = record {
  active = false;
  periodic = false;
  init_tick = 0;
  timeout_tick = 0;
  callback = Callback.external 0 0;
}

abbrev sample_thread : Bool → ℕ → Thread
sample_thread yielded t =
    if t == 1
    then make_thread Phase.running yielded 5
    else if t == 2
    then make_thread Phase.ready false 5
    else if t == 3
    then make_thread Phase.ready false 7
    else make_thread Phase.suspend false 6

-- `mate`: thread 2 is ready.
abbrev sample_queue : Bool → Queue → List ℕ
sample_queue mate (ready_at p) =
    if p == 5 then (if mate then 2 ∷ [] else []) else if p == 7 then 3 ∷ [] else []
sample_queue mate (waiters a) = if a == 9 then 4 ∷ [] else []
sample_queue mate (senders a) = []

-- `yielded`: thread 1 has used up its time.
abbrev pub sample : Bool → Bool → Kernel
sample yielded mate = record {
  thread = sample_thread yielded;
  queue = sample_queue mate;
  group = λ p. (mate && 5 == p) || 7 == p;
  current = 1;
  timer = λ t. idle_timer;
  timers = [];
  tick = 0;
}

sample_one_queue :
    (m : Bool) (t : ℕ) (q r : Queue)
    → member t (sample_queue m q) ≡ true
    → member t (sample_queue m r) ≡ true
    → same_queue q r ≡ true
sample_one_queue m t (ready_at p) (ready_at q) h h' = ground arith
sample_one_queue m t (ready_at p) (waiters b) h h' = ground arith
sample_one_queue m t (ready_at p) (senders b) h h' = ground arith
sample_one_queue m t (waiters a) (ready_at q) h h' = ground arith
sample_one_queue m t (waiters a) (waiters b) h h' = ground arith
sample_one_queue m t (waiters a) (senders b) h h' = ground arith
sample_one_queue m t (senders a) r h h' = cc

sample-IsDistinct : (m : Bool) (q : Queue) → IsDistinct (sample_queue m q)
sample-IsDistinct m (ready_at p) = ground arith
sample-IsDistinct m (waiters a) = ground arith
sample-IsDistinct m (senders a) = tt

sample_no_null : (m : Bool) (q : Queue) → member null (sample_queue m q) ≡ false
sample_no_null m (ready_at p) = ground arith
sample_no_null m (waiters a) = ground arith
sample_no_null m (senders a) = refl

sample_free : (m : Bool) (q : Queue) → member 1 (sample_queue m q) ≡ false
sample_free m (ready_at p) = ground arith
sample_free m (waiters a) = ground arith
sample_free m (senders a) = refl

sample_parked :
    (y m : Bool) (q : Queue) (u : ℕ)
    → IsWaitList q
    → member u (sample_queue m q) ≡ true
    → stat_is (sample_thread y u) Phase.suspend ≡ true
sample_parked y m (ready_at p) u nr h = ground (arith, nr p)
sample_parked y m (waiters a) u nr h = ground arith
sample_parked y m (senders a) u nr h = cc

sample-IsLinked : (y m : Bool) → IsLinked (sample y m)
sample-IsLinked y m = record {
  distinct = sample-IsDistinct m;
  one_queue = sample_one_queue m;
  grouped = λ p h. ground arith;
  priority = λ t p h. ground arith;
  masked = λ t i. ground arith;
  low = λ t. ground arith;
  no_null = sample_no_null m;
}

pub sample-IsWellFormed : (y m : Bool) → IsWellFormed (sample y m)
sample-IsWellFormed y m = record {
  linked = sample-IsLinked y m;
  is_thread = omega arith;
  not_ready = λ p. sample_free m (ready_at p);
  unlinked = λ r q. sample_free m q;
}

pub sample-IsSound : (y m : Bool) → IsSound (sample y m)
sample-IsSound y m = record { well_formed = sample-IsWellFormed y m; parked = sample_parked y m }
