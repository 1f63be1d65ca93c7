-- ===== src/Kernel/Ticks/Slice.antt =====
-- The end of a time slice.
use s_kernel.Common.{
  ℕ, ◌+◌, ◌-◌, ◌%◌, ◌^◌, ◌≤◌, ◌≡◌, refl, sym, ap, ◌∙◌, arith, Bool, true, List, [], ◌∷◌, ◌++◌,
  member, ◌==◌,
}
use s_kernel.Kernel.{Kernel, Phase, ready_at, set_thread}
use s_kernel.Kernel.Switch.{IsWellFormed, is_runnable}
use s_kernel.Kernel.Choice.{schedule_round_robin, schedule_slice}
use s_kernel.Kernel.Sched.{schedule}
use s_kernel.Kernel.Ticks.{count_tick}

-- A tick has gone by, which the slice of the current thread counts.
abbrev pub counted : ℕ → Bool → Kernel → Kernel
counted remain_tick yielded k =
    set_thread k.current
      (record (k.thread k.current) { remain_tick = remain_tick; yielded = yielded })
      (record k { tick = (k.tick + 1) % 2 ^ 32 })

-- The current thread has used up its slice, and gets a new one.
abbrev used_up : Kernel → Kernel
used_up k = counted (k.thread k.current).init_tick true k

pub counted-IsWellFormed :
    {k : Kernel} (remain_tick : ℕ) (yielded : Bool)
    → (k.thread k.current).phase ≡ Phase.running
    → IsWellFormed k
    → IsWellFormed (counted remain_tick yielded k)
counted-IsWellFormed {k} remain_tick yielded run w =
    let runnable : is_runnable (k.thread k.current) ≡ true = ground arith in
    record {
      linked = record {
        distinct = w.linked.distinct;
        one_queue = w.linked.one_queue;
        grouped = w.linked.grouped;
        priority = λ t p h. ground (arith, w.linked.priority t p);
        masked = λ t i. ground (arith, w.linked.masked t i);
        low = λ t. ground (arith, w.linked.low t);
        no_null = w.linked.no_null;
      };
      is_thread = w.is_thread;
      not_ready = w.not_ready;
      unlinked = λ r q. w.unlinked runnable q;
    }

count_tick-used_up :
    (k : Kernel) → (k.thread k.current).remain_tick ≡ 1 → count_tick k ≡ schedule (used_up k)
unfolding count_tick
count_tick-used_up k last =
    let over : (((k.thread k.current).remain_tick + 2 ^ 64 - 1) % 2 ^ 64 == 0) ≡ true =
      ground arith in
    rw over refl

-- The tick that ends the slice of the running thread of a well-formed state in which a thread of the
-- same priority is ready and none of a higher one: the first thread that is ready at this priority
-- runs, the one that ran goes behind the others and has a whole slice, `init_tick`, again.
pub count_tick_round_robin :
    {k : Kernel} (x : ℕ) (xs : List ℕ)
    → IsWellFormed k
    → (k.thread k.current).phase ≡ Phase.running
    → (k.thread k.current).remain_tick ≡ 1
    → k.queue (ready_at (k.thread k.current).current_pri) ≡ x ∷ xs
    → ((t p : ℕ) → member t (k.queue (ready_at p)) ≡ true → (k.thread k.current).current_pri ≤ p)
    → ((count_tick k).current ≡ x)
      × ((count_tick k).queue (ready_at (k.thread k.current).current_pri) ≡ xs ++ (k.current ∷ []))
      × (((count_tick k).thread k.current).remain_tick ≡ (k.thread k.current).init_tick)
count_tick_round_robin {k} x xs w run last ready best =
    let th = (used_up k).thread k.current in
    let pri : th.current_pri ≡ (k.thread k.current).current_pri = ground arith in
    let r =
      schedule_round_robin (counted-IsWellFormed (k.thread k.current).init_tick true run w)
        (ground arith) (ground arith) x xs (ap (λ (p : ℕ). k.queue (ready_at p)) pri ∙ ready)
        (λ t p h. omega (arith, best t p h, pri)) in
    let slice =
      schedule_slice (counted-IsWellFormed (k.thread k.current).init_tick true run w) k.current in
    rw (count_tick-used_up k last) (
      r.0,
      ap (λ (p : ℕ). (schedule (used_up k)).queue (ready_at p)) (sym pri) ∙ r.1,
      slice ∙ ground arith,
    )
