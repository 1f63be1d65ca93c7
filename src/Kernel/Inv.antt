-- ===== src/Kernel/Inv.antt =====
-- The invariant of the lists: every node in one place, the ready group the set of the priorities
-- that have a ready thread. What the primitive steps of the scheduler do to it.
use s_kernel.Common.{
  ℕ, ◌<◌, ◌≡◌, ◌≢◌, refl, sym, arith, true, false, not, ◌==◌, Bool-cases, inl, inr, List, [], ◌∷◌,
  ◌++◌, member, remove, IsDistinct, width, member-remove, member-append, remove-IsDistinct,
  append-IsDistinct, remove_absent,
}
use s_kernel.Kernel.{
  Kernel, Phase, Queue, ready_at, waiters, senders, same_queue, null, set_stat, list_add_tail,
  list_empty,
}
use s_kernel.Kernel.Sched.{insert_thread, remove_thread, enqueue}

pub record IsLinked (k : Kernel) : Type 0 where
  pub distinct : (q : Queue) → IsDistinct (k.queue q)
  pub one_queue :
      (t : ℕ) (q r : Queue)
      → member t (k.queue q) ≡ true
      → member t (k.queue r) ≡ true
      → same_queue q r ≡ true
  pub grouped : (p : ℕ) → p < width → k.group p ≡ not (list_empty (k.queue (ready_at p)))
  pub priority : (t p : ℕ) → member t (k.queue (ready_at p)) ≡ true → (k.thread t).current_pri ≡ p
  pub masked : (t i : ℕ) → (k.thread t).number_mask i ≡ ((k.thread t).current_pri == i)
  pub low : (t : ℕ) → (k.thread t).current_pri < width
  pub no_null : (q : Queue) → member null (k.queue q) ≡ false

-- The node of the thread is in no list.
abbrev pub IsAbsent : ℕ → Kernel → Type 0
IsAbsent t k = (q : Queue) → member t (k.queue q) ≡ false

pub same_queue_refl : (q : Queue) → same_queue q q ≡ true
same_queue_refl (ready_at p) = ground arith
same_queue_refl (waiters a) = ground arith
same_queue_refl (senders a) = ground arith

pub same_queue-eq : (q r : Queue) → same_queue q r ≡ true → q ≡ r
same_queue-eq (ready_at p) (ready_at q) h = ground arith
same_queue-eq (waiters a) (waiters b) h = ground arith
same_queue-eq (senders a) (senders b) h = ground arith
same_queue-eq (ready_at p) (waiters b) h = cc
same_queue-eq (ready_at p) (senders b) h = cc
same_queue-eq (waiters a) (ready_at q) h = cc
same_queue-eq (waiters a) (senders b) h = cc
same_queue-eq (senders a) (ready_at q) h = cc
same_queue-eq (senders a) (waiters b) h = cc

pub same_queue_comm : (q r : Queue) → same_queue q r ≡ same_queue r q
same_queue_comm (ready_at p) (ready_at q) = ground arith
same_queue_comm (waiters a) (waiters b) = ground arith
same_queue_comm (senders a) (senders b) = ground arith
same_queue_comm (ready_at p) (waiters b) = refl
same_queue_comm (ready_at p) (senders b) = refl
same_queue_comm (waiters a) (ready_at q) = refl
same_queue_comm (waiters a) (senders b) = refl
same_queue_comm (senders a) (ready_at q) = refl
same_queue_comm (senders a) (waiters b) = refl

pub same_queue-both :
    (s q r : Queue) → same_queue s q ≡ true → same_queue s r ≡ true → same_queue q r ≡ true
same_queue-both s q r h h' =
    rw (sym (same_queue-eq s q h), sym (same_queue-eq s r h')) (same_queue_refl s)

pub list_empty-append : (xs : List ℕ) (t : ℕ) → list_empty (xs ++ (t ∷ [])) ≡ false
list_empty-append [] t = refl
list_empty-append (x ∷ xs) t = refl

pub list_empty-remove :
    (t : ℕ) (xs : List ℕ) → member t xs ≡ false → list_empty (remove t xs) ≡ list_empty xs
list_empty-remove t xs h = rw (remove_absent t xs h)

pub remove_thread-IsAbsent : (t : ℕ) (k : Kernel) → IsAbsent t (remove_thread t k)
unfolding remove_thread
remove_thread-IsAbsent t k q = ground (arith, member-remove t t (k.queue q))

module _ {k : Kernel} (v : IsLinked k) (t : ℕ) where
  pub remove_thread-IsLinked : IsLinked (remove_thread t k)
  unfolding remove_thread
  remove_thread-IsLinked = record {
    distinct = λ q. remove-IsDistinct t (k.queue q) (v.distinct q);
    one_queue = λ u q r h h'.
        ground
          (arith, v.one_queue u q r, member-remove u t (k.queue q), member-remove u t (k.queue r));
    grouped = λ p h. ground (
      arith,
      v.grouped p h,
      v.masked t p,
      v.priority t p,
      remove_absent t (k.queue (ready_at p)),
    );
    priority = λ u p h. ground (arith, v.priority u p, member-remove u t (k.queue (ready_at p)));
    masked = v.masked;
    low = v.low;
    no_null = λ q. ground (arith, v.no_null q, member-remove null t (k.queue q));
  }

  pub set_stat-IsLinked : (p : Phase) → IsLinked (set_stat t p k)
  set_stat-IsLinked p = record {
    distinct = v.distinct;
    one_queue = v.one_queue;
    grouped = v.grouped;
    priority = λ u q h. ground (arith, v.priority u q h);
    masked = λ u i. ground (arith, v.masked u i);
    low = λ u. ground (arith, v.low u);
    no_null = v.no_null;
  }

  pub list_add_tail-IsDistinct :
      IsAbsent t k → (r q : Queue) → IsDistinct ((list_add_tail r t k).queue q)
  list_add_tail-IsDistinct a r q =
      ground (arith, v.distinct q, append-IsDistinct t (k.queue q) (v.distinct q) (a q))

  pub list_add_tail-one_queue :
      IsAbsent t k
      → (s : Queue) (u : ℕ) (q r : Queue) → member u ((list_add_tail s t k).queue q) ≡ true
      → member u ((list_add_tail s t k).queue r) ≡ true
      → same_queue q r ≡ true
  list_add_tail-one_queue a s u q r h h' = ground (
    arith,
    v.one_queue u q r,
    a q,
    a r,
    member-append u (k.queue q) (t ∷ []),
    member-append u (k.queue r) (t ∷ []),
    same_queue-both s q r,
  )

  pub list_add_tail-no_null :
      t ≢ null → (r q : Queue) → member null ((list_add_tail r t k).queue q) ≡ false
  list_add_tail-no_null ne r q =
      ground (arith, v.no_null q, member-append null (k.queue q) (t ∷ []))

  pub enqueue-IsLinked : IsAbsent t k → t ≢ null → IsLinked (enqueue t k)
  unfolding enqueue
  enqueue-IsLinked a ne = record {
    distinct = list_add_tail-IsDistinct a (ready_at (k.thread t).current_pri);
    one_queue = list_add_tail-one_queue a (ready_at (k.thread t).current_pri);
    grouped = λ p h.
        ground (arith, v.grouped p h, v.masked t p, list_empty-append (k.queue (ready_at p)) t);
    priority =
        λ u p h. ground (arith, v.priority u p, member-append u (k.queue (ready_at p)) (t ∷ []));
    masked = λ u i. ground (arith, v.masked u i);
    low = λ u. ground (arith, v.low u);
    no_null = list_add_tail-no_null ne (ready_at (k.thread t).current_pri);
  }

  pub insert_thread-IsLinked : IsAbsent t k → t ≢ null → IsLinked (insert_thread t k)
  unfolding insert_thread
  insert_thread-IsLinked a ne = elim (Bool-cases (t == k.current)) [
    | inl e ↦ rw e (set_stat-IsLinked Phase.running)
    | inr e ↦ rw e (enqueue-IsLinked a ne)
  ]
