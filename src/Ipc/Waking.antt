-- ===== src/Ipc/Waking.antt =====
-- Resuming the threads that wait for an object.
use s_kernel.Common.{
  ℕ, ◌≡◌, ◌≢◌, refl, sym, ap, subst, ◌∙◌, arith, true, false, ◌&&◌, ◌||◌, ◌==◌, if◌then◌else◌,
  Bool-cases, ==_true, ==_false, inl, inr, List, [], ◌∷◌, length, member, remove, member-append,
  remove_absent, IsDistinct,
}
use s_kernel.Kernel.{Kernel, Phase, Queue, ready_at, same_queue, null, stat_is}
use s_kernel.Kernel.Sched.{enqueue, insert_thread}
use s_kernel.Kernel.Threads.{thread_resume}
use s_kernel.Kernel.Inv.{same_queue_comm, same_queue-eq, same_queue_refl}
use s_kernel.Kernel.Switch.{IsWellFormed, is_runnable}
use s_kernel.Kernel.Choice.{is_ready}
use s_kernel.Kernel.Blocking.{thread_resume-IsWellFormed}
use s_kernel.Ipc.Base.{resume_first, resume_rounds, resume_all}
use s_kernel.Ipc.Waiting.{IsWaitList}

-- What `sk_thread_resume` does to a suspended thread.
module _ (t : ℕ) (k : Kernel) (down : stat_is (k.thread t) Phase.suspend ≡ true) where
  queue-thread_resume :
      (r : Queue) → IsWaitList r → (thread_resume t k).1.queue r ≡ remove t (k.queue r)
  unfolding thread_resume insert_thread enqueue
  queue-thread_resume r nr =
      let p = (k.thread t).current_pri in ground (arith, nr p, same_queue_comm r (ready_at p))

  stat-thread_resume : is_runnable ((thread_resume t k).1.thread t) ≡ true
  unfolding thread_resume insert_thread enqueue
  stat-thread_resume = ground arith

  other-thread_resume : (u : ℕ) → u ≢ t → (thread_resume t k).1.thread u ≡ k.thread u
  unfolding thread_resume insert_thread enqueue
  other-thread_resume u ne = ground arith

  pri-thread_resume :
      (u : ℕ) → ((thread_resume t k).1.thread u).current_pri ≡ (k.thread u).current_pri
  unfolding thread_resume insert_thread enqueue
  pri-thread_resume u = ground arith

  -- It is ready, or it is the current thread and goes on.
  woken-thread_resume :
      (is_ready t (thread_resume t k).1
        || ((thread_resume t k).1.current == t
            && is_runnable ((thread_resume t k).1.thread (thread_resume t k).1.current)))
      ≡ true
  unfolding thread_resume insert_thread enqueue
  woken-thread_resume =
      ground
        (arith, member-append t (remove t (k.queue (ready_at (k.thread t).current_pri))) (t ∷ []))

-- The first thread of a wait list, suspended, is resumed.
module _ {k : Kernel} (w : IsWellFormed k) (q : Queue) (nr : IsWaitList q) (x : ℕ) (xs : List ℕ)
    (e : k.queue q ≡ x ∷ xs) (down : stat_is (k.thread x) Phase.suspend ≡ true) where
  resume_first_lem : resume_first q k ≡ (thread_resume x k).1
  unfolding resume_first
  resume_first_lem = rw (resume_first, e)

  there : member x (k.queue q) ≡ true
  there = rw e (ground arith)

  first_not_null : x ≢ null
  first_not_null z = cc (there, ap (λ (a : ℕ). member a (k.queue q)) z, w.linked.no_null q)

  pub resume_first-IsWellFormed : IsWellFormed (resume_first q k)
  resume_first-IsWellFormed = rw resume_first_lem (thread_resume-IsWellFormed w x first_not_null)

  pub once : member x xs ≡ false
  once = (subst IsDistinct e (w.linked.distinct q)).0

  pub queue-resume_first :
      (r : Queue)
      → IsWaitList r
      → (resume_first q k).queue r ≡ (if same_queue q r then xs else k.queue r)
  queue-resume_first r nr' = rw resume_first_lem (
      queue-thread_resume x k down r nr' ∙ (elim (Bool-cases (same_queue q r)) [
        | inl same ↦
            let e' : k.queue r ≡ x ∷ xs = ap k.queue (sym (same_queue-eq q r same)) ∙ e in
            rw same (rw e' (ground (arith, remove_absent x xs once)))
        | inr other ↦
            let away : member x (k.queue r) ≡ false =
              ground (arith, there, w.linked.one_queue x q r) in
            rw other (remove_absent x (k.queue r) away)
      ]))

  pub woken-resume_first :
      (is_ready x (resume_first q k)
        || ((resume_first q k).current == x
            && is_runnable ((resume_first q k).thread (resume_first q k).current)))
      ≡ true
  woken-resume_first = rw resume_first_lem (woken-thread_resume x k down)

  pub stat-resume_first : is_runnable ((resume_first q k).thread x) ≡ true
  stat-resume_first = rw resume_first_lem (stat-thread_resume x k down)

  pub other-resume_first : (u : ℕ) → u ≢ x → (resume_first q k).thread u ≡ k.thread u
  other-resume_first u ne = rw resume_first_lem (other-thread_resume x k down u ne)

  pub pri-resume_first :
      (u : ℕ) → ((resume_first q k).thread u).current_pri ≡ (k.thread u).current_pri
  pri-resume_first u = rw resume_first_lem (pri-thread_resume x k down u)

-- Every thread of the list is suspended.
abbrev pub AreDown : Kernel → List ℕ → Type 0
AreDown k xs = (u : ℕ) → member u xs ≡ true → stat_is (k.thread u) Phase.suspend ≡ true

resume_rounds_lem :
    (xs : List ℕ) (k : Kernel) (q : Queue)
    → IsWellFormed k
    → IsWaitList q
    → k.queue q ≡ xs
    → AreDown k xs
    → let k' = resume_rounds (length xs) q k in
      (k'.queue q ≡ [])
      × IsWellFormed k'
      × ((u : ℕ)
          → (member u xs || is_runnable (k.thread u)) ≡ true
          → is_runnable (k'.thread u) ≡ true)
unfolding resume_rounds
resume_rounds_lem [] k q w nr e d = (e, w, λ u h. h)
resume_rounds_lem (x ∷ xs) k q w nr e d =
    let down = d x (ground arith) in
    let k₁ = resume_first q k in
    let here : k₁.queue q ≡ xs =
      queue-resume_first w q nr x xs e down q nr ∙ rw (same_queue_refl q) in
    let fresh = once w q nr x xs e down in
    let others = other-resume_first w q nr x xs e down in
    let still : AreDown k₁ xs = λ u m.
      let ne : u ≢ x = λ z. cc (m, fresh, ap (λ (a : ℕ). member a xs) z) in
      rw (others u ne) (d u (ground arith)) in
    let ih =
      resume_rounds_lem xs k₁ q (resume_first-IsWellFormed w q nr x xs e down) nr here still in
    rw e (
      ih.0,
      ih.1,
      λ u h. ih.2 u (elim (Bool-cases (u == x)) [
        | inl same ↦
            let up = stat-resume_first w q nr x xs e down in
            let z = ==_true u x same in rw (z, up) (ground arith)
        | inr ne ↦ rw (others u (==_false u x ne)) (ground (arith, h))
      ]),
    )

-- `__ipc_list_resume_all` on the list of an object, all of whose threads are suspended, in a
-- well-formed state: the list is empty afterwards, every thread that was in it can run, and the
-- state is well-formed.
pub resume_all_lem :
    {k : Kernel} (q : Queue)
    → IsWellFormed k
    → IsWaitList q
    → AreDown k (k.queue q)
    → let k' = resume_all q k in
      (k'.queue q ≡ [])
      × IsWellFormed k'
      × ((u : ℕ) → member u (k.queue q) ≡ true → is_runnable (k'.thread u) ≡ true)
unfolding resume_all
resume_all_lem {k} q w nr d =
    let (done, w', up) = resume_rounds_lem (k.queue q) k q w nr refl d in
    (done, w', λ u m. up u (rw m))
