-- ===== src/Ipc/Steps/Waits.antt =====
-- What blocks a thread and what wakes one, and branches of which each keeps a state as it should be.
use s_kernel.Common.{
  ℕ, zero, suc, length, member, get_or, arith, ◌≢◌, Bool, ◌≡◌, refl, sym, ◌∙◌, true, false,
  if◌then◌else◌, Bool-cases, inl, inr, List, [], ◌∷◌, ℤ,
}
use s_kernel.Kernel.{Kernel, Phase, Queue, waiters, null, list_empty}
use s_kernel.Kernel.Sched.{schedule}
use s_kernel.Kernel.Callbacks.{SameCallbacks, thread_resume-SameCallbacks, schedule-SameCallbacks}
use s_kernel.Ipc.Base.{resume_first, resume_rounds, resume_all, block, notify}
use s_kernel.Ipc.Waiting.{IsWaitList}
use s_kernel.Ipc.Parked.{IsSound, block-IsSound, schedule-IsSound}
use s_kernel.Ipc.Steps.Threads.{thread_resume-IsSound}
use s_kernel.Ipc.Steps.{IsTimed}
use s_kernel.Ipc.Steps.Callbacks.{block-SameCallbacks}

pub same-IsTimed : {k k' : Kernel} → IsTimed k → SameCallbacks k k' → IsSound k' → IsTimed k'
same-IsTimed v s sound = record { sound = sound; named = λ t u e. v.named t u (sym (s.same t) ∙ e) }

pub either-IsTimed :
    {x y : Kernel} (b : Bool) → IsTimed x → IsTimed y → IsTimed (if b then x else y)
either-IsTimed true v w = v
either-IsTimed false v w = w

-- A branch of a call that returns a code, its object and the state.
pub either_call-IsTimed {ℓ ℓ'} :
    {A : Type ℓ} {B : Type ℓ'} (x y : A × B × Kernel) (b : Bool)
    → (b ≡ true → IsTimed x.2)
    → (b ≡ false → IsTimed y.2)
    → IsTimed (if b then x else y).2
either_call-IsTimed x y true v w = v refl
either_call-IsTimed x y false v w = w refl

-- A branch of a call that returns what it has received too.
pub either_receive-IsTimed {ℓ ℓ' ℓ''} :
    {A : Type ℓ} {B : Type ℓ'} {C : Type ℓ''} (x y : A × B × C × Kernel) (b : Bool)
    → (b ≡ true → IsTimed x.3)
    → (b ≡ false → IsTimed y.3)
    → IsTimed (if b then x else y).3
either_receive-IsTimed x y true v w = v refl
either_receive-IsTimed x y false v w = w refl

pub block-IsTimed :
    {k : Kernel} (q : Queue) (flag : ℕ) (time : ℤ)
    → IsWaitList q
    → (k.thread k.current).phase ≡ Phase.running
    → IsTimed k
    → IsTimed (block q flag time k)
block-IsTimed {k} q flag time nr run v =
    same-IsTimed v (block-SameCallbacks q flag time k) (block-IsSound v.sound run q nr flag time)

head_not_null : (l : List ℕ) → list_empty l ≡ false → member null l ≡ false → get_or l 0 null ≢ null
head_not_null [] some_there none_null e = absurd (cc some_there)
head_not_null (x ∷ xs) some_there none_null e = ground (arith, none_null, e)

pub resume_first-IsTimed :
    {k : Kernel} (q : Queue)
    → list_empty (k.queue q) ≡ false
    → IsTimed k
    → IsTimed (resume_first q k)
unfolding resume_first
resume_first-IsTimed {k} q some_there v =
    let first = get_or (k.queue q) 0 null in
    let ne = head_not_null (k.queue q) some_there (v.sound.well_formed.linked.no_null q) in
    same-IsTimed v (thread_resume-SameCallbacks first k) (thread_resume-IsSound first ne v.sound)

pub wake_some-IsTimed :
    {k : Kernel} (self : ℕ)
    → list_empty (k.queue (waiters self)) ≡ false
    → IsTimed k
    → IsTimed (schedule (resume_first (waiters self) k))
wake_some-IsTimed {k} self some_there v =
    let woken = resume_first-IsTimed (waiters self) some_there v in
    same-IsTimed woken (schedule-SameCallbacks _) (schedule-IsSound woken.sound)

resume_rounds-IsTimed : (n : ℕ) {k : Kernel} (q : Queue) → IsTimed k → IsTimed (resume_rounds n q k)
unfolding resume_rounds
resume_rounds-IsTimed zero q v = v
resume_rounds-IsTimed (suc n) {k} q v = elim (Bool-cases (list_empty (k.queue q))) [
  | inl e ↦ rw e v
  | inr ne ↦ rw ne (resume_rounds-IsTimed n q (resume_first-IsTimed q ne v))
]

pub resume_all-IsTimed : {k : Kernel} (q : Queue) → IsTimed k → IsTimed (resume_all q k)
unfolding resume_all
resume_all-IsTimed {k} q v = resume_rounds-IsTimed (length (k.queue q)) q v

pub notify-IsTimed : {k : Kernel} (self : ℕ) → IsTimed k → IsTimed (notify self k)
unfolding notify
notify-IsTimed {k} self v = elim (Bool-cases (list_empty (k.queue (waiters self)))) [
  | inl e ↦ rw e v
  | inr ne ↦ rw ne (wake_some-IsTimed self ne v)
]
