-- ===== src/Ipc/MsgQueue/Initial.antt =====
-- A new message queue.
use s_kernel.Common.{
  ℕ, ==_true, Bool-cases, zero, suc, ◌*◌, ◌≤◌, ◌+◌, ◌%◌, ◌/◌, ◌^◌, ◌<◌, ◌≡◌, refl, sym, subst, ap,
  arith, Bool, true, false, ◌==◌, ◌⊎◌, inl, inr, List, [], ◌∷◌, length, member, IsDistinct, none,
  some,
}
use native.Mathlib.Nat.{suc-mul, mul-le-mul_right, div-mul-le_self}
use s_kernel.Kernel.{update}
use s_kernel.Ipc.MsgQueue.{link_pool, init, create}
use s_kernel.Ipc.MsgQueue.Linked.{Linked, Linked-update}
use s_kernel.Ipc.MsgQueue.Laws.{IsValid}

-- The addresses of the messages of the pool in the order in which the loop leaves them.
abbrev pub down_from : ℕ → ℕ → ℕ → List ℕ
down_from pool stride zero = []
down_from pool stride (suc i) = (pool + i * stride) ∷ down_from pool stride i

-- The messages of a pool that is not SK_NULL.
module _ (pool stride : ℕ) (there : 0 < pool) (some_bytes : 0 < stride) where
  member-down_from : (n x : ℕ) → pool + n * stride ≤ x → member x (down_from pool stride n) ≡ false
  member-down_from zero x h = refl
  member-down_from (suc n) x h =
      let more = suc-mul n stride in
      ground (arith, more, h, member-down_from n x (omega (arith, more, h)))

  down_from-IsDistinct : (n : ℕ) → IsDistinct (down_from pool stride n)
  down_from-IsDistinct zero = tt
  down_from-IsDistinct (suc n) =
      (member-down_from n (pool + n * stride) (omega arith), down_from-IsDistinct n)

  length-down_from : (n : ℕ) → length (down_from pool stride n) ≡ n
  length-down_from zero = refl
  length-down_from (suc n) = ap suc (length-down_from n)

  -- A message begins behind the beginning of the pool and ends before that of the next one.
  down_from_bounds :
      (n x : ℕ)
      → member x (down_from pool stride n) ≡ true
      → (pool ≤ x) × (x + stride ≤ pool + n * stride)
  down_from_bounds zero x h = absurd (cc h)
  down_from_bounds (suc n) x h =
      let more = suc-mul n stride in
      elim (Bool-cases (pool + n * stride == x)) [
        | inl e ↦
            let same = ==_true (pool + n * stride) x e in
            (omega (arith, same), omega (arith, more, same))
        | inr e ↦
            let b = down_from_bounds n x (ground (arith, h, e)) in (b.0, omega (arith, b.1, more))
      ]

  link_pool-Linked :
      (n : ℕ) (next : ℕ → ℕ)
      → let r = link_pool pool stride n next in Linked r.1 r.0 (down_from pool stride n)
  unfolding link_pool
  link_pool-Linked zero next = refl
  link_pool-Linked (suc n) next =
      let (free, next') = link_pool pool stride n next in
      let head = pool + n * stride in
      let rest = down_from pool stride n in
      let here : update next' head free head ≡ free = ground arith in
      let ih : Linked next' free rest = link_pool-Linked n next in
      (
        refl,
        omega arith,
        subst (λ (p : ℕ). Linked (update next' head free) p rest) (sym here)
            (Linked-update next' free head free rest (member-down_from n head (omega arith)) ih),
      )

-- `sk_msg_queue_init` on a pool that is not SK_NULL makes a valid queue that holds no message; the free
-- ones stand one behind the other inside the pool, each behind a header of 8 bytes, and their number is
-- what fits into the pool, less a multiple of 2^16.
pub init-IsValid :
    (self pool : ℕ) (next : ℕ → ℕ) (body : ℕ → List ℕ) (msg_size pool_size flag : ℕ)
    → 0 < pool
    → let mq = init self pool next body msg_size pool_size flag in
      IsValid mq [] (down_from pool (msg_size % 2 ^ 16 + 8) mq.max_msgs)
      × (mq.max_msgs ≡ pool_size / (msg_size % 2 ^ 16 + 8) % 2 ^ 16)
      × ((x : ℕ)
          → member x (down_from pool (msg_size % 2 ^ 16 + 8) mq.max_msgs) ≡ true
          → (pool ≤ x) × (x + (msg_size % 2 ^ 16 + 8) ≤ pool + pool_size))
unfolding init
init-IsValid self pool next body msg_size pool_size flag there =
    let stride = msg_size % 2 ^ 16 + 8 in
    let some_bytes : 0 < stride = omega arith in
    let n = pool_size / stride % 2 ^ 16 in
    (
      record {
        queue = refl;
        end = refl;
        free_list = link_pool-Linked pool stride there some_bytes n next;
        distinct = tt;
        distinct_free = down_from-IsDistinct pool stride there some_bytes n;
        apart = λ x h. cc;
        counted = refl;
        all = omega (arith, length-down_from pool stride there some_bytes n);
        small = omega arith;
      },
      refl,
      λ x h.
          let b = down_from_bounds pool stride there some_bytes n x h in
          let fewer : n ≤ pool_size / stride = omega arith in
          let all = mul-le-mul_right stride fewer in
          (b.0, omega (arith, b.1, all, div-mul-le_self pool_size stride)),
    )

-- `sk_msg_queue_create` of a queue for at least one message never returns one: either the result is
-- SK_NULL, or the pool is linked through SK_NULL.
pub create_fails :
    (object allocated : Bool) (self : ℕ) (next : ℕ → ℕ) (body : ℕ → List ℕ)
    (msg_size max_msgs flag : ℕ)
    → 0 < max_msgs % 2 ^ 16
    → let r = create object allocated self next body msg_size max_msgs flag in
      (r ≡ some none) ⊎ (r ≡ none)
unfolding create
create_fails false allocated self next body msg_size max_msgs flag h = inl refl
create_fails true true self next body msg_size max_msgs flag h = inl refl
create_fails true false self next body msg_size max_msgs flag h =
    let more : (max_msgs % 2 ^ 16 == 0) ≡ false = ground arith in inr (rw more refl)
