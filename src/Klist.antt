-- ===== src/Klist.antt =====
-- include/kernel/klist.h: circular, doubly linked lists. The memory is the two fields of all nodes; a
-- node is a number.
pub mod Chain
pub mod Rings
use s_kernel.Common.{ℕ, Bool, ◌==◌, if◌then◌else◌}

-- `struct sk_list_node`, for every node.
pub record Heap : Type 0 where
  pub next : ℕ → ℕ
  pub prev : ℕ → ℕ

-- `node->next = value` and `node->prev = value`
abbrev pub set_next : ℕ → ℕ → Heap → Heap
set_next node value h = record h { next = λ z. if z == node then value else h.next z }

abbrev pub set_prev : ℕ → ℕ → Heap → Heap
set_prev node value h = record h { prev = λ z. if z == node then value else h.prev z }

-- `sk_list_init`
unfoldable pub list_init : ℕ → Heap → Heap
list_init list h = set_next list list (set_prev list list h)

-- `__list_add`
unfoldable pub link_between : ℕ → ℕ → ℕ → Heap → Heap
link_between node prev next h =
    set_next prev node (set_prev node prev (set_next node next (set_prev next node h)))

-- `sk_list_add`
unfoldable pub list_add : ℕ → ℕ → Heap → Heap
unfolding link_between
list_add head node h = link_between node head (h.next head) h

-- `sk_list_add_tail`
unfoldable pub list_add_tail : ℕ → ℕ → Heap → Heap
unfolding link_between
list_add_tail head node h = link_between node (h.prev head) head h

-- `__list_del`
unfoldable pub unlink : ℕ → ℕ → Heap → Heap
unlink prev next h = set_next prev next (set_prev next prev h)

-- `sk_list_del`
unfoldable pub list_del : ℕ → Heap → Heap
unfolding unlink
list_del entry h =
    set_next entry entry (set_prev entry entry (unlink (h.prev entry) (h.next entry) h))

-- `sk_list_empty`
unfoldable pub list_empty : ℕ → Heap → Bool
list_empty head h = h.next head == head
