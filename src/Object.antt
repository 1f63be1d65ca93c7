-- ===== src/Object.antt =====
-- The registry of kernel objects (init/kobj.c, include/kernel/kobj.h). An object is the address of its
-- `struct sk_object`, at which its name begins; the other fields are kept apart from the bytes.
pub mod Finding
use s_kernel.Common.{ℕ, ◌==◌, Bool, List, [], ◌∷◌, member, remove, if◌then◌else◌}
use s_kernel.Kernel.{null, update}
use s_kernel.Memory.{Memory, memset, memcpy, strcmp}
use s_kernel.Slab.Heap.{Heap, malloc, free}

-- `enum sk_object_type`
pub data ObjectType : Type 0 where
  thread semaphore mutex event mailbox msque device timer : ObjectType

-- The value of the enumerator, which is the index of its entry in `_object_container`.
unfoldable pub index : ObjectType → ℕ
index ObjectType.thread = 0
index ObjectType.semaphore = 1
index ObjectType.mutex = 2
index ObjectType.event = 3
index ObjectType.mailbox = 4
index ObjectType.msque = 5
index ObjectType.device = 6
index ObjectType.timer = 7

-- The lists of `_object_container`, first object first, and the memory that the objects stand in.
pub record Registry : Type 0 where
  pub heap : Heap
  pub memory : Memory
  pub obj_list : ℕ → List ℕ
  pub type : ℕ → ℕ
  pub flag : ℕ → ℕ

abbrev pub name_max : ℕ
name_max = 16

-- `obj_size` of the entry; `sizeof` is the size of a `struct sk_thread`, `struct sk_device` or
-- `struct sk_sys_timer`.
unfoldable pub obj_size : (ObjectType → ℕ) → ObjectType → ℕ
obj_size sizeof ObjectType.thread = sizeof ObjectType.thread
obj_size sizeof ObjectType.semaphore = 0
obj_size sizeof ObjectType.mutex = 0
obj_size sizeof ObjectType.event = 0
obj_size sizeof ObjectType.mailbox = 0
obj_size sizeof ObjectType.msque = 0
obj_size sizeof ObjectType.device = sizeof ObjectType.device
obj_size sizeof ObjectType.timer = sizeof ObjectType.timer

-- The loop of `sk_object_find`.
unfoldable pub find_in : ℕ → List ℕ → Memory → ℕ
find_in name [] m = null
find_in name (obj ∷ rest) m =
    let later = find_in name rest m in if strcmp obj name name_max m == 0 then obj else later

-- `sk_object_find`
unfoldable pub find : ℕ → ObjectType → Registry → ℕ
unfolding index find_in
find name type r = if name == null then null else find_in name (r.obj_list (index type)) r.memory

-- The object gets its type and name and becomes the first of its list.
unfoldable pub enter : ℕ → ObjectType → ℕ → Registry → Registry
unfolding index
enter obj type name r =
    let i = index type in
    record r {
      type = update r.type obj i;
      memory = memcpy obj name name_max r.memory;
      obj_list = λ k. if k == i then obj ∷ r.obj_list i else r.obj_list k;
    }

-- `sk_object_alloc`
unfoldable pub alloc : (ObjectType → ℕ) → ObjectType → ℕ → Registry → ℕ × Registry
unfolding obj_size enter
alloc sizeof type name r =
    let size = obj_size sizeof type in
    let (obj, heap) = malloc size r.heap in
    let cleared = record r {
      heap = heap;
      memory = memset obj 0 size r.memory;
      flag = update r.flag obj 0;
    } in
    if obj == null then (null, record r { heap = heap }) else (obj, enter obj type name cleared)

-- `sk_object_delete`; the type becomes -1, as a byte.
unfoldable pub delete : ℕ → ℕ → Registry → Registry
delete fuel obj r = record r {
  type = update r.type obj 255;
  obj_list = λ k. remove obj (r.obj_list k);
  heap = free fuel obj r.heap;
}

-- `sk_object_init`
unfoldable pub init : ℕ → ObjectType → ℕ → Registry → Registry
unfolding index enter
init obj type name r = if member obj (r.obj_list (index type)) then r else enter obj type name r
