-- ===== src/Tests/Lists.antt =====
-- Linked lists at concrete inputs: the nodes 2 and 3 at the head 1, nothing at the head 4.
use s_kernel.Common.{refl, ◌==◌, if◌then◌else◌, [], ◌∷◌}
use s_kernel.Klist.{Heap, list_add_tail, list_del}
use s_kernel.Klist.Rings.{IsRing, list_add_tail-IsRing, list_del-IsRing}

abbrev heap : Heap
heap = record {
  next = λ z. if z == 1 then 2 else if z == 2 then 3 else if z == 3 then 1 else z;
  prev = λ z. if z == 1 then 3 else if z == 2 then 1 else if z == 3 then 2 else z;
}

heap-IsRing : IsRing heap 1 (2 ∷ 3 ∷ [])
heap-IsRing = record {
  chain = (refl, refl, (refl, refl, (refl, refl)));
  distinct = (refl, (refl, tt));
  headless = refl;
}

other-IsRing : IsRing heap 4 []
other-IsRing = record { chain = (refl, refl); distinct = tt; headless = refl }

list_add_tail-IsRing_example : IsRing (list_add_tail 1 7 heap) 1 (2 ∷ 3 ∷ 7 ∷ [])
list_add_tail-IsRing_example = list_add_tail-IsRing heap-IsRing 7 refl

list_del-IsRing_example : IsRing (list_del 2 heap) 1 (3 ∷ []) × IsRing (list_del 2 heap) 2 []
list_del-IsRing_example = list_del-IsRing heap-IsRing 2 refl
