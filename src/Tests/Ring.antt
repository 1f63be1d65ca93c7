-- ===== src/Tests/Ring.antt =====
-- The ring buffer at concrete inputs.
use s_kernel.Common.{◌≡◌, refl, arith, true, false, [], ◌∷◌, ◌++◌, drop, take, min, read_at}
use s_kernel.RingBuffer.{RingBuffer, status, data_len, space_len, put, get}
use s_kernel.RingBuffer.Inv.{IsValid, contents}
use s_kernel.RingBuffer.Put.{put_lem}
use s_kernel.RingBuffer.Get.{get_lem}

-- Four places; 8 at index 3 and 9 at index 0, the writer has gone round.
abbrev wrapped : RingBuffer
wrapped = record {
  buffer = 9 ∷ 6 ∷ 7 ∷ 8 ∷ [];
  read_mirror = false;
  read_index = 3;
  write_mirror = true;
  write_index = 1;
  buffer_size = 4;
}

-- 6 and 7 at indices 1 and 2.
abbrev straight : RingBuffer
straight = record {
  buffer = 9 ∷ 6 ∷ 7 ∷ 8 ∷ [];
  read_mirror = false;
  read_index = 1;
  write_mirror = false;
  write_index = 3;
  buffer_size = 4;
}

wrapped-IsValid : IsValid wrapped
wrapped-IsValid = omega arith

straight-IsValid : IsValid straight
straight-IsValid = omega arith

contents-wrapped : contents wrapped ≡ 8 ∷ 9 ∷ []
unfolding data_len status
contents-wrapped = refl

put_lem_example :
    let n = min 3 (space_len wrapped) in
    ((put wrapped (1 ∷ 2 ∷ 3 ∷ []) 3).0 ≡ n)
    × (contents (put wrapped (1 ∷ 2 ∷ 3 ∷ []) 3).1
        ≡ contents wrapped ++ read_at (1 ∷ 2 ∷ 3 ∷ []) 0 n)
    × ((put wrapped (1 ∷ 2 ∷ 3 ∷ []) 3).1.buffer_size ≡ wrapped.buffer_size)
    × IsValid (put wrapped (1 ∷ 2 ∷ 3 ∷ []) 3).1
put_lem_example = put_lem (1 ∷ 2 ∷ 3 ∷ []) 3 wrapped-IsValid (omega arith)

get_lem_example :
    let n = min 2 (data_len wrapped) in
    ((get wrapped 2).0 ≡ n)
    × ((get wrapped 2).1 ≡ take n (contents wrapped))
    × (contents (get wrapped 2).2 ≡ drop n (contents wrapped))
    × IsValid (get wrapped 2).2
get_lem_example = get_lem 2 wrapped-IsValid (omega arith)

-- Three of four places are taken; two bytes go over the oldest one.
abbrev nearly_full : RingBuffer
nearly_full = record wrapped { read_index = 2 }

nearly_full-IsValid : IsValid nearly_full
nearly_full-IsValid = omega arith
