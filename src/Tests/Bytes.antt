-- ===== src/Tests/Bytes.antt =====
-- The functions on memory and strings at concrete inputs.
use s_kernel.Common.{◌+◌, ◌-◌, ◌≡◌, refl, ◌==◌, if◌then◌else◌}
use s_kernel.Memory.{Memory, memcpy, strcmp}
use s_kernel.Memory.Copying.{inside, memcpy_lem}

-- The strings "ab" at address 10 and "ac" at address 20; all else is 0.
abbrev words : Memory
words a =
    if a == 10
    then 97
    else if a == 11
    then 98
    else if a == 20
    then 97
    else if a == 21
    then 99
    else 0

-- The blocks overlap.
memcpy_lem_example :
    memcpy 11 10 2 words 12 ≡ (if inside 11 2 12 then words (10 + (12 - 11)) else words 12)
memcpy_lem_example = memcpy_lem 11 10 2 words 12

strcmp_run : strcmp 10 20 16 words ≡ 255
unfolding strcmp
strcmp_run = refl
