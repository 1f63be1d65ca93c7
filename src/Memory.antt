-- ===== src/Memory.antt =====
-- The functions of include/kernel/base_def.h on memory and strings. Memory is the byte at each
-- address; a pointer is an address, and no block reaches the end of the address space.
pub mod Copying
pub mod Comparing
pub mod Strings
use s_kernel.Common.{
  ℕ, zero, suc, ◌+◌, ◌-◌, ◌%◌, Bool, not, ◌&&◌, ◌||◌, ltb, leb, ◌==◌, if◌then◌else◌, ℤ, pos, negsuc,
}

abbrev pub Memory : Type 0
Memory = ℕ → ℕ

-- `*a = byte`
abbrev pub store : ℕ → ℕ → Memory → Memory
store a byte m x = if x == a then byte else m x

-- `sk_memset`; a `char` takes the low eight bits.
unfoldable pub memset : ℕ → ℕ → ℕ → Memory → Memory
memset dst c zero m = m
memset dst c (suc count) m = memset (dst + 1) c count (store dst (c % 256) m)

-- The two loops of `sk_memcpy`: from the first byte up, and from the last byte down.
unfoldable pub copy_up : ℕ → ℕ → ℕ → Memory → Memory
copy_up d s zero m = m
copy_up d s (suc count) m = copy_up (d + 1) (s + 1) count (store d (m s) m)

unfoldable pub copy_down : ℕ → ℕ → ℕ → Memory → Memory
copy_down d s zero m = m
copy_down d s (suc len) m = copy_down d s len (store (d + len) (m (s + len)) m)

-- `sk_memcpy`
unfoldable pub memcpy : ℕ → ℕ → ℕ → Memory → Memory
unfolding copy_up copy_down
memcpy d s count m =
    if leb d s || ltb (s + count) d then copy_up d s count m else copy_down d s count m

-- The difference of two bytes.
abbrev pub minus : ℕ → ℕ → ℤ
minus a b = if leb b a then pos (a - b) else negsuc (b - a - 1)

-- `sk_memcmp`
unfoldable pub memcmp : ℕ → ℕ → ℕ → Memory → ℤ
memcmp s1 s2 zero m = pos 0
memcmp s1 s2 (suc count) m =
    let rest = memcmp (s1 + 1) (s2 + 1) count m in
    if not (m s1 == m s2) then minus (m s1) (m s2) else rest

-- A difference as the eight bits that `sk_int8_t` keeps of it.
abbrev pub byte_minus : ℕ → ℕ → ℕ
byte_minus a b = (a + 256 - b) % 256

-- `sk_strcmp`; the result is its eight bits.
unfoldable pub strcmp : ℕ → ℕ → ℕ → Memory → ℕ
strcmp st_1 st_2 zero m = 0
strcmp st_1 st_2 (suc count) m =
    let ret = byte_minus (m st_1) (m st_2) in
    let rest = strcmp (st_1 + 1) (st_2 + 1) count m in
    if not (ret == 0) || m st_2 == 0 then ret else rest

-- `sk_strncmp`
unfoldable pub strncmp : ℕ → ℕ → ℕ → Memory → ℕ
strncmp cs ct zero m = 0
strncmp cs ct (suc count) m =
    let ret = byte_minus (m cs) (m ct) in
    let rest = strncmp (cs + 1) (ct + 1) count m in
    if not (ret == 0) then ret else if m cs == 0 || m ct == 0 then ret else rest

-- `sk_strcpy`, for at most so many bytes before the terminating one.
unfoldable pub strcpy : ℕ → ℕ → ℕ → Memory → Memory
strcpy zero dest src m = m
strcpy (suc fuel) dest src m =
    let rest = strcpy fuel (dest + 1) (src + 1) (store dest (m src) m) in
    if m src == 0 then store dest 0 m else rest

-- `sk_strlen`, for at most so many bytes: the distance from `s` to the terminating byte.
unfoldable pub strlen : ℕ → ℕ → Memory → ℕ
strlen zero s m = 0
strlen (suc fuel) s m = let rest = strlen fuel (s + 1) m in if m s == 0 then 0 else 1 + rest
