-- ===== src/Slab/Classes.antt =====
-- The size classes of `zone_index`.
use s_kernel.Common.{
  ℕ, ◌+◌, ◌-◌, ◌*◌, ◌/◌, ◌%◌, ◌<◌, ◌≤◌, ◌≡◌, arith, true, false, ◌&&◌, ltb, leb, if◌then◌else◌, inl,
  inr, Bool-cases,
}
use s_kernel.Slab.Zones.{align, align_127, zone_index}

-- The size of the chunks of a zone with this index, as the table in the source gives it.
abbrev pub class_size : ℕ → ℕ
class_size i =
    if ltb i 16
    then (i + 1) * 8
    else if ltb i 24
    then (i - 7) * 16
    else if ltb i 32
    then (i - 15) * 32
    else if ltb i 40
    then (i - 23) * 64
    else if ltb i 48
    then (i - 31) * 128
    else if ltb i 56
    then (i - 39) * 256
    else if ltb i 64
    then (i - 47) * 512
    else (i - 55) * 1024

-- `zone_index` returns what the table says.
abbrev Fits : ℕ → ℕ → ℕ × ℕ → Type 0
Fits n extra (index, bytes) = (index < 72) × (n ≤ bytes) × (bytes ≡ class_size index + extra)

Fits-8 : (n : ℕ) → 0 < n → n < 128 → Fits n 0 (align n 8 / 8 - 1, align n 8)
unfolding align
Fits-8 n low high = ground arith

Fits-16 : (n : ℕ) → 128 ≤ n → n < 256 → Fits n 0 (align n 16 / 16 + 7, align n 16)
unfolding align
Fits-16 n low high = ground arith

Fits-32 : (n : ℕ) → 256 ≤ n → n < 512 → Fits n 0 (align n 32 / 32 + 15, align n 32)
unfolding align
Fits-32 n low high = ground arith

Fits-64 : (n : ℕ) → 512 ≤ n → n < 1024 → Fits n 0 (align n 64 / 64 + 23, align n 64)
unfolding align
Fits-64 n low high = ground arith

Fits-256 : (n : ℕ) → 2048 ≤ n → n < 4096 → Fits n 0 (align n 256 / 256 + 39, align n 256)
unfolding align
Fits-256 n low high = ground arith

Fits-512 : (n : ℕ) → 4096 ≤ n → n < 8192 → Fits n 0 (align n 512 / 512 + 47, align n 512)
unfolding align
Fits-512 n low high = ground arith

Fits-1024 : (n : ℕ) → 8192 ≤ n → n < 16384 → Fits n 0 (align n 1024 / 1024 + 55, align n 1024)
unfolding align
Fits-1024 n low high = ground arith

Fits-127 : (n : ℕ) → 1024 ≤ n → n < 2048 → Fits n (n % 2) (align_127 n / 128 + 31, align_127 n)
unfolding align_127
Fits-127 n low high = ground arith

-- For every size from 1 to 16383: the index is below 72, the new size is no less than the old one,
-- and it is the size of the class, but one byte more for the odd sizes from 1024 to 2047.
pub zone_index_lem :
    (n : ℕ)
    → 0 < n
    → n < 16384
    → let (index, bytes) = zone_index n in
      (index < 72)
      × (n ≤ bytes)
      × (bytes ≡ class_size index + (if leb 1024 n && ltb n 2048 then n % 2 else 0))
unfolding zone_index align align_127
zone_index_lem n positive small = elim (Bool-cases (ltb n 128)) [
  | inl e ↦
      let even : (leb 1024 n && ltb n 2048) ≡ false = ground arith in
      rw (even, e) (Fits-8 n positive (ground arith))
  | inr n1 ↦ elim (Bool-cases (ltb n 256)) [
    | inl e ↦
        let even : (leb 1024 n && ltb n 2048) ≡ false = ground arith in
        rw (even, n1, e) (Fits-16 n (ground arith) (ground arith))
    | inr n2 ↦ elim (Bool-cases (ltb n 512)) [
      | inl e ↦
          let even : (leb 1024 n && ltb n 2048) ≡ false = ground arith in
          rw (even, n1, n2, e) (Fits-32 n (ground arith) (ground arith))
      | inr n3 ↦ elim (Bool-cases (ltb n 1024)) [
        | inl e ↦
            let even : (leb 1024 n && ltb n 2048) ≡ false = ground arith in
            rw (even, n1, n2, n3, e) (Fits-64 n (ground arith) (ground arith))
        | inr n4 ↦ elim (Bool-cases (ltb n 2048)) [
          | inl e ↦
              let odd : (leb 1024 n && ltb n 2048) ≡ true = ground arith in
              rw (odd, n1, n2, n3, n4, e) (Fits-127 n (ground arith) (ground arith))
          | inr n5 ↦ elim (Bool-cases (ltb n 4096)) [
            | inl e ↦
                let even : (leb 1024 n && ltb n 2048) ≡ false = ground arith in
                rw (even, n1, n2, n3, n4, n5, e) (Fits-256 n (ground arith) (ground arith))
            | inr n6 ↦ elim (Bool-cases (ltb n 8192)) [
              | inl e ↦
                  let even : (leb 1024 n && ltb n 2048) ≡ false = ground arith in
                  rw (even, n1, n2, n3, n4, n5, n6, e) (Fits-512 n (ground arith) (ground arith))
              | inr n7 ↦
                  let even : (leb 1024 n && ltb n 2048) ≡ false = ground arith in
                  rw (even, n1, n2, n3, n4, n5, n6, n7) (Fits-1024 n (ground arith) small)
            ]
          ]
        ]
      ]
    ]
  ]
]
