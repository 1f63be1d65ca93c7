-- ===== src/Slab/Chunks.antt =====
-- The free chunks of a zone: those behind the index up to which the zone has been used, and those on
-- its list.
use s_kernel.Common.{
  ℕ, ◌+◌, ◌-◌, ◌*◌, ◌/◌, ◌<◌, ◌≤◌, ◌≡◌, refl, sym, subst, arith, Bool, true, false, not, ◌&&◌, ◌||◌,
  List, [], ◌∷◌, member, IsDistinct, length, ltb, ◌==◌, if◌then◌else◌, inl, inr, Bool-cases,
  ==_true,
}
use native.Mathlib.Nat.{
  mul-lt-mul_of_pos_right, div-mul-le_self, le-div_iff_mul-le, lt-div-mul-add, mul-le-mul_right,
}
use s_kernel.Kernel.{null, update}
use s_kernel.Slab.Zones.{Zone, new_zone, take_chunk, put_chunk, align, is_power_of_two, zone_head}

-- The address of the chunk number `i`.
abbrev pub chunk_at : Zone → ℕ → ℕ
chunk_at zone i = zone.baseptr + i * zone.chunksize

-- The list of free chunks begins with the chunks of these numbers; what follows is not looked at.
abbrev pub Begins : ℕ → ℕ → ℕ → (ℕ → ℕ) → ℕ → List ℕ → Type 0
Begins base size last c_next p [] = Unit {0}
Begins base size last c_next p (i ∷ is) =
    (p ≡ base + i * size) × (i ≤ last) × Begins base size last c_next (c_next p) is

-- `given_back` are the numbers of the chunks on the list.
pub record IsZone (zone : Zone) (c_next : ℕ → ℕ) (given_back : List ℕ) : Type 0 where
  pub sized : 0 < zone.chunksize
  pub within : zone.uindex < zone.nmax
  pub list : Begins zone.baseptr zone.chunksize zone.uindex c_next zone.freechunk given_back
  pub distinct : IsDistinct given_back
  pub counted : zone.nfree ≡ length given_back + (zone.nmax - 1 - zone.uindex)

-- The chunk number `i` is free.
abbrev pub available : Zone → List ℕ → ℕ → Bool
available zone given_back i = (ltb zone.uindex i && ltb i zone.nmax) || member i given_back

module _ (base size : ℕ) where
  Begins-frame :
      (last last' : ℕ) (c_next c_next' : ℕ → ℕ) (p : ℕ) (is : List ℕ)
      → last ≤ last'
      → ((i : ℕ) → member i is ≡ true → c_next' (base + i * size) ≡ c_next (base + i * size))
      → Begins base size last c_next p is
      → Begins base size last' c_next' p is
  Begins-frame last last' c_next c_next' p [] le same b = tt
  Begins-frame last last' c_next c_next' p (i ∷ is) le same b =
      let link : c_next' p ≡ c_next p =
        subst (λ (q : ℕ). c_next' q ≡ c_next q) (sym b.0) (same i (ground arith)) in
      (
        b.0,
        omega (arith, b.1),
        rw link (
            Begins-frame last last' c_next c_next' (c_next p) is le (λ j h. same j (ground arith))
              b.2),
      )

  Begins-le :
      (last : ℕ) (c_next : ℕ → ℕ) (p i : ℕ) (is : List ℕ)
      → Begins base size last c_next p is
      → member i is ≡ true
      → i ≤ last
  Begins-le last c_next p i [] b h = cc
  Begins-le last c_next p i (j ∷ is) b h = ground (arith, Begins-le last c_next (c_next p) i is b.2)

module _ (size : ℕ) (positive : 0 < size) where
  chunk_below : (i j : ℕ) → i < j → i * size < j * size
  chunk_below i j lt = mul-lt-mul_of_pos_right lt positive

  -- Different chunks have different addresses.
  chunk_differs : (i j : ℕ) → i * size ≡ j * size → i ≡ j
  chunk_differs i j e = ground (arith, chunk_below i j, chunk_below j i)

-- What `take_chunk` has done: it has returned the chunk number `i`.
abbrev pub Took : Zone → (ℕ → ℕ) → List ℕ → ℕ × Zone → Type 0
Took zone c_next given_back (chunk, zone') =
    (i : ℕ) × (rest : List ℕ) × (chunk ≡ chunk_at zone i)
    × (available zone given_back i ≡ true)
    × IsZone zone' c_next rest
    × ((j : ℕ) → available zone' rest j ≡ (available zone given_back j && not (j == i)))

-- `sk_malloc` in a zone with a free chunk returns a chunk that is free and makes it, and no other,
-- not free; the zone stays consistent.
pub take_chunk_lem :
    {zone : Zone} {c_next : ℕ → ℕ} {given_back : List ℕ}
    → IsZone zone c_next given_back
    → 0 < zone.nfree
    → Took zone c_next given_back (take_chunk zone.chunksize zone c_next)
unfolding take_chunk
take_chunk_lem {zone} {c_next} {given_back} v more =
    elim (Bool-cases (zone.uindex + 1 == zone.nmax)) [
      | inl last ↦ rw last (from_list given_back v (==_true _ _ last))
      | inr e ↦
          let index = zone.uindex + 1 in
          let inside : index < zone.nmax = ground (arith, v.within) in
          let unlisted : member index given_back ≡ false = ground (
            arith,
            Begins-le zone.baseptr zone.chunksize zone.uindex c_next zone.freechunk index given_back
                v.list,
          ) in
          rw e (
            index,
            given_back,
            refl,
            ground arith,
            record {
              sized = v.sized;
              within = inside;
              list =
                  Begins-frame zone.baseptr zone.chunksize zone.uindex (zone.uindex + 1) c_next
                    c_next zone.freechunk given_back (omega arith) (λ i h. refl) v.list;
              distinct = v.distinct;
              counted = omega (arith, v.counted);
            },
            λ j. ground (arith, unlisted, v.within),
          )
    ]
  where
    from_list :
        (is : List ℕ)
        → IsZone zone c_next is
        → zone.uindex + 1 ≡ zone.nmax
        → Took zone c_next is (
          zone.freechunk,
          record zone {
            nfree = zone.nfree - 1;
            next = if zone.nfree == 1 then null else zone.next;
            freechunk = c_next zone.freechunk;
          },
        )
    from_list [] v last = absurd (omega (arith, v.counted))
    from_list (i ∷ rest) v last = (
      i,
      rest,
      v.list.0,
      ground arith,
      record {
        sized = v.sized;
        within = v.within;
        list = v.list.2;
        distinct = v.distinct.1;
        counted = omega (arith, v.counted);
      },
      λ j. ground (arith, v.distinct.0, v.list.1),
    )

-- `sk_free` of a chunk that is not free makes it, and no other, free; the zone stays consistent.
pub put_chunk_lem :
    {zone : Zone} {c_next : ℕ → ℕ} {given_back : List ℕ} (i : ℕ)
    → IsZone zone c_next given_back
    → i < zone.nmax
    → available zone given_back i ≡ false
    → let (zone', c_next') = put_chunk (chunk_at zone i) zone c_next in
      IsZone zone' c_next' (i ∷ given_back)
      × ((j : ℕ) → available zone' (i ∷ given_back) j ≡ (available zone given_back j || (j == i)))
unfolding put_chunk
put_chunk_lem {zone} {c_next} {given_back} i v inside used =
    let chunk = chunk_at zone i in
    let links = update c_next chunk zone.freechunk in
    let here : links chunk ≡ zone.freechunk = ground arith in
    let handed_out : i ≤ zone.uindex = ground arith in
    let unlisted : member i given_back ≡ false = ground arith in
    let kept : (j : ℕ)
        → member j given_back ≡ true
        → links (chunk_at zone j) ≡ c_next (chunk_at zone j) =
      λ j h. ground (arith, chunk_differs zone.chunksize v.sized i j) in
    (
      record {
        sized = v.sized;
        within = v.within;
        list = (
          refl,
          handed_out,
          rw here (
              Begins-frame zone.baseptr zone.chunksize zone.uindex zone.uindex c_next links
                zone.freechunk given_back (omega arith) kept v.list),
        );
        distinct = (unlisted, v.distinct);
        counted = omega (arith, v.counted);
      },
      λ j. ground arith,
    )

-- The offset of the first chunk of a new zone.
abbrev first_offset : ℕ → ℕ
first_offset size = if is_power_of_two size then align zone_head size else align zone_head 8

first_offset_lem :
    (size : ℕ)
    → 0 < size
    → (zone_head ≤ first_offset size) × (first_offset size ≤ zone_head + 8 + size)
unfolding align
first_offset_lem size positive = ground (
  arith,
  div-mul-le_self (zone_head + size - 1) size,
  lt-div-mul-add {a = zone_head + size - 1} positive,
)

-- A new zone for chunks of a size that is at most a quarter of its own is consistent, has a free
-- chunk besides the one that is returned, and all its chunks lie behind its head and before its end.
pub new_zone_lem :
    (zone index size zone_size next : ℕ) (old : Zone) (c_next : ℕ → ℕ)
    → 0 < size
    → 4 * size ≤ zone_size
    → 32768 ≤ zone_size
    → let made = new_zone zone index size zone_size next old in
      IsZone made c_next []
      × (0 < made.nfree)
      × ((i : ℕ)
          → i < made.nmax
          → (zone + zone_head ≤ chunk_at made i) × (chunk_at made i + size ≤ zone + zone_size))
unfolding new_zone
new_zone_lem zone index size zone_size next old c_next positive quarter large =
    let off = first_offset size in
    let bounds = first_offset_lem size positive in
    let two : 2 ≤ (zone_size - off) / size =
      (le-div_iff_mul-le {x = 2} {y = zone_size - off} positive).1 (omega arith) in
    let fits = div-mul-le_self (zone_size - off) size in
    (
      record {
        sized = positive;
        within = omega arith;
        list = tt;
        distinct = tt;
        counted = omega arith;
      },
      omega arith,
      λ i lt.
          let room : (i + 1) * size ≤ (zone_size - off) / size * size =
            mul-le-mul_right size (omega arith) in
          (omega arith, omega arith),
    )
