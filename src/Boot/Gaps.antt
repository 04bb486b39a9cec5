-- ===== src/Boot/Gaps.antt =====
-- `boot_allocator_free_handler`, `boot_allocator_fill_gaps_as_holes` and
-- `boot_allocator_init_zones`: what becomes of the regions of the memory map.
use kernel_legacy.Boot.{
  Region, sort_and_merge, boot_allocator_range_overlaps, boot_allocator_add_region,
}
use kernel_legacy.Prelude.{
  ℕ, zero, suc, not, ◌&&◌, ◌||◌, Option, none, some, List, [], ◌∷◌, ◌++◌, ltb, leb, if◌then◌else◌,
  update,
}

-- a gap becomes a free region where it is not empty and touches none
abbrev pub add_gap : (start end_ : ℕ) → List Region → Option (List Region)
add_gap start end_ free =
    if ltb start end_ && not (boot_allocator_range_overlaps start end_ free)
    then boot_allocator_add_region free start end_
    else some free

-- the loop of `boot_allocator_free_handler` over the reserved regions that are left
unfoldable pub free_from : List Region → (cur end_ : ℕ) → List Region → Option (List Region)
free_from [] cur end_ free = add_gap cur end_ free
free_from (res ∷ rest) cur end_ free =
    let next = if ltb cur res.end_ then res.end_ else cur in
    if leb res.end_ cur || leb end_ res.start
    then free_from rest cur end_ free
    else elim (add_gap cur res.start free) [
      | none ↦ none
      | some more ↦ if leb end_ next then some more else free_from rest next end_ more
    ]

unfoldable pub boot_allocator_free_handler :
    (reserved free : List Region) → (start end_ : ℕ) → Option (List Region)
boot_allocator_free_handler reserved free start end_ = free_from reserved start end_ free

-- the loop of `boot_allocator_fill_gaps_as_holes`, behind a region that ends at `end_`
unfoldable pub holes_from : (end_ : ℕ) → List Region → List Region → Option (List Region)
holes_from end_ [] holes = some holes
holes_from end_ (r ∷ rest) holes =
    elim (if ltb end_ r.start then boot_allocator_add_region holes end_ r.start else some holes) [
      | none ↦ none
      | some more ↦ holes_from r.end_ rest more
    ]

-- the new holes
unfoldable pub boot_allocator_fill_gaps_as_holes :
    (free reserved holes : List Region) → Option (List Region)
boot_allocator_fill_gaps_as_holes free reserved holes = elim (sort_and_merge (free ++ reserved)) [
  | [] ↦ some holes
  | r ∷ rest ↦ elim (holes_from r.end_ rest holes) [
    | none ↦ none
    | some more ↦ some (sort_and_merge more)
  ]
]

abbrev pub lowmem_start : ℕ
lowmem_start = 0x01000000

abbrev pub highmem_start : ℕ
highmem_start = 0x38000000

abbrev pub highmem_end : ℕ
highmem_end = 0xFFFFFFFF

-- the zones are numbered as in `enum zone_type`
unfoldable pub boot_alloc_get_addr_zone : ℕ → ℕ
boot_alloc_get_addr_zone addr =
    if leb highmem_start addr then 2 else if leb lowmem_start addr then 0 else 1

-- `zone_end` for an address
abbrev pub zone_end : ℕ → ℕ
zone_end addr =
    if leb highmem_start addr
    then highmem_end
    else if leb lowmem_start addr
    then highmem_start
    else lowmem_start

-- the `while` of `boot_allocator_init_zones`, for at most `n` rounds: the parts and their zones
unfoldable pub parts_from : (n cur region_end : ℕ) → List (ℕ × Region)
parts_from zero cur region_end = []
parts_from (suc n) cur region_end =
    let sub_end = if ltb region_end (zone_end cur) then region_end else zone_end cur in
    let rest = parts_from n sub_end region_end in
    if ltb cur region_end
    then (if ltb cur sub_end
        then (boot_alloc_get_addr_zone cur, record { start = cur; end_ = sub_end }) ∷ rest
        else rest)
    else []

-- There are three zones.
abbrev pub parts : Region → List (ℕ × Region)
parts r = parts_from 3 r.start r.end_

-- the parts are appended to the regions of their zones
abbrev pub add_parts : List (ℕ × Region) → (ℕ → List Region) → ℕ → List Region
add_parts [] zones = zones
add_parts ((zone, r) ∷ rest) zones = add_parts rest (update zones zone (zones zone ++ (r ∷ [])))

unfoldable pub boot_allocator_init_zones : List Region → (ℕ → List Region) → ℕ → List Region
boot_allocator_init_zones [] zones = zones
boot_allocator_init_zones (r ∷ rest) zones =
    boot_allocator_init_zones rest (add_parts (parts r) zones)
