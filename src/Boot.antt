-- ===== src/Boot.antt =====
-- src/memory/boot_allocator.c: the regions of memory before the other allocators run. An array with
-- its count is the list of its regions; adding to a full array panics, which is `none`.
pub mod Covers
pub mod Merged
pub mod Gaps
pub mod Free
pub mod Zones
pub mod Take
pub mod Times
pub mod Kept
pub mod At
pub mod Align
mod Tests
use kernel_legacy.Prelude.{
  ℕ, zero, suc, ◌+◌, ◌-◌, ◌*◌, ◌/◌, ◌%◌, ◌^◌, ◌≤◌, ◌<◌, min, max, bit_and, bit_or, ◌≡◌, refl, sym,
  ap, ap₂, ◌∙◌, fun_ext, ◌≢◌, ◌↔◌, ◌⊎◌, inl, inr, Bool, true, false, not, ◌&&◌, ◌||◌, Option, none,
  some, List, [], ◌∷◌, ◌++◌, map, arith, ltb, leb, ◌==◌, if◌then◌else◌, ltb→lt, lt→ltb, ==→eq,
  eq→==, ne→==, ==→ne, Bool-cases, Option-cases, length, get_or, set, replicate, length-append,
  length-set, length-replicate, get_or-set_self, get_or-set_ne, elem, remove, elem-append,
  elem-remove, remove_of_not_elem, distinct, distinct-remove, distinct-append-one, update,
}

pub record Region : Type 0 where
  pub start : ℕ
  pub end_ : ℕ

abbrev pub max_regions : ℕ
max_regions = 256

-- one round of `boot_allocator_sort_regions`: the regions before it, last one first, shift up until
-- one does not start later
unfoldable pub insert_back : Region → List Region → List Region
insert_back c [] = c ∷ []
insert_back c (x ∷ before) =
    if ltb c.start x.start then x ∷ insert_back c before else c ∷ x ∷ before

-- the loop; `before` is the sorted part, last one first
unfoldable pub sort_from : (before rest : List Region) → List Region
sort_from before [] = before
sort_from before (c ∷ rest) = sort_from (insert_back c before) rest

abbrev pub backwards : List Region → List Region → List Region
backwards [] acc = acc
backwards (r ∷ rest) acc = backwards rest (r ∷ acc)

unfoldable pub boot_allocator_sort_regions : List Region → List Region
boot_allocator_sort_regions l = backwards (sort_from [] l) []

-- the loop of `boot_allocator_merge_contiguous_regions`
unfoldable pub merge_from : Region → List Region → List Region
merge_from cur [] = cur ∷ []
merge_from cur (r ∷ rest) =
    let joined = merge_from (record { start = cur.start; end_ = r.end_ }) rest in
    let apart = cur ∷ merge_from r rest in if cur.end_ == r.start then joined else apart

-- `cur` is read before the regions are sorted.
unfoldable pub boot_allocator_merge_contiguous_regions : List Region → List Region
boot_allocator_merge_contiguous_regions [] = []
boot_allocator_merge_contiguous_regions (cur ∷ l) = elim (boot_allocator_sort_regions (cur ∷ l)) [
  | [] ↦ cur ∷ []
  | first ∷ rest ↦ merge_from cur rest
]

-- `BOOT_ALLOCATOR_SORT_AND_MERGE`
unfoldable pub sort_and_merge : List Region → List Region
sort_and_merge l = boot_allocator_merge_contiguous_regions (boot_allocator_sort_regions l)

unfoldable pub boot_allocator_range_overlaps : (start end_ : ℕ) → List Region → Bool
boot_allocator_range_overlaps start end_ [] = false
boot_allocator_range_overlaps start end_ (r ∷ rest) =
    let later = boot_allocator_range_overlaps start end_ rest in
    if not (leb end_ r.start || leb r.end_ start) then true else later

-- `boot_allocator_add_region` to the regions of its type
unfoldable pub boot_allocator_add_region : List Region → (start end_ : ℕ) → Option (List Region)
boot_allocator_add_region l start end_ =
    if ltb end_ start && not (end_ == 0)
    then none
    else if start == end_
    then some l
    else if leb max_regions (length l)
    then none
    else some (l ++ (record { start = start; end_ = end_ } ∷ []))
