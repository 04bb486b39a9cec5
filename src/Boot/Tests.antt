-- ===== src/Boot/Tests.antt =====
-- Runs of the boot allocator over a few regions of low memory.
use kernel_legacy.Boot.{
  Region, insert_back, sort_from, boot_allocator_sort_regions, merge_from,
  boot_allocator_merge_contiguous_regions, sort_and_merge, boot_allocator_range_overlaps,
  boot_allocator_add_region,
}
use kernel_legacy.Boot.Covers.{in_region, covers, Ascending}
use kernel_legacy.Boot.Merged.{Separated, sort_and_merge-covers}
use kernel_legacy.Boot.Gaps.{
  boot_allocator_free_handler, free_from, holes_from, boot_allocator_fill_gaps_as_holes,
  boot_alloc_get_addr_zone, boot_allocator_init_zones, parts_from,
}
use kernel_legacy.Boot.Free.{boot_allocator_free_handler-covers}
use kernel_legacy.Boot.Zones.{boot_allocator_init_zones-covers}
use kernel_legacy.Boot.Take.{
  Bootmem, boot_alloc, boot_alloc_at, boot_allocator_add_to_zones, find_room, find_fit, fit_in,
  split_behind, log_block,
}
use kernel_legacy.Boot.Times.{once, times}
use kernel_legacy.Boot.Kept.{block, boot_alloc-takes}
use kernel_legacy.Boot.Align.{page-Aligns}
use kernel_legacy.Boot.At.{boot_alloc_at-takes}
use kernel_legacy.Prelude.{
  ℕ, ◌+◌, ◌≤◌, ◌≡◌, refl, ◌≢◌, true, false, not, ◌&&◌, ◌||◌, some, List, [], ◌∷◌, arith, ltb, leb,
  ◌==◌, if◌then◌else◌, update,
}

abbrev region : ℕ → ℕ → Region
region s e = record { start = s; end_ = e }

abbrev mixed : List Region
mixed =
    region 0x3000 0x4000 ∷ region 0x1000 0x2000 ∷ region 0x2000 0x3000 ∷ region 0x8000 0x9000 ∷ []

sort_run :
    boot_allocator_sort_regions mixed
    ≡ region 0x1000 0x2000 ∷ region 0x2000 0x3000 ∷ region 0x3000 0x4000 ∷ region 0x8000 0x9000 ∷ []
unfolding boot_allocator_sort_regions sort_from insert_back
sort_run = refl

merge_run : sort_and_merge mixed ≡ region 0x1000 0x4000 ∷ region 0x8000 0x9000 ∷ []
unfolding sort_and_merge boot_allocator_merge_contiguous_regions merge_from
    boot_allocator_sort_regions sort_from insert_back
merge_run = refl

sort_and_merge-covers_example :
    ((a : ℕ) → covers (sort_and_merge mixed) a ≡ covers mixed a)
    × Ascending (sort_and_merge mixed)
    × Separated (sort_and_merge mixed)
sort_and_merge-covers_example =
    sort_and_merge-covers mixed (omega arith, (omega arith, (omega arith, (omega arith, tt))))

abbrev reserved : List Region
reserved = region 0x2000 0x3000 ∷ region 0x5000 0x9000 ∷ []

abbrev found : List Region
found = region 0x1000 0x2000 ∷ region 0x3000 0x5000 ∷ []

free_run : boot_allocator_free_handler reserved [] 0x1000 0x8000 ≡ some found
unfolding boot_allocator_free_handler free_from boot_allocator_range_overlaps
    boot_allocator_add_region
free_run = refl

none_free : boot_allocator_range_overlaps 0x1000 0x8000 [] ≡ false
unfolding boot_allocator_range_overlaps
none_free = refl

boot_allocator_free_handler-covers_example :
    covers found 0x4000
    ≡ (covers [] 0x4000 || (leb 0x1000 0x4000 && ltb 0x4000 0x8000 && not (covers reserved 0x4000)))
boot_allocator_free_handler-covers_example =
    boot_allocator_free_handler-covers reserved [] found 0x1000 0x8000 (omega arith, tt)
      (omega arith, (omega arith, tt)) none_free free_run 0x4000

holes_run : boot_allocator_fill_gaps_as_holes found reserved [] ≡ some []
unfolding boot_allocator_fill_gaps_as_holes holes_from sort_and_merge merge_from
    boot_allocator_merge_contiguous_regions boot_allocator_sort_regions sort_from insert_back
holes_run = refl

-- a region over the end of the DMA zone is split there
zones_run :
    boot_allocator_init_zones (region 0xFFF000 0x1001000 ∷ []) (λ z. []) 0
    ≡ region 0x1000000 0x1001000 ∷ []
unfolding boot_allocator_init_zones parts_from boot_alloc_get_addr_zone
zones_run = refl

boot_allocator_init_zones-covers_example :
    covers (boot_allocator_init_zones (region 0xFFF000 0x1001000 ∷ []) (λ z. []) 0) 0x1000004 ≡ (
      covers [] 0x1000004
      || (boot_alloc_get_addr_zone 0x1000004 == 0
          && covers (region 0xFFF000 0x1001000 ∷ []) 0x1000004))
boot_allocator_init_zones-covers_example =
    boot_allocator_init_zones-covers (region 0xFFF000 0x1001000 ∷ []) (λ z. []) 0 0x1000004
      (omega arith, tt)

abbrev boot : Bootmem
boot = record {
  frozen = false;
  free_zones = λ z. if z == 1 then found else [];
  res_zones = λ z. if z == 1 then reserved else [];
  allocations = [];
}

abbrev behind_alloc : Bootmem
behind_alloc =
    log_block boot (update boot.free_zones 1 (region 0x1000 0x2000 ∷ region 0x3000 0x4000 ∷ []))
      (update boot.res_zones 1 (region 0x2000 0x3000 ∷ region 0x4000 0x9000 ∷ [])) 0x4000 0x1000
      true

alloc_run : boot_alloc 0x1000 1 true boot ≡ some (some 0x4000, behind_alloc)
unfolding boot_alloc find_room boot_allocator_add_to_zones sort_and_merge merge_from
    boot_allocator_merge_contiguous_regions boot_allocator_sort_regions sort_from insert_back
    boot_alloc_get_addr_zone
alloc_run = refl

low_zone : boot_alloc_get_addr_zone 0x4000 ≡ 1
unfolding boot_alloc_get_addr_zone
low_zone = refl

boot_alloc-takes_example :
    ((a : ℕ) → times found a ≡ times (behind_alloc.free_zones 1) a + once (block 0x4000 0x1000) a)
    × ((z : ℕ) → 1 ≢ z → behind_alloc.free_zones z ≡ boot.free_zones z)
    × ((a : ℕ)
        → covers (behind_alloc.res_zones (boot_alloc_get_addr_zone 0x4000)) a ≡ (
            covers (boot.res_zones (boot_alloc_get_addr_zone 0x4000)) a
            || in_region (block 0x4000 0x1000) a))
boot_alloc-takes_example =
    boot_alloc-takes 0x1000 1 true boot behind_alloc 0x4000 (omega arith, (omega arith, tt))
      (omega arith, (omega arith, tt)) (rw low_zone (omega arith, (omega arith, tt))) alloc_run

abbrev behind_at : Bootmem
behind_at =
    log_block boot (update boot.free_zones 1 (region 0x1000 0x2000 ∷ region 0x4000 0x5000 ∷ []))
      (update boot.res_zones 1 (region 0x2000 0x4000 ∷ region 0x5000 0x9000 ∷ [])) 0x3000 0x1000
      false

at_run :
    boot_alloc_at 0x1000 1 false 0x2800 0x10000 (some 4096) boot ≡ some (some 0x3000, behind_at)
unfolding boot_alloc_at find_fit fit_in split_behind boot_allocator_add_to_zones sort_and_merge
    merge_from boot_allocator_merge_contiguous_regions boot_allocator_sort_regions sort_from
    insert_back boot_alloc_get_addr_zone
at_run = refl

low_zone_at : boot_alloc_get_addr_zone 0x3000 ≡ 1
unfolding boot_alloc_get_addr_zone
low_zone_at = refl

boot_alloc_at-takes_example :
    (0x2800 ≤ 0x3000)
    × (0x3000 + 0x1000 ≤ 0x10000)
    × ((a : ℕ) → times found a ≡ times (behind_at.free_zones 1) a + once (block 0x3000 0x1000) a)
    × ((a : ℕ)
        → covers (behind_at.res_zones (boot_alloc_get_addr_zone 0x3000)) a ≡ (
            covers (boot.res_zones (boot_alloc_get_addr_zone 0x3000)) a
            || in_region (block 0x3000 0x1000) a))
boot_alloc_at-takes_example =
    boot_alloc_at-takes 0x1000 1 false 0x2800 0x10000 (some 4096) boot behind_at 0x3000
      (omega arith, (omega arith, tt)) (omega arith, (omega arith, tt))
      (rw low_zone_at (omega arith, (omega arith, tt))) (page-Aligns 0x1000 0x10000 (omega arith))
      (omega arith) at_run
