-- ===== src/Vma/Tests.antt =====
-- Runs of the areas, and the theorems at 16 KiB from 0x10000 of which the second page is allocated.
use kernel_legacy.Vma.{
  Area, free, allocated, eager, Memory, vma_alloc, vma_destroy_area, vma_find_by_addr,
  vma_first_fit_alloc, vma_map_area, choose, vma_alloc_in_area, vma_split_area, fill, take_pages,
  free_pages, vma_merge_area, merge_neighbor,
}
use kernel_legacy.Vma.Lookup.{Locates, vma_find_by_addr-Locates}
use kernel_legacy.Vma.Alloc.{IsValid, vma_destroy_area-IsValid}
use kernel_legacy.Vma.Fill.{IsSound, vma_alloc-IsSound}
use kernel_legacy.Vma.Mmap.{Maps, Unmaps, mmap, munmap, mmap-IsValid, munmap-IsValid}
use kernel_legacy.Prelude.{
  ℕ, ◌≡◌, refl, true, none, some, List, [], ◌∷◌, arith, ◌==◌, if◌then◌else◌,
}

abbrev hole : ℕ → ℕ → Area
hole start size = record {
  state = free;
  start_vaddr = start;
  size = size;
  pte_flags = 0;
  nr_pages = 0;
  pages = none;
}

abbrev held : Area
held = record {
  state = allocated;
  start_vaddr = 0x11000;
  size = 0x1000;
  pte_flags = 7;
  nr_pages = 1;
  pages = some (0x5000 ∷ []);
}

abbrev areas : List Area
areas = hole 0x10000 0x1000 ∷ held ∷ hole 0x12000 0x2000 ∷ []

-- two pages of memory, the second of which is missing
abbrev short : Memory
short = record {
  node = true;
  array = true;
  page = λ i. if i == 0 then 0x7000 else 0;
  maps = λ i. true;
}

areas-IsValid : IsValid 0x10000 0x14000 areas
areas-IsValid =
    ((refl, omega arith, refl, (refl, omega arith, refl, (refl, omega arith, refl, refl))), refl)

-- the page that was taken is given back, and the areas are as before
alloc_run :
    vma_alloc short areas 0x1800 3 0 eager
    ≡ (record { returned = none; given_back = 0x7000 ∷ []; areas = areas })
unfolding vma_alloc choose vma_first_fit_alloc vma_alloc_in_area vma_split_area fill vma_map_area
    take_pages vma_destroy_area free_pages vma_merge_area merge_neighbor
alloc_run = refl

destroy_run : vma_destroy_area areas 1 ≡ (0x5000 ∷ [], hole 0x10000 0x4000 ∷ [])
unfolding vma_destroy_area free_pages vma_merge_area merge_neighbor
destroy_run = refl

vma_alloc-IsSound_example :
    IsSound 0x10000 0x14000 0x1800 3 eager (vma_alloc short areas 0x1800 3 0 eager)
vma_alloc-IsSound_example =
    vma_alloc-IsSound short 0x10000 0x14000 areas 0x1800 3 0 eager (omega arith) areas-IsValid
      (omega arith)

vma_destroy_area-IsValid_example : IsValid 0x10000 0x14000 (vma_destroy_area areas 1).1
vma_destroy_area-IsValid_example =
    vma_destroy_area-IsValid 0x10000 0x14000 areas 1 (omega arith) areas-IsValid

vma_find_by_addr-Locates_example :
    Locates 0x10000 0x14000 0x11abc areas (vma_find_by_addr 0x11abc areas)
vma_find_by_addr-Locates_example =
    vma_find_by_addr-Locates 0x10000 0x14000 0x11abc areas (omega arith) (areas-IsValid.0)

mmap-IsValid_example : Maps short 0x10000 0x14000 areas 5000 3 (mmap short areas 0x10000 5000 3)
mmap-IsValid_example =
    mmap-IsValid short 0x10000 0x14000 areas 0x10000 5000 3 (omega arith) areas-IsValid

munmap-IsValid_example :
    IsValid 0x10000 0x14000 (munmap areas 0x11000 1).1.1
    × Unmaps areas 0x11000 1 (munmap areas 0x11000 1)
munmap-IsValid_example = munmap-IsValid 0x10000 0x14000 areas 0x11000 1 (omega arith) areas-IsValid
