-- ===== src/Pages/Tests.antt =====
-- Runs over two free regions and a reserved one between them.
use kernel_legacy.Boot.{
  Region, sort_and_merge, merge_from, boot_allocator_merge_contiguous_regions,
  boot_allocator_sort_regions, sort_from, insert_back,
}
use kernel_legacy.Boot.Covers.{Forward}
use kernel_legacy.Boot.Take.{Bootmem, boot_alloc, find_room, boot_allocator_add_to_zones}
use kernel_legacy.Boot.Gaps.{boot_alloc_get_addr_zone, boot_allocator_init_zones, parts_from}
use kernel_legacy.Buddy.{Page}
use kernel_legacy.Pages.{
  page_descriptor_init, descriptor, zones_in, page_addr_to_usable, next, prev, usable_up,
  usable_down,
}
use kernel_legacy.Pages.States.{IsSetUp, Describes, page_descriptor_init-states}
use kernel_legacy.Pages.Nearest.{Usable, page_addr_to_usable-IsNearest}
use kernel_legacy.Prelude.{
  ℕ, zero, suc, ◌*◌, ◌≡◌, refl, true, false, ◌||◌, some, List, [], ◌∷◌, arith, ◌==◌, if◌then◌else◌,
  ne→==, update,
}

abbrev free : List Region
free =
    record { start = 0x1000; end_ = 0x3000 } ∷ record { start = 0x2000000; end_ = 0x3000000 } ∷ []

abbrev res : List Region
res = record { start = 0x3000; end_ = 0x5000 } ∷ []

-- the boot allocator with these regions
abbrev boot : Bootmem
boot = record {
  frozen = false;
  free_zones = boot_allocator_init_zones free (λ z. []);
  res_zones = boot_allocator_init_zones res (λ z. []);
  allocations = [];
}

boot-IsSetUp : IsSetUp free res boot
unfolding boot_allocator_init_zones parts_from boot_alloc_get_addr_zone
boot-IsSetUp = record {
  free_below = (omega arith, (omega arith, tt));
  res_below = (omega arith, tt);
  free_zones = λ z. refl;
  res_zones = λ z. refl;
  forward = (omega arith, tt);
  below = (omega arith, tt);
  res_forward = ordered;
  apart = λ a. ground arith;
}
  where
    ordered : (z : ℕ) → Forward (boot.res_zones z)
    ordered zero = tt
    ordered (suc zero) = (omega arith, tt)
    ordered (suc (suc z)) = rw (ne→== 1 (suc (suc z)) (omega arith)) tt

abbrev taken : Bootmem
taken = record {
  frozen = false;
  free_zones = update boot.free_zones 0 [];
  res_zones = update boot.res_zones 0 (record { start = 0x2000000; end_ = 0x3000000 } ∷ []);
  allocations = record { p_addr = 0x2000000; size = 0x1000000; free = true } ∷ [];
}

init_run : page_descriptor_init boot ≡ some (descriptor (zones_in taken), taken)
unfolding page_descriptor_init boot_alloc find_room boot_allocator_add_to_zones sort_and_merge
    merge_from boot_allocator_merge_contiguous_regions boot_allocator_sort_regions sort_from
    insert_back boot_alloc_get_addr_zone boot_allocator_init_zones parts_from
init_run = refl

page_descriptor_init-states_example :
    (at : ℕ) × ((page : ℕ) → Describes free res at (page * 4096) (descriptor (zones_in taken) page))
page_descriptor_init-states_example =
    page_descriptor_init-states free res boot taken (descriptor (zones_in taken)) boot-IsSetUp
      init_run

-- pages 2 and 5 are free
abbrev pages : ℕ → Page
pages i = record { flags = if (i == 2) || (i == 5) then 19 else 20; private_data = 0 }

up_run : page_addr_to_usable pages 8 0x3000 next ≡ some 5
unfolding page_addr_to_usable usable_up
up_run = refl

down_run : page_addr_to_usable pages 8 0x4FFF prev ≡ some 2
unfolding page_addr_to_usable usable_down
down_run = refl

page_addr_to_usable-IsNearest_example :
    Usable pages 8 4 prev (page_addr_to_usable pages 8 0x4FFF prev)
page_addr_to_usable-IsNearest_example = page_addr_to_usable-IsNearest pages 8 0x4FFF prev
