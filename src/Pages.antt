-- ===== src/Pages.antt =====
-- src/memory/page.c: the descriptors of the pages, their start from the regions of the boot allocator,
-- and the search for a free page. A descriptor is the one of Buddy; a page is its number.
pub mod States
pub mod Nearest
mod Tests
use kernel_legacy.Boot.{Region}
use kernel_legacy.Boot.Take.{Bootmem, boot_alloc}
use kernel_legacy.Boot.Gaps.{lowmem_start, highmem_start}
use kernel_legacy.Buddy.{Page, page_state, state_available, state_free, page_magic}
use kernel_legacy.Prelude.{
  ℕ, zero, suc, ◌+◌, ◌-◌, ◌*◌, ◌/◌, ◌%◌, ◌^◌, ◌≤◌, ◌<◌, min, max, bit_and, bit_or, ◌≡◌, refl, sym,
  ap, ap₂, ◌∙◌, fun_ext, ◌≢◌, ◌↔◌, ◌⊎◌, inl, inr, Bool, true, false, not, ◌&&◌, ◌||◌, Option, none,
  some, List, [], ◌∷◌, ◌++◌, map, arith, ltb, leb, ◌==◌, if◌then◌else◌, ltb→lt, lt→ltb, ==→eq,
  eq→==, ne→==, ==→ne, Bool-cases, Option-cases, length, get_or, set, replicate, length-append,
  length-set, length-replicate, get_or-set_self, get_or-set_ne, elem, remove, elem-append,
  elem-remove, remove_of_not_elem, distinct, distinct-remove, distinct-append-one, update,
}

-- the regions of the zones, numbered as in `enum zone_type`
pub record Zones : Type 0 where
  pub free_zones : ℕ → List Region
  pub res_zones : ℕ → List Region

abbrev pub state_unusable : ℕ
state_unusable = 0

abbrev pub state_reserved : ℕ
state_reserved = 1

abbrev pub zone_dma : ℕ
zone_dma = 8

abbrev pub zone_lowmem : ℕ
zone_lowmem = 16

abbrev pub zone_highmem : ℕ
zone_highmem = 32

unfoldable pub page_addr_is_in_reg : List Region → (addr : ℕ) → Bool
page_addr_is_in_reg [] addr = false
page_addr_is_in_reg (reg ∷ rest) addr =
    let later = page_addr_is_in_reg rest addr in
    if leb reg.start addr && ltb addr reg.end_ then true else later

-- the loop of `page_get_state_flag`, over `n` zones from `zone_idx` on
unfoldable pub state_from : Zones → (addr zone_idx n : ℕ) → ℕ
state_from z addr zone_idx zero = state_unusable
state_from z addr zone_idx (suc n) =
    let later = state_from z addr (zone_idx + 1) n in
    if page_addr_is_in_reg (z.free_zones zone_idx) addr
    then state_available
    else if page_addr_is_in_reg (z.res_zones zone_idx) addr
    then state_reserved
    else later

-- `MAX_ZONE` is 3
unfoldable pub page_get_state_flag : Zones → (addr : ℕ) → ℕ
page_get_state_flag z addr = state_from z addr 0 3

unfoldable pub page_get_zone_flag : (addr : ℕ) → ℕ
page_get_zone_flag addr =
    if leb highmem_start addr
    then zone_highmem
    else if leb lowmem_start addr
    then zone_lowmem
    else zone_dma

unfoldable pub page_get_appropriate_flag : Zones → (addr : ℕ) → ℕ
page_get_appropriate_flag z addr = bit_or (page_get_state_flag z addr) (page_get_zone_flag addr)

-- what the loop of `page_descriptor_init` leaves in each descriptor
unfoldable pub descriptor : Zones → (page : ℕ) → Page
descriptor z i = record {
  flags = page_get_appropriate_flag z (i * 4096);
  private_data = page_magic;
}

-- `MAX_PAGES * sizeof(struct page)`
abbrev pub descriptors_size : ℕ
descriptors_size = 1048576 * 16

-- the zones that the boot allocator keeps
abbrev pub zones_in : Bootmem → Zones
zones_in b = record { free_zones = b.free_zones; res_zones = b.res_zones }

-- the descriptors, and the boot allocator behind the call; `none` is a panic
unfoldable pub page_descriptor_init : Bootmem → Option ((ℕ → Page) × Bootmem)
page_descriptor_init b = elim (boot_alloc descriptors_size 0 true b) [
  | none ↦ none
  | some (ret, after) ↦ elim ret [
    | none ↦ none
    | some p_addr ↦ if p_addr == 0 then none else some (descriptor (zones_in after), after)
  ]
]

-- `PAGE_IS_FREE`
abbrev pub page_is_free : Page → Bool
page_is_free p = page_state p == state_free

-- `page_descriptor_foreach` with `count_free_pages`, and with `count_reserved_pages`
unfoldable pub page_get_updated_page_free_count : (page : ℕ → Page) → (total_pages : ℕ) → ℕ
page_get_updated_page_free_count page zero = 0
page_get_updated_page_free_count page (suc n) =
    let before = page_get_updated_page_free_count page n in
    if page_is_free (page n) then suc before else before

unfoldable pub page_get_updated_reserved_count : (page : ℕ → Page) → (total_pages : ℕ) → ℕ
page_get_updated_reserved_count page zero = 0
page_get_updated_reserved_count page (suc n) =
    let before = page_get_updated_reserved_count page n in
    if not (page_is_free (page n)) then suc before else before

-- `none` is NULL
unfoldable pub page_index_to_page : (total_pages idx : ℕ) → Option ℕ
page_index_to_page total_pages idx = if leb total_pages idx then none else some idx

-- the page of an address; `ALIGN_DOWN` before the division changes nothing
abbrev pub page_addr_to_page : (addr : ℕ) → ℕ
page_addr_to_page addr = addr / 4096

abbrev pub page_to_phys : (page : ℕ) → ℕ
page_to_phys page = page * 4096 % 4294967296

abbrev pub page_addr_is_same_page : (addr1 addr2 : ℕ) → Bool
page_addr_is_same_page addr1 addr2 = addr1 / 4096 == addr2 / 4096

pub data Direction : Type 0 where
  next prev : Direction

-- the loop of `page_addr_to_usable` up to the last page, which is `n` pages away
unfoldable pub usable_up : (page : ℕ → Page) → (ret n : ℕ) → Option ℕ
usable_up page ret zero = none
usable_up page ret (suc n) =
    let later = usable_up page (suc ret) n in if page_is_free (page ret) then some ret else later

-- the loop down to the first page
unfoldable pub usable_down : (page : ℕ → Page) → (ret : ℕ) → Option ℕ
usable_down page zero = if page_is_free (page 0) then some 0 else none
usable_down page (suc ret) =
    let later = usable_down page ret in
    if page_is_free (page (suc ret)) then some (suc ret) else later

unfoldable pub page_addr_to_usable :
    (page : ℕ → Page) → (total_pages addr : ℕ) → Direction → Option ℕ
page_addr_to_usable page total_pages addr next =
    let ret = page_addr_to_page addr in usable_up page ret (total_pages - ret)
page_addr_to_usable page total_pages addr prev =
    let ret = page_addr_to_page addr in if ltb ret total_pages then usable_down page ret else none
