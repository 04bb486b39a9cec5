-- ===== src/Vma.antt =====
-- src/memory/vma.c: the areas of an address space, in the order of their list. A pointer to an area
-- is its position in that list. What `kmalloc`, `buddy_alloc_pages` and `vmm_map_page` answer is a
-- parameter; the entries of the page tables are not part of this model.
pub mod Tiling
pub mod Merging
pub mod Alloc
pub mod Fill
pub mod Mmap
pub mod Lookup
mod Tests
use kernel_legacy.Prelude.{
  ℕ, zero, suc, ◌+◌, ◌-◌, ◌*◌, ◌/◌, ◌%◌, ◌^◌, ◌≤◌, ◌<◌, min, max, bit_and, bit_or, ◌≡◌, refl, sym,
  ap, ap₂, ◌∙◌, fun_ext, ◌≢◌, ◌↔◌, ◌⊎◌, inl, inr, Bool, true, false, not, ◌&&◌, ◌||◌, Option, none,
  some, List, [], ◌∷◌, ◌++◌, map, arith, ltb, leb, ◌==◌, if◌then◌else◌, ltb→lt, lt→ltb, ==→eq,
  eq→==, ne→==, Bool-cases, Option-cases, length, get_or, set, replicate, length-append, length-set,
  length-replicate, get_or-set_self, get_or-set_ne, elem, remove, elem-append, elem-remove,
  remove_of_not_elem, distinct, distinct-remove, distinct-append-one, update,
}

pub data AreaState : Type 0 where
  free allocated lazy : AreaState

pub data AllocMode : Type 0 where
  eager on_demand : AllocMode

pub record Area : Type 0 where
  pub state : AreaState
  pub start_vaddr : ℕ
  pub size : ℕ
  pub pte_flags : ℕ
  pub nr_pages : ℕ
  pub pages : Option (List ℕ)

-- What the calls of one allocation answer: whether `kmalloc` has memory for a `struct vm_area` and
-- for the array of pages, the i-th page of the buddy allocator (0 for NULL), and whether the i-th
-- page can be mapped.
pub record Memory : Type 0 where
  pub node : Bool
  pub array : Bool
  pub page : ℕ → ℕ
  pub maps : ℕ → Bool

abbrev pub page_size : ℕ
page_size = 4096

-- `DIV_ROUND_UP(size, PAGE_SIZE)` and `ALIGN(size, PAGE_SIZE)`, in 32 bits
abbrev pub page_count : ℕ → ℕ
page_count size = (size + page_size - 1) % 2 ^ 32 / page_size

abbrev pub page_align : ℕ → ℕ
page_align size = page_count size * page_size

abbrev pub is_free : Area → Bool
is_free a = elim a.state [ free ↦ true | allocated ↦ false | lazy ↦ false ]

abbrev pub vma_areas_are_neighbors : Area → Area → Bool
vma_areas_are_neighbors a b = (a.start_vaddr + a.size) % 2 ^ 32 == b.start_vaddr

-- `merge_neighbor` of the first area of a list and the one behind it
unfoldable pub merge_neighbor : List Area → List Area
merge_neighbor [] = []
merge_neighbor (a ∷ []) = a ∷ []
merge_neighbor (a ∷ b ∷ rest) =
    if is_free a && is_free b && vma_areas_are_neighbors a b
    then record a { size = (a.size + b.size) % 2 ^ 32 } ∷ rest
    else a ∷ b ∷ rest

-- `vma_merge_area` of the area at a position, with the next one and then with the one before
unfoldable pub vma_merge_area : List Area → ℕ → List Area
vma_merge_area [] i = []
vma_merge_area (a ∷ rest) zero = merge_neighbor (a ∷ rest)
vma_merge_area (p ∷ rest) (suc zero) = merge_neighbor (p ∷ merge_neighbor rest)
vma_merge_area (p ∷ rest) (suc (suc i)) = p ∷ vma_merge_area rest (suc i)

abbrev pub area_at : List Area → ℕ → Option Area
area_at [] i = none
area_at (a ∷ rest) zero = some a
area_at (a ∷ rest) (suc i) = area_at rest i

-- the list with other areas in place of the one at a position
abbrev pub put_at : List Area → ℕ → List Area → List Area
put_at [] i new = []
put_at (a ∷ rest) zero new = new ++ rest
put_at (a ∷ rest) (suc i) new = a ∷ put_at rest i new

-- `list_for_each_entry` up to the first area that passes a test
abbrev pub find_area : (Area → Bool) → List Area → Option ℕ
find_area test [] = none
find_area test (a ∷ rest) =
    let later = find_area test rest in
    if test a then some 0 else elim later [ none ↦ none | some i ↦ some (suc i) ]

unfoldable pub vma_first_fit_alloc : List Area → ℕ → Option ℕ
vma_first_fit_alloc areas size = find_area (λ a. leb size a.size && is_free a) areas

unfoldable pub vma_find_by_start : ℕ → List Area → Option ℕ
vma_find_by_start addr areas = find_area (λ a. a.start_vaddr == addr) areas

unfoldable pub vma_find_by_addr : ℕ → List Area → Option ℕ
vma_find_by_addr addr areas =
    find_area (λ a. leb a.start_vaddr addr && ltb addr ((a.start_vaddr + a.size) % 2 ^ 32)) areas

-- `vma_split_area`: NULL, or the new area and what is left of the old one behind it
unfoldable pub vma_split_area : (node : Bool) → Area → ℕ → Option (Area × List Area)
vma_split_area node a size =
    if ltb a.size (page_align size)
    then none
    else if page_align size == a.size
    then some (record a { nr_pages = page_count (page_align size); state = allocated }, [])
    else if not node
    then none
    else some (
      record {
        state = allocated;
        start_vaddr = a.start_vaddr;
        size = page_align size;
        pte_flags = 0;
        nr_pages = page_count (page_align size);
        pages = none;
      },
      record a {
        start_vaddr = (a.start_vaddr + page_align size) % 2 ^ 32;
        size = a.size - page_align size;
      }
          ∷ [],
    )

-- the first loop of `vma_map_area`, for `n` pages from `i` on: the array, which held zeros, and
-- whether every page was there
unfoldable pub take_pages : (ℕ → ℕ) → (i n : ℕ) → List ℕ × Bool
take_pages page i zero = ([], true)
take_pages page i (suc n) =
    let rest = take_pages page (i + 1) n in
    if page i == 0 then (replicate (suc n) 0, false) else (page i ∷ rest.0, rest.1)

-- the second loop
abbrev pub map_pages : (ℕ → Bool) → (i n : ℕ) → Bool
map_pages maps i zero = true
map_pages maps i (suc n) = maps i && map_pages maps (i + 1) n

unfoldable pub vma_map_area : Memory → Area → Area × Bool
vma_map_area m a =
    let (pages, all) = take_pages m.page 0 a.nr_pages in
    (record a { pages = some pages }, all && map_pages m.maps 0 a.nr_pages)

-- the pages that the loop of `vma_destroy_area` gives back to the buddy allocator
unfoldable pub free_pages : ℕ → List ℕ → List ℕ
free_pages zero pages = []
free_pages (suc n) [] = []
free_pages (suc n) (p ∷ rest) = let later = free_pages n rest in if p == 0 then later else p ∷ later

abbrev pub pages_of : Area → List ℕ
pages_of a = elim a.pages [ none ↦ [] | some pages ↦ free_pages a.nr_pages pages ]

abbrev pub emptied : Area → Area
emptied a = record a { pages = none; nr_pages = 0; state = free; pte_flags = 0 }

-- the pages that are given back, and the areas
unfoldable pub vma_destroy_area : List Area → ℕ → List ℕ × List Area
vma_destroy_area areas i = elim (area_at areas i) [
  | none ↦ ([], areas)
  | some a ↦ (pages_of a, vma_merge_area (put_at areas i (emptied a ∷ [])) i)
]

-- what an allocation returns (`none` for NULL), the pages it gave back and the areas it leaves
pub record Allocation : Type 0 where
  pub returned : Option ℕ
  pub given_back : List ℕ
  pub areas : List Area

-- `return NULL` with nothing done
abbrev pub unchanged : List Area → Allocation
unchanged areas = record { returned = none; given_back = []; areas = areas }

-- `free_on_error`
abbrev pub undo : List Area → ℕ → Allocation
undo areas i =
    let (pages, left) = vma_destroy_area areas i in
    record { returned = none; given_back = pages; areas = left }

-- from the array of pages on
unfoldable pub fill : Memory → List Area → (i : ℕ) → Area → List Area → ℕ → AllocMode → Allocation
fill m areas i new left flags mode =
    let sized = record new { pages = some (replicate new.nr_pages 0); pte_flags = flags } in
    if not m.array then undo (put_at areas i (new ∷ left)) i else elim mode [
      | on_demand ↦ record {
        returned = some i;
        given_back = [];
        areas = put_at areas i (record sized { state = lazy } ∷ left);
      }
      | eager ↦
          let (full, done) = vma_map_area m sized in
          let now = put_at areas i (full ∷ left) in
          if done then record { returned = some i; given_back = []; areas = now } else undo now i
    ]

unfoldable pub vma_alloc_in_area : Memory → List Area → (i size flags : ℕ) → AllocMode → Allocation
vma_alloc_in_area m areas i size flags mode = elim (area_at areas i) [
  | none ↦ unchanged areas
  | some a ↦ elim (vma_split_area m.node a size) [
    | none ↦ unchanged areas
    | some (new, left) ↦ fill m areas i new left flags mode
  ]
]

-- whether the area that the hint names can be used
abbrev pub fits : List Area → Option ℕ → ℕ → Bool
fits areas none size = false
fits areas (some i) size = elim (area_at areas i) [
  | none ↦ false
  | some a ↦ is_free a && leb size a.size
]

-- `free_area`; the hint 0 is NULL
unfoldable pub choose : List Area → (size hint : ℕ) → Option ℕ
choose areas size hint =
    let hinted = if hint == 0 then none else vma_find_by_start hint areas in
    if fits areas hinted size then hinted else vma_first_fit_alloc areas size

unfoldable pub vma_alloc : Memory → List Area → (size flags hint : ℕ) → AllocMode → Allocation
vma_alloc m areas size flags hint mode = elim (choose areas size hint) [
  | none ↦ unchanged areas
  | some i ↦ vma_alloc_in_area m areas i size flags mode
]

-- `vma_init_area`; without memory for the area it panics
unfoldable pub vma_init_area : (node : Bool) → List Area → (start end_ : ℕ) → Option (List Area)
vma_init_area node areas start end_ =
    if not node
    then none
    else some (
        record {
          state = free;
          start_vaddr = start;
          size = (end_ + 2 ^ 32 - start) % 2 ^ 32;
          pte_flags = 0;
          nr_pages = 0;
          pages = none;
        }
        ∷ areas)

-- the pages that `vma_destroy_areas` gives back; no area is left
unfoldable pub vma_destroy_areas : List Area → List ℕ × List Area
vma_destroy_areas [] = ([], [])
vma_destroy_areas (a ∷ rest) =
    let later = vma_destroy_areas rest in (pages_of a ++ later.0, later.1)
