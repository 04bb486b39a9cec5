-- ===== src/Life/Tests/Heaps.antt =====
-- Memory for the runs of tasks: `kmalloc` and the pages of the model of src/memory/buddy.c and
-- src/memory/slab.c, put together as src/memory/kmalloc.c puts them together. A run that would panic
-- takes nothing.
use kernel_legacy.Buddy
use kernel_legacy.Buddy.{Buddy, Answer, ok, panic, Page}
use kernel_legacy.Buddy.Free
use kernel_legacy.Slab.{
  SlabCache, Allocated, fault, no_memory, object, slab_init, slab_create, alloc_in_cache, slab_free,
  size_to_cache_size,
}
use kernel_legacy.Life.Memory.{Allocator, lowmem_zone}
use kernel_legacy.Prelude.{
  ℕ, zero, suc, ◌+◌, ◌*◌, ◌/◌, Option, none, some, List, [], ◌∷◌, ltb, leb, ◌==◌, if◌then◌else◌,
  length, elem, update,
}

-- the page allocator, and the caches of the zone LOWMEM
pub record Heap : Type 0 where
  pub buddy : Buddy
  pub caches : ℕ → SlabCache

abbrev pub pages_or_null : Buddy → Answer → ℕ × Buddy
pages_or_null b (ok block after) = (block, after)
pages_or_null b (panic p) = (0, b)

abbrev pub pages : Heap → (size zone : ℕ) → ℕ × Heap
pages h size zone =
    let r = pages_or_null h.buddy (Buddy.buddy_alloc_pages h.buddy size zone) in
    (r.0 * 4096, record h { buddy = r.1 })

abbrev pub give : Heap → (p : ℕ) → Heap
give h p = record h {
  buddy = (pages_or_null h.buddy (Buddy.Free.buddy_free_block h.buddy (p / 4096))).1;
}

-- the object that was taken from a cache, and the cache put back
abbrev pub object_or_null : Heap → (i : ℕ) → Allocated → ℕ × Heap
object_or_null h i fault = (0, h)
object_or_null h i no_memory = (0, h)
object_or_null h i (object p after) = (p, record h { caches = update h.caches i after })

-- `slab_alloc` in the zone LOWMEM, with the page of a new slab, where one is needed
abbrev pub from_cache : Heap → (i : ℕ) → ℕ × Heap
from_cache h i =
    let c = h.caches i in
    let new = pages h 4096 lowmem_zone in
    elim c.slabs_partial [
      | _ ∷ _ ↦ object_or_null h i (alloc_in_cache c none)
      | [] ↦ elim c.slabs_empty [
        | _ ∷ _ ↦ object_or_null h i (alloc_in_cache c none)
        | [] ↦
            if new.0 == 0
            then (0, h)
            else object_or_null new.1 i (alloc_in_cache c (some (slab_create c (new.0 / 4096))))
      ]
    ]

abbrev pub kmalloc : Heap → (size : ℕ) → ℕ × Heap
kmalloc h zero = (0, h)
kmalloc h (suc size) =
    if ltb 2048 (suc size)
    then pages h (suc size) lowmem_zone
    else from_cache h (get_or_else (size_to_cache_size (suc size)))
  where
    get_or_else : Option ℕ → ℕ
    get_or_else none = 0
    get_or_else (some i) = i

-- the cache that has the slab of an address, among the first `n`
abbrev pub free_in_caches : Heap → (n p : ℕ) → Heap
free_in_caches h zero p = give h p
free_in_caches h (suc n) p =
    let rest = free_in_caches h n p in
    elim (slab_free (h.caches n) p) [
      | none ↦ rest
      | some after ↦ record h { caches = update h.caches n after }
    ]

abbrev pub heap : Allocator
heap = record {
  State = Heap;
  buddy_alloc_pages = pages;
  buddy_free_block = give;
  kmalloc = kmalloc;
  kfree = λ h p. free_in_caches h 9 p;
}

-- every second page from one on
abbrev every_second : (n page : ℕ) → List ℕ
every_second zero page = []
every_second (suc n) page = page ∷ every_second n (page + 2)

-- where the zones HIGHMEM and LOWMEM start
abbrev base : ℕ → ℕ
base zone = if zone == 2 then 0x38000 else 0x1000

-- free blocks of one, of two and of four pages in a zone
abbrev pub free_blocks : (zone order : ℕ) → List ℕ
free_blocks zone order =
    if order == 0
    then every_second 7 (base zone)
    else if order == 1
    then (base zone + 32) ∷ (base zone + 36) ∷ (base zone + 40) ∷ []
    else if order == 2
    then (base zone + 64) ∷ (base zone + 72) ∷ []
    else []

-- a free block has its order in its first page
abbrev page_at : ℕ → Page
page_at f =
    let zone = if leb 0x38000 f then 2 else 0 in
    let zone_flag = if zone == 2 then 0x20 else 0x10 in
    if elem f (free_blocks zone 0)
    then record { flags = zone_flag + 3; private_data = 0 }
    else if elem f (free_blocks zone 1)
    then record { flags = zone_flag + 3; private_data = 1 }
    else if elem f (free_blocks zone 2)
    then record { flags = zone_flag + 3; private_data = 2 }
    else record { flags = zone_flag + 4; private_data = 0xDEADBEEF }

abbrev pub start : Heap
start = record {
  buddy = record {
    page = page_at;
    free_list = free_blocks;
    nr_free = λ zone order. length (free_blocks zone order);
  };
  caches = slab_init;
}
