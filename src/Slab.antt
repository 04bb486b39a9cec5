-- ===== src/Slab.antt =====
-- src/memory/slab.c: the caches of objects of one size, and their slabs of a page each. A list of slabs
-- is a list, its head first; the chain of free objects of a slab is the list of their addresses.
pub mod Sizes
pub mod Lists
pub mod Allocating
pub mod Freeing
mod Tests
use kernel_legacy.Prelude.{
  ℕ, zero, suc, ◌+◌, ◌-◌, ◌*◌, ◌/◌, ◌%◌, ◌^◌, ◌≤◌, ◌<◌, min, max, bit_and, bit_or, ◌≡◌, refl, sym,
  ap, ap₂, ◌∙◌, fun_ext, ◌≢◌, ◌↔◌, ◌⊎◌, inl, inr, Bool, true, false, not, ◌&&◌, ◌||◌, Option, none,
  some, List, [], ◌∷◌, ◌++◌, map, arith, ltb, leb, ◌==◌, if◌then◌else◌, ltb→lt, lt→ltb, ==→eq,
  eq→==, ne→==, ==→ne, Bool-cases, Option-cases, length, get_or, set, replicate, length-append,
  length-set, length-replicate, get_or-set_self, get_or-set_ne, elem, remove, elem-append,
  elem-remove, remove_of_not_elem, distinct, distinct-remove, distinct-append-one, update,
}

-- the page stands for the slab: it is where `private_data` of the page leads
pub record Slab : Type 0 where
  pub page : ℕ
  pub freelist : List ℕ
  pub inuse : ℕ

pub record SlabCache : Type 0 where
  pub slabs_full : List Slab
  pub slabs_partial : List Slab
  pub slabs_empty : List Slab
  pub object_size : ℕ
  pub objects_per_slab : ℕ

abbrev pub num_slab_caches : ℕ
num_slab_caches = 9

-- `cache_sizes`
abbrev pub cache_sizes : ℕ → ℕ
cache_sizes i = get_or (8 ∷ 16 ∷ 32 ∷ 64 ∷ 128 ∷ 256 ∷ 512 ∷ 1024 ∷ 2048 ∷ 4096 ∷ []) i 0

-- the loop of `size_to_cache_size` for at most `fuel` tests; `cache_size` is a 32-bit word
unfoldable pub size_to_cache_size_from : (fuel cache_size cache_idx size : ℕ) → Option ℕ
size_to_cache_size_from zero cache_size cache_idx size = none
size_to_cache_size_from (suc fuel) cache_size cache_idx size =
    let more = size_to_cache_size_from fuel (cache_size * 2 % 4294967296) (suc cache_idx) size in
    if ltb cache_size size
    then more
    else if leb num_slab_caches cache_idx
    then some num_slab_caches
    else some cache_idx

-- `none` where the loop does not end within 28 tests
unfoldable pub size_to_cache_size : ℕ → Option ℕ
size_to_cache_size size = if leb size 8 then some 0 else size_to_cache_size_from 28 16 1 size

-- `sizeof(struct slab)`
abbrev pub sizeof_slab : ℕ
sizeof_slab = 32

-- `SLAB_IS_EXTERNAL`
abbrev pub slab_is_external : ℕ → Bool
slab_is_external size = ltb 512 size

-- one cache of `slab_init`
unfoldable pub slab_init : ℕ → SlabCache
slab_init i = record {
  slabs_full = [];
  slabs_partial = [];
  slabs_empty = [];
  object_size = cache_sizes i;
  objects_per_slab =
      (if slab_is_external (cache_sizes i) then 4096 else 4096 - sizeof_slab) / cache_sizes i;
}

-- the loop of `slab_init_intrusive_freelist`: `n` more objects behind one
unfoldable pub objects_from : (n obj obj_size : ℕ) → List ℕ
objects_from zero obj obj_size = obj ∷ []
objects_from (suc n) obj obj_size = obj ∷ objects_from n (obj + obj_size) obj_size

unfoldable pub slab_init_intrusive_freelist : (first_obj obj_size available_space : ℕ) → List ℕ
slab_init_intrusive_freelist first_obj obj_size available_space =
    objects_from (available_space / obj_size - 1) first_obj obj_size

-- `slab_create`, with the page that it gets at an address; its `struct slab` stands at the start of
-- the page, or outside of it for large objects
unfoldable pub slab_create : SlabCache → (page : ℕ) → Slab
slab_create cache page =
    let external = slab_is_external cache.object_size in
    let first = if external then page * 4096 else page * 4096 + sizeof_slab in
    let space = if external then 4096 else 4096 - sizeof_slab in
    record {
      page = page;
      freelist = slab_init_intrusive_freelist first cache.object_size space;
      inuse = 0;
    }

-- the cache with other lists
abbrev pub with_lists : SlabCache → (full partial empty : List Slab) → SlabCache
with_lists c full partial empty = record {
  slabs_full = full;
  slabs_partial = partial;
  slabs_empty = empty;
  object_size = c.object_size;
  objects_per_slab = c.objects_per_slab;
}

-- what a call of `slab_alloc` does: read a free object that is not there, return `NULL`, or an object
pub data Allocated : Type 0 where
  fault : Allocated
  no_memory : Allocated
  object : ℕ → SlabCache → Allocated

-- the end of `slab_alloc`: the first object of a slab, which is the first of the partial ones
unfoldable pub take_object : SlabCache → Slab → List Slab → (full empty : List Slab) → Allocated
take_object cache slab partial full empty = elim slab.freelist [
  | [] ↦ fault
  | ret ∷ rest ↦
      let left : Slab = record { page = slab.page; freelist = rest; inuse = suc slab.inuse } in
      elim rest [
        | [] ↦ object ret (with_lists cache (left ∷ full) partial empty)
        | _ ∷ _ ↦ object ret (with_lists cache full (left ∷ partial) empty)
      ]
]

-- what `slab_alloc` does with the cache of the size, with what `slab_create` returns where it is called
unfoldable pub alloc_in_cache : SlabCache → (created : Option Slab) → Allocated
alloc_in_cache cache created = elim cache.slabs_partial [
  | slab ∷ partial ↦ take_object cache slab partial cache.slabs_full cache.slabs_empty
  | [] ↦ elim cache.slabs_empty [
    | slab ∷ empty ↦ take_object cache slab [] cache.slabs_full empty
    | [] ↦ elim created [
      | none ↦ no_memory
      | some slab ↦ take_object cache slab [] cache.slabs_full []
    ]
  ]
]

abbrev pub dma_zone : ℕ
dma_zone = 1

-- `caches` are those of a zone by their index; `none` where the search for the cache does not end
unfoldable pub slab_alloc :
    (caches : (zone i : ℕ) → SlabCache)
    → (size zone : ℕ) → (created : Option Slab) → Option Allocated
slab_alloc caches size zone created = elim (size_to_cache_size size) [
  | none ↦ none
  | some i ↦
      if (i == num_slab_caches) || ltb dma_zone zone
      then some no_memory
      else some (alloc_in_cache (caches zone i) created)
]

-- the slab of a page in a list
abbrev pub slab_of : (page : ℕ) → List Slab → Option Slab
slab_of page [] = none
slab_of page (s ∷ rest) = if s.page == page then some s else slab_of page rest

-- `pop_node`, in the list that has the slab
abbrev pub pop_node : (page : ℕ) → List Slab → List Slab
pop_node page [] = []
pop_node page (s ∷ rest) = if s.page == page then rest else s ∷ pop_node page rest

-- a change of a slab where it is
abbrev pub write_slab : Slab → List Slab → List Slab
write_slab slab [] = []
write_slab slab (s ∷ rest) = if s.page == slab.page then slab ∷ rest else s ∷ write_slab slab rest

-- the lists behind `slab_free`: those without the slab, those with the slab changed in its place, and
-- the slab with the object back in it
abbrev pub settle :
    SlabCache
    → (full partial empty : List Slab) → (full' partial' empty' : List Slab) → Slab
    → SlabCache
settle cache full partial empty full' partial' empty' slab =
    if slab.inuse == cache.objects_per_slab - 1
    then with_lists cache full (slab ∷ partial) empty
    else if slab.inuse == 0
    then with_lists cache full partial (slab ∷ empty)
    else with_lists cache full' partial' empty'

-- the slab with the object back in it
abbrev pub put_object : (ptr : ℕ) → Slab → Slab
put_object ptr s = record {
  page = s.page;
  freelist = ptr ∷ s.freelist;
  inuse = (s.inuse + 4294967295) % 4294967296;
}

-- `slab_free` on the cache of the slab, which is in one of the lists; `none` for a page of no slab,
-- where the code panics
unfoldable pub slab_free : SlabCache → (ptr : ℕ) → Option SlabCache
slab_free cache ptr =
    let f = cache.slabs_full in
    let p = cache.slabs_partial in
    let e = cache.slabs_empty in
    let page = ptr / 4096 in
    elim (slab_of page f) [
      | some s ↦
          let slab = put_object ptr s in
          some (settle cache (pop_node page f) p e (write_slab slab f) p e slab)
      | none ↦ elim (slab_of page p) [
        | some s ↦
            let slab = put_object ptr s in
            some (settle cache f (pop_node page p) e f (write_slab slab p) e slab)
        | none ↦ elim (slab_of page e) [
          | some s ↦
              let slab = put_object ptr s in
              some (settle cache f p (pop_node page e) f p (write_slab slab e) slab)
          | none ↦ none
        ]
      ]
    ]
