-- ===== src/Slab/Tests.antt =====
-- Runs of the cache of 2048-byte objects, two in a slab.
use kernel_legacy.Slab.{
  Slab, SlabCache, object, size_to_cache_size, size_to_cache_size_from, slab_init, objects_from,
  slab_init_intrusive_freelist, slab_create, slab_alloc, alloc_in_cache, take_object, slab_free,
}
use kernel_legacy.Slab.Lists.{IsValid}
use kernel_legacy.Slab.Sizes.{Spaced, slab_create-objects}
use kernel_legacy.Slab.Allocating.{AllocatesFrom, slab_alloc-Allocates}
use kernel_legacy.Slab.Freeing.{Frees, slab_free-Frees}
use kernel_legacy.Prelude.{
  ℕ, ◌+◌, ◌*◌, ◌<◌, ◌≡◌, refl, inr, none, some, List, [], ◌∷◌, arith, length,
}

abbrev cache : (full partial empty : List Slab) → SlabCache
cache full partial empty = record {
  slabs_full = full;
  slabs_partial = partial;
  slabs_empty = empty;
  object_size = 2048;
  objects_per_slab = 2;
}

abbrev new_slab : Slab
new_slab = record { page = 5; freelist = 0x5000 ∷ 0x5800 ∷ []; inuse = 0 }

abbrev half : Slab
half = record { page = 5; freelist = 0x5800 ∷ []; inuse = 1 }

abbrev none_left : Slab
none_left = record { page = 5; freelist = []; inuse = 2 }

size_run : size_to_cache_size 100 ≡ some 4
unfolding size_to_cache_size size_to_cache_size_from
size_run = refl

init_run : slab_init 8 ≡ cache [] [] []
unfolding slab_init
init_run = refl

create_run : slab_create (cache [] [] []) 5 ≡ new_slab
unfolding slab_create slab_init_intrusive_freelist objects_from
create_run = refl

alloc_run :
    alloc_in_cache (cache [] [] []) (some new_slab) ≡ object 0x5000 (cache [] (half ∷ []) [])
unfolding alloc_in_cache take_object
alloc_run = refl

alloc_last_run :
    alloc_in_cache (cache [] (half ∷ []) []) none ≡ object 0x5800 (cache (none_left ∷ []) [] [])
unfolding alloc_in_cache take_object
alloc_last_run = refl

free_run : slab_free (cache [] (half ∷ []) []) 0x5000 ≡ some (cache [] [] (new_slab ∷ []))
unfolding slab_free
free_run = refl

half-IsValid : IsValid (cache [] (half ∷ []) [])
half-IsValid = record {
  many = (omega arith, omega arith);
  full = tt;
  partial = ((refl, omega arith, omega arith), tt);
  empty = tt;
}

slab_create-objects_example :
    let s = slab_create (slab_init 8) 5 in
    (length s.freelist ≡ (slab_init 8).objects_per_slab)
    × (1 < (slab_init 8).objects_per_slab)
    × (s.inuse ≡ 0)
    × (s.page ≡ 5)
    × Spaced (5 * 4096) 2048 (5 * 4096 + 4096) s.freelist
slab_create-objects_example = slab_create-objects 8 5 (omega arith)

abbrev caches : (zone i : ℕ) → SlabCache
caches zone i = cache [] (half ∷ []) []

slab_alloc-Allocates_example : AllocatesFrom caches 1500 0 none (slab_alloc caches 1500 0 none)
slab_alloc-Allocates_example =
    slab_alloc-Allocates caches 1500 0 none (omega arith) (λ z i lt. half-IsValid) (λ i at. tt)

slab_free-Frees_example :
    (after : SlabCache) × (slab_free (cache [] (half ∷ []) []) 0x5000 ≡ some after)
    × Frees (cache [] (half ∷ []) []) 0x5000 after
slab_free-Frees_example =
    slab_free-Frees (cache [] (half ∷ []) []) 0x5000 half half-IsValid (inr (refl, refl))
