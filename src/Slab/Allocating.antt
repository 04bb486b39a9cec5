-- ===== src/Slab/Allocating.antt =====
-- `slab_alloc` keeps a cache valid and hands out an object that was free.
use std.Path.{subst}
use kernel_legacy.Slab.{
  Slab, SlabCache, Allocated, fault, no_memory, object, take_object, alloc_in_cache,
}
use kernel_legacy.Slab.{slab_alloc, num_slab_caches, cache_sizes, size_to_cache_size, dma_zone}
use kernel_legacy.Slab.Sizes.{size_to_cache_size-fits}
use kernel_legacy.Slab.Lists.{
  All, IsFull, IsPartial, IsEmpty, IsValid, count, free_in, free_objects,
}
use kernel_legacy.Prelude.{
  ℕ, ◌+◌, ◌-◌, ◌≤◌, ◌<◌, ◌≡◌, refl, sym, ap, ◌∙◌, ◌⊎◌, inl, inr, false, Option, none, some, List,
  [], ◌∷◌, arith, ltb, ◌==◌, if◌then◌else◌, ltb→lt, eq→==, ne→==, Bool-cases, length,
}

-- the free objects of a new slab, where one is used
abbrev pub added : SlabCache → Option Slab → ℕ → ℕ
added c none a = 0
added c (some s) a = elim c.slabs_partial as (λ _. ℕ) [
  | _ ∷ _ ↦ 0
  | [] ↦ elim c.slabs_empty as (λ _. ℕ) [ _ ∷ _ ↦ 0 | [] ↦ count a s.freelist ]
]

-- what may be done with a cache: it returns `NULL` only where no slab has a free object and no slab could
-- be made, and else an object that is free one time less than before
abbrev pub Allocates : SlabCache → Option Slab → Allocated → Type 0
Allocates c created fault = ⊥
Allocates c created no_memory = (c.slabs_partial ≡ []) × (c.slabs_empty ≡ []) × (created ≡ none)
Allocates c created (object ret after) =
    IsValid after
    × (after.objects_per_slab ≡ c.objects_per_slab)
    × ((a : ℕ)
        → free_objects after a + (if ret == a then 1 else 0) ≡ free_objects c a + added c created a)

-- a new slab is empty
abbrev pub IsNew : SlabCache → Option Slab → Type 0
IsNew c none = Unit
IsNew c (some s) = IsEmpty c.objects_per_slab s

-- what taking the first object of a slab does, where `k` counts the free objects from before
abbrev Takes : SlabCache → (ℕ → ℕ) → Allocated → Type 0
Takes c k fault = ⊥
Takes c k no_memory = ⊥
Takes c k (object ret after) =
    IsValid after
    × (after.objects_per_slab ≡ c.objects_per_slab)
    × ((a : ℕ) → free_objects after a + (if ret == a then 1 else 0) ≡ k a)

take_object-Takes :
    (c : SlabCache) (s : Slab) (partial full empty : List Slab)
    → (1 < c.objects_per_slab) × (c.objects_per_slab < 4294967296)
    → s.inuse + length s.freelist ≡ c.objects_per_slab
    → s.inuse < c.objects_per_slab
    → All (IsFull c.objects_per_slab) full
    → All (IsPartial c.objects_per_slab) partial
    → All (IsEmpty c.objects_per_slab) empty
    → Takes c
        (λ a. count a s.freelist + (free_in a full + (free_in a partial + free_in a empty)))
        (take_object c s partial full empty)
unfolding take_object
take_object-Takes c s partial full empty m sum lt f p e = go s.freelist refl
  where
    go :
        (l : List ℕ)
        → s.freelist ≡ l
        → Takes c
            (λ a. count a s.freelist + (free_in a full + (free_in a partial + free_in a empty)))
            (take_object c s partial full empty)
    go [] at = absurd (omega (arith, ap length at))
    go (ret ∷ []) at =
        rw (take_object, at)
          (
            record {
              many = m;
              full = ((refl, omega (arith, ap length at)), f);
              partial = p;
              empty = e;
            },
            refl,
            λ a. omega arith,
          )
    go (ret ∷ x ∷ rest) at =
        let n = ap length at in
        rw (take_object, at)
          (
            record {
              many = m;
              full = f;
              partial = ((omega (arith, n), omega arith, omega (arith, n)), p);
              empty = e;
            },
            refl,
            λ a. omega arith,
          )

Takes-Allocates :
    (c : SlabCache) (created : Option Slab) (k : ℕ → ℕ) (r : Allocated)
    → ((a : ℕ) → k a ≡ free_objects c a + added c created a)
    → Takes c k r
    → Allocates c created r
Takes-Allocates c created k fault same t = t
Takes-Allocates c created k no_memory same t = absurd t
Takes-Allocates c created k (object ret after) same (v, n, free) = (v, n, λ a. free a ∙ same a)

-- A new slab is used only where there is no other.
unused :
    (c : SlabCache) (created : Option Slab) (s : Slab) (rest : List Slab) (a : ℕ)
    → c.slabs_partial ≡ s ∷ rest
    → added c created a ≡ 0
unused c none s rest a at = refl
unused c (some new) s rest a at = rw at refl

unused' :
    (c : SlabCache) (created : Option Slab) (s : Slab) (rest : List Slab) (a : ℕ)
    → c.slabs_partial ≡ []
    → c.slabs_empty ≡ s ∷ rest
    → added c created a ≡ 0
unused' c none s rest a at at' = refl
unused' c (some new) s rest a at at' = rw (at, at') refl

-- in a valid cache
alloc_in_cache-Allocates :
    (c : SlabCache) (created : Option Slab)
    → IsValid c
    → IsNew c created
    → Allocates c created (alloc_in_cache c created)
unfolding alloc_in_cache take_object
alloc_in_cache-Allocates c created v new = go c.slabs_partial c.slabs_empty created refl refl refl
  where
    go :
        (partial empty : List Slab) (made : Option Slab)
        → c.slabs_partial ≡ partial
        → c.slabs_empty ≡ empty
        → created ≡ made
        → Allocates c created (alloc_in_cache c created)
    go (s ∷ partial) empty made at at' same =
        let (fits, rest) = rw at at v.partial in
        let run : alloc_in_cache c created ≡ take_object c s partial c.slabs_full c.slabs_empty =
          rw (alloc_in_cache, at) refl in
        subst (Allocates c created) (sym run) (
          Takes-Allocates c created _ _
            (λ a. omega (arith, ap (free_in a) at, unused c created s partial a at))
            (take_object-Takes c s partial c.slabs_full c.slabs_empty v.many fits.0 fits.2 v.full
              rest v.empty))
    go [] (s ∷ empty) made at at' same =
        let (fits, rest) = rw at' at v.empty in
        let (lt, _) = v.many in
        let run : alloc_in_cache c created ≡ take_object c s [] c.slabs_full empty =
          rw (alloc_in_cache, at, at') refl in
        subst (Allocates c created) (sym run) (
          Takes-Allocates c created _ _
            (λ a.
              omega
                (arith, ap (free_in a) at, ap (free_in a) at', unused' c created s empty a at at'))
            (take_object-Takes c s [] c.slabs_full empty v.many (omega (arith, fits))
              (omega (arith, fits)) v.full tt rest))
    go [] [] none at at' same = rw (alloc_in_cache, at, at', same) (refl, refl, refl)
    go [] [] (some s) at at' same =
        let fits : IsEmpty c.objects_per_slab s = rw same at new in
        let (lt, _) = v.many in
        let run : alloc_in_cache c created ≡ take_object c s [] c.slabs_full [] =
          rw (alloc_in_cache, at, at', same) refl in
        subst (Allocates c created) (sym run) (
          Takes-Allocates c created _ _ (λ a. rw (at, at', same) (omega arith))
            (take_object-Takes c s [] c.slabs_full [] v.many (omega (arith, fits))
              (omega (arith, fits)) v.full tt tt))

-- What `slab_alloc` may do. For a size that no cache has, or a zone behind DMA, it returns `NULL`.
-- Else it is the first cache of the zone whose objects are as large as the size that it takes from.
abbrev pub AllocatesFrom :
    (caches : (zone i : ℕ) → SlabCache) → (size zone : ℕ) → Option Slab → Option Allocated → Type 0
AllocatesFrom caches size zone created r =
    (((2048 < size) ⊎ (dma_zone < zone)) × (r ≡ some no_memory))
    ⊎ ((i : ℕ) × (done : Allocated) × (size ≤ 2048)
        × (zone ≤ dma_zone)
        × (i < num_slab_caches)
        × (size ≤ cache_sizes i)
        × ((i ≡ 0) ⊎ (cache_sizes (i - 1) < size))
        × (r ≡ some done)
        × Allocates (caches zone i) created done)

-- Where the caches are valid, a slab that is made is a new one of the cache of the size, and the size
-- is at most 2 ^ 31, `slab_alloc` ends and never reads an object that is not there. It returns NULL
-- exactly for a size above 2048, for a zone behind DMA, and where no slab of the cache has a free
-- object and no new one could be made. Else it takes from the first cache of the zone whose objects are
-- as large as the size: that cache stays valid, and the object is free one time less, and every other
-- address as often as before, a new slab's objects added.
pub slab_alloc-Allocates :
    (caches : (zone i : ℕ) → SlabCache) (size zone : ℕ) (created : Option Slab)
    → size ≤ 2147483648
    → ((z i : ℕ) → i < num_slab_caches → IsValid (caches z i))
    → ((i : ℕ) → size_to_cache_size size ≡ some i → IsNew (caches zone i) created)
    → AllocatesFrom caches size zone created (slab_alloc caches size zone created)
unfolding slab_alloc
slab_alloc-Allocates caches size zone created fits valid new =
    let (i, at, which) = size_to_cache_size-fits size fits in
    elim which [
      | inr (large, e) ↦ rw (slab_alloc, at, eq→== i num_slab_caches e) (inl (inl large, refl))
      | inl (small, lt, room, first) ↦
          let one : (i == num_slab_caches) ≡ false = ne→== _ _ (omega (arith, lt)) in
          elim (Bool-cases (ltb dma_zone zone)) [
            | inl behind ↦ rw (slab_alloc, at, one, behind) (inl (inr (ltb→lt _ _ behind), refl))
            | inr within ↦
                rw (slab_alloc, at, one, within)
                  (inr (
                    i,
                    alloc_in_cache (caches zone i) created,
                    small,
                    ground (arith, within),
                    lt,
                    room,
                    first,
                    refl,
                    alloc_in_cache-Allocates (caches zone i) created (valid zone i lt) (new i at),
                  ))
          ]
    ]
