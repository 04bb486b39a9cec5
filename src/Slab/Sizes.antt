-- ===== src/Slab/Sizes.antt =====
-- The cache of a size, and the objects of a new slab.
use native.Mathlib.Nat.{div-mul-le_self}
use kernel_legacy.Slab.{
  num_slab_caches, cache_sizes, size_to_cache_size_from, size_to_cache_size, slab_init,
  objects_from, slab_init_intrusive_freelist, slab_create, sizeof_slab, slab_is_external,
}
use kernel_legacy.Prelude.{
  ℕ, zero, suc, ◌+◌, ◌-◌, ◌*◌, ◌/◌, ◌≤◌, ◌<◌, ◌≡◌, refl, ◌∙◌, ◌⊎◌, inl, inr, some, List, [], ◌∷◌,
  arith, leb, if◌then◌else◌, Bool-cases, length,
}

-- of the caches up to one that is large enough, the first that is
smallest :
    (n size : ℕ)
    → size ≤ cache_sizes n
    → (i : ℕ) × (i ≤ n) × (size ≤ cache_sizes i) × ((i ≡ 0) ⊎ (cache_sizes (i - 1) < size))
smallest zero size h = (0, omega arith, h, inl refl)
smallest (suc n) size h = elim (Bool-cases (leb size (cache_sizes n))) [
  | inl enough ↦
      let (i, le, room, first) = smallest n size (ground arith) in (i, omega arith, room, first)
  | inr small ↦ (suc n, omega arith, h, inr (ground arith))
]

chosen :
    (i size : ℕ)
    → i < num_slab_caches
    → size ≤ cache_sizes i
    → (i ≡ 0) ⊎ (cache_sizes (i - 1) < size)
    → size_to_cache_size size ≡ some i
unfolding size_to_cache_size size_to_cache_size_from
chosen zero size lt h first = ground arith
chosen (suc zero) size lt h (inl e) = absurd (omega arith)
chosen (suc zero) size lt h (inr low) = ground arith
chosen (suc (suc zero)) size lt h (inl e) = absurd (omega arith)
chosen (suc (suc zero)) size lt h (inr low) = ground arith
chosen (suc (suc (suc zero))) size lt h (inl e) = absurd (omega arith)
chosen (suc (suc (suc zero))) size lt h (inr low) = ground arith
chosen (suc (suc (suc (suc zero)))) size lt h (inl e) = absurd (omega arith)
chosen (suc (suc (suc (suc zero)))) size lt h (inr low) = ground arith
chosen (suc (suc (suc (suc (suc zero))))) size lt h (inl e) = absurd (omega arith)
chosen (suc (suc (suc (suc (suc zero))))) size lt h (inr low) = ground arith
chosen (suc (suc (suc (suc (suc (suc zero)))))) size lt h (inl e) = absurd (omega arith)
chosen (suc (suc (suc (suc (suc (suc zero)))))) size lt h (inr low) = ground arith
chosen (suc (suc (suc (suc (suc (suc (suc zero))))))) size lt h (inl e) = absurd (omega arith)
chosen (suc (suc (suc (suc (suc (suc (suc zero))))))) size lt h (inr low) = ground arith
chosen (suc (suc (suc (suc (suc (suc (suc (suc zero)))))))) size lt h (inl e) = absurd (omega arith)
chosen (suc (suc (suc (suc (suc (suc (suc (suc zero)))))))) size lt h (inr low) = ground arith
chosen (suc (suc (suc (suc (suc (suc (suc (suc (suc i))))))))) size lt h first =
    absurd (omega arith)

-- `size_to_cache_size` ends for every size up to 2 ^ 31. It gives a cache to the sizes up to 2048: the
-- first one whose objects are as large. To a larger size it gives the number of caches.
pub size_to_cache_size-fits :
    (size : ℕ)
    → size ≤ 2147483648
    → (i : ℕ) × (size_to_cache_size size ≡ some i)
      × ((size ≤ 2048)
            × (i < num_slab_caches)
            × (size ≤ cache_sizes i)
            × ((i ≡ 0) ⊎ (cache_sizes (i - 1) < size))
          ⊎ (2048 < size) × (i ≡ num_slab_caches))
unfolding size_to_cache_size size_to_cache_size_from
size_to_cache_size-fits size h = elim (Bool-cases (leb size 2048)) [
  | inl small ↦
      let (i, le, room, first) = smallest 8 size (ground arith) in
      (i, chosen i size (omega arith) room first, inl (ground arith, omega arith, room, first))
  | inr large ↦ (num_slab_caches, ground arith, inr (ground arith, refl))
]

length-objects_from : (n obj obj_size : ℕ) → length (objects_from n obj obj_size) ≡ suc n
unfolding objects_from
length-objects_from zero obj obj_size = refl
length-objects_from (suc n) obj obj_size =
    omega (arith, length-objects_from n (obj + obj_size) obj_size)

-- each object of a list lies in a range, and behind the one before it
abbrev pub Spaced : (obj obj_size end_ : ℕ) → List ℕ → Type 0
Spaced obj obj_size end_ [] = Unit
Spaced obj obj_size end_ (x ∷ xs) =
    (x ≡ obj) × (x + obj_size ≤ end_) × Spaced (obj + obj_size) obj_size end_ xs

objects_from-Spaced :
    (n obj obj_size end_ : ℕ)
    → obj + suc n * obj_size ≤ end_
    → Spaced obj obj_size end_ (objects_from n obj obj_size)
unfolding objects_from
objects_from-Spaced zero obj obj_size end_ h = (refl, omega arith, tt)
objects_from-Spaced (suc n) obj obj_size end_ h =
    (refl, grind arith, objects_from-Spaced n (obj + obj_size) obj_size end_ (grind arith))

-- A slab of each cache has room for two objects.
two_fit :
    (i : ℕ)
    → i < num_slab_caches
    → (0 < cache_sizes i)
      × (1
          < (if slab_is_external (cache_sizes i) then 4096 else 4096 - sizeof_slab) / cache_sizes i)
two_fit zero lt = (omega arith, omega arith)
two_fit (suc zero) lt = (omega arith, omega arith)
two_fit (suc (suc zero)) lt = (omega arith, omega arith)
two_fit (suc (suc (suc zero))) lt = (omega arith, omega arith)
two_fit (suc (suc (suc (suc zero)))) lt = (omega arith, omega arith)
two_fit (suc (suc (suc (suc (suc zero))))) lt = (omega arith, omega arith)
two_fit (suc (suc (suc (suc (suc (suc zero)))))) lt = (omega arith, omega arith)
two_fit (suc (suc (suc (suc (suc (suc (suc zero))))))) lt = (omega arith, omega arith)
two_fit (suc (suc (suc (suc (suc (suc (suc (suc zero)))))))) lt = (omega arith, omega arith)
two_fit (suc (suc (suc (suc (suc (suc (suc (suc (suc i))))))))) lt = absurd (omega arith)

freelist-Spaced :
    (first o space : ℕ)
    → 1 < space / o
    → (length (slab_init_intrusive_freelist first o space) ≡ space / o)
      × Spaced first o (first + space) (slab_init_intrusive_freelist first o space)
unfolding slab_init_intrusive_freelist
freelist-Spaced first o space h =
    let whole : suc (space / o - 1) ≡ space / o = omega arith in
    (
      length-objects_from (space / o - 1) first o ∙ omega arith,
      objects_from-Spaced (space / o - 1) first o (first + space)
          (rw whole (omega (arith, div-mul-le_self space o))),
    )

-- A new slab of one of the caches has as many free objects as the cache says, one behind the other,
-- and all of them lie in its page.
pub slab_create-objects :
    (i page : ℕ)
    → i < num_slab_caches
    → let s = slab_create (slab_init i) page in
      (length s.freelist ≡ (slab_init i).objects_per_slab)
      × (1 < (slab_init i).objects_per_slab)
      × (s.inuse ≡ 0)
      × (s.page ≡ page)
      × Spaced
          (if slab_is_external (cache_sizes i) then page * 4096 else page * 4096 + sizeof_slab)
          (cache_sizes i)
          (page * 4096 + 4096)
          s.freelist
unfolding slab_create slab_init slab_init_intrusive_freelist
slab_create-objects i page lt =
    let (_, two) = two_fit i lt in
    elim (Bool-cases (slab_is_external (cache_sizes i))) [
      | inl external ↦
          let (same, spaced) =
            freelist-Spaced (page * 4096) (cache_sizes i) 4096 (rw external at two) in
          rw external (same, rw external at two, refl, refl, spaced)
      | inr inside ↦
          let (same, spaced) =
            freelist-Spaced (page * 4096 + sizeof_slab) (cache_sizes i) (4096 - sizeof_slab)
              (rw inside at two) in
          let end_ : page * 4096 + sizeof_slab + (4096 - sizeof_slab) ≡ page * 4096 + 4096 =
            omega arith in
          rw inside (same, rw inside at two, refl, refl, rw end_ at spaced)
    ]
