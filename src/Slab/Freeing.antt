-- ===== src/Slab/Freeing.antt =====
-- `slab_free` keeps a cache valid and makes the object free.
use kernel_legacy.Slab.{
  Slab, SlabCache, with_lists, slab_of, pop_node, write_slab, put_object, slab_free,
}
use kernel_legacy.Slab.Lists.{
  IsFull, IsPartial, IsValid, free_objects, pop_node-All, write_slab-All, slab_of-All,
  free_in-pop_node, free_in-write_slab,
}
use kernel_legacy.Prelude.{
  ℕ, ◌+◌, ◌-◌, ◌/◌, ◌%◌, ◌≡◌, refl, ap, ◌∙◌, ◌⊎◌, inl, inr, true, false, none, some, ◌∷◌, arith,
  ◌==◌, if◌then◌else◌, Bool-cases, length,
}

-- the slab of an object has objects handed out: it is in one of the first two lists
abbrev pub InUse : SlabCache → (ptr : ℕ) → Slab → Type 0
InUse c ptr s =
    (slab_of (ptr / 4096) c.slabs_full ≡ some s)
    ⊎ ((slab_of (ptr / 4096) c.slabs_full ≡ none) × (slab_of (ptr / 4096) c.slabs_partial ≡ some s))

abbrev pub Frees : SlabCache → (ptr : ℕ) → SlabCache → Type 0
Frees c ptr after =
    IsValid after
    × (after.objects_per_slab ≡ c.objects_per_slab)
    × ((a : ℕ) → free_objects after a ≡ free_objects c a + (if ptr == a then 1 else 0))

-- In a valid cache `slab_free` of an object whose slab has objects handed out does not panic. The
-- cache stays valid, and the object is free one time more, and every other address as often as before.
pub slab_free-Frees :
    (c : SlabCache) (ptr : ℕ) (s : Slab)
    → IsValid c
    → InUse c ptr s
    → (after : SlabCache) × (slab_free c ptr ≡ some after) × Frees c ptr after
unfolding slab_free
slab_free-Frees c ptr s v (inl full) =
    let ((none_, all), at) =
      slab_of-All (IsFull c.objects_per_slab) (ptr / 4096) c.slabs_full s v.full full in
    let (lt, lt') = v.many in
    let last : ((s.inuse + 4294967295) % 4294967296 == c.objects_per_slab - 1) ≡ true =
      ground arith in
    let fits : IsPartial c.objects_per_slab (put_object ptr s) =
      (omega (arith, ap length none_), omega arith, omega arith) in
    let after =
      with_lists c (pop_node (ptr / 4096) c.slabs_full) (put_object ptr s ∷ c.slabs_partial)
        c.slabs_empty in
    let valid : IsValid after = record {
      many = v.many;
      full = pop_node-All (IsFull c.objects_per_slab) (ptr / 4096) c.slabs_full v.full;
      partial = (fits, v.partial);
      empty = v.empty;
    } in
    (
      after,
      rw (slab_free, full, last) refl,
      (valid, refl, λ a. omega (arith, free_in-pop_node (ptr / 4096) c.slabs_full s a full)),
    )
slab_free-Frees c ptr s v (inr (none_, found)) =
    let n = c.objects_per_slab in
    let ((sum, some_, lt), at) =
      slab_of-All (IsPartial n) (ptr / 4096) c.slabs_partial s v.partial found in
    let (many, word) = v.many in
    let slab = put_object ptr s in
    let dec : (s.inuse + 4294967295) % 4294967296 ≡ s.inuse - 1 = omega arith in
    let kept : ((s.inuse + 4294967295) % 4294967296 == n - 1) ≡ false = ground arith in
    elim (Bool-cases (s.inuse == 1)) [
      | inl last ↦
          let zero_ : ((s.inuse + 4294967295) % 4294967296 == 0) ≡ true = ground arith in
          let after =
            with_lists c c.slabs_full (pop_node (ptr / 4096) c.slabs_partial)
              (slab ∷ c.slabs_empty) in
          let valid : IsValid after = record {
            many = v.many;
            full = v.full;
            partial = pop_node-All (IsPartial n) (ptr / 4096) c.slabs_partial v.partial;
            empty = ((ground arith, ground arith), v.empty);
          } in
          (
            after,
            rw (slab_free, none_, found, kept, zero_) refl,
            (
              valid,
              refl,
              λ a. omega (arith, free_in-pop_node (ptr / 4096) c.slabs_partial s a found),
            ),
          )
      | inr more ↦
          let left : ((s.inuse + 4294967295) % 4294967296 == 0) ≡ false = ground arith in
          let after = with_lists c c.slabs_full (write_slab slab c.slabs_partial) c.slabs_empty in
          let fits : IsPartial n slab = (ground arith, ground arith, ground arith) in
          let valid : IsValid after = record {
            many = v.many;
            full = v.full;
            partial = write_slab-All (IsPartial n) slab c.slabs_partial fits v.partial;
            empty = v.empty;
          } in
          (
            after,
            rw (slab_free, none_, found, kept, left) refl,
            (
              valid,
              refl,
              λ a. omega (
                arith,
                free_in-write_slab slab c.slabs_partial s a
                    (ap (λ k. slab_of k c.slabs_partial) at ∙ found),
              ),
            ),
          )
    ]
