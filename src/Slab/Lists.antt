-- ===== src/Slab/Lists.antt =====
-- What the three lists of a cache hold, and the free objects of a cache.
use kernel_legacy.Slab.{Slab, SlabCache, slab_of, pop_node, write_slab}
use kernel_legacy.Prelude.{
  ℕ, ◌+◌, ◌<◌, ◌≡◌, inl, inr, some, List, [], ◌∷◌, arith, ◌==◌, if◌then◌else◌, ==→eq, Bool-cases,
  length,
}

-- each slab of a list fits
abbrev pub All : (Slab → Type 0) → List Slab → Type 0
All fits [] = Unit
All fits (s ∷ rest) = fits s × All fits rest

-- of `n` objects all are handed out
abbrev pub IsFull : ℕ → Slab → Type 0
IsFull n s = (s.freelist ≡ []) × (s.inuse ≡ n)

-- some are handed out, and some are free
abbrev pub IsPartial : ℕ → Slab → Type 0
IsPartial n s = (s.inuse + length s.freelist ≡ n) × (0 < s.inuse) × (s.inuse < n)

-- all are free
abbrev pub IsEmpty : ℕ → Slab → Type 0
IsEmpty n s = (length s.freelist ≡ n) × (s.inuse ≡ 0)

-- Each list has the slabs its name says, and a slab has more objects than one.
pub record IsValid (c : SlabCache) : Type 0 where
  pub many : (1 < c.objects_per_slab) × (c.objects_per_slab < 4294967296)
  pub full : All (IsFull c.objects_per_slab) c.slabs_full
  pub partial : All (IsPartial c.objects_per_slab) c.slabs_partial
  pub empty : All (IsEmpty c.objects_per_slab) c.slabs_empty

pub pop_node-All :
    (fits : Slab → Type 0) (page : ℕ) (l : List Slab) → All fits l → All fits (pop_node page l)
pop_node-All fits page [] h = tt
pop_node-All fits page (s ∷ rest) (h, hs) = elim (Bool-cases (s.page == page)) [
  | inl found ↦ rw found hs
  | inr on ↦ rw on (h, pop_node-All fits page rest hs)
]

pub write_slab-All :
    (fits : Slab → Type 0) (slab : Slab) (l : List Slab)
    → fits slab
    → All fits l
    → All fits (write_slab slab l)
write_slab-All fits slab [] ok h = tt
write_slab-All fits slab (s ∷ rest) ok (h, hs) = elim (Bool-cases (s.page == slab.page)) [
  | inl found ↦ rw found (ok, hs)
  | inr on ↦ rw on (h, write_slab-All fits slab rest ok hs)
]

pub slab_of-All :
    (fits : Slab → Type 0) (page : ℕ) (l : List Slab) (s : Slab)
    → All fits l
    → slab_of page l ≡ some s
    → fits s × (s.page ≡ page)
slab_of-All fits page [] s h e = absurd (cc e)
slab_of-All fits page (x ∷ rest) s (h, hs) e = elim (Bool-cases (x.page == page)) [
  | inl found ↦ let same : x ≡ s = cc (rw found at e) in rw (← same) (h, ==→eq x.page page found)
  | inr on ↦ slab_of-All fits page rest s hs (rw on at e)
]

-- how many times an address is in a list
abbrev pub count : ℕ → List ℕ → ℕ
count a [] = 0
count a (x ∷ xs) = (if x == a then 1 else 0) + count a xs

-- and in the lists of free objects of slabs
abbrev pub free_in : ℕ → List Slab → ℕ
free_in a [] = 0
free_in a (s ∷ rest) = count a s.freelist + free_in a rest

-- how many times an address is a free object of the cache
abbrev pub free_objects : SlabCache → ℕ → ℕ
free_objects c a = free_in a c.slabs_full + (free_in a c.slabs_partial + free_in a c.slabs_empty)

pub free_in-pop_node :
    (page : ℕ) (l : List Slab) (s : Slab) (a : ℕ)
    → slab_of page l ≡ some s
    → free_in a (pop_node page l) + count a s.freelist ≡ free_in a l
free_in-pop_node page [] s a e = absurd (cc e)
free_in-pop_node page (x ∷ rest) s a e = elim (Bool-cases (x.page == page)) [
  | inl found ↦ let same : x ≡ s = cc (rw found at e) in rw (found, same) (omega arith)
  | inr on ↦ rw on (omega (arith, free_in-pop_node page rest s a (rw on at e)))
]

pub free_in-write_slab :
    (slab : Slab) (l : List Slab) (s : Slab) (a : ℕ)
    → slab_of slab.page l ≡ some s
    → free_in a (write_slab slab l) + count a s.freelist ≡ free_in a l + count a slab.freelist
free_in-write_slab slab [] s a e = absurd (cc e)
free_in-write_slab slab (x ∷ rest) s a e = elim (Bool-cases (x.page == slab.page)) [
  | inl found ↦ let same : x ≡ s = cc (rw found at e) in rw (found, same) (omega arith)
  | inr on ↦ rw on (omega (arith, free_in-write_slab slab rest s a (rw on at e)))
]
