-- ===== src/Vma/Lookup.antt =====
-- The searches through the list of areas.
use kernel_legacy.Vma.{Area, is_free, area_at, find_area, vma_first_fit_alloc, vma_find_by_addr}
use kernel_legacy.Vma.Tiling.{IsTiled, IsTiled-le}
use kernel_legacy.Prelude.{
  ℕ, zero, suc, ◌+◌, ◌%◌, ◌^◌, ◌≤◌, ◌<◌, ◌≡◌, refl, ◌⊎◌, inl, inr, Bool, true, false, ◌&&◌, Option,
  none, some, List, [], ◌∷◌, arith, ltb, leb, Bool-cases,
}

-- A search returns the first area that passes the test, or NULL where none does.
abbrev pub IsFirst : (Area → Bool) → List Area → Option ℕ → Type 0
IsFirst test l none = (j : ℕ) (b : Area) → area_at l j ≡ some b → test b ≡ false
IsFirst test l (some i) =
    (a : Area) × (area_at l i ≡ some a)
    × (test a ≡ true)
    × ((j : ℕ) (b : Area) → j < i → area_at l j ≡ some b → test b ≡ false)

pub find_area-IsFirst : (test : Area → Bool) (l : List Area) → IsFirst test l (find_area test l)
find_area-IsFirst test [] = λ j b e. cc
find_area-IsFirst test (a ∷ rest) = elim (Bool-cases (test a)) [
  | inl here ↦ rw here (a, refl, here, λ j b lt e. absurd (ground arith))
  | inr past ↦ rw past (go past (find_area test rest) (find_area-IsFirst test rest))
]
  where
    skip :
        (bound : ℕ)
        → test a ≡ false
        → ((j : ℕ) (b : Area) → j < bound → area_at rest j ≡ some b → test b ≡ false)
        → (j : ℕ) (b : Area) → j < suc bound
        → area_at (a ∷ rest) j ≡ some b
        → test b ≡ false
    skip bound past h zero b lt e = let same : a ≡ b = cc in rw (← same) past
    skip bound past h (suc j) b lt e = h j b (omega arith) e

    go :
        test a ≡ false
        → (o : Option ℕ) → IsFirst test rest o
        → IsFirst test (a ∷ rest) (elim o [ none ↦ none | some i ↦ some (suc i) ])
    go past none h = λ j b e. skip (suc j) past (λ k c lt f. h k c f) j b (omega arith) e
    go past (some i) (b, found, passes, before) = (b, found, passes, skip i past before)

-- `vma_first_fit_alloc` returns the first free area of at least that size.
pub vma_first_fit_alloc-IsFirst :
    (l : List Area) (size : ℕ)
    → IsFirst (λ a. leb size a.size && is_free a) l (vma_first_fit_alloc l size)
unfolding vma_first_fit_alloc
vma_first_fit_alloc-IsFirst l size = find_area-IsFirst _ l

-- The result of a search by address in areas that cover the addresses from `lo` below `hi`: NULL
-- outside that range, and inside it the area that holds the address.
abbrev pub Locates : (lo hi addr : ℕ) → List Area → Option ℕ → Type 0
Locates lo hi addr l none = (addr < lo) ⊎ (hi ≤ addr)
Locates lo hi addr l (some i) =
    (lo ≤ addr)
    × (addr < hi)
    × ((a : Area) × (area_at l i ≡ some a)
        × (a.start_vaddr ≤ addr)
        × (addr < a.start_vaddr + a.size))

later_area :
    (lo hi addr : ℕ) (a : Area) (rest : List Area)
    → (addr < lo) ⊎ (lo + a.size ≤ addr)
    → (o : Option ℕ) → Locates (lo + a.size) hi addr rest o
    → lo + a.size ≤ hi
    → Locates lo hi addr (a ∷ rest) (elim o [ none ↦ none | some i ↦ some (suc i) ])
later_area lo hi addr a rest out none (inl low) le = ground arith
later_area lo hi addr a rest out none (inr high) le = inr high
later_area lo hi addr a rest out (some i) (low, high, found) le = (omega arith, high, found)

-- In areas that tile a range, `vma_find_by_addr` returns the area that holds the address, and NULL
-- exactly for an address outside the range.
pub vma_find_by_addr-Locates :
    (lo hi addr : ℕ) (l : List Area)
    → hi < 2 ^ 32
    → IsTiled lo hi l
    → Locates lo hi addr l (vma_find_by_addr addr l)
unfolding vma_find_by_addr
vma_find_by_addr-Locates lo hi addr [] small h = ground arith
vma_find_by_addr-Locates lo hi addr (a ∷ rest) small (start, bytes, whole, tiled) =
    let bound = IsTiled-le _ hi rest tiled in
    let inside =
      λ (b : Area). leb b.start_vaddr addr && ltb addr ((b.start_vaddr + b.size) % 2 ^ 32) in
    let later = vma_find_by_addr-Locates (lo + a.size) hi addr rest small tiled in
    elim (Bool-cases (inside a)) [
      | inl here ↦
          let in_a : (a.start_vaddr ≤ addr) × (addr < a.start_vaddr + a.size) =
            (ground arith, ground arith) in
          rw here (omega arith, omega arith, (a, refl, in_a.0, in_a.1))
      | inr past ↦
          rw past (later_area lo hi addr a rest (ground arith) (find_area inside rest) later bound)
    ]
