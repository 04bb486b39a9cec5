-- ===== src/Vma/Fill.antt =====
-- `vma_alloc` keeps the areas valid and returns what was asked for.
use kernel_legacy.Vma.{
  Area, AreaState, Memory, AllocMode, eager, on_demand, allocated, lazy, page_align, is_free,
  area_at, put_at, vma_map_area, Allocation, unchanged, undo, fill, vma_alloc_in_area, choose,
  vma_alloc,
}
use kernel_legacy.Vma.Tiling.{IsTiled, area_at-IsTiled, put_at-IsTiled}
use kernel_legacy.Vma.Alloc.{
  IsValid, at_most_one, coalesced-put_at, vma_destroy_area-IsValid, split-cases, choose-IsUsable,
}
use kernel_legacy.Prelude.{
  ℕ, zero, suc, ◌+◌, ◌^◌, ◌≤◌, ◌<◌, ◌≡◌, refl, inl, inr, true, false, some, List, [], ◌∷◌, arith,
  Bool-cases, Option-cases, replicate,
}

-- the state that an allocation gives the area
abbrev pub state_of : AllocMode → AreaState
state_of eager = allocated
state_of on_demand = lazy

-- The areas are valid, and an area that is returned has at least the asked size, in whole pages,
-- with the asked flags and the state of the mode.
abbrev pub IsSound : (lo hi size flags : ℕ) → AllocMode → Allocation → Type 0
IsSound lo hi size flags mode r =
    IsValid lo hi r.areas
    × ((i : ℕ)
        → r.returned ≡ some i
        → (a : Area) × (area_at r.areas i ≡ some a)
          × (a.size ≡ page_align size)
          × (size ≤ a.size)
          × (a.pte_flags ≡ flags)
          × (a.state ≡ state_of mode))

undo-IsSound :
    (lo hi size flags : ℕ) (mode : AllocMode) (l : List Area) (i : ℕ)
    → hi < 2 ^ 32
    → IsValid lo hi l
    → IsSound lo hi size flags mode (undo l i)
undo-IsSound lo hi size flags mode l i small v =
    (vma_destroy_area-IsValid lo hi l i small v, λ j e. cc)

pub area_at-put_at :
    (l : List Area) (i : ℕ) (a x : Area) (left : List Area)
    → area_at l i ≡ some a
    → area_at (put_at l i (x ∷ left)) i ≡ some x
area_at-put_at [] i a x left e = cc
area_at-put_at (b ∷ rest) zero a x left e = refl
area_at-put_at (b ∷ rest) (suc i) a x left e = area_at-put_at rest i a x left e

-- what stands in the place of the free area `a` at `i`
module _ (lo hi : ℕ) (l : List Area) (i : ℕ) (a : Area) (left : List Area) (v : IsValid lo hi l)
    (found : area_at l i ≡ some a) (idle : is_free a ≡ true) (one : at_most_one left ≡ true) where
  put_at-IsValid :
      (x : Area)
      → IsTiled a.start_vaddr (a.start_vaddr + a.size) (x ∷ left)
      → is_free x ≡ false
      → IsValid lo hi (put_at l i (x ∷ left))
  put_at-IsValid x tiled busy = (
    put_at-IsTiled lo hi l i a (x ∷ left) v.0 found tiled,
    coalesced-put_at l i a x left v.1 found idle busy one,
  )

  kept-IsSound :
      (x : Area) (size flags : ℕ) (mode : AllocMode)
      → IsTiled a.start_vaddr (a.start_vaddr + a.size) (x ∷ left)
      → is_free x ≡ false
      → x.size ≡ page_align size
      → size ≤ x.size
      → x.pte_flags ≡ flags
      → x.state ≡ state_of mode
      → IsSound lo hi size flags mode
          (record { returned = some i; given_back = []; areas = put_at l i (x ∷ left) })
  kept-IsSound x size flags mode tiled busy fit le flag state = (
    put_at-IsValid x tiled busy,
    λ j e.
        let same : i ≡ j = cc in
        (x, rw (← same) (area_at-put_at l i a x left found), fit, le, flag, state),
  )

  -- without memory for the array, and in the two modes with it
  pub fill-IsSound :
      (m : Memory) (new : Area) (size flags : ℕ) (mode : AllocMode)
      → hi < 2 ^ 32
      → IsTiled a.start_vaddr (a.start_vaddr + a.size) (new ∷ left)
      → is_free new ≡ false
      → new.state ≡ allocated
      → new.size ≡ page_align size
      → size ≤ new.size
      → IsSound lo hi size flags mode (fill m l i new left flags mode)
  unfolding fill vma_map_area
  fill-IsSound m new size flags mode small tiled busy state fit le = elim (Bool-cases m.array) [
    | inl memory ↦ go mode memory
    | inr full ↦
        rw full (undo-IsSound lo hi size flags mode _ i small (put_at-IsValid new tiled busy))
  ]
    where
      go :
          (mode : AllocMode)
          → m.array ≡ true
          → IsSound lo hi size flags mode (fill m l i new left flags mode)
      go on_demand memory =
          rw (fill, memory)
            (kept-IsSound
              (record new {
                pages = some (replicate new.nr_pages 0);
                pte_flags = flags;
                state = lazy;
              })
              size flags on_demand tiled refl fit le refl refl)
      go eager memory =
          let sized = record new { pages = some (replicate new.nr_pages 0); pte_flags = flags } in
          let full = (vma_map_area m sized).0 in
          elim (Bool-cases (vma_map_area m sized).1) [
            | inl done ↦
                rw (fill, memory, done)
                  (kept-IsSound full size flags eager tiled busy fit le refl state)
            | inr fails ↦
                rw (fill, memory, fails)
                  (undo-IsSound lo hi size flags eager _ i small (put_at-IsValid full tiled busy))
          ]

unchanged-IsSound :
    (lo hi size flags : ℕ) (mode : AllocMode) (l : List Area)
    → IsValid lo hi l
    → IsSound lo hi size flags mode (unchanged l)
unchanged-IsSound lo hi size flags mode l v = (v, λ j e. cc)

-- In areas that tile a range below the top of the address space, with no two free neighbours, an
-- allocation of a size above 0 leaves areas that do the same, whatever memory runs out on its way. An
-- area that it returns is in the list at that position, has the asked size rounded up to whole pages,
-- the asked flags and the state of the mode.
pub vma_alloc-IsSound :
    (m : Memory) (lo hi : ℕ) (l : List Area) (size flags hint : ℕ) (mode : AllocMode)
    → hi < 2 ^ 32
    → IsValid lo hi l
    → 0 < size
    → IsSound lo hi size flags mode (vma_alloc m l size flags hint mode)
unfolding vma_alloc vma_alloc_in_area
vma_alloc-IsSound m lo hi l size flags hint mode small v bytes =
    elim (Option-cases (choose l size hint)) [
      | inl nowhere ↦ rw (vma_alloc, nowhere) (unchanged-IsSound lo hi size flags mode l v)
      | inr (i, at) ↦
          let (a, found, idle, le) = choose-IsUsable l size hint i at in
          let (low, high, some_bytes, whole) = area_at-IsTiled lo hi l i a v.0 found in
          elim (split-cases m.node a size bytes le some_bytes whole (omega arith)) [
            | inl full ↦
                rw (vma_alloc, at, vma_alloc_in_area, found, full)
                  (unchanged-IsSound lo hi size flags mode l v)
            | inr (new, left, e, tiled, state, one, fit, enough) ↦
                rw (vma_alloc, at, vma_alloc_in_area, found, e)
                  (fill-IsSound lo hi l i a left v found idle one m new size flags mode small tiled
                    (rw state refl) state fit enough)
          ]
    ]
