-- ===== src/Vma/Mmap.antt =====
-- src/syscalls/mmap.c and src/syscalls/munmap.c, over the areas of the calling task.
use kernel_legacy.Bits.{bit}
use kernel_legacy.Prelude.Int.{ℤ, pos, negsuc, signed32}
use kernel_legacy.Vma.{
  vma_split_area, page_align, Allocation, vma_alloc_in_area, fill, choose, find_area, Area, Memory,
  on_demand, lazy, is_free, area_at, vma_find_by_start, vma_destroy_area, vma_alloc,
}
use kernel_legacy.Vma.Tiling.{IsTiled, area_at-IsTiled}
use kernel_legacy.Vma.Alloc.{
  IsValid, vma_destroy_area-IsValid, split-cases, choose-IsUsable, choose-none,
}
use kernel_legacy.Vma.Lookup.{find_area-IsFirst}
use kernel_legacy.Vma.Fill.{vma_alloc-IsSound, area_at-put_at}
use kernel_legacy.Prelude.{
  ℕ, zero, suc, ◌+◌, ◌-◌, ◌%◌, ◌^◌, ◌≤◌, ◌<◌, ◌≡◌, refl, sym, ap, ◌∙◌, ◌≢◌, ◌⊎◌, inl, inr, Bool,
  true, false, not, ◌||◌, Option, none, some, List, [], ◌∷◌, arith, ltb, ◌==◌, if◌then◌else◌, ==→eq,
  eq→==, ==→ne, Bool-cases, Option-cases,
}

abbrev pub enomem : ℕ
enomem = 12

abbrev pub einval : ℕ
einval = 22

-- present, for user mode, and writable where `prot` has `PROT_WRITE`
abbrev pub mmap_flags : ℕ → ℕ
mmap_flags prot = if bit prot 1 == 1 then 7 else 5

-- the code that `mmap` returns for the area at a position
abbrev pub mapped_at : Option Area → ℤ
mapped_at none = negsuc (enomem - 1)
mapped_at (some a) = signed32 a.start_vaddr

unfoldable pub mmap : Memory → List Area → (addr length_ prot : ℕ) → ℤ × List Area
mmap m areas addr length_ prot =
    let r = vma_alloc m areas length_ (mmap_flags prot) addr on_demand in
    if length_ == 0 then (negsuc (einval - 1), areas) else elim r.returned [
      | none ↦ (negsuc (enomem - 1), r.areas)
      | some i ↦ (mapped_at (area_at r.areas i), r.areas)
    ]

-- whether the area at a position is allocated or lazy
abbrev pub is_mapped : List Area → Option ℕ → Bool
is_mapped areas none = false
is_mapped areas (some i) = elim (area_at areas i) [ none ↦ false | some a ↦ not (is_free a) ]

-- the code, the pages given back, and the areas
unfoldable pub munmap : List Area → (addr length_ : ℕ) → ℤ × (List ℕ × List Area)
munmap areas addr length_ =
    if (addr == 0) || (length_ == 0)
    then (negsuc (einval - 1), ([], areas))
    else elim (vma_find_by_start addr areas) [
      | none ↦ (negsuc (einval - 1), ([], areas))
      | some i ↦
          if is_mapped areas (some i)
          then (pos 0, vma_destroy_area areas i)
          else (negsuc (einval - 1), ([], areas))
    ]

-- Without an area for the rest only the lack of memory for it makes a split fail.
split-none :
    (node : Bool) (a : Area) (size : ℕ)
    → size ≤ a.size
    → a.size % 4096 ≡ 0
    → a.size < 2 ^ 32
    → vma_split_area node a size ≡ none
    → node ≡ false
unfolding vma_split_area
split-none true a size le whole small e =
    let room : ltb a.size (page_align size) ≡ false =
      let up : page_align size ≤ a.size = omega (arith, le, whole, small) in ground (arith, up) in
    elim (Bool-cases (page_align size == a.size)) [
      | inl exact ↦ absurd (cc (rw (room, exact) at e))
      | inr part ↦ absurd (cc (rw (room, part) at e))
    ]
split-none false a size le whole small e = refl

-- what `mmap` needs and does not get: memory for an area or its array, or a free area that is as large
abbrev pub IsShort : Memory → List Area → (length_ : ℕ) → Type 0
IsShort m l length_ =
    (m.node ≡ false)
    ⊎ ((m.array ≡ false)
        ⊎ ((i : ℕ) (a : Area) → area_at l i ≡ some a → is_free a ≡ true → a.size < length_))

-- The area that `mmap` makes: it is the start of a free area from before, lazy, of that length rounded
-- up to whole pages, with the flags that `prot` asks for.
abbrev pub IsMade : List Area → (length_ prot : ℕ) → ℤ × List Area → Type 0
IsMade l length_ prot (code, areas) =
    (i : ℕ) × (from : Area) × (a : Area) × (area_at l i ≡ some from)
    × (is_free from ≡ true)
    × (area_at areas i ≡ some a)
    × (code ≡ signed32 a.start_vaddr)
    × (a.start_vaddr ≡ from.start_vaddr)
    × (length_ ≤ a.size)
    × (a.size ≡ page_align length_)
    × (a.state ≡ lazy)
    × (a.pte_flags ≡ mmap_flags prot)

-- What a call of `mmap` on the areas `l` ends with, where the areas tile the range from `lo` to `hi`.
abbrev pub Maps : Memory → (lo hi : ℕ) → List Area → (length_ prot : ℕ) → ℤ × List Area → Type 0
Maps m lo hi l length_ prot (code, areas) =
    IsValid lo hi areas
    × (((length_ ≡ 0) × (code ≡ negsuc (einval - 1)) × (areas ≡ l))
        ⊎ ((0 < length_)
            × (((code ≡ negsuc (enomem - 1)) × IsShort m l length_)
                ⊎ IsMade l length_ prot (code, areas))))

-- how an allocation that waits for its pages ends
abbrev OnDemand : Memory → List Area → (size flags : ℕ) → Allocation → Type 0
OnDemand m l size flags r =
    ((r.returned ≡ none) × IsShort m l size)
    ⊎ ((i : ℕ) × (from : Area) × (a : Area) × (r.returned ≡ some i)
        × (area_at l i ≡ some from)
        × (is_free from ≡ true)
        × (area_at r.areas i ≡ some a)
        × (a.start_vaddr ≡ from.start_vaddr)
        × (size ≤ a.size)
        × (a.size ≡ page_align size)
        × (a.state ≡ lazy)
        × (a.pte_flags ≡ flags))

vma_alloc-OnDemand :
    (m : Memory) (lo hi : ℕ) (l : List Area) (size flags hint : ℕ)
    → hi < 2 ^ 32
    → IsValid lo hi l
    → 0 < size
    → OnDemand m l size flags (vma_alloc m l size flags hint on_demand)
unfolding vma_alloc vma_alloc_in_area fill
vma_alloc-OnDemand m lo hi l size flags hint small v bytes =
    elim (Option-cases (choose l size hint)) [
      | inl nowhere ↦
          rw (vma_alloc, nowhere) (inl (refl, inr (inr (choose-none l size hint nowhere))))
      | inr (i, at) ↦
          let (a, found, idle, le) = choose-IsUsable l size hint i at in
          let (low, high, some_bytes, whole) = area_at-IsTiled lo hi l i a v.0 found in
          elim (split-cases m.node a size bytes le some_bytes whole (omega arith)) [
            | inl full ↦
                rw (vma_alloc, at, vma_alloc_in_area, found, full)
                  (inl (refl, inl (split-none m.node a size le whole (omega arith) full)))
            | inr (new, left, e, tiled, state, one, fit, enough) ↦ elim (Bool-cases m.array) [
              | inr empty ↦
                  rw (vma_alloc, at, vma_alloc_in_area, found, e, fill, empty)
                    (inl (refl, inr (inl refl)))
              | inl memory ↦
                  rw (vma_alloc, at, vma_alloc_in_area, found, e, fill, memory)
                    (inr (
                      i,
                      a,
                      _,
                      refl,
                      found,
                      idle,
                      area_at-put_at l i a _ left found,
                      tiled.0,
                      enough,
                      fit,
                      refl,
                      refl,
                    ))
            ]
          ]
    ]

-- Where the areas are valid, and end below the top of the address space, `mmap` keeps them valid. It
-- returns -EINVAL and changes nothing exactly for a length of 0. Else it returns -ENOMEM, and then there
-- is no memory for an area or its array, or no free area is that large; or it returns the start of a
-- lazy area that was free before, whose size is that length rounded up to whole pages, and no less
-- than the length, with the flags that `prot` asks for.
pub mmap-IsValid :
    (m : Memory) (lo hi : ℕ) (l : List Area) (addr length_ prot : ℕ)
    → hi < 2 ^ 32
    → IsValid lo hi l
    → Maps m lo hi l length_ prot (mmap m l addr length_ prot)
unfolding mmap
mmap-IsValid m lo hi l addr length_ prot small v = elim (Bool-cases (length_ == 0)) [
  | inl nothing ↦ rw (mmap, nothing) (v, inl (==→eq _ _ nothing, refl, refl))
  | inr bytes ↦
      let r = vma_alloc m l length_ (mmap_flags prot) addr on_demand in
      let above : 0 < length_ = ground arith in
      let (valid, _) =
        vma_alloc-IsSound m lo hi l length_ (mmap_flags prot) addr on_demand small v above in
      elim (vma_alloc-OnDemand m lo hi l length_ (mmap_flags prot) addr small v above) [
        | inl (full, short) ↦ rw (mmap, bytes, full) (valid, inr (above, inl (refl, short)))
        | inr (i, from, a, at, was, idle, found, same, enough, fit, state, flags) ↦
            rw (mmap, bytes, at, found)
              (
                valid,
                inr (
                  above,
                  inr (i, from, a, was, idle, found, refl, same, enough, fit, state, flags),
                ),
              )
      ]
]

-- Two areas that start at one address are one.
start_unique :
    (lo hi : ℕ) (l : List Area) (i j : ℕ) (a b : Area)
    → IsTiled lo hi l
    → area_at l i ≡ some a
    → area_at l j ≡ some b
    → a.start_vaddr ≡ b.start_vaddr
    → a ≡ b
start_unique lo hi [] i j a b h e1 e2 same = cc
start_unique lo hi (x ∷ rest) zero zero a b h e1 e2 same = cc
start_unique lo hi (x ∷ rest) zero (suc j) a b (start, some_bytes, whole, tiled) e1 e2 same =
    let at : x ≡ a = cc in
    let first : x.start_vaddr ≡ a.start_vaddr = ap (λ y. y.start_vaddr) at in
    let (low, _, _, _) = area_at-IsTiled (lo + x.size) hi rest j b tiled e2 in
    absurd (omega (arith, first, start, some_bytes, low, same))
start_unique lo hi (x ∷ rest) (suc i) zero a b (start, some_bytes, whole, tiled) e1 e2 same =
    let at : x ≡ b = cc in
    let first : x.start_vaddr ≡ b.start_vaddr = ap (λ y. y.start_vaddr) at in
    let (low, _, _, _) = area_at-IsTiled (lo + x.size) hi rest i a tiled e1 in
    absurd (omega (arith, first, start, some_bytes, low, same))
start_unique lo hi (x ∷ rest) (suc i) (suc j) a b (start, some_bytes, whole, tiled) e1 e2 same =
    start_unique (lo + x.size) hi rest i j a b tiled e1 e2 same

-- What a call of `munmap` on the areas `l` ends with: -EINVAL with nothing changed, or 0 with the area at
-- the address destroyed.
abbrev pub Unmaps : List Area → (addr length_ : ℕ) → ℤ × (List ℕ × List Area) → Type 0
Unmaps l addr length_ r =
    ((r ≡ (negsuc (einval - 1), ([], l)))
      × ((addr ≡ 0)
          ⊎ ((length_ ≡ 0)
              ⊎ ((i : ℕ) (a : Area)
                  → area_at l i ≡ some a
                  → a.start_vaddr ≡ addr
                  → is_free a ≡ true))))
    ⊎ ((addr ≢ 0)
        × (length_ ≢ 0)
        × ((i : ℕ) × (a : Area) × (area_at l i ≡ some a)
            × (a.start_vaddr ≡ addr)
            × (is_free a ≡ false)
            × (r ≡ (pos 0, vma_destroy_area l i))))

-- Where the areas are valid, and end below the top of the address space, `munmap` keeps them valid. It
-- returns -EINVAL and changes nothing exactly where the address or the length is 0 or no area starts at
-- the address but free ones. Else it returns 0 and has destroyed the area that starts at the address,
-- whether that is allocated or lazy.
pub munmap-IsValid :
    (lo hi : ℕ) (l : List Area) (addr length_ : ℕ)
    → hi < 2 ^ 32
    → IsValid lo hi l
    → IsValid lo hi (munmap l addr length_).1.1 × Unmaps l addr length_ (munmap l addr length_)
unfolding munmap vma_find_by_start
munmap-IsValid lo hi l addr length_ small v = elim (Bool-cases (addr == 0)) [
  | inl null_ ↦ rw (munmap, null_) (v, inl (refl, inl (==→eq _ _ null_)))
  | inr there ↦ elim (Bool-cases (length_ == 0)) [
    | inl nothing ↦ rw (munmap, there, nothing) (v, inl (refl, inr (inl (==→eq _ _ nothing))))
    | inr bytes ↦
        let first = find_area-IsFirst (λ a. a.start_vaddr == addr) l in
        elim (Option-cases (find_area (λ a. a.start_vaddr == addr) l)) [
          | inl missing ↦
              let all = rw missing at first in
              rw (munmap, there, bytes, missing)
                (
                  v,
                  inl (refl, inr (inr (λ i a at e. absurd (cc (sym (eq→== _ _ e) ∙ all i a at))))),
                )
          | inr (i, at) ↦
              let (a, found, test, _) = rw at at first in
              elim (Bool-cases (is_free a)) [
                | inr held ↦
                    let mapped : is_mapped l (some i) ≡ true = rw (is_mapped, found, held) refl in
                    rw (munmap, there, bytes, at, mapped)
                      (
                        vma_destroy_area-IsValid lo hi l i small v,
                        inr (
                          ==→ne _ _ there,
                          ==→ne _ _ bytes,
                          (i, a, found, ==→eq _ _ test, held, refl),
                        ),
                      )
                | inl idle ↦
                    let mapped : is_mapped l (some i) ≡ false = rw (is_mapped, found, idle) refl in
                    rw (munmap, there, bytes, at, mapped)
                      (
                        v,
                        inl (
                          refl,
                          inr (
                              inr (λ j b at' e.
                                let one =
                                  start_unique lo hi l i j a b v.0 found at'
                                    (==→eq _ _ test ∙ sym e) in
                                ap is_free (sym one) ∙ idle)),
                        ),
                      )
              ]
        ]
  ]
]
