-- ===== src/Vma/Tiling.antt =====
-- What the areas of an address space have in common: they tile a range, and no two neighbours are
-- free.
use kernel_legacy.Vma.{Area, page_size, is_free, area_at, put_at}
use kernel_legacy.Prelude.{
  ℕ, zero, suc, ◌+◌, ◌%◌, ◌≤◌, ◌<◌, ◌≡◌, sym, Bool, true, not, ◌&&◌, some, List, [], ◌∷◌, ◌++◌,
  arith,
}

-- The areas cover the addresses from `lo` below `hi`, in their order, in whole pages.
abbrev pub IsTiled : (lo hi : ℕ) → List Area → Type 0
IsTiled lo hi [] = lo ≡ hi
IsTiled lo hi (a ∷ rest) =
    (a.start_vaddr ≡ lo) × (0 < a.size) × (a.size % page_size ≡ 0) × IsTiled (lo + a.size) hi rest

-- whether no area is free whose neighbour is free
abbrev pub coalesced : List Area → Bool
coalesced [] = true
coalesced (a ∷ []) = true
coalesced (a ∷ b ∷ rest) = not (is_free a && is_free b) && coalesced (b ∷ rest)

-- the same without the pairs of the area at a position
abbrev pub coalesced_but : List Area → ℕ → Bool
coalesced_but [] i = true
coalesced_but (a ∷ rest) zero = coalesced rest
coalesced_but (p ∷ []) (suc i) = true
coalesced_but (p ∷ a ∷ rest) (suc zero) = coalesced rest
coalesced_but (p ∷ q ∷ rest) (suc (suc i)) =
    not (is_free p && is_free q) && coalesced_but (q ∷ rest) (suc i)

pub IsTiled-le : (lo hi : ℕ) (l : List Area) → IsTiled lo hi l → lo ≤ hi
IsTiled-le lo hi [] h = omega arith
IsTiled-le lo hi (a ∷ rest) (start, some_bytes, whole, tiled) =
    let more = IsTiled-le (lo + a.size) hi rest tiled in omega arith

pub IsTiled-append :
    (lo mid hi : ℕ) (l r : List Area) → IsTiled lo mid l → IsTiled mid hi r → IsTiled lo hi (l ++ r)
IsTiled-append lo mid hi [] r h k = rw h k
IsTiled-append lo mid hi (a ∷ l) r (start, some_bytes, whole, tiled) k =
    (start, some_bytes, whole, IsTiled-append (lo + a.size) mid hi l r tiled k)

-- an area lies in the range, in whole pages
pub area_at-IsTiled :
    (lo hi : ℕ) (l : List Area) (i : ℕ) (a : Area)
    → IsTiled lo hi l
    → area_at l i ≡ some a
    → (lo ≤ a.start_vaddr) × (a.start_vaddr + a.size ≤ hi) × (0 < a.size) × (a.size % page_size ≡ 0)
area_at-IsTiled lo hi [] i a h e = cc
area_at-IsTiled lo hi (b ∷ rest) zero a (start, some_bytes, whole, tiled) e =
    let same : b ≡ a = cc in
    let more = IsTiled-le (lo + b.size) hi rest tiled in
    let in_b : (lo ≤ b.start_vaddr) × (b.start_vaddr + b.size ≤ hi) = (omega arith, omega arith) in
    rw (← same) (in_b.0, in_b.1, some_bytes, whole)
area_at-IsTiled lo hi (b ∷ rest) (suc i) a (start, some_bytes, whole, tiled) e =
    let (low, high, bytes, pages) = area_at-IsTiled (lo + b.size) hi rest i a tiled e in
    (omega arith, high, bytes, pages)

-- other areas that tile the place of one
pub put_at-IsTiled :
    (lo hi : ℕ) (l : List Area) (i : ℕ) (a : Area) (new : List Area)
    → IsTiled lo hi l
    → area_at l i ≡ some a
    → IsTiled a.start_vaddr (a.start_vaddr + a.size) new
    → IsTiled lo hi (put_at l i new)
put_at-IsTiled lo hi [] i a new h e k = h
put_at-IsTiled lo hi (b ∷ rest) zero a new (start, some_bytes, whole, tiled) e k =
    let same : b ≡ a = cc in
    IsTiled-append lo (lo + b.size) hi new rest (rw (sym start) (rw same k)) tiled
put_at-IsTiled lo hi (b ∷ rest) (suc i) a new (start, some_bytes, whole, tiled) e k =
    (start, some_bytes, whole, put_at-IsTiled (lo + b.size) hi rest i a new tiled e k)
