-- ===== src/Vma/Alloc.antt =====
-- What the steps of `vma_alloc` and `vma_destroy_area` do to valid areas.
use kernel_legacy.Vma.{
  allocated, Area, page_size, page_align, is_free, area_at, put_at, vma_first_fit_alloc,
  vma_find_by_start, vma_split_area, vma_destroy_area, emptied, fits, choose,
}
use kernel_legacy.Vma.Tiling.{IsTiled, coalesced, coalesced_but, area_at-IsTiled, put_at-IsTiled}
use kernel_legacy.Vma.Merging.{
  head_free, coalesced-cons, vma_merge_area-IsTiled, coalesced-vma_merge_area,
}
use kernel_legacy.Vma.Lookup.{find_area-IsFirst}
use kernel_legacy.Prelude.{
  ℕ, zero, suc, ◌+◌, ◌-◌, ◌%◌, ◌^◌, ◌≤◌, ◌<◌, ◌≡◌, refl, sym, ◌∙◌, ◌≢◌, ◌⊎◌, inl, inr, Bool, true,
  false, not, ◌&&◌, Option, none, some, List, [], ◌∷◌, ◌++◌, arith, ltb, leb, ◌==◌, if◌then◌else◌,
  ==→eq, Bool-cases, Option-cases,
}

-- The areas tile the range, and no free area has a free neighbour.
abbrev pub IsValid : (lo hi : ℕ) → List Area → Type 0
IsValid lo hi l = IsTiled lo hi l × (coalesced l ≡ true)

-- whether a list of areas has at most one
abbrev pub at_most_one : List Area → Bool
at_most_one [] = true
at_most_one (a ∷ []) = true
at_most_one (a ∷ b ∷ rest) = false

coalesced_but-put_at :
    (l : List Area) (i : ℕ) (x : Area)
    → coalesced l ≡ true
    → coalesced_but (put_at l i (x ∷ [])) i ≡ true
coalesced_but-put_at [] i x c = refl
coalesced_but-put_at (a ∷ []) zero x c = refl
coalesced_but-put_at (a ∷ b ∷ rest) zero x c = ground arith
coalesced_but-put_at (a ∷ []) (suc i) x c = refl
coalesced_but-put_at (a ∷ b ∷ []) (suc zero) x c = refl
coalesced_but-put_at (a ∷ b ∷ d ∷ rest) (suc zero) x c = ground arith
coalesced_but-put_at (a ∷ b ∷ rest) (suc (suc i)) x c =
    let later = coalesced_but-put_at (b ∷ rest) (suc i) x in ground (arith, later)

head_free-put_at :
    (l : List Area) (i : ℕ) (x : Area) (left : List Area)
    → is_free x ≡ false
    → head_free (put_at l i (x ∷ left)) ≡ true
    → head_free l ≡ true
head_free-put_at [] i x left busy h = h
head_free-put_at (a ∷ rest) zero x left busy h = cc
head_free-put_at (a ∷ rest) (suc i) x left busy h = h

fewer_free :
    (f h c h' c' : Bool)
    → (not (f && h) && c) ≡ true
    → (h' ≡ true → h ≡ true)
    → (c ≡ true → c' ≡ true)
    → (not (f && h') && c') ≡ true
fewer_free false h c h' c' e less more = more e
fewer_free true true c h' c' e less more = cc
fewer_free true false c true c' e less more = cc (less refl)
fewer_free true false c false c' e less more = more e

behind_busy :
    (x : Area) (l : List Area) → is_free x ≡ false → coalesced l ≡ true → coalesced (x ∷ l) ≡ true
behind_busy x l busy c = rw (coalesced-cons x l, busy) c

-- behind a free area, what may stand in its place
other_free :
    (b : Area) (rest : List Area)
    → coalesced (b ∷ rest) ≡ true
    → is_free b ≡ true
    → (y : Area) → coalesced (y ∷ rest) ≡ true
other_free b rest c idle y = rw (coalesced-cons y rest) (
    any (head_free rest) (coalesced rest) (is_free y)
      (rw idle at (sym (coalesced-cons b rest) ∙ c)))
  where
    any : (h c f : Bool) → (not (true && h) && c) ≡ true → (not (f && h) && c) ≡ true
    any true c f e = cc
    any false c true e = e
    any false c false e = e

-- an area that is not free, and at most one behind it, in place of a free one
pub coalesced-put_at :
    (l : List Area) (i : ℕ) (a x : Area) (left : List Area)
    → coalesced l ≡ true
    → area_at l i ≡ some a
    → is_free a ≡ true
    → is_free x ≡ false
    → at_most_one left ≡ true
    → coalesced (put_at l i (x ∷ left)) ≡ true
coalesced-put_at [] i a x left c e idle busy one = refl
coalesced-put_at (b ∷ rest) zero a x left c e idle busy one =
    let same : b ≡ a = cc in
    let b_idle : is_free b ≡ true = rw same idle in go left one (other_free b rest c b_idle)
  where
    go :
        (left : List Area)
        → at_most_one left ≡ true
        → ((y : Area) → coalesced (y ∷ rest) ≡ true)
        → coalesced (x ∷ (left ++ rest)) ≡ true
    go [] one h = h x
    go (y ∷ []) one h = behind_busy x (y ∷ rest) busy (h y)
    go (y ∷ z ∷ left) one h = cc
coalesced-put_at (b ∷ rest) (suc i) a x left c e idle busy one =
    let split = coalesced-cons b rest in
    let later = coalesced-put_at rest i a x left in
    let head = head_free-put_at rest i x left busy in
    rw (coalesced-cons b (put_at rest i (x ∷ left))) (
      fewer_free (is_free b) (head_free rest) (coalesced rest) _ _ (sym split ∙ c) head
        (λ h. later h e idle busy one))

-- Destroying an area leaves the areas tiling their range, without two free neighbours: the freed
-- area is merged with those beside it.
pub vma_destroy_area-IsValid :
    (lo hi : ℕ) (l : List Area) (i : ℕ)
    → hi < 2 ^ 32
    → IsValid lo hi l
    → IsValid lo hi (vma_destroy_area l i).1
unfolding vma_destroy_area
vma_destroy_area-IsValid lo hi l i small (tiled, c) = elim (Option-cases (area_at l i)) [
  | inl missing ↦ rw (vma_destroy_area, missing) (tiled, c)
  | inr (a, found) ↦
      let (low, high, bytes, whole) = area_at-IsTiled lo hi l i a tiled found in
      let put =
        put_at-IsTiled lo hi l i a (emptied a ∷ []) tiled found (refl, bytes, whole, refl) in
      rw (vma_destroy_area, found)
        (
          vma_merge_area-IsTiled lo hi (put_at l i (emptied a ∷ [])) i small put,
          coalesced-vma_merge_area lo hi (put_at l i (emptied a ∷ [])) i small put
              (coalesced_but-put_at l i (emptied a) c),
        )
]

page_align_lem :
    (size n : ℕ)
    → 0 < size
    → size ≤ n
    → n % page_size ≡ 0
    → n < 2 ^ 32
    → (size ≤ page_align size) × (page_align size % page_size ≡ 0)
page_align_lem size n some_bytes le whole small = (omega arith, omega arith)

rest_lem :
    (taken n start : ℕ)
    → 0 < taken
    → taken < n
    → taken % page_size ≡ 0
    → n % page_size ≡ 0
    → start + n < 2 ^ 32
    → (0 < taken)
      × ((start + taken) % 2 ^ 32 ≡ start + taken)
      × (0 < n - taken)
      × ((n - taken) % page_size ≡ 0)
      × (start + taken + (n - taken) ≡ start + n)
rest_lem taken n start some_bytes lt pages whole small =
    (some_bytes, omega arith, omega arith, omega arith, omega arith)

-- What `vma_split_area` makes of a free area: nothing, or areas that tile its place, the first of
-- them not free and of the asked size.
pub split-cases :
    (node : Bool) (a : Area) (size : ℕ)
    → 0 < size
    → size ≤ a.size
    → 0 < a.size
    → a.size % page_size ≡ 0
    → a.start_vaddr + a.size < 2 ^ 32
    → (vma_split_area node a size ≡ none)
      ⊎ ((new : Area) × (left : List Area) × (vma_split_area node a size ≡ some (new, left))
          × IsTiled a.start_vaddr (a.start_vaddr + a.size) (new ∷ left)
          × (new.state ≡ allocated)
          × (at_most_one left ≡ true)
          × (new.size ≡ page_align size)
          × (size ≤ new.size))
unfolding vma_split_area
split-cases node a size some_bytes le bytes whole small =
    elim (Bool-cases (ltb a.size (page_align size))) [
      | inl large ↦ rw large (inl refl)
      | inr room ↦ elim (Bool-cases (page_align size == a.size)) [
        | inl exact ↦
            rw (room, exact)
              (inr
                (_, [], refl, (refl, bytes, whole, refl), refl, refl, ==→eq _ _ (ground arith), le))
        | inr part ↦ elim (Bool-cases node) [
          | inl memory ↦
              let (up, pages) = page_align_lem size a.size some_bytes le whole (omega arith) in
              let lt : page_align size < a.size = ground arith in
              let (t0, t1, t2, t3, t4) =
                rest_lem (page_align size) a.size a.start_vaddr (omega (arith, up)) lt pages whole
                  small in
              rw (room, part, memory)
                (inr (_, _, refl, (refl, t0, pages, (t1, t2, t3, t4)), refl, refl, refl, up))
          | inr full ↦ rw (room, part, full) (inl refl)
        ]
      ]
    ]

-- what `vma_alloc` has found where its search returns a position
abbrev pub IsUsable : List Area → (size i : ℕ) → Type 0
IsUsable l size i = (a : Area) × (area_at l i ≡ some a) × (is_free a ≡ true) × (size ≤ a.size)

fits-IsUsable :
    (l : List Area) (o : Option ℕ) (size i : ℕ)
    → fits l o size ≡ true
    → o ≡ some i
    → IsUsable l size i
fits-IsUsable l o size i good e =
    let here = rw e at good in
    elim (Option-cases (area_at l i)) [
      | inl missing ↦ absurd (cc (rw (fits, missing) at here))
      | inr (a, found) ↦
          let both = rw (fits, found) at here in
          (a, found, ground (arith, both), ground (arith, both))
    ]

pub choose-IsUsable :
    (l : List Area) (size hint i : ℕ) → choose l size hint ≡ some i → IsUsable l size i
unfolding choose vma_first_fit_alloc
choose-IsUsable l size hint i e =
    let hinted = if hint == 0 then none else vma_find_by_start hint l in
    elim (Bool-cases (fits l hinted size)) [
      | inl good ↦ fits-IsUsable l hinted size i good (rw good at e)
      | inr bad ↦
          let first = find_area-IsFirst (λ a. leb size a.size && is_free a) l in
          let (a, found, test, before) = rw (rw bad at e) at first in
          (a, found, ground (arith, test), ground (arith, test))
    ]

-- Where nothing is found, no free area is large enough.
pub choose-none :
    (l : List Area) (size hint : ℕ)
    → choose l size hint ≡ none
    → (i : ℕ) (a : Area) → area_at l i ≡ some a
    → is_free a ≡ true
    → a.size < size
unfolding choose vma_first_fit_alloc
choose-none l size hint e i a at idle =
    let hinted = if hint == 0 then none else vma_find_by_start hint l in
    elim (Bool-cases (fits l hinted size)) [
      | inl good ↦ absurd (fits-some l hinted size good (rw good at e))
      | inr bad ↦
          let first = find_area-IsFirst (λ a. leb size a.size && is_free a) l in
          let test = (rw (rw bad at e) at first) i a at in ground (arith, test, idle)
    ]
  where
    fits-some : (l : List Area) (o : Option ℕ) (size : ℕ) → fits l o size ≡ true → o ≢ none
    fits-some l none size h e = cc h
    fits-some l (some i) size h e = cc e
