-- ===== src/Vma/Merging.antt =====
-- `vma_merge_area` keeps the tiling and leaves no two free neighbours around the area.
use kernel_legacy.Vma.{Area, is_free, vma_areas_are_neighbors, merge_neighbor, vma_merge_area}
use kernel_legacy.Vma.Tiling.{IsTiled, IsTiled-le, coalesced, coalesced_but}
use kernel_legacy.Prelude.{
  ℕ, zero, suc, ◌+◌, ◌%◌, ◌^◌, ◌<◌, ◌≡◌, refl, sym, ◌∙◌, inl, inr, Bool, true, false, not, ◌&&◌,
  List, [], ◌∷◌, arith, Bool-cases,
}

merge_neighbor-IsTiled :
    (lo hi : ℕ) (l : List Area) → hi < 2 ^ 32 → IsTiled lo hi l → IsTiled lo hi (merge_neighbor l)
unfolding merge_neighbor
merge_neighbor-IsTiled lo hi [] small h = h
merge_neighbor-IsTiled lo hi (a ∷ []) small h = h
merge_neighbor-IsTiled lo hi (a ∷ b ∷ rest) small (sa, pa, wa, (sb, pb, wb, tiled)) =
    let bound = IsTiled-le _ hi rest tiled in
    let size : (a.size + b.size) % 2 ^ 32 ≡ a.size + b.size = omega arith in
    let at : lo + (a.size + b.size) ≡ lo + a.size + b.size = omega arith in
    elim (Bool-cases (is_free a && is_free b && vma_areas_are_neighbors a b)) [
      | inl both ↦ rw (both, size, at) (sa, omega arith, omega arith, tiled)
      | inr apart ↦ rw apart (sa, pa, wa, (sb, pb, wb, tiled))
    ]

pub vma_merge_area-IsTiled :
    (lo hi : ℕ) (l : List Area) (i : ℕ)
    → hi < 2 ^ 32
    → IsTiled lo hi l
    → IsTiled lo hi (vma_merge_area l i)
unfolding vma_merge_area
vma_merge_area-IsTiled lo hi [] i small h = h
vma_merge_area-IsTiled lo hi (a ∷ rest) zero small h = merge_neighbor-IsTiled lo hi _ small h
vma_merge_area-IsTiled lo hi (p ∷ rest) (suc zero) small (start, bytes, whole, tiled) =
    merge_neighbor-IsTiled lo hi _ small
      (start, bytes, whole, merge_neighbor-IsTiled (lo + p.size) hi rest small tiled)
vma_merge_area-IsTiled lo hi (p ∷ rest) (suc (suc i)) small (start, bytes, whole, tiled) =
    (start, bytes, whole, vma_merge_area-IsTiled (lo + p.size) hi rest (suc i) small tiled)

-- in a tiling the areas of a list touch, so two free ones are merged
neighbors-IsTiled :
    (lo hi : ℕ) (a b : Area) (rest : List Area)
    → hi < 2 ^ 32
    → IsTiled lo hi (a ∷ b ∷ rest)
    → vma_areas_are_neighbors a b ≡ true
neighbors-IsTiled lo hi a b rest small (sa, pa, wa, (sb, pb, wb, tiled)) =
    let bound = IsTiled-le _ hi rest tiled in ground arith

-- whether the first area of a list is free
abbrev pub head_free : List Area → Bool
head_free [] = false
head_free (a ∷ rest) = is_free a

head_free-merge_neighbor : (l : List Area) → head_free (merge_neighbor l) ≡ head_free l
unfolding merge_neighbor
head_free-merge_neighbor [] = refl
head_free-merge_neighbor (a ∷ []) = refl
head_free-merge_neighbor (a ∷ b ∷ rest) =
    elim (Bool-cases (is_free a && is_free b && vma_areas_are_neighbors a b)) [
      | inl both ↦ rw both refl
      | inr apart ↦ rw apart refl
    ]

pub coalesced-cons :
    (a : Area) (l : List Area) → coalesced (a ∷ l) ≡ (not (is_free a && head_free l) && coalesced l)
coalesced-cons a [] = ground arith
coalesced-cons a (b ∷ rest) = refl

all_free :
    (a b touch after rest : Bool)
    → (a && b && touch) ≡ true
    → (not (b && after) && rest) ≡ true
    → (not (a && after) && rest) ≡ true
all_free true true touch after rest h k = k
all_free true false touch after rest h k = cc
all_free false b touch after rest h k = cc

not_both :
    (a b touch rest : Bool)
    → touch ≡ true
    → (a && b && touch) ≡ false
    → rest ≡ true
    → (not (a && b) && rest) ≡ true
not_both true true touch rest h k r = cc
not_both true false touch rest h k r = r
not_both false b touch rest h k r = r

coalesced-merge_neighbor :
    (lo hi : ℕ) (a : Area) (l : List Area)
    → hi < 2 ^ 32
    → IsTiled lo hi (a ∷ l)
    → coalesced l ≡ true
    → coalesced (merge_neighbor (a ∷ l)) ≡ true
unfolding merge_neighbor
coalesced-merge_neighbor lo hi a [] small h c = refl
coalesced-merge_neighbor lo hi a (b ∷ rest) small h c =
    let touch = neighbors-IsTiled lo hi a b rest small h in
    let tail = coalesced-cons b rest in
    elim (Bool-cases (is_free a && is_free b && vma_areas_are_neighbors a b)) [
      | inl both ↦
          let x = record a { size = (a.size + b.size) % 2 ^ 32 } in
          rw (both, coalesced-cons x rest)
            (all_free (is_free a) (is_free b) _ (head_free rest) (coalesced rest) both
              (sym tail ∙ c))
      | inr apart ↦
          rw apart (not_both (is_free a) (is_free b) _ (coalesced (b ∷ rest)) touch apart c)
    ]

both_hold : (a b c : Bool) → (a && b) ≡ true → (b ≡ true → c ≡ true) → (a && c) ≡ true
both_hold true b c h k = k h
both_hold false b c h k = cc

nothing_behind :
    (lo hi : ℕ) (p : Area)
    → hi < 2 ^ 32
    → IsTiled lo hi (p ∷ [])
    → coalesced (merge_neighbor (p ∷ merge_neighbor [])) ≡ true
unfolding merge_neighbor
nothing_behind lo hi p small h = refl

head_free-vma_merge_area :
    (a : Area) (l : List Area) (i : ℕ) → head_free (vma_merge_area (a ∷ l) i) ≡ is_free a
unfolding vma_merge_area
head_free-vma_merge_area a l zero = head_free-merge_neighbor (a ∷ l)
head_free-vma_merge_area a l (suc zero) = head_free-merge_neighbor (a ∷ merge_neighbor l)
head_free-vma_merge_area a l (suc (suc i)) = refl

-- Merging an area leaves no free neighbours where its own pairs were the only ones.
pub coalesced-vma_merge_area :
    (lo hi : ℕ) (l : List Area) (i : ℕ)
    → hi < 2 ^ 32
    → IsTiled lo hi l
    → coalesced_but l i ≡ true
    → coalesced (vma_merge_area l i) ≡ true
unfolding vma_merge_area
coalesced-vma_merge_area lo hi [] i small h c = refl
coalesced-vma_merge_area lo hi (a ∷ rest) zero small h c =
    coalesced-merge_neighbor lo hi a rest small h c
coalesced-vma_merge_area lo hi (p ∷ []) (suc zero) small h c = nothing_behind lo hi p small h
coalesced-vma_merge_area lo hi (p ∷ a ∷ rest) (suc zero) small (start, bytes, whole, tiled) c =
    coalesced-merge_neighbor lo hi p (merge_neighbor (a ∷ rest)) small
      (start, bytes, whole, merge_neighbor-IsTiled (lo + p.size) hi _ small tiled)
      (coalesced-merge_neighbor (lo + p.size) hi a rest small tiled c)
coalesced-vma_merge_area lo hi (p ∷ []) (suc (suc i)) small h c = refl
coalesced-vma_merge_area lo hi (p ∷ q ∷ rest) (suc (suc i)) small (start, bytes, whole, tiled) c =
    let later = coalesced-vma_merge_area (lo + p.size) hi (q ∷ rest) (suc i) small tiled in
    rw
      (
        coalesced-cons p (vma_merge_area (q ∷ rest) (suc i)),
        head_free-vma_merge_area q rest (suc i),
      )
      (both_hold (not (is_free p && is_free q)) (coalesced_but (q ∷ rest) (suc i)) _ c later)
