-- ===== src/Boot/Merged.antt =====
-- `BOOT_ALLOCATOR_SORT_AND_MERGE` keeps the addresses, and leaves regions in ascending order of which
-- none ends where the next starts.
use kernel_legacy.Boot.{
  Region, insert_back, sort_from, backwards, boot_allocator_sort_regions, merge_from,
  boot_allocator_merge_contiguous_regions, sort_and_merge,
}
use kernel_legacy.Boot.Covers.{
  in_region, covers, Forward, Ascending, covers-boot_allocator_sort_regions,
  boot_allocator_sort_regions-Ascending, sort-again,
}
use kernel_legacy.Prelude.{
  ℕ, ◌≤◌, ◌≡◌, refl, ap, ◌∙◌, ◌≢◌, inl, inr, Bool, true, false, ◌&&◌, ◌||◌, List, [], ◌∷◌, arith,
  ltb, leb, ◌==◌, ==→eq, ==→ne, Bool-cases,
}

insert_back-Forward :
    (c : Region) (l : List Region) → c.start ≤ c.end_ → Forward l → Forward (insert_back c l)
unfolding insert_back
insert_back-Forward c [] le f = (le, tt)
insert_back-Forward c (x ∷ before) le (fx, f) = elim (Bool-cases (ltb c.start x.start)) [
  | inl shift ↦ rw (insert_back, shift) (fx, insert_back-Forward c before le f)
  | inr stop ↦ rw (insert_back, stop) (le, (fx, f))
]

sort_from-Forward :
    (before rest : List Region) → Forward before → Forward rest → Forward (sort_from before rest)
unfolding sort_from
sort_from-Forward before [] f g = f
sort_from-Forward before (c ∷ rest) f (le, g) =
    sort_from-Forward (insert_back c before) rest (insert_back-Forward c before le f) g

backwards-Forward : (l acc : List Region) → Forward l → Forward acc → Forward (backwards l acc)
backwards-Forward [] acc f g = g
backwards-Forward (r ∷ rest) acc (le, f) g = backwards-Forward rest (r ∷ acc) f (le, g)

pub boot_allocator_sort_regions-Forward :
    (l : List Region) → Forward l → Forward (boot_allocator_sort_regions l)
unfolding boot_allocator_sort_regions
boot_allocator_sort_regions-Forward l f =
    backwards-Forward (sort_from [] l) [] (sort_from-Forward [] l tt f) tt

-- one region after another
joins :
    (s m e a : ℕ) (x : Bool)
    → s ≤ m
    → m ≤ e
    → ((leb s a && ltb a e) || x) ≡ ((leb s a && ltb a m) || ((leb m a && ltb a e) || x))
joins s m e a true h k = ground arith
joins s m e a false h k = ground arith

pub covers-merge_from :
    (cur : Region) (l : List Region) (a : ℕ)
    → Forward (cur ∷ l)
    → covers (merge_from cur l) a ≡ covers (cur ∷ l) a
unfolding merge_from
covers-merge_from cur [] a f = refl
covers-merge_from cur (r ∷ rest) a (fc, (fr, f)) = elim (Bool-cases (cur.end_ == r.start)) [
  | inl touch ↦
      let at : cur.end_ ≡ r.start = ==→eq cur.end_ r.start touch in
      let merged =
        covers-merge_from (record { start = cur.start; end_ = r.end_ }) rest a (omega arith, f) in
      rw (merge_from, touch)
        (merged ∙ rw at (joins cur.start r.start r.end_ a (covers rest a) (omega arith) fr))
  | inr apart ↦
      rw (merge_from, apart) (ap (λ b. in_region cur a || b) (covers-merge_from r rest a (fr, f)))
]

-- no region ends where the next one starts
abbrev pub Separated : List Region → Type 0
Separated [] = Unit
Separated (r ∷ []) = Unit
Separated (r ∷ s ∷ rest) = (r.end_ ≢ s.start) × Separated (s ∷ rest)

abbrev StartsAt : ℕ → List Region → Type 0
StartsAt k [] = Unit
StartsAt k (r ∷ rest) = r.start ≡ k

merge_from-start : (cur : Region) (l : List Region) → StartsAt cur.start (merge_from cur l)
unfolding merge_from
merge_from-start cur [] = refl
merge_from-start cur (r ∷ rest) = elim (Bool-cases (cur.end_ == r.start)) [
  | inl touch ↦
      rw (merge_from, touch) (merge_from-start (record { start = cur.start; end_ = r.end_ }) rest)
  | inr apart ↦ rw (merge_from, apart) refl
]

merge_from-Separated :
    (cur : Region) (l : List Region)
    → Ascending (cur ∷ l)
    → Ascending (merge_from cur l) × Separated (merge_from cur l)
unfolding merge_from
merge_from-Separated cur [] s = (tt, tt)
merge_from-Separated cur (r ∷ rest) (le, s) = elim (Bool-cases (cur.end_ == r.start)) [
  | inl touch ↦
      rw (merge_from, touch)
        (merge_from-Separated (record { start = cur.start; end_ = r.end_ }) rest (skip rest s))
  | inr apart ↦
      let (order, gaps) = merge_from-Separated r rest s in
      rw (merge_from, apart)
        (front (merge_from r rest) (merge_from-start r rest) order gaps (==→ne _ _ apart))
]
  where
    skip :
        (rest : List Region)
        → Ascending (r ∷ rest)
        → Ascending ((record { start = cur.start; end_ = r.end_ }) ∷ rest)
    skip [] s = tt
    skip (x ∷ rest) (h, s) = (omega arith, s)

    front :
        (l : List Region)
        → StartsAt r.start l
        → Ascending l
        → Separated l
        → cur.end_ ≢ r.start
        → Ascending (cur ∷ l) × Separated (cur ∷ l)
    front [] at order gaps ne = (tt, tt)
    front (x ∷ l) at order gaps ne = ((rw at le, order), (rw at ne, gaps))

-- Where no region ends before it starts, sorting and merging changes no address that the regions
-- cover. It leaves regions in ascending order, none of which ends where the next one starts.
pub sort_and_merge-covers :
    (l : List Region)
    → Forward l
    → ((a : ℕ) → covers (sort_and_merge l) a ≡ covers l a)
      × Ascending (sort_and_merge l)
      × Separated (sort_and_merge l)
unfolding sort_and_merge boot_allocator_merge_contiguous_regions
sort_and_merge-covers l f =
    go (boot_allocator_sort_regions l) (boot_allocator_sort_regions-Forward l f)
      (boot_allocator_sort_regions-Ascending l) (covers-boot_allocator_sort_regions l)
  where
    go :
        (m : List Region)
        → Forward m
        → Ascending m
        → ((a : ℕ) → covers m a ≡ covers l a)
        → ((a : ℕ) → covers (boot_allocator_merge_contiguous_regions m) a ≡ covers l a)
          × Ascending (boot_allocator_merge_contiguous_regions m)
          × Separated (boot_allocator_merge_contiguous_regions m)
    go [] g s same = (same, tt, tt)
    go (cur ∷ m) g s same =
        let (order, gaps) = merge_from-Separated cur m s in
        rw (boot_allocator_merge_contiguous_regions, sort-again (cur ∷ m) s)
          (λ a. covers-merge_from cur m a g ∙ same a, order, gaps)
