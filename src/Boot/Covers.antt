-- ===== src/Boot/Covers.antt =====
-- Sorting and merging regions changes no address.
use kernel_legacy.Boot.{Region, insert_back, sort_from, backwards, boot_allocator_sort_regions}
use kernel_legacy.Prelude.{
  ℕ, ◌≤◌, ◌≡◌, refl, ◌∙◌, inl, inr, Bool, true, false, ◌&&◌, ◌||◌, List, [], ◌∷◌, ◌++◌, arith, ltb,
  leb, Bool-cases,
}

abbrev pub in_region : Region → ℕ → Bool
in_region r a = leb r.start a && ltb a r.end_

-- whether an address lies in one of the regions
abbrev pub covers : List Region → ℕ → Bool
covers [] a = false
covers (r ∷ rest) a = in_region r a || covers rest a

pub covers-append_one :
    (l : List Region) (r : Region) (a : ℕ)
    → covers (l ++ (r ∷ [])) a ≡ (covers l a || in_region r a)
covers-append_one [] r a = ground arith
covers-append_one (x ∷ l) r a = ground (arith, covers-append_one l r a)

-- no region ends before it starts
abbrev pub Forward : List Region → Type 0
Forward [] = Unit
Forward (r ∷ rest) = (r.start ≤ r.end_) × Forward rest

-- the regions start in ascending order
abbrev pub Ascending : List Region → Type 0
Ascending [] = Unit
Ascending (r ∷ []) = Unit
Ascending (r ∷ s ∷ rest) = (r.start ≤ s.start) × Ascending (s ∷ rest)

-- in descending order, as the sorted part of the array is kept
abbrev Descending : List Region → Type 0
Descending [] = Unit
Descending (r ∷ []) = Unit
Descending (r ∷ s ∷ rest) = (s.start ≤ r.start) × Descending (s ∷ rest)

-- whether a region starts no later than the first of a list
abbrev leb_head : Region → List Region → Bool
leb_head r [] = true
leb_head r (x ∷ rest) = leb r.start x.start

-- whether the first of a list kept backwards starts no later than the first of another
abbrev meets : List Region → List Region → Bool
meets [] acc = true
meets (r ∷ rest) acc = leb_head r acc

or-swap : (x y z : Bool) → (x || (y || z)) ≡ (y || (x || z))
or-swap true true z = refl
or-swap true false z = refl
or-swap false y z = refl

covers-insert_back :
    (c : Region) (l : List Region) (a : ℕ)
    → covers (insert_back c l) a ≡ (in_region c a || covers l a)
unfolding insert_back
covers-insert_back c [] a = refl
covers-insert_back c (x ∷ before) a = elim (Bool-cases (ltb c.start x.start)) [
  | inl shift ↦
      rw (insert_back, shift, covers-insert_back c before a)
        (or-swap (in_region x a) (in_region c a) (covers before a))
  | inr stop ↦ rw (insert_back, stop) refl
]

covers-backwards :
    (l acc : List Region) (a : ℕ) → covers (backwards l acc) a ≡ (covers l a || covers acc a)
covers-backwards [] acc a = refl
covers-backwards (r ∷ rest) acc a =
    covers-backwards rest (r ∷ acc) a ∙ or-move (covers rest a) (in_region r a) (covers acc a)
  where
    or-move : (x y z : Bool) → (x || (y || z)) ≡ ((y || x) || z)
    or-move true true z = refl
    or-move true false z = refl
    or-move false true z = refl
    or-move false false z = refl

covers-sort_from :
    (before rest : List Region) (a : ℕ)
    → covers (sort_from before rest) a ≡ (covers rest a || covers before a)
unfolding sort_from
covers-sort_from before [] a = refl
covers-sort_from before (c ∷ rest) a =
    covers-sort_from (insert_back c before) rest a
    ∙ rw (covers-insert_back c before a)
        (or-assoc (covers rest a) (in_region c a) (covers before a))
  where
    or-assoc : (x y z : Bool) → (x || (y || z)) ≡ ((y || x) || z)
    or-assoc true true z = refl
    or-assoc true false z = refl
    or-assoc false true z = refl
    or-assoc false false z = refl

pub covers-boot_allocator_sort_regions :
    (l : List Region) (a : ℕ) → covers (boot_allocator_sort_regions l) a ≡ covers l a
unfolding boot_allocator_sort_regions
covers-boot_allocator_sort_regions l a =
    covers-backwards (sort_from [] l) [] a
    ∙ or-false (covers (sort_from [] l) a)
    ∙ covers-sort_from [] l a
    ∙ or-false (covers l a)
  where
    or-false : (x : Bool) → (x || false) ≡ x
    or-false true = refl
    or-false false = refl

insert_back-Descending :
    (c : Region) (l : List Region) → Descending l → Descending (insert_back c l)
unfolding insert_back
insert_back-Descending c [] d = tt
insert_back-Descending c (x ∷ before) d = elim (Bool-cases (ltb c.start x.start)) [
  | inl shift ↦ rw (insert_back, shift) (behind x before (ground arith) d)
  | inr stop ↦ rw (insert_back, stop) (ground arith, d)
]
  where
    behind :
        (x : Region) (before : List Region)
        → c.start ≤ x.start
        → Descending (x ∷ before)
        → Descending (x ∷ insert_back c before)
    behind x [] le d = (le, tt)
    behind x (y ∷ before) le (d, rest) = elim (Bool-cases (ltb c.start y.start)) [
      | inl shift ↦ rw shift (d, behind y before (ground arith) rest)
      | inr stop ↦ rw stop (le, (ground arith, rest))
    ]

backwards-Ascending :
    (l acc : List Region)
    → Descending l
    → Ascending acc
    → meets l acc ≡ true
    → Ascending (backwards l acc)
backwards-Ascending [] acc d s e = s
backwards-Ascending (r ∷ []) [] d s e = tt
backwards-Ascending (r ∷ []) (x ∷ acc) d s e = (ground arith, s)
backwards-Ascending (r ∷ q ∷ rest) [] (le, d) s e =
    backwards-Ascending (q ∷ rest) (r ∷ []) d tt (ground arith)
backwards-Ascending (r ∷ q ∷ rest) (x ∷ acc) (le, d) s e =
    backwards-Ascending (q ∷ rest) (r ∷ x ∷ acc) d (ground arith, s) (ground arith)

sort_from-Descending :
    (before rest : List Region) → Descending before → Descending (sort_from before rest)
unfolding sort_from
sort_from-Descending before [] d = d
sort_from-Descending before (c ∷ rest) d =
    sort_from-Descending (insert_back c before) rest (insert_back-Descending c before d)

pub boot_allocator_sort_regions-Ascending :
    (l : List Region) → Ascending (boot_allocator_sort_regions l)
unfolding boot_allocator_sort_regions
boot_allocator_sort_regions-Ascending l =
    backwards-Ascending (sort_from [] l) [] (sort_from-Descending [] l tt) tt
      (meets-nil (sort_from [] l))
  where
    meets-nil : (l : List Region) → meets l [] ≡ true
    meets-nil [] = refl
    meets-nil (r ∷ rest) = refl

-- Sorting an ascending list changes nothing, so the second sort of `sort_and_merge` does not either.
sorted-again :
    (before rest : List Region)
    → Ascending rest
    → meets before rest ≡ true
    → backwards (sort_from before rest) [] ≡ backwards before rest
unfolding sort_from insert_back
sorted-again before [] s e = refl
sorted-again before (c ∷ rest) s e =
    rw (stays before e) (sorted-again (c ∷ before) rest (tail rest s) (link rest s))
  where
    stop : (x : Region) → leb x.start c.start ≡ true → ltb c.start x.start ≡ false
    stop x h = ground arith

    stays : (b : List Region) → meets b (c ∷ rest) ≡ true → insert_back c b ≡ c ∷ b
    stays [] h = refl
    stays (x ∷ b) h = rw (insert_back, stop x h) refl

    tail : (rest : List Region) → Ascending (c ∷ rest) → Ascending rest
    tail [] s = tt
    tail (x ∷ rest) s = s.1

    link : (rest : List Region) → Ascending (c ∷ rest) → leb_head c rest ≡ true
    link [] s = refl
    link (x ∷ rest) s = ground (arith, s.0)

pub sort-again : (l : List Region) → Ascending l → boot_allocator_sort_regions l ≡ l
unfolding boot_allocator_sort_regions
sort-again l s = sorted-again [] l s refl
