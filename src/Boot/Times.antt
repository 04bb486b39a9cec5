-- ===== src/Boot/Times.antt =====
-- How many regions an address is in, and how the steps on arrays of regions change it.
use kernel_legacy.Boot.{Region, insert_back, sort_from, backwards, boot_allocator_sort_regions}
use kernel_legacy.Boot.Covers.{in_region}
use kernel_legacy.Boot.Take.{no_region, drop_last, last_region, swap_remove}
use kernel_legacy.Prelude.{
  ℕ, zero, suc, ◌+◌, ◌≤◌, ◌<◌, ◌≡◌, refl, inl, inr, Bool, true, ◌&&◌, List, [], ◌∷◌, ◌++◌, arith,
  ltb, leb, if◌then◌else◌, Bool-cases, length, get_or, set, length-set, get_or-set_self,
}

-- how many times an address is in a region
abbrev pub once : Region → ℕ → ℕ
once r a = if in_region r a then 1 else 0

-- how many of the regions an address is in
abbrev pub times : List Region → ℕ → ℕ
times [] a = 0
times (r ∷ rest) a = once r a + times rest a

times-set :
    (l : List Region) (i : ℕ) (r : Region) (a : ℕ)
    → i < length l
    → times (set l i r) a + once (get_or l i no_region) a ≡ times l a + once r a
times-set [] i r a lt = absurd (omega arith)
times-set (x ∷ l) zero r a lt = omega arith
times-set (x ∷ l) (suc i) r a lt = omega (arith, times-set l i r a (omega arith))

times-drop_last :
    (l : List Region) (a : ℕ)
    → 0 < length l
    → times (drop_last l) a + once (last_region l) a ≡ times l a
times-drop_last [] a lt = absurd (omega arith)
times-drop_last (r ∷ []) a lt = omega arith
times-drop_last (r ∷ s ∷ rest) a lt = omega (arith, times-drop_last (s ∷ rest) a (omega arith))

last_region-set : (l : List Region) (i : ℕ) → last_region (set l i (last_region l)) ≡ last_region l
last_region-set [] i = refl
last_region-set (r ∷ []) zero = refl
last_region-set (r ∷ []) (suc i) = refl
last_region-set (r ∷ s ∷ rest) zero = refl
last_region-set (r ∷ s ∷ rest) (suc zero) = last_region-set (s ∷ rest) zero
last_region-set (r ∷ s ∷ rest) (suc (suc i)) = last_region-set (s ∷ rest) (suc i)

-- The last region moves into the place of the one that goes.
pub times-swap_remove :
    (l : List Region) (i : ℕ) (a : ℕ)
    → i < length l
    → times (swap_remove l i) a + once (get_or l i no_region) a ≡ times l a
times-swap_remove l i a lt = omega (
  arith,
  times-set l i (last_region l) a lt,
  rw (last_region-set l i) at (
      times-drop_last (set l i (last_region l)) a
        (rw (length-set l i (last_region l)) (omega arith))),
)

pub once-split :
    (s m e a : ℕ)
    → s ≤ m
    → m ≤ e
    → (if leb s a && ltb a e then 1 else 0)
      ≡ (if leb s a && ltb a m then 1 else 0) + (if leb m a && ltb a e then 1 else 0)
once-split s m e a h k = ground arith

pub once-none : (r : Region) (a : ℕ) → r.end_ ≤ r.start → once r a ≡ 0
once-none r a h = ground arith

-- A region that is cut off at `at` has lost what is behind it; where nothing is left, the last region
-- may take its place.
pub times-cut :
    (gone : Bool) (l : List Region) (i at a : ℕ)
    → (gone ≡ true → at ≤ (get_or l i no_region).start)
    → i < length l
    → (get_or l i no_region).start ≤ at
    → at ≤ (get_or l i no_region).end_
    → let kept = set l i (record { start = (get_or l i no_region).start; end_ = at }) in
      times l a
      ≡ times (if gone then swap_remove kept i else kept) a
        + once (record { start = at; end_ = (get_or l i no_region).end_ }) a
times-cut gone l i at a empty lt low high =
    let r = get_or l i no_region in
    let front : Region = record { start = r.start; end_ = at } in
    let kept = set l i front in
    let moved = times-set l i front a lt in
    let split = once-split r.start at r.end_ a low high in
    elim (Bool-cases gone) [
      | inr some_ ↦ rw some_ (omega (arith, moved, split))
      | inl all ↦
          let out =
            rw (get_or-set_self l i front no_region lt) at
              (times-swap_remove kept i a (rw (length-set l i front) lt)) in
          let nothing = once-none front a (empty all) in
          rw all (omega (arith, moved, split, out, nothing))
    ]

times-insert_back :
    (c : Region) (l : List Region) (a : ℕ) → times (insert_back c l) a ≡ once c a + times l a
unfolding insert_back
times-insert_back c [] a = refl
times-insert_back c (x ∷ before) a = elim (Bool-cases (ltb c.start x.start)) [
  | inl shift ↦ rw (insert_back, shift, times-insert_back c before a) (omega arith)
  | inr stop ↦ rw (insert_back, stop) refl
]

times-sort_from :
    (before rest : List Region) (a : ℕ)
    → times (sort_from before rest) a ≡ times rest a + times before a
unfolding sort_from
times-sort_from before [] a = omega arith
times-sort_from before (c ∷ rest) a =
    omega (arith, times-sort_from (insert_back c before) rest a, times-insert_back c before a)

times-backwards :
    (l acc : List Region) (a : ℕ) → times (backwards l acc) a ≡ times l a + times acc a
times-backwards [] acc a = omega arith
times-backwards (r ∷ rest) acc a = omega (arith, times-backwards rest (r ∷ acc) a)

pub times-boot_allocator_sort_regions :
    (l : List Region) (a : ℕ) → times (boot_allocator_sort_regions l) a ≡ times l a
unfolding boot_allocator_sort_regions
times-boot_allocator_sort_regions l a =
    omega (arith, times-backwards (sort_from [] l) [] a, times-sort_from [] l a)

pub times-append_one :
    (l : List Region) (r : Region) (a : ℕ) → times (l ++ (r ∷ [])) a ≡ times l a + once r a
times-append_one [] r a = omega arith
times-append_one (x ∷ l) r a = omega (arith, times-append_one l r a)
