-- ===== src/Buddy/Alloc.antt =====
-- `buddy_alloc_pages` never panics and takes exactly the pages of its block.
use kernel_legacy.Buddy.{
  Buddy, Answer, ok, bad_order, order_is_valid, state_free, state_allocated, size_to_order,
  pop_first_block, set_block_metadata, split_half, split_block_to_order, filled_from, take_block,
  split_popped, buddy_alloc_pages,
}
use kernel_legacy.Buddy.Frames.{
  IsCounted, free_frames, add_block_lem, pop_first_block_lem, SameLists,
  set_block_metadata-SameLists, set_block_metadata-order,
}
use kernel_legacy.Buddy.Held.{
  free_at, of_block, free_at-add_block, free_at-pop_first_block, set_block_metadata-free_at,
  of_block-halves,
}
use kernel_legacy.Buddy.Orders.{size_to_order-IsLeast}
use kernel_legacy.Prelude.{
  ℕ, zero, suc, ◌+◌, ◌-◌, ◌*◌, ◌/◌, ◌^◌, ◌≤◌, ◌<◌, ◌≡◌, refl, ◌∙◌, ◌≢◌, ◌⊎◌, inl, inr, true, false,
  ◌&&◌, arith, leb, ◌==◌, ==→eq, eq→==, ne→==, Bool-cases, elem,
}

split_half_lem :
    (b : Buddy) (order block zone : ℕ)
    → order < 11
    → IsCounted b
    → IsCounted (split_half b order block zone)
      × (free_frames (split_half b order block zone) zone ≡ free_frames b zone + 2 ^ order)
unfolding split_half SameLists
split_half_lem b order block zone lt v =
    let half = block + 2 ^ order in
    let (counted, same) = set_block_metadata-SameLists b half order state_free in
    let (still, sum) =
      add_block_lem (set_block_metadata b half order state_free) zone order half lt (counted v) in
    (still, sum ∙ rw (same zone) refl)

split_half-free_at :
    (b : Buddy) (order block zone z page : ℕ)
    → order < 11
    → free_at (split_half b order block zone) z page + of_block zone order block z page
      ≡ free_at b z page + of_block zone (suc order) block z page
unfolding split_half
split_half-free_at b order block zone z page lt =
    let half = block + 2 ^ order in
    let added =
      free_at-add_block (set_block_metadata b half order state_free) zone order half z page lt in
    let same = set_block_metadata-free_at b half order state_free z page in
    let sum = of_block-halves zone order block z page in omega (arith, added, same, sum)

-- Splitting a block to a smaller order returns the same block, keeps the counts and adds what is
-- split off to the free lists.
split_block_to_order_lem :
    (needed order block zone : ℕ) (b : Buddy)
    → needed ≤ order
    → order < 11
    → IsCounted b
    → (b' : Buddy) × (split_block_to_order b needed order block zone ≡ ok block b')
      × IsCounted b'
      × ((z page : ℕ)
          → free_at b' z page + of_block zone needed block z page
            ≡ free_at b z page + of_block zone order block z page)
unfolding split_block_to_order
split_block_to_order_lem needed zero block zone b le lt v =
    let none_left : needed ≡ 0 = omega arith in
    (b, rw (eq→== needed 0 none_left) refl, v, rw none_left (λ z page. refl))
split_block_to_order_lem needed (suc order) block zone b le lt v =
    let valid : (order_is_valid needed && order_is_valid (suc order)) ≡ true = ground arith in
    elim (Bool-cases (suc order == needed)) [
      | inl done ↦
          (b, rw (valid, done) refl, v, rw (==→eq (suc order) needed done) (λ z page. refl))
      | inr more ↦
          let (counted, _) = split_half_lem b order block zone (omega arith) v in
          let (b', runs, v', same) =
            split_block_to_order_lem needed order block zone (split_half b order block zone)
              (ground arith) (omega arith) counted in
          (
            b',
            rw (valid, more) runs,
            v',
            λ z page. same z page ∙ split_half-free_at b order block zone z page (omega arith),
          )
    ]

-- the loop finds the first order from `order` on whose count is not 0
filled_from_lem :
    (b : Buddy) (zone order n : ℕ)
    → order + n ≡ bad_order
    → ((filled_from b zone order n ≡ bad_order)
        × ((j : ℕ) → order ≤ j → j < bad_order → b.nr_free zone j ≡ 0))
      ⊎ ((order ≤ filled_from b zone order n)
          × (filled_from b zone order n < bad_order)
          × (b.nr_free zone (filled_from b zone order n) ≢ 0))
unfolding filled_from
filled_from_lem b zone order zero e = inl (refl, λ j ge lt. absurd (omega arith))
filled_from_lem b zone order (suc n) e = elim (Bool-cases (b.nr_free zone order == 0)) [
  | inl empty ↦ rw empty (elim (filled_from_lem b zone (order + 1) n (omega arith)) [
    | inl (bad, all) ↦ inl (
      bad,
      λ j ge lt. elim (Bool-cases (j == order)) [
        | inl same ↦ rw (==→eq j order same) (==→eq _ _ empty)
        | inr other ↦ all j (ground arith) lt
      ],
    )
    | inr (ge, lt, some_free) ↦ inr (omega arith, lt, some_free)
  ])
  | inr held ↦ rw held (inr (omega arith, omega arith, λ h. ground arith))
]

-- The result of an allocation: NULL and nothing changed, where no order whose blocks hold the size
-- counts a block; else a block that is marked with the least such order, and the free lists lose its
-- pages, each once, and no other page.
abbrev pub IsTaken : Buddy → (size zone : ℕ) → Answer → Type 0
IsTaken b size zone r =
    ((r ≡ ok 0 b) × ((j : ℕ) → size ≤ 4096 * 2 ^ j → j < bad_order → b.nr_free zone j ≡ 0))
    ⊎ ((block : ℕ) × (b' : Buddy) × (order : ℕ) × (r ≡ ok block b')
        × (block ≢ 0)
        × (size ≤ 4096 * 2 ^ order)
        × ((j : ℕ) → j < order → 4096 * 2 ^ j < size)
        × IsCounted b'
        × ((z page : ℕ) → free_at b' z page + of_block zone order block z page ≡ free_at b z page)
        × ((b'.page block).private_data ≡ order))

popped_lem :
    (b : Buddy) (needed order zone : ℕ)
    → IsCounted b
    → ((order : ℕ) → elem 0 (b.free_list zone order) ≡ false)
    → needed ≤ order
    → order < bad_order
    → b.nr_free zone order ≢ 0
    → (block : ℕ) × (b' : Buddy) × (split_popped needed order zone (pop_first_block b order zone)
        ≡ ok block b')
      × (block ≢ 0)
      × IsCounted b'
      × ((z page : ℕ) → free_at b' z page + of_block zone needed block z page ≡ free_at b z page)
      × ((b'.page block).private_data ≡ needed)
unfolding split_popped take_block SameLists
popped_lem b needed order zone v no_null le lt some_free =
    let (block, rest, b1, held, popped, v1, _) = pop_first_block_lem b order zone lt v some_free in
    let (b2, runs, v2, split) = split_block_to_order_lem needed order block zone b1 le lt v1 in
    let (counted, _) = set_block_metadata-SameLists b2 block needed state_allocated in
    let block_lem : block ≢ 0 = λ z. cc (rw (held, z) at (no_null order)) in
    (
      block,
      set_block_metadata b2 block needed state_allocated,
      rw (popped, ne→== block 0 block_lem, runs) refl,
      block_lem,
      counted v2,
      λ z page.
          let same = set_block_metadata-free_at b2 block needed state_allocated z page in
          let less =
            rw popped at (free_at-pop_first_block b order zone block rest z page lt held) in
          omega (arith, same, less, split z page),
      set_block_metadata-order b2 block needed state_allocated,
    )

-- no order whose blocks hold a size comes before the least one
holds-least :
    (size order j : ℕ)
    → ((j : ℕ) → 0 ≤ j → j < order → 2 ^ j < (size + 4095) / 4096)
    → size ≤ 4096 * 2 ^ j
    → order ≤ j
holds-least size order j below fits = elim (Bool-cases (leb order j)) [
  | inl le ↦ ground (arith, le)
  | inr gt ↦
      let less : j < order = ground (arith, gt) in
      absurd (omega (arith, below j (omega arith) less, fits))
]

-- Where every count is the length of its list, page 0 is in none, and the size is small enough that its
-- rounding up to whole pages does not wrap in 32 bits, `buddy_alloc_pages` never panics and keeps the
-- counts. It returns NULL and changes nothing where no order whose blocks hold the size counts a free
-- block. Else it returns a block of the least order whose blocks hold the size; the free lists of the
-- zone hold each page of that block once less than before, and no list holds any other page more or
-- less often.
pub buddy_alloc_pages-IsTaken :
    (b : Buddy) (size zone : ℕ)
    → IsCounted b
    → ((order : ℕ) → elem 0 (b.free_list zone order) ≡ false)
    → size ≤ 0xFFFFF000
    → IsTaken b size zone (buddy_alloc_pages b size zone)
unfolding buddy_alloc_pages
buddy_alloc_pages-IsTaken b size zone v no_null small =
    let needed = size_to_order size in
    let (ends, below) = size_to_order-IsLeast size small in
    let least = λ (j : ℕ) (fits : size ≤ 4096 * 2 ^ j). holds-least size needed j below fits in
    elim (Bool-cases (order_is_valid needed)) [
      | inr large ↦
          rw (buddy_alloc_pages, large)
            (inl (refl, λ j fits lt. absurd (ground (arith, least j fits, large))))
      | inl valid ↦ elim (filled_from_lem b zone needed (bad_order - needed) (ground arith)) [
        | inl (bad, all) ↦
            rw (buddy_alloc_pages, valid, bad) (inl (refl, λ j fits lt. all j (least j fits) lt))
        | inr (ge, lt, some_free) ↦
            let order = filled_from b zone needed (bad_order - needed) in
            let order_lem : order ≢ bad_order = omega (arith, lt) in
            let (block, b', runs, some_, counted, pages, marked) =
              popped_lem b needed _ zone v no_null ge lt some_free in
            let holds : size ≤ 4096 * 2 ^ needed = elim ends [
              | inl (_, fits) ↦ omega (arith, fits)
              | inr bad ↦ absurd (ground (arith, valid, bad))
            ] in
            rw (buddy_alloc_pages, valid, ne→== order bad_order order_lem)
              (inr (
                block,
                b',
                needed,
                runs,
                some_,
                holds,
                λ j less. let smaller = below j (omega arith) less in omega (arith, smaller),
                counted,
                pages,
                marked,
              ))
      ]
    ]
