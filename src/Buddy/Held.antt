-- ===== src/Buddy/Held.antt =====
-- Which pages the free lists hold: how often each page is in a block of a list.
use kernel_legacy.Bits.{pow-step}
use kernel_legacy.Buddy.{
  Buddy, put_list, add_block, pop_first_block, mark_pages, put_page, set_block_metadata,
}
use kernel_legacy.Prelude.{
  ℕ, zero, suc, ◌+◌, ◌-◌, ◌%◌, ◌^◌, ◌≤◌, ◌<◌, ◌≡◌, refl, sym, inl, inr, ◌&&◌, List, [], ◌∷◌, arith,
  ltb, leb, ◌==◌, if◌then◌else◌, ==→eq, ne→==, Bool-cases, update,
}

-- whether a page is in a block
abbrev pub in_block : (order block page : ℕ) → ℕ
in_block order block page = if leb block page && ltb page (block + 2 ^ order) then 1 else 0

-- how often it is in the blocks of a list
abbrev pub in_blocks : (order : ℕ) → List ℕ → (page : ℕ) → ℕ
in_blocks order [] page = 0
in_blocks order (block ∷ rest) page = in_block order block page + in_blocks order rest page

-- the same in the lists of the orders below `n`
abbrev pub in_lists : (ℕ → List ℕ) → (n page : ℕ) → ℕ
in_lists lists zero page = 0
in_lists lists (suc n) page = in_lists lists n page + in_blocks n (lists n) page

-- how often a page is free in a zone
unfoldable pub free_at : Buddy → (zone page : ℕ) → ℕ
free_at b zone page = in_lists (b.free_list zone) 11 page

-- whether a page of a zone is in a block of another one or of the same
abbrev pub of_block : (zone order block z page : ℕ) → ℕ
of_block zone order block z page = if zone == z then in_block order block page else 0

in_lists-above :
    (lists : ℕ → List ℕ) (k : ℕ) (l : List ℕ) (n page : ℕ)
    → n ≤ k
    → in_lists (update lists k l) n page ≡ in_lists lists n page
in_lists-above lists k l zero page le = refl
in_lists-above lists k l (suc n) page le =
    rw (in_lists-above lists k l n page (omega arith), ne→== k n (omega arith)) refl

in_lists-update :
    (lists : ℕ → List ℕ) (k : ℕ) (l : List ℕ) (n page : ℕ)
    → k < n
    → in_lists (update lists k l) n page + in_blocks k (lists k) page
      ≡ in_lists lists n page + in_blocks k l page
in_lists-update lists k l zero page lt = absurd (omega arith)
in_lists-update lists k l (suc n) page lt = elim (Bool-cases (k == n)) [
  | inl same ↦
      let at : k ≡ n = ==→eq k n same in
      rw (same, in_lists-above lists k l n page (omega arith), at) (omega arith)
  | inr other ↦
      let earlier = in_lists-update lists k l n page (ground arith) in rw other (omega arith)
]

-- what is free when one list changes
free_at-put_list :
    (b : Buddy) (zone order : ℕ) (blocks : List ℕ) (count z page : ℕ)
    → order < 11
    → free_at (put_list b zone order blocks count) z page
        + (if zone == z then in_blocks order (b.free_list zone order) page else 0)
      ≡ free_at b z page + (if zone == z then in_blocks order blocks page else 0)
unfolding free_at
free_at-put_list b zone order blocks count z page lt = elim (Bool-cases (zone == z)) [
  | inl same ↦
      rw (same, sym (==→eq zone z same))
        (in_lists-update (b.free_list zone) order blocks 11 page lt)
  | inr other ↦ rw other refl
]

-- Adding a block makes its pages free once more, and no other.
pub free_at-add_block :
    (b : Buddy) (zone order block z page : ℕ)
    → order < 11
    → free_at (add_block b zone order block) z page
      ≡ free_at b z page + of_block zone order block z page
unfolding add_block
free_at-add_block b zone order block z page lt =
    let sum =
      free_at-put_list b zone order (block ∷ b.free_list zone order)
        ((b.nr_free zone order + 1) % 2 ^ 32) z page lt in
    elim (Bool-cases (zone == z)) [
      | inl same ↦ rw same (omega (arith, rw same at sum))
      | inr other ↦ rw other (omega (arith, rw other at sum))
    ]

-- Popping a block makes its pages free once less, and no other.
pub free_at-pop_first_block :
    (b : Buddy) (order zone block : ℕ) (rest : List ℕ) (z page : ℕ)
    → order < 11
    → b.free_list zone order ≡ block ∷ rest
    → free_at (pop_first_block b order zone).1 z page + of_block zone order block z page
      ≡ free_at b z page
unfolding pop_first_block
free_at-pop_first_block b order zone block rest z page lt e =
    let sum = rw e at (
      free_at-put_list b zone order rest ((b.nr_free zone order + 2 ^ 32 - 1) % 2 ^ 32) z page
        lt) in
    elim (Bool-cases (zone == z)) [
      | inl same ↦ rw (pop_first_block, e, same) (omega (arith, rw same at sum))
      | inr other ↦ rw (pop_first_block, e, other) (omega (arith, rw other at sum))
    ]

mark_pages-free_at :
    (first state i n : ℕ) (b : Buddy) (z page : ℕ)
    → free_at (mark_pages b first state i n) z page ≡ free_at b z page
unfolding mark_pages free_at
mark_pages-free_at first state i zero b z page = refl
mark_pages-free_at first state i (suc n) b z page =
    mark_pages-free_at first state (i + 1) n _ z page

-- Marking the pages of a block changes no list.
pub set_block_metadata-free_at :
    (b : Buddy) (first order state z page : ℕ)
    → free_at (set_block_metadata b first order state) z page ≡ free_at b z page
unfolding set_block_metadata free_at
set_block_metadata-free_at b first order state z page =
    mark_pages-free_at first state 0 (2 ^ order)
      (put_page b first (record (b.page first) { private_data = order })) z page

-- A block is its two halves.
pub of_block-halves :
    (zone order block z page : ℕ)
    → of_block zone (suc order) block z page
      ≡ of_block zone order block z page + of_block zone order (block + 2 ^ order) z page
of_block-halves zone order block z page = rw (pow-step order) (ground arith)
