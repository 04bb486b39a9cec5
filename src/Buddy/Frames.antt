-- ===== src/Buddy/Frames.antt =====
-- The free lists: their counts, and the pages that they hold.
use kernel_legacy.Buddy.{
  Buddy, put_list, add_block, pop_first_block, put_page, mark_pages, set_block_metadata,
}
use kernel_legacy.Prelude.{
  ℕ, zero, suc, ◌+◌, ◌-◌, ◌*◌, ◌%◌, ◌^◌, ◌≤◌, ◌<◌, ◌≡◌, refl, ◌∙◌, ◌≢◌, inl, inr, false, List, [],
  ◌∷◌, arith, ltb, ◌==◌, ==→eq, eq→==, ne→==, Bool-cases, length, update,
}

-- every count is the length of its list, in 32 bits
abbrev pub IsCounted : Buddy → Type 0
IsCounted b = (z o : ℕ) → b.nr_free z o ≡ length (b.free_list z o) % 2 ^ 32

-- the pages in the blocks of the lists of the orders below `n`
abbrev pub frames : (ℕ → List ℕ) → ℕ → ℕ
frames lists zero = 0
frames lists (suc n) = frames lists n + 2 ^ n * length (lists n)

-- the pages in the free blocks of a zone
unfoldable pub free_frames : Buddy → ℕ → ℕ
free_frames b zone = frames (b.free_list zone) 11

put_list-IsCounted :
    (b : Buddy) (zone order : ℕ) (blocks : List ℕ) (count : ℕ)
    → IsCounted b
    → count ≡ length blocks % 2 ^ 32
    → IsCounted (put_list b zone order blocks count)
put_list-IsCounted b zone order blocks count v e z o = elim (Bool-cases (zone == z)) [
  | inl same ↦ elim (Bool-cases (order == o)) [
    | inl hit ↦ rw (same, hit) e
    | inr miss ↦ rw (same, miss) (rw (==→eq zone z same) (v z o))
  ]
  | inr other ↦ rw other (v z o)
]

frames-above :
    (lists : ℕ → List ℕ) (k : ℕ) (l : List ℕ) (n : ℕ)
    → n ≤ k
    → frames (update lists k l) n ≡ frames lists n
frames-above lists k l zero le = refl
frames-above lists k l (suc n) le =
    rw (frames-above lists k l n (omega arith), ne→== k n (omega arith)) refl

frames-update :
    (lists : ℕ → List ℕ) (k : ℕ) (l : List ℕ) (n : ℕ)
    → k < n
    → frames (update lists k l) n + 2 ^ k * length (lists k) ≡ frames lists n + 2 ^ k * length l
frames-update lists k l zero lt = absurd (omega arith)
frames-update lists k l (suc n) lt = elim (Bool-cases (k == n)) [
  | inl same ↦
      let at : k ≡ n = ==→eq k n same in
      rw (same, frames-above lists k l n (omega arith), at) (omega arith)
  | inr other ↦ let earlier = frames-update lists k l n (ground arith) in rw other (omega arith)
]

one_more : (f' f p l : ℕ) → f' + p * l ≡ f + p * suc l → f' ≡ f + p
one_more f' f p l e = omega arith

one_less : (f' f p l : ℕ) → f' + p * suc l ≡ f + p * l → f' + p ≡ f
one_less f' f p l e = omega arith

-- the pages of the free blocks when one list changes
pub free_frames-put_list :
    (b : Buddy) (zone order : ℕ) (blocks : List ℕ) (count : ℕ)
    → order < 11
    → free_frames (put_list b zone order blocks count) zone
        + 2 ^ order * length (b.free_list zone order)
      ≡ free_frames b zone + 2 ^ order * length blocks
unfolding free_frames
free_frames-put_list b zone order blocks count lt =
    rw (eq→== zone zone refl) (frames-update (b.free_list zone) order blocks 11 lt)

-- Adding a block to a list keeps the counts and adds its pages.
pub add_block_lem :
    (b : Buddy) (zone order block : ℕ)
    → order < 11
    → IsCounted b
    → IsCounted (add_block b zone order block)
      × (free_frames (add_block b zone order block) zone ≡ free_frames b zone + 2 ^ order)
unfolding add_block
add_block_lem b zone order block lt v =
    let count = v zone order in
    let sum =
      free_frames-put_list b zone order (block ∷ b.free_list zone order)
        ((b.nr_free zone order + 1) % 2 ^ 32) lt in
    (put_list-IsCounted b zone order _ _ v (omega arith), one_more _ _ _ _ sum)

-- Popping from a list that has blocks returns the first, keeps the counts and takes its pages away.
pub pop_first_block_lem :
    (b : Buddy) (order zone : ℕ)
    → order < 11
    → IsCounted b
    → b.nr_free zone order ≢ 0
    → (block : ℕ) × (rest : List ℕ) × (b' : Buddy) × (b.free_list zone order ≡ block ∷ rest)
      × (pop_first_block b order zone ≡ (block, b'))
      × IsCounted b'
      × (free_frames b' zone + 2 ^ order ≡ free_frames b zone)
unfolding pop_first_block
pop_first_block_lem b order zone lt v some_free = go (b.free_list zone order) refl
  where
    go :
        (l : List ℕ)
        → b.free_list zone order ≡ l
        → (block : ℕ) × (rest : List ℕ) × (b' : Buddy) × (b.free_list zone order ≡ block ∷ rest)
          × (pop_first_block b order zone ≡ (block, b'))
          × IsCounted b'
          × (free_frames b' zone + 2 ^ order ≡ free_frames b zone)
    go [] e = absurd (some_free (rw (v zone order, e) refl))
    go (block ∷ rest) e =
        let count = (b.nr_free zone order + 2 ^ 32 - 1) % 2 ^ 32 in
        let held = rw e at (v zone order) in
        let sum = rw e at (free_frames-put_list b zone order rest count lt) in
        (
          block,
          rest,
          put_list b zone order rest count,
          e,
          rw (pop_first_block, e) refl,
          put_list-IsCounted b zone order rest count v (omega arith),
          one_less _ _ _ _ sum,
        )

-- what the marking of pages leaves alone
unfoldable pub SameLists : Buddy → Buddy → Type 0
SameLists b b' =
    (IsCounted b → IsCounted b') × ((zone : ℕ) → free_frames b' zone ≡ free_frames b zone)

mark_pages-SameLists :
    (first state i n : ℕ) (b : Buddy) → SameLists b (mark_pages b first state i n)
unfolding mark_pages SameLists free_frames
mark_pages-SameLists first state i zero b = (λ v. v, λ zone. refl)
mark_pages-SameLists first state i (suc n) b = mark_pages-SameLists first state (i + 1) n _

pub set_block_metadata-SameLists :
    (b : Buddy) (first order state : ℕ) → SameLists b (set_block_metadata b first order state)
unfolding set_block_metadata SameLists free_frames
set_block_metadata-SameLists b first order state =
    mark_pages-SameLists first state 0 (2 ^ order)
      (put_page b first (record (b.page first) { private_data = order }))

mark_pages-first :
    (first state i n : ℕ) (b : Buddy)
    → ((mark_pages b first state i n).page first).private_data ≡ (b.page first).private_data
unfolding mark_pages
mark_pages-first first state i zero b = refl
mark_pages-first first state i (suc n) b =
    mark_pages-first first state (i + 1) n _ ∙ elim (Bool-cases (first + i == first)) [
      | inl same ↦
          let at : first + i ≡ first = ==→eq _ _ same in
          let start : ltb 0 i ≡ false = ground (arith, at) in rw (same, start, at) refl
      | inr other ↦ rw other refl
    ]

-- The first page of a marked block holds its order.
pub set_block_metadata-order :
    (b : Buddy) (first order state : ℕ)
    → ((set_block_metadata b first order state).page first).private_data ≡ order
unfolding set_block_metadata
set_block_metadata-order b first order state =
    mark_pages-first first state 0 (2 ^ order) _ ∙ rw (eq→== first first refl) refl
