-- ===== src/Buddy.antt =====
-- src/memory/buddy.c: the allocator of blocks of 2^order pages. A block is the number of its first
-- page, and 0 is NULL. What the array of descriptors does not hold has some descriptor.
pub mod Free
pub mod Orders
pub mod Frames
pub mod Held
pub mod Alloc
mod Tests
use Prim.Native.Nat.{bit_xor}
use kernel_legacy.Vma.{page_count}
use kernel_legacy.Prelude.{
  ℕ, zero, suc, ◌+◌, ◌-◌, ◌*◌, ◌/◌, ◌%◌, ◌^◌, ◌≤◌, ◌<◌, min, max, bit_and, bit_or, ◌≡◌, refl, sym,
  ap, ap₂, ◌∙◌, fun_ext, ◌≢◌, ◌↔◌, ◌⊎◌, inl, inr, Bool, true, false, not, ◌&&◌, ◌||◌, Option, none,
  some, List, [], ◌∷◌, ◌++◌, map, arith, ltb, leb, ◌==◌, if◌then◌else◌, ltb→lt, lt→ltb, ==→eq,
  eq→==, ne→==, Bool-cases, Option-cases, length, get_or, set, replicate, length-append, length-set,
  length-replicate, get_or-set_self, get_or-set_ne, elem, remove, elem-append, elem-remove,
  remove_of_not_elem, distinct, distinct-remove, distinct-append-one, update,
}

-- `struct page`
pub record Page : Type 0 where
  pub flags : ℕ
  pub private_data : ℕ

-- `page_descriptors`, and `buddy`: the free list and its count by zone and order
pub record Buddy : Type 0 where
  pub page : ℕ → Page
  pub free_list : ℕ → ℕ → List ℕ
  pub nr_free : ℕ → ℕ → ℕ

pub data Panic : Type 0 where
  invalid_order count_mismatch double_free bad_state bad_zone : Panic

-- a function returns, with a block or NULL, or it panics
pub data Answer : Type 0 where
  ok : ℕ → Buddy → Answer
  panic : Panic → Answer

abbrev pub max_order : ℕ
max_order = 10

abbrev pub bad_order : ℕ
bad_order = 11

abbrev pub page_magic : ℕ
page_magic = 0xDEADBEEF

abbrev pub state_available : ℕ
state_available = 2

abbrev pub state_free : ℕ
state_free = 3

abbrev pub state_allocated : ℕ
state_allocated = 4

-- `PAGE_GET_STATE`, `PAGE_SET_STATE` and `PAGE_GET_ZONE` with their masks of three bits each
abbrev pub page_state : Page → ℕ
page_state p = p.flags % 8

abbrev pub set_state : ℕ → ℕ → ℕ
set_state flags state = flags / 8 * 8 + state

abbrev pub page_zone : Page → ℕ
page_zone p = p.flags / 8 % 8 * 8

abbrev pub order_is_valid : ℕ → Bool
order_is_valid order = leb order max_order

-- the loop of `size_to_order`, over `n` orders from `order` on
unfoldable pub order_from : (total order n : ℕ) → ℕ
order_from total order zero = bad_order
order_from total order (suc n) =
    let rest = order_from total (order + 1) n in if leb total (2 ^ order) then order else rest

unfoldable pub size_to_order : ℕ → ℕ
size_to_order size = order_from (page_count size) 0 (max_order + 1)

abbrev pub put_list : Buddy → (zone order : ℕ) → List ℕ → ℕ → Buddy
put_list b zone order blocks count = record b {
  free_list = update b.free_list zone (update (b.free_list zone) order blocks);
  nr_free = update b.nr_free zone (update (b.nr_free zone) order count);
}

-- `buddy_list_add_head`, with the count
unfoldable pub add_block : Buddy → (zone order block : ℕ) → Buddy
add_block b zone order block =
    put_list b zone order (block ∷ b.free_list zone order) ((b.nr_free zone order + 1) % 2 ^ 32)

unfoldable pub pop_first_block : Buddy → (order zone : ℕ) → ℕ × Buddy
pop_first_block b order zone = elim (b.free_list zone order) [
  | [] ↦ (0, b)
  | block ∷ rest ↦
      (block, put_list b zone order rest ((b.nr_free zone order + 2 ^ 32 - 1) % 2 ^ 32))
]

abbrev pub put_page : Buddy → ℕ → Page → Buddy
put_page b f p = record b { page = update b.page f p }

-- the loop of `set_block_metadata`, over `n` pages from the i-th on
unfoldable pub mark_pages : Buddy → (first state i n : ℕ) → Buddy
mark_pages b first state i zero = b
mark_pages b first state i (suc n) =
    let p = b.page (first + i) in
    let data_ = if ltb 0 i then page_magic else p.private_data in
    mark_pages
      (put_page b (first + i) (record { flags = set_state p.flags state; private_data = data_ }))
      first state (i + 1) n

unfoldable pub set_block_metadata : Buddy → (first order state : ℕ) → Buddy
set_block_metadata b first order state =
    mark_pages (put_page b first (record (b.page first) { private_data = order })) first state 0
      (2 ^ order)

-- one call of `split_block_to_order`: the second half becomes a free block
unfoldable pub split_half : Buddy → (order block zone : ℕ) → Buddy
split_half b order block zone =
    let half = block + 2 ^ order in
    add_block (set_block_metadata b half order state_free) zone order half

-- At order 0 the order wraps below a larger one that is needed, and the next call panics.
unfoldable pub split_block_to_order : Buddy → (needed order block zone : ℕ) → Answer
split_block_to_order b needed zero block zone =
    if needed == 0 then ok block b else panic invalid_order
split_block_to_order b needed (suc order) block zone =
    let rest = split_block_to_order (split_half b order block zone) needed order block zone in
    if not (order_is_valid needed && order_is_valid (suc order))
    then panic invalid_order
    else if suc order == needed
    then ok block b
    else rest

-- the loop of `buddy_alloc_pages`, over `n` orders from `order` on
unfoldable pub filled_from : Buddy → (zone order n : ℕ) → ℕ
filled_from b zone order zero = bad_order
filled_from b zone order (suc n) =
    let rest = filled_from b zone (order + 1) n in if b.nr_free zone order == 0 then rest else order

-- what follows the split
unfoldable pub take_block : (needed : ℕ) → Answer → Answer
take_block needed (ok block b) = ok block (set_block_metadata b block needed state_allocated)
take_block needed (panic p) = panic p

-- what is done with the block that was popped
unfoldable pub split_popped : (needed order zone : ℕ) → ℕ × Buddy → Answer
split_popped needed order zone (block, b) =
    if block == 0
    then panic count_mismatch
    else take_block needed (split_block_to_order b needed order block zone)

unfoldable pub buddy_alloc_pages : Buddy → (size zone : ℕ) → Answer
buddy_alloc_pages b size zone =
    let needed = size_to_order size in
    let order = filled_from b zone needed (bad_order - needed) in
    if not (order_is_valid needed)
    then ok 0 b
    else if order == bad_order
    then ok 0 b
    else split_popped needed order zone (pop_first_block b order zone)
