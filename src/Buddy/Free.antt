-- ===== src/Buddy/Free.antt =====
-- The other half of src/memory/buddy.c: freeing blocks, and the start.
use Prim.Native.Nat.{bit_xor}
use kernel_legacy.Buddy.{
  Buddy, Answer, ok, panic, double_free, bad_state, invalid_order, bad_zone, max_order, page_magic,
  state_available, state_free, state_allocated, page_state, page_zone, order_is_valid, put_list,
  put_page, add_block, set_block_metadata,
}
use kernel_legacy.Prelude.{
  ℕ, zero, suc, ◌+◌, ◌-◌, ◌*◌, ◌/◌, ◌%◌, ◌^◌, min, Bool, not, ◌&&◌, Option, none, some, [], ◌==◌,
  if◌then◌else◌, remove,
}

abbrev pub lowmem_zone : ℕ
lowmem_zone = 0

abbrev pub dma_zone : ℕ
dma_zone = 1

abbrev pub highmem_zone : ℕ
highmem_zone = 2

abbrev pub invalid_zone : ℕ
invalid_zone = 3

unfoldable pub page_zone_flags_to_zone_type : ℕ → ℕ
page_zone_flags_to_zone_type flags =
    if flags == 0x08
    then dma_zone
    else if flags == 0x10
    then lowmem_zone
    else if flags == 0x20
    then highmem_zone
    else invalid_zone

-- `get_buddy_base`, as a page; it panics for another zone
unfoldable pub get_buddy_base : ℕ → Option ℕ
get_buddy_base zone =
    if zone == dma_zone
    then some 0
    else if zone == lowmem_zone
    then some (0x01000000 / 4096)
    else if zone == highmem_zone
    then some (0x38000000 / 4096)
    else none

-- `WHO_IS_MY_BUDDY`, in pages, where a block does not lie below its zone
abbrev pub who_is_my_buddy : (block order base : ℕ) → ℕ
who_is_my_buddy block order base = bit_xor (block - base) (2 ^ order) + base

-- whether `get_buddy_page` returns the page, else NULL
unfoldable pub is_free_block : Buddy → (f order : ℕ) → Bool
is_free_block b f order =
    (page_state (b.page f) == state_free) && ((b.page f).private_data == order)

-- `pop_node(&buddy_page->node)` with the count
unfoldable pub drop_block : Buddy → (zone order block : ℕ) → Buddy
drop_block b zone order block =
    put_list b zone order (remove block (b.free_list zone order))
      ((b.nr_free zone order + 2 ^ 32 - 1) % 2 ^ 32)

-- what follows the loop
unfoldable pub add_free : Buddy → (block order zone : ℕ) → Answer
add_free b block order zone =
    ok block (add_block (set_block_metadata b block order state_free) zone order block)

-- the loop of `buddy_free_block`, for `n` orders from `order` on, and what follows it
unfoldable pub merge_from : Buddy → (base : Option ℕ) → (block order n zone : ℕ) → Answer
merge_from b base block order zero zone = add_free b block order zone
merge_from b none block order (suc n) zone = panic bad_zone
merge_from b (some base) block order (suc n) zone =
    let other = who_is_my_buddy block order base in
    let rest =
      merge_from (drop_block b zone order other) (some base) (min block other) (order + 1) n zone in
    if is_free_block b other order then rest else add_free b block order zone

unfoldable pub buddy_free_block : Buddy → ℕ → Answer
buddy_free_block b block =
    let order = (b.page block).private_data in
    let state = page_state (b.page block) in
    let zone = page_zone_flags_to_zone_type (page_zone (b.page block)) in
    if state == state_free
    then panic double_free
    else if not (state == state_allocated) && not (state == state_available)
    then panic bad_state
    else if not (order_is_valid order)
    then panic invalid_order
    else merge_from b (get_buddy_base zone) block order (max_order - order) zone

-- the lists of `buddy_init`, all empty
abbrev pub empty_lists : Buddy → Buddy
empty_lists b = record b { free_list = λ z o. []; nr_free = λ z o. 0 }

-- the second loop of `buddy_init`, over `n` pages from the i-th on
unfoldable pub init_pages : Answer → (i n : ℕ) → Answer
init_pages a i zero = a
init_pages (panic p) i (suc n) = panic p
init_pages (ok f b) i (suc n) =
    let now = put_page b i (record (b.page i) { private_data = 0 }) in
    let next =
      if page_state (b.page i) == state_available then buddy_free_block now i else ok f b in
    init_pages next (i + 1) n

unfoldable pub buddy_init : Buddy → (total_pages : ℕ) → Answer
buddy_init b total_pages = init_pages (ok 0 (empty_lists b)) 0 total_pages

unfoldable pub buddy_get_var_size : Buddy → ℕ → ℕ
buddy_get_var_size b f =
    if (b.page f).private_data == page_magic then 0 else 2 ^ (b.page f).private_data * 4096 % 2 ^ 32
