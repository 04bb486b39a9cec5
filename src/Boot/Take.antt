-- ===== src/Boot/Take.antt =====
-- `boot_alloc`, `boot_alloc_at` and `boot_allocator_add_to_zones`. The zones are numbered as in
-- `enum zone_type`; a panic is `none`.
use kernel_legacy.Boot.{Region, max_regions, boot_allocator_sort_regions, sort_and_merge}
use kernel_legacy.Boot.Gaps.{boot_alloc_get_addr_zone}
use kernel_legacy.Prelude.{
  ℕ, zero, suc, ◌+◌, ◌-◌, ◌%◌, bit_and, Bool, not, ◌&&◌, ◌||◌, Option, none, some, List, [], ◌∷◌,
  ◌++◌, ltb, leb, ◌==◌, if◌then◌else◌, length, get_or, set, update,
}

pub record Entry : Type 0 where
  pub p_addr : ℕ
  pub size : ℕ
  pub free : Bool

pub record Bootmem : Type 0 where
  pub frozen : Bool
  pub free_zones : ℕ → List Region
  pub res_zones : ℕ → List Region
  pub allocations : List Entry

-- subtraction of 32-bit words
abbrev pub sub32 : ℕ → ℕ → ℕ
sub32 x y = (x + 4294967296 - y) % 4294967296

-- addition of 32-bit words
abbrev pub add32 : ℕ → ℕ → ℕ
add32 x y = (x + y) % 4294967296

abbrev pub no_region : Region
no_region = record { start = 0; end_ = 0 }

abbrev pub drop_last : List Region → List Region
drop_last [] = []
drop_last (r ∷ []) = []
drop_last (r ∷ s ∷ rest) = r ∷ drop_last (s ∷ rest)

abbrev pub last_region : List Region → Region
last_region [] = no_region
last_region (r ∷ []) = r
last_region (r ∷ s ∷ rest) = last_region (s ∷ rest)

-- `*reg = free_zones[zone][--free_count[zone]]`
abbrev pub swap_remove : List Region → ℕ → List Region
swap_remove l i = drop_last (set l i (last_region l))

unfoldable pub boot_allocator_add_to_zones :
    (ℕ → List Region) → (size start : ℕ) → Option (ℕ → List Region)
boot_allocator_add_to_zones zones size start =
    let zone = boot_alloc_get_addr_zone start in
    let r : Region = record { start = start; end_ = add32 start size } in
    if leb max_regions (length (zones zone))
    then none
    else some (update zones zone (sort_and_merge (zones zone ++ (r ∷ []))))

-- the loop of `boot_alloc`: the last of the first `n` regions that has room
unfoldable pub find_room : (n : ℕ) → List Region → (size : ℕ) → Option ℕ
find_room zero l size = none
find_room (suc i) l size =
    let r = get_or l i no_region in
    let before = find_room i l size in
    if leb size (sub32 r.end_ r.start) && not (ltb (sub32 r.end_ size) r.start)
    then some i
    else before

-- the region keeps what is in front of the block
abbrev pub keep_front : List Region → (i at : ℕ) → List Region
keep_front l i at =
    let r = get_or l i no_region in
    let kept = set l i (record { start = r.start; end_ = at }) in
    if leb at r.start then swap_remove kept i else kept

-- in `boot_alloc` it is taken out only where nothing is left
abbrev pub keep_rest : List Region → (i at : ℕ) → List Region
keep_rest l i at =
    let r = get_or l i no_region in
    let kept = set l i (record { start = r.start; end_ = at }) in
    if r.start == at then swap_remove kept i else kept

-- what both functions note of a block
abbrev pub log_block :
    Bootmem → (ℕ → List Region) → (ℕ → List Region) → (at size : ℕ) → Bool → Bootmem
log_block b free res at size freeable = record {
  frozen = b.frozen;
  free_zones = free;
  res_zones = res;
  allocations = b.allocations ++ ((record { p_addr = at; size = size; free = freeable }) ∷ []);
}

-- the block and the state behind the call; no block is `NULL`
unfoldable pub boot_alloc :
    (size zone : ℕ) → (freeable : Bool) → Bootmem → Option (Option ℕ × Bootmem)
boot_alloc size zone freeable b =
    if b.frozen
    then some (none, b)
    else (let l = b.free_zones zone in
        elim (find_room (length l) l size) [
          | none ↦ some (none, b)
          | some i ↦
              let at = sub32 (get_or l i no_region).end_ size in
              elim (boot_allocator_add_to_zones b.res_zones size at) [
                | none ↦ none
                | some res ↦ some (
                  some at,
                  log_block b (update b.free_zones zone (keep_rest l i at)) res at size freeable,
                )
              ]
        ])

-- `ALIGN`
abbrev pub align_up : ℕ → ℕ → ℕ
align_up addr align = bit_and (add32 addr (sub32 align 1)) (4294967295 - sub32 align 1)

-- `align` -1, which is `none`, leaves the address
abbrev pub aligned : Option ℕ → ℕ → ℕ
aligned none addr = addr
aligned (some align) addr = align_up addr align

-- where a block in a region starts, if it has room between `start` and `end_`
unfoldable pub fit_in : Region → (size start end_ : ℕ) → (align : Option ℕ) → Option ℕ
fit_in r size start end_ align =
    let low = if leb start r.start then r.start else start in
    let limit = if ltb r.end_ end_ then r.end_ else end_ in
    let at = aligned align low in
    if leb end_ r.start || leb r.end_ start
    then none
    else if leb (add32 at size) limit
    then some at
    else none

-- the loop of `boot_alloc_at`: the first region that fits, counted from `i`, and the start
unfoldable pub find_fit : (i : ℕ) → List Region → (size start end_ : ℕ) → Option ℕ → Option (ℕ × ℕ)
find_fit i [] size start end_ align = none
find_fit i (r ∷ rest) size start end_ align = elim (fit_in r size start end_ align) [
  | some at ↦ some (i, at)
  | none ↦ find_fit (suc i) rest size start end_ align
]

-- what is behind the block becomes a region of its own
unfoldable pub split_behind : List Region → (i at size : ℕ) → Option (List Region)
split_behind l i at size =
    let r = get_or l i no_region in
    if ltb (add32 at size) r.end_
    then (if leb max_regions (length l)
        then none
        else some (l ++ ((record { start = add32 at size; end_ = r.end_ }) ∷ [])))
    else some l

unfoldable pub boot_alloc_at :
    (size zone : ℕ)
    → (freeable : Bool) → (start end_ : ℕ) → (align : Option ℕ) → Bootmem
    → Option (Option ℕ × Bootmem)
boot_alloc_at size zone freeable start end_ align b =
    if b.frozen || size == 0 || ltb end_ (add32 start size)
    then some (none, b)
    else (let l = b.free_zones zone in
        elim (find_fit 0 l size start end_ align) [
          | none ↦ some (none, b)
          | some (i, at) ↦ elim (boot_allocator_add_to_zones b.res_zones size at) [
            | none ↦ none
            | some res ↦ elim (split_behind l i at size) [
              | none ↦ none
              | some more ↦
                  let sorted = boot_allocator_sort_regions (keep_front more i at) in
                  some (some at, log_block b (update b.free_zones zone sorted) res at size freeable)
            ]
          ]
        ])
