-- ===== src/Boot/At.antt =====
-- `boot_alloc_at` takes its block out of the free regions once, and reserves it.
use kernel_legacy.Boot.{Region, max_regions, boot_allocator_sort_regions}
use kernel_legacy.Boot.Covers.{in_region, covers, Forward}
use kernel_legacy.Boot.Gaps.{highmem_end, boot_alloc_get_addr_zone}
use kernel_legacy.Boot.Zones.{Below}
use kernel_legacy.Boot.Take.{
  Bootmem, add32, no_region, boot_allocator_add_to_zones, keep_front, log_block, aligned, fit_in,
  find_fit, split_behind, boot_alloc_at,
}
use kernel_legacy.Boot.Kept.{block, get_or-Forward, some-pair, add_to_zones-covers}
use kernel_legacy.Boot.Times.{
  once, times, once-split, times-cut, times-boot_allocator_sort_regions, times-append_one,
}
use kernel_legacy.Prelude.{
  ℕ, zero, suc, ◌+◌, ◌≤◌, ◌<◌, ◌≡◌, refl, sym, ap, ◌∙◌, inl, inr, Bool, ◌||◌, Option, some, List,
  [], ◌∷◌, ◌++◌, arith, ltb, leb, ◌==◌, if◌then◌else◌, eq→==, Bool-cases, Option-cases, length,
  get_or, length-append, update,
}

get_or-append :
    (l m : List Region) (i : ℕ) → i < length l → get_or (l ++ m) i no_region ≡ get_or l i no_region
get_or-append [] m i lt = absurd (omega arith)
get_or-append (x ∷ l) m zero lt = refl
get_or-append (x ∷ l) m (suc i) lt = get_or-append l m i (omega arith)

times-keep_front :
    (l : List Region) (i at a : ℕ)
    → i < length l
    → (get_or l i no_region).start ≤ at
    → at ≤ (get_or l i no_region).end_
    → times l a
      ≡ times (keep_front l i at) a
        + once (record { start = at; end_ = (get_or l i no_region).end_ }) a
times-keep_front l i at a =
    times-cut (leb at (get_or l i no_region).start) l i at a (λ e. ground arith)

-- where the block ends in the region, the region is cut there, and the block taken out of it
times-split_behind :
    (l more : List Region) (i at size a : ℕ)
    → i < length l
    → (get_or l i no_region).start ≤ at
    → at + size ≤ (get_or l i no_region).end_
    → (get_or l i no_region).end_ ≤ highmem_end
    → split_behind l i at size ≡ some more
    → times l a ≡ times (keep_front more i at) a + once (block at size) a
unfolding split_behind
times-split_behind l more i at size a lt low high top e =
    let r = get_or l i no_region in
    let sum : add32 at size ≡ at + size = omega arith in
    let split = once-split at (at + size) r.end_ a (omega arith) high in
    elim (Bool-cases (ltb (at + size) r.end_)) [
      | inr all ↦
          let same : l ≡ more = cc (rw (sum, all) at e) in
          let whole : r.end_ ≡ at + size = ground arith in
          rw (← same) (rw whole at (times-keep_front l i at a lt low (omega arith)))
      | inl part ↦ elim (Bool-cases (leb max_regions (length l))) [
        | inl full ↦ absurd (cc (rw (sum, part, full) at e))
        | inr room ↦
            let tail : Region = record { start = at + size; end_ = r.end_ } in
            let same : (l ++ (tail ∷ [])) ≡ more = cc (rw (sum, part, room) at e) in
            let there = get_or-append l (tail ∷ []) i lt in
            let cut =
              times-keep_front (l ++ (tail ∷ [])) i at a
                (rw (length-append l (tail ∷ [])) (omega arith)) (rw there low)
                (rw there (omega arith)) in
            let behind = ap (λ (q : Region). once (record { start = at; end_ = q.end_ }) a) there in
            rw (← same) (omega (arith, split, times-append_one l tail a, cut, behind))
      ]
    ]

find_fit-fits :
    (k : ℕ) (l : List Region) (size start end_ : ℕ) (align : Option ℕ) (i at : ℕ)
    → find_fit k l size start end_ align ≡ some (i, at)
    → (j : ℕ) × (i ≡ k + j)
      × (j < length l)
      × (fit_in (get_or l j no_region) size start end_ align ≡ some at)
unfolding find_fit
find_fit-fits k [] size start end_ align i at e = absurd (cc e)
find_fit-fits k (r ∷ rest) size start end_ align i at e =
    elim (Option-cases (fit_in r size start end_ align)) [
      | inr (at', fits) ↦
          let (same, same') = some-pair k i at' at (rw (find_fit, fits) at e) in
          (0, sym same ∙ omega arith, omega arith, fits ∙ ap some same')
      | inl none_ ↦
          let (j, same, lt, fits) =
            find_fit-fits (suc k) rest size start end_ align i at (rw (find_fit, none_) at e) in
          (suc j, same ∙ omega arith, omega arith, fits)
    ]

-- an alignment that lowers no address in front of `end_`, with room behind it for the block
abbrev pub Aligns : Option ℕ → (size end_ : ℕ) → Type 0
Aligns align size end_ =
    (x : ℕ) → x < end_ → (x ≤ aligned align x) × (aligned align x + size ≤ highmem_end)

fit_in-bounds :
    (r : Region) (size start end_ : ℕ) (align : Option ℕ) (at : ℕ)
    → Aligns align size end_
    → start < end_
    → fit_in r size start end_ align ≡ some at
    → (r.start ≤ at) × (start ≤ at) × (at + size ≤ r.end_) × (at + size ≤ end_)
unfolding fit_in
fit_in-bounds r size start end_ align at aligns some_ e =
    let low = if leb start r.start then r.start else start in
    let limit = if ltb r.end_ end_ then r.end_ else end_ in
    elim (Bool-cases (leb end_ r.start || leb r.end_ start)) [
      | inl apart ↦ absurd (cc (rw apart at e))
      | inr touch ↦ elim (Bool-cases (leb (add32 (aligned align low) size) limit)) [
        | inr over ↦ absurd (cc (rw (touch, over) at e))
        | inl fits ↦
            let same : aligned align low ≡ at = cc (rw (touch, fits) at e) in
            let before : low < end_ = ground arith in
            let (ge, room) = rw same at (aligns low before) in
            let sum : add32 at size ≡ at + size = omega arith in
            let inside = rw (same, sum) at fits in
            let ge_reg : r.start ≤ low = ground arith in
            let ge_start : start ≤ low = ground arith in
            let le_limit : at + size ≤ limit = ground arith in
            let lim_reg : limit ≤ r.end_ = ground arith in
            let lim_end : limit ≤ end_ = ground arith in
            (omega arith, omega arith, omega arith, omega arith)
      ]
    ]

-- Where no free region ends before it starts or behind the highest address, the alignment lowers no
-- address, and the range does not wrap, a block that `boot_alloc_at` returns lies in the range and has
-- been free: each of its addresses is in one free region less of its zone than before, every other
-- address in as many as before. The reserved regions of the zone of the block cover the block beside
-- what they covered.
pub boot_alloc_at-takes :
    (size zone : ℕ) (freeable : Bool) (start end_ : ℕ) (align : Option ℕ) (b after : Bootmem)
    (at : ℕ)
    → Forward (b.free_zones zone)
    → Below (b.free_zones zone)
    → Forward (b.res_zones (boot_alloc_get_addr_zone at))
    → Aligns align size end_
    → start + size ≤ highmem_end
    → boot_alloc_at size zone freeable start end_ align b ≡ some (some at, after)
    → (start ≤ at)
      × (at + size ≤ end_)
      × ((a : ℕ)
          → times (b.free_zones zone) a ≡ times (after.free_zones zone) a + once (block at size) a)
      × ((a : ℕ)
          → covers (after.res_zones (boot_alloc_get_addr_zone at)) a
            ≡ (covers (b.res_zones (boot_alloc_get_addr_zone at)) a || in_region (block at size) a))
unfolding boot_alloc_at
boot_alloc_at-takes size zone freeable start end_ align b after at f lo g aligns nowrap e =
    let l = b.free_zones zone in
    elim (Bool-cases (b.frozen || size == 0 || ltb end_ (add32 start size))) [
      | inl refused ↦ absurd (cc (rw refused at e))
      | inr run ↦ elim (Option-cases (find_fit 0 l size start end_ align)) [
        | inl no_room ↦ absurd (cc (rw (run, no_room) at e))
        | inr ((i, at'), found) ↦
            elim (Option-cases (boot_allocator_add_to_zones b.res_zones size at')) [
              | inl full ↦ absurd (cc (rw (run, found, full) at e))
              | inr (res, added) ↦ elim (Option-cases (split_behind l i at' size)) [
                | inl full ↦ absurd (cc (rw (run, found, added, full) at e))
                | inr (more, cut) ↦
                    let kept =
                      log_block b
                        (update b.free_zones zone
                          (boot_allocator_sort_regions (keep_front more i at')))
                        res at' size freeable in
                    let done =
                      some-pair (some at') (some at) kept after
                        (rw (run, found, added, cut) at e) in
                    let same : at' ≡ at = cc done.0 in
                    taken i res more (ground arith) (rw same at found) (rw same at added)
                      (rw same at cut) (rw same at done.1)
              ]
            ]
      ]
    ]
  where
    taken :
        (i : ℕ) (res : ℕ → List Region) (more : List Region)
        → start < end_
        → find_fit 0 (b.free_zones zone) size start end_ align ≡ some (i, at)
        → boot_allocator_add_to_zones b.res_zones size at ≡ some res
        → split_behind (b.free_zones zone) i at size ≡ some more
        → log_block b
            (update b.free_zones zone (boot_allocator_sort_regions (keep_front more i at)))
            res
            at
            size
            freeable
          ≡ after
        → (start ≤ at)
          × (at + size ≤ end_)
          × ((a : ℕ)
              → times (b.free_zones zone) a
                ≡ times (after.free_zones zone) a + once (block at size) a)
          × ((a : ℕ)
              → covers (after.res_zones (boot_alloc_get_addr_zone at)) a ≡ (
                  covers (b.res_zones (boot_alloc_get_addr_zone at)) a
                  || in_region (block at size) a))
    taken i res more some_ found added cut stored =
        let l = b.free_zones zone in
        let (j, same, lt, fits) = find_fit-fits 0 l size start end_ align i at found in
        let same' : j ≡ i = omega arith in
        let lt' = rw same' at lt in
        let (low, ge, high, le) =
          fit_in-bounds (get_or l i no_region) size start end_ align at aligns some_
            (rw same' at fits) in
        let (order, top) = get_or-Forward l i f lo in
        rw (← stored) (
          ge,
          le,
          λ a.
              rw (eq→== zone zone refl, times-boot_allocator_sort_regions (keep_front more i at) a)
                (times-split_behind l more i at size a lt' low high top cut),
          add_to_zones-covers b.res_zones res size at g (omega arith) added,
        )
