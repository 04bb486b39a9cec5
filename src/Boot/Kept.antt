-- ===== src/Boot/Kept.antt =====
-- `boot_alloc` and `boot_alloc_at` take their block out of the free regions once, and reserve it.
use kernel_legacy.Boot.{Region, max_regions, sort_and_merge}
use kernel_legacy.Boot.Covers.{in_region, covers, covers-append_one, Forward}
use kernel_legacy.Boot.Gaps.{highmem_end, boot_alloc_get_addr_zone}
use kernel_legacy.Boot.Merged.{sort_and_merge-covers}
use kernel_legacy.Boot.Zones.{Below}
use kernel_legacy.Boot.Take.{
  Bootmem, sub32, add32, no_region, boot_allocator_add_to_zones, find_room, keep_rest, log_block,
  boot_alloc,
}
use kernel_legacy.Boot.Times.{once, times, times-cut}
use kernel_legacy.Boot.{max_regions}
use kernel_legacy.Prelude.{
  ℕ, zero, suc, ◌+◌, ◌-◌, ◌≤◌, ◌<◌, ◌≡◌, refl, sym, ap, ◌∙◌, ◌≢◌, inl, inr, Bool, false, not, ◌&&◌,
  ◌||◌, Option, none, some, List, [], ◌∷◌, ◌++◌, arith, ltb, leb, ◌==◌, eq→==, ne→==, Bool-cases,
  Option-cases, length, get_or, update,
}

-- each region of such lists has its ends in order and below the highest address
pub get_or-Forward :
    (l : List Region) (i : ℕ)
    → Forward l
    → Below l
    → ((get_or l i no_region).start ≤ (get_or l i no_region).end_)
      × ((get_or l i no_region).end_ ≤ highmem_end)
get_or-Forward [] i f b = (omega arith, omega arith)
get_or-Forward (r ∷ l) zero (le, f) (hi, b) = (le, hi)
get_or-Forward (r ∷ l) (suc i) (le, f) (hi, b) = get_or-Forward l i f b

find_room-fits :
    (n : ℕ) (l : List Region) (size i : ℕ)
    → find_room n l size ≡ some i
    → (i < n) × (size ≤ sub32 (get_or l i no_region).end_ (get_or l i no_region).start)
unfolding find_room
find_room-fits zero l size i e = absurd (cc e)
find_room-fits (suc n) l size i e =
    let r = get_or l n no_region in
    elim (Bool-cases (leb size (sub32 r.end_ r.start) && not (ltb (sub32 r.end_ size) r.start))) [
      | inl fits ↦
          let same : n ≡ i = cc (rw fits at e) in
          let room : size ≤ sub32 r.end_ r.start = ground arith in rw (← same) (omega arith, room)
      | inr on ↦ let (lt, room) = find_room-fits n l size i (rw on at e) in (omega arith, room)
    ]

times-keep_rest :
    (l : List Region) (i at a : ℕ)
    → i < length l
    → (get_or l i no_region).start ≤ at
    → at ≤ (get_or l i no_region).end_
    → times l a
      ≡ times (keep_rest l i at) a
        + once (record { start = at; end_ = (get_or l i no_region).end_ }) a
times-keep_rest l i at a =
    times-cut ((get_or l i no_region).start == at) l i at a (λ e. ground arith)

abbrev pub block : (at size : ℕ) → Region
block at size = record { start = at; end_ = at + size }

-- the zone of the block covers it too, behind a call that does not panic
pub add_to_zones-covers :
    (zones more : ℕ → List Region) (size at : ℕ)
    → Forward (zones (boot_alloc_get_addr_zone at))
    → at + size ≤ highmem_end
    → boot_allocator_add_to_zones zones size at ≡ some more
    → (a : ℕ)
    → covers (more (boot_alloc_get_addr_zone at)) a
      ≡ (covers (zones (boot_alloc_get_addr_zone at)) a || in_region (block at size) a)
unfolding boot_allocator_add_to_zones
add_to_zones-covers zones more size at f le e a =
    let zone = boot_alloc_get_addr_zone at in
    let sum : add32 at size ≡ at + size = omega arith in
    elim (Bool-cases (leb max_regions (length (zones zone)))) [
      | inl full ↦ absurd (cc (rw full at e))
      | inr room ↦
          let stored : update zones zone (sort_and_merge (zones zone ++ (block at size ∷ [])))
              ≡ more =
            cc (rw (room, sum) at e) in
          let (same, _, _) =
            sort_and_merge-covers (zones zone ++ (block at size ∷ []))
              (append-Forward (zones zone) f) in
          rw (← stored, eq→== zone zone refl)
            (same a ∙ covers-append_one (zones zone) (block at size) a)
    ]
  where
    append-Forward : (l : List Region) → Forward l → Forward (l ++ (block at size ∷ []))
    append-Forward [] f = (omega arith, tt)
    append-Forward (r ∷ l) (le, f) = (le, append-Forward l f)

pub some-pair {ℓ} :
    {A B : Type ℓ} (x y : A) (p q : B)
    → ◌≡◌ {A = Option (A × B)} (some (x, p)) (some (y, q))
    → (x ≡ y) × (p ≡ q)
some-pair {A = A} {B = B} x y p q h = (
  ap (λ o. elim o as (λ _. A) [ none ↦ x | some r ↦ r.0 ]) h,
  ap (λ o. elim o as (λ _. B) [ none ↦ p | some r ↦ r.1 ]) h,
)

-- Where no region ends before it starts or behind the highest address, a block that `boot_alloc`
-- returns has been free: each of its addresses is in one free region less of its zone than before,
-- every other address in as many as before. The other zones keep their free regions, and the reserved
-- regions of the zone of the block cover the block beside what they covered.
pub boot_alloc-takes :
    (size zone : ℕ) (freeable : Bool) (b after : Bootmem) (at : ℕ)
    → Forward (b.free_zones zone)
    → Below (b.free_zones zone)
    → Forward (b.res_zones (boot_alloc_get_addr_zone at))
    → boot_alloc size zone freeable b ≡ some (some at, after)
    → ((a : ℕ)
        → times (b.free_zones zone) a ≡ times (after.free_zones zone) a + once (block at size) a)
      × ((z : ℕ) → zone ≢ z → after.free_zones z ≡ b.free_zones z)
      × ((a : ℕ)
          → covers (after.res_zones (boot_alloc_get_addr_zone at)) a
            ≡ (covers (b.res_zones (boot_alloc_get_addr_zone at)) a || in_region (block at size) a))
unfolding boot_alloc
boot_alloc-takes size zone freeable b after at f lo g e = elim (Bool-cases b.frozen) [
  | inl frozen ↦ absurd (cc (rw frozen at e))
  | inr run ↦
      let l = b.free_zones zone in
      elim (Option-cases (find_room (length l) l size)) [
        | inl no_room ↦ absurd (cc (rw (run, no_room) at e))
        | inr (i, found) ↦
            let r = get_or l i no_region in
            let at' = sub32 r.end_ size in
            elim (Option-cases (boot_allocator_add_to_zones b.res_zones size at')) [
              | inl full ↦ absurd (cc (rw (run, found, full) at e))
              | inr (res, added) ↦
                  let kept =
                    log_block b (update b.free_zones zone (keep_rest l i at')) res at' size
                      freeable in
                  let done =
                    some-pair (some at') (some at) kept after (rw (run, found, added) at e) in
                  let same : at' ≡ at = cc done.0 in
                  taken i res same found (rw same at added) (rw same at done.1)
            ]
      ]
]
  where
    taken :
        (i : ℕ) (res : ℕ → List Region)
        → sub32 (get_or (b.free_zones zone) i no_region).end_ size ≡ at
        → find_room (length (b.free_zones zone)) (b.free_zones zone) size ≡ some i
        → boot_allocator_add_to_zones b.res_zones size at ≡ some res
        → log_block b
            (update b.free_zones zone (keep_rest (b.free_zones zone) i at))
            res
            at
            size
            freeable
          ≡ after
        → ((a : ℕ)
            → times (b.free_zones zone) a
              ≡ times (after.free_zones zone) a + once (block at size) a)
          × ((z : ℕ) → zone ≢ z → after.free_zones z ≡ b.free_zones z)
          × ((a : ℕ)
              → covers (after.res_zones (boot_alloc_get_addr_zone at)) a ≡ (
                  covers (b.res_zones (boot_alloc_get_addr_zone at)) a
                  || in_region (block at size) a))
    taken i res where_ found added stored =
        let l = b.free_zones zone in
        let r = get_or l i no_region in
        let (lt, room) = find_room-fits (length l) l size i found in
        let (order, high) = get_or-Forward l i f lo in
        let fits : size ≤ r.end_ - r.start = omega arith in
        let ends : r.end_ ≡ at + size = omega arith in
        rw (← stored) (
          λ a.
              rw (eq→== zone zone refl)
                (rw ends at (times-keep_rest l i at a lt (omega arith) (omega arith))),
          λ z ne. rw (ne→== zone z ne) refl,
          add_to_zones-covers b.res_zones res size at g (omega arith) added,
        )

-- `boot_alloc` changes the reserved regions of the zone of its block only.
pub boot_alloc-res_zones :
    (size zone : ℕ) (freeable : Bool) (b after : Bootmem) (at z : ℕ)
    → boot_alloc size zone freeable b ≡ some (some at, after)
    → boot_alloc_get_addr_zone at ≢ z
    → after.res_zones z ≡ b.res_zones z
unfolding boot_alloc boot_allocator_add_to_zones
boot_alloc-res_zones size zone freeable b after at z e ne = elim (Bool-cases b.frozen) [
  | inl frozen ↦ absurd (cc (rw frozen at e))
  | inr run ↦
      let l = b.free_zones zone in
      elim (Option-cases (find_room (length l) l size)) [
        | inl no_room ↦ absurd (cc (rw (run, no_room) at e))
        | inr (i, found) ↦
            let at' = sub32 (get_or l i no_region).end_ size in
            let own = boot_alloc_get_addr_zone at' in
            elim (Bool-cases (leb max_regions (length (b.res_zones own)))) [
              | inl full ↦ absurd (cc (rw (run, found, full) at e))
              | inr room ↦
                  let done = some-pair (some at') (some at) _ after (rw (run, found, room) at e) in
                  let same : at' ≡ at = cc done.0 in
                  let other : (own == z) ≡ false =
                    ne→== own z (λ h. ne (sym (ap boot_alloc_get_addr_zone same) ∙ h)) in
                  sym (ap (λ m. m.res_zones z) done.1) ∙ rw other refl
            ]
      ]
]
