-- ===== src/Pages/States.antt =====
-- What `page_descriptor_init` leaves, where the zones are those of the boot allocator.
use std.Path.{subst}
use kernel_legacy.Boot.{Region}
use kernel_legacy.Boot.Take.{Bootmem, boot_alloc}
use kernel_legacy.Boot.Times.{times}
use kernel_legacy.Boot.Kept.{block, boot_alloc-takes, boot_alloc-res_zones, some-pair}
use kernel_legacy.Boot.Covers.{covers, in_region, Forward}
use kernel_legacy.Boot.Gaps.{
  boot_alloc_get_addr_zone, boot_allocator_init_zones, lowmem_start, highmem_start,
}
use kernel_legacy.Boot.Zones.{Below, boot_allocator_init_zones-covers}
use kernel_legacy.Buddy.{Page, page_state, page_zone, state_available}
use kernel_legacy.Pages.{
  Zones, state_unusable, state_reserved, zone_dma, zone_lowmem, zone_highmem, page_addr_is_in_reg,
  state_from, page_get_state_flag, page_get_zone_flag, page_get_appropriate_flag,
  page_descriptor_init, descriptor, descriptors_size, zones_in,
}
use kernel_legacy.Prelude.{
  ℕ, ◌*◌, ◌/◌, ◌%◌, ◌≤◌, bit_or, ◌≡◌, refl, sym, ap, ◌∙◌, ◌≢◌, inl, inr, Bool, true, false, not,
  ◌&&◌, ◌||◌, none, some, List, [], ◌∷◌, arith, ltb, leb, ◌==◌, if◌then◌else◌, ==→eq, Bool-cases,
  Option-cases,
}

page_addr_is_in_reg-covers : (l : List Region) (a : ℕ) → page_addr_is_in_reg l a ≡ covers l a
unfolding page_addr_is_in_reg
page_addr_is_in_reg-covers [] a = refl
page_addr_is_in_reg-covers (r ∷ rest) a = ground (arith, page_addr_is_in_reg-covers rest a)

-- the state that the regions give an address
abbrev pub state_of : (free res : List Region) → (addr : ℕ) → ℕ
state_of free res a =
    if covers free a
    then state_available
    else if covers res a
    then state_reserved
    else state_unusable

-- the flag of a zone of the boot allocator
abbrev pub flag_of : (zone : ℕ) → ℕ
flag_of zone = if zone == 2 then zone_highmem else if zone == 0 then zone_lowmem else zone_dma

-- an address is in the regions of its own zone or of none
record Sorted (z : Zones) (free res : List Region) : Type 0 where
  free_in :
      (zone a : ℕ)
      → covers (z.free_zones zone) a ≡ (boot_alloc_get_addr_zone a == zone && covers free a)
  res_in :
      (zone a : ℕ)
      → covers (z.res_zones zone) a ≡ (boot_alloc_get_addr_zone a == zone && covers res a)

state_of_round :
    (zone own later : ℕ) (f r : Bool)
    → (if own == zone && f
        then state_available
        else if own == zone && r
        then state_reserved
        else later)
      ≡ (if own == zone
          then (if f then state_available else if r then state_reserved else later)
          else later)
state_of_round zone own later f r = ground arith

page_get_state_flag-state_of :
    (z : Zones) (free res : List Region) (a : ℕ)
    → Sorted z free res
    → page_get_state_flag z a ≡ state_of free res a
unfolding page_get_state_flag state_from boot_alloc_get_addr_zone
page_get_state_flag-state_of z free res a s =
    rw
      (
        page_get_state_flag,
        state_from,
        page_addr_is_in_reg-covers (z.free_zones 0) a,
        page_addr_is_in_reg-covers (z.res_zones 0) a,
        page_addr_is_in_reg-covers (z.free_zones 1) a,
        page_addr_is_in_reg-covers (z.res_zones 1) a,
        page_addr_is_in_reg-covers (z.free_zones 2) a,
        page_addr_is_in_reg-covers (z.res_zones 2) a,
        s.free_in 0 a,
        s.res_in 0 a,
        s.free_in 1 a,
        s.res_in 1 a,
        s.free_in 2 a,
        s.res_in 2 a,
      )
      (ground arith)

-- the two parts of the flags do not touch
abbrev Reads : (state zone : ℕ) → Type 0
Reads state zone =
    let p : Page = record { flags = bit_or state zone; private_data = 0 } in
    (page_state p ≡ state) × (page_zone p ≡ zone)

read_flags :
    (free res high low : Bool)
    → Reads
        (if free then state_available else if res then state_reserved else state_unusable)
        (if high then zone_highmem else if low then zone_lowmem else zone_dma)
read_flags true res true low = (refl, refl)
read_flags true res false true = (refl, refl)
read_flags true res false false = (refl, refl)
read_flags false true true low = (refl, refl)
read_flags false true false true = (refl, refl)
read_flags false true false false = (refl, refl)
read_flags false false true low = (refl, refl)
read_flags false false false true = (refl, refl)
read_flags false false false false = (refl, refl)

flag_of-zone : (a : ℕ) → flag_of (boot_alloc_get_addr_zone a) ≡ page_get_zone_flag a
unfolding boot_alloc_get_addr_zone page_get_zone_flag
flag_of-zone a = ground arith

-- an address is in a region where it is in one more often than not at all
covers-times : (l : List Region) (a : ℕ) → covers l a ≡ ltb 0 (times l a)
covers-times [] a = refl
covers-times (r ∷ rest) a = ground (arith, covers-times rest a)

-- What the boot allocator holds before the descriptors are made: the zones of free and of reserved
-- regions, where no free address is in two regions.
pub record IsSetUp (free res : List Region) (b : Bootmem) : Type 0 where
  pub free_below : Below free
  pub res_below : Below res
  pub free_zones : (z : ℕ) → b.free_zones z ≡ boot_allocator_init_zones free (λ zone. []) z
  pub res_zones : (z : ℕ) → b.res_zones z ≡ boot_allocator_init_zones res (λ zone. []) z
  pub forward : Forward (b.free_zones 0)
  pub below : Below (b.free_zones 0)
  pub res_forward : (z : ℕ) → Forward (b.res_zones z)
  pub apart : (a : ℕ) → times (b.free_zones 0) a ≤ 1

-- the block that the descriptors take
abbrev pub block_of : (at : ℕ) → Region
block_of at = block at descriptors_size

-- what the call of `boot_alloc` leaves of the zones
record Taken (free res : List Region) (at : ℕ) (z : Zones) : Type 0 where
  inside :
      (a : ℕ)
      → in_region (block_of at) a ≡ true
      → (covers (z.free_zones 0) a ≡ false)
        × (covers (z.res_zones 0) a ≡ true)
        × (covers free a ≡ true)
        × (boot_alloc_get_addr_zone a ≡ 0)
  outside :
      (a : ℕ) → in_region (block_of at) a ≡ false → page_get_state_flag z a ≡ state_of free res a

same_flag :
    (z z' : Zones) (a : ℕ)
    → covers (z.free_zones 0) a ≡ covers (z'.free_zones 0) a
    → covers (z.res_zones 0) a ≡ covers (z'.res_zones 0) a
    → ((k : ℕ)
        → k ≢ 0
        → (covers (z.free_zones k) a ≡ covers (z'.free_zones k) a)
          × (covers (z.res_zones k) a ≡ covers (z'.res_zones k) a))
    → page_get_state_flag z a ≡ page_get_state_flag z' a
unfolding page_get_state_flag state_from
same_flag z z' a f r k =
    let one = k 1 (omega arith) in
    let two = k 2 (omega arith) in
    rw
      (
        page_get_state_flag,
        state_from,
        page_addr_is_in_reg-covers (z.free_zones 0) a,
        page_addr_is_in_reg-covers (z.res_zones 0) a,
        page_addr_is_in_reg-covers (z.free_zones 1) a,
        page_addr_is_in_reg-covers (z.res_zones 1) a,
        page_addr_is_in_reg-covers (z.free_zones 2) a,
        page_addr_is_in_reg-covers (z.res_zones 2) a,
        page_addr_is_in_reg-covers (z'.free_zones 0) a,
        page_addr_is_in_reg-covers (z'.res_zones 0) a,
        page_addr_is_in_reg-covers (z'.free_zones 1) a,
        page_addr_is_in_reg-covers (z'.res_zones 1) a,
        page_addr_is_in_reg-covers (z'.free_zones 2) a,
        page_addr_is_in_reg-covers (z'.res_zones 2) a,
        f,
        r,
        one.0,
        one.1,
        two.0,
        two.1,
      )
      refl

taken_lem :
    (free res : List Region) (b after : Bootmem) (at : ℕ)
    → IsSetUp free res b
    → boot_alloc descriptors_size 0 true b ≡ some (some at, after)
    → Taken free res at (zones_in after)
taken_lem free res b after at h e =
    let (less, others, more) =
      boot_alloc-takes descriptors_size 0 true b after at h.forward h.below (h.res_forward _) e in
    let sorted : Sorted (zones_in b) free res = record {
      free_in = λ zone x.
          ap (λ l. covers l x) (h.free_zones zone)
          ∙ boot_allocator_init_zones-covers free (λ z. []) zone x h.free_below;
      res_in = λ zone x.
          ap (λ l. covers l x) (h.res_zones zone)
          ∙ boot_allocator_init_zones-covers res (λ z. []) zone x h.res_below;
    } in
    let zone_of : (a : ℕ)
        → in_region (block_of at) a ≡ true
        → (covers free a ≡ true) × (boot_alloc_get_addr_zone a ≡ 0) =
      λ a within.
        let one : covers (b.free_zones 0) a ≡ true =
          covers-times (b.free_zones 0) a ∙ ground (arith, less a, within) in
        let own = sym (sorted.free_in 0 a) ∙ one in
        (ground (arith, own), ==→eq _ _ (ground (arith, own))) in
    let own : boot_alloc_get_addr_zone at ≡ 0 = (zone_of at (ground arith)).1 in
    let free_after : (a : ℕ)
        → covers (after.free_zones 0) a
          ≡ (covers (b.free_zones 0) a && not (in_region (block_of at) a)) =
      λ a.
        rw (covers-times (after.free_zones 0) a, covers-times (b.free_zones 0) a)
          (ground (arith, less a, h.apart a)) in
    let res_after : (a : ℕ)
        → covers (after.res_zones 0) a ≡ (covers (b.res_zones 0) a || in_region (block_of at) a) =
      rw own at more in
    record {
      inside = λ a within. (
        free_after a ∙ rw within (ground arith),
        res_after a ∙ rw within (ground arith),
        (zone_of a within).0,
        (zone_of a within).1,
      );
      outside = λ a without.
          same_flag (zones_in after) (zones_in b) a (free_after a ∙ rw without (ground arith))
            (res_after a ∙ rw without (ground arith))
            (λ z ne. (
              ap (λ l. covers l a) (others z (λ q. ne (sym q))),
              ap (λ l. covers l a)
                  (boot_alloc-res_zones descriptors_size 0 true b after at z e
                    (λ q. ne (sym q ∙ own))),
            ))
          ∙ page_get_state_flag-state_of (zones_in b) free res a sorted;
    }

-- what the descriptor of a page says of the page at an address
abbrev pub Describes : (free res : List Region) → (at a : ℕ) → Page → Type 0
Describes free res at a p =
    (page_state p ≡ (if in_region (block_of at) a then state_reserved else state_of free res a))
    × (page_zone p ≡ flag_of (boot_alloc_get_addr_zone a))
    × (in_region (block_of at) a ≡ true → (covers free a ≡ true) × (boot_alloc_get_addr_zone a ≡ 0))

reserved-first :
    (z : Zones) (a : ℕ)
    → covers (z.free_zones 0) a ≡ false
    → covers (z.res_zones 0) a ≡ true
    → page_get_state_flag z a ≡ state_reserved
unfolding page_get_state_flag state_from
reserved-first z a f r =
    rw
      (
        page_get_state_flag,
        state_from,
        page_addr_is_in_reg-covers (z.free_zones 0) a,
        page_addr_is_in_reg-covers (z.res_zones 0) a,
        f,
        r,
      )
      refl

descriptor-Describes :
    (free res : List Region) (at : ℕ) (z : Zones) (page : ℕ)
    → Taken free res at z
    → Describes free res at (page * 4096) (descriptor z page)
unfolding descriptor page_get_appropriate_flag page_get_zone_flag
descriptor-Describes free res at z page t =
    let a = page * 4096 in
    let (state, zone) =
      read_flags (covers free a) (covers res a) (leb highmem_start a) (leb lowmem_start a) in
    let (state', zone') = read_flags false true (leb highmem_start a) (leb lowmem_start a) in
    elim (Bool-cases (in_region (block_of at) a)) [
      | inl within ↦
          let (gone, held, was, own) = t.inside a within in
          let same : page_get_state_flag z a ≡ state_reserved = reserved-first z a gone held in
          rw within (
            ap (λ x. bit_or x (page_get_zone_flag a) % 8) same ∙ state',
            ap (λ x. bit_or x (page_get_zone_flag a) / 8 % 8 * 8) same
                ∙ zone'
                ∙ sym (flag_of-zone a),
            λ q. (was, own),
          )
      | inr without ↦
          let same = t.outside a without in
          rw without (
            ap (λ x. bit_or x (page_get_zone_flag a) % 8) same ∙ state,
            ap (λ x. bit_or x (page_get_zone_flag a) / 8 % 8 * 8) same
                ∙ zone
                ∙ sym (flag_of-zone a),
            λ q. cc q,
          )
    ]

-- Where the zones of the boot allocator are made of free and reserved regions, none of which ends
-- behind the highest address, the regions of LOWMEM are in order, no free address of it is in two
-- regions, and `page_descriptor_init` does not panic, there is a block of the size of the descriptors
-- that was free and lies in LOWMEM, and the descriptor of each page says that it is reserved where its
-- address is in that block; else available where a free region covers the address, else reserved where
-- a reserved region does, else unusable. Its zone is the one that the boot allocator gives the address.
pub page_descriptor_init-states :
    (free res : List Region) (b after : Bootmem) (pages : ℕ → Page)
    → IsSetUp free res b
    → page_descriptor_init b ≡ some (pages, after)
    → (at : ℕ) × ((page : ℕ) → Describes free res at (page * 4096) (pages page))
unfolding page_descriptor_init
page_descriptor_init-states free res b after pages h e =
    elim (Option-cases (boot_alloc descriptors_size 0 true b)) [
      | inl fails ↦ absurd (cc (rw (page_descriptor_init, fails) at e))
      | inr ((none, left), taken) ↦ absurd (cc (rw (page_descriptor_init, taken) at e))
      | inr ((some at, left), taken) ↦ elim (Bool-cases (at == 0)) [
        | inl null_ ↦ absurd (cc (rw (page_descriptor_init, taken, null_) at e))
        | inr there ↦
            let done =
              some-pair (descriptor (zones_in left)) pages left after
                (rw (page_descriptor_init, taken, there) at e) in
            (
              at,
              λ page.
                  subst (λ p. Describes free res at (page * 4096) (p page)) done.0
                    (descriptor-Describes free res at (zones_in left) page
                      (taken_lem free res b left at h taken)),
            )
      ]
    ]
