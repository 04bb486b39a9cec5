-- ===== src/Boot/Zones.antt =====
-- The zones get the addresses that regions cover, each the ones that are its own.
use kernel_legacy.Boot.{Region}
use kernel_legacy.Boot.Covers.{in_region, covers, covers-append_one}
use kernel_legacy.Boot.Gaps.{
  lowmem_start, highmem_start, highmem_end, boot_alloc_get_addr_zone, zone_end, parts_from, parts,
  add_parts, boot_allocator_init_zones,
}
use kernel_legacy.Prelude.{
  ℕ, zero, suc, ◌≤◌, ◌<◌, ◌≡◌, refl, ap, ◌∙◌, inl, inr, Bool, true, false, ◌&&◌, ◌||◌, List, [],
  ◌∷◌, ◌++◌, arith, ltb, leb, ◌==◌, if◌then◌else◌, ltb→lt, lt→ltb, ==→eq, Bool-cases, update,
}

-- whether an address lies in one of the parts that are given a zone
abbrev covers_in : ℕ → List (ℕ × Region) → ℕ → Bool
covers_in zone [] a = false
covers_in zone ((z, r) ∷ rest) a = (z == zone && in_region r a) || covers_in zone rest a

-- how many rounds are enough from an address on
abbrev rounds : ℕ → ℕ
rounds cur = if leb highmem_start cur then 1 else if leb lowmem_start cur then 2 else 3

-- no region ends behind the highest address
abbrev pub Below : List Region → Type 0
Below [] = Unit
Below (r ∷ rest) = (r.end_ ≤ highmem_end) × Below rest

-- A part that ends in the zone it starts in has addresses of that zone only.
one_zone :
    (zone cur sub_end a : ℕ)
    → sub_end ≤ zone_end cur
    → (boot_alloc_get_addr_zone cur == zone && (leb cur a && ltb a sub_end))
      ≡ (boot_alloc_get_addr_zone a == zone && (leb cur a && ltb a sub_end))
unfolding boot_alloc_get_addr_zone
one_zone zone cur sub_end a le = ground arith

glue :
    (b : Bool) (cur sub_end region_end a : ℕ)
    → cur ≤ sub_end
    → sub_end ≤ region_end
    → ((b && (leb cur a && ltb a sub_end)) || (b && (leb sub_end a && ltb a region_end)))
      ≡ (b && (leb cur a && ltb a region_end))
glue false cur sub_end region_end a h k = refl
glue true cur sub_end region_end a h k = ground arith

beyond :
    (b : Bool) (cur region_end a : ℕ)
    → region_end ≤ cur
    → false ≡ (b && (leb cur a && ltb a region_end))
beyond false cur region_end a h = refl
beyond true cur region_end a h = ground arith

-- a zone ends behind each of its addresses
zone_end-ahead :
    (cur region_end : ℕ) → cur < region_end → region_end ≤ highmem_end → cur < zone_end cur
zone_end-ahead cur region_end lt le = ground arith

-- and behind it there is a zone less
rounds-zone_end :
    (n cur : ℕ) → zone_end cur < highmem_end → rounds cur ≤ suc n → rounds (zone_end cur) ≤ n
rounds-zone_end n cur lt le = ground arith

covers_in-parts_from :
    (n zone cur region_end a : ℕ)
    → region_end ≤ highmem_end
    → (cur < region_end → rounds cur ≤ n)
    → covers_in zone (parts_from n cur region_end) a
      ≡ (boot_alloc_get_addr_zone a == zone && (leb cur a && ltb a region_end))
unfolding parts_from
covers_in-parts_from zero zone cur region_end a le enough = elim (Bool-cases (ltb cur region_end)) [
  | inr done ↦ beyond (boot_alloc_get_addr_zone a == zone) cur region_end a (ground arith)
  | inl more ↦ let no = enough (ltb→lt cur region_end more) in absurd (ground (arith, no))
]
covers_in-parts_from (suc n) zone cur region_end a le enough =
    elim (Bool-cases (ltb cur region_end)) [
      | inr done ↦
          rw (parts_from, done)
            (beyond (boot_alloc_get_addr_zone a == zone) cur region_end a (ground arith))
      | inl more ↦
          let lt = ltb→lt cur region_end more in
          let ahead = zone_end-ahead cur region_end lt le in
          elim (Bool-cases (ltb region_end (zone_end cur))) [
            | inl last ↦
                rw (parts_from, more, last, more)
                  (part region_end lt (ground arith) (ground arith) (
                    covers_in-parts_from n zone region_end region_end a le
                      (λ no. absurd (omega arith))))
            | inr next ↦
                let some_ : ltb cur (zone_end cur) ≡ true = lt→ltb _ _ ahead in
                rw (parts_from, more, next, some_)
                  (part (zone_end cur) ahead (ground arith) (ground arith) (
                    covers_in-parts_from n zone (zone_end cur) region_end a le
                      (λ on. rounds-zone_end n cur (omega arith) (enough lt))))
          ]
    ]
  where
    part :
        (sub_end : ℕ)
        → cur < sub_end
        → sub_end ≤ zone_end cur
        → sub_end ≤ region_end
        → covers_in zone (parts_from n sub_end region_end) a
          ≡ (boot_alloc_get_addr_zone a == zone && (leb sub_end a && ltb a region_end))
        → ((boot_alloc_get_addr_zone cur == zone && (leb cur a && ltb a sub_end))
            || covers_in zone (parts_from n sub_end region_end) a)
          ≡ (boot_alloc_get_addr_zone a == zone && (leb cur a && ltb a region_end))
    part sub_end lt in_ on later =
        rw (one_zone zone cur sub_end a in_, later)
          (glue (boot_alloc_get_addr_zone a == zone) cur sub_end region_end a (omega arith) on)

covers-add_parts :
    (l : List (ℕ × Region)) (zones : ℕ → List Region) (zone a : ℕ)
    → covers (add_parts l zones zone) a ≡ (covers (zones zone) a || covers_in zone l a)
covers-add_parts [] zones zone a = ground arith
covers-add_parts ((z, r) ∷ rest) zones zone a =
    covers-add_parts rest (update zones z (zones z ++ (r ∷ []))) zone a
    ∙ ap (λ b. b || covers_in zone rest a) one
    ∙ or-assoc (covers (zones zone) a) (z == zone && in_region r a) (covers_in zone rest a)
  where
    or-assoc : (x y z : Bool) → ((x || y) || z) ≡ (x || (y || z))
    or-assoc true y z = refl
    or-assoc false y z = refl

    one :
        covers (update zones z (zones z ++ (r ∷ [])) zone) a
        ≡ (covers (zones zone) a || (z == zone && in_region r a))
    one = elim (Bool-cases (z == zone)) [
      | inl same ↦ rw (same, ==→eq z zone same) (covers-append_one (zones zone) r a)
      | inr other ↦ rw other (ground arith)
    ]

-- Where no region ends behind the highest address, each zone covers, beside what it covered, the
-- addresses of the regions that `boot_alloc_get_addr_zone` says are its own, and no other.
pub boot_allocator_init_zones-covers :
    (l : List Region) (zones : ℕ → List Region) (zone a : ℕ)
    → Below l
    → covers (boot_allocator_init_zones l zones zone) a
      ≡ (covers (zones zone) a || (boot_alloc_get_addr_zone a == zone && covers l a))
unfolding boot_allocator_init_zones
boot_allocator_init_zones-covers [] zones zone a b = ground arith
boot_allocator_init_zones-covers (r ∷ rest) zones zone a (le, b) =
    boot_allocator_init_zones-covers rest (add_parts (parts r) zones) zone a b
    ∙ rw
        (
          covers-add_parts (parts r) zones zone a,
          covers_in-parts_from 3 zone r.start r.end_ a le (λ lt. ground arith),
        )
        (both (covers (zones zone) a) (boot_alloc_get_addr_zone a == zone) (in_region r a)
          (covers rest a))
  where
    both : (x b y z : Bool) → ((x || (b && y)) || (b && z)) ≡ (x || (b && (y || z)))
    both true b y z = refl
    both false true y z = refl
    both false false y z = refl
