-- ===== src/Vmm/Mapping.antt =====
-- `vmm_map_page` maps one page and no other.
use kernel_legacy.Vmm.{
  Tables, Mapped, pde_index, pte_index, entry_addr, is_present, is_user, put_entry, new_pde,
  write_pte, map_new, map_old, vmm_map_page, vmm_get_mapping,
}
use kernel_legacy.Vmm.Words.{
  entry_addr-bit_or, entry_addr-page, present-bit_or, present-bit_or_left, new_pde-present,
  new_pde-addr,
}
use kernel_legacy.Vmm.Walk.{IsSeparate, target, vmm_get_mapping-walk, put_entry-here}
use kernel_legacy.Vmm.Steps.{
  SameWalks, replaced-SameWalks, attached, attached-hit, attached-SameWalks, written-IsSeparate,
  walk-written,
}
use kernel_legacy.Prelude.{
  ℕ, ◌+◌, ◌/◌, ◌%◌, ◌<◌, bit_or, ◌≡◌, refl, ◌≢◌, ◌⊎◌, inl, inr, Bool, true, false, not, ◌&&◌, arith,
  ◌==◌, if◌then◌else◌, ==→eq, ==→ne, Bool-cases,
}

-- The page that the buddy allocator gives: aligned, and no table of the directory.
pub record IsFresh (t : Tables) (pd fresh : ℕ) : Type 0 where
  pub aligned : fresh % 4096 ≡ 0
  pub not_pd : fresh ≢ pd
  pub unused : (i : ℕ) → is_present (t pd i) ≡ true → entry_addr (t pd i) ≢ fresh

-- The page of `v` is mapped to the page `p`, and every other address to what it was.
abbrev pub MapsPage : Tables → Tables → (pd v p : ℕ) → Type 0
MapsPage t t' pd v p =
    IsSeparate t' pd
    × ((u : ℕ)
        → vmm_get_mapping t' pd u
          ≡ (if u / 4096 == v / 4096 then p + u % 4096 else vmm_get_mapping t pd u))

-- the entry of a directory `t1` that walks as `t` does is written
write_pte-MapsPage :
    (t t1 : Tables) (cr3 pd v p flags : ℕ) (reloads : Bool)
    → SameWalks t t1 pd
    → is_present (t1 pd (pde_index v)) ≡ true
    → p % 4096 ≡ 0
    → flags < 4096
    → is_present flags ≡ true
    → MapsPage t
        (write_pte t1 cr3 pd (entry_addr (t1 pd (pde_index v))) v p flags reloads).tables
        pd
        v
        p
unfolding write_pte SameWalks target
write_pte-MapsPage t t1 cr3 pd v p flags reloads (s1, walks) there aligned small present = (
  written-IsSeparate t1 pd (pde_index v) (pte_index v) (bit_or p flags) s1 there,
  λ u.
      rw
        (
          vmm_get_mapping-walk _ pd u,
          vmm_get_mapping-walk t pd u,
          walk-written t1 pd (pde_index v) (pte_index v) (bit_or p flags) s1 there (pde_index u)
              (pte_index u),
          walks (pde_index u) (pte_index u),
        )
        (elim (Bool-cases (u / 4096 == v / 4096)) [
          | inl same ↦
              let both : ((pde_index v == pde_index u) && (pte_index v == pte_index u)) ≡ true =
                ground arith in
              rw
                (
                  same,
                  both,
                  target,
                  present-bit_or p flags present,
                  entry_addr-page p flags aligned small,
                )
                refl
          | inr other ↦
              let either : ((pde_index v == pde_index u) && (pte_index v == pte_index u)) ≡ false =
                ground arith in
              rw (other, either) refl
        ]),
)

-- What a call of `vmm_map_page` ends with: it fails without effect where it needs a table and there
-- is no page for it, or it maps the page.
abbrev pub MapsOrFails : Tables → (fresh pd v p : ℕ) → Mapped → Type 0
MapsOrFails t fresh pd v p m =
    ((m.done ≡ false) × (is_present (t pd (pde_index v)) ≡ false) × (fresh ≡ 0) × (m.tables ≡ t))
    ⊎ ((m.done ≡ true)
        × ((is_present (t pd (pde_index v)) ≡ true) ⊎ (fresh ≢ 0))
        × MapsPage t m.tables pd v p)

map_old-MapsPage :
    (t : Tables) (cr3 pd v p flags : ℕ)
    → IsSeparate t pd
    → is_present (t pd (pde_index v)) ≡ true
    → p % 4096 ≡ 0
    → flags < 4096
    → is_present flags ≡ true
    → ((map_old t cr3 pd v p flags).done ≡ true)
      × MapsPage t (map_old t cr3 pd v p flags).tables pd v p
unfolding map_old write_pte
map_old-MapsPage t cr3 pd v p flags s there aligned small present =
    let k = pde_index v in
    let pde = t pd k in
    let raised = is_user flags && not (is_user pde) in
    let entry = if raised then bit_or pde 4 else pde in
    let held : is_present entry ≡ true = raise_lem raised pde there in
    let same : entry_addr entry ≡ entry_addr pde = raise_addr raised pde in
    let walks = replaced-SameWalks t pd k entry s there held same in
    let here = put_entry-here t pd k entry in
    (
      refl,
      rw here at (
          write_pte-MapsPage t (put_entry t pd k entry) cr3 pd v p flags raised walks (rw here held)
            aligned small present),
    )
  where
    raise_lem :
        (b : Bool) (e : ℕ) → is_present e ≡ true → is_present (if b then bit_or e 4 else e) ≡ true
    raise_lem true e h = present-bit_or_left e 4 h
    raise_lem false e h = h

    raise_addr : (b : Bool) (e : ℕ) → entry_addr (if b then bit_or e 4 else e) ≡ entry_addr e
    raise_addr true e = entry_addr-bit_or e 4 (omega arith)
    raise_addr false e = refl

map_new-MapsPage :
    (t : Tables) (fresh cr3 pd v p flags : ℕ)
    → IsSeparate t pd
    → is_present (t pd (pde_index v)) ≡ false
    → (fresh ≢ 0 → IsFresh t pd fresh)
    → p % 4096 ≡ 0
    → flags < 4096
    → is_present flags ≡ true
    → MapsOrFails t fresh pd v p (map_new t fresh cr3 pd v p flags)
unfolding map_new write_pte attached
map_new-MapsPage t fresh cr3 pd v p flags s absent given aligned small present =
    elim (Bool-cases (fresh == 0)) [
      | inl none_ ↦ rw (map_new, none_) (inl (refl, absent, ==→eq fresh 0 none_, refl))
      | inr some_ ↦
          let f = given (==→ne fresh 0 some_) in
          let k = pde_index v in
          let e = new_pde fresh flags in
          let names = new_pde-addr fresh flags f.aligned small in
          let held = new_pde-present fresh flags in
          let walks = attached-SameWalks t pd k e fresh s absent held names f.not_pd f.unused in
          let here = attached-hit t pd k e fresh s absent held names f.not_pd f.unused in
          rw (map_new, some_)
            (inr (
              refl,
              inr (==→ne fresh 0 some_),
              rw (here, names) at
                  (write_pte-MapsPage t
                    (attached t pd k e fresh s absent held names f.not_pd f.unused) cr3 pd v p flags
                    true walks (rw here held) aligned small present),
            ))
    ]

module _ (t : Tables) (fresh cr3 pd v p flags : ℕ) where
  old_branch :
      is_present (t pd (pde_index v)) ≡ true
      → vmm_map_page t fresh cr3 pd v p flags ≡ map_old t cr3 pd v p flags
  unfolding vmm_map_page
  old_branch h = rw (vmm_map_page, h) refl

  new_branch :
      is_present (t pd (pde_index v)) ≡ false
      → vmm_map_page t fresh cr3 pd v p flags ≡ map_new t fresh cr3 pd v p flags
  unfolding vmm_map_page
  new_branch h = rw (vmm_map_page, h) refl

-- Through separate tables, with an aligned page and flags that have the present bit,
-- `vmm_map_page` fails without effect exactly if it needs a table and gets no page for it. Else
-- `vmm_get_mapping` sends every address of the page of `v` to its place in the page `p`, and every
-- other address where it was sent before, and the tables stay separate.
pub vmm_map_page-MapsPage :
    (t : Tables) (fresh cr3 pd v p flags : ℕ)
    → IsSeparate t pd
    → (fresh ≢ 0 → IsFresh t pd fresh)
    → p % 4096 ≡ 0
    → flags < 4096
    → is_present flags ≡ true
    → MapsOrFails t fresh pd v p (vmm_map_page t fresh cr3 pd v p flags)
vmm_map_page-MapsPage t fresh cr3 pd v p flags s given aligned small present =
    elim (Bool-cases (is_present (t pd (pde_index v)))) [
      | inl there ↦
          let (done, maps) = map_old-MapsPage t cr3 pd v p flags s there aligned small present in
          rw (old_branch t fresh cr3 pd v p flags there) (inr (done, inl there, maps))
      | inr absent ↦
          rw (new_branch t fresh cr3 pd v p flags absent)
            (map_new-MapsPage t fresh cr3 pd v p flags s absent given aligned small present)
    ]
