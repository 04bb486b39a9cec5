-- ===== src/Vmm/Tests.antt =====
-- Runs over one directory at 0x1000 with one table at 0x2000, which maps 0x5000 to the page 0x9000.
use kernel_legacy.Vmm.{
  Tables, entry_addr, is_present, pde_index, pte_index, vmm_map_page, vmm_unmap_page,
  vmm_get_mapping, unmapped_nothing, clear_pte, is_empty_from,
}
use kernel_legacy.Vmm.Walk.{IsSeparate, walk}
use kernel_legacy.Vmm.Mapping.{IsFresh, MapsOrFails, vmm_map_page-MapsPage}
use kernel_legacy.Vmm.Unmapping.{UnmapsPage, GivesBack, vmm_unmap_page-UnmapsPage}
use kernel_legacy.Vmm.Range.{
  kernel_vaddr_base, usercopy, access_ok, vmm_verify_range_flags, verify_pdes, verify_ptes,
}
use kernel_legacy.Vmm.Checked.{PageHas, usercopy-Safe}
use kernel_legacy.Vma.{page_size}
use kernel_legacy.Prelude.{
  ℕ, ◌+◌, ◌/◌, ◌≤◌, ◌<◌, bit_or, ◌≡◌, refl, sym, ◌∙◌, ◌⊎◌, inl, inr, true, false, ◌&&◌, [], ◌∷◌,
  arith, ◌==◌, if◌then◌else◌, ==→eq, Bool-cases,
}

abbrev one : Tables
one p j =
    if (p == 0x1000) && (j == 0) then 0x2007 else if (p == 0x2000) && (j == 5) then 0x9007 else 0

one-first : (i : ℕ) → is_present (one 0x1000 i) ≡ true → i ≡ 0
one-first i h = elim (Bool-cases (i == 0)) [
  | inl first ↦ ==→eq i 0 first
  | inr other ↦ absurd (cc (rw other at h))
]

one-IsSeparate : IsSeparate one 0x1000
one-IsSeparate = record {
  apart = λ i j hi hj e. one-first i hi ∙ sym (one-first j hj);
  outside = λ i hi. let at = one-first i hi in rw at (omega arith);
}

one-IsFresh : IsFresh one 0x1000 0x3000
one-IsFresh = record {
  aligned = refl;
  not_pd = omega arith;
  unused = λ i hi. let at = one-first i hi in rw at (omega arith);
}

mapping_run : vmm_get_mapping one 0x1000 0x5abc ≡ 0x9abc
unfolding vmm_get_mapping
mapping_run = refl

-- the last page of the table goes, and the table with it
unmap_run : (vmm_unmap_page one 0x1000 0x1000 0x5000).freed ≡ 0x2000 ∷ []
unfolding vmm_unmap_page clear_pte is_empty_from
unmap_run = refl

usercopy_run : usercopy one 0x1000 0x5ff0 16 false ≡ 0
unfolding usercopy access_ok vmm_verify_range_flags verify_pdes verify_ptes
usercopy_run = refl

vmm_map_page-MapsPage_example :
    MapsOrFails one 0x3000 0x1000 0x400000 0x8000
      (vmm_map_page one 0x3000 0x1000 0x1000 0x400000 0x8000 7)
vmm_map_page-MapsPage_example =
    vmm_map_page-MapsPage one 0x3000 0x1000 0x1000 0x400000 0x8000 7 one-IsSeparate
      (λ h. one-IsFresh) refl (omega arith) refl

vmm_unmap_page-UnmapsPage_example :
    let r = vmm_unmap_page one 0x1000 0x1000 0x5000 in
    let pte = walk one 0x1000 (pde_index 0x5000) (pte_index 0x5000) in
    ((is_present pte ≡ false) × (r ≡ unmapped_nothing one))
    ⊎ ((is_present pte ≡ true)
        × (r.done ≡ true)
        × UnmapsPage one r.tables 0x1000 0x5000
        × GivesBack one (entry_addr (one 0x1000 (pde_index 0x5000))) 0x5000 r.freed)
vmm_unmap_page-UnmapsPage_example =
    vmm_unmap_page-UnmapsPage one 0x1000 0x1000 0x5000 one-IsSeparate

usercopy-Safe_example :
    (0x5ff0 + 16 ≤ kernel_vaddr_base)
    × ((a : ℕ)
        → 0x5ff0 ≤ a
        → a < 0x5ff0 + 16
        → let flags = bit_or (if false then 4 else bit_or 4 2) 1 in
          PageHas one 0x1000 flags flags (a / page_size))
usercopy-Safe_example =
    usercopy-Safe one 0x1000 0x5ff0 16 false (omega arith) (omega arith) (omega arith) usercopy_run
