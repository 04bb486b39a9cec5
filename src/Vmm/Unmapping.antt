-- ===== src/Vmm/Unmapping.antt =====
-- `vmm_unmap_page` removes one page, and the table that is left empty.
use kernel_legacy.Vmm.{
  Tables, pde_index, pte_index, entry_addr, is_present, put_entry, clear_pte, unmapped_nothing,
  vmm_unmap_page, vmm_get_mapping,
}
use kernel_legacy.Vmm.Walk.{
  IsSeparate, walk, walk-present, walk-absent, target, vmm_get_mapping-walk, put_entry-other,
  put_entry-here, put_entry-there,
}
use kernel_legacy.Vmm.Detach.{is_empty_from-cases, detached-IsSeparate, walk-detached}
use kernel_legacy.Vmm.Steps.{written-IsSeparate, walk-written}
use kernel_legacy.Prelude.{
  ℕ, ◌/◌, ◌≤◌, ◌<◌, ◌≡◌, refl, sym, ap, ◌∙◌, ◌≢◌, ◌⊎◌, inl, inr, true, false, ◌&&◌, List, [], ◌∷◌,
  arith, ◌==◌, if◌then◌else◌, ==→eq, Bool-cases,
}

-- No address of the page of `v` is mapped, and every other address is mapped to what it was.
abbrev pub UnmapsPage : Tables → Tables → (pd v : ℕ) → Type 0
UnmapsPage t t' pd v =
    IsSeparate t' pd
    × ((u : ℕ)
        → vmm_get_mapping t' pd u ≡ (if u / 4096 == v / 4096 then 0 else vmm_get_mapping t pd u))

-- the tables that are given back: that of `v` exactly if no other entry of it is present
abbrev pub GivesBack : Tables → (pt v : ℕ) → List ℕ → Type 0
GivesBack t pt v freed =
    ((freed ≡ pt ∷ []) × ((j : ℕ) → j < 1024 → pte_index v ≢ j → is_present (t pt j) ≡ false))
    ⊎ ((freed ≡ []) × ((j : ℕ) × (j < 1024) × (pte_index v ≢ j) × (is_present (t pt j) ≡ true)))

module _ (t : Tables) (cr3 pd v : ℕ) (s : IsSeparate t pd)
    (there : is_present (t pd (pde_index v)) ≡ true) where
  abbrev cleared : Tables
  cleared = put_entry t (entry_addr (t pd (pde_index v))) (pte_index v) 0

  cleared-UnmapsPage : UnmapsPage t cleared pd v
  unfolding target
  cleared-UnmapsPage = (
    written-IsSeparate t pd (pde_index v) (pte_index v) 0 s there,
    λ u.
        rw
          (
            vmm_get_mapping-walk cleared pd u,
            vmm_get_mapping-walk t pd u,
            walk-written t pd (pde_index v) (pte_index v) 0 s there (pde_index u) (pte_index u),
          )
          (elim (Bool-cases (u / 4096 == v / 4096)) [
            | inl same ↦
                let both : ((pde_index v == pde_index u) && (pte_index v == pte_index u)) ≡ true =
                  ground arith in
                rw (same, both, target) refl
            | inr other ↦
                let either : ((pde_index v == pde_index u) && (pte_index v == pte_index u))
                    ≡ false =
                  ground arith in
                rw (other, either) refl
          ]),
  )

  cleared-pd : (a : ℕ) → cleared pd a ≡ t pd a
  cleared-pd a =
      ap (λ row. row a)
        (put_entry-other t (entry_addr (t pd (pde_index v))) (pte_index v) 0 pd
          (s.outside (pde_index v) there))

  -- where the table is empty, its addresses are not mapped
  module _
      (empty : (j : ℕ)
        → 0 ≤ j
        → j < 1024
        → is_present (cleared (entry_addr (t pd (pde_index v))) j) ≡ false) where
    empty_table : (u : ℕ) → pde_index v ≡ pde_index u → vmm_get_mapping cleared pd u ≡ 0
    unfolding target
    empty_table u e =
        let held : is_present (cleared pd (pde_index v)) ≡ true =
          rw (cleared-pd (pde_index v)) there in
        let none_ = empty (pte_index u) (omega arith) (omega arith) in
        rw
          (
            vmm_get_mapping-walk cleared pd u,
            ← e,
            walk-present cleared pd (pde_index v) (pte_index u) held,
            cleared-pd (pde_index v),
            target,
            none_,
          )
          refl

    dropped-same :
        (u : ℕ)
        → vmm_get_mapping (put_entry cleared pd (pde_index v) 0) pd u ≡ vmm_get_mapping cleared pd u
    unfolding target
    dropped-same u =
        let walks =
          walk-detached cleared pd (pde_index v) (cleared-UnmapsPage.0) (pde_index u)
            (pte_index u) in
        elim (Bool-cases (pde_index v == pde_index u)) [
          | inl same ↦
              rw (vmm_get_mapping-walk _ pd u, walks, same, empty_table u (==→eq _ _ same), target)
                refl
          | inr other ↦
              rw (vmm_get_mapping-walk (put_entry cleared pd (pde_index v) 0) pd u, walks, other)
                (sym (vmm_get_mapping-walk cleared pd u))
        ]

    dropped-UnmapsPage : UnmapsPage t (put_entry cleared pd (pde_index v) 0) pd v
    dropped-UnmapsPage = (
      detached-IsSeparate cleared pd (pde_index v) (cleared-UnmapsPage.0),
      λ u. dropped-same u ∙ cleared-UnmapsPage.1 u,
    )

  clear_pte-UnmapsPage :
      let r = clear_pte t cr3 pd (entry_addr (t pd (pde_index v))) v in
      (r.done ≡ true)
      × UnmapsPage t r.tables pd v
      × GivesBack t (entry_addr (t pd (pde_index v))) v r.freed
  unfolding clear_pte
  clear_pte-UnmapsPage =
      let pt = entry_addr (t pd (pde_index v)) in
      elim (is_empty_from-cases (cleared pt) 0 1024) [
        | inl (yes_, empty) ↦ rw yes_ (
          refl,
          dropped-UnmapsPage empty,
          inl (
            refl,
            λ j lt ne. rw (put_entry-there t pt (pte_index v) 0 j ne) at (empty j (omega arith) lt),
          ),
        )
        | inr (no_, (j, ge, lt, held)) ↦
            let ne : pte_index v ≢ j =
              λ e. absurd (cc (rw (← e, put_entry-here t pt (pte_index v) 0) at held)) in
            rw no_ (
              refl,
              cleared-UnmapsPage,
              inr (refl, (j, lt, ne, rw (put_entry-there t pt (pte_index v) 0 j ne) at held)),
            )
      ]

-- Through separate tables, `vmm_unmap_page` fails without effect exactly if the page has no present
-- entry. Else no address of the page of `v` is mapped any more, every other address is mapped to
-- what it was, the tables stay separate, and the table of the page goes back to the buddy allocator
-- exactly if no other entry of it is present.
pub vmm_unmap_page-UnmapsPage :
    (t : Tables) (cr3 pd v : ℕ)
    → IsSeparate t pd
    → let r = vmm_unmap_page t cr3 pd v in
      let pte = walk t pd (pde_index v) (pte_index v) in
      ((is_present pte ≡ false) × (r ≡ unmapped_nothing t))
      ⊎ ((is_present pte ≡ true)
          × (r.done ≡ true)
          × UnmapsPage t r.tables pd v
          × GivesBack t (entry_addr (t pd (pde_index v))) v r.freed)
unfolding vmm_unmap_page
vmm_unmap_page-UnmapsPage t cr3 pd v s = elim (Bool-cases (is_present (t pd (pde_index v)))) [
  | inr absent ↦ inl (rw (walk-absent t pd (pde_index v) (pte_index v) absent) refl, rw absent refl)
  | inl there ↦
      let at = walk-present t pd (pde_index v) (pte_index v) there in
      elim (Bool-cases (is_present (t (entry_addr (t pd (pde_index v))) (pte_index v)))) [
        | inr missing ↦ inl (rw at missing, rw (there, missing) refl)
        | inl held ↦
            let (done, page, freed) = clear_pte-UnmapsPage t cr3 pd v s there in
            let runs : vmm_unmap_page t cr3 pd v
                ≡ clear_pte t cr3 pd (entry_addr (t pd (pde_index v))) v =
              rw (there, held) refl in
            rw runs (inr (rw at held, done, page, freed))
      ]
]
