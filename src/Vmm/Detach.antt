-- ===== src/Vmm/Detach.antt =====
-- What `vmm_unmap_page` asks of a table, and what clearing an entry of a directory does.
use kernel_legacy.Vmm.{Tables, entry_addr, is_present, put_entry, is_empty_from}
use kernel_legacy.Vmm.Walk.{
  IsSeparate, walk, walk-present, walk-absent, put_entry-other, put_entry-here, put_entry-there,
}
use kernel_legacy.Prelude.{
  ℕ, zero, suc, ◌+◌, ◌≤◌, ◌<◌, ◌≡◌, refl, sym, ap, ◌≢◌, ◌⊎◌, inl, inr, true, false, arith, ◌==◌,
  if◌then◌else◌, ==→eq, ==→ne, Bool-cases,
}

-- what the search for a present entry finds
pub is_empty_from-cases :
    (pt : ℕ → ℕ) (i n : ℕ)
    → ((is_empty_from pt i n ≡ true) × ((j : ℕ) → i ≤ j → j < i + n → is_present (pt j) ≡ false))
      ⊎ ((is_empty_from pt i n ≡ false)
          × ((j : ℕ) × (i ≤ j) × (j < i + n) × (is_present (pt j) ≡ true)))
unfolding is_empty_from
is_empty_from-cases pt i zero = inl (refl, λ j ge lt. absurd (omega arith))
is_empty_from-cases pt i (suc n) = elim (Bool-cases (is_present (pt i))) [
  | inl held ↦ rw (is_empty_from, held) (inr (refl, (i, omega arith, omega arith, held)))
  | inr none_ ↦
      rw (is_empty_from, none_)
        (elim (is_empty_from-cases pt (i + 1) n) [
          | inl (empty, all) ↦ inl (
            empty,
            λ j ge lt. elim (Bool-cases (j == i)) [
              | inl same ↦ rw (==→eq j i same) none_
              | inr other ↦ all j (ground arith) (omega arith)
            ],
          )
          | inr (full, (j, ge, lt, held)) ↦ inr (full, (j, omega arith, omega arith, held))
        ])
]

-- The entry of the directory is cleared.
module _ (t : Tables) (pd k : ℕ) (s : IsSeparate t pd) where
  detached-present : (i : ℕ) → is_present (put_entry t pd k 0 pd i) ≡ true → k ≢ i
  detached-present i h e = absurd (cc (rw (← e, put_entry-here t pd k 0) at h))

  detached-entry : (i : ℕ) → k ≢ i → put_entry t pd k 0 pd i ≡ t pd i
  detached-entry i ne = put_entry-there t pd k 0 i ne

  pub detached-IsSeparate : IsSeparate (put_entry t pd k 0) pd
  detached-IsSeparate = record {
    apart = λ i j hi hj e.
        let old_i = detached-entry i (detached-present i hi) in
        let old_j = detached-entry j (detached-present j hj) in
        s.apart i j (rw old_i at hi) (rw old_j at hj) (rw (old_i, old_j) at e);
    outside = λ i hi.
        let old = detached-entry i (detached-present i hi) in rw old (s.outside i (rw old at hi));
  }

  pub walk-detached :
      (a b : ℕ) → walk (put_entry t pd k 0) pd a b ≡ (if k == a then 0 else walk t pd a b)
  walk-detached a b = elim (Bool-cases (k == a)) [
    | inl hit ↦
        let at = ==→eq k a hit in
        rw (hit, walk-absent (put_entry t pd k 0) pd a b (rw (← at, put_entry-here t pd k 0) refl))
          refl
    | inr miss ↦
        let old = detached-entry a (==→ne k a miss) in
        rw miss (elim (Bool-cases (is_present (t pd a))) [
          | inr none_ ↦
              rw
                (walk-absent t pd a b none_, walk-absent (put_entry t pd k 0) pd a b (rw old none_))
                refl
          | inl held ↦
              rw
                (
                  walk-present t pd a b held,
                  walk-present (put_entry t pd k 0) pd a b (rw old held),
                  old,
                )
                (ap (λ row. row b)
                  (put_entry-other t pd k 0 (entry_addr (t pd a)) (λ e. s.outside a held (sym e))))
        ])
  ]
