-- ===== src/Vmm/Steps.antt =====
-- The steps of `vmm_map_page`: what they do to the walks through separate tables.
use kernel_legacy.Vmm.{Tables, entry_addr, is_present, put_entry}
use kernel_legacy.Vmm.Walk.{
  IsSeparate, walk, walk-present, walk-absent, put_entry-other, put_entry-here, put_entry-there,
  put_entry_self,
}
use kernel_legacy.Prelude.{
  ℕ, ◌≡◌, refl, sym, ap, ◌∙◌, ◌≢◌, inl, inr, true, false, ◌&&◌, ◌==◌, if◌then◌else◌, ==→eq, eq→==,
  ne→==, ==→ne, Bool-cases, update,
}

-- the same walks, through tables that are separate
unfoldable pub SameWalks : Tables → Tables → ℕ → Type 0
SameWalks t t' pd = IsSeparate t' pd × ((i j : ℕ) → walk t' pd i j ≡ walk t pd i j)

-- An entry of the directory is replaced by one for the same table.
module _ (t : Tables) (pd k e : ℕ) (s : IsSeparate t pd) (there : is_present (t pd k) ≡ true)
    (present : is_present e ≡ true) (same : entry_addr e ≡ entry_addr (t pd k)) where
  addr_of : (i : ℕ) → entry_addr (put_entry t pd k e pd i) ≡ entry_addr (t pd i)
  addr_of i = elim (Bool-cases (k == i)) [
    | inl hit ↦ let at = ==→eq k i hit in rw (← at, put_entry-here t pd k e) same
    | inr miss ↦ rw (put_entry-there t pd k e i (==→ne k i miss)) refl
  ]

  present_of : (i : ℕ) → is_present (put_entry t pd k e pd i) ≡ is_present (t pd i)
  present_of i = elim (Bool-cases (k == i)) [
    | inl hit ↦ let at = ==→eq k i hit in rw (← at, put_entry-here t pd k e) (present ∙ sym there)
    | inr miss ↦ rw (put_entry-there t pd k e i (==→ne k i miss)) refl
  ]

  pub replaced-SameWalks : SameWalks t (put_entry t pd k e) pd
  unfolding SameWalks
  replaced-SameWalks = (
    record {
      apart = λ i j hi hj eq_.
          s.apart i j (sym (present_of i) ∙ hi) (sym (present_of j) ∙ hj)
            (sym (addr_of i) ∙ eq_ ∙ addr_of j);
      outside = λ i hi eq_. s.outside i (sym (present_of i) ∙ hi) (sym (addr_of i) ∙ eq_);
    },
    λ i j. elim (Bool-cases (is_present (t pd i))) [
      | inr absent ↦
          rw (walk-absent t pd i j absent, walk-absent _ pd i j (present_of i ∙ absent)) refl
      | inl held ↦
          rw (walk-present t pd i j held, walk-present _ pd i j (present_of i ∙ held), addr_of i)
            (ap (λ row. row j)
              (put_entry-other t pd k e (entry_addr (t pd i)) (ne-sym (s.outside i held))))
    ],
  )
    where
      ne-sym : {a b : ℕ} → a ≢ b → b ≢ a
      ne-sym h e = h (sym e)

-- A cleared page becomes the table of an entry that had none.
module _ (t : Tables) (pd k e fresh : ℕ) (s : IsSeparate t pd)
    (absent : is_present (t pd k) ≡ false) (present : is_present e ≡ true)
    (names : entry_addr e ≡ fresh) (not_pd : fresh ≢ pd)
    (unused : (i : ℕ) → is_present (t pd i) ≡ true → entry_addr (t pd i) ≢ fresh) where
  unfoldable pub attached : Tables
  attached = put_entry (update t fresh (λ j. 0)) pd k e

  attached-pd : (i : ℕ) → attached pd i ≡ (if k == i then e else t pd i)
  unfolding attached
  attached-pd i = rw (eq→== pd pd refl, ne→== fresh pd not_pd) refl

  attached-fresh : (j : ℕ) → attached fresh j ≡ 0
  unfolding attached
  attached-fresh j = rw (ne→== pd fresh (λ h. not_pd (sym h)), eq→== fresh fresh refl) refl

  attached-other : (q : ℕ) → q ≢ pd → q ≢ fresh → attached q ≡ t q
  unfolding attached
  attached-other q h g = rw (ne→== pd q (λ x. h (sym x)), ne→== fresh q (λ x. g (sym x))) refl

  pub attached-hit : attached pd k ≡ e
  attached-hit = attached-pd k ∙ rw (eq→== k k refl) refl

  attached-miss : (i : ℕ) → k ≢ i → attached pd i ≡ t pd i
  attached-miss i ne = attached-pd i ∙ rw (ne→== k i ne) refl

  pub attached-SameWalks : SameWalks t attached pd
  unfolding SameWalks
  attached-SameWalks = (record { apart = apart_lem; outside = outside_lem }, walk_lem)
    where
      outside_lem : (i : ℕ) → is_present (attached pd i) ≡ true → entry_addr (attached pd i) ≢ pd
      outside_lem i h = elim (Bool-cases (k == i)) [
        | inl hit ↦ let at = ==→eq k i hit in rw (← at, attached-hit, names) not_pd
        | inr miss ↦
            let old = attached-miss i (==→ne k i miss) in rw old (s.outside i (rw old at h))
      ]

      apart_lem :
          (i j : ℕ)
          → is_present (attached pd i) ≡ true
          → is_present (attached pd j) ≡ true
          → entry_addr (attached pd i) ≡ entry_addr (attached pd j)
          → i ≡ j
      apart_lem i j hi hj eq_ = elim (Bool-cases (k == i)) [
        | inl hit ↦ elim (Bool-cases (k == j)) [
          | inl also ↦ sym (==→eq k i hit) ∙ ==→eq k j also
          | inr miss ↦
              let at = ==→eq k i hit in
              let old = attached-miss j (==→ne k j miss) in
              absurd (unused j (rw old at hj) (sym (rw (← at, attached-hit, names, old) at eq_)))
        ]
        | inr miss ↦
            let old = attached-miss i (==→ne k i miss) in
            elim (Bool-cases (k == j)) [
              | inl hit ↦
                  let at = ==→eq k j hit in
                  absurd (unused i (rw old at hi) (rw (old, ← at, attached-hit, names) at eq_))
              | inr also ↦
                  let old_j = attached-miss j (==→ne k j also) in
                  s.apart i j (rw old at hi) (rw old_j at hj) (rw (old, old_j) at eq_)
            ]
      ]

      walk_lem : (i j : ℕ) → walk attached pd i j ≡ walk t pd i j
      walk_lem i j = elim (Bool-cases (k == i)) [
        | inl hit ↦
            let at = ==→eq k i hit in
            let there : is_present (attached pd k) ≡ true = rw attached-hit present in
            rw
              (
                ← at,
                walk-absent t pd k j absent,
                walk-present attached pd k j there,
                attached-hit,
                names,
              )
              (attached-fresh j)
        | inr miss ↦
            let old = attached-miss i (==→ne k i miss) in
            elim (Bool-cases (is_present (t pd i))) [
              | inr none_ ↦
                  rw (walk-absent t pd i j none_, walk-absent attached pd i j (rw old none_)) refl
              | inl held ↦
                  rw (walk-present t pd i j held, walk-present attached pd i j (rw old held), old)
                    (ap (λ row. row j) (attached-other _ (s.outside i held) (unused i held)))
            ]
      ]

-- The entry of a page is written.
module _ (t : Tables) (pd k j w : ℕ) (s : IsSeparate t pd)
    (there : is_present (t pd k) ≡ true) where
  abbrev written : Tables
  written = put_entry t (entry_addr (t pd k)) j w

  written-pd : (a : ℕ) → put_entry t (entry_addr (t pd k)) j w pd a ≡ t pd a
  written-pd a =
      ap (λ row. row a) (put_entry-other t (entry_addr (t pd k)) j w pd (s.outside k there))

  pub written-IsSeparate : IsSeparate (put_entry t (entry_addr (t pd k)) j w) pd
  written-IsSeparate = record {
    apart = λ a b ha hb e.
        s.apart a b (rw (written-pd a) at ha) (rw (written-pd b) at hb)
          (rw (written-pd a, written-pd b) at e);
    outside = λ a ha. rw (written-pd a) (s.outside a (rw (written-pd a) at ha));
  }

  walk-other_table :
      (a b : ℕ) → k ≢ a → walk (put_entry t (entry_addr (t pd k)) j w) pd a b ≡ walk t pd a b
  walk-other_table a b ne = elim (Bool-cases (is_present (t pd a))) [
    | inr none_ ↦
        rw (walk-absent t pd a b none_, walk-absent written pd a b (rw (written-pd a) none_)) refl
    | inl held ↦
        rw
          (
            walk-present t pd a b held,
            walk-present written pd a b (rw (written-pd a) held),
            written-pd a,
          )
          (ap (λ row. row b)
            (put_entry-other t (entry_addr (t pd k)) j w (entry_addr (t pd a))
              (λ e. ne (s.apart k a there held e))))
  ]

  walk-same_table :
      (b : ℕ)
      → walk (put_entry t (entry_addr (t pd k)) j w) pd k b ≡ (if j == b then w else walk t pd k b)
  walk-same_table b =
      rw
        (
          walk-present t pd k b there,
          walk-present written pd k b (rw (written-pd k) there),
          written-pd k,
        )
        (put_entry_self t (entry_addr (t pd k)) j w b)

  pub walk-written :
      (a b : ℕ)
      → walk (put_entry t (entry_addr (t pd k)) j w) pd a b
        ≡ (if (k == a) && (j == b) then w else walk t pd a b)
  walk-written a b = elim (Bool-cases (k == a)) [
    | inl hit ↦ let at = ==→eq k a hit in rw (hit, ← at) (walk-same_table b)
    | inr miss ↦ rw miss (walk-other_table a b (==→ne k a miss))
  ]
