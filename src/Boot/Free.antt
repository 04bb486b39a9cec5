-- ===== src/Boot/Free.antt =====
-- What the memory map says is free becomes free, but for what is reserved.
use kernel_legacy.Boot.{
  Region, max_regions, boot_allocator_range_overlaps, boot_allocator_add_region,
}
use kernel_legacy.Boot.Covers.{covers-append_one, covers, Forward, Ascending}
use kernel_legacy.Boot.Gaps.{add_gap, free_from, boot_allocator_free_handler}
use kernel_legacy.Prelude.{
  ℕ, ◌≤◌, ◌<◌, ◌≡◌, refl, ap, ◌∙◌, inl, inr, Bool, true, false, not, ◌&&◌, ◌||◌, some, List, [],
  ◌∷◌, ◌++◌, arith, ltb, leb, ◌==◌, ltb→lt, lt→ltb, Bool-cases, Option-cases, length,
}

-- before the first of the regions there is none
covers-below :
    (r : Region) (l : List Region) (a : ℕ)
    → Ascending (r ∷ l)
    → a < r.start
    → covers (r ∷ l) a ≡ false
covers-below r [] a s lt = ground arith
covers-below r (x ∷ l) a (le, s) lt =
    let later = covers-below x l a s (omega arith) in ground (arith, later)

-- a part of a range that touches no region touches none
overlaps-part :
    (l : List Region) (start end_ start' end' : ℕ)
    → start ≤ start'
    → end' ≤ end_
    → boot_allocator_range_overlaps start end_ l ≡ false
    → boot_allocator_range_overlaps start' end' l ≡ false
unfolding boot_allocator_range_overlaps
overlaps-part [] start end_ start' end' h k e = refl
overlaps-part (r ∷ l) start end_ start' end' h k e =
    let later = overlaps-part l start end_ start' end' h k in ground (arith, e, later)

overlaps-append_one :
    (l : List Region) (start end_ : ℕ) (r : Region)
    → boot_allocator_range_overlaps start end_ l ≡ false
    → r.end_ ≤ start
    → boot_allocator_range_overlaps start end_ (l ++ (r ∷ [])) ≡ false
unfolding boot_allocator_range_overlaps
overlaps-append_one [] start end_ r e le = ground arith
overlaps-append_one (x ∷ l) start end_ r e le =
    let later = overlaps-append_one l start end_ r in ground (arith, e, later)

-- what an added gap covers, and that it touches no range behind it
add_gap_lem :
    (start end_ behind : ℕ) (free more : List Region)
    → boot_allocator_range_overlaps start behind free ≡ false
    → end_ ≤ behind
    → add_gap start end_ free ≡ some more
    → ((a : ℕ) → covers more a ≡ (covers free a || (leb start a && ltb a end_)))
      × ((k : ℕ) → start ≤ k → end_ ≤ k → boot_allocator_range_overlaps k behind more ≡ false)
unfolding boot_allocator_add_region
add_gap_lem start end_ behind free more none_ le e = elim (Bool-cases (ltb start end_)) [
  | inr empty ↦
      let same : free ≡ more = cc (rw empty at e) in
      rw (← same) (
        λ a. ground arith,
        λ k ge ge'. overlaps-part free start behind k behind ge (omega arith) none_,
      )
  | inl some_ ↦
      let clear = overlaps-part free start behind start end_ (omega arith) le none_ in
      let forward : (ltb end_ start && not (end_ == 0)) ≡ false = ground arith in
      let apart : (start == end_) ≡ false = ground arith in
      let run = rw (some_, clear) at e in
      elim (Bool-cases (leb max_regions (length free))) [
        | inl full ↦ absurd (cc (rw (boot_allocator_add_region, forward, apart, full) at run))
        | inr room ↦
            let g : Region = record { start = start; end_ = end_ } in
            let same : (free ++ (g ∷ [])) ≡ more =
              cc (rw (boot_allocator_add_region, forward, apart, room) at run) in
            rw (← same) (
              λ a. covers-append_one free g a,
              λ k ge ge'.
                  overlaps-append_one free k behind g
                    (overlaps-part free start behind k behind ge (omega arith) none_) ge',
            )
      ]
]

-- the addresses of a range that no region covers, where the first region skips none of them
skips :
    (cur end_ s e a : ℕ) (x : Bool)
    → (leb e cur || leb end_ s) ≡ true
    → (leb cur a && ltb a end_ && not x)
      ≡ (leb cur a && ltb a end_ && not ((leb s a && ltb a e) || x))
skips cur end_ s e a true h = ground arith
skips cur end_ s e a false h = ground arith

-- where the first region reaches the end of the range
reaches :
    (cur end_ s e a : ℕ) (f x : Bool)
    → cur < e
    → s < end_
    → end_ ≤ e
    → (a < s → x ≡ false)
    → (f || (leb cur a && ltb a s))
      ≡ (f || (leb cur a && ltb a end_ && not ((leb s a && ltb a e) || x)))
reaches cur end_ s e a true x h k r below = refl
reaches cur end_ s e a false x h k r below = elim (Bool-cases (ltb a s)) [
  | inl lt ↦ let no = below (ltb→lt a s lt) in rw no (ground arith)
  | inr ge ↦ ground arith
]

-- where the range goes on behind the first region
passes :
    (cur end_ s e a : ℕ) (f x : Bool)
    → cur < e
    → s ≤ e
    → e < end_
    → (a < s → x ≡ false)
    → ((f || (leb cur a && ltb a s)) || (leb e a && ltb a end_ && not x))
      ≡ (f || (leb cur a && ltb a end_ && not ((leb s a && ltb a e) || x)))
passes cur end_ s e a true x h k r below = refl
passes cur end_ s e a false x h k r below = elim (Bool-cases (ltb a s)) [
  | inl lt ↦ let no = below (ltb→lt a s lt) in rw no (ground arith)
  | inr ge ↦ elim (Bool-cases x) [
    | inl covered ↦ rw covered (ground arith)
    | inr open_ ↦ rw open_ (ground arith)
  ]
]

free_from_lem :
    (rs : List Region) (cur end_ : ℕ) (free more : List Region)
    → Ascending rs
    → Forward rs
    → boot_allocator_range_overlaps cur end_ free ≡ false
    → free_from rs cur end_ free ≡ some more
    → (a : ℕ) → covers more a ≡ (covers free a || (leb cur a && ltb a end_ && not (covers rs a)))
unfolding free_from
free_from_lem [] cur end_ free more s f clear e a =
    let (one, _) = add_gap_lem cur end_ end_ free more clear (omega arith) e in
    one a ∙ ap (λ b. covers free a || b) (ground arith)
free_from_lem (r ∷ rest) cur end_ free more s (fr, f) clear e a =
    elim (Bool-cases (leb r.end_ cur || leb end_ r.start)) [
      | inl skip ↦
          free_from_lem rest cur end_ free more (tail rest s) f clear (rw skip at e) a
          ∙ ap (λ b. covers free a || b) (skips cur end_ r.start r.end_ a (covers rest a) skip)
      | inr gap ↦
          let lt : cur < r.end_ = ground arith in
          let lt' : r.start < end_ = ground arith in
          elim (Option-cases (add_gap cur r.start free)) [
            | inl stop ↦ absurd (cc (rw (gap, stop) at e))
            | inr (mid, found) ↦
                let (one, behind) =
                  add_gap_lem cur r.start end_ free mid clear (omega arith) found in
                let ahead : ltb cur r.end_ ≡ true = lt→ltb cur r.end_ lt in
                let run = rw (gap, found, ahead) at e in
                elim (Bool-cases (leb end_ r.end_)) [
                  | inl stop ↦
                      let same : mid ≡ more = cc (rw stop at run) in
                      rw (← same, one a)
                        (reaches cur end_ r.start r.end_ a (covers free a) (covers rest a) lt lt'
                          (ground arith) (below rest s))
                  | inr on ↦
                      free_from_lem rest r.end_ end_ mid more (tail rest s) f
                        (behind r.end_ (omega arith) fr) (rw on at run) a
                      ∙ rw (one a) (
                          passes cur end_ r.start r.end_ a (covers free a) (covers rest a) lt fr
                            (ground arith) (below rest s))
                ]
          ]
    ]
  where
    tail : (rest : List Region) → Ascending (r ∷ rest) → Ascending rest
    tail [] s = tt
    tail (x ∷ rest) s = s.1

    below : (rest : List Region) → Ascending (r ∷ rest) → a < r.start → covers rest a ≡ false
    below rest s lt = let none_ = covers-below r rest a s lt in ground (arith, none_)

-- Where the reserved regions are in ascending order, none of them ends before it starts, and the
-- range touches no free region, what `boot_allocator_free_handler` leaves free is what was free and
-- the addresses of the range that are not reserved, no more and no less.
pub boot_allocator_free_handler-covers :
    (reserved free more : List Region) (start end_ : ℕ)
    → Ascending reserved
    → Forward reserved
    → boot_allocator_range_overlaps start end_ free ≡ false
    → boot_allocator_free_handler reserved free start end_ ≡ some more
    → (a : ℕ)
    → covers more a ≡ (covers free a || (leb start a && ltb a end_ && not (covers reserved a)))
unfolding boot_allocator_free_handler
boot_allocator_free_handler-covers reserved free more start end_ =
    free_from_lem reserved start end_ free more
