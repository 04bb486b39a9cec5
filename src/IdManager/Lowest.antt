-- ===== src/IdManager/Lowest.antt =====
-- The invariant of the id manager: `next_free` is the lowest free id, and -1 if there is none.
use kernel_legacy.Prelude.Int.{ℤ, pos, negsuc, signed32, ltb_ℤ}
use kernel_legacy.Bitmap
use kernel_legacy.Bitmap.{bits_to_bytes, Bitmap, check, find_next_zero, find_next_zero_from}
use kernel_legacy.Bitmap.Bits.{
  IsWhole, check-set, check-unset, set-IsWhole, unset-IsWhole, clear-IsWhole,
}
use kernel_legacy.Bitmap.Search.{NextZero-down, NextZero, find_next_zero_from-NextZero}
use kernel_legacy.IdManager.{
  is_full, is_next, IdManager, create, search_from, alloc, free, reserve_id,
}
use kernel_legacy.Prelude.{
  ap, sym, ℕ, ◌+◌, ◌^◌, ◌≤◌, ◌<◌, ◌≡◌, refl, ◌∙◌, ◌≢◌, ◌⊎◌, inl, inr, Bool, true, false, ◌||◌,
  Option, some, List, arith, ltb, leb, ◌==◌, if◌then◌else◌, ltb→lt, lt→ltb, ==→eq, eq→==, ne→==,
  Bool-cases, length,
}

pub record IsValid (m : IdManager) : Type 0 where
  pub whole : IsWhole m.bitmap
  pub lowest : NextZero (check m.bitmap) m.bitmap.nb_bits 0 m.next_free

abbrev pub used : IdManager → ℕ → Bool
used m = check m.bitmap

signed32-small : (n : ℕ) → n < 2 ^ 31 → signed32 n ≡ pos n
signed32-small n h = ground arith

pick_lowest :
    (f : ℕ → Bool) (n start : ℕ) (r s : ℤ)
    → ((j : ℕ) → j < start → f j ≡ true)
    → NextZero f n start r
    → NextZero f n 0 s
    → NextZero f n 0 (if is_full r then s else r)
pick_lowest f n start (pos k) s below z zs =
    NextZero-down f n 0 start (pos k) (omega arith) (λ j p q. below j q) z
pick_lowest f n start (negsuc k) s below z zs = rw (eq→== k 0 z.0) zs

-- With every id up to `id` used, the search finds the lowest free one.
search_from-NextZero :
    {map : Bitmap} (id : ℕ)
    → IsWhole map
    → ((j : ℕ) → j < id + 1 → check map j ≡ true)
    → NextZero (check map) map.nb_bits 0 (search_from map id)
unfolding search_from
search_from-NextZero {map} id w below =
    pick_lowest (check map) map.nb_bits (id + 1) _ _ below (find_next_zero_from-NextZero (id + 1) w)
      (find_next_zero_from-NextZero 0 w)

-- `set` on the lowest free id, and the search behind it
set-search :
    {map : Bitmap} (k : ℕ)
    → IsWhole map
    → k < map.nb_bits
    → ((j : ℕ) → j < k → check map j ≡ true)
    → IsValid (record { bitmap = Bitmap.set map k; next_free = search_from (Bitmap.set map k) k })
set-search {map} k w lt below = record {
  whole = (set-IsWhole w k).0;
  lowest = search_from-NextZero k (set-IsWhole w k).0 (λ j p. taken j p);
}
  where
    taken : (j : ℕ) → j < k + 1 → check (Bitmap.set map k) j ≡ true
    taken j p = elim (Bool-cases (k == j)) [
      | inl same ↦ rw (check-set w k j, same) (lt→ltb _ _ lt)
      | inr other ↦ rw (check-set w k j, other) (below j (ground arith))
    ]

-- What an operation leaves: a valid manager of as many ids, of which `f` are used.
abbrev pub Leaves : Option IdManager → ℕ → (ℕ → Bool) → Type 0
Leaves p n f =
    (m : IdManager) × (p ≡ some m)
    × IsValid m
    × (m.bitmap.nb_bits ≡ n)
    × ((j : ℕ) → j < n → used m j ≡ f j)

-- A new manager of `n` ids is valid and no id is used, whatever bytes its memory held.
pub create-IsValid :
    (memory : List ℕ) (n : ℕ)
    → 0 < n
    → n ≤ 2 ^ 31
    → length memory ≡ bits_to_bytes n
    → Leaves (create (some memory) n) n (λ j. false)
unfolding create
create-IsValid memory n p small size =
    let w : IsWhole (record { nb_bits = n; bytes = some memory }) = record {
      d = memory;
      held = refl;
      size = size;
      small = small;
    } in
    let cleared = clear-IsWhole w in
    (
      _,
      refl,
      record {
        whole = cleared.0;
        lowest = (omega arith, rw cleared.1 p, cleared.2 0, λ j q r. absurd (omega arith));
      },
      cleared.1,
      λ j q. cleared.2 j,
    )

alloc_cases :
    (map : Bitmap) (next : ℤ)
    → IsWhole map
    → NextZero (check map) map.nb_bits 0 next
    → ((alloc (some (record { bitmap = map; next_free = next }))).0 ≡ next)
      × Leaves
          (alloc (some (record { bitmap = map; next_free = next }))).1
          map.nb_bits
          (λ j. is_next next (pos j) || check map j)
unfolding alloc
alloc_cases map (pos k) w z = (
  refl,
  (
    _,
    refl,
    set-search k w z.1 (λ j p. z.3 j (omega arith) p),
    (set-IsWhole w k).1,
    λ j p. rw (check-set w k j) (ground (arith, z.1)),
  ),
)
alloc_cases map (negsuc k) w z =
    rw (eq→== k 0 z.0)
      (ap negsuc (sym z.0), (_, refl, record { whole = w; lowest = z }, refl, λ j p. refl))

-- `id_manager_alloc` returns the lowest free id and marks it used and no other, or it returns -1
-- and changes nothing, exactly when every id is used; the manager stays valid.
pub alloc-lowest :
    {m : IdManager}
    → IsValid m
    → NextZero (used m) m.bitmap.nb_bits 0 (alloc (some m)).0
      × Leaves
          (alloc (some m)).1
          m.bitmap.nb_bits
          (λ j. is_next (alloc (some m)).0 (pos j) || used m j)
alloc-lowest {m} v =
    let (returned, left) = alloc_cases m.bitmap m.next_free v.whole v.lowest in
    (rw returned v.lowest, rw returned left)

free_cases :
    (map : Bitmap) (next : ℤ) (id : ℕ)
    → IsWhole map
    → NextZero (check map) map.nb_bits 0 next
    → id < map.nb_bits
    → Leaves
        (free (some (record { bitmap = map; next_free = next })) id)
        map.nb_bits
        (λ j. if id == j then false else check map j)
unfolding free
free_cases map next id w z lt = (
  _,
  refl,
  record {
    whole = (unset-IsWhole w id).0;
    lowest =
        rw ((unset-IsWhole w id).1, signed32-small id (omega (arith, w.small))) (lowest next z);
  },
  (unset-IsWhole w id).1,
  λ j p. check-unset w id j,
)
  where
    fresh : check (Bitmap.unset map id) id ≡ false
    fresh = rw (check-unset w id id, eq→== id id refl)

    kept : (j : ℕ) → id ≢ j → check (Bitmap.unset map id) j ≡ check map j
    kept j ne = rw (check-unset w id j, ne→== id j ne)

    lowest :
        (next : ℤ)
        → NextZero (check map) map.nb_bits 0 next
        → NextZero
            (check (Bitmap.unset map id))
            map.nb_bits
            0
            (if is_full next || ltb_ℤ (pos id) next then pos id else next)
    lowest (negsuc k) z =
        rw (eq→== k 0 z.0)
          (omega arith, lt, fresh, λ j p q. kept j (omega arith) ∙ z.1 j p (omega arith))
    lowest (pos k) z = elim (Bool-cases (ltb id k)) [
      | inl below ↦
          let lower : id < k = ltb→lt _ _ below in
          rw below (omega arith, lt, fresh, λ j p q. kept j (omega arith) ∙ z.3 j p (omega arith))
      | inr above ↦
          let higher : k ≤ id = ground arith in
          rw above (
            omega arith,
            z.1,
            rw (check-unset w id k) (ground (arith, z.2)),
            λ j p q. kept j (omega arith) ∙ z.3 j p q,
          )
    ]

-- `id_manager_free` of an id in range makes that id free and no other, and the manager stays valid.
pub free-IsValid :
    {m : IdManager} (id : ℕ)
    → IsValid m
    → id < m.bitmap.nb_bits
    → Leaves (free (some m) id) m.bitmap.nb_bits (λ j. if id == j then false else used m j)
free-IsValid {m} id v lt = free_cases m.bitmap m.next_free id v.whole v.lowest lt

-- where the reserved id is not the next free one, that stays the lowest
reserve_other :
    (map : Bitmap) (k id : ℕ)
    → IsWhole map
    → NextZero (check map) map.nb_bits 0 (pos k)
    → id < map.nb_bits
    → id ≢ k
    → IsValid (record { bitmap = Bitmap.set map id; next_free = pos k })
reserve_other map k id w z lt ne = record {
  whole = (set-IsWhole w id).0;
  lowest = (
    omega arith,
    rw ((set-IsWhole w id).1) z.1,
    rw (check-set w id k, ne→== id k ne) z.2,
    λ j p q. rw (check-set w id j) (ground (arith, z.3 j)),
  );
}

reserve_cases :
    (map : Bitmap) (next : ℤ) (id : ℕ)
    → IsWhole map
    → NextZero (check map) map.nb_bits 0 next
    → id < map.nb_bits
    → check map id ≡ false
    → ((reserve_id (some (record { bitmap = map; next_free = next })) id).0 ≡ true)
      × Leaves
          (reserve_id (some (record { bitmap = map; next_free = next })) id).1
          map.nb_bits
          (λ j. (id == j) || check map j)
unfolding reserve_id
reserve_cases map (negsuc k) id w z lt unused = cc (z.1 id (omega arith) lt)
reserve_cases map (pos k) id w z lt unused =
    let out : leb map.nb_bits id ≡ false = ground arith in
    rw (unused, out, signed32-small id (omega (arith, w.small)))
      (refl, (_, refl, valid (Bool-cases (id == k)), (set-IsWhole w id).1, marked))
  where
    marked : (j : ℕ) → j < map.nb_bits → check (Bitmap.set map id) j ≡ ((id == j) || check map j)
    marked j p = rw (check-set w id j) (ground arith)

    valid :
        (((id == k) ≡ true) ⊎ ((id == k) ≡ false))
        → IsValid (record {
          bitmap = Bitmap.set map id;
          next_free = if id == k then search_from (Bitmap.set map id) id else pos k;
        })
    valid (inl same) =
        let at : id ≡ k = ==→eq _ _ same in
        rw same (set-search id w lt (λ j p. z.3 j (omega arith) (omega arith)))
    valid (inr other) = rw other (reserve_other map k id w z lt (ground arith))

-- `id_manager_reserve_id` succeeds exactly on an id that is in range and free. It then marks that
-- id used and no other and keeps the manager valid; otherwise it changes nothing.
pub reserve_id-IsValid :
    {m : IdManager} (id : ℕ)
    → IsValid m
    → ((id < m.bitmap.nb_bits)
        × (used m id ≡ false)
        × ((reserve_id (some m) id).0 ≡ true)
        × Leaves (reserve_id (some m) id).1 m.bitmap.nb_bits (λ j. (id == j) || used m j))
      ⊎ (((m.bitmap.nb_bits ≤ id) ⊎ (used m id ≡ true))
          × (reserve_id (some m) id ≡ (false, some m)))
unfolding reserve_id
reserve_id-IsValid {m} id v = elim (Bool-cases (used m id)) [
  | inl taken ↦ inr (inr taken, rw taken refl)
  | inr unused ↦ elim (Bool-cases (leb m.bitmap.nb_bits id)) [
    | inl out ↦ inr (inl (ground arith), rw (unused, out) refl)
    | inr inside ↦
        let lt : id < m.bitmap.nb_bits = ground arith in
        let done = reserve_cases m.bitmap m.next_free id v.whole v.lowest lt unused in
        inl (lt, unused, done.0, done.1)
  ]
]
