-- ===== src/Bitmap/Bits.antt =====
-- What `bitmap_set`, `bitmap_unset` and `bitmap_clear` do to each bit that `bitmap_check` reads.
use kernel_legacy.Bits.{bit, bit-set_bit, bit-clear_bit, set_bit, clear_bit, bit-of-zero}
use kernel_legacy.Bitmap.{Bitmap, bits_to_bytes, read_bit, check, set, unset, bzero, clear}
use kernel_legacy.Prelude.{
  ℕ, zero, suc, ◌/◌, ◌%◌, ◌^◌, ◌≤◌, ◌<◌, ◌≡◌, refl, ap, ◌≢◌, inl, inr, false, some, List, [], ◌∷◌,
  arith, ltb, leb, ◌==◌, if◌then◌else◌, ==→eq, Bool-cases, length, get_or, length-set,
  get_or-set_self, get_or-set_ne,
}
use kernel_legacy.Prelude.{set as set_at}

-- the byte array holds all the bits, and an index fits an `ssize_t`
pub record IsWhole (m : Bitmap) : Type 0 where
  pub d : List ℕ
  pub held : m.bytes ≡ some d
  pub size : length d ≡ bits_to_bytes m.nb_bits
  pub small : m.nb_bits ≤ 2 ^ 31

-- Writing byte `i / 8` with one bit changed changes that bit of the array.
read-write :
    (d : List ℕ) (i j x v : ℕ)
    → i / 8 < length d
    → ((k : ℕ) → k < 8 → bit x k ≡ (if i % 8 == k then v else bit (get_or d (i / 8) 0) k))
    → read_bit (set_at d (i / 8) x) j ≡ (if i == j then v else read_bit d j)
read-write d i j x v h e = elim (Bool-cases (i / 8 == j / 8)) [
  | inl same ↦
      let at : i / 8 ≡ j / 8 = ==→eq _ _ same in
      rw (← at, get_or-set_self d (i / 8) x 0 h, e (j % 8) (omega arith)) (ground arith)
  | inr other ↦
      let apart : i / 8 ≢ j / 8 = ground arith in
      rw (get_or-set_ne d (i / 8) (j / 8) x 0 apart) (ground arith)
]

check-some :
    (m : Bitmap) (d : List ℕ) (j : ℕ)
    → m.bytes ≡ some d
    → check m j ≡ (if leb m.nb_bits j then false else read_bit d j == 1)
unfolding check
check-some m d j e = rw e

set-some :
    (m : Bitmap) (d : List ℕ) (i : ℕ)
    → m.bytes ≡ some d
    → i < m.nb_bits
    → set m i ≡ record m { bytes = some (set_at d (i / 8) (set_bit (get_or d (i / 8) 0) (i % 8))) }
unfolding set
set-some m d i e h = rw e (ground arith)

unset-some :
    (m : Bitmap) (d : List ℕ) (i : ℕ)
    → m.bytes ≡ some d
    → i < m.nb_bits
    → unset m i
      ≡ record m { bytes = some (set_at d (i / 8) (clear_bit 8 (get_or d (i / 8) 0) (i % 8))) }
unfolding unset
unset-some m d i e h = rw e (ground arith)

out_of_range : {m : Bitmap} (i : ℕ) → IsWhole m → m.nb_bits ≤ i → (set m i ≡ m) × (unset m i ≡ m)
unfolding set unset
out_of_range i w h = (rw w.held (ground arith), rw w.held (ground arith))

module _ {m : Bitmap} (w : IsWhole m) (i : ℕ) where
  open w use {d, held, size, small}

  nb_bits-set : (set m i).nb_bits ≡ m.nb_bits
  unfolding set
  nb_bits-set = rw held (ground arith)

  in_bytes : i < m.nb_bits → i / 8 < length d
  in_bytes h = omega arith

  -- `bitmap_set` makes the one bit 1, if it is in range.
  pub check-set : (j : ℕ) → check (set m i) j ≡ (if i == j then ltb i m.nb_bits else check m j)
  check-set j = elim (Bool-cases (ltb i m.nb_bits)) [
    | inl within ↦
        let lt : i < m.nb_bits = ground arith in
        let x = set_bit (get_or d (i / 8) 0) (i % 8) in
        rw (set-some m d i held lt, check-some m d j held)
          (ground (
            arith,
            check-some (record m { bytes = some (set_at d (i / 8) x) }) _ j refl,
            read-write d i j x 1 (in_bytes lt) (λ k h. bit-set_bit (get_or d (i / 8) 0) (i % 8) k),
          ))
    | inr out ↦ rw ((out_of_range i w (ground arith)).0, check-some m d j held) (ground arith)
  ]

  -- `bitmap_unset` makes the one bit 0.
  pub check-unset : (j : ℕ) → check (unset m i) j ≡ (if i == j then false else check m j)
  check-unset j = elim (Bool-cases (ltb i m.nb_bits)) [
    | inl within ↦
        let lt : i < m.nb_bits = ground arith in
        let x = clear_bit 8 (get_or d (i / 8) 0) (i % 8) in
        rw (unset-some m d i held lt, check-some m d j held)
          (ground (
            arith,
            check-some (record m { bytes = some (set_at d (i / 8) x) }) _ j refl,
            read-write d i j x 0 (in_bytes lt)
                (λ k h. bit-clear_bit 8 (get_or d (i / 8) 0) (i % 8) k (omega arith) h),
          ))
    | inr out ↦ rw ((out_of_range i w (ground arith)).1, check-some m d j held) (ground arith)
  ]

  pub set-IsWhole : IsWhole (set m i) × ((set m i).nb_bits ≡ m.nb_bits)
  set-IsWhole = elim (Bool-cases (ltb i m.nb_bits)) [
    | inl within ↦
        rw (set-some m d i held (ground arith))
          (record { d = _; held = refl; size = rw (length-set d) size; small = small }, refl)
    | inr out ↦ rw ((out_of_range i w (ground arith)).0) (w, refl)
  ]

  pub unset-IsWhole : IsWhole (unset m i) × ((unset m i).nb_bits ≡ m.nb_bits)
  unset-IsWhole = elim (Bool-cases (ltb i m.nb_bits)) [
    | inl within ↦
        rw (unset-some m d i held (ground arith))
          (record { d = _; held = refl; size = rw (length-set d) size; small = small }, refl)
    | inr out ↦ rw ((out_of_range i w (ground arith)).1) (w, refl)
  ]

read-bzero : (n i : ℕ) (d : List ℕ) → i / 8 < n → read_bit (bzero n d) i ≡ 0
read-bzero n i d h = rw (zero_at n (i / 8) d h) (bit-of-zero (i % 8))
  where
    zero_at : (n i : ℕ) (d : List ℕ) → i < n → get_or (bzero n d) i 0 ≡ 0
    zero_at zero i d h = absurd (omega arith)
    zero_at (suc n) i [] h = refl
    zero_at (suc n) zero (x ∷ d) h = refl
    zero_at (suc n) (suc i) (x ∷ d) h = zero_at n i d (omega arith)

length-bzero : (n : ℕ) (d : List ℕ) → length (bzero n d) ≡ length d
length-bzero zero d = refl
length-bzero (suc n) [] = refl
length-bzero (suc n) (x ∷ d) = ap suc (length-bzero n d)

-- `bitmap_clear` leaves every bit 0.
pub clear-IsWhole :
    {m : Bitmap}
    → IsWhole m
    → IsWhole (clear m) × ((clear m).nb_bits ≡ m.nb_bits) × ((j : ℕ) → check (clear m) j ≡ false)
unfolding clear check
clear-IsWhole {m} w = rw w.held (
  record { d = _; held = refl; size = rw (length-bzero _ w.d) w.size; small = w.small },
  refl,
  λ j. ground (arith, read-bzero (bits_to_bytes m.nb_bits) j w.d, w.small),
)
