-- ===== src/Bitmap/Search.antt =====
-- `bitmap_find_next_zero_from` finds the first zero bit at or after a position.
use kernel_legacy.Bits.{bit, bit-not, bit-of-zero}
use kernel_legacy.Prelude.Int.{ℤ, pos, negsuc, signed32}
use kernel_legacy.Bitmap.{
  Bitmap, bits_to_bytes, read_bit, check, scan_bits, scan_bytes, find_next_zero_from,
}
use kernel_legacy.Bitmap.Bits.{IsWhole}
use kernel_legacy.Prelude.{
  ◌∙◌, ℕ, zero, suc, ◌+◌, ◌-◌, ◌*◌, ◌/◌, ◌%◌, ◌^◌, ◌≤◌, ◌<◌, ◌≡◌, refl, ◌∙◌, inl, inr, Bool, true,
  false, Option, none, some, List, arith, ltb, leb, ◌==◌, if◌then◌else◌, ltb→lt, ==→eq, eq→==,
  Bool-cases, get_or,
}

-- What a search from `start` on must return: the first index below `n` at which `used` is false,
-- or -1 if `used` holds at all of them.
abbrev pub NextZero : (ℕ → Bool) → (n start : ℕ) → ℤ → Type 0
NextZero used n start (pos k) =
    (start ≤ k) × (k < n) × (used k ≡ false) × ((j : ℕ) → start ≤ j → j < k → used j ≡ true)
NextZero used n start (negsuc k) = (k ≡ 0) × ((j : ℕ) → start ≤ j → j < n → used j ≡ true)

abbrev FirstBit : ℕ → ℕ → Option ℕ → Type 0
FirstBit x j none = (k : ℕ) → j ≤ k → k < 8 → bit x k ≡ 1
FirstBit x j (some r) = (j ≤ r) × (r < 8) × (bit x r ≡ 0) × ((k : ℕ) → j ≤ k → k < r → bit x k ≡ 1)

FirstBit-down : (x j : ℕ) (o : Option ℕ) → bit x j ≡ 1 → FirstBit x (j + 1) o → FirstBit x j o
FirstBit-down x j none e h = λ k p q. elim (Bool-cases (j == k)) [
  | inl same ↦ let at : j ≡ k = ==→eq _ _ same in rw (← at) e
  | inr other ↦ h k (ground arith) q
]
FirstBit-down x j (some r) e h = (
  omega arith,
  h.1,
  h.2,
  λ k p q. elim (Bool-cases (j == k)) [
    | inl same ↦ let at : j ≡ k = ==→eq _ _ same in rw (← at) e
    | inr other ↦ h.3 k (ground arith) q
  ],
)

scan_bits-FirstBit : (x j n : ℕ) → j + n ≡ 8 → FirstBit x j (scan_bits x j n)
unfolding scan_bits
scan_bits-FirstBit x j zero e = λ k p q. absurd (omega arith)
scan_bits-FirstBit x j (suc n) e = elim (Bool-cases (bit x j == 1)) [
  | inl one ↦ rw one (
      FirstBit-down x j (scan_bits x (j + 1) n) (==→eq _ _ one)
        (scan_bits-FirstBit x (j + 1) n (omega arith)))
  | inr clear ↦ rw clear (omega arith, omega arith, ground arith, λ k p q. absurd (omega arith))
]

all_ones : (k : ℕ) → k < 8 → bit 255 k ≡ 1
all_ones k h = omega (arith, bit-not 8 0 k (omega arith) h, bit-of-zero k)

-- the bit array as a Boolean family
abbrev used_in : List ℕ → ℕ → Bool
used_in d i = read_bit d i == 1

pub NextZero-down :
    (used : ℕ → Bool) (n start mid : ℕ) (r : ℤ)
    → start ≤ mid
    → ((j : ℕ) → start ≤ j → j < mid → used j ≡ true)
    → NextZero used n mid r
    → NextZero used n start r
NextZero-down used n start mid (pos k) le h z = (
  omega arith,
  z.1,
  z.2,
  λ j p q. elim (Bool-cases (ltb j mid)) [
    | inl low ↦ h j p (ltb→lt _ _ low)
    | inr high ↦ z.3 j (ground arith) q
  ],
)
NextZero-down used n start mid (negsuc k) le h z = (
  z.0,
  λ j p q. elim (Bool-cases (ltb j mid)) [
    | inl low ↦ h j p (ltb→lt _ _ low)
    | inr high ↦ z.1 j (ground arith) q
  ],
)

-- one byte of the array, read from bit `o` on
byte_used :
    (d : List ℕ) (i o : ℕ) (top : ℕ)
    → top ≤ 8
    → ((k : ℕ) → o ≤ k → k < top → bit (get_or d i 0) k ≡ 1)
    → (j : ℕ) → i * 8 + o ≤ j
    → j < i * 8 + top
    → used_in d j ≡ true
byte_used d i o top t h j p q =
    let at : j / 8 ≡ i = omega arith in rw at (eq→== _ _ (h (j % 8) (omega arith) (omega arith)))

module _ (nb : ℕ) (d : List ℕ) (small : nb ≤ 2 ^ 31) (b o : ℕ) (o_lt : o < 8) where
  abbrev from : ℕ → ℕ
  from i = if i == b then o else 0

  -- the search once the loop has reached byte `i`, given the rest of the loop
  byte-NextZero :
      (i f : ℕ) (rest : ℤ) (hit : Option ℕ)
      → FirstBit (get_or d i 0) f hit
      → NextZero (used_in d) nb (i * 8 + 8) rest
      → f < 8
      → NextZero (used_in d) nb (i * 8 + f) (elim hit [
        | none ↦ rest
        | some j ↦ if leb nb (i * 8 + j) then negsuc 0 else signed32 (i * 8 + j)
      ])
  byte-NextZero i f rest none h z q =
      NextZero-down (used_in d) nb (i * 8 + f) (i * 8 + 8) rest (omega arith)
        (byte_used d i f 8 (omega arith) h) z
  byte-NextZero i f rest (some r) h z q = elim (Bool-cases (leb nb (i * 8 + r))) [
    | inl past ↦ rw past (refl, λ j p t. byte_used d i f r (omega arith) h.3 j p (ground arith))
    | inr inside ↦
        let lt : ltb (i * 8 + r) (2 ^ 31) ≡ true = ground arith in
        let at : (i * 8 + r) / 8 ≡ i = omega (arith, h.1) in
        let bit_at : (i * 8 + r) % 8 ≡ r = omega (arith, h.1) in
        rw (inside, lt)
          (
            omega (arith, h.0),
            ground arith,
            rw (at, bit_at, h.2) refl,
            byte_used d i f r (omega (arith, h.1)) h.3,
          )
  ]

  from-lt : (i : ℕ) → from i < 8
  from-lt i = ground arith

  scan_bytes-NextZero :
      (i n : ℕ)
      → b ≤ i
      → i + n ≡ bits_to_bytes nb
      → NextZero (used_in d) nb (i * 8 + from i) (scan_bytes nb d b o i n)
  unfolding scan_bytes
  scan_bytes-NextZero i zero p e = (refl, λ j q r. absurd (ground arith))
  scan_bytes-NextZero i (suc n) p e =
      let apart : (i + 1 == b) ≡ false = ground arith in
      let start : (i + 1) * 8 + from (i + 1) ≡ i * 8 + 8 = rw apart (omega arith) in
      let rest = rw start at (scan_bytes-NextZero (i + 1) n (omega arith) (omega arith)) in
      elim (Bool-cases (get_or d i 0 == 255)) [
        | inl full ↦ rw full (
            NextZero-down (used_in d) nb (i * 8 + from i) (i * 8 + 8) _ (omega (arith, from-lt i))
              (byte_used d i (from i) 8 (omega arith) (λ k q r. rw (==→eq _ _ full) (all_ones k r)))
              rest)
        | inr part ↦ rw part (
            byte-NextZero i (from i) _ _
              (scan_bits-FirstBit (get_or d i 0) (from i) (8 - from i) (omega (arith, from-lt i)))
              rest (from-lt i))
      ]

NextZero-congr :
    (f g : ℕ → Bool) (n start : ℕ) (r : ℤ)
    → ((j : ℕ) → j < n → g j ≡ f j)
    → NextZero f n start r
    → NextZero g n start r
NextZero-congr f g n start (pos k) e z =
    (z.0, z.1, e k z.1 ∙ z.2, λ j p q. e j (omega (arith, z.1)) ∙ z.3 j p q)
NextZero-congr f g n start (negsuc k) e z = (z.0, λ j p q. e j q ∙ z.1 j p q)

-- `bitmap_find_next_zero_from` returns the first index at or after `start` whose bit is 0, and -1
-- exactly when there is none below `nb_bits`.
pub find_next_zero_from-NextZero :
    {m : Bitmap} (start : ℕ)
    → IsWhole m
    → NextZero (check m) m.nb_bits start (find_next_zero_from m.nb_bits m.bytes start)
unfolding find_next_zero_from check
find_next_zero_from-NextZero {m} start w = rw w.held (elim (Bool-cases (leb m.nb_bits start)) [
  | inl past ↦ rw past (refl, λ j p q. absurd (ground arith))
  | inr inside ↦
      let at : start / 8 * 8 + start % 8 ≡ start = omega arith in
      let here : (start / 8 == start / 8) ≡ true = eq→== _ _ refl in
      let run =
        scan_bytes-NextZero m.nb_bits w.d w.small (start / 8) (start % 8) (omega arith) (start / 8)
          (bits_to_bytes m.nb_bits - start / 8) (omega arith) (ground (arith, w.small)) in
      rw inside (
        NextZero-congr (used_in w.d) _ m.nb_bits start _ (λ j p. ground arith)
          (rw (here, at) at run))
])
