-- ===== src/Bitmap.antt =====
-- lib/data_structs/bitmap: a bit array in bytes, with a search for the next zero bit.
-- A `Bitmap` is what a non-NULL `t_bitmap *` points at; `bytes` is `none` where its `data` is NULL.
pub mod Bits
pub mod Search
use kernel_legacy.Bits.{bit, set_bit, clear_bit}
use kernel_legacy.Prelude.Int.{ℤ, negsuc, signed32}
use kernel_legacy.Prelude.{
  ℕ, zero, suc, ◌+◌, ◌-◌, ◌*◌, ◌/◌, ◌%◌, ◌^◌, ◌≤◌, ◌<◌, min, max, bit_and, bit_or, ◌≡◌, refl, sym,
  ap, ap₂, ◌∙◌, fun_ext, ◌≢◌, ◌↔◌, ◌⊎◌, inl, inr, Bool, true, false, not, ◌&&◌, ◌||◌, Option, none,
  some, List, [], ◌∷◌, ◌++◌, map, arith, ltb, leb, ◌==◌, if◌then◌else◌, ltb→lt, lt→ltb, ==→eq,
  eq→==, ne→==, Bool-cases, Option-cases, length, get_or, replicate, length-append, length-set,
  length-replicate, get_or-set_self, get_or-set_ne, elem, remove, elem-append, elem-remove,
  remove_of_not_elem,
}
use kernel_legacy.Prelude.{set as set_at}

pub record Bitmap : Type 0 where
  pub nb_bits : ℕ
  pub bytes : Option (List ℕ)

-- `BITS_TO_BYTES`, that is `DIV_ROUND_UP(n, 8)` in 32 bits
abbrev pub bits_to_bytes : ℕ → ℕ
bits_to_bytes n = (n + 8 - 1) % 2 ^ 32 / 8

abbrev pub read_bit : List ℕ → ℕ → ℕ
read_bit d i = bit (get_or d (i / 8) 0) (i % 8)

unfoldable pub check : Bitmap → ℕ → Bool
check map index = elim map.bytes [
  | none ↦ false
  | some d ↦ if leb map.nb_bits index then false else read_bit d index == 1
]

unfoldable pub set : Bitmap → ℕ → Bitmap
set map index = elim map.bytes [
  | none ↦ map
  | some d ↦ if leb map.nb_bits index then map else record map {
    bytes = some (set_at d (index / 8) (set_bit (get_or d (index / 8) 0) (index % 8)));
  }
]

unfoldable pub unset : Bitmap → ℕ → Bitmap
unset map index = elim map.bytes [
  | none ↦ map
  | some d ↦ if leb map.nb_bits index then map else record map {
    bytes = some (set_at d (index / 8) (clear_bit 8 (get_or d (index / 8) 0) (index % 8)));
  }
]

-- `ft_bzero` on the first `n` bytes
abbrev pub bzero : ℕ → List ℕ → List ℕ
bzero zero d = d
bzero (suc n) [] = []
bzero (suc n) (_ ∷ d) = 0 ∷ bzero n d

unfoldable pub clear : Bitmap → Bitmap
clear map = elim map.bytes [
  | none ↦ map
  | some d ↦ record map { bytes = some (bzero (bits_to_bytes map.nb_bits) d) }
]

-- the inner loop: the first zero bit of a byte among the `n` from `j` on
unfoldable pub scan_bits : ℕ → ℕ → ℕ → Option ℕ
scan_bits x j zero = none
scan_bits x j (suc n) = let rest = scan_bits x (j + 1) n in if bit x j == 1 then rest else some j

-- the outer loop, over `n` bytes from index `i` on
unfoldable pub scan_bytes : (nb_bits : ℕ) → List ℕ → (byte_start bit_offset i n : ℕ) → ℤ
unfolding scan_bits
scan_bytes nb_bits d byte_start bit_offset i zero = negsuc 0
scan_bytes nb_bits d byte_start bit_offset i (suc n) =
    let rest = scan_bytes nb_bits d byte_start bit_offset (i + 1) n in
    let offset = if i == byte_start then bit_offset else 0 in
    if get_or d i 0 == 255 then rest else elim (scan_bits (get_or d i 0) offset (8 - offset)) [
      | none ↦ rest
      | some j ↦ if leb nb_bits (i * 8 + j) then negsuc 0 else signed32 (i * 8 + j)
    ]

unfoldable pub find_next_zero_from : ℕ → Option (List ℕ) → ℕ → ℤ
unfolding scan_bytes
find_next_zero_from nb_bits none bit_start = negsuc 0
find_next_zero_from nb_bits (some d) bit_start =
    if leb nb_bits bit_start
    then negsuc 0
    else scan_bytes nb_bits d (bit_start / 8) (bit_start % 8) (bit_start / 8)
        (bits_to_bytes nb_bits - bit_start / 8)

unfoldable pub find_next_zero : ℕ → Option (List ℕ) → ℤ
unfolding find_next_zero_from
find_next_zero nb_bits d = find_next_zero_from nb_bits d 0
