-- ===== src/Buddy/Orders.antt =====
-- `size_to_order` finds the least order.
use kernel_legacy.Vma.{page_count}
use kernel_legacy.Buddy.{bad_order, order_from, size_to_order}
use kernel_legacy.Prelude.{
  ℕ, zero, suc, ◌+◌, ◌/◌, ◌^◌, ◌≤◌, ◌<◌, ◌≡◌, refl, ◌⊎◌, inl, inr, arith, leb, ◌==◌, ==→eq,
  Bool-cases,
}

-- The least order, from `low` on and below `BAD_ORDER`, whose blocks hold so many pages, or
-- `BAD_ORDER` where none does.
abbrev pub IsLeast : (total low order : ℕ) → Type 0
IsLeast total low order =
    (((order < bad_order) × (total ≤ 2 ^ order)) ⊎ (order ≡ bad_order))
    × ((j : ℕ) → low ≤ j → j < order → 2 ^ j < total)

order_from-IsLeast :
    (total low n : ℕ) → low + n ≡ bad_order → IsLeast total low (order_from total low n)
unfolding order_from
order_from-IsLeast total low zero e = (inr refl, λ j ge lt. absurd (omega arith))
order_from-IsLeast total low (suc n) e = elim (Bool-cases (leb total (2 ^ low))) [
  | inl fits ↦ rw fits (inl (omega arith, ground arith), λ j ge lt. absurd (omega arith))
  | inr small ↦
      let (ends, below) = order_from-IsLeast total (low + 1) n (omega arith) in
      rw small (
        ends,
        λ j ge lt. elim (Bool-cases (j == low)) [
          | inl same ↦ rw (==→eq j low same) (ground arith)
          | inr other ↦ below j (ground arith) lt
        ],
      )
]

-- Where the rounding up to whole pages does not wrap in 32 bits, `size_to_order` returns the least order
-- up to 10 whose blocks hold the pages of that size, and `BAD_ORDER` exactly where no such block does.
pub size_to_order-IsLeast :
    (size : ℕ) → size ≤ 0xFFFFF000 → IsLeast ((size + 4095) / 4096) 0 (size_to_order size)
unfolding size_to_order
size_to_order-IsLeast size le =
    let same : page_count size ≡ (size + 4095) / 4096 = omega (arith, le) in
    rw (← same) (order_from-IsLeast (page_count size) 0 11 refl)
