-- ===== src/Buddy/Tests.antt =====
-- Runs of the allocator, and its theorems where one block of 4 pages is free.
use kernel_legacy.Buddy.{Buddy, panic, double_free, size_to_order, order_from, buddy_alloc_pages}
use kernel_legacy.Buddy.Free.{buddy_free_block}
use kernel_legacy.Buddy.Orders.{IsLeast, size_to_order-IsLeast}
use kernel_legacy.Buddy.Frames.{IsCounted}
use kernel_legacy.Buddy.Alloc.{IsTaken, buddy_alloc_pages-IsTaken}
use kernel_legacy.Prelude.{
  ℕ, ◌+◌, ◌-◌, ◌/◌, ◌^◌, ◌≡◌, refl, inl, inr, false, ◌&&◌, [], ◌∷◌, arith, ◌==◌, if◌then◌else◌,
  Bool-cases, elem,
}

-- free pages of the zone DMA; the block of order 2 at page 8 is on its list
abbrev zone_of_one : Buddy
zone_of_one = record {
  page = λ f. record { flags = 11; private_data = 2 };
  free_list = λ z o. if (z == 1) && (o == 2) then 8 ∷ [] else [];
  nr_free = λ z o. if (z == 1) && (o == 2) then 1 else 0;
}

zone_of_one-IsCounted : IsCounted zone_of_one
zone_of_one-IsCounted z o = elim (Bool-cases ((z == 1) && (o == 2))) [
  | inl one ↦ rw one refl
  | inr none_here ↦ rw none_here refl
]

zone_of_one-no_null : (o : ℕ) → elem 0 (zone_of_one.free_list 1 o) ≡ false
zone_of_one-no_null o = elim (Bool-cases (o == 2)) [
  | inl one ↦ rw one refl
  | inr none_here ↦ rw none_here refl
]

-- Sizes within a page of 4 GiB wrap to no pages at all, and get the order 0.
size_wraps : size_to_order (2 ^ 32 - 1) ≡ 0
unfolding size_to_order order_from
size_wraps = refl

free_twice : buddy_free_block zone_of_one 8 ≡ panic double_free
unfolding buddy_free_block
free_twice = refl

buddy_alloc_pages-IsTaken_example :
    IsTaken zone_of_one 5000 1 (buddy_alloc_pages zone_of_one 5000 1)
buddy_alloc_pages-IsTaken_example =
    buddy_alloc_pages-IsTaken zone_of_one 5000 1 zone_of_one-IsCounted zone_of_one-no_null
      (omega arith)

size_to_order-IsLeast_example : IsLeast ((5000 + 4095) / 4096) 0 (size_to_order 5000)
size_to_order-IsLeast_example = size_to_order-IsLeast 5000 (omega arith)
