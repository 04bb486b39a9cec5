-- ===== src/IdManager/Tests.antt =====
-- Runs of the id manager, and its theorems at a manager of five ids of which 0 and 2 are used.
use kernel_legacy.Prelude.Int.{pos, negsuc}
use kernel_legacy.Bitmap.{Bitmap, check, find_next_zero_from}
use kernel_legacy.Bitmap.Bits.{IsWhole}
use kernel_legacy.Bitmap.Search.{NextZero, find_next_zero_from-NextZero}
use kernel_legacy.IdManager.{IdManager, alloc, free, is_next}
use kernel_legacy.IdManager.Lowest.{IsValid, Leaves, used, alloc-lowest}
use kernel_legacy.Prelude.{ℕ, zero, suc, ◌≤◌, ◌<◌, ◌≡◌, refl, true, ◌||◌, some, [], ◌∷◌, arith}

abbrev five : Bitmap
five = record { nb_bits = 5; bytes = some (5 ∷ []) }

abbrev mgr : IdManager
mgr = record { bitmap = five; next_free = pos 1 }

five-IsWhole : IsWhole five
five-IsWhole = record { d = 5 ∷ []; held = refl; size = refl; small = omega arith }

alloc_run :
    alloc (some mgr)
    ≡ (pos 1, some (record { bitmap = record five { bytes = some (7 ∷ []) }; next_free = pos 3 }))
unfolding alloc
alloc_run = refl

mgr-IsValid : IsValid mgr
unfolding check
mgr-IsValid = record { whole = five-IsWhole; lowest = (omega arith, omega arith, refl, low) }
  where
    low : (j : ℕ) → 0 ≤ j → j < 1 → check five j ≡ true
    low zero p q = refl
    low (suc j) p q = absurd (omega arith)

find_next_zero_from-NextZero_example :
    NextZero (check five) 5 2 (find_next_zero_from 5 (some (5 ∷ [])) 2)
find_next_zero_from-NextZero_example = find_next_zero_from-NextZero 2 five-IsWhole

alloc-lowest_example :
    NextZero (used mgr) 5 0 (alloc (some mgr)).0
    × Leaves (alloc (some mgr)).1 5 (λ j. is_next (alloc (some mgr)).0 (pos j) || used mgr j)
alloc-lowest_example = alloc-lowest mgr-IsValid

-- Freeing an id out of range hands that id out next, once the manager is full.
free_out_of_range :
    (alloc (
      free
        (some (record { bitmap = record five { bytes = some (31 ∷ []) }; next_free = negsuc 0 }))
        9)).0
    ≡ pos 9
unfolding alloc free
free_out_of_range = refl
