-- ===== src/Life/Ids.antt =====
-- An id that is taken and given back leaves the manager as it was.
use kernel_legacy.Bitmap.Search.{NextZero}
use kernel_legacy.IdManager
use kernel_legacy.IdManager.{IdManager, to_size, is_full, is_next}
use kernel_legacy.IdManager.Lowest.{IsValid, used, Leaves, alloc-lowest, free-IsValid}
use kernel_legacy.Prelude.Int.{ℤ, pos, negsuc}
use kernel_legacy.Prelude.{
  ℕ, zero, suc, ◌<◌, ◌≡◌, refl, sym, ◌∙◌, ◌⊎◌, inl, inr, Bool, true, false, ◌||◌, Option, some,
  arith, ◌==◌, if◌then◌else◌, ==→eq, Bool-cases,
}

-- a manager of `n` ids, of which one more is used than those of `f`
abbrev pub Gives : Option IdManager → ℕ → (ℕ → Bool) → ℤ → Type 0
Gives p n f id =
    (to_size id < n) × (f (to_size id) ≡ false) × Leaves p n (λ j. (to_size id == j) || f j)

Leaves-same :
    (p : Option IdManager) (n : ℕ) (f g : ℕ → Bool)
    → ((j : ℕ) → j < n → f j ≡ g j)
    → Leaves p n f
    → Leaves p n g
Leaves-same p n f g same (m, at, v, size, is) = (m, at, v, size, λ j lt. is j lt ∙ same j lt)

pub alloc-Gives :
    {m : IdManager}
    → IsValid m
    → ((is_full (IdManager.alloc (some m)).0 ≡ true)
        × Leaves (IdManager.alloc (some m)).1 m.bitmap.nb_bits (used m))
      ⊎ ((is_full (IdManager.alloc (some m)).0 ≡ false)
          × Gives
              (IdManager.alloc (some m)).1
              m.bitmap.nb_bits
              (used m)
              (IdManager.alloc (some m)).0)
alloc-Gives {m} v = let (next, left) = alloc-lowest v in go (IdManager.alloc (some m)).0 next left
  where
    go :
        (id : ℤ)
        → NextZero (used m) m.bitmap.nb_bits 0 id
        → Leaves (IdManager.alloc (some m)).1 m.bitmap.nb_bits (λ j. is_next id (pos j) || used m j)
        → ((is_full id ≡ true) × Leaves (IdManager.alloc (some m)).1 m.bitmap.nb_bits (used m))
          ⊎ ((is_full id ≡ false) × Gives (IdManager.alloc (some m)).1 m.bitmap.nb_bits (used m) id)
    go (pos i) (_, lt, free_, _) left = inr (refl, (lt, free_, left))
    go (negsuc zero) next left = inl (refl, left)
    go (negsuc (suc n)) (e, all) left = absurd (omega (arith, e))

-- the id goes back
pub free-Leaves :
    (p : Option IdManager) (n : ℕ) (f : ℕ → Bool) (id : ℤ)
    → Gives p n f id
    → Leaves (IdManager.free p (to_size id)) n f
free-Leaves p n f id (lt, free_, (m, at, v, size, is)) =
    let i = to_size id in
    let (m', at', v', size', is') = free-IsValid i v (rw size lt) in
    rw at (m', at', v', size' ∙ size, λ j lt'. is' j (rw size lt') ∙ back j (is j lt'))
  where
    back :
        (j : ℕ)
        → used m j ≡ ((to_size id == j) || f j)
        → (if to_size id == j then false else used m j) ≡ f j
    back j h = elim (Bool-cases (to_size id == j)) [
      | inl same ↦ rw same (sym (rw (==→eq _ _ same) at free_))
      | inr other ↦ rw other (rw other at h)
    ]
