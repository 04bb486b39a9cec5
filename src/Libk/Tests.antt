-- ===== src/Libk/Tests.antt =====
-- The string functions at the strings "ab" and "ac".
use kernel_legacy.Libk.Strings.{IsString}
use kernel_legacy.Prelude.{ℕ, ◌≡◌, refl, inl, inr, [], ◌∷◌, arith, ◌==◌, ==→eq, Bool-cases, get_or}

abbrev ab : ℕ → ℕ
ab i = get_or (97 ∷ 98 ∷ []) i 0

abbrev ac : ℕ → ℕ
ac i = get_or (97 ∷ 99 ∷ []) i 0

ab-IsString : IsString ab 2
ab-IsString = (
  refl,
  λ j lt. elim (Bool-cases (j == 0)) [
    | inl first ↦ rw (==→eq j 0 first) (omega arith)
    | inr second ↦ let one : j ≡ 1 = ground arith in rw one (omega arith)
  ],
)

ac-IsString : IsString ac 2
ac-IsString = (
  refl,
  λ j lt. elim (Bool-cases (j == 0)) [
    | inl first ↦ rw (==→eq j 0 first) (omega arith)
    | inr second ↦ let one : j ≡ 1 = ground arith in rw one (omega arith)
  ],
)
