-- ===== src/Libk/Strings.antt =====
-- What the functions on strings compute, within enough rounds.
use kernel_legacy.Libk.{difference, strlen_from, ft_strlen, is_zero, ft_strequ}
use kernel_legacy.Libk.Memory.{ft_memcmp-Compares}
use kernel_legacy.Prelude.{
  ℕ, zero, suc, ◌+◌, ◌-◌, ◌≤◌, ◌<◌, ◌≡◌, refl, sym, ◌∙◌, ◌≢◌, ◌↔◌, inl, inr, true, false, arith,
  leb, ◌==◌, ==→eq, eq→==, ne→==, Bool-cases,
}

-- `s` holds a string of `k` bytes.
abbrev pub IsString : (ℕ → ℕ) → ℕ → Type 0
IsString s k = (s k ≡ 0) × ((j : ℕ) → j < k → s j ≢ 0)

strlen_from_lem : (s : ℕ → ℕ) (k i n : ℕ) → IsString s k → i ≤ k → k < i + n → strlen_from s i n ≡ k
unfolding strlen_from
strlen_from_lem s k i zero h le lt = absurd (omega arith)
strlen_from_lem s k i (suc n) (ends, before) le lt = elim (Bool-cases (i == k)) [
  | inl same ↦ let at = ==→eq i k same in rw (eq→== (s i) 0 (rw at ends)) at
  | inr other ↦
      rw (ne→== (s i) 0 (before i (ground arith)))
        (strlen_from_lem s k (i + 1) n (ends, before) (ground arith) (omega arith))
]

-- `ft_strlen` returns the length of the string, within one more round than that.
pub ft_strlen_lem :
    (bound : ℕ) (s : ℕ → ℕ) (k : ℕ) → IsString s k → k < bound → ft_strlen bound s ≡ k
unfolding ft_strlen
ft_strlen_lem bound s k h lt = strlen_from_lem s k 0 bound h (omega arith) (omega arith)

is_zero-difference : (x y : ℕ) → x ≢ y → is_zero (difference x y) ≡ false
is_zero-difference x y ne = elim (Bool-cases (leb y x)) [
  | inl le ↦ rw le (ne→== (x - y) 0 (ground arith))
  | inr lt ↦ rw lt refl
]

-- whether two strings of these lengths are the same
abbrev pub SameString : (s1 s2 : ℕ → ℕ) → (k1 k2 : ℕ) → Type 0
SameString s1 s2 k1 k2 = (k1 ≡ k2) × ((j : ℕ) → j < k1 → s1 j ≡ s2 j)

-- `ft_strequ` returns true exactly if the strings have the same length and the same bytes, within
-- one more round than the longer string.
pub ft_strequ-SameString :
    (bound : ℕ) (s1 s2 : ℕ → ℕ) (k1 k2 : ℕ)
    → IsString s1 k1
    → IsString s2 k2
    → k1 < bound
    → k2 < bound
    → (ft_strequ bound s1 s2 ≡ true) ↔ SameString s1 s2 k1 k2
unfolding ft_strequ
ft_strequ-SameString bound s1 s2 k1 k2 h1 h2 lt1 lt2 =
    let len1 = ft_strlen_lem bound s1 k1 h1 lt1 in
    let len2 = ft_strlen_lem bound s2 k2 h2 lt2 in
    elim (Bool-cases (k1 == k2)) [
      | inr other ↦
          rw (ft_strequ, len1, len2, other) (λ h. cc, λ same. absurd (cc (eq→== k1 k2 same.0)))
      | inl same ↦ elim (ft_memcmp-Compares s1 s2 (k1 + 1)) [
        | inl (r, all) ↦
            rw (ft_strequ, len1, len2, same, r)
              (λ h. (==→eq k1 k2 same, λ j lt. all j (omega arith) (omega arith)), λ h. refl)
        | inr (k, low, high, ne, r, before) ↦
            let no_zero = is_zero-difference (s1 k) (s2 k) ne in
            let ends : s1 k1 ≡ s2 k1 = h1.0 ∙ rw (==→eq k1 k2 same) (sym h2.0) in
            rw (ft_strequ, len1, len2, same, r, no_zero)
              (
                λ h. cc,
                λ strings. absurd (
                    ne (elim (Bool-cases (k == k1)) [
                      | inl last ↦ rw (==→eq k k1 last) ends
                      | inr inside ↦ strings.1 k (ground arith)
                    ])),
              )
      ]
    ]
