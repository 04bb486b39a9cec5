-- ===== src/Libk/Memory.antt =====
-- What the functions on memory compute.
use kernel_legacy.Prelude.Int.{ℤ, pos}
use kernel_legacy.Libk.{difference, memcmp_from, ft_memcmp, ft_memset, memcpy_from}
use kernel_legacy.Prelude.{
  ℕ, zero, suc, ◌+◌, ◌%◌, ◌≤◌, ◌<◌, ◌≡◌, refl, ◌∙◌, ◌≢◌, ◌⊎◌, inl, inr, true, ◌&&◌, arith, ltb, leb,
  ◌==◌, if◌then◌else◌, ==→eq, eq→==, Bool-cases, update,
}

-- The result is 0 and the bytes from `i` below `i + n` agree, or it is the difference at the first
-- offset where they do not.
abbrev pub Compares : (a b : ℕ → ℕ) → (i n : ℕ) → ℤ → Type 0
Compares a b i n r =
    ((r ≡ pos 0) × ((j : ℕ) → i ≤ j → j < i + n → a j ≡ b j))
    ⊎ ((k : ℕ) × (i ≤ k)
        × (k < i + n)
        × (a k ≢ b k)
        × (r ≡ difference (a k) (b k))
        × ((j : ℕ) → i ≤ j → j < k → a j ≡ b j))

pub memcmp_from-Compares : (a b : ℕ → ℕ) (i n : ℕ) → Compares a b i n (memcmp_from a b i n)
unfolding memcmp_from
memcmp_from-Compares a b i zero = inl (refl, λ j ge lt. absurd (omega arith))
memcmp_from-Compares a b i (suc n) = elim (Bool-cases (a i == b i)) [
  | inr differ ↦ rw differ (
      inr (
        i,
        omega arith,
        omega arith,
        (λ e. cc (eq→== (a i) (b i) e)),
        refl,
        λ j ge lt. absurd (omega arith),
      ))
  | inl agree ↦ rw agree (elim (memcmp_from-Compares a b (i + 1) n) [
    | inl (zero_, all) ↦ inl (zero_, λ j ge lt. here j ge agree (λ more. all j more (omega arith)))
    | inr (k, ge, lt, ne, r, before) ↦ inr (
      k,
      omega arith,
      omega arith,
      ne,
      r,
      λ j low high. here j low agree (λ more. before j more high),
    )
  ])
]
  where
    here : (j : ℕ) → i ≤ j → (a i == b i) ≡ true → (i + 1 ≤ j → a j ≡ b j) → a j ≡ b j
    here j ge agree later = elim (Bool-cases (i == j)) [
      | inl same ↦ rw (← ==→eq i j same) (==→eq (a i) (b i) agree)
      | inr other ↦ later (ground arith)
    ]

-- `ft_memcmp` returns 0 exactly if the `n` bytes agree, and else the difference of the bytes at the
-- first offset where they do not.
pub ft_memcmp-Compares : (a b : ℕ → ℕ) (n : ℕ) → Compares a b 0 n (ft_memcmp a b n)
unfolding ft_memcmp
ft_memcmp-Compares a b n = memcmp_from-Compares a b 0 n

-- `ft_memset` sets the first `n` bytes, to the low byte of `c`, and no other.
pub ft_memset_lem : (n c j : ℕ) (s : ℕ → ℕ) → ft_memset s c n j ≡ (if ltb j n then c % 256 else s j)
unfolding ft_memset
ft_memset_lem zero c j s = ground arith
ft_memset_lem (suc n) c j s =
    let rest = ft_memset_lem n c j (update s n (c % 256)) in rest ∙ ground arith

-- `ft_memcpy` copies the `n` bytes from `i` on and changes no other.
pub memcpy_from_lem :
    (n i j : ℕ) (dest src : ℕ → ℕ)
    → memcpy_from dest src i n j ≡ (if leb i j && ltb j (i + n) then src j else dest j)
unfolding memcpy_from
memcpy_from_lem zero i j dest src = ground arith
memcpy_from_lem (suc n) i j dest src =
    memcpy_from_lem n (i + 1) j (update dest i (src i)) src ∙ elim (Bool-cases (i == j)) [
      | inl same ↦ rw (==→eq i j same) (ground arith)
      | inr other ↦ ground arith
    ]
