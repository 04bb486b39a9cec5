-- ===== src/Tty/Numbers.antt =====
-- The numbers that `ft_putnbr`, `ft_putunsignednbr` and `ft_puthexa` put on the screen, as the list of
-- their characters.
use native.Mathlib.Nat.{pow-succ'}
use kernel_legacy.Prelude.{
  ℕ, zero, suc, ◌+◌, ◌-◌, ◌*◌, ◌/◌, ◌%◌, ◌^◌, ◌≤◌, ◌<◌, ◌≡◌, refl, ◌∙◌, inl, inr, Bool, true, false,
  List, [], ◌∷◌, ◌++◌, arith, leb, ◌==◌, if◌then◌else◌, ==→eq, Bool-cases,
}

-- `ft_putnbr` of a number that is not negative, for at most `n` levels of calls; 48 is the zero
unfoldable pub ft_putnbr_from : (n nb : ℕ) → List ℕ
ft_putnbr_from zero nb = []
ft_putnbr_from (suc n) nb =
    let high = ft_putnbr_from n (nb / 10) in
    let low = ft_putnbr_from n (nb % 10) in if leb 10 nb then high ++ low else (nb + 48) ∷ []

-- 32-bit words have at most ten digits
abbrev pub digits : ℕ → List ℕ
digits nb = ft_putnbr_from 10 nb

-- `ft_putnbr` of an `int`, by its word
unfoldable pub ft_putnbr : ℕ → List ℕ
ft_putnbr w =
    if w == 2147483648
    then (45 ∷ digits 21474) ++ digits 83648
    else if leb 2147483648 w
    then 45 ∷ digits (4294967296 - w)
    else digits w

unfoldable pub ft_putunsignednbr : ℕ → List ℕ
ft_putunsignednbr nb =
    if leb 10 nb then ft_putnbr (nb / 10) ++ ft_putnbr (nb % 10) else (nb + 48) ∷ []

-- the value of decimal digits that follow others
abbrev pub value_from : ℕ → List ℕ → ℕ
value_from acc [] = acc
value_from acc (d ∷ ds) = value_from (acc * 10 + (d - 48)) ds

-- the sign and the value of a number
abbrev pub read_number : List ℕ → Bool × ℕ
read_number [] = (false, 0)
read_number (c ∷ cs) = if c == 45 then (true, value_from 0 cs) else (false, value_from 0 (c ∷ cs))

value_from-append :
    (acc : ℕ) (xs ys : List ℕ) → value_from acc (xs ++ ys) ≡ value_from (value_from acc xs) ys
value_from-append acc [] ys = refl
value_from-append acc (x ∷ xs) ys = value_from-append (acc * 10 + (x - 48)) xs ys

-- a digit for itself
one_digit : (n nb : ℕ) → nb < 10 → ft_putnbr_from (suc n) nb ≡ (nb + 48) ∷ []
unfolding ft_putnbr_from
one_digit n nb lt = let small : leb 10 nb ≡ false = ground arith in rw (ft_putnbr_from, small) refl

-- the digits of a number have its value, where there are levels enough for them
value_from-digits : (n nb : ℕ) → nb < 10 ^ suc n → value_from 0 (ft_putnbr_from (suc n) nb) ≡ nb
unfolding ft_putnbr_from
value_from-digits zero nb lt =
    let small : leb 10 nb ≡ false = ground arith in rw (ft_putnbr_from, small) (omega arith)
value_from-digits (suc n) nb lt = elim (Bool-cases (leb 10 nb)) [
  | inr small ↦ rw (ft_putnbr_from, small) (omega arith)
  | inl large ↦
      let high : value_from 0 (ft_putnbr_from (suc n) (nb / 10)) ≡ nb / 10 =
        value_from-digits n (nb / 10) (omega (arith, pow-succ' 10 (suc n))) in
      rw (ft_putnbr_from, large, one_digit n (nb % 10) (omega arith))
        (value_from-append 0 (ft_putnbr_from (suc n) (nb / 10)) ((nb % 10 + 48) ∷ [])
          ∙ rw high (omega arith))
]

-- the first of the characters, if there is one, is a digit
abbrev Digit : List ℕ → Type 0
Digit [] = Unit
Digit (c ∷ cs) = 48 ≤ c

digits-Digit : (n nb : ℕ) → Digit (ft_putnbr_from n nb)
unfolding ft_putnbr_from
digits-Digit zero nb = tt
digits-Digit (suc n) nb = elim (Bool-cases (leb 10 nb)) [
  | inr small ↦ rw (ft_putnbr_from, small) (omega arith)
  | inl large ↦
      rw (ft_putnbr_from, large)
        (joined (ft_putnbr_from n (nb / 10)) (ft_putnbr_from n (nb % 10)) (digits-Digit n (nb / 10))
          (digits-Digit n (nb % 10)))
]
  where
    joined : (xs ys : List ℕ) → Digit xs → Digit ys → Digit (xs ++ ys)
    joined [] ys d e = e
    joined (x ∷ xs) ys d e = d

read_number-Digit : (l : List ℕ) → Digit l → read_number l ≡ (false, value_from 0 l)
read_number-Digit [] d = refl
read_number-Digit (c ∷ cs) d = let plain : (c == 45) ≡ false = ground arith in rw plain refl

value_from-small : (w : ℕ) → w < 10000000000 → value_from 0 (digits w) ≡ w
value_from-small w lt = value_from-digits 9 w lt

-- Reading what `ft_putnbr` prints of a 32-bit word gives back the sign and the magnitude of the `int`.
pub read_number-ft_putnbr :
    (w : ℕ)
    → w < 4294967296
    → read_number (ft_putnbr w) ≡ (leb 2147483648 w, if leb 2147483648 w then 4294967296 - w else w)
unfolding ft_putnbr ft_putnbr_from
read_number-ft_putnbr w lt = elim (Bool-cases (w == 2147483648)) [
  | inl least ↦ let same : w ≡ 2147483648 = ==→eq _ _ least in rw same refl
  | inr other ↦ elim (Bool-cases (leb 2147483648 w)) [
    | inl negative ↦
        rw (ft_putnbr, other, negative, value_from-small (4294967296 - w) (omega arith)) refl
    | inr positive ↦
        rw (ft_putnbr, other, positive, read_number-Digit (digits w) (digits-Digit 10 w))
          (rw (value_from-small w (omega arith)) refl)
  ]
]

below_sign : (w : ℕ) → w < 2147483648 → ft_putnbr w ≡ digits w
unfolding ft_putnbr
below_sign w lt =
    let other : (w == 2147483648) ≡ false = ground arith in
    let positive : leb 2147483648 w ≡ false = ground arith in rw (ft_putnbr, other, positive) refl

-- Reading what `ft_putunsignednbr` prints of a 32-bit word gives back the word.
pub value_from-ft_putunsignednbr :
    (nb : ℕ) → nb < 4294967296 → value_from 0 (ft_putunsignednbr nb) ≡ nb
unfolding ft_putunsignednbr
value_from-ft_putunsignednbr nb lt = elim (Bool-cases (leb 10 nb)) [
  | inr small ↦ rw (ft_putunsignednbr, small) (omega arith)
  | inl large ↦
      rw
        (
          ft_putunsignednbr,
          large,
          below_sign (nb / 10) (omega arith),
          below_sign (nb % 10) (omega arith),
          one_digit 9 (nb % 10) (omega arith),
        )
        (value_from-append 0 (digits (nb / 10)) ((nb % 10 + 48) ∷ [])
          ∙ rw (value_from-small (nb / 10) (omega arith)) (omega arith))
]
