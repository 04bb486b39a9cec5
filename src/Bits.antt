-- ===== src/Bits.antt =====
-- The single bits of a number, as `x >> j & 1` reads them, under the C operators that set and
-- clear one bit of a word.
use native.Mathlib.Nat.{pow-succ', one-le-pow, div-div-eq-div-mul}
use Prim.Native.Nat.{digits, bit_and-bitwise, bit_or-bitwise}
use kernel_legacy.Prelude.{
  ℕ, zero, suc, ◌+◌, ◌-◌, ◌*◌, ◌/◌, ◌%◌, ◌^◌, ◌≤◌, ◌<◌, ◌≡◌, refl, arith, bit_and, bit_or, min, max,
  ◌==◌, if◌then◌else◌,
}

-- `(x >> j) & 1`
abbrev pub bit : ℕ → ℕ → ℕ
bit x j = x / 2 ^ j % 2

pub pow-step : (j : ℕ) → 2 ^ suc j ≡ 2 * 2 ^ j
pow-step j = pow-succ' 2 j

pub pow-pos : (j : ℕ) → 0 < 2 ^ j
pow-pos j = one-le-pow j 2 (omega arith)

pub bit-suc : (x j : ℕ) → bit x (suc j) ≡ bit (x / 2) j
bit-suc x j = rw (pow-step j, ← div-div-eq-div-mul x 2 (2 ^ j))

pub bit-zero : (x : ℕ) → bit x 0 ≡ x % 2
bit-zero x = omega arith

-- The digit recursion that the native operations stand for, and its independence of the fuel.
abbrev digits_by : (ℕ → ℕ) → (ℕ → ℕ → ℕ) → ℕ → ℕ → ℕ → ℕ
digits_by f g n a b = digits f g n a b

module _ (g : ℕ → ℕ → ℕ) where
  and_fuel :
      (n m a b : ℕ) → a ≤ n → a ≤ m → digits_by (λ b. zero) g n a b ≡ digits_by (λ b. zero) g m a b
  and_fuel zero zero a b p q = refl
  and_fuel zero (suc m) zero b p q = refl
  and_fuel zero (suc m) (suc a) b p q = absurd (omega arith)
  and_fuel (suc n) zero zero b p q = refl
  and_fuel (suc n) zero (suc a) b p q = absurd (omega arith)
  and_fuel (suc n) (suc m) zero b p q = refl
  and_fuel (suc n) (suc m) (suc a) b p q =
      omega (arith, and_fuel n m (suc a / 2) (b / 2) (omega arith) (omega arith))

  or_fuel : (n m a b : ℕ) → a ≤ n → a ≤ m → digits_by (λ b. b) g n a b ≡ digits_by (λ b. b) g m a b
  or_fuel zero zero a b p q = refl
  or_fuel zero (suc m) zero b p q = refl
  or_fuel zero (suc m) (suc a) b p q = absurd (omega arith)
  or_fuel (suc n) zero zero b p q = refl
  or_fuel (suc n) zero (suc a) b p q = absurd (omega arith)
  or_fuel (suc n) (suc m) zero b p q = refl
  or_fuel (suc n) (suc m) (suc a) b p q =
      omega (arith, or_fuel n m (suc a / 2) (b / 2) (omega arith) (omega arith))

zero-bit_and : (b : ℕ) → bit_and 0 b ≡ 0
zero-bit_and b = bit_and-bitwise 0 b

pub zero-bit_or : (b : ℕ) → bit_or 0 b ≡ b
zero-bit_or b = bit_or-bitwise 0 b

pub bit_and-step : (a b : ℕ) → bit_and a b ≡ bit_and (a / 2) (b / 2) * 2 + min (a % 2) (b % 2)
bit_and-step zero b = omega (arith, zero-bit_and b, zero-bit_and (b / 2))
bit_and-step (suc a) b = omega (
  arith,
  bit_and-bitwise (suc a) b,
  bit_and-bitwise (suc a / 2) (b / 2),
  and_fuel min a (suc a / 2) (suc a / 2) (b / 2) (omega arith) (omega arith),
)

pub bit_or-step : (a b : ℕ) → bit_or a b ≡ bit_or (a / 2) (b / 2) * 2 + max (a % 2) (b % 2)
bit_or-step zero b = omega (arith, zero-bit_or b, zero-bit_or (b / 2))
bit_or-step (suc a) b = omega (
  arith,
  bit_or-bitwise (suc a) b,
  bit_or-bitwise (suc a / 2) (b / 2),
  or_fuel max a (suc a / 2) (suc a / 2) (b / 2) (omega arith) (omega arith),
)

-- `|` and `&` work bit by bit.
pub bit-bit_or : (a b j : ℕ) → bit (bit_or a b) j ≡ max (bit a j) (bit b j)
bit-bit_or a b zero = omega (arith, bit_or-step a b)
bit-bit_or a b (suc j) =
    let half : bit_or a b / 2 ≡ bit_or (a / 2) (b / 2) = omega (arith, bit_or-step a b) in
    rw (bit-suc, bit-suc a j, bit-suc b j, half) (bit-bit_or (a / 2) (b / 2) j)

pub bit-bit_and : (a b j : ℕ) → bit (bit_and a b) j ≡ min (bit a j) (bit b j)
bit-bit_and a b zero = omega (arith, bit_and-step a b)
bit-bit_and a b (suc j) =
    let half : bit_and a b / 2 ≡ bit_and (a / 2) (b / 2) = omega (arith, bit_and-step a b) in
    rw (bit-suc, bit-suc a j, bit-suc b j, half) (bit-bit_and (a / 2) (b / 2) j)

pub bit-of-zero : (j : ℕ) → bit 0 j ≡ 0
bit-of-zero zero = refl
bit-of-zero (suc j) = rw (bit-suc, zero_half) (bit-of-zero j)
  where
    zero_half : (let z : ℕ = 0 in z / 2) ≡ 0
    zero_half = refl

-- `1 << k` has one bit.
pub bit-pow : (k j : ℕ) → bit (2 ^ k) j ≡ (if k == j then 1 else 0)
bit-pow zero zero = refl
bit-pow zero (suc j) = rw (bit-suc, bit-of-zero j) (ground arith)
bit-pow (suc k) zero = ground (arith, pow-step k)
bit-pow (suc k) (suc j) =
    let half : 2 ^ suc k / 2 ≡ 2 ^ k = omega (arith, pow-step k) in
    rw (bit-suc, half, bit-pow k j) (ground arith)

-- `~m` in a word of `w` bits.
pub bit-not : (w m j : ℕ) → m < 2 ^ w → j < w → bit (2 ^ w - 1 - m) j + bit m j ≡ 1
bit-not zero m j p q = absurd (omega arith)
bit-not (suc w) m zero p q = omega (arith, pow-step w)
bit-not (suc w) m (suc j) p q =
    let half : (2 ^ suc w - 1 - m) / 2 ≡ 2 ^ w - 1 - m / 2 = omega (arith, pow-step w) in
    rw (bit-suc, bit-suc m j, half) (bit-not w (m / 2) j (omega (arith, pow-step w)) (omega arith))

pub bit-lt-two : (x j : ℕ) → bit x j < 2
bit-lt-two x j = omega arith

-- The C idioms `x |= 1 << k` and `x &= ~(1 << k)` on a word of `w` bits.
abbrev pub set_bit : ℕ → ℕ → ℕ
set_bit x k = bit_or x (2 ^ k)

abbrev pub clear_bit : ℕ → ℕ → ℕ → ℕ
clear_bit w x k = bit_and x (2 ^ w - 1 - 2 ^ k)

pub bit-set_bit : (x k j : ℕ) → bit (set_bit x k) j ≡ (if k == j then 1 else bit x j)
bit-set_bit x k j = ground (arith, bit-bit_or x (2 ^ k) j, bit-pow k j, bit-lt-two x j)

pub pow-lt : (k w : ℕ) → k < w → 2 ^ k < 2 ^ w
pow-lt k zero h = absurd (omega arith)
pow-lt zero (suc w) h = omega (arith, pow-step w, pow-pos w)
pow-lt (suc k) (suc w) h = omega (arith, pow-step w, pow-step k, pow-lt k w (omega arith))

pub bit-clear_bit :
    (w x k j : ℕ) → k < w → j < w → bit (clear_bit w x k) j ≡ (if k == j then 0 else bit x j)
bit-clear_bit w x k j p q = ground (
  arith,
  bit-bit_and x (2 ^ w - 1 - 2 ^ k) j,
  bit-not w (2 ^ k) j (pow-lt k w p) q,
  bit-pow k j,
  bit-lt-two x j,
)

-- `|` and `&` stay within the word.
pub bit_or-lt : (w a b : ℕ) → a < 2 ^ w → b < 2 ^ w → bit_or a b < 2 ^ w
bit_or-lt zero a b p q = rw (zero_of a p, zero_of b q) (omega arith)
  where
    zero_of : (n : ℕ) → n < 2 ^ zero → n ≡ 0
    zero_of n h = omega arith
bit_or-lt (suc w) a b p q = omega (
  arith,
  bit_or-step a b,
  pow-step w,
  bit_or-lt w (a / 2) (b / 2) (omega (arith, pow-step w)) (omega (arith, pow-step w)),
)

bit_and-le_fuel : (n a b : ℕ) → a ≤ n → bit_and a b ≤ a
bit_and-le_fuel n zero b h = omega (arith, zero-bit_and b)
bit_and-le_fuel zero (suc a) b h = absurd (omega arith)
bit_and-le_fuel (suc n) (suc a) b h =
    omega (arith, bit_and-step (suc a) b, bit_and-le_fuel n (suc a / 2) (b / 2) (omega arith))

pub bit_and-le : (a b : ℕ) → bit_and a b ≤ a
bit_and-le a b = bit_and-le_fuel a a b (omega arith)
