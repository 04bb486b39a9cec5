-- ===== src/Boot/Align.antt =====
-- An alignment to pages, which the code asks for, lowers no address.
use native.Mathlib.Nat.{pow-succ', div-div-eq-div-mul}
use kernel_legacy.Bits.{bit_and-step, pow-pos, pow-step}
use kernel_legacy.Boot.Take.{align_up}
use kernel_legacy.Boot.At.{Aligns}
use kernel_legacy.Prelude.{
  ℕ, zero, suc, ◌+◌, ◌-◌, ◌*◌, ◌/◌, ◌%◌, ◌^◌, ◌<◌, bit_and, ◌≡◌, refl, sym, ap, ◌∙◌, some, arith,
}

-- all bits of a number
bit_and-ones : (w z : ℕ) → z < 2 ^ w → bit_and z (2 ^ w - 1) ≡ z
bit_and-ones zero z lt = let none_ : z ≡ 0 = omega arith in rw none_ refl
bit_and-ones (suc w) z lt =
    let two = pow-succ' 2 w in
    let some_ = pow-pos w in
    let half : (2 ^ suc w - 1) / 2 ≡ 2 ^ w - 1 = omega (arith, two, some_) in
    let odd : (2 ^ suc w - 1) % 2 ≡ 1 = omega (arith, two, some_) in
    let ih = bit_and-ones w (z / 2) (omega (arith, two)) in
    let step = bit_and-step z (2 ^ suc w - 1) in omega (arith, rw (half, odd, ih) at step)

-- a mask without its lowest bit
bit_and-double : (a x : ℕ) → bit_and a (x * 2) ≡ bit_and (a / 2) x * 2
bit_and-double a x =
    let half : x * 2 / 2 ≡ x = omega arith in
    let even : x * 2 % 2 ≡ 0 = omega arith in
    omega (arith, rw (half, even) at (bit_and-step a (x * 2)))

-- without `k` of them
bit_and-shift : (k a m : ℕ) → bit_and a (m * 2 ^ k) ≡ bit_and (a / 2 ^ k) m * 2 ^ k
bit_and-shift zero a m =
    let one : m * 2 ^ zero ≡ m = omega arith in
    let one' : a / 2 ^ zero ≡ a = omega arith in rw (one, one') (omega arith)
bit_and-shift (suc k) a m =
    let two = pow-step k in
    let mask : m * 2 ^ suc k ≡ (m * 2 ^ k) * 2 = grind (arith, two) in
    let quotient : a / 2 ^ suc k ≡ a / 2 / 2 ^ k = rw two (sym (div-div-eq-div-mul a 2 (2 ^ k))) in
    rw (mask, quotient, bit_and-double a (m * 2 ^ k), bit_and-shift k (a / 2) m, two) (grind arith)

align_up-page : (x : ℕ) → x + 4095 < 4294967296 → align_up x 4096 ≡ (x + 4095) / 4096 * 4096
align_up-page x lt =
    let sum : (x + 4095) % 4294967296 ≡ x + 4095 = omega arith in
    let high = bit_and-shift 12 (x + 4095) 1048575 in
    let all = bit_and-ones 20 ((x + 4095) / 4096) (omega arith) in
    rw sum (high ∙ ap (λ k. k * 4096) all)

-- An alignment to pages lowers no address, and leaves room for the block behind it.
pub page-Aligns : (size end_ : ℕ) → end_ + 4096 + size < 4294967296 → Aligns (some 4096) size end_
page-Aligns size end_ h x lt =
    let up = align_up-page x (omega arith) in (omega (arith, up), omega (arith, up))
