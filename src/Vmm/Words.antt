-- ===== src/Vmm/Words.antt =====
-- Entries as the address of a page with flags below it.
use native.Mathlib.Nat.{div-div-eq-div-mul}
use kernel_legacy.Bits.{bit_and-le, bit-bit_or, bit_or-step, zero-bit_or, pow-step, bit-lt-two}
use kernel_legacy.Vmm.{entry_addr, is_present, new_pde}
use kernel_legacy.Prelude.{
  ℕ, zero, suc, ◌/◌, ◌%◌, ◌^◌, ◌≤◌, ◌<◌, bit_and, bit_or, ◌≡◌, refl, ◌∙◌, true, arith,
}

bit_or-zero_fuel : (n a : ℕ) → a ≤ n → bit_or a 0 ≡ a
bit_or-zero_fuel n zero h = zero-bit_or 0
bit_or-zero_fuel zero (suc a) h = absurd (omega arith)
bit_or-zero_fuel (suc n) (suc a) h =
    omega (arith, bit_or-step (suc a) 0, bit_or-zero_fuel n (suc a / 2) (omega arith))

bit_or-shift : (w e f : ℕ) → bit_or e f / 2 ^ w ≡ bit_or (e / 2 ^ w) (f / 2 ^ w)
bit_or-shift zero e f = rw (div-one e, div-one f, div-one (bit_or e f)) refl
  where
    div-one : (n : ℕ) → n / 2 ^ zero ≡ n
    div-one n = omega arith
bit_or-shift (suc w) e f =
    let half : bit_or e f / 2 ≡ bit_or (e / 2) (f / 2) = omega (arith, bit_or-step e f) in
    let split = λ (n : ℕ). div-div-eq-div-mul n 2 (2 ^ w) in
    rw (pow-step w, ← split (bit_or e f), ← split e, ← split f, half)
      (bit_or-shift w (e / 2) (f / 2))

-- flags below the address do not change it
pub entry_addr-bit_or : (e f : ℕ) → f < 4096 → entry_addr (bit_or e f) ≡ entry_addr e
entry_addr-bit_or e f h =
    let none_above : f / 2 ^ 12 ≡ 0 = omega arith in
    let high = bit_or-shift 12 e f in
    let same = bit_or-zero_fuel (e / 2 ^ 12) (e / 2 ^ 12) (omega arith) in
    omega (arith, rw (none_above, same) at high)

pub entry_addr-page : (p f : ℕ) → p % 4096 ≡ 0 → f < 4096 → entry_addr (bit_or p f) ≡ p
entry_addr-page p f aligned h = entry_addr-bit_or p f h ∙ omega arith

-- flags that are or-ed together are there, and so is what was there before
pub present-bit_or : (e f : ℕ) → is_present f ≡ true → is_present (bit_or e f) ≡ true
present-bit_or e f h = ground (arith, bit-bit_or e f 0, bit-lt-two e 0, bit-lt-two f 0)

pub present-bit_or_left : (e f : ℕ) → is_present e ≡ true → is_present (bit_or e f) ≡ true
present-bit_or_left e f h = ground (arith, bit-bit_or e f 0, bit-lt-two e 0, bit-lt-two f 0)

pub present-bit_or_four : (e : ℕ) → is_present (bit_or e 4) ≡ is_present e
present-bit_or_four e = ground (arith, bit-bit_or e 4 0, bit-lt-two e 0)

-- the entry of a new table
pub new_pde-present : (pt flags : ℕ) → is_present (new_pde pt flags) ≡ true
new_pde-present pt flags =
    present-bit_or_left _ _ (present-bit_or_left _ _ (present-bit_or pt 1 refl))

pub new_pde-addr :
    (pt flags : ℕ) → pt % 4096 ≡ 0 → flags < 4096 → entry_addr (new_pde pt flags) ≡ pt
new_pde-addr pt flags aligned h =
    let user : bit_and flags 4 < 4096 = omega (arith, bit_and-le flags 4) in
    entry_addr-bit_or _ _ user
    ∙ entry_addr-bit_or _ 2 (omega arith)
    ∙ entry_addr-page pt 1 aligned (omega arith)
