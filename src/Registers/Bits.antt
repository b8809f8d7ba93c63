-- ===== src/Registers/Bits.antt =====
-- `&` with a contiguous mask and `|` of a field with the bits below it, as arithmetic.
use Prim.Native.Nat.{bit_and, bit_or, digits, bit_and-bitwise, bit_or-bitwise}
use native.Mathlib.Nat.{
  div-div-eq-div-mul, mod-add-div', add-mul-mod_self_right, mod-eq_of_lt, mod-lt, mul_comm,
  zero-div, zero-mod, div-one, le_refl,
}
use rk3588_npu_gpu.Base.{
  ℕ, zero, suc, ◌+◌, ◌*◌, ◌/◌, ◌%◌, ◌≤◌, ◌<◌, ◌≡◌, refl, sym, ap, ◌∙◌, min, max, arith,
}

-- 2 ^ n, and the number with `n` ones, by recursion.
abbrev pub power : ℕ → ℕ
power zero = 1
power (suc n) = power n * 2

abbrev pub ones : ℕ → ℕ
ones zero = 0
ones (suc n) = ones n * 2 + 1

pub power-pos : (n : ℕ) → 0 < power n
power-pos zero = omega arith
power-pos (suc n) = omega (arith, power-pos n)

-- A remainder by twice a number, digit by digit.
mod_twice : (a p : ℕ) → 0 < p → a % (p * 2) ≡ a / 2 % p * 2 + a % 2
mod_twice a p h =
    let low : ℕ = a / 2 % p * 2 + a % 2 in
    let whole : a ≡ low + a / 2 / p * (p * 2) = omega (arith, mod-add-div' (a / 2) p) in
    ap (λ t. t % (p * 2)) whole
    ∙ add-mul-mod_self_right low (a / 2 / p) (p * 2)
    ∙ mod-eq_of_lt (omega (arith, mod-lt (a / 2) h))

div_twice : (a p : ℕ) → a / (p * 2) ≡ a / 2 / p
div_twice a p = rw (mul_comm p 2) (sym (div-div-eq-div-mul a 2 p))

-- The bits of `a` under a mask of `w` ones at `s`, for enough fuel `n`.
masked :
    (n s w a : ℕ)
    → a ≤ n
    → digits (λ b. zero) min n a (ones w * power s) ≡ a / power s % power w * power s
masked zero s w zero h = rw (zero-div, zero-mod) (omega arith)
masked zero s w (suc a) h = elim h [ ]
masked (suc n) s w zero h = rw (zero-div, zero-mod) (omega arith)
masked (suc n) (suc s) w (suc a) h =
    let half : ones w * (power s * 2) / 2 ≡ ones w * power s = omega arith in
    let even : ones w * (power s * 2) % 2 ≡ 0 = omega arith in
    let ih = masked n s w (suc a / 2) (omega arith) in
    rw (half, even, ih, div_twice (suc a) (power s)) (omega arith)
masked (suc n) zero (suc w) (suc a) h =
    let half : (ones w * 2 + 1) * 1 / 2 ≡ ones w * 1 = omega arith in
    let odd : (ones w * 2 + 1) * 1 % 2 ≡ 1 = omega arith in
    let ih = masked n zero w (suc a / 2) (omega arith) in
    rw (half, odd, ih, div-one, div-one) (omega (arith, mod_twice (suc a) (power w) (power-pos w)))
masked (suc n) zero zero (suc a) h = omega (arith, masked n zero zero (suc a / 2) (omega arith))

pub bit_and_run : (s w a : ℕ) → bit_and a (ones w * power s) ≡ a / power s % power w * power s
bit_and_run s w a = bit_and-bitwise a (ones w * power s) ∙ masked a s w a (le_refl a)

-- The bits of `a`, which are all above `s`, and bits below it, for enough fuel.
joined :
    (n s q r a : ℕ)
    → a ≤ n
    → a ≡ q * power s
    → r < power s
    → digits (λ b. b) max n a r ≡ q * power s + r
joined zero s q r zero h e lt = omega arith
joined zero s q r (suc a) h e lt = elim h [ ]
joined (suc n) s q r zero h e lt = omega arith
joined (suc n) zero q r (suc a) h e lt =
    let none_below : r / 2 < 1 = omega arith in
    omega
      (arith, joined n zero (suc a / 2) (r / 2) (suc a / 2) (omega arith) (omega arith) none_below)
joined (suc n) (suc s) q r (suc a) h e lt =
    let half : suc a / 2 ≡ q * power s = omega arith in
    omega (arith, joined n s q (r / 2) (suc a / 2) (omega arith) half (omega arith))

pub bit_or_field : (s q r : ℕ) → r < power s → bit_or (q * power s) r ≡ q * power s + r
bit_or_field s q r lt =
    bit_or-bitwise (q * power s) r ∙ joined (q * power s) s q r (q * power s) (le_refl _) refl lt
