-- ===== src/Registers/Words.antt =====
-- A register word against its fields: composing what was decoded, and decoding what was composed.
use native.Mathlib.Nat.{
  zero-mul, pow-suc, mod-add-div', add-mul-mod_self_right, mod-eq_of_lt, mod-lt, mul_assoc,
  add-zero, add-mul, mul-div_cancel, mul-le-mul_right, mul-lt-mul_of_pos_right, pow-le-pow_right,
}
use Prim.Native.Nat.{bit_and}
use Prim.Native.String.{String}
use rk3588_npu_gpu.Base.{
  ℕ, zero, suc, ◌+◌, ◌-◌, ◌*◌, ◌/◌, ◌%◌, ◌^◌, ◌≤◌, ◌<◌, ◌≡◌, refl, sym, ap, ◌∙◌, true, List, [],
  ◌∷◌, ltb, ◌==◌, Bool-cases, inl, inr, arith,
}
use rk3588_npu_gpu.Registers.{field, encode, Entry, bits, flag, put, compose, get, decode, covers}
use rk3588_npu_gpu.Registers.Bits.{power, ones, power-pos, bit_and_run, bit_or_field}

two_pow : (n : ℕ) → 2 ^ n ≡ power n
two_pow zero = omega arith
two_pow (suc n) = omega (arith, pow-suc 2 n, two_pow n)

pub power_split : (s w top : ℕ) → top ≡ s + w → power top ≡ power w * power s
power_split s zero top e = ap power e ∙ rw add-zero (omega arith)
power_split s (suc w) zero e = absurd (omega arith)
power_split s (suc w) (suc top) e = omega (arith, power_split s w top (omega arith))

-- The remainder by a product: the low part, and above it the remainder of the quotient.
mod_split : (a p q : ℕ) → 0 < p → 0 < q → a % (q * p) ≡ a / p % q * p + a % p
mod_split a p q hp hq =
    let mid : ℕ = a / p % q in
    let low : ℕ = mid * p + a % p in
    let inner : (mid + a / p / q * q) * p ≡ a / p * p =
      ap (λ (t : ℕ). t * p) (mod-add-div' (a / p) q) in
    let outer : a / p / q * (q * p) ≡ a / p / q * q * p = sym (mul_assoc (a / p / q) q p) in
    let whole : a ≡ low + a / p / q * (q * p) =
      grind (arith, mod-add-div' a p, add-mul mid (a / p / q * q) p) in
    let small : low < q * p =
      grind (arith, mul-le-mul_right p (mod-lt (a / p) hq), mod-lt a hp, add-mul mid 1 p) in
    ap (λ t. t % (q * p)) whole
    ∙ add-mul-mod_self_right low (a / p / q) (q * p)
    ∙ mod-eq_of_lt small

-- What a mask of `w` ones at `s` selects.
pub get_run : (s w word : ℕ) → bit_and word (ones w * power s) / 2 ^ s ≡ word / power s % power w
get_run s w word =
    rw (two_pow s, bit_and_run s w word) (mul-div_cancel (word / power s % power w) (power-pos s))

pub encode_run :
    (s w top v : ℕ)
    → v < power w
    → top ≡ s + w
    → top ≤ 32
    → encode (field (ones w * power s) s) v ≡ v * power s
encode_run s w top v h t k =
    let small : v * power s < power top =
      grind (arith, mul-lt-mul_of_pos_right h (power-pos s), power_split s w top t) in
    let fits : power top ≤ 2 ^ 32 = rw (← two_pow top) (pow-le-pow_right (omega arith) k) in
    rw
      (
        two_pow s,
        mod-eq_of_lt {n = v * power s} {m = 2 ^ 32} (omega arith),
        bit_and_run s w (v * power s),
        mul-div_cancel v (power-pos s),
        mod-eq_of_lt h,
      )
      refl

-- The top field of a word, and the word below it.
module _ (s top : ℕ) (lt : ltb s top ≡ true) where
  head_split :
      (word : ℕ) → word % power top ≡ word / power s % power (top - s) * power s + word % power s
  head_split word =
      let t : top ≡ s + (top - s) = ground arith in
      rw (power_split s (top - s) top t)
        (mod_split word (power s) (power (top - s)) (power-pos s) (power-pos (top - s)))

-- A field that is decoded and put back.
put-get_bits :
    (name : String) (m s top word : ℕ)
    → ltb s top ≡ true
    → m ≡ ones (top - s) * power s
    → top ≤ 32
    → put (bits name m s) (get word (bits name m s)) ≡ word / power s % power (top - s) * power s
put-get_bits name m s top word lt e k =
    rw (e, get_run s (top - s) word)
      (encode_run s (top - s) top (word / power s % power (top - s))
        (mod-lt (word / power s) (power-pos (top - s))) (ground arith) k)

put-get_flag :
    (name : String) (m s word : ℕ)
    → m ≡ ones 1 * power s
    → put (flag name m) (get word (flag name m)) ≡ word / power s % power 1 * power s
put-get_flag name m s word e =
    let and_lem = bit_and_run s 1 word in
    rw (e, and_lem)
      (elim (Bool-cases (word / power s % 2 == 0)) [
        | inl z ↦ let z' : word / power s % 2 ≡ 0 = ground arith in rw (z', zero-mul) refl
        | inr o ↦
            let o' : word / power s % 2 ≡ 1 = ground arith in rw o' (ground (arith, power-pos s))
      ])

-- Composing the fields that were decoded from a word gives its low bits back.
pub compose-decode_below :
    (es : List Entry) (top word : ℕ)
    → covers top es ≡ true
    → top ≤ 32
    → compose es (decode es word) ≡ word % power top
unfolding compose covers
compose-decode_below [] top word c k = let z : top ≡ 0 = ground arith in rw z (omega arith)
compose-decode_below (bits name m s ∷ es) top word c k =
    let lt : ltb s top ≡ true = ground arith in
    let e : m ≡ ones (top - s) * power s = ground arith in
    let rest = compose-decode_below es s word (ground arith) (ground arith) in
    rw (put-get_bits name m s top word lt e k, rest, head_split s top lt word)
      (bit_or_field s (word / power s % power (top - s)) (word % power s)
        (mod-lt word (power-pos s)))
compose-decode_below (flag name m ∷ es) top word c k =
    let lt : ltb (top - 1) top ≡ true = ground arith in
    let e : m ≡ ones 1 * power (top - 1) = ground arith in
    let one : top - (top - 1) ≡ 1 = ground arith in
    let rest = compose-decode_below es (top - 1) word (ground arith) (ground arith) in
    let s : ℕ = top - 1 in
    rw (put-get_flag name m s word e, rest, head_split s top lt word, one)
      (bit_or_field s (word / power s % power 1) (word % power s) (mod-lt word (power-pos s)))
