-- ===== src/Registers/Fields.antt =====
-- Decoding a register word that was composed of values for its fields.
use native.Mathlib.Nat.{
  add-mul-div_right, add-mul-mod_self_right, add_comm, zero-add, zero-mul, add-mul,
  mul-le-mul_right, div-eq_of_lt, mul_assoc, mod-eq_of_lt,
}
use Prim.Native.Nat.{bit_and, bit_or}
use Prim.Native.String.{String}
use rk3588_npu_gpu.Base.{
  ℕ, zero, suc, ◌+◌, ◌-◌, ◌*◌, ◌/◌, ◌%◌, ◌≤◌, ◌<◌, ◌≡◌, refl, sym, subst, ◌∙◌, true, List, [], ◌∷◌,
  ltb, ◌==◌, Bool-cases, inl, inr, arith,
}
use rk3588_npu_gpu.Registers.{Entry, bits, flag, put, compose, get, decode, covers}
use rk3588_npu_gpu.Registers.Bits.{power, ones, power-pos, bit_and_run, bit_or_field}
use rk3588_npu_gpu.Registers.Words.{get_run, encode_run, power_split}

-- What a field below `top` holds does not depend on the bits from `top` on.
above : (s w x k : ℕ) → (x + k * (power w * power s)) / power s % power w ≡ x / power s % power w
above s w x k =
    rw (sym (mul_assoc k (power w) (power s)), add-mul-div_right x (k * power w) (power-pos s))
      (add-mul-mod_self_right (x / power s) k (power w))

-- Values that fit their fields, one for each.
abbrev pub Fits : ℕ → List Entry → List ℕ → Type 0
Fits top [] [] = Unit {0}
Fits top [] (v ∷ vs) = ⊥
Fits top (e ∷ es) [] = ⊥
Fits top (bits name m s ∷ es) (v ∷ vs) = (v < power (top - s)) × Fits s es vs
Fits top (flag name m ∷ es) (v ∷ vs) = (v < 2) × Fits (top - 1) es vs

-- One field of a word that has further bits from `top` on.
get-above :
    (s w x k : ℕ)
    → bit_and (x + k * (power w * power s)) (ones w * power s) ≡ bit_and x (ones w * power s)
get-above s w x k =
    rw (bit_and_run s w (x + k * (power w * power s)), bit_and_run s w x, above s w x k) refl

decode-above :
    (es : List Entry) (top x k : ℕ)
    → covers top es ≡ true
    → decode es (x + k * power top) ≡ decode es x
unfolding covers
decode-above [] top x k c = refl
decode-above (bits name m s ∷ es) top x k c =
    let e : m ≡ ones (top - s) * power s = ground arith in
    let p = power_split s (top - s) top (ground arith) in
    let ih = decode-above es s x (k * power (top - s)) (ground arith) in
    let head : bit_and (x + k * power top) m ≡ bit_and x m =
      rw (p, e) (get-above s (top - s) x k) in
    let tail : decode es (x + k * power top) ≡ decode es x =
      rw p (rw (mul_assoc k (power (top - s)) (power s)) at ih) in
    rw (head, tail) refl
decode-above (flag name m ∷ es) top x k c =
    let e : m ≡ ones 1 * power (top - 1) = ground arith in
    let p = power_split (top - 1) 1 top (ground arith) in
    let ih = decode-above es (top - 1) x (k * power 1) (ground arith) in
    let head : bit_and (x + k * power top) m ≡ bit_and x m =
      rw (p, e) (get-above (top - 1) 1 x k) in
    let tail : decode es (x + k * power top) ≡ decode es x =
      rw p (rw (mul_assoc k (power 1) (power (top - 1))) at ih) in
    rw (head, tail) refl

put_bits :
    (name : String) (m s top v : ℕ)
    → ltb s top ≡ true
    → m ≡ ones (top - s) * power s
    → top ≤ 32
    → v < power (top - s)
    → put (bits name m s) v ≡ v * power s
put_bits name m s top v lt e k h = rw e (encode_run s (top - s) top v h (ground arith) k)

put_flag :
    (name : String) (m s v : ℕ) → m ≡ ones 1 * power s → v < 2 → put (flag name m) v ≡ v * power s
put_flag name m s zero e h = ground arith
put_flag name m s (suc zero) e h = ground arith
put_flag name m s (suc (suc v)) e h = absurd (omega arith)

-- What the top field of a word holds.
head_lem :
    (s w v rest : ℕ) → v < power w → rest < power s → (v * power s + rest) / power s % power w ≡ v
head_lem s w v rest h l =
    rw (add_comm (v * power s) rest, add-mul-div_right rest v (power-pos s), div-eq_of_lt l)
      (rw zero-add (mod-eq_of_lt h))

get_bits :
    (name : String) (m s w word : ℕ)
    → m ≡ ones w * power s
    → get word (bits name m s) ≡ word / power s % power w
get_bits name m s w word e = rw (e, get_run s w word) refl

get_flag :
    (name : String) (m s word : ℕ)
    → m ≡ ones 1 * power s
    → get word (flag name m) ≡ word / power s % power 1
get_flag name m s word e =
    rw (e, bit_and_run s 1 word)
      (elim (Bool-cases (word / power s % 2 == 0)) [
        | inl z ↦ let z' : word / power s % 2 ≡ 0 = ground arith in rw (z', zero-mul) refl
        | inr o ↦
            let o' : word / power s % 2 ≡ 1 = ground arith in rw o' (ground (arith, power-pos s))
      ])

below_lem : (s w v rest : ℕ) → v < power w → rest < power s → v * power s + rest < power w * power s
below_lem s w v rest h l = grind (arith, mul-le-mul_right (power s) h, add-mul v 1 (power s))

-- A word made of a field and the rest below it, once the field's encoder is known.
module _ (es : List Entry) (s w v : ℕ) (vs : List ℕ) where
  attach :
      (e : Entry)
      → v < power w
      → covers s es ≡ true
      → put e v ≡ v * power s
      → ((word : ℕ) → get word e ≡ word / power s % power w)
      → (compose es vs < power s) × (decode es (compose es vs) ≡ vs)
      → (compose (e ∷ es) (v ∷ vs) < power w * power s)
        × (decode (e ∷ es) (compose (e ∷ es) (v ∷ vs)) ≡ v ∷ vs)
  unfolding compose
  attach e h c encoded decoded ih =
      let rest : ℕ = compose es vs in
      let word : bit_or (put e v) rest ≡ v * power s + rest =
        rw encoded (bit_or_field s v rest ih.0) in
      let below : decode es (v * power s + rest) ≡ vs =
        rw (add_comm (v * power s) rest) (decode-above es s rest v c) ∙ ih.1 in
      let top : get (v * power s + rest) e ≡ v =
        decoded (v * power s + rest) ∙ head_lem s w v rest h ih.0 in
      (
        subst (λ (x : ℕ). x < power w * power s) (sym word) (below_lem s w v rest h ih.0),
        subst (λ (x : ℕ). decode (e ∷ es) x ≡ v ∷ vs) (sym word) (rw (top, below) refl),
      )

-- The word and its fields, below `top`.
pub compose-decode_fields :
    (es : List Entry) (top : ℕ) (vs : List ℕ)
    → covers top es ≡ true
    → top ≤ 32
    → Fits top es vs
    → (compose es vs < power top) × (decode es (compose es vs) ≡ vs)
unfolding covers compose
compose-decode_fields [] top [] c k f = (power-pos top, refl)
compose-decode_fields [] top (v ∷ vs) c k f = elim f [ ]
compose-decode_fields (bits name m s ∷ es) top [] c k f = elim f [ ]
compose-decode_fields (flag name m ∷ es) top [] c k f = elim f [ ]
compose-decode_fields (bits name m s ∷ es) top (v ∷ vs) c k f =
    let lt : ltb s top ≡ true = ground arith in
    let e : m ≡ ones (top - s) * power s = ground arith in
    let below : covers s es ≡ true = ground arith in
    rw (power_split s (top - s) top (ground arith)) (
      attach es s (top - s) v vs (bits name m s) f.0 below (put_bits name m s top v lt e k f.0)
        (λ word. get_bits name m s (top - s) word e)
        (compose-decode_fields es s vs below (ground arith) f.1))
compose-decode_fields (flag name m ∷ es) top (v ∷ vs) c k f =
    let e : m ≡ ones 1 * power (top - 1) = ground arith in
    let below : covers (top - 1) es ≡ true = ground arith in
    rw (power_split (top - 1) 1 top (ground arith)) (
      attach es (top - 1) 1 v vs (flag name m) f.0 below (put_flag name m (top - 1) v e f.0)
        (λ word. get_flag name m (top - 1) word e)
        (compose-decode_fields es (top - 1) vs below (ground arith) f.1))
