-- ===== src/Registers/RoundTrip.antt =====
-- Every register of the map: its fields partition the word, so that encoding and decoding are
-- inverse to each other.
use rk3588_npu_gpu.Base.{
  ℕ, zero, suc, ◌^◌, ◌≤◌, ◌<◌, ◌≡◌, refl, Bool, true, ◌&&◌, some, List, [], ◌∷◌, ltb, get_elem?,
  all, all-get_elem?, ◌%◌, ◌==◌, ◌∙◌, arith,
}
use rk3588_npu_gpu.Registers.{Register, compose, decode, covers}
use rk3588_npu_gpu.Registers.Bits.{power}
use rk3588_npu_gpu.Registers.Words.{compose-decode_below}
use rk3588_npu_gpu.Registers.Fields.{Fits, compose-decode_fields}
use rk3588_npu_gpu.Registers.Map.{registers}

-- The fields of every register partition its 32 bits: no two overlap, and no bit is left out.
registers_cover : all (λ r. covers 32 r.fields) registers ≡ true
unfolding covers
registers_cover = refl

fits_u32 : (word : ℕ) → word < 2 ^ 32 → word % power 32 ≡ word
fits_u32 word h = omega arith

-- For every register of the header and every 32-bit word, the word is what the header's encoders
-- make of the fields that its masks and shifts decode from it.
pub register_encodes-decodes :
    (i word : ℕ) (r : Register)
    → get_elem? registers i ≡ some r
    → word < 2 ^ 32
    → compose r.fields (decode r.fields word) ≡ word
register_encodes-decodes i word r at h =
    compose-decode_below r.fields 32 word
      (all-get_elem? (λ (s : Register). covers 32 s.fields) registers i registers_cover at)
      (omega arith)
    ∙ fits_u32 word h

-- For every register of the header and values that fit its fields, one for each, the word that the
-- header's encoders make is a 32-bit word, and decodes to exactly these values: no field disturbs
-- another.
pub register_decodes-encodes :
    (i : ℕ) (r : Register) (vs : List ℕ)
    → get_elem? registers i ≡ some r
    → Fits 32 r.fields vs
    → (compose r.fields vs < 2 ^ 32) × (decode r.fields (compose r.fields vs) ≡ vs)
register_decodes-encodes i r vs at f =
    compose-decode_fields r.fields 32 vs
      (all-get_elem? (λ (s : Register). covers 32 s.fields) registers i registers_cover at)
      (omega arith) f

-- Each offset is a multiple of 4 below 64 KiB and above the one before.
abbrev rises : ℕ → List Register → Bool
rises low [] = true
rises low (r ∷ rs) =
    r.offset % 4 == 0 && ltb r.offset 0x10000 && ltb low (suc r.offset) && rises (suc r.offset) rs

registers_rise : rises 0 registers ≡ true
registers_rise = refl

rises-le :
    (rs : List Register) (low j : ℕ) {s : Register}
    → rises low rs ≡ true
    → get_elem? rs j ≡ some s
    → low ≤ s.offset
rises-le [] low j {s} h b = cc
rises-le (q ∷ rs) low zero {s} h b = ground arith
rises-le (q ∷ rs) low (suc j) {s} h b = ground (arith, rises-le rs (suc q.offset) j {s = s})

rises-lt :
    (rs : List Register) (low i j : ℕ) {r s : Register}
    → rises low rs ≡ true
    → get_elem? rs i ≡ some r
    → get_elem? rs j ≡ some s
    → i < j
    → r.offset < s.offset
rises-lt [] low i j {r} {s} h a b lt = cc
rises-lt (q ∷ rs) low zero zero {r} {s} h a b lt = absurd (omega arith)
rises-lt (q ∷ rs) low (suc i) zero {r} {s} h a b lt = absurd (omega arith)
rises-lt (q ∷ rs) low zero (suc j) {r} {s} h a b lt =
    ground (arith, rises-le rs (suc q.offset) j {s = s})
rises-lt (q ∷ rs) low (suc i) (suc j) {r} {s} h a b lt =
    rises-lt rs (suc q.offset) i j (ground arith) a b (omega arith)

-- Two registers at different places of the header have different offsets, in the header's order.
pub registers_ordered :
    (i j : ℕ) (r s : Register)
    → get_elem? registers i ≡ some r
    → get_elem? registers j ≡ some s
    → i < j
    → r.offset < s.offset
registers_ordered i j r s a b lt = rises-lt registers 0 i j registers_rise a b lt
