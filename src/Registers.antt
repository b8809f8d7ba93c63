-- ===== src/Registers.antt =====
-- npu/driver/rocket_registers.h: the encoders of register fields, and the register map as data.
-- The header has one inline function for each field, all of the form
-- `((val) << FIELD__SHIFT) & FIELD__MASK` on u32: here that form is `encode`, and a field is its
-- mask and its shift. A single-bit flag, which the header gives as a plain constant, is its mask.
-- The children of `Map` have the registers, block by block, in the order of the header.
pub mod Bits
pub mod Words
pub mod Fields
pub mod Map
pub mod RoundTrip
pub mod Examples
use Prim.Native.Nat.{bit_and, bit_or}
use Prim.Native.String.{String}
use rk3588_npu_gpu.Base.{
  ℕ, ◌-◌, ◌*◌, ◌/◌, ◌%◌, ◌^◌, Bool, true, false, ◌&&◌, not, List, [], ◌∷◌, map, ltb, ◌==◌,
  if◌then◌else◌,
}
use Bits.{ones, power}

abbrev pub u32 : ℕ → ℕ
u32 n = n % 2 ^ 32

pub record Field : Type 0 where
  pub mask : ℕ
  pub shift : ℕ

abbrev pub field : ℕ → ℕ → Field
field m s = record { mask = m; shift = s }

-- `((val) << FIELD__SHIFT) & FIELD__MASK`
abbrev pub encode : Field → ℕ → ℕ
encode f val = bit_and (u32 (val * 2 ^ f.shift)) f.mask

-- A field of a register, named without the register's prefix: a mask with its shift, or a flag.
pub data Entry : Type 0 where
  bits : (name : String) (mask shift : ℕ) → Entry
  flag : (name : String) (mask : ℕ) → Entry

pub record Register : Type 0 where
  pub offset : ℕ
  pub fields : List Entry

abbrev pub register : ℕ → List Entry → Register
register offset fields = record { offset = offset; fields = fields }

-- The bits of one field that is set to a value, and the word that a driver writes: the encoders of
-- the fields, combined by `|`.
abbrev pub put : Entry → ℕ → ℕ
put (bits name m s) v = encode (field m s) v
put (flag name m) v = if v == 0 then 0 else m

pub compose : List Entry → List ℕ → ℕ
compose [] vs = 0
compose (e ∷ es) [] = 0
compose (e ∷ es) (v ∷ vs) = bit_or (put e v) (compose es vs)

-- What a field of a word holds, as the hardware decodes it.
abbrev pub get : ℕ → Entry → ℕ
get word (bits name m s) = bit_and word m / 2 ^ s
get word (flag name m) = if bit_and word m == 0 then 0 else 1

abbrev pub decode : List Entry → ℕ → List ℕ
decode es word = map (get word) es

-- The fields partition the bits below `top`, from the highest down.
pub covers : ℕ → List Entry → Bool
covers top [] = top == 0
covers top (bits name m s ∷ es) = ltb s top && m == ones (top - s) * power s && covers s es
covers top (flag name m ∷ es) = ltb 0 top && m == ones 1 * power (top - 1) && covers (top - 1) es
