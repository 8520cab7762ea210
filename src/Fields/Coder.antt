-- ===== src/Fields/Coder.antt =====
-- src/lib/jxl/fields.h (BitsCoder, the coders' interface) and the four coders of src/lib/jxl/fields.cc
-- behind one type: how a field stands in the bit stream.
use ssimulacra2_vulcan.Common.{
  ℕ, ◌+◌, ◌-◌, ◌*◌, ◌%◌, ◌^◌, ◌<◌, ◌≡◌, ◌⊎◌, inl, inr, refl, List, ◌++◌, arith, length, leb,
  if◌then◌else◌, Bool-cases, ◌∙◌, Option, none, some, ◌>>=◌, some-eq, bind-eq-some,
}
use ssimulacra2_vulcan.Fields.Bits.{
  Bits, Reader, reader, write_bits, read_bits, read_bits-write_bits, length-write_bits,
}
use ssimulacra2_vulcan.Fields.VarInt.{
  write_u64, read_u64, u64_size, read_u64-write_u64, length-write_u64,
}
use ssimulacra2_vulcan.Fields.Selector.{
  choose_selector, write_u32, read_u32, max_encoded_bits, read_u32-write_u32, write_u32-size,
}
use ssimulacra2_vulcan.Fields.Half.{
  write_f16, read_f16, can_encode_f16, float_of_half, half_bits, IsInRange, read_f16-write_f16,
  write_f16-size,
}

pub data Coder : Type 0 where
  bits : ℕ → Coder
  u32 : List ℕ → Coder
  u64 : Coder
  f16 : Coder

-- Write, where the value can be encoded.
unfoldable pub write_value : Coder → ℕ → Option Bits
write_value (bits n) v = if leb (2 ^ n) v then none else some (write_bits n v)
write_value (u32 enc) v = write_u32 enc v
write_value u64 v = some (write_u64 v)
write_value f16 v = write_f16 v

-- CanEncode, and the bits that it counts.
unfoldable pub value_size : Coder → ℕ → Option ℕ
value_size (bits n) v = if leb (2 ^ n) v then none else some n
value_size (u32 enc) v = do chosen ← choose_selector enc v; some (chosen.1)
value_size u64 v = some (u64_size v)
value_size f16 v = if can_encode_f16 v then some 16 else none

-- MaxEncodedBits
unfoldable pub max_size : Coder → ℕ
max_size (bits n) = n
max_size (u32 enc) = max_encoded_bits enc
max_size u64 = 2 + 12 + 6 * (8 + 1) + (4 + 1)
max_size f16 = 16

module _ (subnormal : ℕ → ℕ) where
  -- Read; no value where F16Coder refuses.
  unfoldable pub read_value : Coder → Reader → Option ℕ × Reader
  read_value (bits n) r = let (v, rest) = read_bits n r in (some v, rest)
  read_value (u32 enc) r = let (v, rest) = read_u32 enc r in (some v, rest)
  read_value u64 r = let (v, rest) = read_u64 r in (some v, rest)
  read_value f16 r = read_f16 subnormal r

-- The values of a field that come back: a word of its size, and a float of the 16-bit format that
-- is zero or not subnormal.
unfoldable pub Fits : Coder → ℕ → Type 0
Fits (bits n) v = Unit {0}
Fits (u32 enc) v = (length enc ≡ 4) × (v < 2 ^ 32)
Fits u64 v = v < 2 ^ 64
Fits f16 v = (v ≡ 0) ⊎ (IsInRange v × (v % 2 ^ 13 ≡ 0))

zero_trip :
    (subnormal : ℕ → ℕ) (rest : Bits)
    → subnormal 0 ≡ 0
    → read_f16 subnormal (reader (write_bits 16 0 ++ rest)) ≡ (some 0, reader rest)
unfolding read_f16 float_of_half
zero_trip subnormal rest h = rw (read_bits-write_bits 16 0 rest (omega arith), h)

-- A value that is written is read back, with any coder.
pub read_value-write_value :
    (subnormal : ℕ → ℕ) (c : Coder) (v : ℕ) (written rest : Bits)
    → subnormal 0 ≡ 0
    → Fits c v
    → write_value c v ≡ some written
    → read_value subnormal c (reader (written ++ rest)) ≡ (some v, reader rest)
unfolding Fits write_value read_value
read_value-write_value subnormal (bits n) v written rest z h e = elim (Bool-cases (leb (2 ^ n) v)) [
  | inl large ↦ absurd (ground arith)
  | inr small ↦
      let exact : write_bits n v ≡ written = some-eq (rw small at e) in
      rw (← exact, read_bits-write_bits n v rest (ground arith))
]
read_value-write_value subnormal (u32 enc) v written rest z (four, small) e =
    rw (read_u32-write_u32 enc v written rest four small e)
read_value-write_value subnormal u64 v written rest z h e =
    let exact : write_u64 v ≡ written = some-eq e in rw (← exact, (read_u64-write_u64 v rest h).0)
read_value-write_value subnormal f16 v written rest z (inl h) e =
    let exact : write_bits 16 0 ≡ written = some-eq (unfold write_f16 half_bits in rw h at e) in
    rw (← exact, h, zero_trip subnormal rest z)
read_value-write_value subnormal f16 v written rest z (inr (r, cut)) e =
    let (made, e', l, back) = read_f16-write_f16 subnormal v rest r in
    let exact : made ≡ written = some-eq (rw e' at e) in
    let whole : v - v % 2 ^ 13 ≡ v = omega (arith, cut) in rw (← exact, back, whole)

-- The size that CanEncode counts is the size of what Write writes.
pub write_value-size :
    (c : Coder) (v n : ℕ)
    → value_size c v ≡ some n
    → (written : Bits) × (write_value c v ≡ some written) × (length written ≡ n)
unfolding value_size write_value
write_value-size (bits k) v n e = elim (Bool-cases (leb (2 ^ k) v)) [
  | inl large ↦ absurd (ground arith)
  | inr small ↦ (write_bits k v, rw small, length-write_bits k v ∙ some-eq (rw small at e))
]
write_value-size (u32 enc) v n e =
    let ((selector, total), c, size) = bind-eq-some (choose_selector enc v) _ e in
    let (made, w, l) = write_u32-size enc v selector total c in (made, w, l ∙ some-eq size)
write_value-size u64 v n e = (write_u64 v, refl, length-write_u64 v ∙ some-eq e)
write_value-size f16 v n e = elim (Bool-cases (can_encode_f16 v)) [
  | inl fine ↦ let (made, w, l) = write_f16-size v fine in (made, w, l ∙ some-eq (rw fine at e))
  | inr bad ↦ absurd (ground arith)
]
