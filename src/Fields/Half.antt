-- ===== src/Fields/Half.antt =====
-- src/lib/jxl/fields.cc: F16Coder, a float in 16 bits. A float is its 32-bit pattern, which the code
-- gets by memcpy; the product of floats in the branch for subnormals is the compiler's.
use ssimulacra2_vulcan.Common.{
  ℕ, ◌+◌, ◌-◌, ◌*◌, ◌/◌, ◌%◌, ◌^◌, ◌<◌, ◌≤◌, ◌≡◌, ◌≢◌, ◌++◌, arith, Option, none, some, ltb, leb,
  ◌==◌, if◌then◌else◌, Bool, true, false, not, ◌&&◌, Option-cases, inl, inr, length,
}
use ssimulacra2_vulcan.Fields.Bits.{
  Bits, Reader, reader, write_bits, read_bits, read_bits-write_bits, length-write_bits,
}

abbrev pub sign_of : ℕ → ℕ
sign_of bits32 = bits32 / 2 ^ 31

abbrev pub exponent_of : ℕ → ℕ
exponent_of bits32 = bits32 / 2 ^ 23 % 256

abbrev pub mantissa_of : ℕ → ℕ
mantissa_of bits32 = bits32 % 2 ^ 23

-- The 16 bits of a float, if its exponent is at most 15. `exp` is exponent_of - 127.
unfoldable pub half_bits : ℕ → Option ℕ
half_bits bits32 =
    let e = exponent_of bits32 in
    let m = mantissa_of bits32 in
    let sub_exp = 113 - e in
    if ltb 142 e
    then none
    else if ltb e 103
    then some 0
    else if ltb e 113
    then some (sign_of bits32 * 2 ^ 15 + (2 ^ (10 - sub_exp) + m / 2 ^ (13 + sub_exp)))
    else some (sign_of bits32 * 2 ^ 15 + (e - 112) * 2 ^ 10 + m / 2 ^ 13)

unfoldable pub write_f16 : ℕ → Option Bits
write_f16 bits32 = elim (half_bits bits32) [ none ↦ none | some h ↦ some (write_bits 16 h) ]

-- No infinity and no NaN, and at most 65504 in size; positive floats are ordered as their patterns.
unfoldable pub can_encode_f16 : ℕ → Bool
can_encode_f16 bits32 = not (exponent_of bits32 == 255) && leb (bits32 % 2 ^ 31) 1199562752

-- A number whose exponent is from -14 to 15, with any mantissa.
unfoldable pub IsInRange : ℕ → Type 0
IsInRange v = (v < 2 ^ 32) × (112 < exponent_of v) × (exponent_of v < 143)

abbrev cut_half : ℕ → ℕ
cut_half v = sign_of v * 2 ^ 15 + (exponent_of v - 112) * 2 ^ 10 + mantissa_of v / 2 ^ 13

half_of_normal : (v : ℕ) → IsInRange v → half_bits v ≡ some (cut_half v)
unfolding IsInRange half_bits
half_of_normal v (h, lo, hi) =
    let a : ltb 142 (exponent_of v) ≡ false = ground arith in
    let b : ltb (exponent_of v) 103 ≡ false = ground arith in
    let c : ltb (exponent_of v) 113 ≡ false = ground arith in rw (a, b, c)

-- The parts of the 16 bits.
cut_half-parts :
    (v : ℕ)
    → IsInRange v
    → (cut_half v < 2 ^ 16)
      × (cut_half v / 2 ^ 15 ≡ sign_of v)
      × (cut_half v / 2 ^ 10 % 32 ≡ exponent_of v - 112)
      × (cut_half v % 2 ^ 10 ≡ mantissa_of v / 2 ^ 13)
unfolding IsInRange
cut_half-parts v (h, lo, hi) = (omega arith, omega arith, omega arith, omega arith)

half_bits-not_none : (v : ℕ) → exponent_of v ≤ 142 → half_bits v ≢ none
unfolding half_bits
half_bits-not_none v h e = ground arith

-- What CanEncode accepts has an exponent that Write accepts.
pub write_f16-size :
    (v : ℕ)
    → can_encode_f16 v ≡ true
    → (bits : Bits) × (write_f16 v ≡ some bits) × (length bits ≡ 16)
unfolding can_encode_f16 write_f16
write_f16-size v h = elim (Option-cases (half_bits v)) [
  | inl none_made ↦
      let small : exponent_of v ≤ 142 = ground arith in
      absurd (half_bits-not_none v small none_made)
  | inr (b, made) ↦ (write_bits 16 b, rw (write_f16, made), length-write_bits 16 b)
]

-- (1 / 16384) * (mantissa * (1 / 1024)) as a pattern, for mantissa < 1024.
module _ (subnormal : ℕ → ℕ) where
  -- Whether the value is finite, and its pattern; for an infinity or a NaN the value is left alone.
  unfoldable pub float_of_half : ℕ → Option ℕ
  float_of_half bits16 =
      let sign = bits16 / 2 ^ 15 in
      let biased_exp = bits16 / 2 ^ 10 % 32 in
      let mantissa = bits16 % 2 ^ 10 in
      if biased_exp == 31
      then none
      else if biased_exp == 0
      then some (if sign == 0 then subnormal mantissa else (subnormal mantissa + 2 ^ 31) % 2 ^ 32)
      else some (sign * 2 ^ 31 + (biased_exp + 112) * 2 ^ 23 + mantissa * 2 ^ 13)

  unfoldable pub read_f16 : Reader → Option ℕ × Reader
  read_f16 r = let (bits16, rest) = read_bits 16 r in (float_of_half bits16, rest)

  float_of_cut_half : (v : ℕ) → IsInRange v → float_of_half (cut_half v) ≡ some (v - v % 2 ^ 13)
  unfolding float_of_half
  float_of_cut_half v h =
      let (low, s, e, m) = cut_half-parts v h in rw (s, e, m) (unfold IsInRange in ground arith)

  -- A number whose exponent is from -14 to 15 is written, and comes back with its mantissa cut to
  -- ten bits: it is rounded towards zero.
  pub read_f16-write_f16 :
      (v : ℕ) (rest : Bits)
      → IsInRange v
      → (bits : Bits) × (write_f16 v ≡ some bits)
        × (length bits ≡ 16)
        × (read_f16 (reader (bits ++ rest)) ≡ (some (v - v % 2 ^ 13), reader rest))
  unfolding write_f16 read_f16
  read_f16-write_f16 v rest h =
      let parts = cut_half-parts v h in
      (
        write_bits 16 (cut_half v),
        rw (write_f16, half_of_normal v h),
        length-write_bits 16 (cut_half v),
        rw (read_bits-write_bits 16 (cut_half v) rest (parts.0), float_of_cut_half v h),
      )
