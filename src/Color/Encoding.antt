-- ===== src/Color/Encoding.antt =====
-- src/lib/jxl/color_encoding_internal.h and src/lib/jxl/color_encoding_internal.cc: Customxy,
-- CustomTransferFunction and ColorEncoding with their getters and setters. An int32_t is its 32 bits.
use ssimulacra2_vulcan.Common.{
  ℕ, ◌-◌, ◌^◌, Bool, true, false, not, ◌&&◌, ◌||◌, Option, none, some, ltb, ◌==◌, if◌then◌else◌,
  ◌>>=◌, ◌>>◌, guard, Bytes,
}
use ssimulacra2_vulcan.Arith.{Arith, Doubles, ◌⊖◌, ◌⊗◌, ◌⊘◌, neg, abs, less, equal, decimal}
use ssimulacra2_vulcan.Color.ColorSpace
use ssimulacra2_vulcan.Color.WhitePoint
use ssimulacra2_vulcan.Color.Primaries
use ssimulacra2_vulcan.Color.TransferFunction

-- What the compiler and the C library have for these files: isfinite, roundf, a float cast to int32_t, exp,
-- copysignf, a double printed with %g; and max_l1 of ApproxEq, which the build chooses.
pub record Cmath (F D : Type 0) : Type 0 where
  pub is_finite : F → Bool
  pub roundf : F → F
  pub to_int32 : F → ℕ
  pub exp : D → D
  pub copysignf : F → F → F
  pub print : D → Bytes
  pub max_l1 : D

-- An operator <= of floats
abbrev pub at_most : {A : Type 0} ⦃a : Arith A⦄ → A → A → Bool
at_most x y = less x y || equal x y

pub record CieXy (D : Type 0) : Type 0 where
  pub x : D
  pub y : D

pub record PrimariesCieXy (D : Type 0) : Type 0 where
  pub r : CieXy D
  pub g : CieXy D
  pub b : CieXy D

abbrev pub three : {D : Type 0} → D → D → D → D → D → D → PrimariesCieXy D
three rx ry gx gy bx by = record {
  r = record { x = rx; y = ry };
  g = record { x = gx; y = gy };
  b = record { x = bx; y = by };
}

-- int32_t x and y
pub record CustomXy : Type 0 where
  pub x : ℕ
  pub y : ℕ

pub record CustomTransferFunction : Type 0 where
  pub nonserialized_color_space : ℕ
  pub have_gamma : Bool
  pub gamma : ℕ
  pub transfer_function : ℕ

pub record ColorEncoding : Type 0 where
  pub all_default : Bool
  pub white_point : ℕ
  pub primaries : ℕ
  pub tf : CustomTransferFunction
  pub rendering_intent : ℕ
  pub want_icc : Bool
  pub have_fields : Bool
  pub icc : Bytes
  pub color_space : ℕ
  pub cmyk : Bool
  pub white : CustomXy
  pub red : CustomXy
  pub green : CustomXy
  pub blue : CustomXy

abbrev pub is_unknown : CustomTransferFunction → Bool
is_unknown t = not t.have_gamma && t.transfer_function == TransferFunction.unknown

unfoldable pub set_transfer_function : ℕ → CustomTransferFunction → CustomTransferFunction
set_transfer_function tf t = record t { have_gamma = false; transfer_function = tf }

abbrev pub is_gray : ColorEncoding → Bool
is_gray c = c.color_space == ColorSpace.gray

abbrev pub has_primaries : ColorEncoding → Bool
has_primaries c = not (is_gray c) && not (c.color_space == ColorSpace.xyb)

-- Whether the white point is fixed by the color space, and the encoding with it.
unfoldable pub implicit_white_point : ColorEncoding → Bool × ColorEncoding
implicit_white_point c =
    if c.color_space == ColorSpace.xyb
    then (true, record c { white_point = WhitePoint.d65 })
    else (false, c)

unfoldable pub set_color_space : ℕ → ColorEncoding → ColorEncoding
set_color_space cs c = record c {
  color_space = cs;
  tf = record (c.tf) { nonserialized_color_space = cs };
}

abbrev pub with_gamma : ℕ → CustomTransferFunction → CustomTransferFunction
with_gamma g t = record t {
  have_gamma = true;
  gamma = g;
  transfer_function = TransferFunction.unknown;
}

abbrev pub gamma_mul : ℕ
gamma_mul = 10000000

abbrev pub max_gamma : ℕ
max_gamma = 8192

module _ {D : Type 0} ⦃d : Arith D⦄ where
  -- An int32_t converted to double
  abbrev pub double_of_int32 : ℕ → D
  double_of_int32 i = if ltb i (2 ^ 31) then decimal i 0 else neg (decimal (2 ^ 32 - i) 0)

  -- F64FromCustomxyI32
  abbrev pub f64_from_customxy : ℕ → D
  f64_from_customxy i = double_of_int32 i ⊗ decimal 1 6

  unfoldable pub get_xy : CustomXy → CieXy D
  get_xy c = record { x = f64_from_customxy (c.x); y = f64_from_customxy (c.y) }

  unfoldable pub get_gamma : CustomTransferFunction → Option D
  get_gamma t = guard t.have_gamma >> some (decimal (t.gamma) 0 ⊗ decimal 1 7)

  unfoldable pub get_white_point : ColorEncoding → Option (CieXy D)
  unfolding get_xy
  get_white_point c =
      if c.white_point == WhitePoint.custom
      then some (get_xy (c.white))
      else if c.white_point == WhitePoint.d65
      then some (record { x = decimal 3127 4; y = decimal 3290 4 })
      else if c.white_point == WhitePoint.dci
      then some (record { x = decimal 314 3; y = decimal 351 3 })
      else if c.white_point == WhitePoint.equal_energy
      then some (record { x = decimal 10 1 ⊘ decimal 3 0; y = decimal 10 1 ⊘ decimal 3 0 })
      else none

  -- The switch of GetPrimaries
  unfoldable pub primaries_of : ColorEncoding → Option (PrimariesCieXy D)
  unfolding get_xy
  primaries_of c =
      if c.primaries == Primaries.custom
      then some (record { r = get_xy (c.red); g = get_xy (c.green); b = get_xy (c.blue) })
      else if c.primaries == Primaries.srgb
      then some (
          three (decimal 639998686 9) (decimal 330010138 9) (decimal 300003784 9)
            (decimal 600003357 9) (decimal 150002046 9) (decimal 59997204 9))
      else if c.primaries == Primaries.bt2100
      then some (
          three (decimal 708 3) (decimal 292 3) (decimal 170 3) (decimal 797 3) (decimal 131 3)
            (decimal 46 3))
      else if c.primaries == Primaries.p3
      then some (
          three (decimal 680 3) (decimal 320 3) (decimal 265 3) (decimal 690 3) (decimal 150 3)
            (decimal 60 3))
      else none

  unfoldable pub get_primaries : ColorEncoding → Option (PrimariesCieXy D)
  unfolding primaries_of
  get_primaries c = guard (has_primaries c) >> primaries_of c

module _ {F D : Type 0} ⦃f : Arith F⦄ ⦃d : Arith D⦄ (conv : Doubles F D) (lib : Cmath F D) where
  open conv use {widen, narrow}
  open lib use {max_l1, roundf, to_int32}

  abbrev pub approx_eq : D → D → Bool
  approx_eq a b = at_most (abs (a ⊖ b)) max_l1

  unfoldable pub set_gamma : D → CustomTransferFunction → Option CustomTransferFunction
  set_gamma g t =
      if less g (widen (decimal 1 0 ⊘ decimal max_gamma 0)) || less (decimal 10 1) g
      then none
      else if approx_eq g (decimal 10 1)
      then some (record t { have_gamma = false; transfer_function = TransferFunction.linear })
      else if approx_eq g (decimal 10 1 ⊘ decimal 26 1)
      then some (record t { have_gamma = false; transfer_function = TransferFunction.dci })
      else some (with_gamma (to_int32 (roundf (narrow (g ⊗ decimal gamma_mul 0)))) t)

  -- Whether the curve is fixed by the color space, and the function with it; none where the assertion fails.
  unfoldable pub set_implicit : CustomTransferFunction → Option (Bool × CustomTransferFunction)
  unfolding set_gamma
  set_implicit t =
      if t.nonserialized_color_space == ColorSpace.xyb
      then (set_gamma (decimal 10 1 ⊘ decimal 3 0) t >>= (λ fixed. some (true, fixed)))
      else some (false, t)
