-- ===== src/Color/Convert.antt =====
-- src/lib/jxl/color_encoding_internal.cc: the conversions of a color encoding from and to JxlColorEncoding of
-- src/lib/include/jxl/color_encoding.h.
use ssimulacra2_vulcan.Common.{ℕ, Bool, false, ◌||◌, Option, none, some, ◌==◌, if◌then◌else◌, ◌>>=◌}
use ssimulacra2_vulcan.Arith.{Arith, Doubles, decimal}
use ssimulacra2_vulcan.Color.ColorSpace
use ssimulacra2_vulcan.Color.WhitePoint
use ssimulacra2_vulcan.Color.Primaries
use ssimulacra2_vulcan.Color.TransferFunction
use ssimulacra2_vulcan.Color.RenderingIntent
use ssimulacra2_vulcan.Color.Encoding.{
  Cmath, CieXy, PrimariesCieXy, CustomTransferFunction, ColorEncoding, set_color_space,
  set_transfer_function, set_gamma, get_gamma, get_white_point, get_primaries,
}
use ssimulacra2_vulcan.Color.Profile.{create_icc}
use ssimulacra2_vulcan.Color.Setters.{set_white_point, set_primaries}

-- JXL_TRANSFER_FUNCTION_GAMMA. The other members have the numbers of the enumerations above.
abbrev pub gamma_function : ℕ
gamma_function = 65535

pub record JxlColorEncoding (D : Type 0) : Type 0 where
  pub color_space : ℕ
  pub white_point : ℕ
  pub white_point_xy : CieXy D
  pub primaries : ℕ
  pub primaries_xy : PrimariesCieXy D
  pub transfer_function : ℕ
  pub gamma : D
  pub rendering_intent : ℕ

-- What a CustomTransferFunction is made with
abbrev pub fresh_function : CustomTransferFunction
fresh_function = record {
  nonserialized_color_space = ColorSpace.rgb;
  have_gamma = false;
  gamma = 10000000;
  transfer_function = TransferFunction.srgb;
}

abbrev pub with_primaries : ℕ → Bool
with_primaries color_space = color_space == ColorSpace.rgb || color_space == ColorSpace.unknown

-- ConvertExternalToInternalWhitePoint and its three kin: a member of the enumeration, or a failure
abbrev pub convert_enum : (ℕ → Bool) → ℕ → Option ℕ
convert_enum is_valid v = if is_valid v then some v else none

module _ {D : Type 0} ⦃d : Arith D⦄ where
  -- The primaries of the external encoding, which keeps what it has where there are none.
  unfoldable pub external_primaries :
      ColorEncoding → JxlColorEncoding D → Option (JxlColorEncoding D)
  unfolding get_primaries
  external_primaries c e =
      if with_primaries (e.color_space)
      then (get_primaries c
          >>= (λ p. some (record e { primaries = c.primaries; primaries_xy = p })))
      else some e

  unfoldable pub external_function :
      ColorEncoding → JxlColorEncoding D → Option (JxlColorEncoding D)
  unfolding get_gamma
  external_function c e =
      if c.tf.have_gamma
      then (get_gamma (c.tf)
          >>= (λ g. some (record e { transfer_function = gamma_function; gamma = g })))
      else some (record e { transfer_function = c.tf.transfer_function; gamma = decimal 0 0 })

  -- ConvertInternalToExternalColorEncoding; none where an assertion fails or the code aborts.
  unfoldable pub internal_to_external :
      ColorEncoding → JxlColorEncoding D → Option (JxlColorEncoding D)
  unfolding external_primaries external_function get_white_point
  internal_to_external c e = do
    xy ← get_white_point c
    e1 ←
        external_primaries c (record e {
          color_space = c.color_space;
          white_point = c.white_point;
          white_point_xy = xy;
        })
    e2 ← external_function c e1
    some (record e2 { rendering_intent = c.rendering_intent })

module _ {F D : Type 0} ⦃f : Arith F⦄ ⦃d : Arith D⦄ (conv : Doubles F D) (lib : Cmath F D) where
  unfoldable pub internal_white : JxlColorEncoding D → ColorEncoding → Option ColorEncoding
  unfolding set_white_point
  internal_white e c = do
    w ← convert_enum WhitePoint.is_valid (e.white_point)
    let c1 = record c { white_point = w }
    if e.white_point == WhitePoint.custom
        then set_white_point conv lib (e.white_point_xy) c1
        else some c1

  unfoldable pub internal_primaries : JxlColorEncoding D → ColorEncoding → Option ColorEncoding
  unfolding set_primaries
  internal_primaries e c = do
    p ← convert_enum Primaries.is_valid (e.primaries)
    let c1 = record c { primaries = p }
    if e.primaries == Primaries.custom then set_primaries conv lib (e.primaries_xy) c1 else some c1

  unfoldable pub internal_function : JxlColorEncoding D → Option CustomTransferFunction
  unfolding set_gamma set_transfer_function
  internal_function e =
      if e.transfer_function == gamma_function
      then set_gamma conv lib (e.gamma) fresh_function
      else (convert_enum TransferFunction.is_valid (e.transfer_function)
          >>= (λ tf. some (set_transfer_function tf fresh_function)))

  -- ConvertExternalToInternalColorEncoding; it does not fail where CreateICC does.
  unfoldable pub external_to_internal : JxlColorEncoding D → ColorEncoding → Option ColorEncoding
  unfolding set_color_space internal_white internal_primaries internal_function create_icc
  external_to_internal e c = do
    c1 ← internal_white e (set_color_space (e.color_space) c)
    c2 ← if with_primaries (e.color_space) then internal_primaries e c1 else some c1
    tf ← internal_function e
    intent ← convert_enum RenderingIntent.is_valid (e.rendering_intent)
    let (made, c3) = create_icc conv lib (record c2 { tf = tf; rendering_intent = intent })
    some c3
