-- ===== src/Color/Names.antt =====
-- src/lib/jxl/color_encoding_internal.cc: the names of the enumerations, and Description. Where the code aborts on a number that
-- is no member of its enumeration, there is none.
use ssimulacra2_vulcan.Common.{
  ℕ, Bool, false, not, Option, none, some, [], ◌++◌, ◌==◌, if◌then◌else◌, ◌>>=◌, Bytes, codes,
}
use ssimulacra2_vulcan.Arith.{Arith, Doubles}
use ssimulacra2_vulcan.Color.ColorSpace
use ssimulacra2_vulcan.Color.WhitePoint
use ssimulacra2_vulcan.Color.Primaries
use ssimulacra2_vulcan.Color.TransferFunction
use ssimulacra2_vulcan.Color.RenderingIntent
use ssimulacra2_vulcan.Color.Encoding.{
  Cmath, CieXy, CustomTransferFunction, ColorEncoding, has_primaries, implicit_white_point,
  set_implicit, get_gamma, get_white_point, get_primaries,
}

unfoldable pub color_space_name : ℕ → Option Bytes
color_space_name v =
    if v == ColorSpace.rgb
    then some (codes "RGB")
    else if v == ColorSpace.gray
    then some (codes "Gra")
    else if v == ColorSpace.xyb
    then some (codes "XYB")
    else if v == ColorSpace.unknown
    then some (codes "CS?")
    else none

unfoldable pub white_point_name : ℕ → Option Bytes
white_point_name v =
    if v == WhitePoint.d65
    then some (codes "D65")
    else if v == WhitePoint.custom
    then some (codes "Cst")
    else if v == WhitePoint.equal_energy
    then some (codes "EER")
    else if v == WhitePoint.dci
    then some (codes "DCI")
    else none

unfoldable pub primaries_name : ℕ → Option Bytes
primaries_name v =
    if v == Primaries.srgb
    then some (codes "SRG")
    else if v == Primaries.bt2100
    then some (codes "202")
    else if v == Primaries.p3
    then some (codes "DCI")
    else if v == Primaries.custom
    then some (codes "Cst")
    else none

unfoldable pub transfer_function_name : ℕ → Option Bytes
transfer_function_name v =
    if v == TransferFunction.srgb
    then some (codes "SRG")
    else if v == TransferFunction.linear
    then some (codes "Lin")
    else if v == TransferFunction.bt709
    then some (codes "709")
    else if v == TransferFunction.pq
    then some (codes "PeQ")
    else if v == TransferFunction.hlg
    then some (codes "HLG")
    else if v == TransferFunction.dci
    then some (codes "DCI")
    else if v == TransferFunction.unknown
    then some (codes "TF?")
    else none

unfoldable pub rendering_intent_name : ℕ → Option Bytes
rendering_intent_name v =
    if v == RenderingIntent.perceptual
    then some (codes "Per")
    else if v == RenderingIntent.relative
    then some (codes "Rel")
    else if v == RenderingIntent.saturation
    then some (codes "Sat")
    else if v == RenderingIntent.absolute
    then some (codes "Abs")
    else none

module _ {F D : Type 0} ⦃f : Arith F⦄ ⦃d : Arith D⦄ (conv : Doubles F D) (lib : Cmath F D) where
  abbrev point_text : CieXy D → Bytes
  point_text p = (lib.print (p.x) ++ codes ";") ++ lib.print (p.y)

  unfoldable pub custom_white_text : ColorEncoding → Option Bytes
  unfolding get_white_point
  custom_white_text c = do w ← get_white_point c; some (point_text w)

  unfoldable pub custom_primaries_text : ColorEncoding → Option Bytes
  unfolding get_primaries
  custom_primaries_text c = do
    p ← get_primaries c
    some ((((point_text (p.r) ++ codes ";") ++ point_text (p.g)) ++ codes ";") ++ point_text (p.b))

  unfoldable pub gamma_text : CustomTransferFunction → Option Bytes
  unfolding get_gamma
  gamma_text t = do g ← get_gamma t; some (codes "g" ++ lib.print g)

  -- What follows an underscore, unless it is left out.
  abbrev part : Bool → Option Bytes → Option Bytes
  part left_out text = if left_out then some [] else (text >>= (λ t. some (codes "_" ++ t)))

  unfoldable pub description : ColorEncoding → Option Bytes
  unfolding color_space_name white_point_name primaries_name transfer_function_name
      rendering_intent_name custom_white_text custom_primaries_text gamma_text set_implicit
      implicit_white_point
  description c_in = do
    let (white_fixed, c) = implicit_white_point c_in
    space ← color_space_name (c.color_space)
    white ← part white_fixed (
        if c.white_point == WhitePoint.custom
        then custom_white_text c
        else white_point_name (c.white_point))
    primaries ← part (not (has_primaries c)) (
        if c.primaries == Primaries.custom
        then custom_primaries_text c
        else primaries_name (c.primaries))
    intent ← part false (rendering_intent_name (c.rendering_intent))
    (curve_fixed, tf) ← set_implicit conv lib (c.tf)
    curve ←
        part curve_fixed
          (if tf.have_gamma then gamma_text tf else transfer_function_name (tf.transfer_function))
    some ((((space ++ white) ++ primaries) ++ intent) ++ curve)
