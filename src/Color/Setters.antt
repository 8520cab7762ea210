-- ===== src/Color/Setters.antt =====
-- src/lib/jxl/color_encoding_internal.h and src/lib/jxl/color_encoding_internal.cc: the setters of a color encoding, and how two are compared.
use ssimulacra2_vulcan.Common.{
  ℕ, Bool, true, not, ◌&&◌, ◌||◌, Option, none, some, [], ◌==◌, if◌then◌else◌, ◌>>=◌, ◌>>◌, guard,
}
use ssimulacra2_vulcan.Arith.{Arith, Doubles, ◌⊗◌, ◌⊘◌, neg, equal, decimal}
use ssimulacra2_vulcan.Fields.Visitors.{can_encode}
use ssimulacra2_vulcan.Color.ColorSpace
use ssimulacra2_vulcan.Color.WhitePoint
use ssimulacra2_vulcan.Color.Primaries
use ssimulacra2_vulcan.Color.TransferFunction
use ssimulacra2_vulcan.Color.Encoding.{
  Cmath, at_most, CieXy, PrimariesCieXy, CustomXy, CustomTransferFunction, ColorEncoding,
  set_transfer_function, is_gray, has_primaries, approx_eq,
}
use ssimulacra2_vulcan.Color.Profile.{create_icc}
use ssimulacra2_vulcan.Color.Visit.{visit_xy}

-- CustomTransferFunction::IsSame
unfoldable pub is_same_function : CustomTransferFunction → CustomTransferFunction → Bool
is_same_function a b =
    if a.have_gamma
    then b.have_gamma && a.gamma == b.gamma
    else not b.have_gamma && a.transfer_function == b.transfer_function

abbrev same_xy : CustomXy → CustomXy → Bool
same_xy a b = a.x == b.x && a.y == b.y

-- The primaries, where both encodings have them
unfoldable pub same_primaries : ColorEncoding → ColorEncoding → Bool
same_primaries a b =
    a.primaries == b.primaries
    && (if a.primaries == Primaries.custom
        then same_xy (a.red) (b.red) && (same_xy (a.green) (b.green) && same_xy (a.blue) (b.blue))
        else true)

unfoldable pub same_color_space : ColorEncoding → ColorEncoding → Bool
unfolding same_primaries
same_color_space a b =
    a.color_space == b.color_space
    && (a.white_point == b.white_point
        && ((if a.white_point == WhitePoint.custom then same_xy (a.white) (b.white) else true)
            && (if has_primaries a
                then has_primaries b && same_primaries a b
                else not (has_primaries b))))

unfoldable pub same_color_encoding : ColorEncoding → ColorEncoding → Bool
unfolding same_color_space is_same_function
same_color_encoding a b = same_color_space a b && is_same_function (a.tf) (b.tf)

-- IsSRGB and IsLinearSRGB, by the curve that they ask for
unfoldable pub is_srgb_with : ℕ → ColorEncoding → Bool
is_srgb_with curve c =
    c.have_fields
    && ((is_gray c || c.color_space == ColorSpace.rgb)
        && (c.white_point == WhitePoint.d65
            && (c.primaries == Primaries.srgb
                && (not (c.tf.have_gamma) && c.tf.transfer_function == curve))))

abbrev pub is_srgb : ColorEncoding → Bool
is_srgb c = is_srgb_with TransferFunction.srgb c

abbrev pub is_linear_srgb : ColorEncoding → Bool
is_linear_srgb c = is_srgb_with TransferFunction.linear c

module _ {F D : Type 0} ⦃f : Arith F⦄ ⦃d : Arith D⦄ (conv : Doubles F D) (lib : Cmath F D) where
  -- F64ToCustomxyI32
  unfoldable pub f64_to_customxy : D → Option ℕ
  f64_to_customxy v = do
    guard (at_most (neg (decimal 4 0)) v && at_most v (decimal 4 0))
    some (lib.to_int32 (lib.roundf (conv.narrow (v ⊗ decimal 1000000 0))))

  -- Customxy::Set
  unfoldable pub set_xy : CieXy D → Option CustomXy
  unfolding f64_to_customxy
  set_xy xy = do
    x ← f64_to_customxy (xy.x)
    y ← f64_to_customxy (xy.y)
    sized ← can_encode (visit_xy (record { x = x; y = y }))
    some (sized.0)

  abbrev near_xy : CieXy D → D → D → Bool
  near_xy xy x y = approx_eq conv lib (xy.x) x && approx_eq conv lib (xy.y) y

  abbrev is_zero : D → Bool
  is_zero v = equal v (decimal 0 1)

  unfoldable pub set_white_point : CieXy D → ColorEncoding → Option ColorEncoding
  unfolding set_xy
  set_white_point xy c =
      if is_zero (xy.x) || is_zero (xy.y)
      then none
      else if near_xy xy (decimal 3127 4) (decimal 3290 4)
      then some (record c { white_point = WhitePoint.d65 })
      else if near_xy xy (decimal 10 1 ⊘ decimal 3 0) (decimal 10 1 ⊘ decimal 3 0)
      then some (record c { white_point = WhitePoint.equal_energy })
      else if near_xy xy (decimal 314 3) (decimal 351 3)
      then some (record c { white_point = WhitePoint.dci })
      else (set_xy xy
          >>= (λ white. some (record c { white_point = WhitePoint.custom; white = white })))

  abbrev near_primaries : PrimariesCieXy D → D → D → D → D → D → D → Bool
  near_primaries p rx ry gx gy bx by =
      near_xy (p.r) rx ry && (near_xy (p.g) gx gy && near_xy (p.b) bx by)

  unfoldable pub custom_primaries : PrimariesCieXy D → ColorEncoding → Option ColorEncoding
  unfolding set_xy
  custom_primaries p c = do
    red ← set_xy (p.r)
    green ← set_xy (p.g)
    blue ← set_xy (p.b)
    some (record c { primaries = Primaries.custom; red = red; green = green; blue = blue })

  unfoldable pub set_primaries : PrimariesCieXy D → ColorEncoding → Option ColorEncoding
  unfolding custom_primaries
  set_primaries p c =
      if not (has_primaries c)
      then none
      else if is_zero (p.r.x)
          || (is_zero (p.r.y)
              || (is_zero (p.g.x) || (is_zero (p.g.y) || (is_zero (p.b.x) || is_zero (p.b.y)))))
      then none
      else if near_primaries p (decimal 64 2) (decimal 33 2) (decimal 30 2) (decimal 60 2)
          (decimal 15 2) (decimal 6 2)
      then some (record c { primaries = Primaries.srgb })
      else if near_primaries p (decimal 708 3) (decimal 292 3) (decimal 170 3) (decimal 797 3)
          (decimal 131 3) (decimal 46 3)
      then some (record c { primaries = Primaries.bt2100 })
      else if near_primaries p (decimal 680 3) (decimal 320 3) (decimal 265 3) (decimal 690 3)
          (decimal 150 3) (decimal 60 3)
      then some (record c { primaries = Primaries.p3 })
      else custom_primaries p c

  -- SetSRGB: whether CreateICC succeeds, and the encoding; none where the assertion fails.
  unfoldable pub set_srgb : ℕ → ℕ → ColorEncoding → Option (Bool × ColorEncoding)
  unfolding set_transfer_function create_icc
  set_srgb cs intent c = do
    guard (cs == ColorSpace.gray || cs == ColorSpace.rgb)
    some (
        create_icc conv lib (record c {
          icc = [];
          color_space = cs;
          white_point = WhitePoint.d65;
          primaries = Primaries.srgb;
          tf = set_transfer_function TransferFunction.srgb (c.tf);
          rendering_intent = intent;
        }))
