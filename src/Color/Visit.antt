-- ===== src/Color/Visit.antt =====
-- src/lib/jxl/color_encoding_internal.cc: VisitFields of Customxy, CustomTransferFunction and ColorEncoding. Enum is that
-- of src/lib/jxl/fields.h, PackSigned and UnpackSigned are those of src/lib/jxl/common.h.
use ssimulacra2_vulcan.Common.{
  ℕ, ◌-◌, ◌*◌, ◌/◌, ◌%◌, ◌^◌, Bool, true, false, not, ◌&&◌, ◌||◌, [], ◌∷◌, ltb, ◌==◌, if◌then◌else◌,
  Bytes,
}
use ssimulacra2_vulcan.Arith.{Arith, Doubles}
use ssimulacra2_vulcan.Fields.Coder.{Coder, bits}
use ssimulacra2_vulcan.Fields.Selector.{bits_offset}
use ssimulacra2_vulcan.Fields.Visit.{
  Visit, done, conditional, is_reading, ◌>>=◌, ◌>>◌, check, field, flag, four,
}
use ssimulacra2_vulcan.Metadata.Bundles.{visit_all_default, or_failure}
use ssimulacra2_vulcan.Metadata.Channel.{enum_coder}
use ssimulacra2_vulcan.Color.ColorSpace
use ssimulacra2_vulcan.Color.WhitePoint
use ssimulacra2_vulcan.Color.Primaries
use ssimulacra2_vulcan.Color.TransferFunction
use ssimulacra2_vulcan.Color.RenderingIntent
use ssimulacra2_vulcan.Color.Encoding.{
  Cmath, CustomXy, CustomTransferFunction, ColorEncoding, is_unknown, has_primaries,
  implicit_white_point, set_implicit, gamma_mul, max_gamma,
}
use ssimulacra2_vulcan.Color.Profile.{maybe_create_profile}

-- PackSigned: the 32 bits, shifted, with all bits turned for a negative number
unfoldable pub pack_signed : ℕ → ℕ
pack_signed v = if ltb v (2 ^ 31) then v * 2 % 2 ^ 32 else 2 ^ 32 - 1 - v * 2 % 2 ^ 32

-- UnpackSigned, cut to an int32_t
unfoldable pub unpack_signed : ℕ → ℕ
unpack_signed v = if v % 2 == 0 then v / 2 % 2 ^ 32 else 2 ^ 32 - 1 - v / 2 % 2 ^ 32

-- The distributions for a coordinate. Bits(19) is BitsOffset(19, 0).
abbrev pub xy_coder : Coder
xy_coder =
    four (bits_offset 19 0) (bits_offset 19 524288) (bits_offset 20 1048576)
      (bits_offset 21 2097152)

unfoldable pub visit_xy : CustomXy → Visit CustomXy
unfolding pack_signed unpack_signed
visit_xy h = do
  ux ← field xy_coder 0 (pack_signed (h.x))
  uy ← field xy_coder 0 (pack_signed (h.y))
  done (record { x = unpack_signed ux; y = unpack_signed uy })

-- Enum, with the test of EnumValid
abbrev pub visit_enum : (ℕ → Bool) → ℕ → ℕ → Visit ℕ
visit_enum is_valid d v = field enum_coder d v >>= λ w. check (is_valid w) >> done w

-- A nested field, if a condition holds
abbrev pub visit_nested : {A : Type 0} → Bool → (A → Visit A) → A → Visit A
visit_nested c visit h = conditional c (λ go. if go then visit h else done h)

unfoldable pub visit_gamma : ℕ → Visit ℕ
visit_gamma v = do
  gamma ← field (bits 24) gamma_mul v
  check (not (ltb gamma_mul gamma || ltb (gamma * max_gamma) gamma_mul))
  done gamma

unfoldable pub visit_function : CustomTransferFunction → Visit CustomTransferFunction
unfolding visit_gamma
visit_function h = do
  have ← flag false (h.have_gamma)
  gamma ← visit_nested have visit_gamma (h.gamma)
  tf ←
      visit_nested (not have) (visit_enum TransferFunction.is_valid TransferFunction.srgb)
        (h.transfer_function)
  done (record h { have_gamma = have; gamma = gamma; transfer_function = tf })

-- The enumeration and the numbers of a custom white point
unfoldable pub visit_white : ColorEncoding → Visit ColorEncoding
unfolding visit_xy
visit_white h = do
  w ← visit_enum WhitePoint.is_valid WhitePoint.d65 (h.white_point)
  white ← visit_nested (w == WhitePoint.custom) visit_xy (h.white)
  done (record h { white_point = w; white = white })

unfoldable pub visit_custom_primaries : ColorEncoding → Visit ColorEncoding
unfolding visit_xy
visit_custom_primaries h = do
  red ← visit_xy (h.red)
  green ← visit_xy (h.green)
  blue ← visit_xy (h.blue)
  done (record h { red = red; green = green; blue = blue })

unfoldable pub visit_primaries : ColorEncoding → Visit ColorEncoding
unfolding visit_custom_primaries
visit_primaries h = do
  p ← visit_enum Primaries.is_valid Primaries.srgb (h.primaries)
  visit_nested (p == Primaries.custom) visit_custom_primaries (record h { primaries = p })

abbrev pub is_empty : Bytes → Bool
is_empty [] = true
is_empty (x ∷ icc) = false

module _ {F D : Type 0} ⦃f : Arith F⦄ ⦃d : Arith D⦄ (conv : Doubles F D) (lib : Cmath F D) where
  unfoldable pub visit_transfer_function : CustomTransferFunction → Visit CustomTransferFunction
  unfolding set_implicit visit_function
  visit_transfer_function h = do
    (fixed, tf) ← or_failure (set_implicit conv lib h)
    visit_nested (not fixed) visit_function tf

  -- The fields of an encoding without an ICC profile in the codestream
  unfoldable pub visit_fields : ColorEncoding → Visit ColorEncoding
  unfolding implicit_white_point visit_white visit_primaries visit_transfer_function
      maybe_create_profile
  visit_fields h = do
    let (fixed, whitened) = implicit_white_point h
    h1 ← visit_nested (not fixed) visit_white whitened
    h2 ← visit_nested (has_primaries h1) visit_primaries h1
    tf ← visit_transfer_function (h2.tf)
    intent ← visit_enum RenderingIntent.is_valid RenderingIntent.relative (h2.rendering_intent)
    check (not (h2.color_space == ColorSpace.unknown || is_unknown tf))
    let c = record h2 { tf = tf; rendering_intent = intent; icc = [] }
    icc ← or_failure (maybe_create_profile conv lib c)
    done (record c { icc = icc })

  -- What is visited unless all fields have their defaults
  unfoldable pub visit_body : ColorEncoding → Bool → Visit ColorEncoding
  unfolding visit_fields
  visit_body h mark = do
    want ← flag false (h.want_icc)
    space ← visit_enum ColorSpace.is_valid ColorSpace.rgb (h.color_space)
    let c = record h { all_default = mark; want_icc = want; color_space = space }
    made ← visit_nested (not want) visit_fields c
    reading ← is_reading done
    check (want && reading || not (is_empty (made.icc)))
    done made

  unfoldable pub visit_color : (ℕ → ℕ → Bool) → ColorEncoding → Visit ColorEncoding
  unfolding visit_all_default visit_body
  visit_color near h =
      visit_all_default near (h.all_default) (λ mark. record h { all_default = mark })
        (visit_body h)
