-- ===== src/Color/ConvertOut.antt =====
-- src/lib/jxl/color_encoding_internal.cc: a color encoding that is converted to JxlColorEncoding keeps its numbers.
use ssimulacra2_vulcan.Common.{◌≡◌, refl, true, false, some, ◌==◌, Bool-cases, inl, inr, arith}
use ssimulacra2_vulcan.Arith.{Arith, decimal}
use ssimulacra2_vulcan.Color.ColorSpace
use ssimulacra2_vulcan.Color.WhitePoint
use ssimulacra2_vulcan.Color.Primaries
use ssimulacra2_vulcan.Color.TransferFunction
use ssimulacra2_vulcan.Color.RenderingIntent
use ssimulacra2_vulcan.Color.Encoding.{
  CieXy, PrimariesCieXy, ColorEncoding, get_white_point, get_primaries, primaries_of, has_primaries,
}
use ssimulacra2_vulcan.Color.Setters.{
  same_color_encoding, same_color_space, same_primaries, is_same_function,
}
use ssimulacra2_vulcan.Color.Convert.{
  JxlColorEncoding, with_primaries, external_primaries, external_function, internal_to_external,
}

-- All fields are members of their enumerations; the white point and the primaries are not custom, and the
-- curve is not a gamma.
abbrev pub IsEnumerated : ColorEncoding → Type 0
IsEnumerated c =
    (ColorSpace.is_valid (c.color_space) ≡ true)
    × (WhitePoint.is_valid (c.white_point) ≡ true)
    × ((c.white_point == WhitePoint.custom) ≡ false)
    × (Primaries.is_valid (c.primaries) ≡ true)
    × ((c.primaries == Primaries.custom) ≡ false)
    × (c.tf.have_gamma ≡ false)
    × (TransferFunction.is_valid (c.tf.transfer_function) ≡ true)
    × (RenderingIntent.is_valid (c.rendering_intent) ≡ true)

-- Encodings with the same fields are the same encoding.
pub same_fields :
    (a b : ColorEncoding)
    → a.color_space ≡ b.color_space
    → a.white_point ≡ b.white_point
    → (b.white_point == WhitePoint.custom) ≡ false
    → (has_primaries b ≡ true → a.primaries ≡ b.primaries)
    → (b.primaries == Primaries.custom) ≡ false
    → a.tf.have_gamma ≡ false
    → b.tf.have_gamma ≡ false
    → a.tf.transfer_function ≡ b.tf.transfer_function
    → same_color_encoding a b ≡ true
unfolding same_color_encoding same_color_space same_primaries is_same_function
same_fields a b cs w wc p pc ga gb t = ground arith

module _ {D : Type 0} ⦃d : Arith D⦄ where
  white_found :
      (c : ColorEncoding)
      → WhitePoint.is_valid (c.white_point) ≡ true
      → (xy : CieXy D) × (get_white_point c ≡ some xy)
  unfolding get_white_point
  white_found c valid = elim (Bool-cases (c.white_point == WhitePoint.custom)) [
    | inl a ↦ rw a (_, refl)
    | inr a ↦ elim (Bool-cases (c.white_point == WhitePoint.d65)) [
      | inl b ↦ rw (a, b) (_, refl)
      | inr b ↦ elim (Bool-cases (c.white_point == WhitePoint.dci)) [
        | inl e ↦ rw (a, b, e) (_, refl)
        | inr e ↦ elim (Bool-cases (c.white_point == WhitePoint.equal_energy)) [
          | inl g ↦ rw (a, b, e, g) (_, refl)
          | inr g ↦ absurd (ground arith)
        ]
      ]
    ]
  ]

  primaries_found :
      (c : ColorEncoding)
      → Primaries.is_valid (c.primaries) ≡ true
      → (p : PrimariesCieXy D) × (primaries_of c ≡ some p)
  unfolding primaries_of
  primaries_found c valid = elim (Bool-cases (c.primaries == Primaries.custom)) [
    | inl a ↦ rw a (_, refl)
    | inr a ↦ elim (Bool-cases (c.primaries == Primaries.srgb)) [
      | inl b ↦ rw (a, b) (_, refl)
      | inr b ↦ elim (Bool-cases (c.primaries == Primaries.bt2100)) [
        | inl e ↦ rw (a, b, e) (_, refl)
        | inr e ↦ elim (Bool-cases (c.primaries == Primaries.p3)) [
          | inl g ↦ rw (a, b, e, g) (_, refl)
          | inr g ↦ absurd (ground arith)
        ]
      ]
    ]
  ]

  -- The external encoding has the numbers of the internal one.
  abbrev pub Mirrors : ColorEncoding → JxlColorEncoding D → Type 0
  Mirrors c e =
      (e.color_space ≡ c.color_space)
      × (e.white_point ≡ c.white_point)
      × (with_primaries (c.color_space) ≡ true → e.primaries ≡ c.primaries)

  primaries-Mirrors :
      (c : ColorEncoding) (e : JxlColorEncoding D)
      → e.color_space ≡ c.color_space
      → e.white_point ≡ c.white_point
      → Primaries.is_valid (c.primaries) ≡ true
      → (e' : JxlColorEncoding D) × (external_primaries c e ≡ some e') × Mirrors c e'
  unfolding external_primaries get_primaries
  primaries-Mirrors c e cs w valid = elim (Bool-cases (with_primaries (e.color_space))) [
    | inl colored ↦
        let (p, found) = primaries_found c valid in
        let has : has_primaries c ≡ true = ground arith in
        (
          record e { primaries = c.primaries; primaries_xy = p },
          rw (colored, has, found) refl,
          (cs, w, λ on. refl),
        )
    | inr other ↦ (e, rw other refl, (cs, w, λ on. absurd (ground arith)))
  ]

  pub external-Mirrors :
      (c : ColorEncoding) (e : JxlColorEncoding D)
      → IsEnumerated c
      → (e' : JxlColorEncoding D) × (internal_to_external c e ≡ some e')
        × Mirrors c e'
        × (e'.transfer_function ≡ c.tf.transfer_function)
        × (e'.rendering_intent ≡ c.rendering_intent)
  unfolding internal_to_external external_function
  external-Mirrors c e (cs, white, wc, prim, pc, gamma, tf, intent) =
      let (xy, found) = white_found c white in
      let start = record e {
        color_space = c.color_space;
        white_point = c.white_point;
        white_point_xy = xy;
      } in
      let (e1, made, mirrors) = primaries-Mirrors c start refl refl prim in
      (
        record e1 {
          transfer_function = c.tf.transfer_function;
          gamma = decimal 0 0;
          rendering_intent = c.rendering_intent;
        },
        rw (found, made, gamma) refl,
        mirrors,
        refl,
        refl,
      )
