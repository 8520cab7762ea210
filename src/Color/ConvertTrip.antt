-- ===== src/Color/ConvertTrip.antt =====
-- src/lib/jxl/color_encoding_internal.cc: a color encoding that is converted to JxlColorEncoding and back.
use ssimulacra2_vulcan.Common.{
  ℕ, ◌≡◌, refl, sym, ◌∙◌, Bool, true, false, some, [], ◌==◌, if◌then◌else◌, Bool-cases,
  Option-cases, inl, inr, Bytes, arith,
}
use ssimulacra2_vulcan.Arith.{Arith, Doubles}
use ssimulacra2_vulcan.Color.WhitePoint
use ssimulacra2_vulcan.Color.Primaries
use ssimulacra2_vulcan.Color.TransferFunction
use ssimulacra2_vulcan.Color.RenderingIntent
use ssimulacra2_vulcan.Color.Encoding.{Cmath, ColorEncoding, set_color_space, set_transfer_function}
use ssimulacra2_vulcan.Color.Profile.{create_icc, maybe_create_profile}
use ssimulacra2_vulcan.Color.Setters.{same_color_encoding}
use ssimulacra2_vulcan.Color.Convert.{
  JxlColorEncoding, gamma_function, fresh_function, with_primaries, convert_enum,
  internal_to_external, internal_white, internal_primaries, internal_function, external_to_internal,
}
use ssimulacra2_vulcan.Color.ConvertOut.{IsEnumerated, same_fields, Mirrors, external-Mirrors}

module _ {F D : Type 0} ⦃f : Arith F⦄ ⦃d : Arith D⦄ (conv : Doubles F D) (lib : Cmath F D) where
  -- CreateICC changes nothing but the profile.
  created_fields :
      (c : ColorEncoding) → (icc : Bytes) × ((create_icc conv lib c).1 ≡ record c { icc = icc })
  unfolding create_icc
  created_fields c = elim (Option-cases (maybe_create_profile conv lib (record c { icc = [] }))) [
    | inl absent ↦ ([], rw (create_icc, absent) refl)
    | inr (icc, made) ↦ (icc, rw (create_icc, made) refl)
  ]

  member : (is_valid : ℕ → Bool) (v : ℕ) → is_valid v ≡ true → convert_enum is_valid v ≡ some v
  member is_valid v valid = rw valid refl

  white_back :
      (e : JxlColorEncoding D) (c : ColorEncoding)
      → WhitePoint.is_valid (e.white_point) ≡ true
      → (e.white_point == WhitePoint.custom) ≡ false
      → internal_white conv lib e c ≡ some (record c { white_point = e.white_point })
  unfolding internal_white
  white_back e c valid listed = rw (member WhitePoint.is_valid (e.white_point) valid, listed) refl

  primaries_back :
      (e : JxlColorEncoding D) (c : ColorEncoding)
      → Primaries.is_valid (e.primaries) ≡ true
      → (e.primaries == Primaries.custom) ≡ false
      → internal_primaries conv lib e c ≡ some (record c { primaries = e.primaries })
  unfolding internal_primaries
  primaries_back e c valid listed = rw (member Primaries.is_valid (e.primaries) valid, listed) refl

  function_back :
      (e : JxlColorEncoding D)
      → TransferFunction.is_valid (e.transfer_function) ≡ true
      → internal_function conv lib e
        ≡ some (set_transfer_function (e.transfer_function) fresh_function)
  unfolding internal_function
  function_back e valid =
      let other : (e.transfer_function == gamma_function) ≡ false = ground arith in
      rw (other, member TransferFunction.is_valid (e.transfer_function) valid) refl

  -- The primaries of the result are those of the external encoding, or those before.
  colored :
      (e : JxlColorEncoding D) (c : ColorEncoding)
      → (with_primaries (e.color_space) ≡ true
          → (Primaries.is_valid (e.primaries) ≡ true) × ((e.primaries == Primaries.custom) ≡ false))
      → (p : ℕ) × ((if with_primaries (e.color_space)
            then internal_primaries conv lib e c
            else some c)
          ≡ some (record c { primaries = p }))
        × (with_primaries (e.color_space) ≡ true → p ≡ e.primaries)
  colored e c h = elim (Bool-cases (with_primaries (e.color_space))) [
    | inl on ↦
        let (valid, listed) = h on in
        (e.primaries, rw on (primaries_back e c valid listed), λ on. refl)
    | inr off ↦ (c.primaries, rw off refl, λ on. absurd (ground arith))
  ]

  internal-Mirrors :
      (c h : ColorEncoding) (e : JxlColorEncoding D)
      → IsEnumerated c
      → Mirrors c e
      → e.transfer_function ≡ c.tf.transfer_function
      → e.rendering_intent ≡ c.rendering_intent
      → (made : ColorEncoding) × (external_to_internal conv lib e h ≡ some made)
        × (same_color_encoding made c ≡ true)
        × (made.rendering_intent ≡ c.rendering_intent)
  unfolding external_to_internal set_color_space set_transfer_function
  internal-Mirrors c h e (cs, white, wc, prim, pc, gamma, tf, intent) (mcs, mw, mp) mt mi =
      let h1 = record (set_color_space (e.color_space) h) { white_point = e.white_point } in
      let (p, chosen, same) =
        colored e h1 (λ on. let q = mp (rw (sym mcs) on) in (rw q prim, rw q pc)) in
      let h2 = record h1 {
        primaries = p;
        tf = set_transfer_function (e.transfer_function) fresh_function;
        rendering_intent = e.rendering_intent;
      } in
      let (icc, made) = created_fields h2 in
      (
        record h2 { icc = icc },
        rw
            (
              white_back e (set_color_space (e.color_space) h) (rw mw white) (rw mw wc),
              chosen,
              function_back e (rw mt tf),
              member RenderingIntent.is_valid (e.rendering_intent) (rw mi intent),
              made,
            )
            refl,
        same_fields (record h2 { icc = icc }) c mcs mw wc
            (λ has. same (ground arith) ∙ mp (ground arith)) pc refl gamma mt,
        mi,
      )

  -- A color encoding whose fields are members of their enumerations, with a white point and primaries that are not custom and no
  -- gamma, is converted to a JxlColorEncoding, over any one, and back into any encoding without a failure; the result is
  -- SameColorEncoding, with the same rendering intent.
  pub external_to_internal-internal_to_external :
      (c h : ColorEncoding) (e : JxlColorEncoding D)
      → IsEnumerated c
      → (e' : JxlColorEncoding D) × (made : ColorEncoding) × (internal_to_external c e ≡ some e')
        × (external_to_internal conv lib e' h ≡ some made)
        × (same_color_encoding made c ≡ true)
        × (made.rendering_intent ≡ c.rendering_intent)
  external_to_internal-internal_to_external c h e enumerated =
      let (e', there, mirrors, mt, mi) = external-Mirrors c e enumerated in
      let (made, back, same, intent) = internal-Mirrors c h e' enumerated mirrors mt mi in
      (e', made, there, back, same, intent)
