-- ===== src/Color/VisitValid.antt =====
-- src/lib/jxl/color_encoding_internal.cc: what Bundle::Read returns for a ColorEncoding is one that the headers document.
use ssimulacra2_vulcan.Common.{
  ℕ, ◌≡◌, ◌⊎◌, inl, inr, refl, sym, ◌∙◌, subst, Bool, true, false, not, ◌&&◌, ◌||◌, some, [], ◌==◌,
  Bytes, arith,
}
use ssimulacra2_vulcan.Arith.{Arith, Doubles}
use ssimulacra2_vulcan.Fields.Bits.{Reader}
use ssimulacra2_vulcan.Fields.Visit.{done, ◌>>=◌, flag, is_reading}
use ssimulacra2_vulcan.Fields.Visitors.{bundle_read}
use ssimulacra2_vulcan.Metadata.Always.{Returns, bundle_read-Returns}
use ssimulacra2_vulcan.Metadata.Defaults.{Settles-Always}
use ssimulacra2_vulcan.Metadata.Valid.{Always-all_default}
use ssimulacra2_vulcan.Metadata.Bundles.{or_failure}
use ssimulacra2_vulcan.Color.ColorSpace
use ssimulacra2_vulcan.Color.WhitePoint
use ssimulacra2_vulcan.Color.Primaries
use ssimulacra2_vulcan.Color.RenderingIntent
use ssimulacra2_vulcan.Color.Encoding.{
  Cmath, CustomTransferFunction, ColorEncoding, has_primaries, implicit_white_point, set_implicit,
}
use ssimulacra2_vulcan.Color.Profile.{maybe_create_profile, create_icc}
use ssimulacra2_vulcan.Color.Visit.{
  visit_nested, visit_enum, visit_function, visit_white, visit_primaries, visit_transfer_function,
  visit_fields, visit_body, visit_color, is_empty,
}
use ssimulacra2_vulcan.Color.Everywhere.{
  Everywhere, Everywhere-Always, Everywhere-Settles, Everywhere-bind, Everywhere-next,
  Everywhere-check, Everywhere-map, Everywhere-or_failure, Everywhere-visit_nested,
  Everywhere-visit_enum,
}
use ssimulacra2_vulcan.Color.PartsValid.{
  IsFunction, read_curve-IsFunction, IsWhite, whitened-IsWhite, IsColored, primaries-IsColored,
}

module _ {F D : Type 0} ⦃f : Arith F⦄ ⦃d : Arith D⦄ (conv : Doubles F D) (lib : Cmath F D) where
  -- An encoding whose fields are members of their enumerations; CreateICC succeeds and leaves it as it is.
  abbrev pub IsFilled : ColorEncoding → Type 0
  IsFilled c =
      (WhitePoint.is_valid (c.white_point) ≡ true)
      × (has_primaries c ≡ true → Primaries.is_valid (c.primaries) ≡ true)
      × IsFunction (c.tf)
      × (RenderingIntent.is_valid (c.rendering_intent) ≡ true)
      × (create_icc conv lib c ≡ (true, c))

  abbrev pub IsEncoding : ColorEncoding → Type 0
  IsEncoding c =
      (ColorSpace.is_valid (c.color_space) ≡ true)
      × ((c.want_icc ≡ true) ⊎ ((c.want_icc ≡ false) × IsFilled c × (is_empty (c.icc) ≡ false)))

  transfer-IsFunction :
      (h : CustomTransferFunction)
      → (h.nonserialized_color_space == ColorSpace.xyb) ≡ false
      → Everywhere IsFunction (visit_transfer_function conv lib h)
  unfolding Everywhere visit_transfer_function set_implicit ◌>>=◌
  transfer-IsFunction h other = rw other (
      Everywhere-visit_nested IsFunction true visit_function h (read_curve-IsFunction h)
        (λ e. absurd (ground arith)))

  created :
      (c : ColorEncoding) (icc : Bytes)
      → maybe_create_profile conv lib (record c { icc = [] }) ≡ some icc
      → create_icc conv lib (record c { icc = icc }) ≡ (true, record c { icc = icc })
  unfolding create_icc
  created c icc made = rw (create_icc, made) refl

  abbrev Fills : ColorEncoding → ColorEncoding → Type 0
  Fills h c = (c.color_space ≡ h.color_space) × (c.want_icc ≡ h.want_icc) × IsFilled c

  fields-IsFilled :
      (h : ColorEncoding)
      → (h.tf.nonserialized_color_space == ColorSpace.xyb) ≡ false
      → Everywhere (Fills h) (visit_fields conv lib h)
  unfolding Everywhere visit_fields
  fields-IsFilled h other =
      let whitened = (implicit_white_point h).1 in
      Everywhere-bind (IsWhite h) (Fills h)
        (visit_nested (not (implicit_white_point h).0) visit_white whitened) _ (whitened-IsWhite h)
        (λ h1 ((space, want, tf), white).
          Everywhere-bind (IsColored h1) (Fills h)
            (visit_nested (has_primaries h1) visit_primaries h1) _
            (Everywhere-visit_nested (IsColored h1) (has_primaries h1) visit_primaries h1
              (primaries-IsColored h1 white)
              (λ off. (((refl, refl, refl), white), (λ on. absurd (ground arith)))))
            (λ h2 (((space', want', tf'), white'), colored).
              Everywhere-bind IsFunction (Fills h) (visit_transfer_function conv lib (h2.tf)) _
                (subst (λ t. Everywhere IsFunction (visit_transfer_function conv lib t))
                  (sym (tf' ∙ tf)) (transfer-IsFunction (h.tf) other))
                (λ curve fine.
                  let visit = visit_enum RenderingIntent.is_valid RenderingIntent.relative in
                  Everywhere-bind (λ w. RenderingIntent.is_valid w ≡ true) (Fills h)
                    (visit (h2.rendering_intent)) _
                    (Everywhere-visit_enum RenderingIntent.is_valid RenderingIntent.relative
                      (h2.rendering_intent))
                    (λ intent valid. Everywhere-check (Fills h) _ _ (λ known.
                      let c = record h2 { tf = curve; rendering_intent = intent; icc = [] } in
                      Everywhere-bind (λ icc. maybe_create_profile conv lib c ≡ some icc) (Fills h)
                        (or_failure (maybe_create_profile conv lib c)) _
                        (Everywhere-or_failure (λ icc. maybe_create_profile conv lib c ≡ some icc)
                          (maybe_create_profile conv lib c) (λ icc made. made))
                        (λ icc made. (
                          space' ∙ space,
                          want' ∙ want,
                          (white', colored, fine, valid, created c icc made),
                        )))))))

  abbrev IsBody : ColorEncoding → ColorEncoding → Type 0
  IsBody h c =
      (c.color_space ≡ h.color_space)
      × (c.want_icc ≡ h.want_icc)
      × (not (h.want_icc) ≡ true → IsFilled c)

  space_kept : (v w : ℕ) → v ≡ w → ColorSpace.is_valid w ≡ true → ColorSpace.is_valid v ≡ true
  space_kept v w e valid = subst (λ u. ColorSpace.is_valid u ≡ true) (sym e) valid

  choice :
      (c : ColorEncoding) (want reading : Bool)
      → c.want_icc ≡ want
      → (not want ≡ true → IsFilled c)
      → (want && reading || not (is_empty (c.icc))) ≡ true
      → (c.want_icc ≡ true) ⊎ ((c.want_icc ≡ false) × IsFilled c × (is_empty (c.icc) ≡ false))
  choice c true reading e filled h = inl e
  choice c false reading e filled h = inr (e, filled refl, ground arith)

  color-IsEncoding :
      (h : ColorEncoding) (mark : Bool)
      → (h.tf.nonserialized_color_space == ColorSpace.xyb) ≡ false
      → Everywhere IsEncoding (visit_body conv lib h mark)
  unfolding Everywhere visit_body
  color-IsEncoding h mark other = Everywhere-next IsEncoding (flag false (h.want_icc)) _ (λ want.
      Everywhere-bind (λ w. ColorSpace.is_valid w ≡ true) IsEncoding
        (visit_enum ColorSpace.is_valid ColorSpace.rgb (h.color_space)) _
        (Everywhere-visit_enum ColorSpace.is_valid ColorSpace.rgb (h.color_space))
        (λ space valid.
          let c = record h { all_default = mark; want_icc = want; color_space = space } in
          Everywhere-bind (IsBody c) IsEncoding (visit_nested (not want) (visit_fields conv lib) c)
            _
            (Everywhere-visit_nested (IsBody c) (not want) (visit_fields conv lib) c
              (Everywhere-map (Fills c) (IsBody c) (visit_fields conv lib c)
                (λ made (space', want', filled). (space', want', (λ fields. filled)))
                (fields-IsFilled c other))
              (λ off. (refl, refl, (λ on. absurd (ground arith)))))
            (λ made (space', want', filled).
              Everywhere-next IsEncoding (is_reading done) _ (λ reading.
                Everywhere-check IsEncoding (want && reading || not (is_empty (made.icc)))
                  (done made)
                  (λ h'. (
                    space_kept (made.color_space) space space' valid,
                    choice made want reading want' filled h',
                  ))))))

  -- Bundle::Read of a ColorEncoding, into one whose function is not that of XYB, gives a valid color space, and either an
  -- encoding whose ICC profile is still to come, or one with a profile, whose enumerations all have valid members, whose gamma is
  -- in [1 / 8192, 1], and of which CreateICC makes the profile that it has; all_default does not matter.
  pub bundle_read-IsEncoding :
      (near : ℕ → ℕ → Bool) (subnormal : ℕ → ℕ) (size : ℕ) (h : ColorEncoding) (r : Reader)
      → (h.tf.nonserialized_color_space == ColorSpace.xyb) ≡ false
      → Returns IsEncoding (bundle_read subnormal size (visit_color conv lib near) h r)
  unfolding visit_color
  bundle_read-IsEncoding near subnormal size h r other =
      bundle_read-Returns subnormal size IsEncoding (visit_color conv lib near) h r (
        Always-all_default IsEncoding near (h.all_default) (λ mark. record h { all_default = mark })
          (visit_body conv lib h)
          (λ mark. Settles-Always IsEncoding (visit_body conv lib h mark) (
            Everywhere-Settles IsEncoding (visit_body conv lib h mark)
              (color-IsEncoding h mark other)))
          (λ mark.
            Everywhere-Always IsEncoding (visit_body conv lib h mark)
              (color-IsEncoding h mark other)))
