-- ===== src/Metric/Compute/Total.antt =====
-- ComputeSSIMULACRA2 as a whole: no check aborts it, and how many scales it returns.
use ssimulacra2_vulcan.Common.{
  ℕ, zero, suc, ◌+◌, ◌≤◌, ◌≡◌, refl, ◌||◌, Option, some, List, [], ◌∷◌, length, ltb, arith, min,
  Bool-cases, inl, inr, ap, ◌∙◌, true, false, ◌==◌, if◌then◌else◌,
}
use ssimulacra2_vulcan.Arith.{Arith, Doubles}
use ssimulacra2_vulcan.Image.{Image3, ImageBundle, xsize, ysize}
use ssimulacra2_vulcan.Image.Sizes.{Sized}
use ssimulacra2_vulcan.Metric.Score.{MsssimScale}
use ssimulacra2_vulcan.Metric.Compute.{
  Library, Variables, Blurred, to_linear, next_scale, shrink_buffers, blur_all, start, measure,
  scales_from, compute_ssimulacra2, fresh_image, fresh_plane, is_too_small, num_scales,
}
use ssimulacra2_vulcan.Metric.Compute.Sizes.{
  HasSize, LibraryRules, VariablesSized, to_positive_xyb-some, next_scale-some, shrink_buffers-some,
  blur_all-some, to_linear-BundleSized,
}
use ssimulacra2_vulcan.Metric.Compute.Scales.{passes, scale_count, passes-scale_count}

module _ {F D : Type 0} ⦃s : Arith F⦄ ⦃d : Arith D⦄ (c : Doubles F D) (lib : Library F) where
  -- One round, from what its steps return.
  scales_from_round :
      (n scale : ℕ) (v u w : Variables F) (b : Blurred F) (rest : List (MsssimScale D))
      → is_too_small v.img1 ≡ false
      → (if scale == 0 then some v else next_scale lib v) ≡ some u
      → shrink_buffers u ≡ some w
      → blur_all lib w ≡ some b
      → scales_from c lib n (scale + 1) w ≡ some rest
      → scales_from c lib (suc n) scale v ≡ some (measure c w b ∷ rest)
  unfolding scales_from
  scales_from_round n scale v u w b rest e0 e1 e2 e3 e4 = rw (e0, scales_from, e1, e2, e3, e4)

  scales_from_small :
      (n scale : ℕ) (v : Variables F)
      → is_too_small v.img1 ≡ true
      → scales_from c lib (suc n) scale v ≡ some []
  unfolding scales_from
  scales_from_small n scale v e = rw (e, scales_from)

-- A result of the loop, with its number of scales.
abbrev pub Returns : {D : Type 0} → Option (List (MsssimScale D)) → ℕ → Type 0
Returns {D} r n = (scales : List (MsssimScale D)) × (r ≡ some scales) × (length scales ≡ n)

module _ {F D : Type 0} ⦃s : Arith F⦄ ⦃d : Arith D⦄ (c : Doubles F D) (lib : Library F)
    (rules : LibraryRules lib) where
  -- A round on images that are large enough, once they are halved (`u`).
  scales_from-step :
      (n scale : ℕ) (v u : Variables F) (xs ys mx my oxs oys k : ℕ)
      → is_too_small v.img1 ≡ false
      → (if scale == 0 then some v else next_scale lib v) ≡ some u
      → VariablesSized u xs ys mx my oxs oys
      → xs ≤ oxs
      → ys ≤ oys
      → ((w : Variables F)
          → VariablesSized w xs ys xs ys oxs oys
          → Returns (scales_from c lib n (scale + 1) w) k)
      → Returns (scales_from c lib (suc n) scale v) (suc k)
  scales_from-step n scale v u xs ys mx my oxs oys k big e hu hx hy later =
      let (w, ew, sw) = shrink_buffers-some u xs ys mx my oxs oys hu hx hy in
      let (b, eb, _) = blur_all-some lib rules w xs ys oxs oys sw in
      let (rest, er, l) = later w sw in
      (measure c w b ∷ rest, scales_from_round c lib n scale v u w b rest big e ew eb er, ap suc l)

  -- From the second scale on, each round halves the images first.
  scales_from-passes :
      (n scale : ℕ) (v : Variables F) (xs ys mx my oxs oys : ℕ)
      → (scale == 0) ≡ false
      → VariablesSized v xs ys mx my oxs oys
      → xs ≤ oxs
      → ys ≤ oys
      → Returns (scales_from c lib n scale v) (passes n xs ys)
  unfolding passes
  scales_from-passes zero scale v xs ys mx my oxs oys e h hx hy =
      ([], unfold scales_from in refl, refl)
  scales_from-passes (suc n) scale v xs ys mx my oxs oys e h hx hy =
      let same : is_too_small v.img1 ≡ (ltb xs 8 || ltb ys 8) =
        rw (h.img1_size.sized0.x_size, h.img1_size.sized0.y_size) in
      elim (Bool-cases (ltb xs 8 || ltb ys 8)) [
        | inl small ↦ rw small ([], scales_from_small c lib n scale v (same ∙ small), refl)
        | inr big ↦
            let (u, eu, su) =
              next_scale-some lib rules v xs ys mx my oxs oys h (ground arith) (ground arith) hx
                hy in
            rw big (
              scales_from-step n scale v u _ _ mx my oxs oys _ (same ∙ big) (rw e eu) su
                (omega arith) (omega arith)
                (λ w sw.
                  scales_from-passes n (scale + 1) w _ _ _ _ oxs oys (ground arith) sw (omega arith)
                    (omega arith)))
      ]

  -- The first scale takes the images as they are.
  scales_from-count :
      (v : Variables F) (xs ys : ℕ)
      → VariablesSized v xs ys xs ys xs ys
      → Returns (scales_from c lib num_scales 0 v) (scale_count (min xs ys))
  scales_from-count v xs ys h =
      let same : is_too_small v.img1 ≡ (ltb xs 8 || ltb ys 8) =
        rw (h.img1_size.sized0.x_size, h.img1_size.sized0.y_size) in
      elim (Bool-cases (ltb xs 8 || ltb ys 8)) [
        | inl small ↦
            ([], scales_from_small c lib 5 0 v (same ∙ small), unfold scale_count in ground arith)
        | inr big ↦ rw (← passes-scale_count xs ys (ground arith) (ground arith)) (
            scales_from-step 5 0 v v xs ys xs ys xs ys _ (same ∙ big) refl h (omega arith)
              (omega arith)
              (λ w sw.
                scales_from-passes 5 (0 + 1) w _ _ _ _ xs ys (ground arith) sw (omega arith)
                  (omega arith)))
      ]

  pub start-VariablesSized :
      (orig dist o p : ImageBundle F) (bg : F) (xs ys : ℕ)
      → HasSize orig.color xs ys
      → HasSize dist.color xs ys
      → orig.metadata_gray ≡ orig.is_gray
      → dist.metadata_gray ≡ dist.is_gray
      → to_linear lib orig bg ≡ some o
      → to_linear lib dist bg ≡ some p
      → (v : Variables F) × (start lib orig dist bg ≡ some v) × VariablesSized v xs ys xs ys xs ys
  unfolding start
  start-VariablesSized orig dist o p bg xs ys ho hd go gd eo ep =
      let so = to_linear-BundleSized lib rules orig o bg xs ys eo ho go in
      let sp = to_linear-BundleSized lib rules dist p bg xs ys ep hd gd in
      let fresh : Image3 F = fresh_image (xsize orig.color) (ysize orig.color) in
      let sf : Sized fresh xs ys xs ys = omega arith in
      let (i, ei, si) = to_positive_xyb-some lib rules o fresh xs ys xs ys so.size sf in
      let (j, ej, sj) = to_positive_xyb-some lib rules p fresh xs ys xs ys sp.size sf in
      (
        record {
          orig2 = o;
          dist2 = p;
          img1 = i;
          img2 = j;
          mul = fresh_image (xsize i) (ysize i);
          temp = fresh_plane (xsize i) (ysize i);
        },
        simp (eo, ep, ei, ej),
        record {
          orig2_size = so;
          dist2_size = sp;
          img1_size = si;
          img2_size = sj;
          mul_size = omega arith;
          temp_size = omega arith;
        },
      )

  -- Let both images have one size, each with a color encoding that is gray exactly if that of its
  -- metadata is, and let their color transforms succeed. Then no check aborts the computation, also
  -- none of SetFromImage, and it returns the norms of as many scales as `scale_count` says of the shorter
  -- side: none below 8 pixels, and from 2 up to 6 otherwise.
  pub compute_ssimulacra2_total :
      (orig dist o p : ImageBundle F) (bg : F) (xs ys : ℕ)
      → HasSize orig.color xs ys
      → HasSize dist.color xs ys
      → orig.metadata_gray ≡ orig.is_gray
      → dist.metadata_gray ≡ dist.is_gray
      → to_linear lib orig bg ≡ some o
      → to_linear lib dist bg ≡ some p
      → Returns (compute_ssimulacra2 c lib orig dist bg) (scale_count (min xs ys))
  unfolding compute_ssimulacra2
  compute_ssimulacra2_total orig dist o p bg xs ys ho hd go gd eo ep =
      let (v, ev, sv) = start-VariablesSized orig dist o p bg xs ys ho hd go gd eo ep in
      rw ev (scales_from-count v xs ys sv)
