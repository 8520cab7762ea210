-- ===== src/Metric/Compute/Identical.antt =====
-- ComputeSSIMULACRA2 on an image and itself.
use ssimulacra2_vulcan.Common.{
  ℕ, zero, suc, ◌+◌, ◌<◌, ◌≤◌, ◌*◌, ◌||◌, some-eq, ◌≡◌, refl, sym, ap, ◌∙◌, fun_ext, ◌&&◌, ltb,
  ◌==◌, if◌then◌else◌, Bool, true, false, some, Bool-cases, inl, inr, List, [], All, arith,
}
use ssimulacra2_vulcan.Arith.{Arith, Doubles, ◌⊗◌, decimal}
use ssimulacra2_vulcan.Arith.Rules.{FiniteRules, ZeroRules, DoubleRules}
use ssimulacra2_vulcan.Image.{Plane, Image3, ImageBundle, xsize, ysize, write_pixels}
use ssimulacra2_vulcan.Image.Sizes.{Sized}
use ssimulacra2_vulcan.Metric.Pixels.{multiply, scaled}
use ssimulacra2_vulcan.Metric.Maps.Identical.{
  RegularMap, RegularEdges, ssim_map-zero, edge_diff_map-zero,
}
use ssimulacra2_vulcan.Metric.Score.{MsssimScale, score}
use ssimulacra2_vulcan.Metric.Score.Zero.{ZeroScale, score-zero}
use ssimulacra2_vulcan.Metric.Compute.Sizes.{
  HasSize, LibraryRules, VariablesSized, next_scale-some, shrink_buffers-some, blur_all-some,
}
use ssimulacra2_vulcan.Metric.Compute.Total.{compute_ssimulacra2_total, start-VariablesSized}
use ssimulacra2_vulcan.Metric.Compute.Rounds.{scales_from_cases}
use ssimulacra2_vulcan.Metric.Compute.{
  Library, Variables, Blurred, next_scale, shrink_buffers, blur_all, to_linear, start, measure,
  scales_from, compute_ssimulacra2, is_too_small, num_scales,
}

-- The two images of the loop are one.
pub record Same {F : Type 0} (v : Variables F) : Type 0 where
  pub bundles : v.orig2 ≡ v.dist2
  pub images : v.img1 ≡ v.img2

module _ {F : Type 0} ⦃s : Arith F⦄ where
  write_pixels-again :
      (p : Plane F) (xs ys : ℕ) (f : ℕ → ℕ → F)
      → write_pixels (write_pixels p xs ys f) xs ys f ≡ write_pixels p xs ys f
  write_pixels-again p xs ys f =
      ap (λ (g : ℕ → ℕ → F). record p { pixel = g })
        (fun_ext (λ y. fun_ext (λ x. twice (ltb y ys && ltb x xs) (f y x) (p.pixel y x))))
    where
      twice : (b : Bool) (a z : F) → (if b then a else (if b then a else z)) ≡ (if b then a else z)
      twice true a z = refl
      twice false a z = refl

  -- The product is the same whatever the buffer held in its place.
  multiply-again : (a m : Image3 F) → multiply a a (multiply a a m) ≡ multiply a a m
  unfolding multiply
  multiply-again a m i = record {
    plane0 =
        write_pixels-again m.plane0 (xsize a) (ysize a)
          (λ y x. a.plane0.pixel y x ⊗ a.plane0.pixel y x) i;
    plane1 =
        write_pixels-again m.plane1 (xsize a) (ysize a)
          (λ y x. a.plane1.pixel y x ⊗ a.plane1.pixel y x) i;
    plane2 =
        write_pixels-again m.plane2 (xsize a) (ysize a)
          (λ y x. a.plane2.pixel y x ⊗ a.plane2.pixel y x) i;
  }

-- The blurred images of two that are one.
pub record SameBlurred {F : Type 0} (b : Blurred F) : Type 0 where
  pub squares : b.sigma2_sq ≡ b.sigma1_sq
  pub products : b.sigma12 ≡ b.sigma1_sq
  pub means : b.mu2 ≡ b.mu1

module _ {F : Type 0} where
  shrink_buffers-Same : (v u : Variables F) → Same v → shrink_buffers v ≡ some u → Same u
  unfolding shrink_buffers
  shrink_buffers-Same v u same e = ground arith

module _ {F : Type 0} ⦃s : Arith F⦄ (lib : Library F) where
  blur_all-SameBlurred :
      (v : Variables F) (b : Blurred F) → Same v → blur_all lib v ≡ some b → SameBlurred b
  unfolding blur_all
  blur_all-SameBlurred v b same e = ground (arith, multiply-again v.img1 v.mul)

  next_scale-Same : (v u : Variables F) → Same v → next_scale lib v ≡ some u → Same u
  unfolding next_scale
  next_scale-Same v u same e = ground arith

  start-Same : (b : ImageBundle F) (bg : F) (v : Variables F) → start lib b b bg ≡ some v → Same v
  unfolding start
  start-Same b bg v e = ground arith

  -- A property of each round that the loop measures: of its variables and its blurred images.
  unfoldable pub AllRounds : (Variables F → Blurred F → Type 0) → ℕ → ℕ → Variables F → Type 0
  AllRounds P zero scale v = Unit {0}
  AllRounds P (suc n) scale v =
      (u w : Variables F) (b : Blurred F)
      → is_too_small v.img1 ≡ false
      → (if scale == 0 then some v else next_scale lib v) ≡ some u
      → shrink_buffers u ≡ some w
      → blur_all lib w ≡ some b
      → P w b × AllRounds P n (scale + 1) w

  round-Same :
      (scale : ℕ) (v u : Variables F)
      → Same v
      → (if scale == 0 then some v else next_scale lib v) ≡ some u
      → Same u
  round-Same scale v u same e = elim (Bool-cases (scale == 0)) [
    | inl first ↦ ground arith
    | inr later ↦ next_scale-Same v u same (rw later at e)
  ]

big_bounds : (xs ys : ℕ) → (ltb xs 8 || ltb ys 8) ≡ false → (8 ≤ xs) × (8 ≤ ys)
big_bounds xs ys h = ground arith

-- No operation of the error maps overflows at a scale, and no denominator is zero.
pub record RegularRound {F : Type 0} ⦃s : Arith F⦄ (IsFinite : F → Type 0) (v : Variables F)
    (b : Blurred F) : Type 0 where
  pub map : RegularMap IsFinite b.mu1 b.sigma1_sq
  pub edges : RegularEdges IsFinite v.img1 b.mu1

module _ {F D : Type 0} ⦃s : Arith F⦄ ⦃d : Arith D⦄ (c : Doubles F D) (IsFinite : F → Type 0)
    (finite : FiniteRules IsFinite) (zeros : ZeroRules D) (doubles : DoubleRules c IsFinite)
    (lib : Library F) where
  measure-ZeroScale :
      (v : Variables F) (b : Blurred F)
      → Same v
      → SameBlurred b
      → 0 < ysize b.mu1 * xsize b.mu1
      → 0 < ysize v.img1 * xsize v.img1
      → RegularRound IsFinite v b
      → ZeroScale (measure c v b)
  unfolding measure
  measure-ZeroScale v b same blurred hm hi r = record {
    no_ssim =
        rw (blurred.means, blurred.squares, blurred.products)
          (ssim_map-zero c IsFinite finite zeros doubles b.mu1 b.sigma1_sq hm r.map);
    no_edges =
        rw (← same.images, blurred.means)
          (edge_diff_map-zero c IsFinite finite zeros doubles v.img1 b.mu1 hi r.edges);
  }

  module _ (rules : LibraryRules lib) where
    -- The images of a round have pixels: the last check found 8 rows and columns.
    round-VariablesSized :
        (scale : ℕ) (v u : Variables F) (xs ys mx my oxs oys : ℕ)
        → VariablesSized v xs ys mx my oxs oys
        → xs ≤ oxs
        → ys ≤ oys
        → is_too_small v.img1 ≡ false
        → (if scale == 0 then some v else next_scale lib v) ≡ some u
        → (a : ℕ) × (b : ℕ) × (0 < a)
          × (0 < b)
          × (a ≤ oxs)
          × (b ≤ oys)
          × VariablesSized u a b mx my oxs oys
    round-VariablesSized scale v u xs ys mx my oxs oys h hx hy big e =
        let bounds : (8 ≤ xs) × (8 ≤ ys) =
          rw (h.img1_size.sized0.x_size, h.img1_size.sized0.y_size) at
            (big_bounds (xsize v.img1) (ysize v.img1) big) in
        elim (Bool-cases (scale == 0)) [
          | inl first ↦
              let same : v ≡ u = some-eq (rw first at e) in
              (xs, ys, omega arith, omega arith, hx, hy, rw (← same) h)
          | inr later ↦
              let (w, ew, sw) =
                next_scale-some lib rules v xs ys mx my oxs oys h (omega arith) (omega arith) hx
                  hy in
              let same : w ≡ u = some-eq (sym ew ∙ (rw later at e)) in
              (
                scaled xs 2,
                scaled ys 2,
                omega arith,
                omega arith,
                omega arith,
                omega arith,
                rw (← same) sw,
              )
        ]

    -- Both the image and its blurred version have pixels.
    round_pixels :
        (u w : Variables F) (b : Blurred F) (xs ys mx my oxs oys : ℕ)
        → VariablesSized u xs ys mx my oxs oys
        → 0 < xs
        → 0 < ys
        → xs ≤ oxs
        → ys ≤ oys
        → shrink_buffers u ≡ some w
        → blur_all lib w ≡ some b
        → VariablesSized w xs ys xs ys oxs oys
          × (0 < ysize b.mu1 * xsize b.mu1)
          × (0 < ysize w.img1 * xsize w.img1)
    round_pixels u w b xs ys mx my oxs oys h px py hx hy ew eb =
        let (w', ew', sw) = shrink_buffers-some u xs ys mx my oxs oys h hx hy in
        let same_w : w' ≡ w = some-eq (sym ew' ∙ ew) in
        let sized : VariablesSized w xs ys xs ys oxs oys = rw (← same_w) sw in
        let (b', eb', sb) = blur_all-some lib rules w xs ys oxs oys sized in
        let same_b : b' ≡ b = some-eq (sym eb' ∙ eb) in
        let mean : Sized b.mu1 xs ys xs ys = rw (← same_b) sb in
        let area : 0 < ys * xs = grind arith in
        (
          sized,
          rw (mean.sized0.x_size, mean.sized0.y_size) area,
          rw (sized.img1_size.sized0.x_size, sized.img1_size.sized0.y_size) area,
        )

    scales_from-zero :
        (n scale : ℕ) (v : Variables F) (scales : List (MsssimScale D)) (xs ys mx my oxs oys : ℕ)
        → VariablesSized v xs ys mx my oxs oys
        → xs ≤ oxs
        → ys ≤ oys
        → Same v
        → AllRounds lib (RegularRound IsFinite) n scale v
        → scales_from c lib n scale v ≡ some scales
        → All ZeroScale scales
    unfolding AllRounds
    scales_from-zero zero scale v scales xs ys mx my oxs oys h hx hy same r e =
        let none_left : scales ≡ [] = unfold scales_from in ground arith in rw none_left tt
    scales_from-zero (suc n) scale v scales xs ys mx my oxs oys h hx hy same r e =
        elim (scales_from_cases c lib n scale v scales e) [
          | inl stops ↦ rw stops tt
          | inr x ↦
              let halved_same = round-Same lib scale v x.halved same x.halves in
              let ready_same = shrink_buffers-Same x.halved x.ready halved_same x.shrinks in
              let blurred_same = blur_all-SameBlurred lib x.ready x.blurred ready_same x.blurs in
              let (a, b, pa, pb, ha, hb, sized) =
                round-VariablesSized scale v x.halved xs ys mx my oxs oys h hx hy x.is_big
                  x.halves in
              let (ready_sized, mean_pixels, image_pixels) =
                round_pixels x.halved x.ready x.blurred a b mx my oxs oys sized pa pb ha hb
                  x.shrinks x.blurs in
              let (regular, later) =
                r x.halved x.ready x.blurred x.is_big x.halves x.shrinks x.blurs in
              rw (x.adds) (
                measure-ZeroScale x.ready x.blurred ready_same blurred_same mean_pixels image_pixels
                    regular,
                scales_from-zero n (scale + 1) x.ready x.rest a b a b oxs oys ready_sized ha hb
                    ready_same later x.goes_on,
              )
        ]

    -- An image that can be converted, and whose color encoding is gray exactly if that of its metadata is, compared with itself on any background: the computation returns
    -- scales, and their score is 100, if no operation of the error maps overflows and no denominator
    -- is a zero, positive or negative, at the scales that it measures.
    pub score_identical :
        (img o : ImageBundle F) (bg : F) (xs ys : ℕ)
        → HasSize img.color xs ys
        → img.metadata_gray ≡ img.is_gray
        → to_linear lib img bg ≡ some o
        → ((v : Variables F)
            → start lib img img bg ≡ some v
            → AllRounds lib (RegularRound IsFinite) num_scales 0 v)
        → (scales : List (MsssimScale D)) × (compute_ssimulacra2 c lib img img bg ≡ some scales)
          × (score c scales ≡ decimal 100 0)
    score_identical img o bg xs ys h g eo regular =
        let (v, ev, sv) = start-VariablesSized c lib rules img img o o bg xs ys h h g g eo eo in
        let (scales, e, _) =
          compute_ssimulacra2_total c lib rules img img o o bg xs ys h h g g eo eo in
        let runs : scales_from c lib num_scales 0 v ≡ some scales =
          unfold compute_ssimulacra2 in (rw ev at e) in
        (
          scales,
          e,
          score-zero c zeros scales (
              scales_from-zero num_scales 0 v scales xs ys xs ys xs ys sv (omega arith)
                (omega arith) (start-Same lib img bg v ev) (regular v ev) runs),
        )
