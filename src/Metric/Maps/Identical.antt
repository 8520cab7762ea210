-- ===== src/Metric/Maps/Identical.antt =====
-- The error maps of an image and itself are zero.
use ssimulacra2_vulcan.Common.{arith, ℕ, false, ◌*◌, ◌<◌, ◌≡◌, [], ◌∷◌, loop, loop_fixed, replicate}
use ssimulacra2_vulcan.Arith.{Arith, Doubles, ◌⊕◌, ◌⊖◌, ◌⊗◌, neg, equal, decimal}
use ssimulacra2_vulcan.Arith.Rules.{FiniteRules, ZeroRules, DoubleRules}
use ssimulacra2_vulcan.Image.{Image3, plane, xsize, ysize}
use ssimulacra2_vulcan.Metric.Maps.{
  no_sums, add_error, norms, one_per_pixels, ssim_error, ssim_sums, ssim_map, edge_ratio, add_edge,
  no_edges, edge_sums, edge_diff_map,
}

module _ {F : Type 0} ⦃s : Arith F⦄ (IsFinite : F → Type 0) where
  -- No operation of the SSIM' formula overflows at a pixel with the mean mu and the blurred square sq,
  -- and its denominator is neither zero.
  pub record RegularPixel (mu sq : F) : Type 0 where
    pub mean : IsFinite mu
    pub variance : IsFinite (sq ⊖ mu ⊗ mu)
    pub denominator : IsFinite ((sq ⊖ mu ⊗ mu) ⊕ (sq ⊖ mu ⊗ mu) ⊕ decimal 9 4)
    pub not_zero : equal ((sq ⊖ mu ⊗ mu) ⊕ (sq ⊖ mu ⊗ mu) ⊕ decimal 9 4) (decimal 0 0) ≡ false

  -- The conditions at all pixels of the means m and the blurred squares q.
  pub record RegularMap (m q : Image3 F) : Type 0 where
    pub pixels : (ch y x : ℕ) → RegularPixel ((plane m ch).pixel y x) ((plane q ch).pixel y x)

  -- The difference of an image and its blurred version does not overflow.
  pub record RegularEdges (i m : Image3 F) : Type 0 where
    pub pixels : (ch y x : ℕ) → IsFinite ((plane i ch).pixel y x ⊖ (plane m ch).pixel y x)

module _ {D : Type 0} ⦃d : Arith D⦄ (zeros : ZeroRules D) where
  add_error-zero : add_error no_sums (decimal {A = D} 0 0) ≡ no_sums
  unfolding add_error
  add_error-zero = simp (zeros.mul_zero 0 0 (omega arith), zeros.add_zero)

  add_error-neg : add_error no_sums (neg (decimal {A = D} 0 0)) ≡ no_sums
  unfolding add_error
  add_error-neg =
      simp (zeros.neg_mul-neg, zeros.mul_zero 0 0 (omega arith), zeros.add-neg_zero, zeros.add_zero)

module _ {F D : Type 0} ⦃s : Arith F⦄ ⦃d : Arith D⦄ (c : Doubles F D) (IsFinite : F → Type 0)
    (finite : FiniteRules IsFinite) (zeros : ZeroRules D) (doubles : DoubleRules c IsFinite) where
  ssim_error-zero :
      (mu sq : F) → RegularPixel IsFinite mu sq → ssim_error c mu mu sq sq sq ≡ decimal 0 0
  unfolding ssim_error
  ssim_error-zero mu sq r = simp (
    finite.sub_self mu r.mean,
    finite.zero_mul_zero,
    doubles.widen-zero,
    doubles.one_sub-zero,
    doubles.narrow-one,
    finite.two_mul _ r.variance,
    finite.one_mul _ r.denominator,
    finite.div_self _ r.denominator r.not_zero,
    doubles.widen-one,
    doubles.one_sub-one,
    zeros.less-zero,
  )

  add_edge-zero :
      (v mu : F) → IsFinite (v ⊖ mu) → add_edge no_edges (edge_ratio c v mu v mu) ≡ no_edges
  unfolding add_edge edge_ratio
  add_edge-zero v mu h = simp (
    doubles.one_add_div_self _ h,
    doubles.one_sub-one,
    zeros.less-zero,
    zeros.less-neg_zero,
    add_error-zero zeros,
    add_error-neg zeros,
  )

  norms-zero :
      (ys xs : ℕ)
      → 0 < ys * xs
      → norms c (one_per_pixels ys xs) no_sums ≡ decimal 0 0 ∷ decimal 0 0 ∷ []
  unfolding norms
  norms-zero ys xs h = simp (zeros.reciprocal_mul _ h, doubles.sqrt-zero)

  pub ssim_map-zero :
      (m q : Image3 F)
      → 0 < ysize m * xsize m
      → RegularMap IsFinite m q
      → ssim_map c m m q q q ≡ replicate 6 (decimal 0 0)
  unfolding ssim_map loop
  ssim_map-zero m q h r = simp (sums 0, sums 1, sums 2, norms-zero _ _ h)
    where
      sums : (ch : ℕ) → ssim_sums c m m q q q ch ≡ no_sums
      sums ch = loop_fixed (ysize m) _ no_sums λ y hy.
          loop_fixed (xsize m) _ no_sums
            λ x hx. rw (ssim_error-zero _ _ (r.pixels ch y x)) (add_error-zero zeros)

  pub edge_diff_map-zero :
      (i m : Image3 F)
      → 0 < ysize i * xsize i
      → RegularEdges IsFinite i m
      → edge_diff_map c i m i m ≡ replicate 12 (decimal 0 0)
  unfolding edge_diff_map loop
  edge_diff_map-zero i m h r = simp (sums 0, sums 1, sums 2, norms-zero _ _ h)
    where
      sums : (ch : ℕ) → edge_sums c i m i m ch ≡ no_edges
      sums ch =
          loop_fixed (ysize i) _ no_edges
            λ y hy. loop_fixed (xsize i) _ no_edges λ x hx. add_edge-zero _ _ (r.pixels ch y x)
