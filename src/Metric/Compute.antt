-- ===== src/Metric/Compute.antt =====
-- src/ssimulacra2.cc, ComputeSSIMULACRA2 and the class Blur. The color transform, the conversion to
-- XYB and the recursive Gaussian are calls of libjxl, the parameter `lib`; each returns nothing where
-- its own JXL_CHECK or JXL_ASSERT fails. The result is nothing if a check aborts the program.
pub mod Scales
pub mod Sizes
pub mod Total
pub mod Rounds
pub mod Identical
use ssimulacra2_vulcan.Common.{
  ℕ, zero, suc, ◌+◌, Bool, true, false, ◌||◌, Option, none, some, List, [], ◌∷◌, ltb, ◌==◌,
  if◌then◌else◌, ◌>>=◌,
}
use ssimulacra2_vulcan.Arith.{Arith, Doubles, decimal}
use ssimulacra2_vulcan.Image.{
  Plane, Image3, ImageBundle, new_plane, xsize, ysize, shrink_plane_to, shrink_to, has_alpha,
  clear_extra_channels, set_from_image,
}
use ssimulacra2_vulcan.Metric.Pixels.{downsample, multiply, make_positive_xyb, alpha_blend}
use ssimulacra2_vulcan.Metric.Maps.{ssim_map, edge_diff_map}
use ssimulacra2_vulcan.Metric.Score.{MsssimScale}

-- `fast_gaussian` takes the input, the scratch plane and the plane to write.
pub record Library (F : Type 0) : Type 0 where
  pub transform_to_linear : ImageBundle F → Option (ImageBundle F)
  pub to_xyb : ImageBundle F → Image3 F → Option (Image3 F)
  pub fast_gaussian : Plane F → Plane F → Plane F → Option (Plane F)

-- The variables of the loop over the scales; `temp` is the scratch plane of the blur.
pub record Variables (F : Type 0) : Type 0 where
  pub orig2 : ImageBundle F
  pub dist2 : ImageBundle F
  pub img1 : Image3 F
  pub img2 : Image3 F
  pub mul : Image3 F
  pub temp : Plane F

-- What the error maps read.
pub record Blurred (F : Type 0) : Type 0 where
  pub sigma1_sq : Image3 F
  pub sigma2_sq : Image3 F
  pub sigma12 : Image3 F
  pub mu1 : Image3 F
  pub mu2 : Image3 F

abbrev pub num_scales : ℕ
num_scales = 6

module _ {F : Type 0} ⦃s : Arith F⦄ where
  -- A plane and an image that are allocated but not yet written.
  abbrev pub fresh_plane : ℕ → ℕ → Plane F
  fresh_plane xs ys = new_plane xs ys (λ y x. decimal 0 0)

  abbrev pub fresh_image : ℕ → ℕ → Image3 F
  fresh_image xs ys = record {
    plane0 = fresh_plane xs ys;
    plane1 = fresh_plane xs ys;
    plane2 = fresh_plane xs ys;
  }

  unfoldable pub half_size : ImageBundle F → Option (ImageBundle F)
  half_size b = set_from_image b (downsample b.color 2 2) b.is_gray

module _ {F : Type 0} where
  unfoldable pub shrink_buffers : Variables F → Option (Variables F)
  shrink_buffers v = do
    mul ← shrink_to v.mul (xsize v.img1) (ysize v.img1)
    temp ← shrink_plane_to v.temp (xsize v.img1) (ysize v.img1)
    some (record v { mul = mul; temp = temp })

module _ {F : Type 0} ⦃s : Arith F⦄ (lib : Library F) where
  open lib use {transform_to_linear, to_xyb, fast_gaussian}

  -- Blur::operator() on an image.
  unfoldable pub blur : Plane F → Image3 F → Option (Image3 F)
  blur temp in_image = do
    let out = fresh_plane (xsize in_image) (ysize in_image)
    p ← fast_gaussian in_image.plane0 temp out
    q ← fast_gaussian in_image.plane1 temp out
    r ← fast_gaussian in_image.plane2 temp out
    some (record { plane0 = p; plane1 = q; plane2 = r })

  -- The copy of an input, blended if it has alpha, in linear sRGB.
  unfoldable pub to_linear : ImageBundle F → F → Option (ImageBundle F)
  to_linear b bg = do
    blended ← if has_alpha b then alpha_blend b bg else some b
    transform_to_linear (clear_extra_channels blended)

  unfoldable pub to_positive_xyb : ImageBundle F → Image3 F → Option (Image3 F)
  to_positive_xyb b img = do xyb ← to_xyb b img; some (make_positive_xyb xyb)

  -- The branch `if (scale)`.
  unfoldable pub next_scale : Variables F → Option (Variables F)
  next_scale v = do
    orig2 ← half_size v.orig2
    dist2 ← half_size v.dist2
    shrunk1 ← shrink_to v.img1 (xsize orig2.color) (ysize orig2.color)
    shrunk2 ← shrink_to v.img2 (xsize orig2.color) (ysize orig2.color)
    img1 ← to_positive_xyb orig2 shrunk1
    img2 ← to_positive_xyb dist2 shrunk2
    some (record v { orig2 = orig2; dist2 = dist2; img1 = img1; img2 = img2 })

  unfoldable pub blur_all : Variables F → Option (Blurred F)
  blur_all v = do
    let mul1 = multiply v.img1 v.img1 v.mul
    sigma1_sq ← blur v.temp mul1
    let mul2 = multiply v.img2 v.img2 mul1
    sigma2_sq ← blur v.temp mul2
    let mul3 = multiply v.img1 v.img2 mul2
    sigma12 ← blur v.temp mul3
    mu1 ← blur v.temp v.img1
    mu2 ← blur v.temp v.img2
    some (record {
      sigma1_sq = sigma1_sq;
      sigma2_sq = sigma2_sq;
      sigma12 = sigma12;
      mu1 = mu1;
      mu2 = mu2;
    })

  -- The variables at the start of the loop.
  unfoldable pub start : ImageBundle F → ImageBundle F → F → Option (Variables F)
  start orig dist bg = do
    let img1 = fresh_image (xsize orig.color) (ysize orig.color)
    let img2 = fresh_image (xsize img1) (ysize img1)
    orig2 ← to_linear orig bg
    dist2 ← to_linear dist bg
    xyb1 ← to_positive_xyb orig2 img1
    xyb2 ← to_positive_xyb dist2 img2
    some (record {
      orig2 = orig2;
      dist2 = dist2;
      img1 = xyb1;
      img2 = xyb2;
      mul = fresh_image (xsize xyb1) (ysize xyb1);
      temp = fresh_plane (xsize xyb1) (ysize xyb1);
    })

abbrev pub is_too_small : {F : Type 0} → Image3 F → Bool
is_too_small img = ltb (xsize img) 8 || ltb (ysize img) 8

module _ {F D : Type 0} ⦃s : Arith F⦄ ⦃d : Arith D⦄ (c : Doubles F D) where
  unfoldable pub measure : Variables F → Blurred F → MsssimScale D
  measure v b = record {
    avg_ssim = ssim_map c b.mu1 b.mu2 b.sigma1_sq b.sigma2_sq b.sigma12;
    avg_edgediff = edge_diff_map c v.img1 b.mu1 v.img2 b.mu2;
  }

module _ {F D : Type 0} ⦃s : Arith F⦄ ⦃d : Arith D⦄ (c : Doubles F D) (lib : Library F) where
  -- The loop, with the rounds that are left. `mul` has no content that a later scale reads, so its
  -- products are not carried over.
  unfoldable pub scales_from : ℕ → ℕ → Variables F → Option (List (MsssimScale D))
  scales_from zero scale v = some []
  scales_from (suc n) scale v = elim (is_too_small v.img1) [
    | true ↦ some []
    | false ↦ do
      scaled ← if scale == 0 then some v else next_scale lib v
      ready ← shrink_buffers scaled
      blurred ← blur_all lib ready
      rest ← scales_from n (scale + 1) ready
      some (measure c ready blurred ∷ rest)
  ]

  unfoldable pub compute_ssimulacra2 :
      ImageBundle F → ImageBundle F → F → Option (List (MsssimScale D))
  unfolding start scales_from
  compute_ssimulacra2 orig dist bg = do v ← start lib orig dist bg; scales_from num_scales 0 v

  -- The overload with the default background.
  unfoldable pub compute_on_gray : ImageBundle F → ImageBundle F → Option (List (MsssimScale D))
  compute_on_gray orig dist = compute_ssimulacra2 orig dist (decimal 5 1)
