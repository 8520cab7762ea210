-- ===== src/Metric/Maps.antt =====
-- src/ssimulacra2.cc: the error maps, SSIMMap and EdgeDiffMap. A map is never stored: its 1-norm and
-- its 4-norm are summed over the pixels, row by row. Pixels are floats and the sums doubles.
pub mod Identical
use ssimulacra2_vulcan.Common.{ℕ, zero, suc, ◌*◌, List, [], ◌∷◌, ◌++◌, loop}
use ssimulacra2_vulcan.Arith.{Arith, Doubles, ◌⊕◌, ◌⊖◌, ◌⊗◌, ◌⊘◌, neg, abs, larger, decimal}
use ssimulacra2_vulcan.Image.{Image3, plane, xsize, ysize}

-- Two sums, the plain one and that of the fourth powers.
pub record Sums (D : Type 0) : Type 0 where
  pub first : D
  pub fourth : D

-- sum1[0] and sum1[1], the ringing, and sum1[2] and sum1[3], the detail that is lost.
pub record EdgeSums (D : Type 0) : Type 0 where
  pub artifact : Sums D
  pub detail_lost : Sums D

module _ {D : Type 0} ⦃d : Arith D⦄ where
  abbrev pub to_the_4th : D → D
  to_the_4th x = let y = x ⊗ x in y ⊗ y

  abbrev pub no_sums : Sums D
  no_sums = record { first = decimal 0 0; fourth = decimal 0 0 }

  unfoldable pub add_error : Sums D → D → Sums D
  add_error t e = record { first = t.first ⊕ e; fourth = t.fourth ⊕ to_the_4th e }

  unfoldable pub add_edge : EdgeSums D → D → EdgeSums D
  unfolding add_error
  add_edge t d1 = record {
    artifact = add_error t.artifact (larger d1 (decimal 0 0));
    detail_lost = add_error t.detail_lost (larger (neg d1) (decimal 0 0));
  }

  abbrev pub no_edges : EdgeSums D
  no_edges = record { artifact = no_sums; detail_lost = no_sums }

  abbrev pub one_per_pixels : ℕ → ℕ → D
  one_per_pixels ys xs = decimal 1 0 ⊘ decimal (ys * xs) 0

module _ {F D : Type 0} ⦃s : Arith F⦄ ⦃d : Arith D⦄ (c : Doubles F D) where
  open c use {widen, narrow, sqrt}

  -- The two entries of plane_averages for the sums of a map.
  unfoldable pub norms : D → Sums D → List D
  norms per t = (per ⊗ t.first) ∷ sqrt (sqrt (per ⊗ t.fourth)) ∷ []

  -- 1 - SSIM' at a pixel with the means mu1 and mu2 and the blurred products s11, s22 and s12.
  unfoldable pub ssim_error : F → F → F → F → F → D
  ssim_error mu1 mu2 s11 s22 s12 =
      let mu11 = mu1 ⊗ mu1 in
      let mu22 = mu2 ⊗ mu2 in
      let mu12 = mu1 ⊗ mu2 in
      let num_m : F = narrow (decimal 1 0 ⊖ widen ((mu1 ⊖ mu2) ⊗ (mu1 ⊖ mu2))) in
      let num_s : F = decimal 2 0 ⊗ (s12 ⊖ mu12) ⊕ decimal 9 4 in
      let denom_s : F = (s11 ⊖ mu11) ⊕ (s22 ⊖ mu22) ⊕ decimal 9 4 in
      larger (decimal 1 0 ⊖ widen (num_m ⊗ num_s ⊘ denom_s)) (decimal 0 0)

  unfoldable pub ssim_sums : Image3 F → Image3 F → Image3 F → Image3 F → Image3 F → ℕ → Sums D
  unfolding add_error ssim_error
  ssim_sums m1 m2 s11 s22 s12 ch =
      loop (ysize m1)
        (λ y acc.
          loop (xsize m1)
            (λ x t. add_error t (
              ssim_error ((plane m1 ch).pixel y x) ((plane m2 ch).pixel y x)
                ((plane s11 ch).pixel y x) ((plane s22 ch).pixel y x) ((plane s12 ch).pixel y x)))
            acc)
        no_sums

  unfoldable pub ssim_map : Image3 F → Image3 F → Image3 F → Image3 F → Image3 F → List D
  unfolding ssim_sums
  ssim_map m1 m2 s11 s22 s12 =
      loop 3
        (λ ch averages.
          averages ++ norms (one_per_pixels (ysize m1) (xsize m1)) (ssim_sums m1 m2 s11 s22 s12 ch))
        []

  -- How much more the distorted image differs from its blurred version than the original does.
  unfoldable pub edge_ratio : F → F → F → F → D
  edge_ratio v1 mu1 v2 mu2 =
      (decimal 1 0 ⊕ widen (abs (v2 ⊖ mu2))) ⊘ (decimal 1 0 ⊕ widen (abs (v1 ⊖ mu1))) ⊖ decimal 1 0

  unfoldable pub edge_sums : Image3 F → Image3 F → Image3 F → Image3 F → ℕ → EdgeSums D
  unfolding add_edge edge_ratio
  edge_sums img1 mu1 img2 mu2 ch =
      loop (ysize img1)
        (λ y acc.
          loop (xsize img1)
            (λ x t. add_edge t (
              edge_ratio ((plane img1 ch).pixel y x) ((plane mu1 ch).pixel y x)
                ((plane img2 ch).pixel y x) ((plane mu2 ch).pixel y x)))
            acc)
        no_edges

  unfoldable pub edge_diff_map : Image3 F → Image3 F → Image3 F → Image3 F → List D
  unfolding edge_sums
  edge_diff_map img1 mu1 img2 mu2 =
      let per = one_per_pixels (ysize img1) (xsize img1) in
      loop 3
        (λ ch averages.
          let t = edge_sums img1 mu1 img2 mu2 ch in
          averages ++ norms per t.artifact ++ norms per t.detail_lost)
        []
