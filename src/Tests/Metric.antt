-- ===== src/Tests/Metric.antt =====
-- The metric, over the counting arithmetic, with a library whose conversions change nothing.
use ssimulacra2_vulcan.Common.{
  ℕ, ◌*◌, ◌<◌, ◌≤◌, ◌≡◌, ◌↔◌, refl, false, Option, none, some, List, [], ◌∷◌, length, arith, zero,
  suc, ltb, ◌&&◌, if◌then◌else◌, subst, some-eq,
}
use ssimulacra2_vulcan.Arith.Counting.{counting, identity}
use ssimulacra2_vulcan.Image.{Plane, Image3, ImageBundle, new_plane, plane, has_alpha}
use ssimulacra2_vulcan.Metric.Pixels.{downsample}
use ssimulacra2_vulcan.Metric.Pixels.Bounds.{downsample-AreEqual}
use ssimulacra2_vulcan.Metric.Score.{MsssimScale, sum_scales}
use ssimulacra2_vulcan.Metric.Score.Order.{indexed_sum, sum_scales-indexed_sum}
use ssimulacra2_vulcan.Metric.Score.Weights.{weight}
use ssimulacra2_vulcan.Metric.Compute.{Library, to_linear, compute_ssimulacra2}
use ssimulacra2_vulcan.Metric.Compute.Sizes.{BundleSized, HasSize, LibraryRules}
use ssimulacra2_vulcan.Metric.Compute.Scales.{scale_count}
use ssimulacra2_vulcan.Metric.Compute.Total.{Returns, compute_ssimulacra2_total}
use ssimulacra2_vulcan.Metric.Compute.Rounds.{weights_in_bounds}
use ssimulacra2_vulcan.Metric.Tool.{FilePath, CodecInOut, main_frame, printed, main, exit_code}
use ssimulacra2_vulcan.Metric.Tool.Outcomes.{Compared, main-printed, main_succeeds, main_total}

-- The color transform and the conversion to XYB copy, and the blur does nothing.
abbrev plain : Library ℕ
plain = record {
  transform_to_linear = λ b. some b;
  to_xyb = λ b i. some i;
  fast_gaussian = λ p t o. some o;
}

plain-LibraryRules : LibraryRules plain
plain-LibraryRules = record {
  transform_sized = λ b o xs ys e h. subst (λ i. BundleSized i xs ys) (some-eq e) h;
  to_xyb_sized = λ b i xs ys oxs oys hb hi. (i, refl, hi);
  gaussian_sized = λ p t o xs ys pxs pys txs tys hp ht ho. (o, refl, ho);
}

-- An image with 16 columns and 9 rows.
abbrev stripes : ImageBundle ℕ
stripes =
    let p : Plane ℕ = new_plane 16 9 (λ y x. x) in
    record {
      color = record { plane0 = p; plane1 = p; plane2 = p };
      extra_channels = [];
      is_gray = false;
      alpha_index = none;
      metadata_gray = false;
    }

-- A frame of another size.
abbrev wide : ImageBundle ℕ
wide =
    let p : Plane ℕ = new_plane 20 10 (λ y x. y) in
    record stripes { color = record { plane0 = p; plane1 = p; plane2 = p } }

stripes-HasSize : HasSize stripes.color 16 9
stripes-HasSize = omega arith

stripes-to_linear : (bg : ℕ) → to_linear plain stripes bg ≡ some stripes
unfolding to_linear has_alpha
stripes-to_linear bg = refl

-- 9 rows are halved to 5, and no further.
compute_ssimulacra2_total_example :
    Returns (compute_ssimulacra2 identity plain stripes stripes 1) (scale_count 9)
compute_ssimulacra2_total_example =
    compute_ssimulacra2_total identity plain plain-LibraryRules stripes stripes stripes stripes 1 16
      9 stripes-HasSize stripes-HasSize refl refl (stripes-to_linear 1) (stripes-to_linear 1)

scale_count_runs : (scale_count 9 ≡ 2) × (scale_count 113 ≡ 6) × (scale_count 7 ≡ 0)
unfolding scale_count
scale_count_runs = (refl, refl, refl)

-- An animation on a canvas of 20 columns and 10 rows, whose main frame is the test image.
abbrev animation : CodecInOut ℕ
animation = record { xsize = 20; ysize = 10; frames = (0, wide) ∷ (5, stripes) ∷ (5, wide) ∷ [] }

animation_main : main_frame animation.frames ≡ some stripes
unfolding main_frame
animation_main = refl

-- Files of the empty name do not load; any other one is the animation.
abbrev load : FilePath → Option (CodecInOut ℕ)
load [] = none
load (b ∷ bs) = some animation

main_total_example :
    (x : ℕ) × (main identity plain load ([] ∷ (1 ∷ []) ∷ (2 ∷ []) ∷ []) ≡ printed x)
main_total_example =
    main_total identity plain plain-LibraryRules load [] (1 ∷ []) (2 ∷ []) animation animation
      stripes stripes 16 9 refl refl (omega arith) (omega arith) refl refl animation_main
      animation_main stripes-HasSize stripes-HasSize refl refl
      (λ bg. (stripes, stripes-to_linear bg)) (λ bg. (stripes, stripes-to_linear bg))

main-printed_example :
    (main identity plain load ([] ∷ (1 ∷ []) ∷ (2 ∷ []) ∷ []) ≡ printed 100)
    ↔ Compared identity plain (load (1 ∷ [])) (load (2 ∷ [])) 100
main-printed_example = main-printed identity plain load [] (1 ∷ []) (2 ∷ []) 100

abbrev command : List FilePath
command = [] ∷ (1 ∷ []) ∷ (2 ∷ []) ∷ []

main_succeeds_example :
    (exit_code (main identity plain load command) ≡ some 0)
    ↔ ((x : ℕ) × (length command ≡ 3) × Compared identity plain (load (1 ∷ [])) (load (2 ∷ [])) x)
main_succeeds_example = main_succeeds identity plain load command

one_error : MsssimScale ℕ
one_error = record { avg_ssim = 0 ∷ 3 ∷ []; avg_edgediff = 5 ∷ 7 ∷ [] }

sum_scales-indexed_sum_example :
    ((sum_scales (one_error ∷ one_error ∷ [])).total ≡ indexed_sum (one_error ∷ one_error ∷ []))
    × ((sum_scales (one_error ∷ one_error ∷ [])).next ≡ 18 * 2)
sum_scales-indexed_sum_example = sum_scales-indexed_sum (one_error ∷ one_error ∷ [])

-- An image that has the pixels of the test image inside, and others outside.
abbrev framed : Image3 ℕ
framed =
    let p : Plane ℕ = new_plane 16 9 (λ y x. if ltb y 9 && ltb x 16 then x else 77) in
    record { plane0 = p; plane1 = p; plane2 = p }

framed_pixel : (y x : ℕ) → y < 9 → x < 16 → x ≡ (if ltb y 9 && ltb x 16 then x else 77)
framed_pixel y x hy hx = ground arith

framed-plane :
    (c y x : ℕ) → y < 9 → x < 16 → (plane stripes.color c).pixel y x ≡ (plane framed c).pixel y x
framed-plane zero y x hy hx = framed_pixel y x hy hx
framed-plane (suc zero) y x hy hx = framed_pixel y x hy hx
framed-plane (suc (suc c)) y x hy hx = framed_pixel y x hy hx

downsample-AreEqual_example : downsample stripes.color 2 2 ≡ downsample framed 2 2
downsample-AreEqual_example =
    downsample-AreEqual stripes.color framed 2 2 (omega arith) (omega arith)
      (record { same_xsize = refl; same_ysize = refl; same_pixels = framed-plane })

stripes_run : Returns (compute_ssimulacra2 identity plain stripes stripes 1) (scale_count 9)
stripes_run =
    compute_ssimulacra2_total identity plain plain-LibraryRules stripes stripes stripes stripes 1 16
      9 stripes-HasSize stripes-HasSize refl refl (stripes-to_linear 1) (stripes-to_linear 1)

weights_in_bounds_example :
    ((sum_scales stripes_run.0).next ≡ 18 * length stripes_run.0)
    × ((sum_scales stripes_run.0).next ≤ length weight)
weights_in_bounds_example =
    weights_in_bounds identity plain stripes stripes 1 stripes_run.0 stripes_run.1
