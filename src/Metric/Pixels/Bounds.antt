-- ===== src/Metric/Pixels/Bounds.antt =====
-- src/ssimulacra2.cc: which rows and columns Downsample reads.
use ssimulacra2_vulcan.Common.{ℕ, ◌*◌, ◌<◌, ◌≡◌, ap, ap₂, ◌∙◌, loop_cong, arith}
use ssimulacra2_vulcan.Arith.{Arith, ◌⊕◌, ◌⊗◌, ◌⊘◌, decimal}
use ssimulacra2_vulcan.Image.{Image3, plane, xsize, ysize, new_plane}
use ssimulacra2_vulcan.Metric.Pixels.{scaled, source_index, block_sum, downsample}

source_index-lt : (n f o i : ℕ) → 0 < n → source_index n f o i < n
unfolding source_index
source_index-lt n f o i h = omega arith

-- Two images of one size that agree in each pixel inside of it, whatever stands outside.
pub record AreEqual {A : Type 0} (a b : Image3 A) : Type 0 where
  pub same_xsize : xsize a ≡ xsize b
  pub same_ysize : ysize a ≡ ysize b
  pub same_pixels :
      (c y x : ℕ) → y < ysize a → x < xsize a → (plane a c).pixel y x ≡ (plane b c).pixel y x

module _ {F : Type 0} ⦃s : Arith F⦄ where
  block_sum-AreEqual :
      (a b : Image3 F) (fx fy c oy ox : ℕ)
      → 0 < xsize a
      → 0 < ysize a
      → AreEqual a b
      → block_sum a fx fy c oy ox ≡ block_sum b fx fy c oy ox
  unfolding block_sum
  block_sum-AreEqual a b fx fy c oy ox px py same = loop_cong fy _ _ (decimal 0 0) λ iy acc hy.
      loop_cong fx _ _ acc λ ix sum hx.
        ap (λ (p : F). sum ⊕ p)
          (same.same_pixels c (source_index (ysize a) fy oy iy) (source_index (xsize a) fx ox ix)
            (source_index-lt (ysize a) fy oy iy py) (source_index-lt (xsize a) fx ox ix px))
        ∙ ap₂
            (λ (m n : ℕ).
              sum ⊕ (plane b c).pixel (source_index m fy oy iy) (source_index n fx ox ix))
            same.same_ysize same.same_xsize

  -- Downsample reads inside of its image only: of two images of one size, not empty, that agree in
  -- each pixel inside of it, it makes the same image, whatever stands outside of them.
  pub downsample-AreEqual :
      (a b : Image3 F) (fx fy : ℕ)
      → 0 < xsize a
      → 0 < ysize a
      → AreEqual a b
      → downsample a fx fy ≡ downsample b fx fy
  unfolding downsample
  downsample-AreEqual a b fx fy px py same =
      let channel : (c : ℕ)
          → new_plane (scaled (xsize a) fx) (scaled (ysize a) fy)
              (λ oy ox. block_sum a fx fy c oy ox ⊗ (decimal 1 0 ⊘ decimal (fx * fy) 0))
            ≡ new_plane (scaled (xsize b) fx) (scaled (ysize b) fy)
                (λ oy ox. block_sum b fx fy c oy ox ⊗ (decimal 1 0 ⊘ decimal (fx * fy) 0)) =
        λ c i. new_plane (scaled (same.same_xsize i) fx) (scaled (same.same_ysize i) fy) (λ oy ox.
          block_sum-AreEqual a b fx fy c oy ox px py same i
          ⊗ (decimal 1 0 ⊘ decimal (fx * fy) 0)) in
      λ i. record { plane0 = channel 0 i; plane1 = channel 1 i; plane2 = channel 2 i }
