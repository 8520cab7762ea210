-- ===== src/Metric/Pixels.antt =====
-- src/ssimulacra2.cc: the operations on single-precision images, Downsample, Multiply,
-- MakePositiveXYB and AlphaBlend.
pub mod Bounds
use ssimulacra2_vulcan.Common.{ℕ, ◌+◌, ◌-◌, ◌*◌, ◌/◌, min, Option, none, some, loop}
use ssimulacra2_vulcan.Arith.{Arith, ◌⊕◌, ◌⊖◌, ◌⊗◌, ◌⊘◌, decimal}
use ssimulacra2_vulcan.Image.{
  Plane, Image3, ImageBundle, new_plane, write_pixels, plane, xsize, ysize, alpha,
}

-- The size of an image that is scaled down by the factor f.
abbrev pub scaled : ℕ → ℕ → ℕ
scaled n f = (n + f - 1) / f

-- The row or column that round i of the inner loop reads for the output o.
unfoldable pub source_index : ℕ → ℕ → ℕ → ℕ → ℕ
source_index n f o i = min (o * f + i) (n - 1)

module _ {F : Type 0} ⦃s : Arith F⦄ where
  -- The two inner loops: the sum over a block of the source, row by row.
  unfoldable pub block_sum : Image3 F → ℕ → ℕ → ℕ → ℕ → ℕ → F
  unfolding source_index
  block_sum in_image fx fy c oy ox =
      loop fy
        (λ iy acc.
          loop fx
            (λ ix sum.
              let x = source_index (xsize in_image) fx ox ix in
              let y = source_index (ysize in_image) fy oy iy in sum ⊕ (plane in_image c).pixel y x)
            acc)
        (decimal 0 0)

  unfoldable pub downsample : Image3 F → ℕ → ℕ → Image3 F
  unfolding block_sum
  downsample in_image fx fy =
      let normalize : F = decimal 1 0 ⊘ decimal (fx * fy) 0 in
      let channel : ℕ → Plane F = λ c.
        new_plane (scaled (xsize in_image) fx) (scaled (ysize in_image) fy)
          (λ oy ox. block_sum in_image fx fy c oy ox ⊗ normalize) in
      record { plane0 = channel 0; plane1 = channel 1; plane2 = channel 2 }

  -- mul = a * b, over the size of a.
  unfoldable pub multiply : Image3 F → Image3 F → Image3 F → Image3 F
  multiply a b mul =
      let channel : ℕ → Plane F = λ c.
        write_pixels (plane mul c) (xsize a) (ysize a)
          (λ y x. (plane a c).pixel y x ⊗ (plane b c).pixel y x) in
      record { plane0 = channel 0; plane1 = channel 1; plane2 = channel 2 }

  -- B := (B - Y) + 0.55, X := X * 14 + 0.42 and Y := Y + 0.01, where B reads Y before it is written.
  unfoldable pub make_positive_xyb : Image3 F → Image3 F
  make_positive_xyb img =
      let rows : Plane F → (ℕ → ℕ → F) → Plane F =
        λ p f. write_pixels p (xsize img) (ysize img) f in
      record {
        plane0 = rows img.plane0 (λ y x. img.plane0.pixel y x ⊗ decimal 14 0 ⊕ decimal 42 2);
        plane1 = rows img.plane1 (λ y x. img.plane1.pixel y x ⊕ decimal 1 2);
        plane2 =
            rows img.plane2 (λ y x. img.plane2.pixel y x ⊖ img.plane1.pixel y x ⊕ decimal 55 2);
      }

  -- Blending with a background of the intensity bg; `img.alpha()` asserts that there is a channel.
  unfoldable pub alpha_blend : ImageBundle F → F → Option (ImageBundle F)
  alpha_blend img bg = elim (alpha img) [
    | none ↦ none
    | some a ↦
        let channel : Plane F → Plane F = λ p.
          write_pixels p (xsize img.color) (ysize img.color)
            (λ y x. a.pixel y x ⊗ p.pixel y x ⊕ (decimal 1 0 ⊖ a.pixel y x) ⊗ bg) in
        some (record img {
          color = record {
            plane0 = channel img.color.plane0;
            plane1 = channel img.color.plane1;
            plane2 = channel img.color.plane2;
          };
        })
  ]
