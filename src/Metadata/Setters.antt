-- ===== src/Metadata/Setters.antt =====
-- src/lib/jxl/image_metadata.h: the setters of bit depths.
use ssimulacra2_vulcan.Common.{ℕ, ◌≤◌, inl, inr, refl, arith}
use ssimulacra2_vulcan.Metadata.Valid.{IsDepth}
use ssimulacra2_vulcan.Metadata.Image.{
  ImageMetadata, set_uint_samples, set_float32_samples, set_float16_samples,
}

-- SetUintSamples of 1 to 31 bits, SetFloat32Samples and SetFloat16Samples set a bit depth that BitDepth's VisitFields takes.
pub setters-IsDepth :
    {C : Type 0} (depth : ℕ) (h : ImageMetadata C)
    → 1 ≤ depth
    → depth ≤ 31
    → IsDepth ((set_uint_samples depth h).bit_depth)
      × IsDepth ((set_float32_samples h).bit_depth)
      × IsDepth ((set_float16_samples h).bit_depth)
unfolding set_uint_samples set_float32_samples set_float16_samples
setters-IsDepth depth h positive small = (
  inr (refl, positive, small, refl),
  inl (refl, omega arith, omega arith, omega arith, omega arith),
  inl (refl, omega arith, omega arith, omega arith, omega arith),
)
