-- ===== src/Metadata/DepthTrip.antt =====
-- src/lib/jxl/image_metadata.cc: a bit depth that is written and read back.
use ssimulacra2_vulcan.Common.{
  ℕ, ◌+◌, ◌-◌, ◌%◌, ◌^◌, ◌<◌, ◌≤◌, ◌≡◌, ◌++◌, refl, Bool, true, false, some, inl, inr, arith,
}
use ssimulacra2_vulcan.Fields.Bits.{Bits, reader}
use ssimulacra2_vulcan.Fields.Coder.{Fits, bits}
use ssimulacra2_vulcan.Fields.Visitors.{bundle_write, bundle_read, finished}
use ssimulacra2_vulcan.Fields.Trip.{Replays, ends}
use ssimulacra2_vulcan.Fields.Size.{IsMarked, ends}
use ssimulacra2_vulcan.Fields.Marked.{field-IsMarked, flag-IsMarked, check-IsMarked}
use ssimulacra2_vulcan.Fields.Replay.{field-Replays, flag-Replays, check-Replays}
use ssimulacra2_vulcan.Fields.BundleTrip.{bundle_read-bundle_write}
use ssimulacra2_vulcan.Metadata.Bundles.{
  BitDepth, visit_bit_depth, visit_samples, integer_coder, float_coder,
}
use ssimulacra2_vulcan.Metadata.Valid.{IsDepth}

exponent_back : (e : ℕ) → 2 ≤ e → e ≤ 8 → ((e + 2 ^ 32 - 1) % 2 ^ 32 + 1) % 2 ^ 32 ≡ e
exponent_back e lo hi = omega arith

abbrev depth_of : Bool → ℕ → ℕ → BitDepth
depth_of f d e = record {
  floating_point_sample = f;
  bits_per_sample = d;
  exponent_bits_per_sample = e;
}

samples-Replays :
    (f : Bool) (d e : ℕ) (h : BitDepth)
    → d < 2 ^ 32
    → IsDepth (depth_of f d e)
    → Replays (visit_samples (depth_of f d e) f) (visit_samples h f) (depth_of f d e)
unfolding visit_samples Fits
samples-Replays true d e h small (inl (is_float, lo, hi, m, m')) =
    let back = exponent_back e lo hi in
    field-Replays float_coder 32 32 d (h.bits_per_sample) _ _ (refl, small)
      (field-Replays (bits 4) 7 7 ((e + 2 ^ 32 - 1) % 2 ^ 32)
        ((h.exponent_bits_per_sample + 2 ^ 32 - 1) % 2 ^ 32) _ _ tt
        (rw back (
          check-Replays _ _ _ _ (ground arith) (ground arith)
            (check-Replays _ _ _ _ (ground arith) (ground arith) ends))))
samples-Replays false d e h small (inr (is_int, positive, le, no_exponent)) = rw no_exponent (
    field-Replays integer_coder 8 8 d (h.bits_per_sample) _ _ (refl, small)
      (check-Replays _ _ _ _ (ground arith) (ground arith) ends))
samples-Replays true d e h small (inr (is_int, positive, le, no_exponent)) = absurd (ground arith)
samples-Replays false d e h small (inl (is_float, lo, hi, m, m')) = absurd (ground arith)

samples-IsMarked :
    (f : Bool) (d e : ℕ)
    → IsDepth (depth_of f d e)
    → IsMarked (visit_samples (depth_of f d e) f) (depth_of f d e)
unfolding visit_samples
samples-IsMarked true d e (inl (is_float, lo, hi, m, m')) =
    let back = exponent_back e lo hi in
    field-IsMarked float_coder 32 d _ (
      field-IsMarked (bits 4) 7 ((e + 2 ^ 32 - 1) % 2 ^ 32) _
        (rw back (check-IsMarked _ _ (ground arith) (check-IsMarked _ _ (ground arith) ends))))
samples-IsMarked false d e (inr (is_int, positive, le, no_exponent)) =
    rw no_exponent (field-IsMarked integer_coder 8 d _ (check-IsMarked _ _ (ground arith) ends))
samples-IsMarked true d e (inr (is_int, positive, le, no_exponent)) = absurd (ground arith)
samples-IsMarked false d e (inl (is_float, lo, hi, m, m')) = absurd (ground arith)

-- A BitDepth in the documented range that Bundle::Write accepts is read back whole by Bundle::Read, into any bundle.
pub bit_depth_trip :
    (subnormal : ℕ → ℕ) (size : ℕ) (g h : BitDepth) (written rest : Bits)
    → subnormal 0 ≡ 0
    → g.bits_per_sample < 2 ^ 32
    → IsDepth g
    → bundle_write visit_bit_depth g ≡ some written
    → bundle_read subnormal size visit_bit_depth h (reader (written ++ rest))
      ≡ finished g (reader rest) true
unfolding visit_bit_depth
bit_depth_trip subnormal size g h written rest exact small valid e =
    let f = g.floating_point_sample in
    let d = g.bits_per_sample in
    let x = g.exponent_bits_per_sample in
    bundle_read-bundle_write subnormal size visit_bit_depth g h g written rest exact
      (flag-IsMarked false f (visit_samples g) (samples-IsMarked f d x valid))
      (flag-Replays false false f (h.floating_point_sample) (visit_samples g) (visit_samples h)
        (samples-Replays f d x h small valid))
      e
