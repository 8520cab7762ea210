-- ===== src/Fields/AnimationTrip.antt =====
-- src/lib/jxl/headers.cc: an animation header that is written and read back.
use ssimulacra2_vulcan.Common.{ℕ, ◌<◌, ◌^◌, ◌++◌, true, false, ◌≡◌, refl, some}
use ssimulacra2_vulcan.Fields.Bits.{Bits, reader}
use ssimulacra2_vulcan.Fields.Coder.{Fits}
use ssimulacra2_vulcan.Fields.Visitors.{bundle_write, bundle_read, finished}
use ssimulacra2_vulcan.Fields.Trip.{Replays, ends}
use ssimulacra2_vulcan.Fields.Size.{IsMarked, ends}
use ssimulacra2_vulcan.Fields.Marked.{field-IsMarked, flag-IsMarked}
use ssimulacra2_vulcan.Fields.BundleTrip.{bundle_read-bundle_write}
use ssimulacra2_vulcan.Fields.Replay.{field-Replays, flag-Replays}
use ssimulacra2_vulcan.Fields.Sizes.{
  AnimationHeader, numerator_coder, denominator_coder, loops_coder, visit_animation,
}

-- The fields are uint32_t.
abbrev pub AreWords : AnimationHeader → Type 0
AreWords g = (g.tps_numerator < 2 ^ 32) × (g.tps_denominator < 2 ^ 32) × (g.num_loops < 2 ^ 32)

visit_animation-Replays :
    (g h : AnimationHeader) → AreWords g → Replays (visit_animation g) (visit_animation h) g
unfolding visit_animation Fits
visit_animation-Replays g h (hn, hd, hl) =
    field-Replays numerator_coder 1 1 (g.tps_numerator) (h.tps_numerator) _ _ (refl, hn)
      (field-Replays denominator_coder 1 1 (g.tps_denominator) (h.tps_denominator) _ _ (refl, hd)
        (field-Replays loops_coder 0 0 (g.num_loops) (h.num_loops) _ _ (refl, hl)
          (flag-Replays false false (g.have_timecodes) (h.have_timecodes) _ _ ends)))

visit_animation-IsMarked : (g : AnimationHeader) → IsMarked (visit_animation g) g
unfolding visit_animation
visit_animation-IsMarked g = field-IsMarked numerator_coder 1 (g.tps_numerator) _ (
    field-IsMarked denominator_coder 1 (g.tps_denominator) _ (
      field-IsMarked loops_coder 0 (g.num_loops) _ (flag-IsMarked false (g.have_timecodes) _ ends)))

-- An AnimationHeader of 32-bit words that Bundle::Write accepts is read back whole by Bundle::Read, into a
-- header with any contents, and the reader stops behind it.
pub animation_trip :
    (subnormal : ℕ → ℕ) (size : ℕ) (g h : AnimationHeader) (written rest : Bits)
    → subnormal 0 ≡ 0
    → AreWords g
    → bundle_write visit_animation g ≡ some written
    → bundle_read subnormal size visit_animation h (reader (written ++ rest))
      ≡ finished g (reader rest) true
animation_trip subnormal size g h written rest exact words e =
    bundle_read-bundle_write subnormal size visit_animation g h g written rest exact
      (visit_animation-IsMarked g) (visit_animation-Replays g h words) e
