-- ===== src/Color/XyTrip.antt =====
-- src/lib/jxl/common.h: PackSigned and UnpackSigned. src/lib/jxl/color_encoding_internal.cc: a Customxy that is written and read back.
use ssimulacra2_vulcan.Common.{
  ℕ, ◌-◌, ◌*◌, ◌^◌, ◌<◌, ◌≡◌, refl, ap₂, subst, ◌++◌, true, some, ltb, if◌then◌else◌, arith,
}
use ssimulacra2_vulcan.Fields.Bits.{Bits, reader}
use ssimulacra2_vulcan.Fields.Coder.{Fits}
use ssimulacra2_vulcan.Fields.Visitors.{bundle_write, bundle_read, finished}
use ssimulacra2_vulcan.Fields.Trip.{Replays, ends}
use ssimulacra2_vulcan.Fields.Size.{IsMarked, ends}
use ssimulacra2_vulcan.Fields.Marked.{field-IsMarked}
use ssimulacra2_vulcan.Fields.Replay.{field-Replays}
use ssimulacra2_vulcan.Fields.BundleTrip.{bundle_read-bundle_write}
use ssimulacra2_vulcan.Color.Encoding.{CustomXy}
use ssimulacra2_vulcan.Color.Visit.{pack_signed, unpack_signed, xy_coder, visit_xy}

-- UnpackSigned gives back each int32_t that PackSigned was given, and PackSigned each uint32_t that UnpackSigned was given; a
-- number from 0 on is packed into its double, and one that is n below 0 into 2 * n - 1.
pub unpack_signed-pack_signed :
    (v : ℕ)
    → v < 2 ^ 32
    → (unpack_signed (pack_signed v) ≡ v)
      × (pack_signed (unpack_signed v) ≡ v)
      × (pack_signed v ≡ (if ltb v (2 ^ 31) then 2 * v else 2 * (2 ^ 32 - v) - 1))
unfolding pack_signed unpack_signed
unpack_signed-pack_signed v h = (ground arith, ground arith, ground arith)

pack_signed-bound : (v : ℕ) → v < 2 ^ 32 → pack_signed v < 2 ^ 32
unfolding pack_signed
pack_signed-bound v h = ground arith

-- Two int32_t
abbrev pub IsWord : CustomXy → Type 0
IsWord g = (g.x < 2 ^ 32) × (g.y < 2 ^ 32)

unpacked : CustomXy → CustomXy
unpacked g = record { x = unpack_signed (pack_signed (g.x)); y = unpack_signed (pack_signed (g.y)) }

unpacked-same : (g : CustomXy) → IsWord g → unpacked g ≡ g
unfolding unpacked
unpacked-same g (hx, hy) =
    ap₂ (λ (x y : ℕ). record { x = x; y = y }) ((unpack_signed-pack_signed (g.x) hx).0)
      ((unpack_signed-pack_signed (g.y) hy).0)

xy-Replays : (g h : CustomXy) → IsWord g → Replays (visit_xy g) (visit_xy h) g
unfolding visit_xy Fits unpacked
xy-Replays g h (hx, hy) = subst (Replays (visit_xy g) (visit_xy h)) (unpacked-same g (hx, hy)) (
    field-Replays xy_coder 0 0 (pack_signed (g.x)) (pack_signed (h.x)) _ _
      (refl, pack_signed-bound (g.x) hx)
      (field-Replays xy_coder 0 0 (pack_signed (g.y)) (pack_signed (h.y)) _ _
        (refl, pack_signed-bound (g.y) hy) ends))

xy-IsMarked : (g : CustomXy) → IsWord g → IsMarked (visit_xy g) g
unfolding visit_xy unpacked
xy-IsMarked g h = subst (IsMarked (visit_xy g)) (unpacked-same g h) (
    field-IsMarked xy_coder 0 (pack_signed (g.x)) _
      (field-IsMarked xy_coder 0 (pack_signed (g.y)) _ ends))

-- A Customxy of two int32_t, positive or negative, that Bundle::Write accepts is read back whole by Bundle::Read, into any other one.
pub custom_xy_trip :
    (subnormal : ℕ → ℕ) (size : ℕ) (g h : CustomXy) (written rest : Bits)
    → subnormal 0 ≡ 0
    → IsWord g
    → bundle_write visit_xy g ≡ some written
    → bundle_read subnormal size visit_xy h (reader (written ++ rest))
      ≡ finished g (reader rest) true
custom_xy_trip subnormal size g h written rest exact words e =
    bundle_read-bundle_write subnormal size visit_xy g h g written rest exact (xy-IsMarked g words)
      (xy-Replays g h words) e
