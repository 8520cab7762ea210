-- ===== src/Fields/PreviewTrip.antt =====
-- src/lib/jxl/headers.cc: the sizes of a preview header that is written and read back.
use ssimulacra2_vulcan.Common.{
  ℕ, ◌<◌, ◌^◌, ◌++◌, true, false, not, ◌&&◌, ◌==◌, ◌≡◌, refl, if◌then◌else◌, some, arith,
}
use ssimulacra2_vulcan.Fields.Bits.{Bits, reader}
use ssimulacra2_vulcan.Fields.SizeHeader.{PreviewHeader, get_preview_xsize, get_preview_ysize}
use ssimulacra2_vulcan.Fields.Coder.{Fits, bits}
use ssimulacra2_vulcan.Fields.Visitors.{bundle_write, bundle_read, finished}
use ssimulacra2_vulcan.Fields.Trip.{Replays, ends}
use ssimulacra2_vulcan.Fields.Size.{IsMarked, ends}
use ssimulacra2_vulcan.Fields.Marked.{field-IsMarked, flag-IsMarked, field_if-IsMarked}
use ssimulacra2_vulcan.Fields.BundleTrip.{bundle_read-bundle_write}
use ssimulacra2_vulcan.Fields.Replay.{field-Replays, flag-Replays, field_if-Replays}
use ssimulacra2_vulcan.Fields.Sizes.{preview_coder, preview_div8_coder, visit_preview}

-- What is read over the header h: the fields that are visited.
preview_over : PreviewHeader → PreviewHeader → PreviewHeader
preview_over h g = record {
  div8 = g.div8;
  ysize_div8 = (if g.div8 then g.ysize_div8 else h.ysize_div8);
  ysize = (if not (g.div8) then g.ysize else h.ysize);
  ratio = g.ratio;
  xsize_div8 = (if g.ratio == 0 && g.div8 then g.xsize_div8 else h.xsize_div8);
  xsize = (if g.ratio == 0 && not (g.div8) then g.xsize else h.xsize);
}

-- The fields are uint32_t.
abbrev pub AreWords : PreviewHeader → Type 0
AreWords g =
    (g.ysize < 2 ^ 32) × (g.xsize < 2 ^ 32) × (g.ysize_div8 < 2 ^ 32) × (g.xsize_div8 < 2 ^ 32)

visit_preview-Replays :
    (g h : PreviewHeader)
    → AreWords g
    → Replays (visit_preview g) (visit_preview h) (preview_over h g)
unfolding visit_preview preview_over Fits
visit_preview-Replays g h (hy, hx, hy8, hx8) = flag-Replays false false (g.div8) (h.div8) _ _ (
    field_if-Replays (g.div8) preview_div8_coder 1 1 (g.ysize_div8) (h.ysize_div8) _ _
      (λ e. (refl, hy8))
      (field_if-Replays (not (g.div8)) preview_coder 1 1 (g.ysize) (h.ysize) _ _ (λ e. (refl, hy))
        (field-Replays (bits 3) 0 0 (g.ratio) (h.ratio) _ _ tt (
          field_if-Replays (g.ratio == 0 && g.div8) preview_div8_coder 1 1 (g.xsize_div8)
            (h.xsize_div8) _ _ (λ e. (refl, hx8))
            (field_if-Replays (g.ratio == 0 && not (g.div8)) preview_coder 1 1 (g.xsize) (h.xsize) _
              _ (λ e. (refl, hx)) ends)))))

visit_preview-IsMarked : (g : PreviewHeader) → IsMarked (visit_preview g) g
unfolding visit_preview
visit_preview-IsMarked g = flag-IsMarked false (g.div8) _ (
    field_if-IsMarked (g.div8) preview_div8_coder 1 (g.ysize_div8) _ (
      field_if-IsMarked (not (g.div8)) preview_coder 1 (g.ysize) _ (
        field-IsMarked (bits 3) 0 (g.ratio) _ (
          field_if-IsMarked (g.ratio == 0 && g.div8) preview_div8_coder 1 (g.xsize_div8) _
            (field_if-IsMarked (g.ratio == 0 && not (g.div8)) preview_coder 1 (g.xsize) _ ends)))))

preview_over-sizes :
    (h g : PreviewHeader)
    → (get_preview_xsize (preview_over h g) ≡ get_preview_xsize g)
      × (get_preview_ysize (preview_over h g) ≡ get_preview_ysize g)
unfolding preview_over get_preview_xsize get_preview_ysize
preview_over-sizes h g = (ground arith, ground arith)

-- A PreviewHeader of 32-bit words that Bundle::Write accepts is read back by Bundle::Read, into a header
-- with any contents: xsize() and ysize() are the same, and the reader stops behind it.
pub preview_trip :
    (subnormal : ℕ → ℕ) (size : ℕ) (g h : PreviewHeader) (written rest : Bits)
    → subnormal 0 ≡ 0
    → AreWords g
    → bundle_write visit_preview g ≡ some written
    → (r : PreviewHeader) × (bundle_read subnormal size visit_preview h (reader (written ++ rest))
        ≡ finished r (reader rest) true)
      × (get_preview_xsize r ≡ get_preview_xsize g)
      × (get_preview_ysize r ≡ get_preview_ysize g)
preview_trip subnormal size g h written rest exact words e =
    let (xs, ys) = preview_over-sizes h g in
    (
      preview_over h g,
      bundle_read-bundle_write subnormal size visit_preview g h (preview_over h g) written rest
          exact (visit_preview-IsMarked g) (visit_preview-Replays g h words) e,
      xs,
      ys,
    )
