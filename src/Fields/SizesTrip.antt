-- ===== src/Fields/SizesTrip.antt =====
-- src/lib/jxl/headers.cc: the sizes of a header that is written and read back.
use ssimulacra2_vulcan.Common.{
  ℕ, ◌<◌, ◌^◌, ◌++◌, true, false, not, ◌&&◌, ◌==◌, ◌≡◌, refl, if◌then◌else◌, some, arith,
}
use ssimulacra2_vulcan.Fields.Bits.{Bits, reader}
use ssimulacra2_vulcan.Fields.SizeHeader.{SizeHeader, get_xsize, get_ysize}
use ssimulacra2_vulcan.Fields.Coder.{Fits, bits}
use ssimulacra2_vulcan.Fields.Visitors.{bundle_write, bundle_read, finished}
use ssimulacra2_vulcan.Fields.Trip.{Replays, ends}
use ssimulacra2_vulcan.Fields.Size.{IsMarked, ends}
use ssimulacra2_vulcan.Fields.Marked.{field-IsMarked, flag-IsMarked, field_if-IsMarked}
use ssimulacra2_vulcan.Fields.BundleTrip.{bundle_read-bundle_write}
use ssimulacra2_vulcan.Fields.Replay.{field-Replays, flag-Replays, field_if-Replays}
use ssimulacra2_vulcan.Fields.Sizes.{size_coder, visit_size}

-- What is read over the header h: the fields that are visited.
unfoldable pub size_over : SizeHeader → SizeHeader → SizeHeader
size_over h g = record {
  small = g.small;
  ysize_div8_minus_1 = (if g.small then g.ysize_div8_minus_1 else h.ysize_div8_minus_1);
  ysize = (if not (g.small) then g.ysize else h.ysize);
  ratio = g.ratio;
  xsize_div8_minus_1 =
      (if g.ratio == 0 && g.small then g.xsize_div8_minus_1 else h.xsize_div8_minus_1);
  xsize = (if g.ratio == 0 && not (g.small) then g.xsize else h.xsize);
}

-- The fields are uint32_t.
abbrev pub IsWord : SizeHeader → Type 0
IsWord g = (g.ysize < 2 ^ 32) × (g.xsize < 2 ^ 32)

pub visit_size-Replays :
    (g h : SizeHeader) → IsWord g → Replays (visit_size g) (visit_size h) (size_over h g)
unfolding visit_size size_over Fits
visit_size-Replays g h (hy, hx) = flag-Replays false false (g.small) (h.small) _ _ (
    field_if-Replays (g.small) (bits 5) 0 0 (g.ysize_div8_minus_1) (h.ysize_div8_minus_1) _ _
      (λ e. tt)
      (field_if-Replays (not (g.small)) size_coder 1 1 (g.ysize) (h.ysize) _ _ (λ e. (refl, hy))
        (field-Replays (bits 3) 0 0 (g.ratio) (h.ratio) _ _ tt (
          field_if-Replays (g.ratio == 0 && g.small) (bits 5) 0 0 (g.xsize_div8_minus_1)
            (h.xsize_div8_minus_1) _ _ (λ e. tt)
            (field_if-Replays (g.ratio == 0 && not (g.small)) size_coder 1 1 (g.xsize) (h.xsize) _ _
              (λ e. (refl, hx)) ends)))))

pub visit_size-IsMarked : (g : SizeHeader) → IsMarked (visit_size g) g
unfolding visit_size
visit_size-IsMarked g = flag-IsMarked false (g.small) _ (
    field_if-IsMarked (g.small) (bits 5) 0 (g.ysize_div8_minus_1) _ (
      field_if-IsMarked (not (g.small)) size_coder 1 (g.ysize) _ (
        field-IsMarked (bits 3) 0 (g.ratio) _ (
          field_if-IsMarked (g.ratio == 0 && g.small) (bits 5) 0 (g.xsize_div8_minus_1) _
            (field_if-IsMarked (g.ratio == 0 && not (g.small)) size_coder 1 (g.xsize) _ ends)))))

-- The sizes do not depend on the fields that are not visited.
size_over-sizes :
    (h g : SizeHeader)
    → (get_xsize (size_over h g) ≡ get_xsize g) × (get_ysize (size_over h g) ≡ get_ysize g)
unfolding size_over get_xsize get_ysize
size_over-sizes h g = (ground arith, ground arith)

-- A SizeHeader whose sizes are 32-bit words and that Bundle::Write accepts is read back by Bundle::Read,
-- into a header with any contents: xsize() and ysize() are the same, and the reader stops behind it.
pub size_trip :
    (subnormal : ℕ → ℕ) (size : ℕ) (g h : SizeHeader) (written rest : Bits)
    → subnormal 0 ≡ 0
    → IsWord g
    → bundle_write visit_size g ≡ some written
    → (r : SizeHeader) × (bundle_read subnormal size visit_size h (reader (written ++ rest))
        ≡ finished r (reader rest) true)
      × (get_xsize r ≡ get_xsize g)
      × (get_ysize r ≡ get_ysize g)
size_trip subnormal size g h written rest exact word e =
    let (xs, ys) = size_over-sizes h g in
    (
      size_over h g,
      bundle_read-bundle_write subnormal size visit_size g h (size_over h g) written rest exact
          (visit_size-IsMarked g) (visit_size-Replays g h word) e,
      xs,
      ys,
    )
