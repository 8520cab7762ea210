-- ===== src/Fields/Sizes.antt =====
-- src/lib/jxl/headers.cc: VisitFields of SizeHeader, PreviewHeader and AnimationHeader.
use ssimulacra2_vulcan.Common.{ℕ, Bool, false, not, ◌&&◌, ◌==◌}
use ssimulacra2_vulcan.Fields.SizeHeader.{SizeHeader, PreviewHeader}
use ssimulacra2_vulcan.Fields.Coder.{Coder, bits}
use ssimulacra2_vulcan.Fields.Selector.{val, bits_offset}
use ssimulacra2_vulcan.Fields.Visit.{Visit, done, ◌>>=◌, field, field_if, flag, four}

abbrev pub size_coder : Coder
size_coder = four (bits_offset 9 1) (bits_offset 13 1) (bits_offset 18 1) (bits_offset 30 1)

unfoldable pub visit_size : SizeHeader → Visit SizeHeader
visit_size h = do
  small ← flag false (h.small)
  ydiv8 ← field_if small (bits 5) 0 (h.ysize_div8_minus_1)
  ysize ← field_if (not small) size_coder 1 (h.ysize)
  ratio ← field (bits 3) 0 (h.ratio)
  xdiv8 ← field_if (ratio == 0 && small) (bits 5) 0 (h.xsize_div8_minus_1)
  xsize ← field_if (ratio == 0 && not small) size_coder 1 (h.xsize)
  done (record {
    small = small;
    ysize_div8_minus_1 = ydiv8;
    ysize = ysize;
    ratio = ratio;
    xsize_div8_minus_1 = xdiv8;
    xsize = xsize;
  })

abbrev pub preview_div8_coder : Coder
preview_div8_coder = four (val 16) (val 32) (bits_offset 5 1) (bits_offset 9 33)

abbrev pub preview_coder : Coder
preview_coder = four (bits_offset 6 1) (bits_offset 8 65) (bits_offset 10 321) (bits_offset 12 1345)

unfoldable pub visit_preview : PreviewHeader → Visit PreviewHeader
visit_preview h = do
  div8 ← flag false (h.div8)
  ydiv8 ← field_if div8 preview_div8_coder 1 (h.ysize_div8)
  ysize ← field_if (not div8) preview_coder 1 (h.ysize)
  ratio ← field (bits 3) 0 (h.ratio)
  xdiv8 ← field_if (ratio == 0 && div8) preview_div8_coder 1 (h.xsize_div8)
  xsize ← field_if (ratio == 0 && not div8) preview_coder 1 (h.xsize)
  done (record {
    div8 = div8;
    ysize_div8 = ydiv8;
    ysize = ysize;
    ratio = ratio;
    xsize_div8 = xdiv8;
    xsize = xsize;
  })

pub record AnimationHeader : Type 0 where
  pub tps_numerator : ℕ
  pub tps_denominator : ℕ
  pub num_loops : ℕ
  pub have_timecodes : Bool

abbrev pub numerator_coder : Coder
numerator_coder = four (val 100) (val 1000) (bits_offset 10 1) (bits_offset 30 1)

abbrev pub denominator_coder : Coder
denominator_coder = four (val 1) (val 1001) (bits_offset 8 1) (bits_offset 10 1)

abbrev pub loops_coder : Coder
loops_coder = four (val 0) (bits_offset 3 0) (bits_offset 16 0) (bits_offset 32 0)

unfoldable pub visit_animation : AnimationHeader → Visit AnimationHeader
visit_animation h = do
  numerator ← field numerator_coder 1 (h.tps_numerator)
  denominator ← field denominator_coder 1 (h.tps_denominator)
  loops ← field loops_coder 0 (h.num_loops)
  timecodes ← flag false (h.have_timecodes)
  done (record {
    tps_numerator = numerator;
    tps_denominator = denominator;
    num_loops = loops;
    have_timecodes = timecodes;
  })
