-- ===== src/Pnm/Header.antt =====
-- src/lib/extras/dec/pnm.cc: HeaderPNM and the headers of PGM, PPM and PFM files; and FloorLog2Nonzero
-- of src/lib/jxl/base/bits.h.
use ssimulacra2_vulcan.Common.{
  ℕ, zero, suc, ◌+◌, ◌-◌, ◌^◌, ◌%◌, Bool, true, false, not, ◌||◌, Option, none, some, ltb, leb,
  ◌==◌, if◌then◌else◌, ◌>>=◌, ◌>>◌, guard, Bytes,
}
use ssimulacra2_vulcan.Arith.{Arith, decimal, less, equal}
use ssimulacra2_vulcan.Pnm.Lexer.{
  skip_whitespace, skip_single_whitespace, skip_blank, parse_unsigned, parse_signed,
}

pub record HeaderPnm : Type 0 where
  pub xsize : ℕ
  pub ysize : ℕ
  pub is_gray : Bool
  pub has_alpha : Bool
  pub bits_per_sample : ℕ
  pub floating_point : Bool
  pub big_endian : Bool

-- HeaderPNM header = {}
abbrev pub empty_header : HeaderPnm
empty_header = record {
  xsize = 0;
  ysize = 0;
  is_gray = false;
  has_alpha = false;
  bits_per_sample = 0;
  floating_point = false;
  big_endian = false;
}

-- The zero bits above the highest one, in a word of w bits.
abbrev pub zero_bits_above : ℕ → ℕ → ℕ
zero_bits_above zero x = 0
zero_bits_above (suc w) x = let more = zero_bits_above w x in if ltb x (2 ^ w) then suc more else 0

-- On a size_t; 63 ^ n is 63 - n as n has six bits.
unfoldable pub floor_log2_nonzero : ℕ → ℕ
floor_log2_nonzero x = 63 - zero_bits_above 64 x

-- The bits of a sample whose greatest value is max_val, if that is 2 ^ n - 1 and n is at most 16.
unfoldable pub sample_bits : ℕ → Option ℕ
unfolding floor_log2_nonzero
sample_bits max_val =
    if max_val == 0 || leb 65536 max_val
    then none
    else let bits = floor_log2_nonzero max_val + 1 in
      if not (2 ^ bits % 2 ^ 32 - 1 == max_val) then none else some bits

unfoldable pub parse_header_pnm : HeaderPnm → Bytes → Option (HeaderPnm × Bytes)
parse_header_pnm header cs = do
  x ← skip_whitespace cs >>= parse_unsigned
  y ← skip_whitespace (x.1) >>= parse_unsigned
  max_val ← skip_whitespace (y.1) >>= parse_unsigned
  bits ← sample_bits (max_val.0)
  raster ← skip_single_whitespace (max_val.1)
  some (
    record header {
      xsize = x.0;
      ysize = y.0;
      bits_per_sample = bits;
      floating_point = false;
      big_endian = true;
    },
    raster,
  )

module _ (D : Type 0) ⦃d : Arith D⦄ where
  -- The scale only tells the endianness.
  unfoldable pub parse_header_pfm : HeaderPnm → Bytes → Option (HeaderPnm × Bytes)
  parse_header_pfm header cs = do
    x ← skip_single_whitespace cs >>= parse_unsigned
    y ← skip_blank (x.1) >>= parse_unsigned
    scale ← skip_single_whitespace (y.1) >>= parse_signed {D = D}
    guard (not (equal (scale.0) (decimal 0 0)))
    raster ← skip_single_whitespace (scale.1)
    some (
      record header {
        xsize = x.0;
        ysize = y.0;
        big_endian = less (decimal 0 0) (scale.0);
        bits_per_sample = 32;
        floating_point = true;
      },
      raster,
    )
