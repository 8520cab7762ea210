-- ===== src/Tests/Pnm.antt =====
-- The anymap files, over the counting arithmetic.
use ssimulacra2_vulcan.Common.{
  ℕ, ◌+◌, ◌*◌, ◌<◌, ◌≡◌, ◌≢◌, refl, true, false, none, some, List, [], ◌∷◌, ◌++◌, Bytes, codes,
  arith, length, ◌==◌, get_or,
}
use ssimulacra2_vulcan.Arith.Counting.{counting}
use ssimulacra2_vulcan.Pnm.Lexer.{parse_unsigned}
use ssimulacra2_vulcan.Pnm.Decimal.{to_decimal, digits, parse_unsigned-to_decimal}
use ssimulacra2_vulcan.Pnm.Header.{HeaderPnm, empty_header}
use ssimulacra2_vulcan.Pnm.Pam.{PamFields, out_of_fuel, pam_lines, parse_header}
use ssimulacra2_vulcan.Pnm.PamLines.{pam_lines_enough}
use ssimulacra2_vulcan.Pnm.PamRefused.{
  Keyword, width, height, depth, max_val, number_lines, number_lines-refused,
}
use ssimulacra2_vulcan.Pnm.Raster.{
  PackedImage, PackedPixelFile, SizeConstraints, uint16, calc_stride, bits_per_channel, flip,
  read_raster, packed_image, decode_image_pnm, verify_dimensions, file_of, format_of, data_type_of,
  read_rows,
}
use ssimulacra2_vulcan.Pnm.Writer.{encode_image_pnm}
use ssimulacra2_vulcan.Pnm.Formats.{
  formats_of, keep, ppm_formats, pfm_formats, pgm_formats, pam_formats,
}
use ssimulacra2_vulcan.Pnm.Bounds.{reads_in_bounds}
use ssimulacra2_vulcan.Pnm.RoundTrip.{IsWritable, IsCopy, decode-encode}

-- Two rows of two gray pixels with alpha, of 16 bits.
abbrev tile : PackedImage
tile = record {
  xsize = 2;
  ysize = 2;
  stride = 8;
  format = record { num_channels = 2; data_type = uint16; big_endian = true };
  pixels_size = 16;
  pixels = λ i. i + 1;
}

tile-IsWritable : IsWritable tile 16
unfolding IsWritable calc_stride bits_per_channel
tile-IsWritable = (
  omega arith,
  omega arith,
  refl,
  omega arith,
  omega arith,
  omega arith,
  omega arith,
  refl,
  refl,
  omega arith,
  λ deep. refl,
)

abbrev default_constraints : SizeConstraints
default_constraints = record {
  dec_max_xsize = 4294967295;
  dec_max_ysize = 4294967295;
  dec_max_pixels = 4294967295;
}

tile_allowed : verify_dimensions default_constraints 2 2 ≡ true
unfolding verify_dimensions
tile_allowed = refl

decode-encode_example :
    (file : Bytes) × (ppf : PackedPixelFile) × (encode_image_pnm true tile 16 ≡ some file)
    × (decode_image_pnm ℕ (λ g. true) default_constraints (λ i. 0) file ≡ some ppf)
    × IsCopy ppf tile 16
decode-encode_example =
    decode-encode ℕ (λ g. true) default_constraints (λ i. 0) true tile 16 tile-IsWritable
      (λ g. refl) tile_allowed

parse_unsigned-to_decimal_example :
    parse_unsigned (to_decimal 640 ++ codes " 480") ≡ some (640, codes " 480")
parse_unsigned-to_decimal_example = parse_unsigned-to_decimal 640 (codes " 480") (omega arith) refl

-- to_decimal at work.
to_decimal_640 : to_decimal 640 ≡ codes "640"
unfolding digits
to_decimal_640 = refl

-- A whole header, with all four numbers.
abbrev four_lines : List (Keyword × ℕ)
four_lines = (height, 1) ∷ (width, 1) ∷ (depth, 3) ∷ (max_val, 255) ∷ []

number_lines-refused_example :
    parse_header ℕ empty_header (codes "P7" ++ number_lines four_lines (codes "abc")) ≡ none
number_lines-refused_example = number_lines-refused ℕ four_lines (codes "abc") (omega arith)

abbrev no_fields : PamFields
no_fields = record { header = empty_header; depth = 3; max_val = 255 }

pam_lines_enough_example : pam_lines 9 no_fields (codes "\nDEPTH 4") ≢ out_of_fuel
pam_lines_enough_example = pam_lines_enough 9 no_fields (codes "\nDEPTH 4") (omega arith)

-- A row of two gray samples, and the file that has them.
abbrev row_header : HeaderPnm
row_header = record empty_header { xsize = 2; ysize = 1; is_gray = true; bits_per_sample = 8 }

abbrev row_file : PackedPixelFile
row_file = file_of row_header (record (packed_image 2 1 (format_of row_header) (λ i. 0)) {
  pixels = read_rows false 1 2 (λ i. get_or (codes "xyz") i 0) (λ i. 0);
})

row_accepted : read_raster row_header (λ i. 0) (codes "xyz") ≡ some row_file
unfolding read_raster file_of packed_image format_of data_type_of calc_stride bits_per_channel
row_accepted = refl

row_allowed : verify_dimensions default_constraints 2 1 ≡ true
unfolding verify_dimensions
row_allowed = refl

one_inside : 1 < (row_file.frame).stride
unfolding file_of packed_image format_of data_type_of calc_stride bits_per_channel
one_inside = omega arith

reads_in_bounds_example :
    flip (row_header.bits_per_sample == 32) (row_header.ysize) 0 * (row_file.frame).stride + 1
    < length (codes "xyz")
reads_in_bounds_example =
    reads_in_bounds default_constraints row_header (λ i. 0) (codes "xyz") row_file 0 1
      (omega arith, omega arith, omega arith) row_allowed row_accepted (omega arith) one_inside

-- How many formats the encoders accept.
format_counts :
    (length ppm_formats ≡ 16)
    × (length pfm_formats ≡ 8)
    × (length pgm_formats ≡ 8)
    × (length pam_formats ≡ 8)
unfolding ppm_formats pfm_formats pgm_formats pam_formats formats_of keep
format_counts = (refl, refl, refl, refl)
