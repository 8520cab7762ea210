-- ===== src/Pnm/RoundTrip.antt =====
-- src/lib/extras/enc/pnm.cc and src/lib/extras/dec/pnm.cc: a PGM, PPM or PAM file that is written is read back.
use ssimulacra2_vulcan.Common.{
  ℕ, ◌+◌, ◌*◌, ◌^◌, ◌%◌, ◌<◌, ◌≤◌, ◌≡◌, refl, Bool, true, false, ◌&&◌, ◌||◌, some, ◌==◌, arith, leb,
  ltb, ltb-false, ltb→lt, inl, inr, Bool-cases, length, get_or, length-append, ◌++◌, Bytes, ap, ◌∙◌,
  if◌then◌else◌,
}
use ssimulacra2_vulcan.Arith.{Arith}
use ssimulacra2_vulcan.Pnm.Decimal.{length-digits}
use ssimulacra2_vulcan.Pnm.Header.{HeaderPnm, empty_header}
use ssimulacra2_vulcan.Pnm.Pam.{parse_header}
use ssimulacra2_vulcan.Pnm.Raster.{
  uint8, uint16, PixelFormat, PackedImage, PackedPixelFile, SizeConstraints, calc_stride, flip,
  read_rows, read_raster, packed_image, file_of, format_of, data_type_of, verify_dimensions,
  decode_image_pnm,
}
use ssimulacra2_vulcan.Pnm.Writer.{
  greatest_sample, size_lines, pam_header, pnm_header, fitting, encode_header, write_rows,
  bytes_from, encode_image_pnm,
}
use ssimulacra2_vulcan.Pnm.Rows.{
  row_end_le, read_rows-row, write_rows-row, flip_lt, length-bytes_from, get_or-bytes_from,
}
use ssimulacra2_vulcan.Pnm.HeaderTrip.{pnm_fields, parse_header-pnm_header}
use ssimulacra2_vulcan.Pnm.PamTrip.{pam_fields, parse_header-pam_header}

abbrev pub is_gray_image : PackedImage → Bool
is_gray_image image = leb ((image.format).num_channels) 2

abbrev pub is_alpha_image : PackedImage → Bool
is_alpha_image image = (image.format).num_channels == 2 || (image.format).num_channels == 4

-- An image of integer samples, laid out as the constructor of PackedImage does it. The samples of two bytes are
-- big-endian: the writer copies the bytes, and the reader takes them as big-endian.
unfoldable pub IsWritable : PackedImage → ℕ → Type 0
IsWritable image bits =
    (1 ≤ bits)
    × (bits ≤ 16)
    × ((image.format).data_type ≡ (if ltb 8 bits then uint16 else uint8))
    × (1 ≤ (image.format).num_channels)
    × ((image.format).num_channels ≤ 4)
    × (image.xsize < 2 ^ 64)
    × (image.ysize < 2 ^ 64)
    × (image.stride ≡ calc_stride (image.format) (image.xsize))
    × (image.pixels_size ≡ image.ysize * image.stride)
    × (image.pixels_size < 2 ^ 64)
    × (8 < bits → (image.format).big_endian ≡ true)

-- The header of the file of an image.
unfoldable pub image_header : PackedImage → ℕ → HeaderPnm
image_header image bits = record {
  xsize = image.xsize;
  ysize = image.ysize;
  is_gray = is_gray_image image;
  has_alpha = is_alpha_image image;
  bits_per_sample = bits;
  floating_point = false;
  big_endian = true;
}

fits : (header : Bytes) → length header < 200 → fitting header ≡ some header
fits header h = ground arith

length-pnm_header : (g : Bool) (xs ys bits : ℕ) → length (pnm_header g xs ys bits) < 200
unfolding pnm_header size_lines
length-pnm_header g xs ys bits = simp length-append (
    omega
      (arith, length-digits 20 xs, length-digits 20 ys, length-digits 20 (greatest_sample bits)))

length-pam_header : (g : Bool) (xs ys bits : ℕ) → length (pam_header g xs ys bits) < 200
unfolding pam_header
length-pam_header true xs ys bits = simp length-append (
    omega (
      arith,
      length-digits 20 xs,
      length-digits 20 ys,
      length-digits 20 2,
      length-digits 20 (greatest_sample bits),
    ))
length-pam_header false xs ys bits = simp length-append (
    omega (
      arith,
      length-digits 20 xs,
      length-digits 20 ys,
      length-digits 20 4,
      length-digits 20 (greatest_sample bits),
    ))

-- The header is written, and read back in front of any raster.
pub header_trip :
    (D : Type 0) ⦃d : Arith D⦄ (image : PackedImage) (bits : ℕ) (little_endian : Bool)
    → IsWritable image bits
    → (header : Bytes) × (encode_header image bits little_endian ≡ some header)
      × ((raster : Bytes)
          → parse_header D empty_header (header ++ raster) ≡ some (image_header image bits, raster))
unfolding IsWritable encode_header image_header pam_fields pnm_fields
header_trip D image bits le (h1, h16, type, c1, c4, hx, hy, stride, size, small, order) =
    let not_deep : ltb 16 bits ≡ false = ltb-false 16 bits h16 in
    let not_float : (bits == 32) ≡ false = ground arith in
    let g = is_gray_image image in
    let xs = image.xsize in
    let ys = image.ysize in
    elim (Bool-cases (is_alpha_image image)) [
      | inl alpha ↦ (
        pam_header g xs ys bits,
        rw (alpha, not_deep, fits (pam_header g xs ys bits) (length-pam_header g xs ys bits)),
        λ raster. rw alpha (parse_header-pam_header D g xs ys bits raster hx hy h1 h16),
      )
      | inr plain ↦ (
        pnm_header g xs ys bits,
        rw (
          plain,
          not_float,
          not_deep,
          fits (pnm_header g xs ys bits) (length-pnm_header g xs ys bits),
        ),
        λ raster. rw plain (parse_header-pnm_header D g xs ys bits raster hx hy h1 h16),
      )
    ]

-- What the reader makes of an image: the same size, depth, channels and layout, samples of the same type, those of two
-- bytes in the same byte order, and every byte of every row. So every sample is the same.
unfoldable pub IsCopy : PackedPixelFile → PackedImage → ℕ → Type 0
IsCopy ppf image bits =
    (ppf.xsize ≡ image.xsize)
    × (ppf.ysize ≡ image.ysize)
    × (ppf.bits_per_sample ≡ bits)
    × (ppf.num_color_channels + ppf.num_extra_channels ≡ (image.format).num_channels)
    × (((ppf.frame).format).num_channels ≡ (image.format).num_channels)
    × (((ppf.frame).format).data_type ≡ (image.format).data_type)
    × ((image.format).data_type ≡ uint16
        → ((ppf.frame).format).big_endian ≡ (image.format).big_endian)
    × ((ppf.frame).stride ≡ image.stride)
    × ((ppf.frame).pixels_size ≡ image.pixels_size)
    × ((y j : ℕ)
        → y < image.ysize
        → j < image.stride
        → (ppf.frame).pixels (y * image.stride + j) ≡ image.pixels (y * image.stride + j))

channels_kept :
    (n : ℕ) → 1 ≤ n → n ≤ 4 → (if leb n 2 then 1 else 3) + (if n == 2 || n == 4 then 1 else 0) ≡ n
channels_kept n h k = ground arith

stride_kept :
    (image : PackedImage) (bits : ℕ)
    → IsWritable image bits
    → calc_stride (format_of (image_header image bits)) (image.xsize) ≡ image.stride
unfolding IsWritable calc_stride format_of data_type_of image_header
stride_kept image bits (h1, h16, type, c1, c4, hx, hy, stride, size, small, order) =
    simp (channels_kept ((image.format).num_channels) c1 c4, stride, type)

-- The rows that are written are the rows that are read.
rows_kept :
    (flipped : Bool) (ysize stride size : ℕ) (pixels memory : ℕ → ℕ) (y j : ℕ)
    → size ≡ ysize * stride
    → y < ysize
    → j < stride
    → read_rows flipped ysize stride
        (λ i. get_or (bytes_from (write_rows flipped ysize stride pixels (λ k. 0)) 0 size) i 0)
        memory
        (y * stride + j)
      ≡ pixels (y * stride + j)
rows_kept flipped ysize stride size pixels memory y j hs hy hj =
    let file = write_rows flipped ysize stride pixels (λ k. 0) in
    let there = flip flipped ysize y * stride + j in
    let inside : there < size =
      omega (arith, row_end_le (flip flipped ysize y) ysize stride (flip_lt flipped ysize y hy)) in
    read_rows-row flipped ysize stride (λ i. get_or (bytes_from file 0 size) i 0) memory y j hy hj
    ∙ get_or-bytes_from file 0 size there inside
    ∙ ap file (omega arith)
    ∙ write_rows-row flipped ysize stride pixels (λ k. 0) y j hy hj

raster_of : PackedImage → ℕ → Bytes
raster_of image bits =
    bytes_from (write_rows (bits == 32) (image.ysize) (image.stride) (image.pixels) (λ i. 0)) 0
      (image.pixels_size)

raster_enough :
    (image : PackedImage) (bits : ℕ)
    → IsWritable image bits
    → (image.ysize * calc_stride (format_of (image_header image bits)) (image.xsize) % 2 ^ 64
        ≡ image.pixels_size)
      × (ltb (length (raster_of image bits)) (image.pixels_size) ≡ false)
unfolding IsWritable raster_of
raster_enough image bits w = (
  rw (stride_kept image bits w) (omega arith),
  rw
      (length-bytes_from
        (write_rows (bits == 32) (image.ysize) (image.stride) (image.pixels) (λ i. 0)) 0
        (image.pixels_size))
      (ltb-false (image.pixels_size) (image.pixels_size) (omega arith)),
)

depth_ok :
    (image : PackedImage) (bits : ℕ) → IsWritable image bits → (bits == 0 || ltb 32 bits) ≡ false
unfolding IsWritable
depth_ok image bits w = let low = w.0 in let high = w.1 in ground arith

-- What the reader makes of the file.
copy_of : PackedImage → ℕ → (ℕ → ℕ) → PackedPixelFile
copy_of image bits memory =
    let frame =
      packed_image (image.xsize) (image.ysize) (format_of (image_header image bits)) memory in
    file_of (image_header image bits) (record frame {
      pixels =
          read_rows (bits == 32) (image.ysize) (frame.stride)
            (λ i. get_or (raster_of image bits) i 0) memory;
    })

raster_trip :
    (image : PackedImage) (bits : ℕ) (memory : ℕ → ℕ)
    → IsWritable image bits
    → read_raster (image_header image bits) memory (raster_of image bits)
      ≡ some (copy_of image bits memory)
unfolding copy_of read_raster packed_image image_header
raster_trip image bits memory w =
    let (size, enough) = raster_enough image bits w in rw (size, enough)

-- Samples of two bytes are big-endian on both sides.
order_kept :
    (bits : ℕ) (f : PixelFormat)
    → f.data_type ≡ (if ltb 8 bits then uint16 else uint8)
    → (8 < bits → f.big_endian ≡ true)
    → f.data_type ≡ uint16
    → true ≡ f.big_endian
order_kept bits f type order wide = elim (Bool-cases (ltb 8 bits)) [
  | inl deep ↦ let big = order (ltb→lt 8 bits deep) in rw big
  | inr shallow ↦ absurd (ground arith)
]

copy_of-IsCopy :
    (image : PackedImage) (bits : ℕ) (memory : ℕ → ℕ)
    → IsWritable image bits
    → IsCopy (copy_of image bits memory) image bits
unfolding IsCopy IsWritable copy_of packed_image file_of format_of data_type_of image_header
    raster_of
copy_of-IsCopy image bits memory w = (
  refl,
  refl,
  refl,
  channels_kept ((image.format).num_channels) (w.3) (w.4),
  channels_kept ((image.format).num_channels) (w.3) (w.4),
  rw (w.2) refl,
  λ wide. order_kept bits (image.format) (w.2) (w.10) wide,
  stride_kept image bits w,
  (raster_enough image bits w).0,
  λ y j hy hj. rw (stride_kept image bits w) (
      rows_kept (bits == 32) (image.ysize) (image.stride) (image.pixels_size) (image.pixels) memory
        y j (w.8) hy hj),
)

-- An image of 1 to 16 bits per sample, big-endian above 8, gray or coloured, with or without alpha, that is written is
-- read back: the file is accepted, and the size, the depth, the channels, the type and byte order of the samples and every
-- row are the image's.
-- The reader must allow an image of this size, and ApplyColorHints must succeed.
pub decode-encode :
    (D : Type 0) ⦃d : Arith D⦄ (hints : Bool → Bool) (constraints : SizeConstraints)
    (memory : ℕ → ℕ) (native : Bool) (image : PackedImage) (bits : ℕ)
    → IsWritable image bits
    → ((g : Bool) → hints g ≡ true)
    → verify_dimensions constraints (image.xsize) (image.ysize) ≡ true
    → (file : Bytes) × (ppf : PackedPixelFile) × (encode_image_pnm native image bits ≡ some file)
      × (decode_image_pnm D hints constraints memory file ≡ some ppf)
      × IsCopy ppf image bits
unfolding encode_image_pnm decode_image_pnm image_header
decode-encode D hints constraints memory native image bits w hh hv =
    let (header, written, back) = header_trip D image bits (ltb 16 bits && native) w in
    (
      header ++ raster_of image bits,
      copy_of image bits memory,
      (unfold raster_of in rw written),
      accepted header (back (raster_of image bits)),
      copy_of-IsCopy image bits memory w,
    )
  where
    accepted :
        (header : Bytes)
        → parse_header D empty_header (header ++ raster_of image bits)
          ≡ some (image_header image bits, raster_of image bits)
        → decode_image_pnm D hints constraints memory (header ++ raster_of image bits)
          ≡ some (copy_of image bits memory)
    accepted header e =
        rw (e, hv, depth_ok image bits w, hh (is_gray_image image), raster_trip image bits memory w)
