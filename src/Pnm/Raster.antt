-- ===== src/Pnm/Raster.antt =====
-- src/lib/extras/dec/pnm.cc, DecodeImagePNM, and the image it fills: PackedImage of
-- src/lib/extras/packed_image.h. VerifyDimensions is that of src/lib/jxl/codec_in_out.h. The colour
-- profile that ApplyColorHints sets is left out; whether it succeeds is a parameter.
use ssimulacra2_vulcan.Common.{
  ℕ, ◌+◌, ◌-◌, ◌*◌, ◌/◌, ◌^◌, ◌%◌, Bool, not, ◌&&◌, ◌||◌, Option, some, length, get_or, loop, leb,
  ltb, ◌==◌, if◌then◌else◌, ◌>>=◌, ◌>>◌, guard, Bytes,
}
use ssimulacra2_vulcan.Arith.{Arith}
use ssimulacra2_vulcan.Pnm.Header.{HeaderPnm, empty_header}
use ssimulacra2_vulcan.Pnm.Pam.{parse_header}

pub data DataType : Type 0 where
  uint8 uint16 float float16 : DataType

-- JxlPixelFormat; `align` is 0 throughout.
pub record PixelFormat : Type 0 where
  pub num_channels : ℕ
  pub data_type : DataType
  pub big_endian : Bool

unfoldable pub bits_per_channel : DataType → ℕ
bits_per_channel uint8 = 8
bits_per_channel uint16 = 16
bits_per_channel float = 32
bits_per_channel float16 = 16

-- The bytes of a row, in a size_t.
unfoldable pub calc_stride : PixelFormat → ℕ → ℕ
calc_stride f xsize = xsize * (bits_per_channel (f.data_type) * f.num_channels / 8) % 2 ^ 64

-- The memory behind `pixels` holds pixels_size bytes; malloc leaves what is in it open.
pub record PackedImage : Type 0 where
  pub xsize : ℕ
  pub ysize : ℕ
  pub stride : ℕ
  pub format : PixelFormat
  pub pixels_size : ℕ
  pub pixels : ℕ → ℕ

-- The constructor, on the memory that malloc gives.
unfoldable pub packed_image : ℕ → ℕ → PixelFormat → (ℕ → ℕ) → PackedImage
packed_image xs ys f memory = record {
  xsize = xs;
  ysize = ys;
  stride = calc_stride f xs;
  format = f;
  pixels_size = ys * calc_stride f xs % 2 ^ 64;
  pixels = memory;
}

-- memcpy(to + offset, from, n)
unfoldable pub memcpy : (ℕ → ℕ) → ℕ → (ℕ → ℕ) → ℕ → (ℕ → ℕ)
memcpy to offset from n =
    λ i. if leb offset i && ltb i (offset + n) then from (i - offset) else to i

-- The row that is row y of the other, upside-down image.
unfoldable pub flip : Bool → ℕ → ℕ → ℕ
flip flipped_y ysize y = if flipped_y then ysize - 1 - y else y

-- The loop that copies the rows in.
unfoldable pub read_rows : Bool → ℕ → ℕ → (ℕ → ℕ) → (ℕ → ℕ) → (ℕ → ℕ)
unfolding loop memcpy flip
read_rows flipped_y ysize stride pos out =
    loop ysize
      (λ y out. memcpy out (y * stride) (λ i. pos (flip flipped_y ysize y * stride + i)) stride) out

-- SizeConstraints
pub record SizeConstraints : Type 0 where
  pub dec_max_xsize : ℕ
  pub dec_max_ysize : ℕ
  pub dec_max_pixels : ℕ

unfoldable pub verify_dimensions : SizeConstraints → ℕ → ℕ → Bool
verify_dimensions c xs ys =
    not (xs == 0 || ys == 0)
    && not (ltb (c.dec_max_xsize) xs)
    && not (ltb (c.dec_max_ysize) ys)
    && not (ltb (c.dec_max_pixels) (xs * ys % 2 ^ 64))

-- The fields of JxlBasicInfo that are set, and the single frame.
pub record PackedPixelFile : Type 0 where
  pub xsize : ℕ
  pub ysize : ℕ
  pub bits_per_sample : ℕ
  pub exponent_bits_per_sample : ℕ
  pub alpha_bits : ℕ
  pub num_color_channels : ℕ
  pub num_extra_channels : ℕ
  pub frame : PackedImage

unfoldable pub data_type_of : HeaderPnm → DataType
data_type_of h =
    if h.floating_point then float else (if ltb 8 (h.bits_per_sample) then uint16 else uint8)

unfoldable pub format_of : HeaderPnm → PixelFormat
unfolding data_type_of
format_of h = record {
  num_channels = (if h.is_gray then 1 else 3) + (if h.has_alpha then 1 else 0);
  data_type = data_type_of h;
  big_endian = h.big_endian;
}

unfoldable pub file_of : HeaderPnm → PackedImage → PackedPixelFile
file_of h frame =
    let bits = if h.floating_point then 32 else h.bits_per_sample in
    record {
      xsize = h.xsize;
      ysize = h.ysize;
      bits_per_sample = bits;
      exponent_bits_per_sample = (if h.floating_point then 8 else 0);
      alpha_bits = (if h.has_alpha then bits else 0);
      num_color_channels = (if h.is_gray then 1 else 3);
      num_extra_channels = (if h.has_alpha then 1 else 0);
      frame = frame;
    }

-- The part behind the header: the bytes that are left must be enough for the rows.
unfoldable pub read_raster : HeaderPnm → (ℕ → ℕ) → Bytes → Option PackedPixelFile
unfolding packed_image read_rows file_of format_of
read_raster h memory pos = do
  let frame = packed_image (h.xsize) (h.ysize) (format_of h) memory
  guard (not (ltb (length pos) (frame.pixels_size)))
  some (
      file_of h (record frame {
        pixels =
            read_rows (h.bits_per_sample == 32) (h.ysize) (frame.stride) (λ i. get_or pos i 0)
              memory;
      }))

module _ (D : Type 0) ⦃d : Arith D⦄ (apply_color_hints : Bool → Bool)
    (constraints : SizeConstraints) (memory : ℕ → ℕ) where
  unfoldable pub decode_image_pnm : Bytes → Option PackedPixelFile
  decode_image_pnm bytes = do
    parsed ← parse_header D empty_header bytes
    let h = parsed.0
    guard (verify_dimensions constraints (h.xsize) (h.ysize))
    guard (not (h.bits_per_sample == 0 || ltb 32 (h.bits_per_sample)))
    guard (apply_color_hints (h.is_gray))
    read_raster h memory (parsed.1)
