-- ===== src/Pnm/Writer.antt =====
-- src/lib/extras/enc/pnm.cc: EncodeHeader and EncodeImagePNM. What snprintf writes for %zu and %u is
-- Decimal's; for %.1f of 1 and -1 it is "1.0" and "-1.0".
use ssimulacra2_vulcan.Common.{
  ℕ, zero, suc, ◌+◌, ◌-◌, ◌*◌, ◌^◌, ◌%◌, Bool, not, ◌&&◌, ◌||◌, Option, some, [], ◌∷◌, ◌++◌, length,
  loop, leb, ltb, ◌==◌, if◌then◌else◌, ◌>>=◌, ◌>>◌, guard, Bytes, codes,
}
use ssimulacra2_vulcan.Pnm.Decimal.{to_decimal}
use ssimulacra2_vulcan.Pnm.Raster.{PackedImage, memcpy, flip}

abbrev pub max_header_size : ℕ
max_header_size = 200

-- (1U << bits_per_sample) - 1
unfoldable pub greatest_sample : ℕ → ℕ
greatest_sample bits = 2 ^ bits % 2 ^ 32 - 1

unfoldable pub pam_header : Bool → ℕ → ℕ → ℕ → Bytes
pam_header is_gray xs ys bits =
    codes "P7\nWIDTH "
    ++ to_decimal xs
    ++ codes "\nHEIGHT "
    ++ to_decimal ys
    ++ codes "\nDEPTH "
    ++ to_decimal (if is_gray then 2 else 4)
    ++ codes "\nMAXVAL "
    ++ to_decimal (greatest_sample bits)
    ++ codes "\nTUPLTYPE "
    ++ codes (if is_gray then "GRAYSCALE_ALPHA" else "RGB_ALPHA")
    ++ codes "\nENDHDR\n"

-- The part that PFM, PGM and PPM share: the magic number and the size.
unfoldable pub size_lines : ℕ → ℕ → ℕ → Bytes
size_lines type xs ys = b'P' ∷ type ∷ b'\n' ∷ to_decimal xs ++ b' ' ∷ to_decimal ys ++ b'\n' ∷ []

unfoldable pub pfm_header : Bool → ℕ → ℕ → Bool → Bytes
pfm_header is_gray xs ys little_endian =
    size_lines (if is_gray then b'f' else b'F') xs ys
    ++ codes (if little_endian then "-1.0\n" else "1.0\n")

unfoldable pub pnm_header : Bool → ℕ → ℕ → ℕ → Bytes
pnm_header is_gray xs ys bits =
    size_lines (if is_gray then b'5' else b'6') xs ys
    ++ to_decimal (greatest_sample bits)
    ++ b'\n' ∷ []

-- The header, unless it does not fit into its buffer.
abbrev pub fitting : Bytes → Option Bytes
fitting header = do guard (ltb (length header) max_header_size); some header

unfoldable pub encode_header : PackedImage → ℕ → Bool → Option Bytes
encode_header image bits little_endian =
    let channels = (image.format).num_channels in
    let is_gray = leb channels 2 in
    let has_alpha = channels == 2 || channels == 4 in
    if has_alpha
    then (do
      guard (not (ltb 16 bits))
      fitting (pam_header is_gray (image.xsize) (image.ysize) bits))
    else if bits == 32
    then fitting (pfm_header is_gray (image.xsize) (image.ysize) little_endian)
    else (do
      guard (not (ltb 16 bits))
      fitting (pnm_header is_gray (image.xsize) (image.ysize) bits))

-- The loop that copies the rows out.
unfoldable pub write_rows : Bool → ℕ → ℕ → (ℕ → ℕ) → (ℕ → ℕ) → (ℕ → ℕ)
unfolding loop memcpy flip
write_rows flipped_y ysize stride pixels out =
    loop ysize
      (λ y out. memcpy out (flip flipped_y ysize y * stride) (λ i. pixels (y * stride + i)) stride)
      out

-- The n bytes from the address a.
unfoldable pub bytes_from : (ℕ → ℕ) → ℕ → ℕ → Bytes
bytes_from memory a zero = []
bytes_from memory a (suc n) = memory a ∷ bytes_from memory (suc a) n

-- The file; `native_little_endian` is the machine's byte order. The vector's new bytes are zero.
unfoldable pub encode_image_pnm : Bool → PackedImage → ℕ → Option Bytes
unfolding write_rows bytes_from
encode_image_pnm native_little_endian image bits = do
  header ← encode_header image bits (ltb 16 bits && native_little_endian)
  let raster = write_rows (bits == 32) (image.ysize) (image.stride) (image.pixels) (λ i. 0)
  some (header ++ bytes_from raster 0 (image.pixels_size))
