-- ===== src/Pnm/Bounds.antt =====
-- src/lib/extras/dec/pnm.cc, DecodeImagePNM: the bytes of the file that the loop over the rows reads.
use native.Mathlib.Nat.{mul-le-mul_left, mul_assoc, mul_comm}
use ssimulacra2_vulcan.Common.{
  ℕ, ◌+◌, ◌*◌, ◌/◌, ◌^◌, ◌%◌, ◌<◌, ◌≤◌, ◌≡◌, sym, Bool, true, not, some, ◌==◌, arith, ltb, inl, inr,
  Bool-cases, length, Bytes, ap, if◌then◌else◌, guard, bind-eq-some, some-eq,
}
use ssimulacra2_vulcan.Pnm.Header.{HeaderPnm}
use ssimulacra2_vulcan.Pnm.Raster.{
  PackedPixelFile, SizeConstraints, DataType, uint8, uint16, float, float16, bits_per_channel,
  calc_stride, flip, read_raster, packed_image, file_of, format_of, data_type_of, verify_dimensions,
}
use ssimulacra2_vulcan.Pnm.Rows.{row_end_le, flip_lt}

-- The default of SizeConstraints, or less.
abbrev pub AtMostDefault : SizeConstraints → Type 0
AtMostDefault c =
    (c.dec_max_xsize < 2 ^ 32) × (c.dec_max_ysize < 2 ^ 32) × (c.dec_max_pixels < 2 ^ 32)

-- The bytes of a pixel.
pixel_bytes : HeaderPnm → ℕ
pixel_bytes h = bits_per_channel (data_type_of h) * (format_of h).num_channels / 8

bytes_of_type : (t : DataType) (m n : ℕ) → m ≤ 3 → n ≤ 1 → bits_per_channel t * (m + n) / 8 ≤ 16
unfolding bits_per_channel
bytes_of_type uint8 m n a b = omega arith
bytes_of_type uint16 m n a b = omega arith
bytes_of_type float m n a b = omega arith
bytes_of_type float16 m n a b = omega arith

pixel_bytes_le : (h : HeaderPnm) → pixel_bytes h ≤ 16
unfolding pixel_bytes format_of
pixel_bytes_le h =
    bytes_of_type (data_type_of h) (if h.is_gray then 1 else 3) (if h.has_alpha then 1 else 0)
      (colours (h.is_gray)) (extra (h.has_alpha))
  where
    colours : (g : Bool) → (if g then 1 else 3) ≤ 3
    colours g = ground arith

    extra : (a : Bool) → (if a then 1 else 0) ≤ 1
    extra a = ground arith

-- No product of the sizes wraps around.
sizes_exact :
    (xs ys k : ℕ)
    → xs < 2 ^ 32
    → ys < 2 ^ 32
    → xs * ys % 2 ^ 64 < 2 ^ 32
    → k ≤ 16
    → ys * (xs * k % 2 ^ 64) % 2 ^ 64 ≡ ys * (xs * k % 2 ^ 64)
sizes_exact xs ys k hx hy hp hk =
    let product : ys * xs ≤ ys * 2 ^ 32 = mul-le-mul_left ys (omega arith) in
    let pixels : ys * xs < 2 ^ 32 = omega (arith, product, mul_comm xs ys) in
    let row : xs * k ≤ xs * 16 = mul-le-mul_left xs hk in
    let row_exact : xs * k % 2 ^ 64 ≡ xs * k = omega (arith, row) in
    let all : ys * (xs * k) ≤ ys * (xs * 16) = mul-le-mul_left ys row in
    rw row_exact (omega (arith, all, mul_assoc ys xs 16))

verified_sizes :
    (c : SizeConstraints) (xs ys : ℕ)
    → AtMostDefault c
    → verify_dimensions c xs ys ≡ true
    → (xs < 2 ^ 32) × (ys < 2 ^ 32) × (xs * ys % 2 ^ 64 < 2 ^ 32)
unfolding verify_dimensions
verified_sizes c xs ys (a, b, d) h = (ground arith, ground arith, ground arith)

-- A raster that is read has the bytes of the image.
accepted_size :
    (h : HeaderPnm) (memory : ℕ → ℕ) (pos : Bytes) (ppf : PackedPixelFile)
    → read_raster h memory pos ≡ some ppf
    → ((ppf.frame).stride ≡ calc_stride (format_of h) (h.xsize))
      × (h.ysize * calc_stride (format_of h) (h.xsize) % 2 ^ 64 ≤ length pos)
unfolding read_raster packed_image file_of
accepted_size h memory pos ppf e =
    let size = h.ysize * calc_stride (format_of h) (h.xsize) % 2 ^ 64 in
    elim (Bool-cases (ltb (length pos) size)) [
      | inl short ↦ ground arith
      | inr long ↦
          let (u, g, made) = bind-eq-some (guard (not (ltb (length pos) size))) _ e in
          (ap (λ (p : PackedPixelFile). (p.frame).stride) (sym (some-eq made)), ground arith)
    ]

-- With the default constraints or stricter ones, a raster that is accepted is long enough for every
-- byte that the loop over the rows reads.
pub reads_in_bounds :
    (c : SizeConstraints) (h : HeaderPnm) (memory : ℕ → ℕ) (pos : Bytes) (ppf : PackedPixelFile)
    (y j : ℕ)
    → AtMostDefault c
    → verify_dimensions c (h.xsize) (h.ysize) ≡ true
    → read_raster h memory pos ≡ some ppf
    → y < h.ysize
    → j < (ppf.frame).stride
    → flip (h.bits_per_sample == 32) (h.ysize) y * (ppf.frame).stride + j < length pos
reads_in_bounds c h memory pos ppf y j hc hv hr hy hj =
    let (hx, hys, hp) = verified_sizes c (h.xsize) (h.ysize) hc hv in
    let (stride, enough) = accepted_size h memory pos ppf hr in
    let exact : h.ysize * calc_stride (format_of h) (h.xsize) % 2 ^ 64
        ≡ h.ysize * calc_stride (format_of h) (h.xsize) =
      (unfold calc_stride pixel_bytes format_of in
        sizes_exact (h.xsize) (h.ysize) (pixel_bytes h) hx hys hp (pixel_bytes_le h)) in
    let row = flip (h.bits_per_sample == 32) (h.ysize) y in
    let inside : row * (ppf.frame).stride + (ppf.frame).stride ≤ h.ysize * (ppf.frame).stride =
      row_end_le row (h.ysize) ((ppf.frame).stride)
        (flip_lt (h.bits_per_sample == 32) (h.ysize) y hy) in
    let all : h.ysize * (ppf.frame).stride ≤ length pos = rw stride (omega arith) in omega arith
