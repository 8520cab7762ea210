-- ===== src/Tests/Fields.antt =====
-- The header fields.
use ssimulacra2_vulcan.Common.{
  ℕ, ◌^◌, ◌<◌, ◌≡◌, ◌↔◌, refl, false, some, List, [], ◌∷◌, ◌++◌, arith, length,
}
use ssimulacra2_vulcan.Fields.Bits.{reader, write_bits}
use ssimulacra2_vulcan.Fields.VarInt.{write_u64, read_u64, u64_size, read_u64-write_u64}
use ssimulacra2_vulcan.Fields.Selector.{
  is_direct, direct, extra_bits, offset, bits_offset, is_outside, choose_from, choose_selector,
  payload, write_u32, read_u32, read_u32-write_u32,
}
use ssimulacra2_vulcan.Fields.SizeHeader.{
  SizeHeader, PreviewHeader, set_size, get_xsize, get_ysize, set_preview_size, get_preview_xsize,
  get_preview_ysize, find_aspect_ratio, assign_preview,
}
use ssimulacra2_vulcan.Fields.SizeHeader.Kept.{set_size-keeps, set_preview_size-keeps}

read_u64-write_u64_example :
    (read_u64 (reader (write_u64 300 ++ 1 ∷ [])) ≡ (300, reader (1 ∷ [])))
    × (length (write_u64 300) ≡ u64_size 300)
read_u64-write_u64_example = read_u64-write_u64 300 (1 ∷ []) (omega arith)

-- The distributions of a size.
abbrev size_enc : List ℕ
unfolding bits_offset
size_enc = bits_offset 9 1 ∷ bits_offset 13 1 ∷ bits_offset 18 1 ∷ bits_offset 30 1 ∷ []

-- 640 is too large for 9 bits, so that it takes 13.
written_640 : write_u32 size_enc 640 ≡ some (write_bits 2 1 ++ write_bits 13 639)
unfolding size_enc write_u32 choose_selector choose_from is_direct direct extra_bits offset
    is_outside payload write_bits
written_640 = refl

four_encs : length size_enc ≡ 4
unfolding size_enc
four_encs = refl

read_u32-write_u32_example :
    read_u32 size_enc (reader ((write_bits 2 1 ++ write_bits 13 639) ++ 0 ∷ []))
    ≡ (640, reader (0 ∷ []))
read_u32-write_u32_example =
    read_u32-write_u32 size_enc 640 (write_bits 2 1 ++ write_bits 13 639) (0 ∷ []) four_encs
      (omega arith) written_640

abbrev empty_size : SizeHeader
empty_size = record {
  small = false;
  ysize_div8_minus_1 = 0;
  ysize = 0;
  ratio = 0;
  xsize_div8_minus_1 = 0;
  xsize = 0;
}

set_size-keeps_example :
    ((g : SizeHeader)
      → set_size empty_size 640 480 ≡ some g
      → (get_xsize g ≡ 640) × (get_ysize g ≡ 480))
    × (((g : SizeHeader) × (set_size empty_size 640 480 ≡ some g))
        ↔ ((0 < 640) × (0 < 480) × (640 < 2 ^ 32) × (480 < 2 ^ 32)))
set_size-keeps_example = set_size-keeps empty_size 640 480

abbrev empty_preview : PreviewHeader
empty_preview = record {
  div8 = false;
  ysize_div8 = 0;
  ysize = 0;
  ratio = 0;
  xsize_div8 = 0;
  xsize = 0;
}

abbrev small_preview : PreviewHeader
small_preview = assign_preview (find_aspect_ratio 24 16) empty_preview 24 16 24 16

preview_taken : set_preview_size empty_preview 24 16 ≡ some small_preview
unfolding set_preview_size
preview_taken = refl

set_preview_size-keeps_example :
    (get_preview_xsize small_preview ≡ 24) × (get_preview_ysize small_preview ≡ 16)
set_preview_size-keeps_example =
    set_preview_size-keeps empty_preview small_preview 24 16 (omega arith) (omega arith)
      preview_taken
