-- ===== src/Tests/Bundles.antt =====
-- Fields and bundles that are written and read.
use ssimulacra2_vulcan.Common.{
  ◌≤◌, ◌-◌, ◌%◌, ◌^◌, ◌≡◌, refl, true, false, some, [], ◌∷◌, ◌++◌, arith, length, inr,
}
use ssimulacra2_vulcan.Fields.Bits.{Bits, reader, write_bits}
use ssimulacra2_vulcan.Fields.Half.{
  IsInRange, can_encode_f16, write_f16, half_bits, read_f16, read_f16-write_f16,
}
use ssimulacra2_vulcan.Fields.Selector.{
  write_u32, choose_selector, choose_from, is_direct, direct, extra_bits, offset, bits_offset, val,
  payload, is_outside,
}
use ssimulacra2_vulcan.Fields.SizeHeader.{
  SizeHeader, PreviewHeader, get_xsize, get_ysize, get_preview_xsize, get_preview_ysize,
}
use ssimulacra2_vulcan.Fields.Coder.{
  f16, Fits, write_value, read_value, value_size, max_size, read_value-write_value,
  write_value-size,
}
use ssimulacra2_vulcan.Fields.Visit.{◌>>=◌}
use ssimulacra2_vulcan.Fields.Visitors.{
  bundle_write, bundle_read, visit_write, visit_sizes, can_encode, get_sizes, finished,
}
use ssimulacra2_vulcan.Fields.MaxBits.{value_size-max_size}
use ssimulacra2_vulcan.Fields.Size.{bundle_write-size}
use ssimulacra2_vulcan.Fields.Sizes.{AnimationHeader, visit_size, visit_preview, visit_animation}
use ssimulacra2_vulcan.Fields.BundleTrip.{bundle_read-bundle_write}
use ssimulacra2_vulcan.Fields.SizesTrip.{
  size_trip, IsWord, visit_size-IsMarked, visit_size-Replays, size_over,
}
use ssimulacra2_vulcan.Fields.PreviewTrip.{preview_trip}
use ssimulacra2_vulcan.Fields.AnimationTrip.{animation_trip}

-- 1.5 is 0x3fc00000; with the lowest bit of its mantissa set it is cut.
half_1_5 : IsInRange 1069547521
unfolding IsInRange
half_1_5 = (omega arith, omega arith, omega arith)

read_f16-write_f16_example :
    (made : Bits) × (write_f16 1069547521 ≡ some made)
    × (length made ≡ 16)
    × (read_f16 (λ m. m) (reader (made ++ 1 ∷ []))
        ≡ (some (1069547521 - 1069547521 % 2 ^ 13), reader (1 ∷ [])))
read_f16-write_f16_example = read_f16-write_f16 (λ m. m) 1069547521 (1 ∷ []) half_1_5

Fits-f16 : Fits f16 1069547520
unfolding Fits IsInRange
Fits-f16 = inr ((omega arith, omega arith, omega arith), refl)

written_f16 : write_value f16 1069547520 ≡ some (write_bits 16 15872)
unfolding write_value write_f16 half_bits
written_f16 = refl

read_value-write_value_example :
    read_value (λ m. m) f16 (reader (write_bits 16 15872 ++ 1 ∷ []))
    ≡ (some 1069547520, reader (1 ∷ []))
read_value-write_value_example =
    read_value-write_value (λ m. m) f16 1069547520 (write_bits 16 15872) (1 ∷ []) refl Fits-f16
      written_f16

value_size_f16 : value_size f16 1069547520 ≡ some 16
unfolding value_size can_encode_f16
value_size_f16 = refl

write_value-size_example :
    (made : Bits) × (write_value f16 1069547520 ≡ some made) × (length made ≡ 16)
write_value-size_example = write_value-size f16 1069547520 16 value_size_f16

-- 64 columns and 48 rows, as multiples of eight.
abbrev small_size : SizeHeader
small_size = record {
  small = true;
  ysize_div8_minus_1 = 5;
  ysize = 0;
  ratio = 0;
  xsize_div8_minus_1 = 7;
  xsize = 0;
}

abbrev fresh_size : SizeHeader
fresh_size = record {
  small = false;
  ysize_div8_minus_1 = 0;
  ysize = 1;
  ratio = 0;
  xsize_div8_minus_1 = 0;
  xsize = 1;
}

abbrev small_bits : Bits
small_bits = write_bits 1 1 ++ (write_bits 5 5 ++ (write_bits 3 0 ++ (write_bits 5 7 ++ [])))

small_encoded : can_encode (visit_size small_size) ≡ some (small_size, 0, 14)
unfolding can_encode visit_sizes visit_size value_size get_sizes ◌>>=◌
small_encoded = refl

small_written : bundle_write visit_size small_size ≡ some small_bits
unfolding bundle_write can_encode visit_sizes visit_write visit_size value_size write_value
    get_sizes ◌>>=◌
small_written = refl

small_words : IsWord small_size
small_words = (omega arith, omega arith)

bundle_write-size_example :
    (small_size ≡ small_size)
    × (made : Bits) × (bundle_write visit_size small_size ≡ some made)
    × (visit_write 0 (visit_size small_size) ≡ some made)
    × (length made ≡ 14)
bundle_write-size_example =
    bundle_write-size visit_size small_size small_size 0 14 (visit_size-IsMarked small_size)
      small_encoded

bundle_read-bundle_write_example :
    bundle_read (λ m. m) 99 visit_size fresh_size (reader (small_bits ++ 1 ∷ []))
    ≡ finished (size_over fresh_size small_size) (reader (1 ∷ [])) true
bundle_read-bundle_write_example =
    bundle_read-bundle_write (λ m. m) 99 visit_size small_size fresh_size
      (size_over fresh_size small_size) small_bits (1 ∷ []) refl (visit_size-IsMarked small_size)
      (visit_size-Replays small_size fresh_size small_words) small_written

size_trip_example :
    (r : SizeHeader) × (bundle_read
        (λ m. m)
        99
        visit_size
        fresh_size
        (reader (small_bits ++ 1 ∷ []))
      ≡ finished r (reader (1 ∷ [])) true)
    × (get_xsize r ≡ get_xsize small_size)
    × (get_ysize r ≡ get_ysize small_size)
size_trip_example =
    size_trip (λ m. m) 99 small_size fresh_size small_bits (1 ∷ []) refl small_words small_written

abbrev some_preview : PreviewHeader
some_preview = record {
  div8 = true;
  ysize_div8 = 32;
  ysize = 0;
  ratio = 1;
  xsize_div8 = 0;
  xsize = 0;
}

abbrev fresh_preview : PreviewHeader
fresh_preview = record {
  div8 = false;
  ysize_div8 = 1;
  ysize = 1;
  ratio = 0;
  xsize_div8 = 1;
  xsize = 1;
}

abbrev preview_bits : Bits
preview_bits = write_bits 1 1 ++ (write_bits 2 1 ++ (write_bits 3 1 ++ []))

preview_written : bundle_write visit_preview some_preview ≡ some preview_bits
unfolding bundle_write can_encode visit_sizes visit_write visit_preview value_size write_value
    get_sizes ◌>>=◌ write_u32 choose_selector choose_from is_direct direct extra_bits offset
    bits_offset val payload is_outside write_bits
preview_written = refl

preview_trip_example :
    (r : PreviewHeader) × (bundle_read
        (λ m. m)
        99
        visit_preview
        fresh_preview
        (reader (preview_bits ++ 1 ∷ []))
      ≡ finished r (reader (1 ∷ [])) true)
    × (get_preview_xsize r ≡ get_preview_xsize some_preview)
    × (get_preview_ysize r ≡ get_preview_ysize some_preview)
preview_trip_example =
    preview_trip (λ m. m) 99 some_preview fresh_preview preview_bits (1 ∷ []) refl
      (omega arith, omega arith, omega arith, omega arith) preview_written

abbrev forever : AnimationHeader
forever = record { tps_numerator = 100; tps_denominator = 1; num_loops = 0; have_timecodes = true }

abbrev never : AnimationHeader
never = record { tps_numerator = 1; tps_denominator = 1; num_loops = 0; have_timecodes = false }

abbrev forever_bits : Bits
forever_bits = write_bits 2 0 ++ (write_bits 2 0 ++ (write_bits 2 0 ++ (write_bits 1 1 ++ [])))

forever_written : bundle_write visit_animation forever ≡ some forever_bits
unfolding bundle_write can_encode visit_sizes visit_write visit_animation value_size write_value
    get_sizes ◌>>=◌ write_u32 choose_selector choose_from is_direct direct extra_bits offset
    bits_offset val payload is_outside write_bits
forever_written = refl

animation_trip_example :
    bundle_read (λ m. m) 99 visit_animation never (reader (forever_bits ++ 1 ∷ []))
    ≡ finished forever (reader (1 ∷ [])) true
animation_trip_example =
    animation_trip (λ m. m) 99 forever never forever_bits (1 ∷ []) refl
      (omega arith, omega arith, omega arith) forever_written

value_size-max_size_example : 16 ≤ max_size f16
value_size-max_size_example = value_size-max_size f16 1069547520 16 value_size_f16
