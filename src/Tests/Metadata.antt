-- ===== src/Tests/Metadata.antt =====
-- The metadata of an image.
use ssimulacra2_vulcan.Common.{
  ℕ, ◌%◌, ◌^◌, ◌≡◌, refl, true, false, some, [], ◌∷◌, ◌++◌, length, ltb, leb, ◌==◌, inl, arith,
}
use ssimulacra2_vulcan.Fields.Bits.{Bits, reader, write_bits}
use ssimulacra2_vulcan.Fields.Selector.{
  write_u32, choose_selector, choose_from, is_direct, direct, extra_bits, offset, bits_offset, val,
  payload, is_outside,
}
use ssimulacra2_vulcan.Fields.Coder.{value_size, write_value}
use ssimulacra2_vulcan.Fields.Visit.{◌>>=◌}
use ssimulacra2_vulcan.Fields.Visitors.{
  bundle_write, bundle_read, visit_write, visit_sizes, can_encode, get_sizes, finished,
}
use ssimulacra2_vulcan.Metadata.Always.{Returns}
use ssimulacra2_vulcan.Metadata.Bundles.{BitDepth, visit_bit_depth, visit_samples}
use ssimulacra2_vulcan.Metadata.Channel.{fresh_channel, visit_channel, get_alpha_bits}
use ssimulacra2_vulcan.Metadata.Image.{ImageMetadata, visit_metadata, set_alpha_bits}
use ssimulacra2_vulcan.Metadata.Alpha.{get_alpha_bits-set_alpha_bits}
use ssimulacra2_vulcan.Metadata.ChannelValid.{IsChannel, bundle_read-IsChannel}
use ssimulacra2_vulcan.Metadata.ImageValid.{IsMetadata, bundle_read-IsMetadata}
use ssimulacra2_vulcan.Color.Visit.{visit_color}
use ssimulacra2_vulcan.Tests.Color.{loose, same, small_lib, encoding}
use ssimulacra2_vulcan.Metadata.DepthTrip.{bit_depth_trip}

-- Half floats.
abbrev half_depth : BitDepth
half_depth = record {
  floating_point_sample = true;
  bits_per_sample = 16;
  exponent_bits_per_sample = 5;
}

abbrev fresh_depth : BitDepth
fresh_depth = record {
  floating_point_sample = false;
  bits_per_sample = 8;
  exponent_bits_per_sample = 0;
}

abbrev half_bits16 : Bits
half_bits16 = write_bits 1 1 ++ (write_bits 2 1 ++ (write_bits 4 4 ++ []))

half_written : bundle_write visit_bit_depth half_depth ≡ some half_bits16
unfolding bundle_write can_encode visit_sizes visit_write visit_bit_depth visit_samples value_size
    write_value get_sizes ◌>>=◌ write_u32 choose_selector choose_from is_direct direct extra_bits
    offset bits_offset val payload is_outside write_bits
half_written = refl

bit_depth_trip_example :
    bundle_read (λ m. m) 99 visit_bit_depth fresh_depth (reader (half_bits16 ++ 1 ∷ []))
    ≡ finished half_depth (reader (1 ∷ [])) true
bit_depth_trip_example =
    bit_depth_trip (λ m. m) 99 half_depth fresh_depth half_bits16 (1 ∷ []) refl (omega arith)
      (inl (refl, omega arith, omega arith, omega arith, omega arith)) half_written

abbrev metadata_with : {C : Type 0} → C → ImageMetadata C
metadata_with color = record {
  all_default = true;
  bit_depth = fresh_depth;
  modular_16_bit_buffer_sufficient = true;
  xyb_encoded = true;
  color_encoding = color;
  orientation = 1;
  have_preview = false;
  have_animation = false;
  have_intrinsic_size = false;
  intrinsic_size = record {
    small = false;
    ysize_div8_minus_1 = 0;
    ysize = 1;
    ratio = 0;
    xsize_div8_minus_1 = 0;
    xsize = 1;
  };
  tone_mapping = record {
    all_default = true;
    intensity_target = 1132396544;
    min_nits = 0;
    relative_to_max_display = false;
    linear_below = 0;
  };
  num_extra_channels = 0;
  extra_channel_info = [];
  preview_size = record {
    div8 = false;
    ysize_div8 = 1;
    ysize = 1;
    ratio = 0;
    xsize_div8 = 1;
    xsize = 1;
  };
  animation = record {
    tps_numerator = 1;
    tps_denominator = 1;
    num_loops = 0;
    have_timecodes = false;
  };
  extensions = 0;
  nonserialized_only_parse_basic_info = false;
}

abbrev fresh_metadata : ImageMetadata ℕ
fresh_metadata = metadata_with 0

get_alpha_bits-set_alpha_bits_example :
    (get_alpha_bits ((set_alpha_bits 16 true fresh_metadata).extra_channel_info) ≡ some 16)
    × ((set_alpha_bits 16 true fresh_metadata).num_extra_channels
        ≡ length ((set_alpha_bits 16 true fresh_metadata).extra_channel_info) % 2 ^ 32)
get_alpha_bits-set_alpha_bits_example = get_alpha_bits-set_alpha_bits 16 true fresh_metadata

bundle_read-IsChannel_example :
    Returns IsChannel (bundle_read (λ m. m) 99 (visit_channel ◌==◌) fresh_channel (reader (1 ∷ [])))
bundle_read-IsChannel_example =
    bundle_read-IsChannel (λ m. m) 99 ◌==◌ fresh_channel (reader (1 ∷ []))

bundle_read-IsMetadata_example : Returns IsMetadata (
    bundle_read
      (λ m. m)
      99
      (visit_metadata ◌==◌ ltb leb (visit_color same small_lib ◌==◌))
      (metadata_with (encoding 0 13))
      (reader (1 ∷ [])))
bundle_read-IsMetadata_example =
    bundle_read-IsMetadata ◌==◌ ltb leb (visit_color same small_lib ◌==◌) (λ m. m) 99
      (metadata_with (encoding 0 13)) (reader (1 ∷ []))
