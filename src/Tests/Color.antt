-- ===== src/Tests/Color.antt =====
-- Color encodings and their profiles.
use ssimulacra2_vulcan.Common.{
  loop, ℕ, ◌+◌, ◌/◌, ◌%◌, ◌^◌, ◌≤◌, ltb, ltb→lt, ◌≡◌, refl, true, false, not, Option, none, some,
  [], ◌∷◌, ◌++◌, length, ◌==◌, Bytes, codes, arith,
}
use ssimulacra2_vulcan.Arith.{Arith, Doubles}
use ssimulacra2_vulcan.Fields.Bits.{Bits, reader, write_bits}
use ssimulacra2_vulcan.Fields.Selector.{
  write_u32, choose_selector, choose_from, is_direct, direct, extra_bits, offset, bits_offset, val,
  payload, is_outside,
}
use ssimulacra2_vulcan.Fields.Coder.{value_size, write_value}
use ssimulacra2_vulcan.Fields.Visit.{◌>>=◌}
use ssimulacra2_vulcan.Fields.Visitors.{
  bundle_write, bundle_read, visit_write, visit_sizes, can_encode, get_sizes, finished,
}
use ssimulacra2_vulcan.Metadata.Always.{Returns}
use ssimulacra2_vulcan.Color.Bytes.{put_grown}
use ssimulacra2_vulcan.Color.Visit.{visit_xy, visit_color, pack_signed, unpack_signed}
use ssimulacra2_vulcan.Color.VisitValid.{IsEncoding, bundle_read-IsEncoding}
use ssimulacra2_vulcan.Color.XyTrip.{custom_xy_trip}
use ssimulacra2_vulcan.Color.Setters.{same_color_encoding}
use ssimulacra2_vulcan.Color.Convert.{JxlColorEncoding, internal_to_external, external_to_internal}
use ssimulacra2_vulcan.Color.ConvertTrip.{external_to_internal-internal_to_external}
use ssimulacra2_vulcan.Color.Md5.{icc_compute_md5, padded, sum_bytes, md5_block, first_words}
use ssimulacra2_vulcan.Color.Padding.{icc_compute_md5-bounds}
use ssimulacra2_vulcan.Color.Encoding.{Cmath, CustomXy, ColorEncoding, three}
use ssimulacra2_vulcan.Color.Profile.{maybe_create_profile}
use ssimulacra2_vulcan.Color.Checksum.{profile_id-maybe_create_profile, profile_id, without_id}
use ssimulacra2_vulcan.Color.TagTable.{maybe_create_profile-IsProfile, IsProfile}

-- The test suite of RFC 1321
md5_of_nothing :
    icc_compute_md5 []
    ≡ 212 ∷ 29 ∷ 140 ∷ 217 ∷ 143 ∷ 0 ∷ 178 ∷ 4 ∷ 233 ∷ 128 ∷ 9 ∷ 152 ∷ 236 ∷ 248 ∷ 66 ∷ 126 ∷ []
unfolding icc_compute_md5
md5_of_nothing = refl

md5_of_alphabet :
    icc_compute_md5 (codes "ABCDEFGHIJKLMNOPQRSTUVWXYZabcdefghijklmnopqrstuvwxyz0123456789")
    ≡ 209 ∷ 116 ∷ 171 ∷ 152 ∷ 210 ∷ 119 ∷ 217 ∷ 245 ∷ 165 ∷ 97 ∷ 28 ∷ 44 ∷ 159 ∷ 65 ∷ 157 ∷ 159 ∷ []
unfolding icc_compute_md5
md5_of_alphabet = refl

-- An arithmetic in which each result is 1: a number is below another if it is 0, and equal to it if that is not 0.
instance abbrev pub loose : Arith ℕ
loose = record {
  add = λ x y. 1;
  sub = λ x y. 1;
  mul = λ x y. 1;
  div = λ x y. 1;
  neg = λ x. 0;
  abs = λ x. x;
  less = λ x y. x == 0;
  equal = λ x y. not (y == 0);
  decimal = λ m k. m;
}

abbrev pub same : Doubles ℕ ℕ
same = record { widen = λ x. x; narrow = λ x. x; sqrt = λ x. x; pow = λ x y. x }

abbrev pub small_lib : Cmath ℕ ℕ
small_lib = record {
  is_finite = λ x. true;
  roundf = λ x. x;
  to_int32 = λ x. x;
  exp = λ x. x;
  copysignf = λ x y. x;
  print = λ x. codes "1";
  max_l1 = 0;
}

abbrev pub encoding : ℕ → ℕ → ColorEncoding
encoding space curve = record {
  all_default = false;
  white_point = 1;
  primaries = 1;
  tf = record {
    nonserialized_color_space = space;
    have_gamma = false;
    gamma = 0;
    transfer_function = curve;
  };
  rendering_intent = 1;
  want_icc = false;
  have_fields = true;
  icc = [];
  color_space = space;
  cmyk = false;
  white = record { x = 0; y = 0 };
  red = record { x = 0; y = 0 };
  green = record { x = 0; y = 0 };
  blue = record { x = 0; y = 0 };
}

abbrev value : Option Bytes → Bytes
value none = []
value (some bytes) = bytes

abbrev profile : ColorEncoding → Bytes
profile c = value (maybe_create_profile same small_lib c)

profile_made : maybe_create_profile same small_lib (encoding 0 13) ≡ some (profile (encoding 0 13))
unfolding maybe_create_profile put_grown
profile_made = refl

profile_small : ltb (length (profile (encoding 0 13))) (2 ^ 32) ≡ true
unfolding maybe_create_profile put_grown
profile_small = refl

profile_id-maybe_create_profile_example :
    profile_id (profile (encoding 0 13)) ≡ icc_compute_md5 (without_id (profile (encoding 0 13)))
profile_id-maybe_create_profile_example =
    profile_id-maybe_create_profile same small_lib (encoding 0 13) (profile (encoding 0 13))
      profile_made

maybe_create_profile-IsProfile_example : IsProfile (encoding 0 13) (profile (encoding 0 13))
maybe_create_profile-IsProfile_example =
    maybe_create_profile-IsProfile same small_lib (encoding 0 13) (profile (encoding 0 13))
      profile_made (ltb→lt (length (profile (encoding 0 13))) (2 ^ 32) profile_small)

icc_compute_md5-bounds_example :
    (length (padded (codes "abc")) % 64 ≡ 0)
    × (length (codes "abc") + 9 ≤ length (padded (codes "abc")))
    × (length (padded (codes "abc")) ≤ length (codes "abc") + 72)
    × ((tail : Bytes)
        → sum_bytes (
            loop
              (length (padded (codes "abc")) / 64)
              (md5_block (padded (codes "abc") ++ tail))
              first_words)
          ≡ icc_compute_md5 (codes "abc"))
icc_compute_md5-bounds_example = icc_compute_md5-bounds (codes "abc")

bundle_read-IsEncoding_example : Returns (IsEncoding same small_lib) (
    bundle_read
      (λ m. m)
      99
      (visit_color same small_lib ◌==◌)
      (encoding 0 13)
      (reader (0 ∷ 1 ∷ 0 ∷ 0 ∷ [])))
bundle_read-IsEncoding_example =
    bundle_read-IsEncoding same small_lib ◌==◌ (λ m. m) 99 (encoding 0 13)
      (reader (0 ∷ 1 ∷ 0 ∷ 0 ∷ [])) refl

abbrev external : JxlColorEncoding ℕ
external = record {
  color_space = 3;
  white_point = 2;
  white_point_xy = record { x = 5; y = 6 };
  primaries = 2;
  primaries_xy = three 1 2 3 4 5 6;
  transfer_function = 65535;
  gamma = 7;
  rendering_intent = 3;
}

-- Display P3 with PQ
abbrev display : ColorEncoding
display = record (encoding 0 16) { primaries = 11 }

external_to_internal-internal_to_external_example :
    (e' : JxlColorEncoding ℕ) × (made : ColorEncoding) × (internal_to_external display external
      ≡ some e')
    × (external_to_internal same small_lib e' (encoding 1 8) ≡ some made)
    × (same_color_encoding made display ≡ true)
    × (made.rendering_intent ≡ display.rendering_intent)
external_to_internal-internal_to_external_example =
    external_to_internal-internal_to_external same small_lib display (encoding 1 8) external
      (refl, refl, refl, refl, refl, refl, refl, refl)

-- 0.3127 and -0.000005
abbrev point : CustomXy
point = record { x = 312700; y = 4294967291 }

abbrev origin : CustomXy
origin = record { x = 0; y = 0 }

abbrev point_bits : Bits
point_bits = write_bits 2 1 ++ (write_bits 19 101112 ++ (write_bits 2 0 ++ (write_bits 19 9 ++ [])))

point_written : bundle_write visit_xy point ≡ some point_bits
unfolding bundle_write can_encode visit_sizes visit_write visit_xy pack_signed unpack_signed
    value_size write_value get_sizes ◌>>=◌ write_u32 choose_selector choose_from is_direct direct
    extra_bits offset bits_offset val payload is_outside write_bits
point_written = refl

custom_xy_trip_example :
    bundle_read (λ m. m) 99 visit_xy origin (reader (point_bits ++ 1 ∷ []))
    ≡ finished point (reader (1 ∷ [])) true
custom_xy_trip_example =
    custom_xy_trip (λ m. m) 99 point origin point_bits (1 ∷ []) refl (omega arith, omega arith)
      point_written
