-- ===== src/Metadata/Channel.antt =====
-- src/lib/jxl/image_metadata.cc: ExtraChannelInfo, with VisitNameString of src/lib/jxl/frame_header.h and Enum of
-- src/lib/jxl/fields.h; the functions of ImageMetadata for the alpha channel.
use ssimulacra2_vulcan.Common.{
  ℕ, zero, suc, ◌%◌, ◌^◌, Bool, true, false, not, ◌&&◌, ◌||◌, Option, none, some, List, [], ◌∷◌,
  length, ltb, leb, ◌==◌, if◌then◌else◌,
}
use ssimulacra2_vulcan.Fields.Coder.{Coder, bits}
use ssimulacra2_vulcan.Fields.Selector.{val, bits_offset}
use ssimulacra2_vulcan.Fields.Visit.{
  Visit, done, conditional, is_reading, ◌>>=◌, ◌>>◌, check, field, field_if, flag_if, four,
}
use ssimulacra2_vulcan.Metadata.Bundles.{visit_all_default, BitDepth, visit_bit_depth, visit_floats}

-- The enumeration ExtraChannel, by its numbers.
abbrev pub alpha : ℕ
alpha = 0

abbrev pub spot_color_type : ℕ
spot_color_type = 2

abbrev pub cfa : ℕ
cfa = 5

abbrev pub unknown : ℕ
unknown = 15

-- EnumValid: the bits of EnumBits are set for 0 to 6, for kUnknown and for kOptional.
unfoldable pub enum_valid : ℕ → Bool
enum_valid type = leb type 6 || (type == unknown || type == 16)

abbrev pub enum_coder : Coder
enum_coder = four (val 0) (val 1) (bits_offset 4 2) (bits_offset 6 18)

abbrev pub name_coder : Coder
name_coder = four (val 0) (bits_offset 4 0) (bits_offset 5 16) (bits_offset 10 48)

unfoldable pub resize : {A : Type 0} → A → ℕ → List A → List A
resize fresh zero xs = []
resize fresh (suc n) [] = fresh ∷ resize fresh n []
resize fresh (suc n) (x ∷ xs) = x ∷ resize fresh n xs

unfoldable pub visit_chars : ℕ → List ℕ → Visit (List ℕ)
visit_chars zero name = done name
visit_chars (suc n) [] = done []
visit_chars (suc n) (c ∷ name) = do
  c' ← field (bits 8) 0 c
  rest ← visit_chars n name
  done (c' ∷ rest)

unfoldable pub visit_name : List ℕ → Visit (List ℕ)
unfolding visit_chars resize
visit_name name = do
  name_length ← field name_coder 0 (length name % 2 ^ 32)
  reading ← is_reading done
  visit_chars name_length (if reading then resize 0 name_length name else name)

pub record ExtraChannelInfo : Type 0 where
  pub all_default : Bool
  pub type : ℕ
  pub bit_depth : BitDepth
  pub dim_shift : ℕ
  pub name : List ℕ
  pub alpha_associated : Bool
  pub spot_color : List ℕ
  pub cfa_channel : ℕ

abbrev pub shift_coder : Coder
shift_coder = four (val 0) (val 3) (val 4) (bits_offset 3 1)

abbrev pub cfa_coder : Coder
cfa_coder = four (val 1) (bits_offset 2 0) (bits_offset 4 3) (bits_offset 8 19)

unfoldable pub is_refused : ℕ → Bool
is_refused type = type == unknown || (leb 7 type && leb type 14)

unfoldable pub visit_channel : (ℕ → ℕ → Bool) → ExtraChannelInfo → Visit ExtraChannelInfo
unfolding visit_all_default visit_name visit_floats visit_bit_depth enum_valid is_refused
visit_channel near h =
    visit_all_default near (h.all_default) (λ mark. record h { all_default = mark })
      (λ mark. do
        type ← field enum_coder alpha (h.type)
        check (enum_valid type)
        depth ← visit_bit_depth (h.bit_depth)
        shift ← field shift_coder 0 (h.dim_shift)
        check (not (ltb 8 (2 ^ shift)))
        name ← visit_name (h.name)
        associated ← flag_if (type == alpha) false (h.alpha_associated)
        spot ← conditional (type == spot_color_type) (λ go.
            if go then visit_floats (0 ∷ 0 ∷ 0 ∷ 0 ∷ []) (h.spot_color) else done (h.spot_color))
        cfa_number ← field_if (type == cfa) cfa_coder 1 (h.cfa_channel)
        check (not (is_refused type))
        done (record {
          all_default = mark;
          type = type;
          bit_depth = depth;
          dim_shift = shift;
          name = name;
          alpha_associated = associated;
          spot_color = spot;
          cfa_channel = cfa_number;
        }))

-- What the constructor makes.
abbrev pub fresh_channel : ExtraChannelInfo
fresh_channel = record {
  all_default = true;
  type = alpha;
  bit_depth = record {
    floating_point_sample = false;
    bits_per_sample = 8;
    exponent_bits_per_sample = 0;
  };
  dim_shift = 0;
  name = [];
  alpha_associated = false;
  spot_color = 0 ∷ 0 ∷ 0 ∷ 0 ∷ [];
  cfa_channel = 1;
}

-- ImageMetadata::Find
unfoldable pub find_channel : ℕ → List ExtraChannelInfo → Option ExtraChannelInfo
find_channel type [] = none
find_channel type (eci ∷ ecis) =
    let rest = find_channel type ecis in if eci.type == type then some eci else rest

-- GetAlphaBits; none where its assertion fails.
unfoldable pub get_alpha_bits : List ExtraChannelInfo → Option ℕ
get_alpha_bits ecis = elim (find_channel alpha ecis) [
  | none ↦ some 0
  | some eci ↦
      if eci.bit_depth.bits_per_sample == 0 then none else some (eci.bit_depth.bits_per_sample)
]

-- std::remove_if, with erase
unfoldable pub without_alpha : List ExtraChannelInfo → List ExtraChannelInfo
without_alpha [] = []
without_alpha (eci ∷ ecis) =
    let rest = without_alpha ecis in if eci.type == alpha then rest else eci ∷ rest

abbrev pub with_alpha_bits : ℕ → Bool → ExtraChannelInfo → ExtraChannelInfo
with_alpha_bits depth premultiplied eci = record eci {
  bit_depth = record {
    floating_point_sample = false;
    bits_per_sample = depth;
    exponent_bits_per_sample = 0;
  };
  alpha_associated = premultiplied;
}

-- The first alpha channel is changed through the pointer that Find returns.
unfoldable pub change_first : ℕ → Bool → List ExtraChannelInfo → List ExtraChannelInfo
change_first depth premultiplied [] = []
change_first depth premultiplied (eci ∷ ecis) =
    let rest = change_first depth premultiplied ecis in
    if eci.type == alpha then with_alpha_bits depth premultiplied eci ∷ ecis else eci ∷ rest

-- SetAlphaBits, on extra_channel_info.
unfoldable pub set_alpha_channels : ℕ → Bool → List ExtraChannelInfo → List ExtraChannelInfo
set_alpha_channels depth premultiplied ecis = elim (find_channel alpha ecis) [
  | none ↦
      if depth == 0
      then ecis
      else record fresh_channel {
        bit_depth = record {
          floating_point_sample = false;
          bits_per_sample = depth;
          exponent_bits_per_sample = 0;
        };
        alpha_associated = premultiplied;
      }
        ∷ ecis
  | some eci ↦ if depth == 0 then without_alpha ecis else change_first depth premultiplied ecis
]
