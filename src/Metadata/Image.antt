-- ===== src/Metadata/Image.antt =====
-- src/lib/jxl/image_metadata.cc: ImageMetadata. The visit of its nested color encoding is a parameter.
use ssimulacra2_vulcan.Common.{
  ℕ, ◌+◌, ◌-◌, ◌%◌, ◌^◌, Bool, true, false, not, ◌&&◌, ◌||◌, List, [], ◌∷◌, length, ltb, ◌==◌,
  if◌then◌else◌,
}
use ssimulacra2_vulcan.Fields.Coder.{Coder, bits}
use ssimulacra2_vulcan.Fields.Selector.{val, bits_offset}
use ssimulacra2_vulcan.Fields.Visit.{
  Visit, done, conditional, is_reading, extensions, end_extensions, ◌>>=◌, field, flag, four,
}
use ssimulacra2_vulcan.Fields.Visitors.{are_default}
use ssimulacra2_vulcan.Fields.SizeHeader.{SizeHeader, PreviewHeader}
use ssimulacra2_vulcan.Fields.Sizes.{AnimationHeader, visit_size, visit_preview, visit_animation}
use ssimulacra2_vulcan.Metadata.Bundles.{
  or_false, visit_all_default, BitDepth, visit_bit_depth, ToneMapping, visit_tone_mapping,
}
use ssimulacra2_vulcan.Metadata.Channel.{
  ExtraChannelInfo, visit_channel, fresh_channel, resize, set_alpha_channels,
}

pub record ImageMetadata (C : Type 0) : Type 0 where
  pub all_default : Bool
  pub bit_depth : BitDepth
  pub modular_16_bit_buffer_sufficient : Bool
  pub xyb_encoded : Bool
  pub color_encoding : C
  pub orientation : ℕ
  pub have_preview : Bool
  pub have_animation : Bool
  pub have_intrinsic_size : Bool
  pub intrinsic_size : SizeHeader
  pub tone_mapping : ToneMapping
  pub num_extra_channels : ℕ
  pub extra_channel_info : List ExtraChannelInfo
  pub preview_size : PreviewHeader
  pub animation : AnimationHeader
  pub extensions : ℕ
  pub nonserialized_only_parse_basic_info : Bool

-- VisitNested behind a condition
abbrev pub visit_if : {A : Type 0} → Bool → Visit A → A → Visit A
visit_if c t a = conditional c (λ go. if go then t else done a)

abbrev pub count_coder : Coder
count_coder = four (val 0) (val 1) (bits_offset 4 2) (bits_offset 12 1)

unfoldable pub visit_channels :
    (ℕ → ℕ → Bool) → List ExtraChannelInfo → Visit (List ExtraChannelInfo)
unfolding visit_channel
visit_channels near [] = done []
visit_channels near (eci ∷ ecis) = do
  eci' ← visit_channel near eci
  ecis' ← visit_channels near ecis
  done (eci' ∷ ecis')

unfoldable pub visit_extra_fields : {C : Type 0} → ImageMetadata C → Visit (ImageMetadata C)
unfolding visit_size visit_preview visit_animation
visit_extra_fields h = do
  less ← field (bits 3) 0 ((h.orientation + 2 ^ 32 - 1) % 2 ^ 32)
  have_intrinsic ← flag false (h.have_intrinsic_size)
  intrinsic ← visit_if have_intrinsic (visit_size (h.intrinsic_size)) (h.intrinsic_size)
  have_preview ← flag false (h.have_preview)
  preview ← visit_if have_preview (visit_preview (h.preview_size)) (h.preview_size)
  have_animation ← flag false (h.have_animation)
  animation ← visit_if have_animation (visit_animation (h.animation)) (h.animation)
  done (record h {
    orientation = (less + 1) % 2 ^ 32;
    have_intrinsic_size = have_intrinsic;
    intrinsic_size = intrinsic;
    have_preview = have_preview;
    preview_size = preview;
    have_animation = have_animation;
    animation = animation;
  })

unfoldable pub visit_extra : {C : Type 0} → Bool → ImageMetadata C → Visit (ImageMetadata C)
unfolding visit_extra_fields
visit_extra extra h = conditional extra (λ go.
    if go
    then visit_extra_fields h
    else done (record h {
      orientation = 1;
      have_intrinsic_size = false;
      have_preview = false;
      have_animation = false;
    }))

module _ (near less at_most : ℕ → ℕ → Bool) {C : Type 0} (visit_color : C → Visit C) where
  -- The fields behind BeginExtensions are none.
  unfoldable pub visit_rest : Bool → ImageMetadata C → Visit (ImageMetadata C)
  unfolding visit_bit_depth visit_channels visit_tone_mapping
  visit_rest extra h = do
    depth ← visit_bit_depth (h.bit_depth)
    sufficient ← flag true (h.modular_16_bit_buffer_sufficient)
    num ← field count_coder 0 (length (h.extra_channel_info) % 2 ^ 32)
    ecis ← conditional (not (num == 0)) (λ go.
        if go
        then is_reading (λ reading. visit_channels near (
            if reading
            then resize fresh_channel num (h.extra_channel_info)
            else h.extra_channel_info))
        else done (h.extra_channel_info))
    xyb ← flag true (h.xyb_encoded)
    color ← visit_color (h.color_encoding)
    tone ← visit_if extra (visit_tone_mapping near less at_most (h.tone_mapping)) (h.tone_mapping)
    reading ← is_reading done
    let g = record h {
      bit_depth = depth;
      modular_16_bit_buffer_sufficient = sufficient;
      num_extra_channels = num;
      extra_channel_info = ecis;
      xyb_encoded = xyb;
      color_encoding = color;
      tone_mapping = tone;
    }
    if reading && g.nonserialized_only_parse_basic_info
        then done g
        else extensions (h.extensions) (λ e. end_extensions (done (record g { extensions = e })))

  unfoldable pub visit_metadata : ImageMetadata C → Visit (ImageMetadata C)
  unfolding visit_all_default visit_tone_mapping visit_extra visit_rest
  visit_metadata h =
      visit_all_default near (h.all_default) (λ mark. record h { all_default = mark })
        (λ mark. do
          reading ← is_reading done
          let tone_default =
              if reading
              then false
              else or_false
                  (are_default near (visit_tone_mapping near less at_most (h.tone_mapping)))
          extra ← flag false (
              not (h.orientation == 1)
              || (h.have_preview
                  || (h.have_animation || (h.have_intrinsic_size || not tone_default))))
          g ← visit_extra extra (record h { all_default = mark })
          visit_rest extra g)

-- SetAlphaBits
unfoldable pub set_alpha_bits : {C : Type 0} → ℕ → Bool → ImageMetadata C → ImageMetadata C
unfolding set_alpha_channels
set_alpha_bits depth premultiplied h =
    let ecis = set_alpha_channels depth premultiplied (h.extra_channel_info) in
    record h {
      extra_channel_info = ecis;
      num_extra_channels = length ecis % 2 ^ 32;
      modular_16_bit_buffer_sufficient =
          (if ltb 12 depth then false else h.modular_16_bit_buffer_sufficient);
    }

unfoldable pub set_uint_samples : {C : Type 0} → ℕ → ImageMetadata C → ImageMetadata C
set_uint_samples depth h = record h {
  bit_depth = record {
    floating_point_sample = false;
    bits_per_sample = depth;
    exponent_bits_per_sample = 0;
  };
  modular_16_bit_buffer_sufficient =
      (if ltb 12 depth then false else h.modular_16_bit_buffer_sufficient);
}

unfoldable pub set_float32_samples : {C : Type 0} → ImageMetadata C → ImageMetadata C
set_float32_samples h = record h {
  bit_depth = record {
    floating_point_sample = true;
    bits_per_sample = 32;
    exponent_bits_per_sample = 8;
  };
  modular_16_bit_buffer_sufficient = false;
}

unfoldable pub set_float16_samples : {C : Type 0} → ImageMetadata C → ImageMetadata C
set_float16_samples h = record h {
  bit_depth = record {
    floating_point_sample = true;
    bits_per_sample = 16;
    exponent_bits_per_sample = 5;
  };
  modular_16_bit_buffer_sufficient = false;
}
