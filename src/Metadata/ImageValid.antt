-- ===== src/Metadata/ImageValid.antt =====
-- src/lib/jxl/image_metadata.cc: what Bundle::Read returns as the metadata of an image.
use ssimulacra2_vulcan.Common.{
  ℕ, zero, suc, ◌≡◌, ◌≢◌, refl, Bool, not, ◌&&◌, List, [], ◌∷◌, length, ◌==◌, if◌then◌else◌,
  Bool-cases, inl, inr, arith,
}
use ssimulacra2_vulcan.Fields.Bits.{Reader}
use ssimulacra2_vulcan.Fields.Visit.{Visit, done, conditional, is_reading}
use ssimulacra2_vulcan.Fields.Visitors.{bundle_read}
use ssimulacra2_vulcan.Metadata.Always.{Always, Returns, bundle_read-Returns}
use ssimulacra2_vulcan.Metadata.Defaults.{Settles, Settles-next, Settles-Always, Settles-bind}
use ssimulacra2_vulcan.Metadata.Valid.{
  IsDepth, Always-bind, Always-next, Always-map, Always-all_default, bit_depth-IsDepth,
}
use ssimulacra2_vulcan.Metadata.Bundles.{visit_bit_depth}
use ssimulacra2_vulcan.Metadata.Channel.{ExtraChannelInfo, visit_channel, resize, fresh_channel}
use ssimulacra2_vulcan.Metadata.ChannelValid.{IsChannel, visit_channel-IsChannel, bit_depth-settled}
use ssimulacra2_vulcan.Metadata.Image.{ImageMetadata, visit_channels, visit_rest, visit_metadata}

unfoldable pub AreChannels : List ExtraChannelInfo → Type 0
AreChannels [] = Unit {0}
AreChannels (eci ∷ ecis) = IsChannel eci × AreChannels ecis

-- As many channels as there are said to be, and each in its ranges.
abbrev pub AreCounted : ℕ → List ExtraChannelInfo → Type 0
AreCounted num ecis = num ≢ 0 → (length ecis ≡ num) × AreChannels ecis

length-resize : (n : ℕ) (ecis : List ExtraChannelInfo) → length (resize fresh_channel n ecis) ≡ n
unfolding resize
length-resize zero ecis = refl
length-resize (suc n) [] = omega (arith, length-resize n [])
length-resize (suc n) (eci ∷ ecis) = omega (arith, length-resize n ecis)

channels-read :
    (near : ℕ → ℕ → Bool) (num : ℕ) (ecis : List ExtraChannelInfo)
    → length ecis ≡ num
    → Always (λ ecis'. (length ecis' ≡ num) × AreChannels ecis') (visit_channels near ecis)
unfolding Always visit_channels AreChannels
channels-read near num [] h = (h, tt)
channels-read near zero (eci ∷ ecis) h = absurd (omega (arith, h))
channels-read near (suc num) (eci ∷ ecis) h =
    Always-bind IsChannel _ (visit_channel near eci) _ (visit_channel-IsChannel near eci)
      (λ eci' fine.
        Always-bind (λ es. (length es ≡ num) × AreChannels es) _ (visit_channels near ecis) _
          (channels-read near num ecis (omega (arith, h)))
          (λ es (l, all). (omega (arith, l), (fine, all))))

-- The bit depth is in its range, and the channels are counted.
abbrev pub IsMetadata : {C : Type 0} → ImageMetadata C → Type 0
IsMetadata h = IsDepth (h.bit_depth) × AreCounted (h.num_extra_channels) (h.extra_channel_info)

module _ (near less at_most : ℕ → ℕ → Bool) {C : Type 0} (visit_color : C → Visit C) where
  counted_channels :
      (num : ℕ) (h : ImageMetadata C)
      → Always (AreCounted num) (
          conditional (not (num == 0)) (λ go.
            if go
            then is_reading (λ reading. visit_channels near (
                if reading
                then resize fresh_channel num (h.extra_channel_info)
                else h.extra_channel_info))
            else done (h.extra_channel_info)))
  unfolding Always
  counted_channels num h = elim (Bool-cases (num == 0)) [
    | inl empty ↦ rw empty (λ e. absurd (e (ground arith)))
    | inr present ↦ rw present (
        Always-map (λ es. (length es ≡ num) × AreChannels es) (AreCounted num)
          (visit_channels near (resize fresh_channel num (h.extra_channel_info))) (λ es all e. all)
          (channels-read near num (resize fresh_channel num (h.extra_channel_info))
            (length-resize num (h.extra_channel_info))))
  ]

  rest-IsMetadata :
      (extra : Bool) (h : ImageMetadata C)
      → Always IsMetadata (visit_rest near less at_most visit_color extra h)
  unfolding Always visit_rest
  rest-IsMetadata extra h =
      Always-bind IsDepth IsMetadata (visit_bit_depth (h.bit_depth)) _
        (bit_depth-IsDepth (h.bit_depth))
        (λ depth fine. Always-next IsMetadata _ _ (λ sufficient. Always-next IsMetadata _ _ (λ num.
          Always-bind (AreCounted num) IsMetadata _ _ (counted_channels num h) (λ ecis counted.
            Always-next IsMetadata _ _ (λ xyb. Always-next IsMetadata _ _ (λ color.
              Always-next IsMetadata _ _ (λ tone. Always-next IsMetadata _ _ (λ reading.
                elim (Bool-cases (reading && h.nonserialized_only_parse_basic_info)) [
                  | inl basic ↦ rw basic (fine, counted)
                  | inr whole ↦ rw whole (λ w. (fine, counted))
                ]))))))))

  rest-settled :
      (extra : Bool) (h : ImageMetadata C)
      → Settles IsMetadata (visit_rest near less at_most visit_color extra h)
  unfolding Settles visit_rest
  rest-settled extra h =
      Settles-bind IsDepth IsMetadata (visit_bit_depth (h.bit_depth)) _
        (bit_depth-settled (h.bit_depth))
        (λ depth fine. Settles-next IsMetadata _ _ (λ sufficient.
          Settles-bind (λ num. num ≡ 0) IsMetadata _ _ refl
            (λ num none_left. Settles-next IsMetadata _ _ (λ ecis.
              Settles-next IsMetadata _ _ (λ xyb. Settles-next IsMetadata _ _ (λ color.
                Settles-next IsMetadata _ _ (λ tone. Settles-next IsMetadata _ _ (λ reading.
                  elim (Bool-cases (reading && h.nonserialized_only_parse_basic_info)) [
                    | inl basic ↦ rw basic (fine, λ e. absurd (e none_left))
                    | inr whole ↦ rw whole (fine, λ e. absurd (e none_left))
                  ]))))))))

  visit_metadata-IsMetadata :
      (h : ImageMetadata C) → Always IsMetadata (visit_metadata near less at_most visit_color h)
  unfolding Always Settles visit_metadata
  visit_metadata-IsMetadata h =
      Always-all_default IsMetadata near (h.all_default) (λ mark. record h { all_default = mark }) _
        (λ now. Settles-Always IsMetadata _ (
          Settles-next IsMetadata _ _ (λ reading.
            Settles-next IsMetadata _ _
              (λ extra. Settles-next IsMetadata _ _ (λ g. rest-settled extra g)))))
        (λ now. Always-next IsMetadata _ _ (λ reading.
          Always-next IsMetadata _ _
            (λ extra. Always-next IsMetadata _ _ (λ g. rest-IsMetadata extra g))))

  -- Whatever the bits are, whatever the bundle was before and however the color encoding is visited: an ImageMetadata that Bundle::Read
  -- finishes has a bit depth in the documented range, and unless num_extra_channels is 0, there are as many extra channels as
  -- it says, each of a known type, with a dim_shift of at most 3 and a bit depth in the documented range.
  pub bundle_read-IsMetadata :
      (subnormal : ℕ → ℕ) (size : ℕ) (h : ImageMetadata C) (r : Reader)
      → Returns IsMetadata
          (bundle_read subnormal size (visit_metadata near less at_most visit_color) h r)
  bundle_read-IsMetadata subnormal size h r =
      bundle_read-Returns subnormal size IsMetadata (visit_metadata near less at_most visit_color) h
        r (visit_metadata-IsMetadata h)
