-- ===== src/Metadata/Alpha.antt =====
-- src/lib/jxl/image_metadata.cc: SetAlphaBits and GetAlphaBits.
use ssimulacra2_vulcan.Common.{
  ℕ, ◌≡◌, ◌≢◌, refl, Bool, true, false, none, some, List, [], ◌∷◌, ◌==◌, some-eq, ap, Bool-cases,
  Option-cases, length, ◌%◌, ◌^◌, ◌⊎◌, inl, inr, arith,
}
use ssimulacra2_vulcan.Metadata.Image.{ImageMetadata, set_alpha_bits}
use ssimulacra2_vulcan.Metadata.Channel.{
  ExtraChannelInfo, alpha, find_channel, get_alpha_bits, without_alpha, with_alpha_bits,
  change_first, set_alpha_channels, fresh_channel,
}

find_channel-without_alpha :
    (ecis : List ExtraChannelInfo) → find_channel alpha (without_alpha ecis) ≡ none
unfolding find_channel without_alpha
find_channel-without_alpha [] = refl
find_channel-without_alpha (eci ∷ ecis) = elim (Bool-cases (eci.type == alpha)) [
  | inl hit ↦ rw hit (find_channel-without_alpha ecis)
  | inr miss ↦ rw (miss, miss) (find_channel-without_alpha ecis)
]

find_channel-change_first :
    (depth : ℕ) (premultiplied : Bool) (ecis : List ExtraChannelInfo) (eci : ExtraChannelInfo)
    → find_channel alpha ecis ≡ some eci
    → find_channel alpha (change_first depth premultiplied ecis)
      ≡ some (with_alpha_bits depth premultiplied eci)
unfolding find_channel change_first
find_channel-change_first depth premultiplied [] eci h = absurd (ground arith)
find_channel-change_first depth premultiplied (e ∷ ecis) eci h =
    elim (Bool-cases (e.type == alpha)) [
      | inl hit ↦
          let same : e ≡ eci = some-eq (rw hit at h) in
          rw (hit, hit) (ap (λ x. some (with_alpha_bits depth premultiplied x)) same)
      | inr miss ↦
          rw (miss, miss) (find_channel-change_first depth premultiplied ecis eci (rw miss at h))
    ]

alpha_channel :
    (depth : ℕ) (premultiplied : Bool) (ecis : List ExtraChannelInfo)
    → (eci : ExtraChannelInfo) × (depth ≢ 0
        → (find_channel alpha (set_alpha_channels depth premultiplied ecis) ≡ some eci)
          × (eci.bit_depth.bits_per_sample ≡ depth)
          × (eci.alpha_associated ≡ premultiplied))
unfolding set_alpha_channels find_channel
alpha_channel depth premultiplied ecis = elim (Option-cases (find_channel alpha ecis)) [
  | inl absent ↦ (
    record fresh_channel {
      bit_depth = record {
        floating_point_sample = false;
        bits_per_sample = depth;
        exponent_bits_per_sample = 0;
      };
      alpha_associated = premultiplied;
    },
    λ some_bits.
        let z : (depth == 0) ≡ false = ground arith in
        (rw (set_alpha_channels, absent, z) refl, refl, refl),
  )
  | inr (old, present) ↦ (
    with_alpha_bits depth premultiplied old,
    λ some_bits.
        let z : (depth == 0) ≡ false = ground arith in
        (
          rw (set_alpha_channels, present, z)
              (find_channel-change_first depth premultiplied ecis old present),
          refl,
          refl,
        ),
  )
]

no_alpha :
    (premultiplied : Bool) (ecis : List ExtraChannelInfo)
    → find_channel alpha (set_alpha_channels 0 premultiplied ecis) ≡ none
unfolding set_alpha_channels
no_alpha premultiplied ecis = elim (Option-cases (find_channel alpha ecis)) [
  | inl absent ↦ rw (set_alpha_channels, absent) absent
  | inr (old, present) ↦ rw (set_alpha_channels, present) (find_channel-without_alpha ecis)
]

-- GetAlphaBits returns what SetAlphaBits was given, and its assertion holds: a depth of 0 leaves no alpha channel, another one is
-- the depth of the first alpha channel, whatever the extra channels were. num_extra_channels is the number of them, in 32 bits.
pub get_alpha_bits-set_alpha_bits :
    {C : Type 0} (depth : ℕ) (premultiplied : Bool) (h : ImageMetadata C)
    → (get_alpha_bits ((set_alpha_bits depth premultiplied h).extra_channel_info) ≡ some depth)
      × ((set_alpha_bits depth premultiplied h).num_extra_channels
          ≡ length ((set_alpha_bits depth premultiplied h).extra_channel_info) % 2 ^ 32)
unfolding get_alpha_bits set_alpha_bits
get_alpha_bits-set_alpha_bits depth premultiplied h = (go (Bool-cases (depth == 0)), refl)
  where
    go :
        ((depth == 0) ≡ true) ⊎ ((depth == 0) ≡ false)
        → get_alpha_bits (set_alpha_channels depth premultiplied (h.extra_channel_info))
          ≡ some depth
    go (inl none_set) =
        let z : depth ≡ 0 = ground arith in
        rw (z, get_alpha_bits, no_alpha premultiplied (h.extra_channel_info)) refl
    go (inr some_set) =
        let (eci, found) = alpha_channel depth premultiplied (h.extra_channel_info) in
        let (there, same, pre) = found (λ e. absurd (ground arith)) in
        let still : (eci.bit_depth.bits_per_sample == 0) ≡ false = rw same some_set in
        rw (get_alpha_bits, there, still, same) refl
