-- ===== src/Metadata/ChannelValid.antt =====
-- src/lib/jxl/image_metadata.cc: what Bundle::Read returns as an extra channel.
use ssimulacra2_vulcan.Common.{
  ℕ, zero, suc, ◌^◌, ◌≤◌, ◌≡◌, ◌⊎◌, inr, refl, Bool, true, not, ltb, arith,
}
use native.Mathlib.Nat.{pow-suc}
use ssimulacra2_vulcan.Fields.Bits.{Reader}
use ssimulacra2_vulcan.Fields.Visit.{◌>>=◌}
use ssimulacra2_vulcan.Fields.Visitors.{bundle_read}
use ssimulacra2_vulcan.Metadata.Always.{Always, Returns, bundle_read-Returns}
use ssimulacra2_vulcan.Metadata.Defaults.{
  Settles, Settles-next, Settles-check, Settles-Always, Settles-bind,
}
use ssimulacra2_vulcan.Metadata.Valid.{
  IsDepth, Always-bind, Always-next, Always-check, Always-all_default, bit_depth-IsDepth,
}
use ssimulacra2_vulcan.Metadata.Bundles.{BitDepth, visit_bit_depth, visit_samples}
use ssimulacra2_vulcan.Metadata.Channel.{ExtraChannelInfo, visit_channel, enum_valid, is_refused}

power_small : (n : ℕ) → 1 ≤ 2 ^ n
power_small zero = omega arith
power_small (suc n) = omega (arith, pow-suc 2 n, power_small n)

shift_bound : (n : ℕ) → not (ltb 8 (2 ^ n)) ≡ true → n ≤ 3
shift_bound zero h = omega arith
shift_bound (suc zero) h = omega arith
shift_bound (suc (suc zero)) h = omega arith
shift_bound (suc (suc (suc zero))) h = omega arith
shift_bound (suc (suc (suc (suc n)))) h =
    let a = pow-suc 2 (suc (suc (suc n))) in
    let b = pow-suc 2 (suc (suc n)) in
    let c = pow-suc 2 (suc n) in
    let d = pow-suc 2 n in let p = power_small n in absurd (ground arith)

-- A channel of a type that is known, subsampled by at most 8, with a bit depth in its range.
abbrev pub IsChannel : ExtraChannelInfo → Type 0
IsChannel h = ((h.type ≤ 6) ⊎ (h.type ≡ 16)) × (h.dim_shift ≤ 3) × IsDepth (h.bit_depth)

known_type :
    (type : ℕ) → enum_valid type ≡ true → not (is_refused type) ≡ true → (type ≤ 6) ⊎ (type ≡ 16)
unfolding enum_valid is_refused
known_type type valid taken = ground arith

pub bit_depth-settled : (h : BitDepth) → Settles IsDepth (visit_bit_depth h)
unfolding Settles visit_bit_depth visit_samples ◌>>=◌
bit_depth-settled h = inr (refl, omega arith, omega arith, refl)

-- Every path of VisitFields.
pub visit_channel-IsChannel :
    (near : ℕ → ℕ → Bool) (h : ExtraChannelInfo) → Always IsChannel (visit_channel near h)
unfolding visit_channel Settles Always
visit_channel-IsChannel near h =
    (Always-all_default IsChannel near (h.all_default) (λ mark. record h { all_default = mark }) _
      (λ now. Settles-Always IsChannel _ (
        Settles-next IsChannel _ _ (λ type. Settles-check IsChannel (enum_valid type) _ (λ valid.
          Settles-bind IsDepth IsChannel (visit_bit_depth (h.bit_depth)) _
            (bit_depth-settled (h.bit_depth))
            (λ depth fine. Settles-next IsChannel _ _ (λ shift.
              Settles-check IsChannel (not (ltb 8 (2 ^ shift))) _ (λ small.
                Settles-next IsChannel _ _ (λ name. Settles-next IsChannel _ _ (λ associated.
                  Settles-next IsChannel _ _ (λ spot. Settles-next IsChannel _ _ (λ number.
                    Settles-check IsChannel (not (is_refused type)) _ (λ taken.
                      (known_type type valid taken, shift_bound shift small, fine)))))))))))))
      (λ now. Always-next IsChannel _ _ (λ type.
        Always-check IsChannel (enum_valid type) _ (λ valid.
          Always-bind IsDepth IsChannel (visit_bit_depth (h.bit_depth)) _
            (bit_depth-IsDepth (h.bit_depth))
            (λ depth fine. Always-next IsChannel _ _ (λ shift.
              Always-check IsChannel (not (ltb 8 (2 ^ shift))) _ (λ small.
                Always-next IsChannel _ _ (λ name. Always-next IsChannel _ _ (λ associated.
                  Always-next IsChannel _ _ (λ spot. Always-next IsChannel _ _ (λ number.
                    Always-check IsChannel (not (is_refused type)) _ (λ taken.
                      (known_type type valid taken, shift_bound shift small, fine)))))))))))))

-- Whatever the bits are and whatever the bundle was before, an ExtraChannelInfo that Bundle::Read finishes is of a known type, its dim_shift is
-- at most 3, and its bit depth is in the documented range: an integer of 1 to 31 bits, or a float with 2 to 8 bits of exponent
-- and 2 to 23 of mantissa.
pub bundle_read-IsChannel :
    (subnormal : ℕ → ℕ) (size : ℕ) (near : ℕ → ℕ → Bool) (h : ExtraChannelInfo) (r : Reader)
    → Returns IsChannel (bundle_read subnormal size (visit_channel near) h r)
bundle_read-IsChannel subnormal size near h r =
    bundle_read-Returns subnormal size IsChannel (visit_channel near) h r
      (visit_channel-IsChannel near h)
