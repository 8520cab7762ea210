-- ===== src/Metadata/Bundles.antt =====
-- src/lib/jxl/image_metadata.cc: BitDepth, ToneMapping and OpsinInverseMatrix, and what bundles with a field all_default share.
-- Floats are their 32 bits.
use ssimulacra2_vulcan.Common.{
  ℕ, ◌+◌, ◌-◌, ◌%◌, ◌^◌, Bool, true, false, not, ◌&&◌, ◌||◌, Option, none, some, List, [], ◌∷◌, ltb,
  leb, if◌then◌else◌,
}
use ssimulacra2_vulcan.Fields.Coder.{Coder, bits, f16}
use ssimulacra2_vulcan.Fields.Selector.{val, bits_offset}
use ssimulacra2_vulcan.Fields.Visit.{
  Visit, done, failure, all_default, is_reading, ◌>>=◌, ◌>>◌, check, field, flag, four,
}
use ssimulacra2_vulcan.Fields.Visitors.{set_default, are_default}

abbrev pub or_false : Option Bool → Bool
or_false none = false
or_false (some b) = b

abbrev pub or_failure : {A : Type 0} → Option A → Visit A
or_failure none = failure
or_failure (some a) = done a

-- A bundle that starts with AllDefault: its field all_default, the bundle with another one, and the rest
-- of its VisitFields. Where Bundle::AllDefault aborts, the rest fails as well.
unfoldable pub visit_all_default :
    {A : Type 0} → (ℕ → ℕ → Bool) → Bool → (Bool → A) → (Bool → Visit A) → Visit A
visit_all_default near mark with_mark rest =
    all_default (or_false (are_default near (rest mark))) mark (λ now skip.
      if skip
      then is_reading
          (λ reading. if reading then or_failure (set_default (rest now)) else done (with_mark now))
      else rest now)

pub record BitDepth : Type 0 where
  pub floating_point_sample : Bool
  pub bits_per_sample : ℕ
  pub exponent_bits_per_sample : ℕ

abbrev pub integer_coder : Coder
integer_coder = four (val 8) (val 10) (val 12) (bits_offset 6 1)

abbrev pub float_coder : Coder
float_coder = four (val 32) (val 16) (val 24) (bits_offset 6 1)

abbrev pub mantissa_bits : ℕ → ℕ → ℕ
mantissa_bits depth exponent = (depth + 2 ^ 32 - exponent + 2 ^ 32 - 1) % 2 ^ 32

unfoldable pub visit_samples : BitDepth → Bool → Visit BitDepth
visit_samples h true = do
  depth ← field float_coder 32 (h.bits_per_sample)
  less ← field (bits 4) (8 - 1) ((h.exponent_bits_per_sample + 2 ^ 32 - 1) % 2 ^ 32)
  let exponent = (less + 1) % 2 ^ 32
  check (not (ltb exponent 2 || ltb 8 exponent))
  check (leb 2 (mantissa_bits depth exponent) && leb (mantissa_bits depth exponent) 23)
  done (record {
    floating_point_sample = true;
    bits_per_sample = depth;
    exponent_bits_per_sample = exponent;
  })
visit_samples h false = do
  depth ← field integer_coder 8 (h.bits_per_sample)
  check (not (ltb 31 depth))
  done (record {
    floating_point_sample = false;
    bits_per_sample = depth;
    exponent_bits_per_sample = 0;
  })

unfoldable pub visit_bit_depth : BitDepth → Visit BitDepth
unfolding visit_samples
visit_bit_depth h = do floating ← flag false (h.floating_point_sample); visit_samples h floating

-- F16 for each float of an array.
unfoldable pub visit_floats : List ℕ → List ℕ → Visit (List ℕ)
visit_floats [] vs = done vs
visit_floats (d ∷ ds) [] = done []
visit_floats (d ∷ ds) (v ∷ vs) = do w ← field f16 d v; ws ← visit_floats ds vs; done (w ∷ ws)

pub record OpsinInverseMatrix : Type 0 where
  pub all_default : Bool
  pub inverse_matrix : List ℕ
  pub opsin_biases : List ℕ
  pub quant_biases : List ℕ

pub record ToneMapping : Type 0 where
  pub all_default : Bool
  pub intensity_target : ℕ
  pub min_nits : ℕ
  pub relative_to_max_display : Bool
  pub linear_below : ℕ

-- AllDefaultVisitor's comparison of floats, and the default arrays.
module _ (near : ℕ → ℕ → Bool) (absorbance biases quant : List ℕ) where
  unfoldable pub visit_opsin : OpsinInverseMatrix → Visit OpsinInverseMatrix
  unfolding visit_all_default visit_floats
  visit_opsin h =
      visit_all_default near (h.all_default) (λ mark. record h { all_default = mark })
        (λ mark. do
          matrix ← visit_floats absorbance (h.inverse_matrix)
          opsin ← visit_floats biases (h.opsin_biases)
          quants ← visit_floats quant (h.quant_biases)
          done (record {
            all_default = mark;
            inverse_matrix = matrix;
            opsin_biases = opsin;
            quant_biases = quants;
          }))

-- Floats compared: < of two patterns. 255.0 and 1.0 are the patterns of the source's constants.
module _ (near : ℕ → ℕ → Bool) (less : ℕ → ℕ → Bool) (at_most : ℕ → ℕ → Bool) where
  abbrev pub default_intensity : ℕ
  default_intensity = 1132396544

  abbrev pub one : ℕ
  one = 1065353216

  unfoldable pub visit_tone_mapping : ToneMapping → Visit ToneMapping
  unfolding visit_all_default
  visit_tone_mapping h =
      visit_all_default near (h.all_default) (λ mark. record h { all_default = mark })
        (λ mark. do
          intensity ← field f16 default_intensity (h.intensity_target)
          check (not (at_most intensity 0))
          nits ← field f16 0 (h.min_nits)
          check (not (less nits 0 || less intensity nits))
          relative ← flag false (h.relative_to_max_display)
          linear ← field f16 0 (h.linear_below)
          check (not (less linear 0 || (relative && less one linear)))
          done (record {
            all_default = mark;
            intensity_target = intensity;
            min_nits = nits;
            relative_to_max_display = relative;
            linear_below = linear;
          }))
