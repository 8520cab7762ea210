-- ===== src/Metadata/Transform.antt =====
-- src/lib/jxl/image_metadata.cc: CustomTransformData, the inverse of the opsin matrix and the weights of upsampling.
use ssimulacra2_vulcan.Common.{ℕ, ◌/◌, ◌%◌, Bool, List, ◌==◌, if◌then◌else◌}
use ssimulacra2_vulcan.Fields.Coder.{bits}
use ssimulacra2_vulcan.Fields.Visit.{Visit, done, conditional, ◌>>=◌, field}
use ssimulacra2_vulcan.Metadata.Bundles.{
  visit_all_default, visit_floats, OpsinInverseMatrix, visit_opsin,
}
use ssimulacra2_vulcan.Metadata.Weights.{weights2, weights4, weights8}

pub record CustomTransformData : Type 0 where
  pub nonserialized_xyb_encoded : Bool
  pub all_default : Bool
  pub opsin_inverse_matrix : OpsinInverseMatrix
  pub custom_weights_mask : ℕ
  pub upsampling2_weights : List ℕ
  pub upsampling4_weights : List ℕ
  pub upsampling8_weights : List ℕ

-- The weights, if their bit of the mask is set
unfoldable pub visit_weights : Bool → List ℕ → List ℕ → Visit (List ℕ)
unfolding visit_floats
visit_weights chosen defaults ws =
    conditional chosen (λ go. if go then visit_floats defaults ws else done ws)

-- AllDefaultVisitor's comparison of floats, and the default arrays of the matrix
module _ (near : ℕ → ℕ → Bool) (absorbance biases quant : List ℕ) where
  unfoldable pub visit_transform : CustomTransformData → Visit CustomTransformData
  unfolding visit_all_default visit_opsin visit_weights
  visit_transform h =
      visit_all_default near (h.all_default) (λ mark. record h { all_default = mark })
        (λ mark. do
          opsin ← conditional (h.nonserialized_xyb_encoded) (λ go.
              if go
              then visit_opsin near absorbance biases quant (h.opsin_inverse_matrix)
              else done (h.opsin_inverse_matrix))
          mask ← field (bits 3) 0 (h.custom_weights_mask)
          w2 ← visit_weights (mask % 2 == 1) weights2 (h.upsampling2_weights)
          w4 ← visit_weights (mask / 2 % 2 == 1) weights4 (h.upsampling4_weights)
          w8 ← visit_weights (mask / 4 % 2 == 1) weights8 (h.upsampling8_weights)
          done (record {
            nonserialized_xyb_encoded = h.nonserialized_xyb_encoded;
            all_default = mark;
            opsin_inverse_matrix = opsin;
            custom_weights_mask = mask;
            upsampling2_weights = w2;
            upsampling4_weights = w4;
            upsampling8_weights = w8;
          }))
