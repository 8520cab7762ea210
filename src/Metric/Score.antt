-- ===== src/Metric/Score.antt =====
-- src/ssimulacra2.cc, Msssim::Score: the weighted sum of the sub-scores, and its map to 0..100.
pub mod Weights
pub mod Order
pub mod Zero
use ssimulacra2_vulcan.Common.{ℕ, ◌+◌, ◌*◌, suc, List, [], get_or, length, loop, if◌then◌else◌}
use ssimulacra2_vulcan.Arith.{Arith, Doubles, ◌⊕◌, ◌⊖◌, ◌⊗◌, abs, less, decimal}
use Weights.{weight}

-- The norms of one scale: six of the SSIM' map, and twelve of the edge maps.
pub record MsssimScale (D : Type 0) : Type 0 where
  pub avg_ssim : List D
  pub avg_edgediff : List D

-- The variables i and ssim.
pub record Tally (D : Type 0) : Type 0 where
  pub next : ℕ
  pub total : D

module _ {D : Type 0} ⦃d : Arith D⦄ where
  -- weight[i]; a position past the table would be a read out of bounds.
  unfoldable pub weight_at : ℕ → D
  unfolding weight
  weight_at i = let (m, k) = get_or weight i (0, 0) in decimal m k

  -- ssim += weight[i++] * abs(v)
  unfoldable pub add_weighted : D → Tally D → Tally D
  add_weighted v t = record { next = suc t.next; total = t.total ⊕ weight_at t.next ⊗ abs v }

  abbrev pub no_scale : MsssimScale D
  no_scale = record { avg_ssim = []; avg_edgediff = [] }

  -- An entry of avg_ssim or avg_edgediff, and an element of `scales`.
  abbrev pub entry : List D → ℕ → D
  entry a i = get_or a i (decimal 0 0)

  abbrev pub scale_at : List (MsssimScale D) → ℕ → MsssimScale D
  scale_at scales i = get_or scales i no_scale

  -- The body of the three loops, for the channel c, a scale and the norm n.
  unfoldable pub add_norms : ℕ → MsssimScale D → ℕ → Tally D → Tally D
  unfolding add_weighted
  add_norms c s n t =
      let t1 = add_weighted (entry s.avg_ssim (c * 2 + n)) t in
      let t2 = add_weighted (entry s.avg_edgediff (c * 4 + n)) t1 in
      add_weighted (entry s.avg_edgediff (c * 4 + n + 2)) t2

  unfoldable pub sum_scales : List (MsssimScale D) → Tally D
  sum_scales scales =
      loop 3
        (λ c t.
          loop (length scales) (λ i u. loop 2 (λ n v. add_norms c (scale_at scales i) n v) u) t)
        (record { next = 0; total = decimal 0 0 })

module _ {F D : Type 0} ⦃d : Arith D⦄ (c : Doubles F D) where
  -- The cubic, and the power for a positive value.
  unfoldable pub rescale : D → D
  rescale sum =
      let x = sum ⊗ decimal 9562382616834844 16 in
      let y =
        decimal 2326765642916932 15 ⊗ x
        ⊖ decimal 20884521182843837 18 ⊗ x ⊗ x
        ⊕ decimal 6248496625763138 20 ⊗ x ⊗ x ⊗ x in
      if less (decimal 0 0) y
      then decimal 100 0 ⊖ decimal 10 0 ⊗ c.pow y (decimal 6276336467831387 16)
      else decimal 100 0

  unfoldable pub score : List (MsssimScale D) → D
  score scales = rescale (sum_scales scales).total
