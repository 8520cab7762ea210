-- ===== src/Metric/Score/Zero.antt =====
-- The score of images without an error.
use ssimulacra2_vulcan.Common.{
  ℕ, ◌≡◌, refl, List, [], ◌∷◌, length, loop_inv, get_or-replicate, replicate, All, zero, suc, ◌<◌,
  ◌^◌, get_or, arith,
}
use ssimulacra2_vulcan.Arith.{Arith, Doubles, ◌⊗◌, decimal}
use ssimulacra2_vulcan.Metric.Score.Weights.{weight}
use ssimulacra2_vulcan.Arith.Rules.{ZeroRules}
use ssimulacra2_vulcan.Metric.Score.{
  MsssimScale, Tally, weight_at, scale_at, add_norms, sum_scales, rescale, score,
}

module _ {D : Type 0} ⦃d : Arith D⦄ where
  -- All norms of the scale are zero.
  pub record ZeroScale (s : MsssimScale D) : Type 0 where
    pub no_ssim : s.avg_ssim ≡ replicate 6 (decimal 0 0)
    pub no_edges : s.avg_edgediff ≡ replicate 12 (decimal 0 0)

IsSmall : ℕ × ℕ → Type 0
IsSmall (m, k) = m < 2 ^ 64

get_or-IsSmall : (ws : List (ℕ × ℕ)) (i : ℕ) → All IsSmall ws → IsSmall (get_or ws i (0, 0))
unfolding IsSmall
get_or-IsSmall [] i h = omega arith
get_or-IsSmall (w ∷ ws) zero (h, hs) = h
get_or-IsSmall (w ∷ ws) (suc i) (h, hs) = get_or-IsSmall ws i hs

weight-IsSmall : All IsSmall weight
unfolding weight IsSmall
weight-IsSmall = omega arith

module _ {D : Type 0} ⦃d : Arith D⦄ (zeros : ZeroRules D) where
  -- Every weight is finite.
  weight_at-mul_zero : (i : ℕ) → weight_at i ⊗ decimal 0 0 ≡ decimal {A = D} 0 0
  unfolding weight_at IsSmall
  weight_at-mul_zero i =
      zeros.mul_zero ((get_or weight i (0, 0)).0) ((get_or weight i (0, 0)).1)
        (get_or-IsSmall weight i weight-IsSmall)

  add_norms-zero :
      (c n : ℕ) (s : MsssimScale D) (t : Tally D)
      → ZeroScale s
      → t.total ≡ decimal 0 0
      → (add_norms c s n t).total ≡ decimal 0 0
  unfolding add_norms
  add_norms-zero c n s t z h = simp (
    h, z.no_ssim, z.no_edges, get_or-replicate, zeros.abs-zero, weight_at-mul_zero, zeros.add_zero,
  )

  scale_at-ZeroScale :
      (scales : List (MsssimScale D)) (i : ℕ)
      → All ZeroScale scales
      → i < length scales
      → ZeroScale (scale_at scales i)
  scale_at-ZeroScale [] i h lt = absurd (omega arith)
  scale_at-ZeroScale (x ∷ xs) zero (h, hs) lt = h
  scale_at-ZeroScale (x ∷ xs) (suc i) (h, hs) lt = scale_at-ZeroScale xs i hs (omega arith)

  sum_scales-zero :
      (scales : List (MsssimScale D))
      → All ZeroScale scales
      → (sum_scales scales).total ≡ decimal 0 0
  unfolding sum_scales
  sum_scales-zero scales h =
      loop_inv (λ c (t : Tally D). t.total ≡ decimal 0 0) 3 _ _
        (λ c t lt e.
          loop_inv (λ i (u : Tally D). u.total ≡ decimal 0 0) (length scales) _ t
            (λ i u lt' e'.
              loop_inv (λ n (v : Tally D). v.total ≡ decimal 0 0) 2 _ u
                (λ n v lt'' e''. add_norms-zero c n _ v (scale_at-ZeroScale scales i h lt') e'') e')
            e)
        refl

module _ {F D : Type 0} ⦃d : Arith D⦄ (c : Doubles F D) (zeros : ZeroRules D) where
  rescale-zero : rescale c (decimal 0 0) ≡ decimal 100 0
  unfolding rescale
  rescale-zero = simp (
    zeros.zero_mul 9562382616834844 16 (omega arith),
    zeros.mul_zero 2326765642916932 15 (omega arith),
    zeros.mul_zero 20884521182843837 18 (omega arith),
    zeros.mul_zero 6248496625763138 20 (omega arith),
    zeros.mul_zero 0 0 (omega arith),
    zeros.sub_zero,
    zeros.add_zero,
    zeros.less-zero,
  )

  -- Scales without an error, and in particular no scales at all, have the score 100.
  pub score-zero :
      (scales : List (MsssimScale D)) → All ZeroScale scales → score c scales ≡ decimal 100 0
  unfolding score
  score-zero scales h = rw (sum_scales-zero zeros scales h, rescale-zero)
