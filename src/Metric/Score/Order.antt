-- ===== src/Metric/Score/Order.antt =====
-- Which weight goes with which sub-score.
use ssimulacra2_vulcan.Common.{
  ℕ, suc, ◌+◌, ◌*◌, ◌≡◌, ◌↔◌, ◌⊎◌, refl, List, length, loop_rel, loop, arith, zero, inl, inr,
}
use ssimulacra2_vulcan.Arith.{Arith, ◌⊕◌, ◌⊗◌, abs, decimal}
use ssimulacra2_vulcan.Metric.Score.{
  MsssimScale, Tally, weight_at, entry, scale_at, add_norms, sum_scales,
}

-- The place in the table of the weight for map k (0 is SSIM', 1 ringing, 2 blur) and norm n, at scale
-- i of `count` scales and channel c.
abbrev pub weight_index : ℕ → ℕ → ℕ → ℕ → ℕ → ℕ
weight_index count c i n k = ((c * count + i) * 2 + n) * 3 + k

module _ {D : Type 0} ⦃d : Arith D⦄ where
  abbrev weighted : D → ℕ → D → D
  weighted total index v = total ⊕ weight_at index ⊗ abs v

  -- The three sub-scores of one channel, scale and norm, each with its place written out.
  abbrev add_indexed : ℕ → ℕ → ℕ → MsssimScale D → ℕ → D → D
  add_indexed count c i s n total =
      weighted
        (weighted (weighted total (weight_index count c i n 0) (entry s.avg_ssim (c * 2 + n)))
          (weight_index count c i n 1) (entry s.avg_edgediff (c * 4 + n)))
        (weight_index count c i n 2) (entry s.avg_edgediff (c * 4 + n + 2))

  -- The sum with no running position.
  abbrev pub indexed_sum : List (MsssimScale D) → D
  indexed_sum scales =
      loop 3
        (λ c t.
          loop (length scales)
            (λ i u. loop 2 (λ n v. add_indexed (length scales) c i (scale_at scales i) n v) u) t)
        (decimal 0 0)

  -- A tally that has reached a position with a total.
  abbrev At : ℕ → Tally D → D → Type 0
  At position t v = (t.next ≡ position) × (t.total ≡ v)

  add_norms-At :
      (count c i n : ℕ) (s : MsssimScale D) (t : Tally D) (v : D)
      → At (((c * count + i) * 2 + n) * 3) t v
      → At (((c * count + i) * 2 + suc n) * 3) (add_norms c s n t) (add_indexed count c i s n v)
  unfolding add_norms
  add_norms-At count c i n s t v (e, f) =
      let e0 : t.next ≡ weight_index count c i n 0 = omega arith in
      let e1 : suc t.next ≡ weight_index count c i n 1 = omega arith in
      let e2 : suc (suc t.next) ≡ weight_index count c i n 2 = omega arith in
      (omega arith, rw (f, e2, e1, e0))

  norms_At :
      (count c i : ℕ) (s : MsssimScale D) (t : Tally D) (v : D)
      → At ((c * count + i) * 6) t v
      → At
          ((c * count + suc i) * 6)
          (loop 2 (λ n w. add_norms c s n w) t)
          (loop 2 (λ n w. add_indexed count c i s n w) v)
  norms_At count c i s t v h =
      let (e, f) =
        loop_rel (λ n. At (((c * count + i) * 2 + n) * 3)) 2 (λ n w. add_norms c s n w)
          (λ n w. add_indexed count c i s n w) t v (λ n u w lt r. add_norms-At count c i n s u w r)
          (omega arith, h.1) in
      (omega arith, f)

  scales_At :
      (scales : List (MsssimScale D)) (count c : ℕ) (t : Tally D) (v : D)
      → At (c * count * 6) t v
      → At
          ((c * count + length scales) * 6)
          (loop (length scales) (λ i u. loop 2 (λ n w. add_norms c (scale_at scales i) n w) u) t)
          (loop
            (length scales)
            (λ i u. loop 2 (λ n w. add_indexed count c i (scale_at scales i) n w) u)
            v)
  scales_At scales count c t v h =
      loop_rel (λ i. At ((c * count + i) * 6)) (length scales) _ _ t v
        (λ i u w lt r. norms_At count c i (scale_at scales i) u w r) (omega arith, h.1)

  -- The running position of `Score` is the place that `weight_index` states: the sum over S scales
  -- takes, for channel c, scale i, norm n and map k, the weight number ((c * S + i) * 2 + n) * 3 + k,
  -- and uses 18 weights for each scale.
  pub sum_scales-indexed_sum :
      (scales : List (MsssimScale D))
      → (sum_scales scales).total ≡ indexed_sum scales
        × (sum_scales scales).next ≡ 18 * length scales
  unfolding sum_scales
  sum_scales-indexed_sum scales =
      let (e, f) =
        loop_rel (λ c. At (c * length scales * 6)) 3
          (λ c t.
            loop (length scales) (λ i u. loop 2 (λ n w. add_norms c (scale_at scales i) n w) u) t)
          (λ c t.
            loop (length scales)
              (λ i u. loop 2 (λ n w. add_indexed (length scales) c i (scale_at scales i) n w) u) t)
          (record { next = 0; total = decimal 0 0 }) (decimal 0 0)
          (λ c u w lt r. next_channel c u w r) (omega arith, refl) in
      (f, omega arith)
    where
      next_channel :
          (c : ℕ) (u : Tally D) (w : D)
          → At (c * length scales * 6) u w
          → At
              (suc c * length scales * 6)
              (loop
                (length scales)
                (λ i t. loop 2 (λ n x. add_norms c (scale_at scales i) n x) t)
                u)
              (loop
                (length scales)
                (λ i t. loop 2 (λ n x. add_indexed (length scales) c i (scale_at scales i) n x) t)
                w)
      next_channel c u w r =
          let (e, f) = scales_At scales (length scales) c u w r in (omega arith, f)

-- With fewer scales the channels Y and B (1 and 2) take weights of other sub-scores than with six: a
-- sub-score has the same weight exactly if it is of channel X (0) or there are six scales.
pub weight_index_shift :
    (count c i n k : ℕ)
    → (weight_index count c i n k ≡ weight_index 6 c i n k) ↔ ((c ≡ 0) ⊎ (count ≡ 6))
weight_index_shift count zero i n k = (λ e. inl refl, λ h. omega arith)
weight_index_shift count (suc c) i n k =
    (λ e. inr (grind arith), λ h. elim h [ inl e ↦ absurd (omega arith) | inr e ↦ rw e ])
