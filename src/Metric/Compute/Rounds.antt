-- ===== src/Metric/Compute/Rounds.antt =====
-- What a round of the loop over the scales has done, read off its result.
use ssimulacra2_vulcan.Common.{
  ℕ, zero, suc, ◌+◌, ◌≤◌, ◌≡◌, ◌*◌, false, some, List, [], ◌∷◌, length, ◌==◌, arith, if◌then◌else◌,
  bind-eq-some, Bool-cases, inl, inr, ◌⊎◌, some-eq, sym,
}
use ssimulacra2_vulcan.Arith.{Arith, Doubles}
use ssimulacra2_vulcan.Image.{ImageBundle}
use ssimulacra2_vulcan.Metric.Score.{MsssimScale, sum_scales}
use ssimulacra2_vulcan.Metric.Score.Weights.{weight}
use ssimulacra2_vulcan.Metric.Score.Order.{sum_scales-indexed_sum}
use ssimulacra2_vulcan.Metric.Compute.{
  Library, Variables, Blurred, next_scale, shrink_buffers, blur_all, measure, scales_from,
  compute_ssimulacra2, is_too_small, start,
}

module _ {F D : Type 0} ⦃s : Arith F⦄ ⦃d : Arith D⦄ (c : Doubles F D) (lib : Library F) where
  -- The steps of a round that adds a scale.
  pub record Round (n scale : ℕ) (v : Variables F) (scales : List (MsssimScale D)) : Type 0 where
    pub halved : Variables F
    pub ready : Variables F
    pub blurred : Blurred F
    pub rest : List (MsssimScale D)
    pub is_big : is_too_small v.img1 ≡ false
    pub halves : (if scale == 0 then some v else next_scale lib v) ≡ some halved
    pub shrinks : shrink_buffers halved ≡ some ready
    pub blurs : blur_all lib ready ≡ some blurred
    pub goes_on : scales_from c lib n (scale + 1) ready ≡ some rest
    pub adds : scales ≡ measure c ready blurred ∷ rest

  -- A round stops the loop, or takes its steps.
  pub scales_from_cases :
      (n scale : ℕ) (v : Variables F) (scales : List (MsssimScale D))
      → scales_from c lib (suc n) scale v ≡ some scales
      → (scales ≡ []) ⊎ Round n scale v scales
  unfolding scales_from
  scales_from_cases n scale v scales e = elim (Bool-cases (is_too_small v.img1)) [
    | inl small ↦ inl (ground arith)
    | inr big ↦
        let (u, eu, e1) = bind-eq-some _ _ (rw (big, scales_from) at e) in
        let (w, ew, e2) = bind-eq-some _ _ e1 in
        let (b, eb, e3) = bind-eq-some _ _ e2 in
        let (rest, er, e4) = bind-eq-some _ _ e3 in
        inr (record {
          halved = u;
          ready = w;
          blurred = b;
          rest = rest;
          is_big = big;
          halves = eu;
          shrinks = ew;
          blurs = eb;
          goes_on = er;
          adds = some-eq (sym e4);
        })
  ]

  length-scales_from :
      (n scale : ℕ) (v : Variables F) (scales : List (MsssimScale D))
      → scales_from c lib n scale v ≡ some scales
      → length scales ≤ n
  length-scales_from zero scale v scales e = unfold scales_from in ground arith
  length-scales_from (suc n) scale v scales e = elim (scales_from_cases n scale v scales e) [
    | inl none_left ↦ rw none_left (omega arith)
    | inr r ↦ rw r.adds (omega (arith, length-scales_from n (scale + 1) r.ready r.rest r.goes_on))
  ]

  -- There are six scales at most, whatever the images.
  pub length-compute_ssimulacra2 :
      (orig dist : ImageBundle F) (bg : F) (scales : List (MsssimScale D))
      → compute_ssimulacra2 c lib orig dist bg ≡ some scales
      → length scales ≤ 6
  unfolding compute_ssimulacra2
  length-compute_ssimulacra2 orig dist bg scales e =
      let (v, ev, es) = bind-eq-some (start lib orig dist bg) (λ v. scales_from c lib 6 0 v) e in
      length-scales_from 6 0 v scales es

  -- Score reads 18 weights for each scale, and never past the end of the table.
  pub weights_in_bounds :
      (orig dist : ImageBundle F) (bg : F) (scales : List (MsssimScale D))
      → compute_ssimulacra2 c lib orig dist bg ≡ some scales
      → ((sum_scales scales).next ≡ 18 * length scales) × ((sum_scales scales).next ≤ length weight)
  unfolding weight
  weights_in_bounds orig dist bg scales e =
      let (_, reads) = sum_scales-indexed_sum scales in
      let most = length-compute_ssimulacra2 orig dist bg scales e in (reads, omega arith)
