-- ===== src/Arith/Rules.antt =====
-- What IEEE 754 documents of the operations, as far as the theorems of the metric rely on it. Each
-- rule holds of `float` and `double` in every rounding mode but towards minus infinity.
use ssimulacra2_vulcan.Common.{ℕ, ◌^◌, ◌<◌, ◌≡◌, false}
use ssimulacra2_vulcan.Arith.{Arith, Doubles, ◌⊕◌, ◌⊖◌, ◌⊗◌, ◌⊘◌, neg, abs, less, equal, decimal}

-- Finite values: `IsFinite x` says that x is neither an infinity nor a NaN. Both zeros are `equal` to
-- the positive one.
pub record FiniteRules {F : Type 0} ⦃s : Arith F⦄ (IsFinite : F → Type 0) : Type 0 where
  pub sub_self : (x : F) → IsFinite x → x ⊖ x ≡ decimal 0 0
  pub zero_mul_zero : decimal 0 0 ⊗ decimal 0 0 ≡ decimal {A = F} 0 0
  pub two_mul : (x : F) → IsFinite x → decimal 2 0 ⊗ x ≡ x ⊕ x
  pub one_mul : (x : F) → IsFinite x → decimal 1 0 ⊗ x ≡ x
  pub div_self : (x : F) → IsFinite x → equal x (decimal 0 0) ≡ false → x ⊘ x ≡ decimal 1 0

-- The zeros of `double`, of which `neg (decimal 0 0)` is the negative one. A literal of less than 2 ^ 64
-- units is finite.
pub record ZeroRules (D : Type 0) ⦃d : Arith D⦄ : Type 0 where
  pub add_zero : decimal 0 0 ⊕ decimal 0 0 ≡ decimal {A = D} 0 0
  pub add-neg_zero : decimal 0 0 ⊕ neg (decimal 0 0) ≡ decimal {A = D} 0 0
  pub sub_zero : decimal 0 0 ⊖ decimal 0 0 ≡ decimal {A = D} 0 0
  pub mul_zero : (m k : ℕ) → m < 2 ^ 64 → decimal m k ⊗ decimal 0 0 ≡ decimal {A = D} 0 0
  pub zero_mul : (m k : ℕ) → m < 2 ^ 64 → decimal 0 0 ⊗ decimal m k ≡ decimal {A = D} 0 0
  pub neg_mul-neg : neg (decimal 0 0) ⊗ neg (decimal 0 0) ≡ decimal {A = D} 0 0
  pub reciprocal_mul :
      (n : ℕ) → 0 < n → (decimal 1 0 ⊘ decimal n 0) ⊗ decimal 0 0 ≡ decimal {A = D} 0 0
  pub less-zero : less (decimal 0 0) (decimal {A = D} 0 0) ≡ false
  pub less-neg_zero : less (neg (decimal 0 0)) (decimal {A = D} 0 0) ≡ false
  pub abs-zero : abs (decimal 0 0) ≡ decimal {A = D} 0 0

module _ {F D : Type 0} ⦃s : Arith F⦄ ⦃d : Arith D⦄ where
  -- The conversions at 0 and 1, and division of a finite value of at least 1 by itself.
  pub record DoubleRules (c : Doubles F D) (IsFinite : F → Type 0) : Type 0 where
    pub sqrt-zero : c.sqrt (decimal 0 0) ≡ decimal 0 0
    pub widen-zero : c.widen (decimal 0 0) ≡ decimal 0 0
    pub widen-one : c.widen (decimal 1 0) ≡ decimal 1 0
    pub narrow-one : c.narrow (decimal 1 0) ≡ decimal 1 0
    pub one_sub-zero : decimal 1 0 ⊖ decimal 0 0 ≡ decimal {A = D} 1 0
    pub one_sub-one : decimal 1 0 ⊖ decimal 1 0 ≡ decimal {A = D} 0 0
    pub one_add_div_self :
        (x : F)
        → IsFinite x
        → (decimal 1 0 ⊕ c.widen (abs x)) ⊘ (decimal 1 0 ⊕ c.widen (abs x)) ≡ decimal 1 0
