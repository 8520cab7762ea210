-- ===== src/Arith.antt =====
-- Floating-point arithmetic, as the metric uses it: the operations that `float` and `double` each
-- have, and the conversions between the two. The types and operations are the compiler's, so they
-- are parameters; `Arith/Rules.antt` names what IEEE 754 documents of them.
pub mod Rules
pub mod Counting
pub mod Signed
use ssimulacra2_vulcan.Common.{ℕ, Bool, if◌then◌else◌}

-- `decimal m k` is the value of the literal m * 10^-k, and of an integer m that is converted (k = 0).
-- `less` is the operator `<`, `equal` is `==`, and `neg` changes the sign.
pub record Arith (A : Type 0) : Type 0 where
  pub add : A → A → A
  pub sub : A → A → A
  pub mul : A → A → A
  pub div : A → A → A
  pub neg : A → A
  pub abs : A → A
  pub less : A → A → Bool
  pub equal : A → A → Bool
  pub decimal : ℕ → ℕ → A

infixl 65 ◌⊕◌ ◌⊖◌
infixl 70 ◌⊗◌ ◌⊘◌
abbrev pub ◌⊕◌ : {A : Type 0} ⦃a : Arith A⦄ → A → A → A
◌⊕◌ ⦃a⦄ = a.add

abbrev pub ◌⊖◌ : {A : Type 0} ⦃a : Arith A⦄ → A → A → A
◌⊖◌ ⦃a⦄ = a.sub

abbrev pub ◌⊗◌ : {A : Type 0} ⦃a : Arith A⦄ → A → A → A
◌⊗◌ ⦃a⦄ = a.mul

abbrev pub ◌⊘◌ : {A : Type 0} ⦃a : Arith A⦄ → A → A → A
◌⊘◌ ⦃a⦄ = a.div

abbrev pub neg : {A : Type 0} ⦃a : Arith A⦄ → A → A
neg ⦃a⦄ = a.neg

abbrev pub abs : {A : Type 0} ⦃a : Arith A⦄ → A → A
abs ⦃a⦄ = a.abs

abbrev pub less : {A : Type 0} ⦃a : Arith A⦄ → A → A → Bool
less ⦃a⦄ = a.less

abbrev pub equal : {A : Type 0} ⦃a : Arith A⦄ → A → A → Bool
equal ⦃a⦄ = a.equal

abbrev pub decimal : {A : Type 0} ⦃a : Arith A⦄ → ℕ → ℕ → A
decimal ⦃a⦄ = a.decimal

-- `std::max` and `std::min`, which keep their first argument unless the test holds.
abbrev pub larger : {A : Type 0} ⦃a : Arith A⦄ → A → A → A
larger x y = if less x y then y else x

abbrev pub smaller : {A : Type 0} ⦃a : Arith A⦄ → A → A → A
smaller x y = if less y x then y else x

-- The conversions between `float` and `double`, and the `double` functions of <cmath>.
pub record Doubles (F D : Type 0) : Type 0 where
  pub widen : F → D
  pub narrow : D → F
  pub sqrt : D → D
  pub pow : D → D → D
