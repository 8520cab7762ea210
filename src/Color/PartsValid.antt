-- ===== src/Color/PartsValid.antt =====
-- src/lib/jxl/color_encoding_internal.cc: the parts of a ColorEncoding that VisitFields checks.
use ssimulacra2_vulcan.Common.{
  ℕ, ◌*◌, ◌≤◌, ◌≡◌, ◌⊎◌, inl, inr, refl, Bool, true, false, not, ◌||◌, ltb, ◌==◌, Bool-cases, arith,
}
use ssimulacra2_vulcan.Fields.Visit.{done, ◌>>=◌, flag}
use ssimulacra2_vulcan.Color.ColorSpace
use ssimulacra2_vulcan.Color.WhitePoint
use ssimulacra2_vulcan.Color.Primaries
use ssimulacra2_vulcan.Color.TransferFunction
use ssimulacra2_vulcan.Color.Encoding.{
  CustomTransferFunction, ColorEncoding, has_primaries, implicit_white_point, gamma_mul, max_gamma,
}
use ssimulacra2_vulcan.Color.Visit.{
  visit_nested, visit_enum, visit_gamma, visit_function, visit_xy, visit_white,
  visit_custom_primaries, visit_primaries,
}
use ssimulacra2_vulcan.Color.Everywhere.{
  Everywhere, Everywhere-bind, Everywhere-next, Everywhere-check, Everywhere-visit_nested,
  Everywhere-visited, Everywhere-visit_enum,
}

-- A gamma in (0, 1] that is not below 1 / 8192, or a curve of the enumeration
abbrev pub IsFunction : CustomTransferFunction → Type 0
IsFunction t =
    ((t.have_gamma ≡ true) × (t.gamma ≤ gamma_mul) × (gamma_mul ≤ t.gamma * max_gamma))
    ⊎ ((t.have_gamma ≡ false) × (TransferFunction.is_valid (t.transfer_function) ≡ true))

gamma_in_range :
    (v : ℕ) → Everywhere (λ g. (g ≤ gamma_mul) × (gamma_mul ≤ g * max_gamma)) (visit_gamma v)
unfolding Everywhere visit_gamma ◌>>=◌
gamma_in_range v = λ g.
    Everywhere-check (λ g. (g ≤ gamma_mul) × (gamma_mul ≤ g * max_gamma))
      (not (ltb gamma_mul g || ltb (g * max_gamma) gamma_mul)) (done g)
      (λ h. (ground arith, ground arith))

-- The bundle with another function
abbrev function_of : CustomTransferFunction → Bool → ℕ → ℕ → CustomTransferFunction
function_of h have gamma tf = record h { have_gamma = have; gamma = gamma; transfer_function = tf }

pub read_curve-IsFunction : (h : CustomTransferFunction) → Everywhere IsFunction (visit_function h)
unfolding visit_function Everywhere
read_curve-IsFunction h =
    let InRange = λ (g : ℕ). (g ≤ gamma_mul) × (gamma_mul ≤ g * max_gamma) in
    let IsMember = λ (tf : ℕ). TransferFunction.is_valid tf ≡ true in
    let visit = visit_enum TransferFunction.is_valid TransferFunction.srgb in
    Everywhere-next IsFunction (flag false (h.have_gamma)) _ (λ have.
      Everywhere-bind (λ g. have ≡ true → InRange g) IsFunction
        (visit_nested have visit_gamma (h.gamma)) _
        (Everywhere-visited InRange have visit_gamma (h.gamma) (gamma_in_range (h.gamma)))
        (λ g fine.
          Everywhere-bind (λ tf. not have ≡ true → IsMember tf) IsFunction
            (visit_nested (not have) visit (h.transfer_function)) _
            (Everywhere-visited IsMember (not have) visit (h.transfer_function) (
              Everywhere-visit_enum TransferFunction.is_valid TransferFunction.srgb
                (h.transfer_function)))
            (λ tf valid. last have g tf fine valid)))
  where
    last :
        (have : Bool) (g tf : ℕ)
        → (have ≡ true → (g ≤ gamma_mul) × (gamma_mul ≤ g * max_gamma))
        → (not have ≡ true → TransferFunction.is_valid tf ≡ true)
        → IsFunction (function_of h have g tf)
    last true g tf fine valid = let (low, high) = fine refl in inl (refl, low, high)
    last false g tf fine valid = inr (refl, valid refl)

-- The color space, want_icc and the function stay what they were.
abbrev Keeps : ColorEncoding → ColorEncoding → Type 0
Keeps h c = (c.color_space ≡ h.color_space) × (c.want_icc ≡ h.want_icc) × (c.tf ≡ h.tf)

abbrev pub IsWhite : ColorEncoding → ColorEncoding → Type 0
IsWhite h c = Keeps h c × (WhitePoint.is_valid (c.white_point) ≡ true)

read_enum-IsWhite : (h : ColorEncoding) → Everywhere (IsWhite h) (visit_white h)
unfolding Everywhere visit_white
read_enum-IsWhite h =
    Everywhere-bind (λ w. WhitePoint.is_valid w ≡ true) (IsWhite h)
      (visit_enum WhitePoint.is_valid WhitePoint.d65 (h.white_point)) _
      (Everywhere-visit_enum WhitePoint.is_valid WhitePoint.d65 (h.white_point))
      (λ w valid.
        Everywhere-next (IsWhite h) (visit_nested (w == WhitePoint.custom) visit_xy (h.white)) _
          (λ white. ((refl, refl, refl), valid)))

-- The white point, visited or implied
pub whitened-IsWhite :
    (h : ColorEncoding)
    → let (fixed, c) = implicit_white_point h in
      Everywhere (IsWhite h) (visit_nested (not fixed) visit_white c)
unfolding implicit_white_point
whitened-IsWhite h = elim (Bool-cases (h.color_space == ColorSpace.xyb)) [
  | inl xyb ↦ rw xyb (
      let c = record h { white_point = WhitePoint.d65 } in
      Everywhere-visit_nested (IsWhite h) false visit_white c (read_enum-IsWhite c)
        (λ e. ((refl, refl, refl), refl)))
  | inr other ↦ rw other (
      Everywhere-visit_nested (IsWhite h) true visit_white h (read_enum-IsWhite h)
        (λ e. absurd (ground arith)))
]

abbrev pub IsColored : ColorEncoding → ColorEncoding → Type 0
IsColored h c = IsWhite h c × (has_primaries c ≡ true → Primaries.is_valid (c.primaries) ≡ true)

custom-IsColored :
    (h : ColorEncoding) → IsColored h h → Everywhere (IsColored h) (visit_custom_primaries h)
unfolding Everywhere visit_custom_primaries
custom-IsColored h is = Everywhere-next (IsColored h) (visit_xy (h.red)) _ (λ red.
    Everywhere-next (IsColored h) (visit_xy (h.green)) _
      (λ green. Everywhere-next (IsColored h) (visit_xy (h.blue)) _ (λ blue. is)))

pub primaries-IsColored :
    (h : ColorEncoding)
    → WhitePoint.is_valid (h.white_point) ≡ true
    → Everywhere (IsColored h) (visit_primaries h)
unfolding Everywhere visit_primaries
primaries-IsColored h white =
    Everywhere-bind (λ p. Primaries.is_valid p ≡ true) (IsColored h)
      (visit_enum Primaries.is_valid Primaries.srgb (h.primaries)) _
      (Everywhere-visit_enum Primaries.is_valid Primaries.srgb (h.primaries))
      (λ p valid.
        let c = record h { primaries = p } in
        let is : IsColored h c = (((refl, refl, refl), white), (λ e. valid)) in
        Everywhere-visit_nested (IsColored h) (p == Primaries.custom) visit_custom_primaries c
          (custom-IsColored c is) (λ e. is))
