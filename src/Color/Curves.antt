-- ===== src/Color/Curves.antt =====
-- src/lib/jxl/color_management.cc: CreateTableCurve, with DisplayFromEncoded of TF_HLG and TF_PQ in
-- src/lib/jxl/transfer_functions-inl.h.
use ssimulacra2_vulcan.Common.{
  ℕ, zero, suc, ◌-◌, ◌%◌, ◌^◌, Bool, Option, some, List, [], ◌∷◌, ◌++◌, leb, if◌then◌else◌, ◌>>=◌,
  ◌>>◌, guard,
}
use ssimulacra2_vulcan.Arith.{Arith, Doubles, ◌⊕◌, ◌⊖◌, ◌⊗◌, ◌⊘◌, abs, less, equal, decimal, larger}
use ssimulacra2_vulcan.Color.Encoding.{Cmath, at_most}

module _ {F D : Type 0} ⦃f : Arith F⦄ ⦃d : Arith D⦄ (conv : Doubles F D) (lib : Cmath F D) where
  open conv use {widen, narrow, pow}
  open lib use {roundf, to_int32, exp, copysignf}

  -- A magnitude with the sign of a number
  abbrev signed : D → D → D
  signed magnitude sign = widen (copysignf (narrow magnitude) (narrow sign))

  abbrev hlg_a : D
  hlg_a = decimal 17883277 8

  abbrev hlg_c : D
  hlg_c = decimal 5599107295 10

  -- TF_HLG::InvOETF; none where the assertion fails.
  unfoldable pub hlg_inv_oetf : D → Option D
  hlg_inv_oetf e =
      let s =
        (exp ((abs e ⊖ hlg_c) ⊗ (decimal 10 1 ⊘ hlg_a)) ⊕ (decimal 1 0 ⊖ decimal 4 0 ⊗ hlg_a))
        ⊗ (decimal 10 1 ⊘ decimal 12 0) in
      if equal e (decimal 0 1)
      then some (decimal 0 1)
      else if at_most (abs e) (decimal 5 1)
      then some (signed (abs e ⊗ abs e ⊗ (decimal 10 1 ⊘ decimal 3 0)) e)
      else guard (at_most (decimal 0 0) s) >> some (signed s e)

  -- TF_HLG::DisplayFromEncoded, where OOTF returns its argument
  abbrev pub hlg_display_from_encoded : D → Option D
  hlg_display_from_encoded e = hlg_inv_oetf e

  -- TF_PQ::DisplayFromEncoded
  unfoldable pub pq_display_from_encoded : D → D
  pq_display_from_encoded e =
      let m1 = decimal 26100 1 ⊘ decimal 16384 0 in
      let m2 = decimal 25230 1 ⊘ decimal 4096 0 ⊗ decimal 128 0 in
      let c1 = decimal 34240 1 ⊘ decimal 4096 0 in
      let c2 = decimal 24130 1 ⊘ decimal 4096 0 ⊗ decimal 32 0 in
      let c3 = decimal 23920 1 ⊘ decimal 4096 0 ⊗ decimal 32 0 in
      let xp = pow (abs e) (decimal 10 1 ⊘ m2) in
      let num = larger (xp ⊖ c1) (decimal 0 1) in
      let den = c2 ⊖ c3 ⊗ xp in
      if equal e (decimal 0 1) then decimal 0 1 else signed (pow (num ⊘ den) (decimal 10 1 ⊘ m1)) e

  -- An entry of the table: y in [0, 1] as 16 bits; none where the assertion fails.
  unfoldable pub table_entry : D → Option ℕ
  table_entry y = do
    guard (at_most (decimal 0 1) y)
    let clamped = if less (decimal 10 1) y then decimal 10 1 else y
    some (to_int32 (roundf (narrow (clamped ⊗ decimal 655350 1))) % 2 ^ 16)

  -- The entries below i, of a table of n
  unfoldable pub table_entries : (D → Option D) → ℕ → ℕ → Option (List ℕ)
  unfolding table_entry
  table_entries curve n zero = some []
  table_entries curve n (suc i) = do
    before ← table_entries curve n i
    let x : F = decimal i 0 ⊘ decimal (n - 1) 0
    y ← curve (widen x)
    entry ← table_entry y
    some (before ++ entry ∷ [])

  -- CreateTableCurve: HLG if the Boolean is set, and PQ otherwise.
  unfoldable pub create_table_curve : ℕ → Bool → Option (List ℕ)
  unfolding table_entries hlg_inv_oetf pq_display_from_encoded
  create_table_curve n hlg = do
    guard (leb n 4096)
    table_entries
        (λ e. if hlg then hlg_display_from_encoded e else some (pq_display_from_encoded e)) n n
