-- ===== src/Color/Grows.antt =====
-- src/lib/jxl/color_management.cc: a function that creates a tag appends to the tags, and never makes them fewer.
use ssimulacra2_vulcan.Common.{
  ℕ, ◌*◌, ◌≤◌, ◌≡◌, Bool, true, false, ◌&&◌, Option, none, some, List, [], ◌∷◌, length,
  length-append, ◌==◌, if◌then◌else◌, Bytes, codes, arith, some-eq, bind-eq-some, guard,
}
use ssimulacra2_vulcan.Arith.{Arith, Doubles, neg, decimal, ◌⊗◌, ◌⊘◌, ◌⊕◌}
use ssimulacra2_vulcan.Color.Bytes.{
  put_grown_grows, write_icc_uint32, write_icc_uint16, write_icc_tag, bytes32, bytes16,
}
use ssimulacra2_vulcan.Color.TransferFunction
use ssimulacra2_vulcan.Color.Encoding.{Cmath, at_most, CustomTransferFunction, get_gamma}
use ssimulacra2_vulcan.Color.Curves.{create_table_curve}
use ssimulacra2_vulcan.Color.Tags.{
  add_uint32, add_uint16, add_name, utf16, create_icc_mluc_tag, add_curve, create_icc_curv_tag,
  write_icc_s15_fixed16, add_fixed, create_icc_xyz_tag, create_icc_chad_tag, create_icc_para_tag,
}
use ssimulacra2_vulcan.Color.Profile.{
  curve_tag, gamma_tag, table_tag, pure_power, srgb_curve, bt709_curve,
}

pub trans_le : (a b c : ℕ) → a ≤ b → b ≤ c → a ≤ c
trans_le a b c h k = omega (arith, h, k)

add_uint32_grows : (v : ℕ) (tags : Bytes) → length tags ≤ length (add_uint32 v tags)
unfolding write_icc_uint32
add_uint32_grows v tags = put_grown_grows (length tags) (bytes32 v) tags

add_uint16_grows : (v : ℕ) (tags : Bytes) → length tags ≤ length (add_uint16 v tags)
unfolding write_icc_uint16
add_uint16_grows v tags = put_grown_grows (length tags) (bytes16 v) tags

add_name_grows : (name tags : Bytes) → length tags ≤ length (add_name name tags)
unfolding write_icc_tag
add_name_grows name tags = put_grown_grows (length tags) name tags

-- The first two writes of each tag
started : (name tags : Bytes) → length tags ≤ length (add_uint32 0 (add_name name tags))
started name tags =
    trans_le (length tags) (length (add_name name tags)) _ (add_name_grows name tags)
      (add_uint32_grows 0 (add_name name tags))

pub create_icc_mluc_tag_grows :
    (text tags : Bytes) → length tags ≤ length (create_icc_mluc_tag text tags)
unfolding create_icc_mluc_tag
create_icc_mluc_tag_grows text tags =
    let t0 = add_uint32 0 (add_name (codes "mluc") tags) in
    let t1 = add_uint32 1 t0 in
    let t2 = add_uint32 12 t1 in
    let t3 = add_name (codes "enUS") t2 in
    let t4 = add_uint32 (length text * 2) t3 in
    let t5 = add_uint32 28 t4 in
    omega (
      arith,
      started (codes "mluc") tags,
      add_uint32_grows 1 t0,
      add_uint32_grows 12 t1,
      add_name_grows (codes "enUS") t2,
      add_uint32_grows (length text * 2) t3,
      add_uint32_grows 28 t4,
      length-append t5 (utf16 text),
    )

add_curve_grows : (curve : List ℕ) (tags : Bytes) → length tags ≤ length (add_curve curve tags)
unfolding add_curve
add_curve_grows [] tags = omega arith
add_curve_grows (v ∷ curve) tags =
    trans_le (length tags) (length (add_uint16 v tags)) _ (add_uint16_grows v tags)
      (add_curve_grows curve (add_uint16 v tags))

create_icc_curv_tag_grows :
    (curve : List ℕ) (tags : Bytes) → length tags ≤ length (create_icc_curv_tag curve tags)
unfolding create_icc_curv_tag
create_icc_curv_tag_grows curve tags =
    let t0 = add_uint32 0 (add_name (codes "curv") tags) in
    let t1 = add_uint32 (length curve) t0 in
    omega (
      arith,
      started (codes "curv") tags,
      add_uint32_grows (length curve) t0,
      add_curve_grows curve t1,
    )

-- What is made is at least as long as the tags before.
abbrev pub Grows : Bytes → Option Bytes → Type 0
Grows tags result = (made : Bytes) → result ≡ some made → length tags ≤ length made

module _ {F D : Type 0} ⦃f : Arith F⦄ (lib : Cmath F D) where
  add_fixed_grows :
      (vs : List F) (tags made : Bytes)
      → add_fixed lib vs tags ≡ some made
      → length tags ≤ length made
  unfolding add_fixed write_icc_s15_fixed16
  add_fixed_grows [] tags made e = let same : tags ≡ made = some-eq e in rw same (omega arith)
  add_fixed_grows (v ∷ vs) tags made e =
      let (longer, w, e') = bind-eq-some (write_icc_s15_fixed16 lib v (length tags) tags) _ e in
      let (u, g, w') =
        bind-eq-some
          (guard (at_most (neg (decimal 32767995 3)) v && at_most v (decimal 32767995 3))) _ w in
      let bits = lib.to_int32 (v ⊗ decimal 655360 1 ⊕ decimal 5 1) in
      let same : add_uint32 bits tags ≡ longer = some-eq w' in
      trans_le (length tags) (length longer) (length made)
        (rw (← same) (add_uint32_grows bits tags)) (add_fixed_grows vs longer made e')

  pub create_icc_xyz_tag_grows :
      (xyz : List F) (tags made : Bytes)
      → create_icc_xyz_tag lib xyz tags ≡ some made
      → length tags ≤ length made
  unfolding create_icc_xyz_tag
  create_icc_xyz_tag_grows xyz tags made e =
      trans_le (length tags) _ (length made) (started (codes "XYZ ") tags)
        (add_fixed_grows xyz (add_uint32 0 (add_name (codes "XYZ ") tags)) made e)

  pub create_icc_chad_tag_grows :
      (chad : List F) (tags made : Bytes)
      → create_icc_chad_tag lib chad tags ≡ some made
      → length tags ≤ length made
  unfolding create_icc_chad_tag
  create_icc_chad_tag_grows chad tags made e =
      trans_le (length tags) _ (length made) (started (codes "sf32") tags)
        (add_fixed_grows chad (add_uint32 0 (add_name (codes "sf32") tags)) made e)

  create_icc_para_tag_grows :
      (params : List F) (type : ℕ) (tags made : Bytes)
      → create_icc_para_tag lib params type tags ≡ some made
      → length tags ≤ length made
  unfolding create_icc_para_tag
  create_icc_para_tag_grows params type tags made e =
      let t0 = add_uint32 0 (add_name (codes "para") tags) in
      let t1 = add_uint16 type t0 in
      let t2 = add_uint16 0 t1 in
      omega (
        arith,
        started (codes "para") tags,
        add_uint16_grows type t0,
        add_uint16_grows 0 t1,
        add_fixed_grows params t2 made e,
      )

module _ {F D : Type 0} ⦃f : Arith F⦄ ⦃d : Arith D⦄ (conv : Doubles F D) (lib : Cmath F D) where
  gamma_tag_grows :
      (tf : CustomTransferFunction) (tags made : Bytes)
      → gamma_tag conv lib tf tags ≡ some made
      → length tags ≤ length made
  unfolding gamma_tag
  gamma_tag_grows tf tags made e =
      let (g, h, e') = bind-eq-some (get_gamma tf) _ e in
      create_icc_para_tag_grows lib (pure_power conv lib (conv.narrow (decimal 10 1 ⊘ g))) 3 tags
        made e'

  table_tag_grows :
      (hlg : Bool) (tags made : Bytes)
      → table_tag conv lib hlg tags ≡ some made
      → length tags ≤ length made
  unfolding table_tag
  table_tag_grows hlg tags made e =
      let (curve, h, e') = bind-eq-some (create_table_curve conv lib 4096 hlg) _ e in
      let same : create_icc_curv_tag curve tags ≡ made = some-eq e' in
      rw (← same) (create_icc_curv_tag_grows curve tags)

  none-Grows : (tags : Bytes) → Grows tags none
  none-Grows tags made e = absurd (ground arith)

  -- A choice grows the tags if both ways do.
  if-Grows :
      (tags : Bytes) (b : Bool) (x y : Option Bytes)
      → Grows tags x
      → Grows tags y
      → Grows tags (if b then x else y)
  if-Grows tags true x y h k = h
  if-Grows tags false x y h k = k

  pub curve_tag-Grows :
      (tf : CustomTransferFunction) (tags : Bytes) → Grows tags (curve_tag conv lib tf tags)
  unfolding curve_tag
  curve_tag-Grows tf tags =
      let type = tf.transfer_function in
      let para : (vs : List F) → Grows tags (create_icc_para_tag lib vs 3 tags) =
        λ vs. create_icc_para_tag_grows lib vs 3 tags in
      if-Grows tags (tf.have_gamma) _ _ (gamma_tag_grows tf tags) (
        if-Grows tags (type == TransferFunction.hlg) _ _ (table_tag_grows true tags) (
          if-Grows tags (type == TransferFunction.pq) _ _ (table_tag_grows false tags) (
            if-Grows tags (type == TransferFunction.srgb) _ _ (para (srgb_curve conv lib)) (
              if-Grows tags (type == TransferFunction.bt709) _ _ (para (bt709_curve conv lib)) (
                if-Grows tags (type == TransferFunction.linear) _ _
                  (para (pure_power conv lib (decimal 10 1)))
                  (if-Grows tags (type == TransferFunction.dci) _ _
                    (para (pure_power conv lib (conv.narrow (decimal 26 1))))
                    (none-Grows tags)))))))
