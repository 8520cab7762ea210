-- ===== src/Color/Tags.antt =====
-- src/lib/jxl/color_management.cc: the header and the tags of an ICC profile.
use ssimulacra2_vulcan.Common.{
  ℕ, zero, suc, ◌+◌, ◌-◌, ◌*◌, ◌%◌, ◌&&◌, Option, some, List, [], ◌∷◌, ◌++◌, length, ◌==◌,
  if◌then◌else◌, ◌>>=◌, ◌>>◌, guard, Bytes, codes,
}
use ssimulacra2_vulcan.Arith.{Arith, ◌⊕◌, ◌⊗◌, neg, decimal}
use ssimulacra2_vulcan.Color.Bytes.{resize_bytes, write_icc_uint32, write_icc_uint16, write_icc_tag}
use ssimulacra2_vulcan.Color.Encoding.{Cmath, at_most, ColorEncoding, is_gray}

unfoldable pub create_icc_header : ColorEncoding → Bytes
unfolding resize_bytes write_icc_uint32 write_icc_uint16 write_icc_tag
create_icc_header c =
    let h = resize_bytes 128 [] in
    let h = write_icc_uint32 0 0 h in
    let h = write_icc_tag (codes "jxl ") 4 h in
    let h = write_icc_uint32 70254592 8 h in
    let h = write_icc_tag (codes "mntr") 12 h in
    let h = write_icc_tag (if is_gray c then codes "GRAY" else codes "RGB ") 16 h in
    let h = write_icc_tag (codes "XYZ ") 20 h in
    let h = write_icc_uint16 2019 24 h in
    let h = write_icc_uint16 12 26 h in
    let h = write_icc_uint16 1 28 h in
    let h = write_icc_uint16 0 30 h in
    let h = write_icc_uint16 0 32 h in
    let h = write_icc_uint16 0 34 h in
    let h = write_icc_tag (codes "acsp") 36 h in
    let h = write_icc_tag (codes "APPL") 40 h in
    let h = write_icc_uint32 0 44 h in
    let h = write_icc_uint32 0 48 h in
    let h = write_icc_uint32 0 52 h in
    let h = write_icc_uint32 0 56 h in
    let h = write_icc_uint32 0 60 h in
    let h = write_icc_uint32 (c.rendering_intent) 64 h in
    let h = write_icc_uint32 63190 68 h in
    let h = write_icc_uint32 65536 72 h in
    let h = write_icc_uint32 54061 76 h in write_icc_tag (codes "jxl ") 80 h

-- A write at the end: pos is the size.
abbrev pub add_uint32 : ℕ → Bytes → Bytes
add_uint32 v tags = write_icc_uint32 v (length tags) tags

abbrev pub add_uint16 : ℕ → Bytes → Bytes
add_uint16 v tags = write_icc_uint16 v (length tags) tags

abbrev pub add_name : Bytes → Bytes → Bytes
add_name name tags = write_icc_tag name (length tags) tags

-- The members of the writer: the bytes of the tags, tag_offset and tag_size, the tag table, and the offsets.
pub record Tags : Type 0 where
  pub bytes : Bytes
  pub offset : ℕ
  pub size : ℕ
  pub table : Bytes
  pub offsets : List ℕ

unfoldable pub add_to_icc_tag_table : Bytes → Tags → Tags
unfolding write_icc_uint32 write_icc_tag
add_to_icc_tag_table tag t = record t {
  table = add_uint32 (t.size) (add_uint32 0 (add_name tag (t.table)));
  offsets = t.offsets ++ t.offset ∷ [];
}

-- At most three zeros are added.
unfoldable pub pad_to_four : ℕ → Bytes → Bytes
pad_to_four zero tags = tags
pad_to_four (suc fuel) tags =
    let longer = pad_to_four fuel (tags ++ 0 ∷ []) in if length tags % 4 == 0 then tags else longer

unfoldable pub finalize_icc_tag : Tags → Tags
unfolding pad_to_four
finalize_icc_tag t =
    let tags = pad_to_four 3 (t.bytes) in
    let offset = t.offset + t.size in
    record t { bytes = tags; offset = offset; size = length tags - offset }

unfoldable pub utf16 : Bytes → Bytes
utf16 [] = []
utf16 (x ∷ text) = 0 ∷ x ∷ utf16 text

unfoldable pub create_icc_mluc_tag : Bytes → Bytes → Bytes
unfolding utf16
create_icc_mluc_tag text tags =
    let t = add_name (codes "mluc") tags in
    let t = add_uint32 0 t in
    let t = add_uint32 1 t in
    let t = add_uint32 12 t in
    let t = add_name (codes "enUS") t in
    let t = add_uint32 (length text * 2) t in let t = add_uint32 28 t in t ++ utf16 text

unfoldable pub add_curve : List ℕ → Bytes → Bytes
add_curve [] tags = tags
add_curve (v ∷ curve) tags = add_curve curve (add_uint16 v tags)

-- CreateICCCurvCurvTag: the numbers of the tag, one behind the other.
unfoldable pub create_icc_curv_tag : List ℕ → Bytes → Bytes
unfolding add_curve
create_icc_curv_tag curve tags =
    let t = add_name (codes "curv") tags in
    let t = add_uint32 0 t in let t = add_uint32 (length curve) t in add_curve curve t

module _ {F D : Type 0} ⦃f : Arith F⦄ (lib : Cmath F D) where
  unfoldable pub write_icc_s15_fixed16 : F → ℕ → Bytes → Option Bytes
  write_icc_s15_fixed16 value pos icc = do
    guard (at_most (neg (decimal 32767995 3)) value && at_most value (decimal 32767995 3))
    some (write_icc_uint32 (lib.to_int32 (value ⊗ decimal 655360 1 ⊕ decimal 5 1)) pos icc)

  unfoldable pub add_fixed : List F → Bytes → Option Bytes
  unfolding write_icc_s15_fixed16
  add_fixed [] tags = some tags
  add_fixed (v ∷ vs) tags = do
    longer ← write_icc_s15_fixed16 v (length tags) tags
    add_fixed vs longer

  unfoldable pub create_icc_xyz_tag : List F → Bytes → Option Bytes
  unfolding add_fixed
  create_icc_xyz_tag xyz tags = add_fixed xyz (add_uint32 0 (add_name (codes "XYZ ") tags))

  unfoldable pub create_icc_chad_tag : List F → Bytes → Option Bytes
  unfolding add_fixed
  create_icc_chad_tag chad tags = add_fixed chad (add_uint32 0 (add_name (codes "sf32") tags))

  unfoldable pub create_icc_para_tag : List F → ℕ → Bytes → Option Bytes
  unfolding add_fixed
  create_icc_para_tag params curve_type tags =
      add_fixed params
        (add_uint16 0 (add_uint16 curve_type (add_uint32 0 (add_name (codes "para") tags))))
