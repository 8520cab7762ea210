-- ===== src/Color/Profile.antt =====
-- src/lib/jxl/color_management.cc: MaybeCreateProfile. CreateICC of src/lib/jxl/color_encoding_internal.cc.
use ssimulacra2_vulcan.Common.{
  ℕ, suc, ◌+◌, ◌*◌, Bool, true, false, not, ◌||◌, Option, none, some, List, [], ◌∷◌, ◌++◌, length,
  ltb, ◌==◌, if◌then◌else◌, ◌>>=◌, ◌>>◌, guard, Bytes, codes, ◌≡◌, bind-eq-some, some-eq,
}
use ssimulacra2_vulcan.Arith.{Arith, Doubles, ◌⊘◌, equal, decimal}
use ssimulacra2_vulcan.Color.ColorSpace
use ssimulacra2_vulcan.Color.TransferFunction
use ssimulacra2_vulcan.Color.Bytes.{put, write_icc_uint32}
use ssimulacra2_vulcan.Color.Md5.{icc_compute_md5}
use ssimulacra2_vulcan.Color.Encoding.{
  Cmath, CieXy, PrimariesCieXy, CustomTransferFunction, ColorEncoding, is_unknown, is_gray,
  get_gamma, get_white_point, get_primaries,
}
use ssimulacra2_vulcan.Color.Matrices.{
  cell_at, adapt_to_xyz_d50, primaries_to_xyz_d50, ciexyz_from_white,
}
use ssimulacra2_vulcan.Color.Curves.{create_table_curve}
use ssimulacra2_vulcan.Color.Names.{description}
use ssimulacra2_vulcan.Color.Tags.{
  create_icc_header, add_uint32, Tags, add_to_icc_tag_table, finalize_icc_tag, create_icc_mluc_tag,
  create_icc_curv_tag, create_icc_xyz_tag, create_icc_chad_tag, create_icc_para_tag,
}

abbrev pub no_tags : Tags
no_tags = record { bytes = []; offset = 0; size = 0; table = add_uint32 0 []; offsets = [] }

unfoldable pub add_names : List Bytes → Tags → Tags
unfolding add_to_icc_tag_table
add_names [] t = t
add_names (name ∷ names) t = add_names names (add_to_icc_tag_table name t)

-- The bytes with a new tag at their end, which gets the names.
unfoldable pub add_tag : List Bytes → Bytes → Tags → Tags
unfolding add_names finalize_icc_tag
add_tag names bytes t = add_names names (finalize_icc_tag (record t { bytes = bytes }))

-- The offsets of the tags, from entry i on
unfoldable pub write_offsets : ℕ → ℕ → List ℕ → Bytes → Bytes
write_offsets base i [] table = table
write_offsets base i (offset ∷ offsets) table =
    write_offsets base (suc i) offsets (write_icc_uint32 (offset + base) (4 + 12 * i + 4) table)

-- The MD5 sum of the profile without its flags and its intent goes to byte 84.
unfoldable pub write_profile_id : Bytes → Bytes
unfolding put icc_compute_md5
write_profile_id icc =
    let zeros = 0 ∷ 0 ∷ 0 ∷ 0 ∷ [] in
    let icc_sum = if ltb (length icc) (64 + 4) then icc else put 64 zeros (put 44 zeros icc) in
    put 84 (icc_compute_md5 icc_sum) icc

-- The table with the tag count and the offsets
unfoldable pub final_table : ℕ → Tags → Bytes
unfolding write_offsets write_icc_uint32
final_table header_size t =
    write_offsets (header_size + length (t.table)) 0 (t.offsets)
      (write_icc_uint32 (length (t.offsets)) 0 (t.table))

-- The header with the profile size, the table and the tags in one, and the profile ID
unfoldable pub assemble : Bytes → Tags → Bytes
unfolding final_table write_icc_uint32 write_profile_id
assemble header t =
    let table = final_table (length header) t in
    let size = length header + length table + length (t.bytes) in
    write_profile_id ((write_icc_uint32 size 0 header ++ table) ++ t.bytes)

abbrev pub copyright : Bytes
copyright =
    codes
      "Copyright 2019 Google LLC, CC-BY-SA 3.0 Unported license(https://creativecommons.org/licenses/by-sa/3.0/legalcode)"

module _ {F D : Type 0} ⦃f : Arith F⦄ ⦃d : Arith D⦄ (conv : Doubles F D) (lib : Cmath F D) where
  open conv use {narrow}

  -- The three floats of a white point tag
  unfoldable pub white_floats : ColorEncoding → Option (List F)
  unfolding ciexyz_from_white get_white_point
  white_floats c =
      if is_gray c
      then (get_white_point c >>= (λ w. ciexyz_from_white conv lib w))
      else some (narrow (decimal 964203 6) ∷ decimal 10 1 ∷ narrow (decimal 824905 6) ∷ [])

  -- CreateICCChadMatrix
  unfoldable pub create_icc_chad_matrix : CieXy D → Option (List F)
  unfolding adapt_to_xyz_d50
  create_icc_chad_matrix w = do
    guard (not (equal (w.y) (decimal 0 0)))
    adapt_to_xyz_d50 conv lib (narrow (w.x)) (narrow (w.y))

  -- CreateICCRGBMatrix
  unfoldable pub create_icc_rgb_matrix : PrimariesCieXy D → CieXy D → Option (List F)
  unfolding primaries_to_xyz_d50
  create_icc_rgb_matrix p w =
      primaries_to_xyz_d50 conv lib (narrow (p.r.x)) (narrow (p.r.y)) (narrow (p.g.x))
        (narrow (p.g.y)) (narrow (p.b.x)) (narrow (p.b.y)) (narrow (w.x)) (narrow (w.y))

  -- The tags of a profile that is not gray
  unfoldable pub rgb_tags : ColorEncoding → Tags → Option Tags
  unfolding create_icc_chad_matrix create_icc_rgb_matrix create_icc_chad_tag create_icc_xyz_tag
      add_tag get_white_point get_primaries
  rgb_tags c t = do
    w ← get_white_point c
    chad ← create_icc_chad_matrix w
    primaries ← get_primaries c
    m ← create_icc_rgb_matrix primaries w
    chad_bytes ← create_icc_chad_tag lib chad (t.bytes)
    let t = add_tag (codes "chad" ∷ []) chad_bytes t
    red ← create_icc_xyz_tag lib (cell_at m 0 ∷ cell_at m 3 ∷ cell_at m 6 ∷ []) (t.bytes)
    let t = add_tag (codes "rXYZ" ∷ []) red t
    green ← create_icc_xyz_tag lib (cell_at m 1 ∷ cell_at m 4 ∷ cell_at m 7 ∷ []) (t.bytes)
    let t = add_tag (codes "gXYZ" ∷ []) green t
    blue ← create_icc_xyz_tag lib (cell_at m 2 ∷ cell_at m 5 ∷ cell_at m 8 ∷ []) (t.bytes)
    some (add_tag (codes "bXYZ" ∷ []) blue t)

  -- A curve of type 3 that is a power: g, 1, 0, 1, 0
  abbrev pub pure_power : F → List F
  pure_power g = g ∷ decimal 10 1 ∷ decimal 0 1 ∷ decimal 10 1 ∷ decimal 0 1 ∷ []

  abbrev quotient : ℕ → ℕ → ℕ → ℕ → F
  quotient m k n l = narrow (decimal m k ⊘ decimal n l)

  abbrev pub srgb_curve : List F
  srgb_curve =
      narrow (decimal 24 1)
      ∷ quotient 10 1 1055 3
      ∷ quotient 55 3 1055 3
      ∷ quotient 10 1 1292 2
      ∷ narrow (decimal 4045 5)
      ∷ []

  abbrev pub bt709_curve : List F
  bt709_curve =
      quotient 10 1 45 2
      ∷ quotient 10 1 1099 3
      ∷ quotient 99 3 1099 3
      ∷ quotient 10 1 45 1
      ∷ narrow (decimal 81 3)
      ∷ []

  abbrev para : List F → Bytes → Option Bytes
  para params bytes = create_icc_para_tag lib params 3 bytes

  unfoldable pub gamma_tag : CustomTransferFunction → Bytes → Option Bytes
  unfolding get_gamma create_icc_para_tag
  gamma_tag tf bytes = do g ← get_gamma tf; para (pure_power (narrow (decimal 10 1 ⊘ g))) bytes

  unfoldable pub table_tag : Bool → Bytes → Option Bytes
  unfolding create_table_curve create_icc_curv_tag
  table_tag hlg bytes = do
    curve ← create_table_curve conv lib 4096 hlg
    some (create_icc_curv_tag curve bytes)

  -- The tag of the curve; none for JXL_ABORT.
  unfoldable pub curve_tag : CustomTransferFunction → Bytes → Option Bytes
  unfolding gamma_tag table_tag
  curve_tag tf bytes =
      if tf.have_gamma
      then gamma_tag tf bytes
      else if tf.transfer_function == TransferFunction.hlg
      then table_tag true bytes
      else if tf.transfer_function == TransferFunction.pq
      then table_tag false bytes
      else if tf.transfer_function == TransferFunction.srgb
      then para srgb_curve bytes
      else if tf.transfer_function == TransferFunction.bt709
      then para bt709_curve bytes
      else if tf.transfer_function == TransferFunction.linear
      then para (pure_power (decimal 10 1)) bytes
      else if tf.transfer_function == TransferFunction.dci
      then para (pure_power (narrow (decimal 26 1))) bytes
      else none

  -- The tags of a profile, in their order
  unfoldable pub create_tags : ColorEncoding → Option Tags
  unfolding description create_icc_mluc_tag add_tag white_floats create_icc_xyz_tag rgb_tags
      curve_tag
  create_tags c = do
    text ← description conv lib c
    let t = add_tag (codes "desc" ∷ []) (create_icc_mluc_tag text []) no_tags
    let t = add_tag (codes "cprt" ∷ []) (create_icc_mluc_tag copyright (t.bytes)) t
    white ← white_floats c
    white_bytes ← create_icc_xyz_tag lib white (t.bytes)
    let t = add_tag (codes "wtpt" ∷ []) white_bytes t
    t ← if is_gray c then some t else rgb_tags c t
    curve ← curve_tag (c.tf) (t.bytes)
    let names =
        if is_gray c then codes "kTRC" ∷ [] else codes "rTRC" ∷ codes "gTRC" ∷ codes "bTRC" ∷ []
    some (add_tag names curve t)

  unfoldable pub maybe_create_profile : ColorEncoding → Option Bytes
  unfolding create_icc_header create_tags assemble
  maybe_create_profile c = do
    guard (not (c.color_space == ColorSpace.unknown || is_unknown (c.tf)))
    guard (c.color_space == ColorSpace.rgb || c.color_space == ColorSpace.gray)
    t ← create_tags c
    some (assemble (create_icc_header c) t)

  -- CreateICC: whether it succeeds, and the encoding with its new profile, which is empty if it fails.
  unfoldable pub create_icc : ColorEncoding → Bool × ColorEncoding
  unfolding maybe_create_profile
  create_icc c = elim (maybe_create_profile (record c { icc = [] })) [
    | none ↦ (false, record c { icc = [] })
    | some profile ↦ (true, record c { icc = profile })
  ]

  -- A profile that is made is assembled.
  pub made-assemble :
      (c : ColorEncoding) (icc : Bytes)
      → maybe_create_profile c ≡ some icc
      → (t : Tags) × (create_tags c ≡ some t) × (assemble (create_icc_header c) t ≡ icc)
  unfolding maybe_create_profile
  made-assemble c icc e =
      let (u, g, e') =
        bind-eq-some (guard (not (c.color_space == ColorSpace.unknown || is_unknown (c.tf)))) _ e in
      let (v, g', e'') =
        bind-eq-some (guard (c.color_space == ColorSpace.rgb || c.color_space == ColorSpace.gray)) _
          e' in
      let (t, made, last) = bind-eq-some (create_tags c) _ e'' in (t, made, some-eq last)
