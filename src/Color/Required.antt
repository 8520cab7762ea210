-- ===== src/Color/Required.antt =====
-- src/lib/jxl/color_management.cc: the tags that MaybeCreateProfile creates, in their order.
use ssimulacra2_vulcan.Common.{
  ◌≡◌, refl, subst, Bool, true, false, Option, some, List, [], ◌∷◌, ◌++◌, length, All,
  if◌then◌else◌, Bytes, codes, some-eq, bind-eq-some,
}
use ssimulacra2_vulcan.Arith.{Arith, Doubles}
use ssimulacra2_vulcan.Color.Encoding.{
  Cmath, ColorEncoding, is_gray, get_white_point, get_primaries,
}
use ssimulacra2_vulcan.Color.Names.{description}
use ssimulacra2_vulcan.Color.Matrices.{cell_at}
use ssimulacra2_vulcan.Color.Tags.{
  Tags, create_icc_mluc_tag, create_icc_xyz_tag, create_icc_chad_tag,
}
use ssimulacra2_vulcan.Color.Profile.{
  add_tag, no_tags, rgb_tags, create_tags, white_floats, create_icc_chad_matrix,
  create_icc_rgb_matrix, curve_tag, copyright,
}
use ssimulacra2_vulcan.Color.Layout.{IsWritten, add_tag-IsWritten, no_tags-IsWritten}
use ssimulacra2_vulcan.Color.Grows.{
  create_icc_mluc_tag_grows, create_icc_xyz_tag_grows, create_icc_chad_tag_grows, curve_tag-Grows,
}

abbrev first_names : List Bytes
first_names = codes "desc" ∷ codes "cprt" ∷ codes "wtpt" ∷ []

abbrev color_names : Bool → List Bytes
color_names gray =
    if gray then [] else codes "chad" ∷ codes "rXYZ" ∷ codes "gXYZ" ∷ codes "bXYZ" ∷ []

abbrev curve_names : Bool → List Bytes
curve_names gray =
    if gray then codes "kTRC" ∷ [] else codes "rTRC" ∷ codes "gTRC" ∷ codes "bTRC" ∷ []

abbrev names_for : Bool → List Bytes
names_for gray = first_names ++ (color_names gray ++ curve_names gray)

-- The tags that ICC requires of a gray profile, and of one with a matrix
abbrev pub required_names : ColorEncoding → List Bytes
required_names c = names_for (is_gray c)

all_names : (gray : Bool) → (first_names ++ color_names gray) ++ curve_names gray ≡ names_for gray
all_names true = refl
all_names false = refl

curve_names-length : (gray : Bool) → All (λ name. length name ≡ 4) (curve_names gray)
curve_names-length true = (refl, tt)
curve_names-length false = (refl, (refl, (refl, tt)))

-- The tags of a gray profile, or of one with a matrix
chosen_tags :
    (gray : Bool) (t t' : Tags) (r : Option Tags)
    → (if gray then some t else r) ≡ some t'
    → IsWritten first_names t
    → ((s : Tags) → r ≡ some s → IsWritten (first_names ++ color_names false) s)
    → IsWritten (first_names ++ color_names gray) t'
chosen_tags true t t' r e h k = subst (IsWritten first_names) (some-eq e) h
chosen_tags false t t' r e h k = k t' e

abbrev names1 : List Bytes → List Bytes
names1 names = names ++ codes "chad" ∷ []

abbrev names2 : List Bytes → List Bytes
names2 names = names1 names ++ codes "rXYZ" ∷ []

abbrev names3 : List Bytes → List Bytes
names3 names = names2 names ++ codes "gXYZ" ∷ []

abbrev names4 : List Bytes → List Bytes
names4 names = names3 names ++ codes "bXYZ" ∷ []

module _ {F D : Type 0} ⦃f : Arith F⦄ ⦃d : Arith D⦄ (conv : Doubles F D) (lib : Cmath F D) where
  rgb_tags-IsWritten :
      (c : ColorEncoding) (names : List Bytes) (t t' : Tags)
      → rgb_tags conv lib c t ≡ some t'
      → IsWritten names t
      → IsWritten (names4 names) t'
  unfolding rgb_tags
  rgb_tags-IsWritten c names t t' e h =
      let (w, e0, e1) = bind-eq-some (get_white_point c) _ e in
      let (chad, e2, e3) = bind-eq-some (create_icc_chad_matrix conv lib w) _ e1 in
      let (p, e4, e5) = bind-eq-some (get_primaries c) _ e3 in
      let (m, e6, e7) = bind-eq-some (create_icc_rgb_matrix conv lib p w) _ e5 in
      let (chad_bytes, made, e8) = bind-eq-some (create_icc_chad_tag lib chad (t.bytes)) _ e7 in
      let t1 = add_tag (codes "chad" ∷ []) chad_bytes t in
      let red_xyz = cell_at m 0 ∷ cell_at m 3 ∷ cell_at m 6 ∷ [] in
      let (red, red_made, e9) = bind-eq-some (create_icc_xyz_tag lib red_xyz (t1.bytes)) _ e8 in
      let t2 = add_tag (codes "rXYZ" ∷ []) red t1 in
      let green_xyz = cell_at m 1 ∷ cell_at m 4 ∷ cell_at m 7 ∷ [] in
      let (green, green_made, e10) =
        bind-eq-some (create_icc_xyz_tag lib green_xyz (t2.bytes)) _ e9 in
      let t3 = add_tag (codes "gXYZ" ∷ []) green t2 in
      let blue_xyz = cell_at m 2 ∷ cell_at m 5 ∷ cell_at m 8 ∷ [] in
      let (blue, blue_made, e11) =
        bind-eq-some (create_icc_xyz_tag lib blue_xyz (t3.bytes)) _ e10 in
      let h1 =
        add_tag-IsWritten (codes "chad" ∷ []) names chad_bytes t (refl, tt)
          (create_icc_chad_tag_grows lib chad (t.bytes) chad_bytes made) h in
      let h2 =
        add_tag-IsWritten (codes "rXYZ" ∷ []) (names1 names) red t1 (refl, tt)
          (create_icc_xyz_tag_grows lib red_xyz (t1.bytes) red red_made) h1 in
      let h3 =
        add_tag-IsWritten (codes "gXYZ" ∷ []) (names2 names) green t2 (refl, tt)
          (create_icc_xyz_tag_grows lib green_xyz (t2.bytes) green green_made) h2 in
      let h4 =
        add_tag-IsWritten (codes "bXYZ" ∷ []) (names3 names) blue t3 (refl, tt)
          (create_icc_xyz_tag_grows lib blue_xyz (t3.bytes) blue blue_made) h3 in
      subst (λ made. IsWritten (names4 names) made) {x = add_tag (codes "bXYZ" ∷ []) blue t3}
        (some-eq e11) h4

  pub create_tags-IsWritten :
      (c : ColorEncoding) (t : Tags)
      → create_tags conv lib c ≡ some t
      → IsWritten (required_names c) t
  unfolding create_tags
  create_tags-IsWritten c t e =
      let (text, e0, e1) = bind-eq-some (description conv lib c) _ e in
      let t1 = add_tag (codes "desc" ∷ []) (create_icc_mluc_tag text []) no_tags in
      let t2 = add_tag (codes "cprt" ∷ []) (create_icc_mluc_tag copyright (t1.bytes)) t1 in
      let (white, e2, e3) = bind-eq-some (white_floats conv lib c) _ e1 in
      let (white_bytes, white_made, e4) =
        bind-eq-some (create_icc_xyz_tag lib white (t2.bytes)) _ e3 in
      let t3 = add_tag (codes "wtpt" ∷ []) white_bytes t2 in
      let (t4, e5, e6) =
        bind-eq-some (if is_gray c then some t3 else rgb_tags conv lib c t3) _ e4 in
      let (curve, curve_made, e7) = bind-eq-some (curve_tag conv lib (c.tf) (t4.bytes)) _ e6 in
      let h1 =
        add_tag-IsWritten (codes "desc" ∷ []) [] (create_icc_mluc_tag text []) no_tags (refl, tt)
          (create_icc_mluc_tag_grows text []) no_tags-IsWritten in
      let h2 =
        add_tag-IsWritten (codes "cprt" ∷ []) _ (create_icc_mluc_tag copyright (t1.bytes)) t1
          (refl, tt) (create_icc_mluc_tag_grows copyright (t1.bytes)) h1 in
      let h3 =
        add_tag-IsWritten (codes "wtpt" ∷ []) _ white_bytes t2 (refl, tt)
          (create_icc_xyz_tag_grows lib white (t2.bytes) white_bytes white_made) h2 in
      let grown = curve_tag-Grows conv lib (c.tf) (t4.bytes) curve curve_made in
      let h4 =
        chosen_tags (is_gray c) t3 t4 (rgb_tags conv lib c t3) e5 h3
          (λ t' made. rgb_tags-IsWritten c first_names t3 t' made h3) in
      let names = curve_names (is_gray c) in
      let last =
        add_tag-IsWritten names (first_names ++ color_names (is_gray c)) curve t4
          (curve_names-length (is_gray c)) grown h4 in
      subst (λ made. IsWritten (required_names c) made) (some-eq e7)
        (subst (λ ns. IsWritten ns (add_tag names curve t4)) (all_names (is_gray c)) last)
