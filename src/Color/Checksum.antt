-- ===== src/Color/Checksum.antt =====
-- src/lib/jxl/color_management.cc: the profile ID, an MD5 sum that is written into the bytes that it sums.
use ssimulacra2_vulcan.Common.{
  ℕ, zero, suc, ◌+◌, ◌≡◌, refl, sym, ap, ◌∙◌, subst, [], ◌∷◌, ◌++◌, length, length-append,
  append_assoc, replicate, ltb, ltb-false, false, if◌then◌else◌, Bool-cases, inl, inr, Bytes, codes,
  some, arith,
}
use ssimulacra2_vulcan.Arith.{Arith, Doubles}
use ssimulacra2_vulcan.Color.Bytes.{
  put, put_grown, put_inside, resize_bytes, write_icc_uint32, write_icc_uint16, write_icc_tag,
  bytes32, bytes16,
}
use ssimulacra2_vulcan.Color.Md5.{icc_compute_md5, sum_bytes, little_bytes}
use ssimulacra2_vulcan.Color.Encoding.{Cmath, ColorEncoding, is_gray}
use ssimulacra2_vulcan.Color.Tags.{create_icc_header, Tags}
use ssimulacra2_vulcan.Color.Profile.{
  assemble, final_table, write_profile_id, maybe_create_profile, made-assemble,
}

abbrev pub take : ℕ → Bytes → Bytes
take zero icc = []
take (suc n) [] = []
take (suc n) (x ∷ icc) = x ∷ take n icc

abbrev pub drop : ℕ → Bytes → Bytes
drop zero icc = icc
drop (suc n) [] = []
drop (suc n) (x ∷ icc) = drop n icc

-- Bytes 84 to 99
abbrev pub profile_id : Bytes → Bytes
profile_id icc = take 16 (drop 84 icc)

-- The flags, the rendering intent and the profile ID are zero.
abbrev pub without_id : Bytes → Bytes
without_id icc = put 64 (replicate 4 0) (put 44 (replicate 4 0) (put 84 (replicate 16 0) icc))

pub length-icc_compute_md5 : (bytes : Bytes) → length (icc_compute_md5 bytes) ≡ 16
unfolding icc_compute_md5 sum_bytes little_bytes
length-icc_compute_md5 bytes = refl

take_inside :
    (before s after : Bytes) → take (length s) (drop (length before) (before ++ (s ++ after))) ≡ s
take_inside [] [] after = refl
take_inside [] (x ∷ s) after = ap (λ t. x ∷ t) (take_inside [] s after)
take_inside (x ∷ before) s after = take_inside before s after

sum_found :
    (before after s : Bytes)
    → length before ≡ 84
    → length s ≡ 16
    → (profile_id (put 84 s (before ++ (replicate 16 0 ++ after))) ≡ s)
      × (put 84 (replicate 16 0) (put 84 s (before ++ (replicate 16 0 ++ after)))
          ≡ before ++ (replicate 16 0 ++ after))
sum_found before after s h l =
    let there : put 84 s (before ++ (replicate 16 0 ++ after)) ≡ before ++ (s ++ after) =
      rw (← h) (put_inside before (replicate 16 0) s after l) in
    let found : profile_id (before ++ (s ++ after)) ≡ s =
      rw (← h, ← l) (take_inside before s after) in
    let back : put 84 (replicate 16 0) (before ++ (s ++ after))
        ≡ before ++ (replicate 16 0 ++ after) =
      rw (← h) (put_inside before s (replicate 16 0) after (sym l)) in
    (ap profile_id there ∙ found, ap (put 84 (replicate 16 0)) there ∙ back)

-- The first 84 bytes of a profile, block by block: its size, engine, version, class, color space, connection space,
-- date, signature, platform, the fields that are zero, the intent, D50 and the creator
abbrev pub header_front : ℕ → Bytes → ℕ → Bytes
header_front size model intent =
    bytes32 size
    ++ codes "jxl "
    ++ bytes32 70254592
    ++ codes "mntr"
    ++ model
    ++ codes "XYZ "
    ++ bytes16 2019
    ++ bytes16 12
    ++ bytes16 1
    ++ replicate 6 0
    ++ codes "acsp"
    ++ codes "APPL"
    ++ replicate 20 0
    ++ bytes32 intent
    ++ bytes32 63190
    ++ bytes32 65536
    ++ bytes32 54061
    ++ codes "jxl "

abbrev pub model_of : ColorEncoding → Bytes
model_of c = if is_gray c then codes "GRAY" else codes "RGB "

-- With a size, the header is these blocks, 16 zeros for the ID, and 28 zeros.
pub header_blocks :
    (c : ColorEncoding) (size : ℕ)
    → write_icc_uint32 size 0 (create_icc_header c)
      ≡ header_front size (model_of c) (c.rendering_intent) ++ (replicate 16 0 ++ replicate 28 0)
unfolding create_icc_header write_icc_uint32 write_icc_uint16 write_icc_tag put_grown put
    resize_bytes
header_blocks c size = elim (Bool-cases (is_gray c)) [
  | inl gray ↦ rw gray refl
  | inr color ↦ rw color refl
]

length-create_icc_header : (c : ColorEncoding) → length (create_icc_header c) ≡ 128
unfolding create_icc_header write_icc_uint32 write_icc_uint16 write_icc_tag put_grown put
    resize_bytes
length-create_icc_header c = elim (Bool-cases (is_gray c)) [
  | inl gray ↦ rw gray refl
  | inr color ↦ rw color refl
]

pub front_length :
    (c : ColorEncoding) (size : ℕ)
    → length (header_front size (model_of c) (c.rendering_intent)) ≡ 84
front_length c size = elim (Bool-cases (is_gray c)) [
  | inl gray ↦ rw gray refl
  | inr color ↦ rw color refl
]

zeros_before :
    (c : ColorEncoding) (size : ℕ) (rest : Bytes)
    → write_icc_uint32 size 0 (create_icc_header c) ++ rest
      ≡ header_front size (model_of c) (c.rendering_intent)
        ++ (replicate 16 0 ++ (replicate 28 0 ++ rest))
zeros_before c size rest =
    let front = header_front size (model_of c) (c.rendering_intent) in
    ap (λ h. h ++ rest) (header_blocks c size)
    ∙ append_assoc front (replicate 16 0 ++ replicate 28 0) rest

-- The ID takes the place of 16 zeros.
pub write_profile_id-parts :
    (front rest : Bytes)
    → length front ≡ 84
    → (s : Bytes) × (length s ≡ 16)
      × (write_profile_id (front ++ (replicate 16 0 ++ rest)) ≡ front ++ (s ++ rest))
unfolding write_profile_id
write_profile_id-parts front rest h =
    let plain = front ++ (replicate 16 0 ++ rest) in
    let summed =
      if ltb (length plain) (64 + 4)
      then plain
      else put 64 (replicate 4 0) (put 44 (replicate 4 0) plain) in
    let s = icc_compute_md5 summed in
    (
      s,
      length-icc_compute_md5 summed,
      rw (← h) (put_inside front (replicate 16 0) s rest (length-icc_compute_md5 summed)),
    )

id_of_parts :
    (front rest : Bytes)
    → length front ≡ 84
    → let icc = write_profile_id (front ++ (replicate 16 0 ++ rest)) in
      profile_id icc ≡ icc_compute_md5 (without_id icc)
unfolding write_profile_id
id_of_parts front rest h =
    let plain = front ++ (replicate 16 0 ++ rest) in
    let long : ltb (length plain) (64 + 4) ≡ false =
      ltb-false (length plain) (64 + 4)
        (omega (arith, length-append front (replicate 16 0 ++ rest), h)) in
    let s = icc_compute_md5 (put 64 (replicate 4 0) (put 44 (replicate 4 0) plain)) in
    let (found, back) =
      sum_found front rest s h
        (length-icc_compute_md5 (put 64 (replicate 4 0) (put 44 (replicate 4 0) plain))) in
    rw long (
      found
      ∙ ap (λ p. icc_compute_md5 (put 64 (replicate 4 0) (put 44 (replicate 4 0) p))) (sym back))

-- The parts of a profile
assemble-parts :
    (c : ColorEncoding) (t : Tags)
    → let table = final_table (length (create_icc_header c)) t in
      let size = length (create_icc_header c) + length table + length (t.bytes) in
      assemble (create_icc_header c) t
      ≡ write_profile_id (
          header_front size (model_of c) (c.rendering_intent)
          ++ (replicate 16 0 ++ (replicate 28 0 ++ (table ++ t.bytes))))
unfolding assemble
assemble-parts c t =
    let header = create_icc_header c in
    let table = final_table (length header) t in
    let size = length header + length table + length (t.bytes) in
    ap write_profile_id (
      append_assoc (write_icc_uint32 size 0 header) table (t.bytes)
      ∙ zeros_before c size (table ++ t.bytes))

-- With the size of the header
pub assemble-sized :
    (c : ColorEncoding) (t : Tags)
    → let table = final_table 128 t in
      let size = 128 + length table + length (t.bytes) in
      assemble (create_icc_header c) t
      ≡ write_profile_id (
          header_front size (model_of c) (c.rendering_intent)
          ++ (replicate 16 0 ++ (replicate 28 0 ++ (table ++ t.bytes))))
assemble-sized c t =
    subst
      (λ n.
        let table = final_table n t in
        let size = n + length table + length (t.bytes) in
        assemble (create_icc_header c) t
        ≡ write_profile_id (
            header_front size (model_of c) (c.rendering_intent)
            ++ (replicate 16 0 ++ (replicate 28 0 ++ (table ++ t.bytes)))))
      (length-create_icc_header c) (assemble-parts c t)

module _ {F D : Type 0} ⦃f : Arith F⦄ ⦃d : Arith D⦄ (conv : Doubles F D) (lib : Cmath F D) where
  -- The profile ID of every profile that MaybeCreateProfile makes is the MD5 sum of the profile with the flags, the
  -- rendering intent and the ID itself set to zero, as a reader of the profile checks it.
  pub profile_id-maybe_create_profile :
      (c : ColorEncoding) (icc : Bytes)
      → maybe_create_profile conv lib c ≡ some icc
      → profile_id icc ≡ icc_compute_md5 (without_id icc)
  profile_id-maybe_create_profile c icc e =
      let (t, made, same) = made-assemble conv lib c icc e in
      let header_size = length (create_icc_header c) in
      let table = final_table header_size t in
      let size = header_size + length table + length (t.bytes) in
      rw (sym same ∙ assemble-parts c t) (
        id_of_parts (header_front size (model_of c) (c.rendering_intent))
          (replicate 28 0 ++ (table ++ t.bytes)) (front_length c size))
