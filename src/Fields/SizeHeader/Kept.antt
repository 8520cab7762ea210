-- ===== src/Fields/SizeHeader/Kept.antt =====
-- src/lib/jxl/headers.cc: the sizes that SizeHeader and PreviewHeader give back.
use ssimulacra2_vulcan.Common.{
  ℕ, zero, suc, ◌%◌, ◌^◌, ◌<◌, ◌≡◌, ◌⊎◌, ◌↔◌, inl, inr, refl, sym, false, some, ◌==◌, arith,
  Bool-cases, ap, ◌∙◌, some-eq,
}
use ssimulacra2_vulcan.Fields.SizeHeader.{
  mul_truncate, fixed_aspect_ratios, find_from, find_aspect_ratio, SizeHeader, get_xsize, get_ysize,
  assign_sizes, set_size, PreviewHeader, get_preview_xsize, get_preview_ysize, assign_preview,
  set_preview_size,
}

find_from_sound :
    (n r xs ys : ℕ)
    → 0 < r
    → (find_from n r xs ys ≡ 0) ⊎ (xs ≡ mul_truncate (fixed_aspect_ratios (find_from n r xs ys)) ys)
unfolding find_from
find_from_sound zero r xs ys h = inl refl
find_from_sound (suc n) r xs ys h =
    elim (Bool-cases (xs == mul_truncate (fixed_aspect_ratios r) ys)) [
      | inl e ↦ rw e (inr (ground arith))
      | inr e ↦ rw e (find_from_sound n (suc r) xs ys (omega arith))
    ]

-- A ratio that is found gives the width back.
find_aspect_ratio_sound :
    (xs ys : ℕ)
    → (find_aspect_ratio xs ys ≡ 0)
      ⊎ (xs ≡ mul_truncate (fixed_aspect_ratios (find_aspect_ratio xs ys)) ys)
find_aspect_ratio_sound xs ys = unfold find_aspect_ratio in find_from_sound 7 1 xs ys (omega arith)

-- What find_aspect_ratio returns for these sizes.
IsFound : ℕ → ℕ → ℕ → Type 0
IsFound r xs ys = (r ≡ 0) ⊎ (xs ≡ mul_truncate (fixed_aspect_ratios r) ys)

ysize_kept : (r : ℕ) (h : SizeHeader) (xs ys : ℕ) → 0 < ys → get_ysize (assign_sizes r h xs ys) ≡ ys
unfolding get_ysize assign_sizes
ysize_kept r h xs ys py = ground arith

ratio_kept :
    (r y xs ys : ℕ)
    → (r == 0) ≡ false
    → y ≡ ys
    → ys < 2 ^ 32
    → IsFound r xs ys
    → mul_truncate (fixed_aspect_ratios r) (y % 2 ^ 32) ≡ xs
unfolding IsFound
ratio_kept r y xs ys n e hy (inl z) = absurd (ground arith)
ratio_kept r y xs ys n e hy (inr same) =
    let exact : y % 2 ^ 32 ≡ ys = omega (arith, e) in rw exact (sym same)

get_xsize-ratio :
    (g : SizeHeader)
    → (g.ratio == 0) ≡ false
    → get_xsize g ≡ mul_truncate (fixed_aspect_ratios (g.ratio)) (get_ysize g % 2 ^ 32)
unfolding get_xsize
get_xsize-ratio g h = rw h

get_preview_xsize-ratio :
    (g : PreviewHeader)
    → (g.ratio == 0) ≡ false
    → get_preview_xsize g
      ≡ mul_truncate (fixed_aspect_ratios (g.ratio)) (get_preview_ysize g % 2 ^ 32)
unfolding get_preview_xsize
get_preview_xsize-ratio g h = rw h

xsize_kept :
    (r : ℕ) (h : SizeHeader) (xs ys : ℕ)
    → 0 < xs
    → 0 < ys
    → ys < 2 ^ 32
    → IsFound r xs ys
    → get_xsize (assign_sizes r h xs ys) ≡ xs
xsize_kept r h xs ys px py hy found = elim (Bool-cases (r == 0)) [
  | inl z ↦ unfold get_xsize assign_sizes in ground arith
  | inr n ↦
      let g = assign_sizes r h xs ys in
      unfold assign_sizes in
      (get_xsize-ratio g n ∙ ratio_kept r (get_ysize g) xs ys n (ysize_kept r h xs ys py) hy found)
]

preview_ysize_kept :
    (r : ℕ) (h : PreviewHeader) (xs ys : ℕ)
    → get_preview_ysize (assign_preview r h xs ys xs ys) ≡ ys
unfolding get_preview_ysize assign_preview
preview_ysize_kept r h xs ys = ground arith

preview_xsize_kept :
    (r : ℕ) (h : PreviewHeader) (xs ys : ℕ)
    → ys < 2 ^ 32
    → IsFound r xs ys
    → get_preview_xsize (assign_preview r h xs ys xs ys) ≡ xs
preview_xsize_kept r h xs ys hy found = elim (Bool-cases (r == 0)) [
  | inl z ↦ unfold get_preview_xsize assign_preview in ground arith
  | inr n ↦
      let g = assign_preview r h xs ys xs ys in
      unfold assign_preview in
      (get_preview_xsize-ratio g n
        ∙ ratio_kept r (get_preview_ysize g) xs ys n (preview_ysize_kept r h xs ys) hy found)
]

-- Set takes exactly the sizes from 1 to 2 ^ 32 - 1, and xsize() and ysize() then return them, whatever
-- the header held before.
pub set_size-keeps :
    (h : SizeHeader) (xs ys : ℕ)
    → ((g : SizeHeader) → set_size h xs ys ≡ some g → (get_xsize g ≡ xs) × (get_ysize g ≡ ys))
      × (((g : SizeHeader) × (set_size h xs ys ≡ some g))
          ↔ ((0 < xs) × (0 < ys) × (xs < 2 ^ 32) × (ys < 2 ^ 32)))
set_size-keeps h xs ys = (
  λ g e.
      let (px, py, hx, hy) = taken e in
      let r = find_aspect_ratio xs ys in
      let made : assign_sizes r h xs ys ≡ g = some-eq (sym (accepted px py hx hy) ∙ e) in
      (
        ap get_xsize (sym made)
            ∙ xsize_kept r h xs ys px py hy (unfold IsFound in find_aspect_ratio_sound xs ys),
        ap get_ysize (sym made) ∙ ysize_kept r h xs ys py,
      ),
  (
    (λ (g, e). taken e),
    (λ (px, py, hx, hy). (assign_sizes (find_aspect_ratio xs ys) h xs ys, accepted px py hx hy)),
  ),
)
  where
    accepted :
        0 < xs
        → 0 < ys
        → xs < 2 ^ 32
        → ys < 2 ^ 32
        → set_size h xs ys ≡ some (assign_sizes (find_aspect_ratio xs ys) h xs ys)
    accepted px py hx hy = unfold set_size in ground arith

    taken :
        {g : SizeHeader}
        → set_size h xs ys ≡ some g
        → (0 < xs) × (0 < ys) × (xs < 2 ^ 32) × (ys < 2 ^ 32)
    taken e = unfold set_size in (ground arith, ground arith, ground arith, ground arith)

-- Sizes below 2 ^ 32 that PreviewHeader's Set takes are those that xsize() and ysize() return.
pub set_preview_size-keeps :
    (h g : PreviewHeader) (xs ys : ℕ)
    → xs < 2 ^ 32
    → ys < 2 ^ 32
    → set_preview_size h xs ys ≡ some g
    → (get_preview_xsize g ≡ xs) × (get_preview_ysize g ≡ ys)
set_preview_size-keeps h g xs ys hx hy e =
    let exact_x : xs % 2 ^ 32 ≡ xs = omega arith in
    let exact_y : ys % 2 ^ 32 ≡ ys = omega arith in
    let made : assign_preview (find_aspect_ratio xs ys) h xs ys xs ys ≡ g =
      (unfold set_preview_size in ground arith) in
    let r = find_aspect_ratio xs ys in
    (
      ap get_preview_xsize (sym made)
          ∙ preview_xsize_kept r h xs ys hy (unfold IsFound in find_aspect_ratio_sound xs ys),
      ap get_preview_ysize (sym made) ∙ preview_ysize_kept r h xs ys,
    )
