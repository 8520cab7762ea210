-- ===== src/Color/Matrices.antt =====
-- src/lib/jxl/color_encoding_internal.cc and src/lib/jxl/linalg.h: the 3 by 3 matrices of a color encoding, as lists of nine
-- floats by rows.
use ssimulacra2_vulcan.Common.{
  ℕ, zero, suc, ◌+◌, ◌*◌, not, ◌&&◌, ◌||◌, Option, some, List, [], ◌∷◌, ◌++◌, ◌>>=◌, ◌>>◌, guard,
  get_or, loop, map,
}
use ssimulacra2_vulcan.Arith.{Arith, Doubles, ◌⊕◌, ◌⊖◌, ◌⊗◌, ◌⊘◌, neg, abs, less, equal, decimal}
use ssimulacra2_vulcan.Color.Encoding.{Cmath, at_most, CieXy}

module _ {A : Type 0} ⦃a : Arith A⦄ where
  -- An entry of a matrix
  abbrev pub cell_at : List A → ℕ → A
  cell_at m i = get_or m i (decimal 0 0)

  unfoldable pub diagonal : A → A → A → List A
  diagonal x y z = let o = decimal 0 0 in x ∷ o ∷ o ∷ o ∷ y ∷ o ∷ o ∷ o ∷ z ∷ []

  -- kBradford
  unfoldable pub bradford : List A
  bradford =
      decimal 8951 4
      ∷ decimal 2664 4
      ∷ neg (decimal 1614 4)
      ∷ neg (decimal 7502 4)
      ∷ decimal 17135 4
      ∷ decimal 367 4
      ∷ decimal 389 4
      ∷ neg (decimal 685 4)
      ∷ decimal 10296 4
      ∷ []

  -- kBradfordInv
  unfoldable pub bradford_inv : List A
  bradford_inv =
      decimal 9869929 7
      ∷ neg (decimal 1470543 7)
      ∷ decimal 1599627 7
      ∷ decimal 4323053 7
      ∷ decimal 5183603 7
      ∷ decimal 492912 7
      ∷ neg (decimal 85287 7)
      ∷ decimal 400428 7
      ∷ decimal 9684867 7
      ∷ []

module _ {F D : Type 0} ⦃f : Arith F⦄ ⦃d : Arith D⦄ (conv : Doubles F D) where
  open conv use {widen, narrow}

  -- The list of n results of a loop
  unfoldable pub tabulate : {A : Type 0} → ℕ → (ℕ → A) → List A
  tabulate zero g = []
  tabulate (suc n) g = tabulate n g ++ g n ∷ []

  -- MatMul of a ha by wa matrix and a wa by wb matrix; an entry is summed in double precision.
  unfoldable pub mat_mul : List F → List F → ℕ → ℕ → ℕ → List F
  unfolding tabulate loop
  mat_mul a b ha wa wb = rows ha
    where
      entry : ℕ → ℕ → F
      entry y x = narrow (
          loop wa (λ z e. e ⊕ widen (cell_at a (y * wa + z) ⊗ cell_at b (z * wb + x)))
            (decimal 0 0))

      rows : ℕ → List F
      rows zero = []
      rows (suc y) = rows y ++ tabulate wb (entry y)

  -- m_i m_j - m_k m_l in double precision
  abbrev minor : List F → ℕ → ℕ → ℕ → ℕ → D
  minor m i j k l =
      widen (cell_at m i) ⊗ widen (cell_at m j) ⊖ widen (cell_at m k) ⊗ widen (cell_at m l)

  unfoldable pub cofactors : List F → List D
  cofactors m =
      minor m 4 8 5 7
      ∷ minor m 2 7 1 8
      ∷ minor m 1 5 2 4
      ∷ minor m 5 6 3 8
      ∷ minor m 0 8 2 6
      ∷ minor m 2 3 0 5
      ∷ minor m 3 7 4 6
      ∷ minor m 1 6 0 7
      ∷ minor m 0 4 1 3
      ∷ []

  -- Inv3x3Matrix
  unfoldable pub inv_3x3 : List F → Option (List F)
  unfolding cofactors
  inv_3x3 m = do
    let temp = cofactors m
    let det =
        widen (cell_at m 0) ⊗ cell_at temp 0
        ⊕ widen (cell_at m 1) ⊗ cell_at temp 3
        ⊕ widen (cell_at m 2) ⊗ cell_at temp 6
    guard (not (less (abs det) (decimal 1 10)))
    some (map (λ t. narrow (t ⊗ (decimal 10 1 ⊘ det))) temp)

module _ {F D : Type 0} ⦃f : Arith F⦄ ⦃d : Arith D⦄ (conv : Doubles F D) (lib : Cmath F D) where
  open conv use {widen, narrow}
  open lib use {is_finite}

  -- The test of a white point, and its X and Z for Y = 1.
  unfoldable pub white_xyz : F → F → Option (List F)
  white_xyz wx wy = do
    guard (
        not (
          less wx (decimal 0 0)
          || (less (decimal 1 0) wx || (at_most wy (decimal 0 0) || less (decimal 1 0) wy))))
    let x = wx ⊘ wy
    let z = (decimal 10 1 ⊖ wx ⊖ wy) ⊘ wy
    guard (is_finite x && is_finite z)
    some (x ∷ decimal 10 1 ∷ z ∷ [])

  unfoldable pub adapt_to_xyz_d50 : F → F → Option (List F)
  unfolding white_xyz mat_mul bradford bradford_inv diagonal
  adapt_to_xyz_d50 wx wy = do
    w ← white_xyz wx wy
    let lms = mat_mul conv bradford w 3 3 1
    let lms50 = mat_mul conv bradford (decimal 96422 5 ∷ decimal 10 1 ∷ decimal 82521 5 ∷ []) 3 3 1
    guard (
        not (
          equal (cell_at lms 0) (decimal 0 0)
          || (equal (cell_at lms 1) (decimal 0 0) || equal (cell_at lms 2) (decimal 0 0))))
    let a0 = cell_at lms50 0 ⊘ cell_at lms 0
    let a4 = cell_at lms50 1 ⊘ cell_at lms 1
    let a8 = cell_at lms50 2 ⊘ cell_at lms 2
    guard (not (not (is_finite a0) || (not (is_finite a4) || not (is_finite a8))))
    some (mat_mul conv bradford_inv (mat_mul conv (diagonal a0 a4 a8) bradford 3 3 3) 3 3 3)

  unfoldable pub primaries_to_xyz : F → F → F → F → F → F → F → F → Option (List F)
  unfolding inv_3x3 mat_mul diagonal
  primaries_to_xyz rx ry gx gy bx by wx wy = do
    guard (
        not (
          less wx (decimal 0 0)
          || (less (decimal 1 0) wx || (at_most wy (decimal 0 0) || less (decimal 1 0) wy))))
    let primaries =
        rx
        ∷ gx
        ∷ bx
        ∷ ry
        ∷ gy
        ∷ by
        ∷ (decimal 10 1 ⊖ rx ⊖ ry)
        ∷ (decimal 10 1 ⊖ gx ⊖ gy)
        ∷ (decimal 10 1 ⊖ bx ⊖ by)
        ∷ []
    inverse ← inv_3x3 conv primaries
    let x = wx ⊘ wy
    let z = (decimal 10 1 ⊖ wx ⊖ wy) ⊘ wy
    guard (is_finite x && is_finite z)
    let xyz = mat_mul conv inverse (x ∷ decimal 10 1 ∷ z ∷ []) 3 3 1
    some (mat_mul conv primaries (diagonal (cell_at xyz 0) (cell_at xyz 1) (cell_at xyz 2)) 3 3 3)

  unfoldable pub primaries_to_xyz_d50 : F → F → F → F → F → F → F → F → Option (List F)
  unfolding primaries_to_xyz adapt_to_xyz_d50 mat_mul
  primaries_to_xyz_d50 rx ry gx gy bx by wx wy = do
    to_xyz ← primaries_to_xyz rx ry gx gy bx by wx wy
    d50 ← adapt_to_xyz_d50 wx wy
    some (mat_mul conv d50 to_xyz 3 3 3)

  -- CIEXYZFromWhiteCIExy
  unfoldable pub ciexyz_from_white : CieXy D → Option (List F)
  ciexyz_from_white w = do
    guard (not (less (abs (w.y)) (decimal 1 12)))
    let factor = narrow (decimal 1 0 ⊘ w.y)
    some (
        narrow (w.x ⊗ widen factor)
        ∷ decimal 1 0
        ∷ narrow ((decimal 1 0 ⊖ w.x ⊖ w.y) ⊗ widen factor)
        ∷ [])
