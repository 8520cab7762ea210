-- ===== src/Common/Lists.antt =====
-- Lists measured and indexed by native numbers, and counted loops.
use Prim.Native.Nat.{ℕ, zero, suc, ◌+◌, ◌<◌}
use mathlib.Core.Path.{◌≡◌, refl}
use mathlib.Core.Option.{Option, none, some}
use mathlib.Core.List.{List, [], ◌∷◌, ◌++◌}
use native.Mathlib.Omega.{arith}

module _ {ℓ} {A : Type ℓ} where
  abbrev pub length : List A → ℕ
  length [] = 0
  length (x ∷ xs) = suc (length xs)

  abbrev pub get_or : List A → ℕ → A → A
  get_or [] i d = d
  get_or (x ∷ xs) zero d = x
  get_or (x ∷ xs) (suc i) d = get_or xs i d

  abbrev pub get_elem? : List A → ℕ → Option A
  get_elem? [] i = none
  get_elem? (x ∷ xs) zero = some x
  get_elem? (x ∷ xs) (suc i) = get_elem? xs i

  abbrev pub replicate : ℕ → A → List A
  replicate zero a = []
  replicate (suc n) a = a ∷ replicate n a

  pub length-append : (xs ys : List A) → length (xs ++ ys) ≡ length xs + length ys
  length-append [] ys = omega arith
  length-append (x ∷ xs) ys = omega (arith, length-append xs ys)

  abbrev pub All {κ} : (A → Type κ) → List A → Type κ
  All P [] = Unit {κ}
  All P (x ∷ xs) = P x × All P xs

-- for (i = 0; i < n; ++i) s = body i s
unfoldable pub loop {ℓ} : {S : Type ℓ} → ℕ → (ℕ → S → S) → S → S
loop zero body s = s
loop (suc n) body s = body n (loop n body s)

-- The invariant rule of the counted loop.
pub loop_inv {ℓ κ} :
    {S : Type ℓ} (P : ℕ → S → Type κ) (n : ℕ) (body : ℕ → S → S) (s : S)
    → ((i : ℕ) (t : S) → i < n → P i t → P (suc i) (body i t))
    → P 0 s
    → P n (loop n body s)
unfolding loop
loop_inv P zero body s keep h = h
loop_inv P (suc n) body s keep h =
    keep n (loop n body s) (omega arith)
      (loop_inv P n body s (λ i t lt p. keep i t (omega arith) p) h)

-- A state that every round leaves alone comes out of the loop.
pub loop_fixed {ℓ} :
    {S : Type ℓ} (n : ℕ) (body : ℕ → S → S) (s : S)
    → ((i : ℕ) → i < n → body i s ≡ s)
    → loop n body s ≡ s
unfolding loop
loop_fixed zero body s keep = refl
loop_fixed (suc n) body s keep =
    rw (loop_fixed n body s (λ i lt. keep i (omega arith))) (keep n (omega arith))

-- Two loops run side by side keep a relation.
pub loop_rel {ℓ κ μ} :
    {S : Type ℓ} {T : Type κ} (R : ℕ → S → T → Type μ) (n : ℕ) (f : ℕ → S → S) (g : ℕ → T → T)
    (s : S) (t : T)
    → ((i : ℕ) (u : S) (v : T) → i < n → R i u v → R (suc i) (f i u) (g i v))
    → R 0 s t
    → R n (loop n f s) (loop n g t)
unfolding loop
loop_rel R zero f g s t keep h = h
loop_rel R (suc n) f g s t keep h =
    keep n (loop n f s) (loop n g t) (omega arith)
      (loop_rel R n f g s t (λ i u v lt p. keep i u v (omega arith) p) h)

-- Two loops whose rounds agree on every state agree.
pub loop_cong {ℓ} :
    {S : Type ℓ} (n : ℕ) (f g : ℕ → S → S) (s : S)
    → ((i : ℕ) (u : S) → i < n → f i u ≡ g i u)
    → loop n f s ≡ loop n g s
unfolding loop
loop_cong zero f g s same = refl
loop_cong (suc n) f g s same =
    rw (loop_cong n f g s (λ i u lt. same i u (omega arith))) (same n (loop n g s) (omega arith))

-- What stands behind a list does not matter to a read inside of it.
pub get_or-append {ℓ} :
    {A : Type ℓ} (xs ys : List A) (i : ℕ) (d : A)
    → i < length xs
    → get_or (xs ++ ys) i d ≡ get_or xs i d
get_or-append [] ys i d h = absurd (omega arith)
get_or-append (x ∷ xs) ys zero d h = refl
get_or-append (x ∷ xs) ys (suc i) d h = get_or-append xs ys i d (omega arith)

pub get_or-replicate {ℓ} : {A : Type ℓ} (n i : ℕ) (a : A) → get_or (replicate n a) i a ≡ a
get_or-replicate zero i a = refl
get_or-replicate (suc n) zero a = refl
get_or-replicate (suc n) (suc i) a = get_or-replicate n i a
