-- ===== src/Fields/Visit.antt =====
-- src/lib/jxl/fields.h, class Visitor: what VisitFields asks of a visitor, call by call. A bundle's
-- VisitFields is a program of these calls; each visitor of src/lib/jxl/fields.cc runs it in its way.
use ssimulacra2_vulcan.Common.{ℕ, Bool, true, false, [], ◌∷◌, ◌==◌, if◌then◌else◌}
use ssimulacra2_vulcan.Fields.Coder.{Coder, bits, u32}

-- The calls, each with what the rest does with its result. `done` returns true, with the bundle.
pub data Visit (A : Type 0) : Type 0 where
  done : A → Visit A
  -- return JXL_FAILURE
  failure : Visit A
  -- Bits, U32, U64 and F16: the default, the value, and what the visitor leaves in it
  number : Coder → ℕ → ℕ → (ℕ → Visit A) → Visit A
  conditional : Bool → (Bool → Visit A) → Visit A
  -- Bundle::AllDefault of the bundle, its field all_default; the field's new value, and the result
  all_default : Bool → Bool → (Bool → Bool → Visit A) → Visit A
  is_reading : (Bool → Visit A) → Visit A
  -- BeginExtensions
  extensions : ℕ → (ℕ → Visit A) → Visit A
  end_extensions : Visit A → Visit A

infixl 5 ◌>>=◌ ◌>>◌
unfoldable pub ◌>>=◌ : {A B : Type 0} → Visit A → (A → Visit B) → Visit B
done a >>= f = f a
failure >>= f = failure
number c d v k >>= f = number c d v (λ w. k w >>= f)
conditional b k >>= f = conditional b (λ go. k go >>= f)
all_default a b k >>= f = all_default a b (λ flag r. k flag r >>= f)
is_reading k >>= f = is_reading (λ r. k r >>= f)
extensions e k >>= f = extensions e (λ x. k x >>= f)
end_extensions t >>= f = end_extensions (t >>= f)

abbrev pub ◌>>◌ : {B : Type 0} → Visit (Unit {0}) → Visit B → Visit B
m >> k = m >>= λ _. k

-- JXL_RETURN_IF_ERROR on a condition
abbrev pub check : Bool → Visit (Unit {0})
check true = done tt
check false = failure

abbrev pub field : Coder → ℕ → ℕ → Visit ℕ
field c d v = number c d v done

abbrev pub bit_of : Bool → ℕ
bit_of true = 1
bit_of false = 0

-- VisitorBase::Bool
abbrev pub flag : Bool → Bool → Visit Bool
flag d v = number (bits 1) (bit_of d) (bit_of v) (λ w. done (w == 1))

-- if (visitor->Conditional(c)) visit the field
abbrev pub field_if : Bool → Coder → ℕ → ℕ → Visit ℕ
field_if c coder d v = conditional c (λ go. if go then field coder d v else done v)

abbrev pub flag_if : Bool → Bool → Bool → Visit Bool
flag_if c d v = conditional c (λ go. if go then flag d v else done v)

-- The distributions of U32, in the source's order.
abbrev pub four : ℕ → ℕ → ℕ → ℕ → Coder
four d0 d1 d2 d3 = u32 (d0 ∷ d1 ∷ d2 ∷ d3 ∷ [])
