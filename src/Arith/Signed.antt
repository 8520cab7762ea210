-- ===== src/Arith/Signed.antt =====
-- An arithmetic with both zeros, infinities and NaN: signed whole numbers that do not overflow. A literal is
-- its digits, and a quotient is cut. The rules hold of it with the finite values as finite.
use ssimulacra2_vulcan.Common.{
  ℕ, ◌+◌, ◌-◌, ◌*◌, ◌/◌, ◌≡◌, refl, Bool, true, false, not, ◌&&◌, arith, ltb, ◌==◌, if◌then◌else◌,
}
use ssimulacra2_vulcan.Arith.{Arith, Doubles}
use ssimulacra2_vulcan.Arith.Rules.{FiniteRules, ZeroRules, DoubleRules}

-- A sign is true where it is negative.
pub data Signed : Type 0 where
  nan : Signed
  infinite : Bool → Signed
  finite : Bool → ℕ → Signed

unfoldable pub is_same : Bool → Bool → Bool
is_same true t = t
is_same false t = not t

unfoldable pub add : Signed → Signed → Signed
unfolding is_same
add nan y = nan
add (infinite s) nan = nan
add (infinite s) (infinite t) = if is_same s t then infinite s else nan
add (infinite s) (finite t b) = infinite s
add (finite s a) nan = nan
add (finite s a) (infinite t) = infinite t
add (finite s a) (finite t b) =
    if is_same s t
    then finite s (a + b)
    else if a == b
    then finite false 0
    else if ltb b a
    then finite s (a - b)
    else finite t (b - a)

unfoldable pub negate : Signed → Signed
negate nan = nan
negate (infinite s) = infinite (not s)
negate (finite s a) = finite (not s) a

-- The sign of a product.
unfoldable pub sign : Bool → Bool → Bool
sign true t = not t
sign false t = t

unfoldable pub mul : Signed → Signed → Signed
unfolding sign
mul nan y = nan
mul (infinite s) nan = nan
mul (infinite s) (infinite t) = infinite (sign s t)
mul (infinite s) (finite t b) = if b == 0 then nan else infinite (sign s t)
mul (finite s a) nan = nan
mul (finite s a) (infinite t) = if a == 0 then nan else infinite (sign s t)
mul (finite s a) (finite t b) = finite (sign s t) (a * b)

unfoldable pub div : Signed → Signed → Signed
unfolding sign
div nan y = nan
div (infinite s) nan = nan
div (infinite s) (infinite t) = nan
div (infinite s) (finite t b) = infinite (sign s t)
div (finite s a) nan = nan
div (finite s a) (infinite t) = finite (sign s t) 0
div (finite s a) (finite t b) =
    if b == 0 then (if a == 0 then nan else infinite (sign s t)) else finite (sign s t) (a / b)

unfoldable pub magnitude : Signed → Signed
magnitude nan = nan
magnitude (infinite s) = infinite false
magnitude (finite s a) = finite false a

-- Nothing is less than NaN or equal to it, and the zeros are equal.
unfoldable pub less_than : Signed → Signed → Bool
less_than nan y = false
less_than (infinite s) nan = false
less_than (infinite s) (infinite t) = s && not t
less_than (infinite s) (finite t b) = s
less_than (finite s a) nan = false
less_than (finite s a) (infinite t) = not t
less_than (finite false a) (finite false b) = ltb a b
less_than (finite false a) (finite true b) = false
less_than (finite true a) (finite false b) = not (a == 0 && b == 0)
less_than (finite true a) (finite true b) = ltb b a

unfoldable pub equals : Signed → Signed → Bool
unfolding is_same
equals nan y = false
equals (infinite s) nan = false
equals (infinite s) (infinite t) = is_same s t
equals (infinite s) (finite t b) = false
equals (finite s a) nan = false
equals (finite s a) (infinite t) = false
equals (finite s a) (finite t b) = if a == 0 then b == 0 else is_same s t && a == b

instance abbrev pub signed : Arith Signed
signed = record {
  add = add;
  sub = λ x y. add x (negate y);
  mul = mul;
  div = div;
  neg = negate;
  abs = magnitude;
  less = less_than;
  equal = equals;
  decimal = λ m k. finite false m;
}

abbrev pub unchanged : Doubles Signed Signed
unchanged = record { widen = λ x. x; narrow = λ x. x; sqrt = λ x. x; pow = λ x y. x }

abbrev pub IsFinite : Signed → Type 0
IsFinite x = (s : Bool) × (a : ℕ) × (x ≡ finite s a)

sub_self : (s : Bool) (a : ℕ) → add (finite s a) (negate (finite s a)) ≡ finite false 0
unfolding add negate is_same
sub_self true a = ground arith
sub_self false a = ground arith

two_mul : (s : Bool) (a : ℕ) → mul (finite false 2) (finite s a) ≡ add (finite s a) (finite s a)
unfolding add mul is_same sign
two_mul true a = ground arith
two_mul false a = ground arith

one_mul : (s : Bool) (a : ℕ) → mul (finite false 1) (finite s a) ≡ finite s a
unfolding mul sign
one_mul s a = ground arith

one_quotient : (a : ℕ) → (a == 0) ≡ false → a / a ≡ 1
one_quotient a h = grind arith

div_self :
    (s : Bool) (a : ℕ)
    → equals (finite s a) (finite false 0) ≡ false
    → div (finite s a) (finite s a) ≡ finite false 1
unfolding equals div sign is_same
div_self true a h = let some : (a == 0) ≡ false = ground arith in rw (some, one_quotient a some)
div_self false a h = let some : (a == 0) ≡ false = ground arith in rw (some, one_quotient a some)

one_add_div_self :
    (s : Bool) (a : ℕ)
    → div
        (add (finite false 1) (magnitude (finite s a)))
        (add (finite false 1) (magnitude (finite s a)))
      ≡ finite false 1
unfolding add div magnitude sign is_same
one_add_div_self s a =
    let some : (1 + a == 0) ≡ false = ground arith in rw (some, one_quotient (1 + a) some)

pub signed-FiniteRules : FiniteRules IsFinite
unfolding mul sign
signed-FiniteRules = record {
  sub_self = λ x (s, a, e). rw e (sub_self s a);
  zero_mul_zero = refl;
  two_mul = λ x (s, a, e). rw e (two_mul s a);
  one_mul = λ x (s, a, e). rw e (one_mul s a);
  div_self = λ x (s, a, e) h. rw e (div_self s a (rw e at h));
}

pub signed-ZeroRules : ZeroRules Signed
unfolding add negate mul div magnitude less_than sign is_same
signed-ZeroRules = record {
  add_zero = refl;
  add-neg_zero = refl;
  sub_zero = refl;
  mul_zero = λ m k h. ground arith;
  zero_mul = λ m k h. ground arith;
  neg_mul-neg = refl;
  reciprocal_mul = λ n h. ground arith;
  less-zero = refl;
  less-neg_zero = refl;
  abs-zero = refl;
}

pub signed-DoubleRules : DoubleRules unchanged IsFinite
unfolding add negate is_same
signed-DoubleRules = record {
  sqrt-zero = refl;
  widen-zero = refl;
  widen-one = refl;
  narrow-one = refl;
  one_sub-zero = refl;
  one_sub-one = refl;
  one_add_div_self = λ x (s, a, e). rw e (one_add_div_self s a);
}
