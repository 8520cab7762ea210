-- ===== src/Arith/Counting.antt =====
-- An arithmetic that runs the tests: both formats are the natural numbers, a literal is its digits, and
-- subtraction stops at 0.
use ssimulacra2_vulcan.Common.{ℕ, ◌+◌, ◌-◌, ◌*◌, ◌/◌, ltb, ◌==◌}
use ssimulacra2_vulcan.Arith.{Arith, Doubles}

instance abbrev pub counting : Arith ℕ
counting = record {
  add = λ x y. x + y;
  sub = λ x y. x - y;
  mul = λ x y. x * y;
  div = λ x y. x / y;
  neg = λ x. x;
  abs = λ x. x;
  less = ltb;
  equal = ◌==◌;
  decimal = λ m k. m;
}

abbrev pub identity : Doubles ℕ ℕ
identity = record { widen = λ x. x; narrow = λ x. x; sqrt = λ x. x; pow = λ x y. x }
