-- ===== src/Pnm/Decimal.antt =====
-- Numbers as printf's %zu and %u write them, and what the lexer of pnm.cc reads back.
use native.Mathlib.Nat.{pow-suc}
use ssimulacra2_vulcan.Common.{
  ℕ, zero, suc, ◌+◌, ◌*◌, ◌/◌, ◌%◌, ◌^◌, ◌<◌, ◌≤◌, ◌≡◌, refl, true, false, some, [], ◌∷◌, ◌++◌,
  append_assoc, length, length-append, ltb, if◌then◌else◌, Bytes, arith, ltb→lt, Bool-cases, inl,
  inr, ap, ◌∙◌,
}
use ssimulacra2_vulcan.Pnm.Lexer.{
  is_digit, is_whitespace, add_digit, parse_digits, parse_unsigned, skip_whitespace,
  drop_whitespace, drop_comments,
}

-- The digits of n, for n below 10 ^ fuel.
unfoldable pub digits : ℕ → ℕ → Bytes
digits zero n = []
digits (suc fuel) n =
    let rest = digits fuel (n / 10) in
    if ltb n 10 then (b'0' + n) ∷ [] else rest ++ (b'0' + n % 10) ∷ []

-- A size_t is below 10 ^ 20.
abbrev pub to_decimal : ℕ → Bytes
to_decimal = digits 20

-- The text starts with a digit.
abbrev pub IsNumber : Bytes → Type 0
IsNumber [] = ⊥
IsNumber (c ∷ cs) = is_digit c ≡ true

-- The text does not go on with a digit.
abbrev pub EndsNumber : Bytes → Type 0
EndsNumber [] = Unit {0}
EndsNumber (c ∷ cs) = is_digit c ≡ false

pub digits-IsNumber : (fuel n : ℕ) (rest : Bytes) → IsNumber (digits (suc fuel) n ++ rest)
unfolding digits
digits-IsNumber zero n rest = ground arith
digits-IsNumber (suc fuel) n rest = elim (Bool-cases (ltb n 10)) [
  | inl small ↦ rw small (ground arith)
  | inr large ↦ rw large (
      rw (append_assoc (digits (suc fuel) (n / 10)) ((b'0' + n % 10) ∷ []) rest)
        (digits-IsNumber fuel (n / 10) ((b'0' + n % 10) ∷ rest)))
]

pub length-digits : (fuel n : ℕ) → length (digits fuel n) ≤ fuel
unfolding digits
length-digits zero n = omega arith
length-digits (suc fuel) n = elim (Bool-cases (ltb n 10)) [
  | inl small ↦ rw small (omega arith)
  | inr large ↦ rw large (
      omega (
        arith,
        length-digits fuel (n / 10),
        length-append (digits fuel (n / 10)) ((b'0' + n % 10) ∷ []),
      ))
]

parse_digits-last :
    (d n : ℕ) (rest : Bytes)
    → d < 10
    → n * 10 + d < 2 ^ 64
    → parse_digits ((b'0' + d) ∷ rest) n ≡ parse_digits rest (n * 10 + d)
unfolding parse_digits
parse_digits-last d n rest hd hn =
    let is : is_digit (b'0' + d) ≡ true = ground arith in
    let sum : add_digit n (b'0' + d) ≡ n * 10 + d = omega arith in rw (is, sum)

tenth_lt : (fuel n : ℕ) → n < 10 ^ suc fuel → n / 10 < 10 ^ fuel
tenth_lt fuel n h = omega (arith, pow-suc 10 fuel)

pub parse_digits-digits :
    (fuel n : ℕ) (rest : Bytes)
    → n < 10 ^ fuel
    → n < 2 ^ 64
    → parse_digits (digits fuel n ++ rest) 0 ≡ parse_digits rest n
unfolding digits
parse_digits-digits zero n rest h b = let none_left : n ≡ 0 = omega arith in rw none_left
parse_digits-digits (suc fuel) n rest h b = elim (Bool-cases (ltb n 10)) [
  | inl small ↦ rw small (
      parse_digits-last n 0 rest (ltb→lt n 10 small) (omega arith)
      ∙ ap (parse_digits rest) (omega arith))
  | inr large ↦ rw large (
      rw (append_assoc (digits fuel (n / 10)) ((b'0' + n % 10) ∷ []) rest) (
        parse_digits-digits fuel (n / 10) ((b'0' + n % 10) ∷ rest) (tenth_lt fuel n h) (omega arith)
        ∙ parse_digits-last (n % 10) (n / 10) rest (omega arith) (omega arith)
        ∙ ap (parse_digits rest) (omega arith)))
]

-- A number below 2 ^ 64 that is written out is read back, up to what follows it, if that does not
-- start with a digit.
pub parse_unsigned-to_decimal :
    (n : ℕ) (rest : Bytes)
    → n < 2 ^ 64
    → EndsNumber rest
    → parse_unsigned (to_decimal n ++ rest) ≡ some (n, rest)
parse_unsigned-to_decimal n rest h e =
    parse_number (digits 20 n ++ rest) (digits-IsNumber 19 n rest)
    ∙ ap some (parse_digits-digits 20 n rest (omega arith) h ∙ parse_digits-end n rest e)
  where
    parse_number : (cs : Bytes) → IsNumber cs → parse_unsigned cs ≡ some (parse_digits cs 0)
    parse_number [] i = absurd i
    parse_number (c ∷ cs) i = unfold parse_unsigned in rw i

    parse_digits-end : (m : ℕ) (cs : Bytes) → EndsNumber cs → parse_digits cs m ≡ (m, cs)
    parse_digits-end m [] i = unfold parse_digits in refl
    parse_digits-end m (c ∷ cs) i = unfold parse_digits in rw i

-- One blank before a number is skipped, and the number is not.
pub skip_whitespace-IsNumber :
    (w : ℕ) (cs : Bytes) → is_whitespace w ≡ true → IsNumber cs → skip_whitespace (w ∷ cs) ≡ some cs
unfolding skip_whitespace drop_whitespace drop_comments
skip_whitespace-IsNumber w [] hw h = absurd h
skip_whitespace-IsNumber w (c ∷ cs) hw h = ground arith
