-- ===== src/Pnm/Lexer.antt =====
-- src/lib/extras/dec/pnm.cc, class Parser: numbers, blanks and keywords. The bytes from `pos_` to
-- `end_` are a list; a method returns those that are left, or nothing where it returns false.
use ssimulacra2_vulcan.Common.{
  ℕ, ◌+◌, ◌-◌, ◌*◌, ◌%◌, ◌^◌, Bool, true, false, not, ◌&&◌, ◌||◌, Option, none, some, [], ◌∷◌, leb,
  ◌==◌, if◌then◌else◌, Bytes,
}
use ssimulacra2_vulcan.Arith.{Arith, ◌⊕◌, ◌⊗◌, neg, decimal}

abbrev pub is_digit : ℕ → Bool
is_digit c = leb b'0' c && leb c b'9'

abbrev pub is_line_break : ℕ → Bool
is_line_break c = c == b'\r' || c == b'\n'

abbrev pub is_whitespace : ℕ → Bool
is_whitespace c = is_line_break c || c == b'\t' || c == b' '

-- size_t arithmetic: *number *= 10; *number += digit.
abbrev pub add_digit : ℕ → ℕ → ℕ
add_digit n c = (n * 10 % 2 ^ 64 + (c - b'0')) % 2 ^ 64

-- The loop of ParseUnsigned.
unfoldable pub parse_digits : Bytes → ℕ → ℕ × Bytes
parse_digits [] n = (n, [])
parse_digits (c ∷ cs) n = if is_digit c then parse_digits cs (add_digit n c) else (n, c ∷ cs)

unfoldable pub parse_unsigned : Bytes → Option (ℕ × Bytes)
parse_unsigned [] = none
parse_unsigned (c ∷ cs) = if is_digit c then some (parse_digits (c ∷ cs) 0) else none

module _ {D : Type 0} ⦃d : Arith D⦄ where
  unfoldable pub leading_digits : Bytes → D → D × Bytes
  leading_digits [] n = (n, [])
  leading_digits (c ∷ cs) n =
      if is_digit c
      then leading_digits cs (n ⊗ decimal 10 0 ⊕ decimal (c - b'0') 0)
      else (n, c ∷ cs)

  unfoldable pub decimal_places : Bytes → D → D → D × Bytes
  decimal_places [] n place = (n, [])
  decimal_places (c ∷ cs) n place =
      if is_digit c
      then decimal_places cs (n ⊕ decimal (c - b'0') 0 ⊗ place) (place ⊗ decimal 1 1)
      else (n, c ∷ cs)

  -- The fraction, if there is a point.
  unfoldable pub fraction : D → Bytes → D × Bytes
  fraction n [] = (n, [])
  fraction n (c ∷ cs) = if c == b'.' then decimal_places cs n (decimal 1 1) else (n, c ∷ cs)

  -- The digits behind the sign.
  unfoldable pub parse_magnitude : Bytes → D × Bytes
  parse_magnitude cs = let (n, rest) = leading_digits cs (decimal 0 0) in fraction n rest

  abbrev negate : Bool → D × Bytes → D × Bytes
  negate is_neg (n, rest) = (if is_neg then neg n else n, rest)

  -- After a sign there must be a byte, but it need not be a digit.
  unfoldable pub parse_signed : Bytes → Option (D × Bytes)
  parse_signed [] = none
  parse_signed (c ∷ cs) =
      if not (c == b'-') && not (c == b'+') && not (is_digit c)
      then none
      else if c == b'-' || c == b'+'
      then elim cs [ [] ↦ none | d ∷ ds ↦ some (negate (c == b'-') (parse_magnitude (d ∷ ds))) ]
      else some (parse_magnitude (c ∷ cs))

unfoldable pub skip_blank : Bytes → Option Bytes
skip_blank [] = none
skip_blank (c ∷ cs) = if not (c == b' ') && not (c == b'\n') then none else some cs

unfoldable pub skip_single_whitespace : Bytes → Option Bytes
skip_single_whitespace [] = none
skip_single_whitespace (c ∷ cs) = if not (is_whitespace c) then none else some cs

-- while (pos_ < end_ && IsWhitespace(*pos_)) ++pos_
unfoldable pub drop_whitespace : Bytes → Bytes
drop_whitespace [] = []
drop_whitespace (c ∷ cs) = if is_whitespace c then drop_whitespace cs else c ∷ cs

-- What the loop over the comments looks at next: the start of a comment or of what follows it, the
-- inside of a comment, and the line breaks behind one.
pub data CommentMode : Type 0 where
  between inside breaks : CommentMode

-- while (*pos_ == '#') { skip to a line break; skip the line breaks }
unfoldable pub drop_comments : CommentMode → Bytes → Bytes
drop_comments m [] = []
drop_comments between (c ∷ cs) = if c == b'#' then drop_comments inside cs else c ∷ cs
drop_comments inside (c ∷ cs) = drop_comments (if is_line_break c then breaks else inside) cs
drop_comments breaks (c ∷ cs) =
    let more = drop_comments breaks cs in
    let comment = drop_comments inside cs in
    if is_line_break c then more else (if c == b'#' then comment else c ∷ cs)

unfoldable pub skip_whitespace : Bytes → Option Bytes
skip_whitespace [] = none
skip_whitespace (c ∷ cs) =
    if not (is_whitespace c) && not (c == b'#')
    then none
    else some (drop_whitespace (drop_comments between (drop_whitespace (c ∷ cs))))

-- The bytes behind a keyword.
unfoldable pub after_keyword : Bytes → Bytes → Option Bytes
after_keyword [] cs = some cs
after_keyword (k ∷ ks) [] = none
after_keyword (k ∷ ks) (c ∷ cs) = if k == c then after_keyword ks cs else none

-- What a method that expects a blank returns, and where it stops.
abbrev pub behind_blank : Bytes → Option Bytes → Bool × Bytes
behind_blank cs none = (false, cs)
behind_blank cs (some rest) = (true, rest)

-- Whether the keyword was found, and the position, which stays behind a keyword even if the blank
-- that must follow it is missing. The flag is `skipws`.
unfoldable pub match_string : Bytes → Bool → Bytes → Bool × Bytes
match_string keyword skipws cs = elim (after_keyword keyword cs) [
  | none ↦ (false, cs)
  | some rest ↦
      behind_blank rest (if skipws then skip_whitespace rest else skip_single_whitespace rest)
]
