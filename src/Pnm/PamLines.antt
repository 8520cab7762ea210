-- ===== src/Pnm/PamLines.antt =====
-- src/lib/extras/dec/pnm.cc, ParseHeaderPAM: the loop over the lines of a PAM header.
use ssimulacra2_vulcan.Common.{
  ℕ, zero, suc, ◌<◌, ◌≤◌, ◌≡◌, ◌≢◌, ◌⊎◌, subst, Bool, true, false, Option, some, [], ◌∷◌, length,
  ◌==◌, if◌then◌else◌, ◌>>=◌, Bytes, codes, arith, Bool-cases, inl, inr, bind-eq-some, Option-cases,
}
use ssimulacra2_vulcan.Pnm.Lexer.{
  CommentMode, between, inside, breaks, drop_whitespace, drop_comments, skip_whitespace,
  skip_single_whitespace, after_keyword, behind_blank, match_string, parse_unsigned, parse_digits,
  is_digit, is_whitespace, add_digit,
}
use ssimulacra2_vulcan.Pnm.Pam.{PamFields, out_of_fuel, set_number, tuple_type, pam_line, pam_lines}

drop_whitespace_le : (cs : Bytes) → length (drop_whitespace cs) ≤ length cs
unfolding drop_whitespace
drop_whitespace_le [] = omega arith
drop_whitespace_le (c ∷ cs) = ground (arith, drop_whitespace_le cs)

drop_comments_le : (m : CommentMode) (cs : Bytes) → length (drop_comments m cs) ≤ length cs
unfolding drop_comments
drop_comments_le between [] = omega arith
drop_comments_le inside [] = omega arith
drop_comments_le breaks [] = omega arith
drop_comments_le between (c ∷ cs) = ground (arith, drop_comments_le inside cs)
drop_comments_le inside (c ∷ cs) =
    ground (arith, drop_comments_le breaks cs, drop_comments_le inside cs)
drop_comments_le breaks (c ∷ cs) =
    ground (arith, drop_comments_le breaks cs, drop_comments_le inside cs)

-- At a blank the first byte goes at once, at a comment with the comment.
skipped_le :
    (c : ℕ) (cs : Bytes)
    → is_whitespace c ≡ true ⊎ (c == b'#') ≡ true
    → length (drop_comments between (drop_whitespace (c ∷ cs))) ≤ length cs
unfolding drop_whitespace
skipped_le c cs (inl h) =
    rw h (omega (arith, drop_comments_le between (drop_whitespace cs), drop_whitespace_le cs))
skipped_le c cs (inr h) = unfold drop_comments in ground (arith, drop_comments_le inside cs)

skip_whitespace_lt : (cs rest : Bytes) → skip_whitespace cs ≡ some rest → length rest < length cs
unfolding skip_whitespace
skip_whitespace_lt [] rest h = ground arith
skip_whitespace_lt (c ∷ cs) rest h = elim (Bool-cases (is_whitespace c)) [
  | inl w ↦ ground (
    arith,
    skipped_le c cs (inl w),
    drop_whitespace_le (drop_comments between (drop_whitespace (c ∷ cs))),
  )
  | inr w ↦ elim (Bool-cases (c == b'#')) [
    | inl k ↦ ground (
      arith,
      skipped_le c cs (inr k),
      drop_whitespace_le (drop_comments between (drop_whitespace (c ∷ cs))),
    )
    | inr k ↦ ground arith
  ]
]

skip_single_whitespace_lt :
    (cs rest : Bytes) → skip_single_whitespace cs ≡ some rest → length rest < length cs
unfolding skip_single_whitespace
skip_single_whitespace_lt [] rest h = ground arith
skip_single_whitespace_lt (c ∷ cs) rest h = ground arith

after_keyword_le : (k cs rest : Bytes) → after_keyword k cs ≡ some rest → length rest ≤ length cs
unfolding after_keyword
after_keyword_le [] cs rest h = ground arith
after_keyword_le (k ∷ ks) [] rest h = ground arith
after_keyword_le (k ∷ ks) (c ∷ cs) rest h = ground (arith, after_keyword_le ks cs rest)

pub match_string_le :
    (k : Bytes) (skip : Bool) (cs : Bytes) → length ((match_string k skip cs).1) ≤ length cs
unfolding match_string
match_string_le k skip cs = elim (Option-cases (after_keyword k cs)) [
  | inl none_eq ↦ ground arith
  | inr (rest, found) ↦ ground (arith, blank skip rest (after_keyword_le k cs rest found))
]
  where
    blank :
        (w : Bool) (rest : Bytes)
        → length rest ≤ length cs
        → length (
            (behind_blank rest (if w then skip_whitespace rest else skip_single_whitespace rest)).1)
          ≤ length cs
    blank true rest h = elim (Option-cases (skip_whitespace rest)) [
      | inl e ↦ rw e h
      | inr (rest', e) ↦ rw e (omega (arith, skip_whitespace_lt rest rest' e))
    ]
    blank false rest h = elim (Option-cases (skip_single_whitespace rest)) [
      | inl e ↦ rw e h
      | inr (rest', e) ↦ rw e (omega (arith, skip_single_whitespace_lt rest rest' e))
    ]

parse_digits_le : (cs : Bytes) (n : ℕ) → length ((parse_digits cs n).1) ≤ length cs
unfolding parse_digits
parse_digits_le [] n = omega arith
parse_digits_le (c ∷ cs) n = ground (arith, parse_digits_le cs (add_digit n c))

parse_unsigned_le :
    (cs : Bytes) (r : ℕ × Bytes) → parse_unsigned cs ≡ some r → length (r.1) ≤ length cs
unfolding parse_unsigned
parse_unsigned_le [] r h = ground arith
parse_unsigned_le (c ∷ cs) r h = elim (Bool-cases (is_digit c)) [
  | inl e ↦
      let first : parse_digits (c ∷ cs) 0 ≡ r = ground arith in
      subst (λ (x : ℕ × Bytes). length (x.1) ≤ suc (length cs)) first (parse_digits_le (c ∷ cs) 0)
  | inr e ↦ ground arith
]

-- What a step leaves is no longer than what it got.
abbrev NoLonger : Bytes → Option (PamFields × Bytes) → Type 0
NoLonger cs r = (f : PamFields) (rest : Bytes) → r ≡ some (f, rest) → length rest ≤ length cs

set_number_le : (set : ℕ → PamFields) (cs : Bytes) → NoLonger cs (set_number set cs)
set_number_le set cs f rest h =
    let (n, e, e') = bind-eq-some (parse_unsigned cs) (λ n. some (set (n.0), n.1)) h in
    let same : n.1 ≡ rest = cc in subst (λ r. length r ≤ length cs) same (parse_unsigned_le cs n e)

tuple_type_le : (f : PamFields) (cs : Bytes) → NoLonger cs (tuple_type f cs)
unfolding tuple_type
tuple_type_le f p0 g rest h =
    let p1 = (match_string (codes "RGB_ALPHA") true p0).1 in
    let p2 = (match_string (codes "RGB") true p1).1 in
    let p3 = (match_string (codes "GRAYSCALE_ALPHA") true p2).1 in
    let p4 = (match_string (codes "GRAYSCALE") true p3).1 in
    let p5 = (match_string (codes "BLACKANDWHITE_ALPHA") true p4).1 in
    ground (
      arith,
      match_string_le (codes "RGB_ALPHA") true p0,
      match_string_le (codes "RGB") true p1,
      match_string_le (codes "GRAYSCALE_ALPHA") true p2,
      match_string_le (codes "GRAYSCALE") true p3,
      match_string_le (codes "BLACKANDWHITE_ALPHA") true p4,
      match_string_le (codes "BLACKANDWHITE") true p5,
    )

pam_line_le : (f : PamFields) (cs : Bytes) → NoLonger cs (pam_line f cs)
unfolding pam_line
pam_line_le f p0 g rest h =
    let p1 = (match_string (codes "WIDTH") true p0).1 in
    let p2 = (match_string (codes "HEIGHT") true p1).1 in
    let p3 = (match_string (codes "DEPTH") true p2).1 in
    let p4 = (match_string (codes "MAXVAL") true p3).1 in
    let p5 = (match_string (codes "TUPLTYPE") true p4).1 in
    ground (
      arith,
      match_string_le (codes "WIDTH") true p0,
      match_string_le (codes "HEIGHT") true p1,
      match_string_le (codes "DEPTH") true p2,
      match_string_le (codes "MAXVAL") true p3,
      match_string_le (codes "TUPLTYPE") true p4,
      tuple_type_le f p5 g rest,
      set_number_le (λ n. record f { header = record (f.header) { xsize = n } }) p1 g rest,
      set_number_le (λ n. record f { header = record (f.header) { ysize = n } }) p2 g rest,
      set_number_le (λ n. record f { depth = n }) p3 g rest,
      set_number_le (λ n. record f { max_val = n }) p4 g rest,
    )

-- A round of the loop takes at least one byte.
round_lt :
    (f g : PamFields) (cs rest : Bytes)
    → (skip_whitespace cs >>= pam_line f) ≡ some (g, rest)
    → length rest < length cs
round_lt f g cs rest h =
    let (mid, e, e') = bind-eq-some (skip_whitespace cs) (pam_line f) h in
    omega (arith, skip_whitespace_lt cs mid e, pam_line_le f mid g rest e')

-- The loop over the lines ends within any number of rounds above the number of bytes.
pub pam_lines_enough :
    (fuel : ℕ) (f : PamFields) (cs : Bytes) → length cs < fuel → pam_lines fuel f cs ≢ out_of_fuel
unfolding pam_lines
pam_lines_enough zero f cs h e = omega arith
pam_lines_enough (suc fuel) f cs h e =
    elim (Bool-cases ((match_string (codes "ENDHDR") false cs).0)) [
      | inl at_end ↦ ground arith
      | inr more ↦
          let p1 = (match_string (codes "ENDHDR") false cs).1 in
          elim (Option-cases (skip_whitespace p1 >>= pam_line f)) [
            | inl bad ↦ ground arith
            | inr ((g, p2), good) ↦
                pam_lines_enough fuel g p2
                  (omega
                    (arith, round_lt f g p1 p2 good, match_string_le (codes "ENDHDR") false cs))
                  (ground arith)
          ]
    ]
