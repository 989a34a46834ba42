-- ===== src/Provider/Numbers.antt =====
-- strconv of Go's library, as the providers use it: Atoi, ParseInt to base 10 and 64 bits,
-- ParseBool, and Itoa with a sign.
use traefik_release.Base.{
  ℕ, zero, suc, ◌+◌, ◌-◌, ◌*◌, ◌/◌, ◌%◌, ◌^◌, ◌≤◌, ◌<◌, ◌≡◌, ◌∙◌, inl, inr, Bool, true, false,
  Option, none, some, [], ◌∷◌, arith, ltb, leb, ◌==◌, if◌then◌else◌, Bool-cases, length, any, Text,
  txt, eqt,
}
use traefik_release.Server.Redirects.{is_digit}
use traefik_release.Provider.Cluster.{itoa_from, itoa}

-- `negsuc n` is -(n + 1).
pub data ℤ : Type 0 where
  pos : ℕ → ℤ
  negsuc : ℕ → ℤ

-- math.MaxInt64
abbrev pub max_int64 : ℕ
max_int64 = 2 ^ 63 - 1

-- An int64, which an int is too on the platforms that matter.
abbrev pub InRange : ℤ → Type 0
InRange (pos n) = n ≤ max_int64
InRange (negsuc n) = n ≤ max_int64

unfoldable pub digits_value : ℕ → Text → Option ℕ
digits_value acc [] = some acc
digits_value acc (c ∷ s) =
    let rest = digits_value (acc * 10 + (c - b'0')) s in if is_digit c then rest else none

-- The digits behind a sign; an error where there are none.
unfoldable pub parse_digits : Text → Option ℕ
unfolding digits_value
parse_digits [] = none
parse_digits (c ∷ s) = digits_value 0 (c ∷ s)

unfoldable pub as_positive : Option ℕ → Option ℤ
as_positive none = none
as_positive (some n) = if leb n max_int64 then some (pos n) else none

unfoldable pub as_negative : Option ℕ → Option ℤ
as_negative none = none
as_negative (some zero) = some (pos 0)
as_negative (some (suc n)) = if leb n max_int64 then some (negsuc n) else none

-- No result is an error, of the syntax or the range.
unfoldable pub parse_int : Text → Option ℤ
unfolding parse_digits as_positive as_negative
parse_int [] = none
parse_int (c ∷ s) =
    if c == b'-'
    then as_negative (parse_digits s)
    else if c == b'+'
    then as_positive (parse_digits s)
    else as_positive (parse_digits (c ∷ s))

unfoldable pub itoa_int : ℤ → Text
itoa_int (pos n) = itoa n
itoa_int (negsuc n) = b'-' ∷ itoa (n + 1)

-- strconv.ParseBool
unfoldable pub parse_bool : Text → Option Bool
unfolding eqt any
parse_bool s =
    if any (eqt s) (txt "1" ∷ txt "t" ∷ txt "T" ∷ txt "true" ∷ txt "TRUE" ∷ txt "True" ∷ [])
    then some true
    else if any (eqt s) (txt "0" ∷ txt "f" ∷ txt "F" ∷ txt "false" ∷ txt "FALSE" ∷ txt "False" ∷ [])
    then some false
    else none

as_positive-InRange : (o : Option ℕ) (z : ℤ) → as_positive o ≡ some z → InRange z
unfolding as_positive
as_positive-InRange none z h = cc
as_positive-InRange (some n) (pos k) h = ground arith
as_positive-InRange (some n) (negsuc k) h = ground arith

as_negative-InRange : (o : Option ℕ) (z : ℤ) → as_negative o ≡ some z → InRange z
unfolding as_negative
as_negative-InRange none z h = cc
as_negative-InRange (some zero) (pos k) h = ground arith
as_negative-InRange (some zero) (negsuc k) h = ground arith
as_negative-InRange (some (suc n)) (pos k) h = ground arith
as_negative-InRange (some (suc n)) (negsuc k) h = ground arith

-- Whatever the text, a number that is read is an int64.
pub parse_int-InRange : (s : Text) (z : ℤ) → parse_int s ≡ some z → InRange z
unfolding parse_int
parse_int-InRange [] z h = cc
parse_int-InRange (c ∷ s) z h = ground (
  arith,
  as_negative-InRange (parse_digits s) z,
  as_positive-InRange (parse_digits s) z,
  as_positive-InRange (parse_digits (c ∷ s)) z,
)

digits_value-digit :
    (acc d n : ℕ) (ds : Text)
    → d < 10
    → acc * 10 + d ≡ n
    → digits_value acc ((b'0' + d) ∷ ds) ≡ digits_value n ds
unfolding digits_value
digits_value-digit acc d n ds h e =
    let digit : is_digit (b'0' + d) ≡ true = ground arith in
    let same : acc * 10 + (b'0' + d - b'0') ≡ n = omega arith in rw (digit, same)

digits_value-itoa_from :
    (fuel n : ℕ) (ds : Text) → n < fuel → digits_value 0 (itoa_from fuel n ds) ≡ digits_value n ds
unfolding itoa_from
digits_value-itoa_from zero n ds h = absurd (omega arith)
digits_value-itoa_from (suc fuel) n ds h = elim (Bool-cases (ltb n 10)) [
  | inl e ↦ rw e (digits_value-digit 0 (n % 10) n ds (omega arith) (ground arith))
  | inr e ↦ rw e (
      digits_value-itoa_from fuel (n / 10) ((b'0' + n % 10) ∷ ds) (ground arith)
      ∙ digits_value-digit (n / 10) (n % 10) n ds (omega arith) (omega arith))
]

itoa_from_grows : (fuel n : ℕ) (ds : Text) → length ds ≤ length (itoa_from fuel n ds)
unfolding itoa_from
itoa_from_grows zero n ds = omega arith
itoa_from_grows (suc fuel) n ds =
    ground (arith, itoa_from_grows fuel (n / 10) ((b'0' + n % 10) ∷ ds))

itoa_not_empty : (n : ℕ) → 0 < length (itoa n)
unfolding itoa itoa_from
itoa_not_empty zero = omega arith
itoa_not_empty (suc n) =
    ground (arith, itoa_from_grows (suc n) (suc n / 10) ((b'0' + suc n % 10) ∷ []))

digits_value-itoa : (n : ℕ) → digits_value 0 (itoa n) ≡ some n
unfolding itoa digits_value
digits_value-itoa n = digits_value-itoa_from (n + 1) n [] (omega arith)

parse_digits-text :
    (s : Text) (n : ℕ) → 0 < length s → digits_value 0 s ≡ some n → parse_digits s ≡ some n
unfolding parse_digits
parse_digits-text [] n h e = absurd (omega arith)
parse_digits-text (c ∷ s) n h e = e

-- A text of digits has no sign.
parse_int-text :
    (s : Text) (n : ℕ)
    → 0 < length s
    → digits_value 0 s ≡ some n
    → n ≤ max_int64
    → parse_int s ≡ some (pos n)
unfolding parse_int parse_digits digits_value
parse_int-text [] n h e r = absurd (omega arith)
parse_int-text (c ∷ s) n h e r = elim (Bool-cases (is_digit c)) [
  | inl d ↦
      let minus : (c == b'-') ≡ false = ground arith in
      let plus : (c == b'+') ≡ false = ground arith in
      let small : leb n max_int64 ≡ true = ground arith in rw (minus, plus, e, as_positive, small)
  | inr d ↦ ground arith
]

negative_read : (n : ℕ) → n ≤ max_int64 → parse_int (b'-' ∷ itoa (n + 1)) ≡ some (negsuc n)
unfolding parse_int
negative_read n h =
    let read =
      parse_digits-text (itoa (n + 1)) (n + 1) (itoa_not_empty (n + 1))
        (digits_value-itoa (n + 1)) in
    let small : leb n max_int64 ≡ true = ground arith in
    let next : n + 1 ≡ suc n = omega arith in rw (read, next, as_negative, small)

-- Reading undoes printing, on all of int64.
pub parse_int-itoa_int : (z : ℤ) → InRange z → parse_int (itoa_int z) ≡ some z
unfolding itoa_int
parse_int-itoa_int (pos n) h = parse_int-text (itoa n) n (itoa_not_empty n) (digits_value-itoa n) h
parse_int-itoa_int (negsuc n) h = negative_read n h
