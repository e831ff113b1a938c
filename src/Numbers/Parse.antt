-- ===== src/Numbers/Parse.antt =====
-- The parsers read the number that the digits stand for, and fail just where it is out of range.
use c_specx.Base.{
  ℕ, ◌+◌, ◌-◌, ◌*◌, ◌^◌, ◌≤◌, ◌<◌, ◌≡◌, refl, inl, inr, Bool, true, false, ◌||◌, Option, none, some,
  List, [], ◌∷◌, ltb, ◌==◌, if◌then◌else◌, ℤ, pos, neg, le_or_lt, arith,
}
use c_specx.Numbers.{
  safe_mul_10, safe_sub, add_digit, parse_digits, finish, parse_signed, parse_i64_expect,
  parse_i32_expect,
}

abbrev pub AreDigits : List ℕ → Type 0
AreDigits [] = Unit
AreDigits (c ∷ cs) = (48 ≤ c) × (c ≤ 57) × AreDigits cs

-- The number that digits stand for, behind digits that stand for `acc`.
unfoldable pub value : ℕ → List ℕ → ℕ
value acc [] = acc
value acc (c ∷ cs) = value (acc * 10 + (c - 48)) cs

value-le : (acc : ℕ) (cs : List ℕ) → acc ≤ value acc cs
unfolding value
value-le acc [] = omega arith
value-le acc (c ∷ cs) = omega (arith, value-le (acc * 10 + (c - 48)) cs)

add_digit_fits :
    (limit acc c : ℕ)
    → acc * 10 + (c - 48) ≤ limit
    → add_digit limit acc c ≡ some (acc * 10 + (c - 48))
unfolding add_digit safe_mul_10 safe_sub
add_digit_fits limit acc c h = ground arith

add_digit_over : (limit acc c : ℕ) → limit < acc * 10 + (c - 48) → add_digit limit acc c ≡ none
unfolding add_digit safe_mul_10 safe_sub
add_digit_over limit acc c h = ground arith

parse_digits_fits :
    (limit acc : ℕ) (cs : List ℕ)
    → value acc cs ≤ limit
    → parse_digits limit acc cs ≡ some (value acc cs)
unfolding parse_digits value
parse_digits_fits limit acc [] h = refl
parse_digits_fits limit acc (c ∷ cs) h =
    rw (add_digit_fits limit acc c (omega (arith, value-le (acc * 10 + (c - 48)) cs)), parse_digits)
      (parse_digits_fits limit (acc * 10 + (c - 48)) cs h)

parse_digits_over :
    (limit acc : ℕ) (cs : List ℕ)
    → acc ≤ limit
    → limit < value acc cs
    → parse_digits limit acc cs ≡ none
unfolding parse_digits value
parse_digits_over limit acc [] ok h = absurd (omega arith)
parse_digits_over limit acc (c ∷ cs) ok h = elim (le_or_lt (acc * 10 + (c - 48)) limit) [
  | inl fits ↦
      rw (add_digit_fits limit acc c fits, parse_digits)
        (parse_digits_over limit (acc * 10 + (c - 48)) cs fits h)
  | inr over ↦ rw (add_digit_over limit acc c over, parse_digits) refl
]

-- The result that a parser owes to the digits `cs` behind a sign: in range, or an overflow.
unfoldable pub owed : ℕ → Bool → List ℕ → Option ℤ
owed limit true cs = if ltb limit (value 0 cs) then none else some (neg (value 0 cs))
owed limit false cs = if ltb (value 0 cs) limit then some (pos (value 0 cs)) else none

finish-parse_digits :
    (limit : ℕ) (negative : Bool) (cs : List ℕ)
    → finish limit negative (parse_digits limit 0 cs) ≡ owed limit negative cs
unfolding finish owed
finish-parse_digits limit true cs = elim (le_or_lt (value 0 cs) limit) [
  | inl fits ↦ rw (parse_digits_fits limit 0 cs fits) (ground arith)
  | inr over ↦ rw (parse_digits_over limit 0 cs (omega arith) over) (ground arith)
]
finish-parse_digits limit false cs = elim (le_or_lt (value 0 cs) limit) [
  | inl fits ↦ rw (parse_digits_fits limit 0 cs fits) (ground arith)
  | inr over ↦ rw (parse_digits_over limit 0 cs (omega arith) over) (ground arith)
]

-- The characters of an optional sign and of digits: what the sign says, and the text.
abbrev pub text : Option Bool → List ℕ → List ℕ
text none cs = cs
text (some true) cs = 45 ∷ cs
text (some false) cs = 43 ∷ cs

abbrev pub is_minus : Option Bool → Bool
is_minus (some true) = true
is_minus _ = false

parse_signed_lem :
    (limit : ℕ) (sign : Option Bool) (c : ℕ) (cs : List ℕ)
    → AreDigits (c ∷ cs)
    → parse_signed limit (text sign (c ∷ cs)) ≡ owed limit (is_minus sign) (c ∷ cs)
unfolding parse_signed
parse_signed_lem limit none c cs ds =
    let plain : (c == 43 || c == 45) ≡ false = ground (arith, ds.0) in
    rw plain (finish-parse_digits limit false (c ∷ cs))
parse_signed_lem limit (some true) c cs ds = finish-parse_digits limit true (c ∷ cs)
parse_signed_lem limit (some false) c cs ds = finish-parse_digits limit false (c ∷ cs)

-- `parse_i64_expect` of an optional sign and digits, one at least, returns the number they stand for
-- if it is from -2^63 to 2^63 - 1, and fails otherwise, for any number of digits.
pub parse_i64_expect_lem :
    (sign : Option Bool) (c : ℕ) (cs : List ℕ)
    → AreDigits (c ∷ cs)
    → parse_i64_expect (text sign (c ∷ cs)) ≡ owed (2 ^ 63) (is_minus sign) (c ∷ cs)
unfolding parse_i64_expect
parse_i64_expect_lem sign c cs ds = parse_signed_lem (2 ^ 63) sign c cs ds

-- `parse_i32_expect` of an optional sign and digits, one at least, returns the number they stand for
-- if it is from -2^31 to 2^31 - 1, and fails otherwise, for any number of digits.
pub parse_i32_expect_lem :
    (sign : Option Bool) (c : ℕ) (cs : List ℕ)
    → AreDigits (c ∷ cs)
    → parse_i32_expect (text sign (c ∷ cs)) ≡ owed (2 ^ 31) (is_minus sign) (c ∷ cs)
unfolding parse_i32_expect
parse_i32_expect_lem sign c cs ds = parse_signed_lem (2 ^ 31) sign c cs ds
