-- ===== src/Numbers.antt =====
-- The decimal parsers of src/core/numbers.c. A character is its code. The accumulator of a parser is
-- never positive, so that the least number of the type can be read: the model holds its negation, a
-- natural number, and `limit` is the negation of the least number, 2^31 or 2^63.
use c_specx.Base.{
  ℕ, ◌+◌, ◌-◌, ◌*◌, Bool, true, false, ◌||◌, Option, none, some, List, [], ◌∷◌, ltb, ◌==◌,
  if◌then◌else◌, ℤ, pos, neg, ◌^◌,
}
pub mod Parse
mod Tests

-- `safe_mul_i64 (&acc, acc, 10)` and `safe_sub_i64 (&acc, acc, digit)`, on the negated accumulator.
unfoldable pub safe_mul_10 : ℕ → ℕ → Option ℕ
safe_mul_10 limit acc = if ltb limit (acc * 10) then none else some (acc * 10)

unfoldable pub safe_sub : ℕ → ℕ → ℕ → Option ℕ
safe_sub limit acc digit = if ltb limit (acc + digit) then none else some (acc + digit)

-- The step of the loop; `none` is the jump to `failed`.
unfoldable pub add_digit : ℕ → ℕ → ℕ → Option ℕ
add_digit limit acc c = elim (safe_mul_10 limit acc) [
  | none ↦ none
  | some acc10 ↦ safe_sub limit acc10 (c - 48)
]

-- The loop over the characters of the digits.
unfoldable pub parse_digits : ℕ → ℕ → List ℕ → Option ℕ
parse_digits limit acc [] = some acc
parse_digits limit acc (c ∷ cs) = elim (add_digit limit acc c) [
  | none ↦ none
  | some acc' ↦ parse_digits limit acc' cs
]

-- What is behind the loop.
unfoldable pub finish : ℕ → Bool → Option ℕ → Option ℤ
finish limit negative none = none
finish limit true (some acc) = some (neg acc)
finish limit false (some acc) = if acc == limit then none else some (pos acc)

-- A sign, 43 for + and 45 for -, or none, and digits.
unfoldable pub parse_signed : ℕ → List ℕ → Option ℤ
unfolding finish
parse_signed limit [] = none
parse_signed limit (c ∷ cs) =
    if c == 43 || c == 45
    then finish limit (c == 45) (parse_digits limit 0 cs)
    else finish limit false (parse_digits limit 0 (c ∷ cs))

unfoldable pub parse_i64_expect : List ℕ → Option ℤ
parse_i64_expect cs = parse_signed (2 ^ 63) cs

unfoldable pub parse_i32_expect : List ℕ → Option ℤ
parse_i32_expect cs = parse_signed (2 ^ 31) cs
