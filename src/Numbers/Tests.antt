-- ===== src/Numbers/Tests.antt =====
-- The parsers on small texts, and their theorems at digits.
use c_specx.Base.{◌≡◌, refl, true, false, none, some, [], ◌∷◌, ◌^◌, negsuc, arith}
use c_specx.Numbers.{
  parse_i64_expect, parse_i32_expect, parse_signed, parse_digits, add_digit, safe_mul_10, safe_sub,
  finish,
}
use c_specx.Numbers.Parse.{owed, parse_i64_expect_lem, parse_i32_expect_lem}

-- The text -56.
minus_56 : parse_i32_expect (45 ∷ 53 ∷ 54 ∷ []) ≡ some (negsuc 55)
unfolding parse_i32_expect parse_signed parse_digits add_digit safe_mul_10 safe_sub finish
minus_56 = refl

-- 2147483648 is out of range and its negation is not.
too_big : parse_i32_expect (50 ∷ 49 ∷ 52 ∷ 55 ∷ 52 ∷ 56 ∷ 51 ∷ 54 ∷ 52 ∷ 56 ∷ []) ≡ none
unfolding parse_i32_expect parse_signed parse_digits add_digit safe_mul_10 safe_sub finish
too_big = refl

least_i32 :
    parse_i32_expect (45 ∷ 50 ∷ 49 ∷ 52 ∷ 55 ∷ 52 ∷ 56 ∷ 51 ∷ 54 ∷ 52 ∷ 56 ∷ [])
    ≡ some (negsuc 2147483647)
unfolding parse_i32_expect parse_signed parse_digits add_digit safe_mul_10 safe_sub finish
least_i32 = refl

parse_i64_expect_lem_example :
    parse_i64_expect (45 ∷ 53 ∷ 54 ∷ []) ≡ owed (2 ^ 63) true (53 ∷ 54 ∷ [])
parse_i64_expect_lem_example =
    parse_i64_expect_lem (some true) 53 (54 ∷ [])
      (omega arith, omega arith, (omega arith, omega arith, tt))

parse_i32_expect_lem_example : parse_i32_expect (53 ∷ 54 ∷ []) ≡ owed (2 ^ 31) false (53 ∷ 54 ∷ [])
parse_i32_expect_lem_example =
    parse_i32_expect_lem none 53 (54 ∷ [])
      (omega arith, omega arith, (omega arith, omega arith, tt))
