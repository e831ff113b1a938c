-- ===== src/Base/Bytes.antt =====
-- Byte arrays as lists: what `memcpy` reads and writes.
use Prim.Native.Nat.{ℕ, zero, suc, ◌+◌, ◌-◌, ◌≤◌, ◌<◌}
use mathlib.Core.Path.{◌≡◌, refl, sym, ap, ap₂, ◌∙◌}
use mathlib.Core.List.{List, [], ◌∷◌, ◌++◌, append_assoc}
use native.Mathlib.Omega.{arith}
use c_specx.Base.Lists.{
  length, set, take, drop, length-set, length-take, length-drop, take-append-drop,
  take-length-append, drop-length-append, take-add, drop-drop, take-nil,
}

-- The `n` elements from index `i` on: the source of a `memcpy`.
abbrev pub slice {ℓ} : {A : Type ℓ} → List A → ℕ → ℕ → List A
slice xs i n = take n (drop i xs)

-- `memcpy` of `ys` to index `i` of `xs`. What would fall past the end is not written.
unfoldable pub splice {ℓ} : {A : Type ℓ} → List A → ℕ → List A → List A
splice xs i [] = xs
splice xs i (y ∷ ys) = splice (set xs i y) (i + 1) ys

module _ {ℓ} {A : Type ℓ} where
  pub splice-nil : (xs : List A) (i : ℕ) → splice xs i [] ≡ xs
  unfolding splice
  splice-nil xs i = refl

  pub splice-cons :
      (xs : List A) (i : ℕ) (y : A) (ys : List A)
      → splice xs i (y ∷ ys) ≡ splice (set xs i y) (i + 1) ys
  unfolding splice
  splice-cons xs i y ys = refl

  pub length-splice : (xs : List A) (i : ℕ) (ys : List A) → length (splice xs i ys) ≡ length xs
  unfolding splice
  length-splice xs i [] = refl
  length-splice xs i (y ∷ ys) = length-splice (set xs i y) (i + 1) ys ∙ length-set xs i y

  pub length-slice : (xs : List A) (i n : ℕ) → i + n ≤ length xs → length (slice xs i n) ≡ n
  length-slice xs i n h = omega (arith, length-take n (drop i xs), length-drop i xs)

  take-set :
      (xs : List A) (i : ℕ) (y : A)
      → i < length xs
      → take (suc i) (set xs i y) ≡ take i xs ++ y ∷ []
  take-set [] i y h = absurd (omega arith)
  take-set (x ∷ xs) zero y h = refl
  take-set (x ∷ xs) (suc i) y h = ap (λ t. x ∷ t) (take-set xs i y (omega arith))

  drop-set : (xs : List A) (i k : ℕ) (y : A) → i < k → drop k (set xs i y) ≡ drop k xs
  drop-set xs i zero y h = absurd (omega arith)
  drop-set [] i (suc k) y h = refl
  drop-set (x ∷ xs) zero (suc k) y h = refl
  drop-set (x ∷ xs) (suc i) (suc k) y h = drop-set xs i k y (omega arith)

  -- A `memcpy` that stays within the array.
  pub splice-eq :
      (xs : List A) (i : ℕ) (ys : List A)
      → i + length ys ≤ length xs
      → splice xs i ys ≡ take i xs ++ (ys ++ drop (i + length ys) xs)
  unfolding splice
  splice-eq xs i [] h =
      sym (take-append-drop i xs)
      ∙ ap (λ (k : ℕ). take i xs ++ drop k xs) {y = i + length {A = A} []} (omega arith)
  splice-eq xs i (y ∷ ys) h =
      splice-eq (set xs i y) (i + 1) ys (omega (arith, length-set xs i y))
      ∙ ap₂ (λ (a b : List A). a ++ (ys ++ b))
          (ap (λ (k : ℕ). take k (set xs i y)) {y = suc i} (omega arith)
            ∙ take-set xs i y (omega arith))
          (drop-set xs i (i + 1 + length ys) y (omega arith)
            ∙ ap (λ (k : ℕ). drop k xs) (omega arith))
      ∙ append_assoc (take i xs) (y ∷ []) (ys ++ drop (i + length (y ∷ ys)) xs)

  pub take-splice :
      (xs : List A) (i : ℕ) (ys : List A)
      → i + length ys ≤ length xs
      → take i (splice xs i ys) ≡ take i xs
  take-splice xs i ys h =
      ap (take i) (splice-eq xs i ys h)
      ∙ take-length-append (take i xs) (ys ++ drop (i + length ys) xs) i
          (omega (arith, length-take i xs))

  pub drop-splice :
      (xs : List A) (i : ℕ) (ys : List A)
      → i + length ys ≤ length xs
      → drop i (splice xs i ys) ≡ ys ++ drop (i + length ys) xs
  drop-splice xs i ys h =
      ap (drop i) (splice-eq xs i ys h)
      ∙ drop-length-append (take i xs) (ys ++ drop (i + length ys) xs) i
          (omega (arith, length-take i xs))

  pub slice-splice :
      (xs : List A) (i : ℕ) (ys : List A)
      → i + length ys ≤ length xs
      → slice (splice xs i ys) i (length ys) ≡ ys
  slice-splice xs i ys h =
      ap (take (length ys)) (drop-splice xs i ys h) ∙ take-length-append ys _ (length ys) refl

  pub drop-splice_end :
      (xs : List A) (i : ℕ) (ys : List A)
      → i + length ys ≤ length xs
      → drop (i + length ys) (splice xs i ys) ≡ drop (i + length ys) xs
  drop-splice_end xs i ys h =
      sym (drop-drop (length ys) i (splice xs i ys))
      ∙ ap (drop (length ys)) (drop-splice xs i ys h)
      ∙ drop-length-append ys _ (length ys) refl

  pub take-splice_end :
      (xs : List A) (i : ℕ) (ys : List A)
      → i + length ys ≤ length xs
      → take (i + length ys) (splice xs i ys) ≡ take i xs ++ ys
  take-splice_end xs i ys h =
      take-add i (length ys) (splice xs i ys)
      ∙ ap₂ (λ (a b : List A). a ++ b) (take-splice xs i ys h) (slice-splice xs i ys h)

  pub take-take_of_le : (n m : ℕ) (xs : List A) → n ≤ m → take n (take m xs) ≡ take n xs
  take-take_of_le zero m xs h = refl
  take-take_of_le (suc n) zero xs h = absurd (omega arith)
  take-take_of_le (suc n) (suc m) [] h = refl
  take-take_of_le (suc n) (suc m) (x ∷ xs) h =
      ap (λ t. x ∷ t) (take-take_of_le n m xs (omega arith))

  pub drop-take : (n m : ℕ) (xs : List A) → drop n (take m xs) ≡ slice xs n (m - n)
  drop-take zero m xs = ap (λ (k : ℕ). take k xs) {x = m} {y = m - 0} (omega arith)
  drop-take (suc n) zero xs =
      ap (λ (k : ℕ). take k (drop (suc n) xs)) {x = 0} {y = 0 - suc n} (omega arith)
  drop-take (suc n) (suc m) [] = sym (take-nil (suc m - suc n))
  drop-take (suc n) (suc m) (x ∷ xs) =
      drop-take n m xs
      ∙ ap (λ (k : ℕ). take k (drop n xs)) {x = m - n} {y = suc m - suc n} (omega arith)

  -- The bytes of an array with `src` put in at `ofst`.
  abbrev pub inserted : List A → ℕ → List A → List A
  inserted xs ofst src = take ofst xs ++ (src ++ drop ofst xs)

  pub slice-take : (xs : List A) (m i n : ℕ) → i + n ≤ m → slice (take m xs) i n ≡ slice xs i n
  slice-take xs m i n h =
      ap (take n) (drop-take i m xs) ∙ take-take_of_le n (m - i) (drop i xs) (omega arith)
