-- ===== src/DblBuffer/Tests.antt =====
-- Runs of the double buffer, and the theorem about it where its hypotheses hold.
use native.Mathlib.Nat.{mul-le-mul_right}
use mathlib.Core.Option.{some-injective}
use c_specx.Base.{
  sym, ◌∙◌, ℕ, zero, suc, ◌*◌, ◌≤◌, ◌≡◌, refl, ap, Option, some, List, [], ◌∷◌, length, take, arith,
}
use c_specx.DblBuffer.{DblBuffer, dblb_append}
use c_specx.DblBuffer.Append.{IsValid, Reallocates, Outcome, dblb_append_lem}

-- The first bytes of `m`, `k` of them, with zeros where it has no more.
abbrev resized : List ℕ → ℕ → List ℕ
resized m zero = []
resized [] (suc k) = 0 ∷ resized [] k
resized (x ∷ m) (suc k) = x ∷ resized m k

abbrev resize : List ℕ → ℕ → ℕ → ℕ → Option (List ℕ)
resize m old new size = some (resized m (new * size))

length-resized : (m : List ℕ) (k : ℕ) → length (resized m k) ≡ k
length-resized m zero = refl
length-resized [] (suc k) = omega (arith, length-resized [] k)
length-resized (x ∷ m) (suc k) = omega (arith, length-resized m k)

take-resized : (n k : ℕ) (m : List ℕ) → n ≤ length m → n ≤ k → take n (resized m k) ≡ take n m
take-resized zero k m h le = refl
take-resized (suc n) zero m h le = absurd (omega arith)
take-resized (suc n) (suc k) [] h le = absurd (omega arith)
take-resized (suc n) (suc k) (x ∷ m) h le =
    ap (λ t. x ∷ t) (take-resized n k m (omega arith) (omega arith))

-- Two bytes an element; one of three elements is in use.
abbrev one_elem : DblBuffer
one_elem = record { mem = 1 ∷ 2 ∷ 0 ∷ 0 ∷ 0 ∷ 0 ∷ []; size = 2; nelem = 1; nelem_cap = 3 }

one_elem-IsValid : IsValid one_elem
one_elem-IsValid = record { some_size = omega arith; within = omega arith; storage = omega arith }

resize-Reallocates : Reallocates resize
resize-Reallocates m m' old new size held le e =
    let same = some-injective (resized m (new * size)) m' e in
    let fewer : old * size ≤ new * size = mul-le-mul_right {m = old} {n = new} size le in
    (
      omega (arith, ap length (sym same), length-resized m (new * size)),
      ap (take (old * size)) (sym same) ∙ take-resized (old * size) (new * size) m held fewer,
    )

dblb_append_lem_example : Outcome one_elem (3 ∷ 4 ∷ []) (dblb_append resize one_elem (3 ∷ 4 ∷ []) 1)
dblb_append_lem_example =
    dblb_append_lem resize 1 (3 ∷ 4 ∷ []) resize-Reallocates one_elem-IsValid refl (omega arith)
      (omega arith)
