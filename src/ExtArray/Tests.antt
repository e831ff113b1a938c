-- ===== src/ExtArray/Tests.antt =====
-- Runs on small arrays, and the theorems at inputs that meet their hypotheses.
use c_specx.Base.{
  ℕ, ◌≤◌, min, ◌≡◌, refl, ap, sym, ◌∙◌, inl, Option, some, List, [], ◌∷◌, ◌++◌, length, take,
  replicate, splice, add32, sub32, mul32, length-replicate, length-append, length-take,
  take-length-append, arith,
}
use c_specx.ExtArray.{
  ExtArray, ext_array_insert, ext_array_reserve, grow_with, insert_in, shift, ext_array_read,
  ext_array_write, write_loop, ext_array_remove, remove_loop, with_out, move_down, Stride,
}
use c_specx.ExtArray.Insert.{IsValid, contents, Outcome, ext_array_insert_lem}
use c_specx.ExtArray.Remove.{AllSized, selected, unselected, ext_array_remove_lem}
use c_specx.ExtArray.Agree.{ext_array_remove-read}
use c_specx.Memory.Serial.RoundTrip.{joined}
use c_specx.ExtArray.Strided.{elements, ext_array_read_lem}

-- An `i_malloc` that always has zeroed memory.
abbrev zeroed : ℕ → Option (List ℕ)
zeroed n = some (replicate n 0)

zeroed_gives : (n : ℕ) (mem : List ℕ) → zeroed n ≡ some mem → n ≤ length mem
zeroed_gives n mem e =
    let same : replicate n 0 ≡ mem = cc in
    let count : length (replicate n 0) ≡ length mem = ap length same in
    omega (arith, length-replicate {A = ℕ} n 0, count)

-- An `i_realloc_right` that copies what there is and has zeros behind it.
abbrev moved : List ℕ → ℕ → ℕ → Option (List ℕ)
moved m old n = some (take (min old n) m ++ replicate n 0)

moved_keeps :
    (m : List ℕ) (old n : ℕ) (m' : List ℕ)
    → old ≤ length m
    → moved m old n ≡ some m'
    → (n ≤ length m') × (take (min old n) m' ≡ take (min old n) m)
moved_keeps m old n m' room e =
    let same : take (min old n) m ++ replicate n 0 ≡ m' = cc in
    let count : length (take (min old n) m ++ replicate n 0) ≡ length m' = ap length same in
    (
      omega (
        arith,
        count,
        length-replicate {A = ℕ} n 0,
        length-append (take (min old n) m) (replicate n 0),
      ),
      ap (take (min old n)) (sym same)
          ∙ take-length-append (take (min old n) m) (replicate n 0) (min old n)
              (omega (arith, length-take (min old n) m)),
    )

-- Four bytes with room for one more.
abbrev four : ExtArray
four = record { mem = 1 ∷ 2 ∷ 3 ∷ 4 ∷ 0 ∷ []; len = 4; cap = 5 }

four-IsValid : IsValid four
four-IsValid = record { within = omega arith; small = omega arith; storage = omega arith }

-- An insertion that makes the array grow.
grown :
    contents (ext_array_insert moved zeroed four 1 (7 ∷ 8 ∷ 9 ∷ []) 3).1
    ≡ 1 ∷ 7 ∷ 8 ∷ 9 ∷ 2 ∷ 3 ∷ 4 ∷ []
unfolding ext_array_insert ext_array_reserve grow_with insert_in shift splice add32 sub32 mul32
grown = refl

-- Every second byte is written.
written :
    ext_array_write four (record { start = 0; stride = 2; nelems = 9 }) 1 (7 ∷ 8 ∷ 9 ∷ [])
    ≡ some (2, record { mem = 7 ∷ 2 ∷ 8 ∷ 4 ∷ 0 ∷ []; len = 4; cap = 5 })
unfolding ext_array_write write_loop splice add32 mul32
written = refl

ext_array_insert_lem_example :
    Outcome
      (1 ∷ 2 ∷ 3 ∷ 4 ∷ [])
      1
      (7 ∷ 8 ∷ 9 ∷ [])
      (ext_array_insert moved zeroed four 1 (7 ∷ 8 ∷ 9 ∷ []) 3)
ext_array_insert_lem_example =
    ext_array_insert_lem moved zeroed (7 ∷ 8 ∷ 9 ∷ []) 1 moved_keeps zeroed_gives four-IsValid
      (omega arith) (omega arith)

ext_array_read_lem_example :
    ext_array_read four (record { start = 1; stride = 2; nelems = 2 }) 1
    ≡ some (elements (1 ∷ 2 ∷ 3 ∷ 4 ∷ []) 1 2 2 1)
ext_array_read_lem_example =
    ext_array_read_lem (record { start = 1; stride = 2; nelems = 2 }) 1 four-IsValid (omega arith)
      (omega arith) (inl (omega arith))

four-AllSized : AllSized 2 ((1 ∷ 2 ∷ []) ∷ (3 ∷ 4 ∷ []) ∷ [])
four-AllSized = (refl, (refl, tt))

-- The first of two elements goes.
removed :
    ext_array_remove four (record { start = 0; stride = 2; nelems = 9 }) 2
    ≡ (1, 1 ∷ 2 ∷ [], record { mem = 3 ∷ 4 ∷ 3 ∷ 4 ∷ 0 ∷ []; len = 2; cap = 5 })
unfolding ext_array_remove remove_loop with_out move_down splice add32 mul32
removed = refl

ext_array_remove_lem_example :
    let (k, out, r') = ext_array_remove four (record { start = 0; stride = 2; nelems = 9 }) 2 in
    IsValid r'
    × (k ≡ length (selected 2 0 9 0 ((1 ∷ 2 ∷ []) ∷ (3 ∷ 4 ∷ []) ∷ [])))
    × (out ≡ joined (selected 2 0 9 0 ((1 ∷ 2 ∷ []) ∷ (3 ∷ 4 ∷ []) ∷ [])))
    × (contents r' ≡ joined (unselected 2 0 9 0 ((1 ∷ 2 ∷ []) ∷ (3 ∷ 4 ∷ []) ∷ [])))
ext_array_remove_lem_example =
    ext_array_remove_lem (record { start = 0; stride = 2; nelems = 9 }) 2
      ((1 ∷ 2 ∷ []) ∷ (3 ∷ 4 ∷ []) ∷ []) four-IsValid (omega arith) four-AllSized refl (omega arith)
      (omega arith)

ext_array_remove-read_example :
    let str : Stride = record { start = 0; stride = 2; nelems = 9 } in
    let (k, out, r') = ext_array_remove four str 2 in
    (reads : List (List ℕ)) × (ext_array_read four str 2 ≡ some reads)
    × (k ≡ length reads)
    × (out ≡ joined reads)
ext_array_remove-read_example =
    ext_array_remove-read (record { start = 0; stride = 2; nelems = 9 }) 2
      ((1 ∷ 2 ∷ []) ∷ (3 ∷ 4 ∷ []) ∷ []) four-IsValid (omega arith) (omega arith) four-AllSized refl
      (omega arith) (omega arith) (omega arith)
