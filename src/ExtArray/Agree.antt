-- ===== src/ExtArray/Agree.antt =====
-- `ext_array_remove` hands out what `ext_array_read` by the same stride reads.
use native.Mathlib.Nat.{mul-le-mul_right, mul_comm}
use c_specx.Base.{
  ℕ, zero, suc, ◌+◌, ◌-◌, ◌*◌, ◌≤◌, ◌<◌, ◌≡◌, refl, sym, ap, ◌∙◌, inl, inr, true, some, List, [],
  ◌∷◌, ◌++◌, ltb, ◌==◌, Bool-cases, length, take, slice, u32_mod, lt→ltb, le→ltb, arith,
  append_assoc, length-append, drop-length-append, take-length-append,
}
use c_specx.Stride.{Stride}
use c_specx.ExtArray.{ExtArray, ext_array_read, ext_array_remove}
use c_specx.ExtArray.Insert.{IsValid, contents}
use c_specx.ExtArray.Strided.{elements, ext_array_read_lem}
use c_specx.ExtArray.Remove.{AllSized, selected, ext_array_remove_lem}
use c_specx.Memory.Serial.RoundTrip.{joined}

pub selected-none : (step i next : ℕ) (es : List (List ℕ)) → selected step i 0 next es ≡ []
unfolding selected
selected-none step i next [] = refl
selected-none step i next (e ∷ es) = selected-none step (suc i) next es

elements_none : (xs : List ℕ) (size gap at : ℕ) → elements xs size gap 0 at ≡ []
unfolding elements
elements_none xs size gap at = refl

elements_past :
    (xs : List ℕ) (size gap left at : ℕ) → length xs < at + size → elements xs size gap left at ≡ []
unfolding elements
elements_past xs size gap zero at h = refl
elements_past xs size gap (suc left) at h = rw (lt→ltb (length xs) (at + size) h) refl

-- Where the element at `next` stands.
element_here :
    (xs pre e rest : List ℕ) (size gap left at : ℕ)
    → xs ≡ pre ++ (e ++ rest)
    → length pre ≡ at
    → length e ≡ size
    → elements xs size gap (suc left) at ≡ e ∷ elements xs size gap left (at + gap)
unfolding elements
element_here xs pre e rest size gap left at eq n m =
    rw
      (le→ltb (length xs) (at + size)
        (omega (arith, ap length eq, length-append pre (e ++ rest), length-append e rest)))
      (ap (λ t. t ∷ elements xs size gap left (at + gap))
        (ap (slice_at at) eq
          ∙ ap (take size) (drop-length-append pre (e ++ rest) at (sym n))
          ∙ take-length-append e rest size (sym m)))
  where
    slice_at : ℕ → List ℕ → List ℕ
    slice_at i ys = slice ys i size

pub elements-eq-selected :
    (xs : List ℕ) (size step i left next : ℕ) (es : List (List ℕ)) (pre : List ℕ)
    → xs ≡ pre ++ joined es
    → AllSized size es
    → 0 < size
    → 0 < step
    → i ≤ next
    → length pre ≡ i * size
    → elements xs size (step * size) left (next * size) ≡ selected step i left next es
unfolding selected
elements-eq-selected xs size step i left next [] pre eq sized bytes pos le n =
    let far : i * size ≤ next * size = mul-le-mul_right {m = i} {n = next} size le in
    elements_past xs size (step * size) left (next * size)
      (omega (arith, ap length eq, length-append pre [], n, far))
elements-eq-selected xs size step i zero next (e ∷ es) pre eq sized bytes pos le n =
    elements_none xs size (step * size) (next * size) ∙ sym (selected-none step (suc i) next es)
elements-eq-selected xs size step i (suc left) next (e ∷ es) pre eq sized bytes pos le n =
    let eq' : xs ≡ (pre ++ e) ++ joined es = eq ∙ sym (append_assoc pre e (joined es)) in
    let any : ltb 0 (suc left) ≡ true = lt→ltb 0 (suc left) (omega arith) in
    let pred : suc left - 1 ≡ left = omega arith in
    let n' : length (pre ++ e) ≡ suc i * size = omega (arith, length-append pre e, sized.0, n) in
    elim (Bool-cases (i == next)) [
      | inl here ↦
          let same : i ≡ next = ground arith in
          rw (any, here, pred)
            (element_here xs pre e (joined es) size (step * size) left (next * size) eq
                (n ∙ ap (λ (k : ℕ). k * size) same) sized.0
              ∙ ap (λ t. e ∷ t)
                  (ap (λ (k : ℕ). elements xs size (step * size) left k)
                      {x = next * size + step * size} {y = (next + step) * size} (omega arith)
                    ∙ elements-eq-selected xs size step (suc i) left (next + step) es (pre ++ e) eq'
                        sized.1 bytes pos (omega arith) n'))
      | inr other ↦
          rw (any, other)
            (elements-eq-selected xs size step (suc i) (suc left) next es (pre ++ e) eq' sized.1
              bytes pos (ground arith) n')
    ]

-- What `ext_array_remove` hands out, and how much, is what `ext_array_read` by the same stride reads
-- before: for a valid array that holds whole elements, a step that is not 0, and byte offsets less
-- than 2^32.
pub ext_array_remove-read :
    (str : Stride) (size : ℕ) (es : List (List ℕ)) {r : ExtArray}
    → IsValid r
    → 0 < size
    → 0 < str.stride
    → AllSized size es
    → contents r ≡ joined es
    → r.len + str.stride < u32_mod
    → str.start * size + size < u32_mod
    → r.len + (size + str.stride * size) < u32_mod
    → let (k, out, r') = ext_array_remove r str size in
      (reads : List (List ℕ)) × (ext_array_read r str size ≡ some reads)
      × (k ≡ length reads)
      × (out ≡ joined reads)
ext_array_remove-read str size es {r} v has_bytes pos sized e small here wide =
    let start_le : str.start ≤ str.start * size =
      omega
        (arith, mul-le-mul_right {m = 1} {n = size} str.start has_bytes, mul_comm size str.start) in
    let moves : 0 < str.stride * size =
      omega (arith, mul-le-mul_right {m = 1} {n = str.stride} size pos) in
    let (_, k, out, _) = ext_array_remove_lem str size es v has_bytes sized e small (omega arith) in
    (
      selected str.stride 0 str.nelems str.start es,
      ext_array_read_lem str size v here wide (inr (has_bytes, moves))
          ∙ ap some (
              elements-eq-selected (contents r) size str.stride 0 str.nelems str.start es [] e sized
                has_bytes pos (omega arith) (omega arith)),
      k,
      out,
    )
