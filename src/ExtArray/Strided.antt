-- ===== src/ExtArray/Strided.antt =====
-- Which elements `ext_array_read` and `ext_array_write` reach.
use c_specx.Base.{
  ℕ, zero, suc, ◌+◌, ◌*◌, ◌<◌, ◌≡◌, refl, inl, inr, List, [], ◌∷◌, ltb, if◌then◌else◌, some, ◌≤◌,
  ◌⊎◌, length, slice, add32_small, mul32_small, u32_mod, le_or_lt, lt→ltb, le→ltb, arith,
  length-take, slice-take,
}
use c_specx.Stride.{Stride}
use c_specx.ExtArray.{ExtArray, with_element, read_loop, ext_array_read}
use c_specx.ExtArray.Insert.{IsValid, contents}

-- The elements of `size` bytes at byte `at` and every `gap` bytes from there on, up to `left` of them,
-- as far as they lie in `xs`.
unfoldable pub elements : List ℕ → ℕ → ℕ → ℕ → ℕ → List (List ℕ)
elements xs size gap zero at = []
elements xs size gap (suc left) at =
    let rest = elements xs size gap left (at + gap) in
    if ltb (length xs) (at + size) then [] else slice xs at size ∷ rest

-- Why the counter of the loop does not wrap: there are few elements, or each round moves on.
abbrev pub CounterFits : ℕ → ℕ → ℕ → Type 0
CounterFits size step nelems = (nelems < u32_mod) ⊎ ((0 < size) × (0 < step * size))

-- The same behind some rounds.
abbrev Counted : ℕ → ℕ → ℕ → ℕ → ℕ → Type 0
Counted size step nelems total bidx =
    (nelems < u32_mod) ⊎ ((0 < size) × (0 < step * size) × (total ≤ bidx))

next_round :
    (size step nelems total bidx len : ℕ)
    → Counted size step nelems total bidx
    → total < nelems
    → bidx + size ≤ len
    → len < u32_mod
    → (total + 1 < u32_mod) × Counted size step nelems (total + 1) (bidx + step * size)
next_round size step nelems total bidx len (inl few) more fits small = (omega arith, inl few)
next_round size step nelems total bidx len (inr (bytes, moves, le)) more fits small =
    (omega arith, inr (bytes, moves, omega arith))

read_loop_lem :
    (fuel size step nelems total bidx : ℕ) {r : ExtArray}
    → IsValid r
    → step * size < u32_mod
    → bidx + size < u32_mod
    → r.len + (size + step * size) < u32_mod
    → total + fuel ≡ nelems
    → Counted size step nelems total bidx
    → read_loop fuel r size step nelems total bidx
      ≡ some (elements (contents r) size (step * size) fuel bidx)
unfolding read_loop elements with_element
read_loop_lem zero size step nelems total bidx {r} v gap here wide left counted =
    rw (le→ltb total nelems (omega arith)) refl
read_loop_lem (suc fuel) size step nelems total bidx {r} v gap here wide left counted =
    let count : length (contents r) ≡ r.len =
      omega (arith, length-take r.len r.mem, v.within, v.storage) in
    rw (lt→ltb total nelems (omega arith), add32_small bidx size here, count)
      (elim (le_or_lt (bidx + size) r.len) [
        | inl fits ↦
            let (small, counted') =
              next_round size step nelems total bidx r.len counted (omega arith) fits
                (omega (arith, v.within, v.small)) in
            rw
              (
                le→ltb r.len (bidx + size) fits,
                mul32_small step size gap,
                add32_small bidx (step * size) (omega arith),
                add32_small total 1 small,
                read_loop_lem fuel size step nelems (total + 1) (bidx + step * size) v gap
                    (omega arith) wide (omega arith) counted',
                slice-take r.mem r.len bidx size fits,
              )
              refl
        | inr out ↦ rw (lt→ltb r.len (bidx + size) out) refl
      ])

-- `ext_array_read` of a valid array ends, and returns the elements of the contents at `start` and every
-- `stride` elements from there on, up to `nelems` of them, and stops at the first that does not lie
-- within. The byte offsets that it computes are less than 2^32, and so is `nelems`, or neither the
-- size nor the stride is 0.
pub ext_array_read_lem :
    (str : Stride) (size : ℕ) {r : ExtArray}
    → IsValid r
    → str.start * size + size < u32_mod
    → r.len + (size + str.stride * size) < u32_mod
    → CounterFits size str.stride str.nelems
    → ext_array_read r str size
      ≡ some (elements (contents r) size (str.stride * size) str.nelems (str.start * size))
unfolding ext_array_read
ext_array_read_lem str size {r} v here wide fits = rw (mul32_small str.start size (omega arith)) (
    read_loop_lem str.nelems size str.stride str.nelems 0 (str.start * size) v (omega arith) here
      wide (omega arith) counted)
  where
    counted : Counted size str.stride str.nelems 0 (str.start * size)
    counted = elim fits [ inl few ↦ inl few | inr (bytes, moves) ↦ inr (bytes, moves, omega arith) ]
