-- ===== src/BlockArray/Read/States.antt =====
-- What a round of `block_array_read` does to the elements that are left, by the state of the stride.
use native.Mathlib.Nat.{mul-le-mul_right, mul-le-mul_left}
use c_specx.Base.{
  ℕ, zero, suc, ◌+◌, ◌-◌, ◌*◌, ◌≤◌, ◌<◌, ◌≡◌, refl, sym, ap, ◌∙◌, inl, inr, true, false, List, [],
  ◌++◌, ◌==◌, if◌then◌else◌, length, u32_mod, lt→ltb, Bool-cases, arith, subst, sub32, mul32,
  sub32_small, mul32_small, drop-length-append,
}
use c_specx.BlockArray.{StrideState, after_element, with_next, and_read}
use c_specx.ExtArray.Strided.{elements}
use c_specx.BlockArray.Read.Wholes.{
  whole, whole-elements, elements-drop, elements_none, Reads, Reads-more, Reads-element,
}

-- The elements behind a state.
abbrev pub expected : ℕ → ℕ → ℕ → StrideState → List ℕ → List (List ℕ)
expected size step zero s xs = []
expected size step (suc left) s xs =
    if s.active then whole xs size step left s.next else elements xs size step (suc left) s.next

module _ (size stride : ℕ) (some_size : 0 < size) (some_stride : 0 < stride)
    (small : stride * size < u32_mod) (le : size ≤ stride * size) where
  pub Reads-nothing :
      (left : ℕ) (s : StrideState)
      → 0 < s.next
      → Reads (expected size (stride * size) left s []) (0, [])
  unfolding whole elements
  Reads-nothing zero s nz = record { count_eq = refl; partial = []; out_eq = refl }
  Reads-nothing (suc left) s nz = elim (Bool-cases s.active) [
    | inl a ↦ rw (a, lt→ltb 0 s.next nz) (record { count_eq = refl; partial = []; out_eq = refl })
    | inr a ↦
        rw (a, lt→ltb 0 (s.next + size) (omega arith))
          (record { count_eq = refl; partial = []; out_eq = refl })
  ]

  stride_small : stride < u32_mod
  stride_small =
      let wide : stride * 1 ≤ stride * size = mul-le-mul_left {m = 1} {n = size} stride some_size in
      omega (arith, wide)

  skip_eq : mul32 (sub32 stride 1) size ≡ stride * size - size
  skip_eq =
      let k = stride - 1 in
      let e : stride * size ≡ suc k * size =
        ap (λ (j : ℕ). j * size) {x = stride} {y = suc k} (omega arith) in
      let f : k * size ≡ stride * size - size = omega (arith, e) in
      rw (sub32_small stride 1 some_stride stride_small) (mul32_small k size (omega (arith, f)) ∙ f)

  -- The elements behind one are those behind the state that follows it.
  expected-after_element :
      (left : ℕ) (ys : List ℕ)
      → expected size (stride * size) left (after_element size stride) ys
        ≡ elements ys size (stride * size) left (stride * size - size)
  unfolding after_element
  expected-after_element zero ys =
      sym (elements_none ys size (stride * size) (stride * size - size))
  expected-after_element (suc left) ys = elim (Bool-cases (stride == 1)) [
    | inl one ↦
        let same : stride * size ≡ size =
          ap (λ (k : ℕ). k * size) {x = stride} {y = 1} (ground arith) ∙ omega arith in
        rw one (
          whole-elements ys size (stride * size) left some_size le
          ∙ ap (λ (k : ℕ). elements ys size (stride * size) (suc left) k) {x = 0}
              {y = stride * size - size} (omega (arith, same)))
    | inr more ↦ rw more (ap (λ (k : ℕ). elements ys size (stride * size) (suc left) k) skip_eq)
  ]

  pub after_element-next : 0 < (after_element size stride).next
  unfolding after_element
  after_element-next = elim (Bool-cases (stride == 1)) [
    | inl one ↦ rw one some_size
    | inr more ↦
        let two : 2 ≤ stride = ground arith in
        let far : 2 * size ≤ stride * size = mul-le-mul_right {m = 2} {n = stride} size two in
        rw (more, skip_eq) (omega (arith, far))
  ]

  expected-active :
      (left : ℕ) (s : StrideState) (xs : List ℕ)
      → s.active ≡ true
      → expected size (stride * size) (suc left) s xs ≡ whole xs size (stride * size) left s.next
  expected-active left s xs a = rw a refl

  expected-skip :
      (left : ℕ) (s : StrideState) (xs : List ℕ)
      → s.active ≡ false
      → expected size (stride * size) (suc left) s xs
        ≡ elements xs size (stride * size) (suc left) s.next
  expected-skip left s xs a = rw a refl

  pub step_element :
      (left : ℕ) (s : StrideState) (part ys : List ℕ) (res : ℕ × List ℕ)
      → s.active ≡ true
      → s.next ≡ length part
      → Reads (expected size (stride * size) left (after_element size stride) ys) res
      → Reads (expected size (stride * size) (suc left) s (part ++ ys)) (and_read 1 part res)
  step_element left s part ys res a n r =
      subst (λ es. Reads es (and_read 1 part res)) (sym (expected-active left s (part ++ ys) a))
        (Reads-element part ys size (stride * size) left s.next res n
          (subst (λ es. Reads es res) (expected-after_element left ys) r))

  pub step_part :
      (left : ℕ) (s : StrideState) (part ys : List ℕ) (res : ℕ × List ℕ)
      → s.active ≡ true
      → length part ≤ s.next
      → Reads (expected size (stride * size) (suc left) (with_next s (s.next - length part)) ys) res
      → Reads (expected size (stride * size) (suc left) s (part ++ ys)) (and_read 0 part res)
  unfolding with_next
  step_part left s part ys res a fits r =
      subst (λ es. Reads es (and_read 0 part res)) (sym (expected-active left s (part ++ ys) a))
        (Reads-more part ys size (stride * size) left s.next res fits (
          subst (λ es. Reads es res)
            (expected-active left (with_next s (s.next - length part)) ys a) r))

  elements-skip :
      (left next : ℕ) (part ys : List ℕ)
      → length part ≤ next
      → elements (part ++ ys) size (stride * size) (suc left) next
        ≡ elements ys size (stride * size) (suc left) (next - length part)
  elements-skip left next part ys fits =
      ap (λ (k : ℕ). elements (part ++ ys) size (stride * size) (suc left) k) {x = next}
        {y = length part + (next - length part)} (omega arith)
      ∙ elements-drop (part ++ ys) size (stride * size) (suc left) (length part)
          (next - length part) some_size
      ∙ ap (λ t. elements t size (stride * size) (suc left) (next - length part))
          (drop-length-append part ys (length part) refl)

  pub step_skip :
      (left : ℕ) (s : StrideState) (part ys : List ℕ) (res : ℕ × List ℕ)
      → s.active ≡ false
      → length part ≤ s.next
      → Reads (expected size (stride * size) (suc left) (with_next s (s.next - length part)) ys) res
      → Reads (expected size (stride * size) (suc left) s (part ++ ys)) res
  unfolding with_next
  step_skip left s part ys res a fits r =
      subst (λ es. Reads es res)
        (expected-skip left (with_next s (s.next - length part)) ys a
          ∙ sym (elements-skip left s.next part ys fits)
          ∙ sym (expected-skip left s (part ++ ys) a))
        r

  pub step_skipped :
      (left : ℕ) (s : StrideState) (part ys : List ℕ) (res : ℕ × List ℕ)
      → s.active ≡ false
      → s.next ≡ length part
      → Reads
          (expected size (stride * size) (suc left) (record { next = size; active = true }) ys)
          res
      → Reads (expected size (stride * size) (suc left) s (part ++ ys)) res
  step_skipped left s part ys res a n r =
      subst (λ es. Reads es res)
        (whole-elements ys size (stride * size) left some_size le
          ∙ ap (λ (k : ℕ). elements ys size (stride * size) (suc left) k) {x = 0}
              {y = s.next - length part} (omega (arith, n))
          ∙ sym (elements-skip left s.next part ys (omega (arith, n)))
          ∙ sym (expected-skip left s (part ++ ys) a))
        r
