-- ===== src/Stride/Resolve.antt =====
-- Which elements a resolved stride selects.
use native.Mathlib.Nat.{le-div_iff_mul-le, mod-eq_of_lt, mul_comm, le_antisymm}
use c_specx.Base.{
  Bool, true, false, subst, sym, ap, if◌then◌else◌, lt→ltb, ℕ, zero, suc, ◌+◌, ◌-◌, ◌*◌, ◌/◌, ◌%◌,
  ◌^◌, ◌≤◌, ◌<◌, ◌≡◌, refl, ◌∙◌, ◌↔◌, inl, inr, some, u32_mod, ℤ, pos, negsuc, le_or_lt, lt→leb,
  le→leb, le→ltb, arith,
}
use c_specx.Stride.{
  Stride, UserStride, from_end, clamp, resolve_start, resolve_stop, resolve_step, count, resolve_by,
  resolve_step_by, stride_resolve, ustride012, usfrms,
}

suc-mul : (i step : ℕ) → suc i * step ≡ i * step + step
suc-mul i step = omega arith

count-lt :
    (start stop step i : ℕ)
    → 0 < step
    → stop + step ≤ 2 ^ 63
    → (i < count start stop step) ↔ (start + i * step < stop)
unfolding count
count-lt start stop step i pos_step small = elim (le_or_lt stop start) [
  | inl none_left ↦ rw (le→leb stop start none_left) (λ h. omega arith, λ h. omega arith)
  | inr some_left ↦
      let d = stop - start + step - 1 in
      let iff : (suc i ≤ d / step) ↔ (suc i * step ≤ d) = le-div_iff_mul-le pos_step in
      let wide : d % 2 ^ 64 ≡ d = mod-eq_of_lt (omega arith) in
      rw (lt→leb start stop some_left, wide)
        (
          λ h. omega (arith, iff.0 (omega arith), suc-mul i step),
          λ h. omega (arith, iff.1 (omega (arith, suc-mul i step))),
        )
]

-- A Python-style index into an array of `n` elements, and the position that it names: an index that is
-- not negative counts from the start, and past the end it names the end; -(k + 1) counts from the end,
-- and before the start it names the start.
pub data Names (n : ℕ) : ℤ → ℕ → Type 0 where
  inside : (i : ℕ) → i ≤ n → Names n (pos i) i
  past_end : (i : ℕ) → n < i → Names n (pos i) n
  back_from_end : (k i : ℕ) → i + suc k ≡ n → Names n (negsuc k) i
  before_start : (k : ℕ) → n ≤ k → Names n (negsuc k) 0

-- A field of a slice where it is there, and what stands for it where it is not.
abbrev pub Given : Bool → (ℕ → Type 0) → ℕ → ℕ → Type 0
Given true P default i = P i
Given false P default i = i ≡ default

-- The start, the stop and the step that a slice asks for.
abbrev pub StartsAt : UserStride → ℕ → ℕ → Type 0
StartsAt src n = Given src.has_start (Names n src.start) 0

abbrev pub StopsAt : UserStride → ℕ → ℕ → Type 0
StopsAt src n = Given src.has_stop (Names n src.stop) n

abbrev pub StepsBy : UserStride → ℕ → Type 0
StepsBy src = Given src.has_step (λ (k : ℕ). src.step ≡ pos k) 1

clamp-Names : (z : ℤ) (n : ℕ) → Names n z (clamp (from_end z n) n)
unfolding clamp from_end
clamp-Names (pos i) n = elim (le_or_lt i n) [
  | inl le ↦ rw (le→ltb n i le) (inside i le)
  | inr lt ↦ rw (lt→ltb n i lt) (past_end i lt)
]
clamp-Names (negsuc k) n = elim (le_or_lt n k) [
  | inl le ↦ rw (le→ltb k n le) (before_start k le)
  | inr lt ↦
      rw (lt→ltb k n lt, le→ltb n (n - suc k) (omega arith))
        (back_from_end k (n - suc k) (omega arith))
]

Names-le : {n i : ℕ} (z : ℤ) → Names n z i → i ≤ n
Names-le _ (inside i le) = le
Names-le {n} _ (past_end i lt) = omega arith
Names-le _ (back_from_end k i e) = omega arith
Names-le _ (before_start k le) = omega arith

-- A flag in place of the field of a slice.
Given-choice :
    (b : Bool) (P : ℕ → Type 0) (default i : ℕ) → P i → Given b P default (if b then i else default)
Given-choice true P default i p = p
Given-choice false P default i p = refl

Given-le :
    (b : Bool) (z : ℤ) (n default i : ℕ) → default ≤ n → Given b (Names n z) default i → i ≤ n
Given-le true z n default i le g = Names-le z g
Given-le false z n default i le g = omega arith

StartsAt-resolve_start : (src : UserStride) (n : ℕ) → StartsAt src n (resolve_start src n)
unfolding resolve_start
StartsAt-resolve_start src n =
    Given-choice src.has_start (Names n src.start) 0 (clamp (from_end src.start n) n)
      (clamp-Names src.start n)

StopsAt-resolve_stop : (src : UserStride) (n : ℕ) → StopsAt src n (resolve_stop src n)
unfolding resolve_stop
StopsAt-resolve_stop src n =
    Given-choice src.has_stop (Names n src.stop) n (clamp (from_end src.stop n) n)
      (clamp-Names src.stop n)

resolve_start-le : (src : UserStride) (n : ℕ) → resolve_start src n ≤ n
resolve_start-le src n =
    Given-le src.has_start src.start n 0 (resolve_start src n) (omega arith)
      (StartsAt-resolve_start src n)

resolve_stop-le : (src : UserStride) (n : ℕ) → resolve_stop src n ≤ n
resolve_stop-le src n =
    Given-le src.has_stop src.stop n n (resolve_stop src n) (omega arith)
      (StopsAt-resolve_stop src n)

step_chosen :
    (b : Bool) (z : ℤ) (step : ℕ)
    → Given b (λ (k : ℕ). z ≡ pos k) 1 step
    → (if b then z else pos 1) ≡ pos step
step_chosen true z step h = h
step_chosen false z step h = ap pos (sym h)

step_given : (src : UserStride) (step : ℕ) → StepsBy src step → resolve_step src ≡ pos step
unfolding resolve_step
step_given src step h = step_chosen src.has_step src.step step h

resolve-pos :
    (src : UserStride) (n step : ℕ)
    → resolve_step src ≡ pos step
    → 0 < step
    → stride_resolve src n ≡ some (resolve_by step src n)
unfolding stride_resolve resolve_step_by
resolve-pos src n step e pos_step = rw (e, lt→leb 0 step pos_step) refl

-- For a step that is positive and less than 2^32, `stride_resolve` selects the elements of the
-- slice. Its start and its stop are the positions in the array that the indexes of the slice name, from
-- the start or from the end of the array and clamped to it, or the two ends where they are left out; the
-- step is 1 where it is left out. The elements, `start + i * step`, are just those before the stop, and
-- lie in the array. The length of the array and the step together are at most 2^63.
pub stride_resolve_lem :
    (src : UserStride) (arrlen step : ℕ)
    → StepsBy src step
    → 0 < step
    → step < u32_mod
    → arrlen + step ≤ 2 ^ 63
    → (r : Stride) × (stop : ℕ) × (stride_resolve src arrlen ≡ some r)
      × (r.stride ≡ step)
      × StartsAt src arrlen r.start
      × StopsAt src arrlen stop
      × ((i : ℕ) → (i < r.nelems) ↔ (r.start + i * step < stop))
      × ((i : ℕ) → i < r.nelems → r.start + i * step < arrlen)
unfolding resolve_by
stride_resolve_lem src zero step e pos_step small room =
    let at_zero : resolve_start src 0 ≡ 0 = omega (arith, resolve_start-le src 0) in
    (
      record { start = 0; stride = step % u32_mod; nelems = 0 },
      resolve_stop src 0,
      resolve-pos src 0 step (step_given src step e) pos_step,
      mod-eq_of_lt small,
      subst (StartsAt src 0) at_zero (StartsAt-resolve_start src 0),
      StopsAt-resolve_stop src 0,
      λ i. (λ h. omega arith, λ h. omega (arith, resolve_stop-le src 0)),
      λ i h. omega arith,
    )
stride_resolve_lem src (suc n) step e pos_step small room =
    let start = resolve_start src (suc n) in
    let stop = resolve_stop src (suc n) in
    let few : stop + step ≤ 2 ^ 63 = omega (arith, resolve_stop-le src (suc n)) in
    (
      record { start = start; stride = step % u32_mod; nelems = count start stop step },
      stop,
      resolve-pos src (suc n) step (step_given src step e) pos_step
          ∙ rw (lt→leb 0 (suc n) (omega arith)) refl,
      mod-eq_of_lt small,
      StartsAt-resolve_start src (suc n),
      StopsAt-resolve_stop src (suc n),
      λ i. count-lt start stop step i pos_step few,
      λ i h.
          omega (arith, (count-lt start stop step i pos_step few).0 h, resolve_stop-le src (suc n)),
    )

count-le-mul :
    (start step n : ℕ)
    → 0 < step
    → start + step * n + step ≤ 2 ^ 63
    → count start (start + step * n) step ≤ n
count-le-mul start step n pos_step small = elim (le_or_lt (count start (start + step * n) step) n) [
  | inl le ↦ le
  | inr lt ↦ absurd (
      omega
        (arith, (count-lt start (start + step * n) step n pos_step small).0 lt, mul_comm step n))
]

mul-le-count :
    (start step n : ℕ)
    → 0 < step
    → start + step * n + step ≤ 2 ^ 63
    → n ≤ count start (start + step * n) step
mul-le-count start step zero pos_step small = omega arith
mul-le-count start step (suc m) pos_step small =
    (count-lt start (start + step * suc m) step m pos_step small).1
      (omega (arith, mul_comm step (suc m), suc-mul m step))

-- A resolved stride, with a step from 1 to less than 2^32, that ends within an array that is not
-- empty survives `usfrms`: resolving the slice that it gives yields the stride again. The length
-- of the array and the step together are at most 2^63.
pub stride_resolve-usfrms :
    (str : Stride) (arrlen : ℕ)
    → 0 < str.stride
    → str.stride < u32_mod
    → 0 < arrlen
    → str.start + str.stride * str.nelems ≤ arrlen
    → arrlen + str.stride ≤ 2 ^ 63
    → stride_resolve (usfrms str) arrlen ≡ some str
unfolding usfrms ustride012 resolve_step resolve_by resolve_start resolve_stop from_end clamp
stride_resolve-usfrms str arrlen pos_step small some_there within room =
    let stop = str.start + str.stride * str.nelems in
    let narrow : str.stride % u32_mod ≡ str.stride = mod-eq_of_lt small in
    resolve-pos (usfrms str) arrlen str.stride refl pos_step
    ∙ rw
        (
          lt→leb 0 arrlen some_there,
          le→ltb arrlen str.start (omega arith),
          le→ltb arrlen stop within,
          narrow,
          le_antisymm (count-le-mul str.start str.stride str.nelems pos_step (omega arith))
              (mul-le-count str.start str.stride str.nelems pos_step (omega arith)),
        )
        refl
