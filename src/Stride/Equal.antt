-- ===== src/Stride/Equal.antt =====
-- Strides that `ustride_equal` takes for equal select the same elements.
use c_specx.Base.{
  ℕ, ◌≡◌, refl, ap, ap₂, ◌∙◌, Bool, true, false, ◌&&◌, none, some, leb, ◌%◌, u32_mod, negsuc,
  if◌then◌else◌, ℤ, pos, same_int→eq,
}
use c_specx.Stride.{
  UserStride, same_bool, same_if, ustride_equal, from_end, clamp, resolve_start, resolve_stop,
  resolve_step, count, resolve_by, resolve_step_by, stride_resolve,
}

same_if→eq :
    {A : Type 0} (f : ℤ → A) (d : A) (p q : Bool) (a b : ℤ)
    → same_bool p q ≡ true
    → same_if p a b ≡ true
    → (if p then f a else d) ≡ (if q then f b else d)
unfolding same_bool same_if
same_if→eq f d true true a b h k = ap f (same_int→eq a b k)
same_if→eq f d true false a b h k = cc
same_if→eq f d false true a b h k = cc
same_if→eq f d false false a b h k = refl

all_six :
    (a b c d e f : Bool)
    → ((a && b && c) && d && e && f) ≡ true
    → (a ≡ true) × (b ≡ true) × (c ≡ true) × (d ≡ true) × (e ≡ true) × (f ≡ true)
all_six true true true true true true h = (refl, refl, refl, refl, refl, refl)
all_six false b c d e f h = cc
all_six true false c d e f h = cc
all_six true true false d e f h = cc
all_six true true true false e f h = cc
all_six true true true true false f h = cc
all_six true true true true true false h = cc

resolve_by-cong :
    (left right : UserStride) (step n : ℕ)
    → resolve_start left n ≡ resolve_start right n
    → resolve_stop left n ≡ resolve_stop right n
    → resolve_by step left n ≡ resolve_by step right n
unfolding resolve_by
resolve_by-cong left right step n = λ starts stops.
    ap₂
      (λ (a b : ℕ).
        if leb n 0
        then record { start = 0; stride = step % u32_mod; nelems = 0 }
        else record { start = a; stride = step % u32_mod; nelems = count a b step })
      starts stops

resolve_step_by-cong :
    (left right : UserStride) (step : ℤ) (n : ℕ)
    → resolve_start left n ≡ resolve_start right n
    → resolve_stop left n ≡ resolve_stop right n
    → resolve_step_by step left n ≡ resolve_step_by step right n
unfolding resolve_step_by
resolve_step_by-cong left right (negsuc k) n starts stops = refl
resolve_step_by-cong left right (pos step) n starts stops =
    ap (λ r. if leb step 0 then none else some r) (resolve_by-cong left right step n starts stops)

-- `ustride_equal` passes only for strides that resolve alike against an array of any length.
pub ustride_equal-resolve :
    (left right : UserStride) (arrlen : ℕ)
    → ustride_equal left right ≡ true
    → stride_resolve left arrlen ≡ stride_resolve right arrlen
unfolding ustride_equal stride_resolve resolve_start resolve_stop resolve_step
ustride_equal-resolve left right arrlen h =
    let (starts, steps, stops, start, step, stop) =
      all_six (same_bool left.has_start right.has_start) (same_bool left.has_step right.has_step)
        (same_bool left.has_stop right.has_stop) (same_if left.has_start left.start right.start)
        (same_if left.has_step left.step right.step) (same_if left.has_stop left.stop right.stop)
        h in
    let index : ℤ → ℕ = λ z. clamp (from_end z arrlen) arrlen in
    ap (λ z. resolve_step_by z left arrlen)
      (same_if→eq (λ z. z) (pos 1) left.has_step right.has_step left.step right.step steps step)
    ∙ resolve_step_by-cong left right (resolve_step right) arrlen
        (same_if→eq index 0 left.has_start right.has_start left.start right.start starts start)
        (same_if→eq index arrlen left.has_stop right.has_stop left.stop right.stop stops stop)
