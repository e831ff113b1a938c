-- ===== src/Stride/Tests.antt =====
-- Slices of small arrays, and the theorems at inputs that meet their hypotheses.
use c_specx.Base.{ℕ, ◌+◌, ◌*◌, ◌<◌, ◌≡◌, refl, ◌↔◌, some, pos, negsuc, arith}
use c_specx.Stride.{
  Stride, same_bool, same_if, ustride_equal, stride_resolve, resolve_step_by, resolve_step,
  resolve_by, resolve_start, resolve_stop, from_end, clamp, count, ustride_single, ustride012,
  ustride0, ustride1, usfrms,
}
use c_specx.Stride.Resolve.{Names, stride_resolve_lem, stride_resolve-usfrms}
use c_specx.Stride.Equal.{ustride_equal-resolve}

-- [-3:] of ten elements.
last_three :
    stride_resolve (ustride0 (negsuc 2)) 10 ≡ some (record { start = 7; stride = 1; nelems = 3 })
unfolding stride_resolve resolve_step_by resolve_step resolve_by resolve_start resolve_stop from_end
    clamp count ustride0
last_three = refl

-- [::3] of ten elements.
every_third :
    stride_resolve (ustride1 (pos 3)) 10 ≡ some (record { start = 0; stride = 3; nelems = 4 })
unfolding stride_resolve resolve_step_by resolve_step resolve_by resolve_start resolve_stop from_end
    clamp count ustride1
every_third = refl

-- [-7:9:3] of ten elements.
stride_resolve_lem_example :
    (r : Stride) × (stop : ℕ) × (stride_resolve (ustride012 (negsuc 6) (pos 3) (pos 9)) 10 ≡ some r)
    × (r.stride ≡ 3)
    × Names 10 (negsuc 6) r.start
    × Names 10 (pos 9) stop
    × ((i : ℕ) → (i < r.nelems) ↔ (r.start + i * 3 < stop))
    × ((i : ℕ) → i < r.nelems → r.start + i * 3 < 10)
unfolding ustride012
stride_resolve_lem_example =
    stride_resolve_lem (ustride012 (negsuc 6) (pos 3) (pos 9)) 10 3 refl (omega arith) (omega arith)
      (omega arith)

abbrev evens : Stride
evens = record { start = 2; stride = 2; nelems = 3 }

stride_resolve-usfrms_example : stride_resolve (usfrms evens) 10 ≡ some evens
stride_resolve-usfrms_example =
    stride_resolve-usfrms evens 10 (omega arith) (omega arith) (omega arith) (omega arith)
      (omega arith)

ustride_equal-resolve_example :
    stride_resolve (ustride0 (pos 4)) 10 ≡ stride_resolve (ustride_single (pos 4)) 10
unfolding ustride_equal same_bool same_if ustride0 ustride_single
ustride_equal-resolve_example =
    ustride_equal-resolve (ustride0 (pos 4)) (ustride_single (pos 4)) 10 refl
