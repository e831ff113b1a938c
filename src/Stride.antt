-- ===== src/Stride.antt =====
-- The slices of src/ds/stride.c and include/c_specx/ds/stride.h. The bits of `present` are four
-- fields; a `struct user_stride` that a constructor leaves a field of out has 0 there. The length of
-- the array is less than 2^63, so that a sum with it is that of numbers.
use c_specx.Base.{
  ℕ, suc, ◌+◌, ◌-◌, ◌*◌, ◌/◌, ◌%◌, ◌^◌, Bool, true, false, ◌&&◌, Option, none, some, ltb, leb,
  if◌then◌else◌, u32_mod, ℤ, pos, negsuc, same_int,
}
pub mod Resolve
pub mod Equal
mod Tests

pub record Stride : Type 0 where
  pub start : ℕ
  pub stride : ℕ
  pub nelems : ℕ

pub record UserStride : Type 0 where
  pub start : ℤ
  pub step : ℤ
  pub stop : ℤ
  pub has_start : Bool
  pub has_step : Bool
  pub has_stop : Bool
  pub has_colon : Bool

-- `a == b` on flags.
unfoldable pub same_bool : Bool → Bool → Bool
same_bool true b = b
same_bool false true = false
same_bool false false = true

-- A field counts only where both strides have it.
unfoldable pub same_if : Bool → ℤ → ℤ → Bool
same_if present a b = if present then same_int a b else true

unfoldable pub ustride_equal : UserStride → UserStride → Bool
unfolding same_bool same_if
ustride_equal left right =
    (same_bool left.has_start right.has_start
      && same_bool left.has_step right.has_step
      && same_bool left.has_stop right.has_stop)
    && same_if left.has_start left.start right.start
    && same_if left.has_step left.step right.step
    && same_if left.has_stop left.stop right.stop

-- `if (i < 0) i += arrlen`
unfoldable pub from_end : ℤ → ℕ → ℤ
from_end (pos i) n = pos i
from_end (negsuc k) n = if ltb k n then pos (n - suc k) else negsuc (k - n)

-- Clamp to [0, arrlen].
unfoldable pub clamp : ℤ → ℕ → ℕ
clamp (negsuc k) n = 0
clamp (pos i) n = if ltb n i then n else i

unfoldable pub resolve_start : UserStride → ℕ → ℕ
unfolding from_end clamp
resolve_start src n = if src.has_start then clamp (from_end src.start n) n else 0

unfoldable pub resolve_stop : UserStride → ℕ → ℕ
unfolding from_end clamp
resolve_stop src n = if src.has_stop then clamp (from_end src.stop n) n else n

unfoldable pub resolve_step : UserStride → ℤ
resolve_step src = if src.has_step then src.step else pos 1

-- `nelems`; the sum in it is taken as the machine takes it.
unfoldable pub count : ℕ → ℕ → ℕ → ℕ
count start stop step = if leb stop start then 0 else (stop - start + step - 1) % 2 ^ 64 / step

-- `stride_resolve_expect` for a step that is positive.
unfoldable pub resolve_by : ℕ → UserStride → ℕ → Stride
unfolding resolve_start resolve_stop
resolve_by step src arrlen =
    if leb arrlen 0
    then record { start = 0; stride = step % u32_mod; nelems = 0 }
    else (let start = resolve_start src arrlen in
        record {
          start = start;
          stride = step % u32_mod;
          nelems = count start (resolve_stop src arrlen) step;
        })

-- `stride_resolve`; `none` is the error of a step that is not positive.
unfoldable pub resolve_step_by : ℤ → UserStride → ℕ → Option Stride
resolve_step_by (negsuc k) src arrlen = none
resolve_step_by (pos step) src arrlen =
    if leb step 0 then none else some (resolve_by step src arrlen)

unfoldable pub stride_resolve : UserStride → ℕ → Option Stride
unfolding resolve_step_by
stride_resolve src arrlen = resolve_step_by (resolve_step src) src arrlen

unfoldable pub ustride_single : ℤ → UserStride
ustride_single start = record {
  start = start;
  step = pos 0;
  stop = pos 0;
  has_start = true;
  has_step = false;
  has_stop = false;
  has_colon = false;
}

unfoldable pub ustride012 : ℤ → ℤ → ℤ → UserStride
ustride012 start step stop = record {
  start = start;
  step = step;
  stop = stop;
  has_start = true;
  has_step = true;
  has_stop = true;
  has_colon = true;
}

unfoldable pub ustride01 : ℤ → ℤ → UserStride
ustride01 start step = record {
  start = start;
  step = step;
  stop = pos 0;
  has_start = true;
  has_step = true;
  has_stop = false;
  has_colon = true;
}

unfoldable pub ustride0 : ℤ → UserStride
ustride0 start = record {
  start = start;
  step = pos 0;
  stop = pos 0;
  has_start = true;
  has_step = false;
  has_stop = false;
  has_colon = true;
}

unfoldable pub ustride12 : ℤ → ℤ → UserStride
ustride12 step stop = record {
  start = pos 0;
  step = step;
  stop = stop;
  has_start = false;
  has_step = true;
  has_stop = true;
  has_colon = true;
}

unfoldable pub ustride1 : ℤ → UserStride
ustride1 step = record {
  start = pos 0;
  step = step;
  stop = pos 0;
  has_start = true;
  has_step = true;
  has_stop = false;
  has_colon = true;
}

unfoldable pub ustride2 : ℤ → UserStride
ustride2 stop = record {
  start = pos 0;
  step = pos 0;
  stop = stop;
  has_start = false;
  has_step = false;
  has_stop = true;
  has_colon = true;
}

unfoldable pub ustride : UserStride
ustride = record {
  start = pos 0;
  step = pos 0;
  stop = pos 0;
  has_start = false;
  has_step = false;
  has_stop = false;
  has_colon = true;
}

unfoldable pub usfrms : Stride → UserStride
unfolding ustride012
usfrms str = ustride012 (pos str.start) (pos str.stride) (pos (str.start + str.stride * str.nelems))
