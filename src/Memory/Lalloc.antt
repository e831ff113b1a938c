-- ===== src/Memory/Lalloc.antt =====
-- The linear allocator of src/memory/lalloc.c and include/c_specx/memory/lalloc.h. A pointer it
-- hands out is an index into `mem`, the source's `data`, and NULL is `none`.
use c_specx.Base.{
  ℕ, ◌+◌, ◌*◌, Bool, Option, none, some, List, ltb, leb, if◌then◌else◌, replicate, splice, u32_mod,
  add32, sub32, mul32,
}
pub mod Laws
pub mod Blocks

-- `safe_mul_u32`: `none` is the result `false`.
unfoldable pub safe_mul_u32 : ℕ → ℕ → Option ℕ
safe_mul_u32 a b = if ltb (a * b) u32_mod then some (a * b) else none

pub record Lalloc : Type 0 where
  pub used : ℕ
  pub limit : ℕ
  pub mem : List ℕ

unfoldable pub lalloc_create : List ℕ → ℕ → Lalloc
lalloc_create mem limit = record { used = 0; limit = limit; mem = mem }

unfoldable pub lalloc_get_state : Lalloc → ℕ
lalloc_get_state l = l.used

unfoldable pub lalloc_reset_to_state : Lalloc → ℕ → Lalloc
lalloc_reset_to_state l state = record l { used = state }

-- The part of `lmalloc` behind the multiplication.
unfoldable pub take_total : Lalloc → Option ℕ → Option ℕ × Lalloc
take_total a none = (none, a)
take_total a (some total) =
    if leb (sub32 a.limit a.used) total
    then (none, a)
    else (some a.used, record a { used = add32 a.used total })

unfoldable pub lmalloc : Lalloc → ℕ → ℕ → Option ℕ × Lalloc
unfolding take_total safe_mul_u32
lmalloc a req size = take_total a (safe_mul_u32 req size)

-- The `memset` of `lcalloc`, on the pointer that `lmalloc` returned.
unfoldable pub zero_block : Option ℕ × Lalloc → ℕ → Option ℕ × Lalloc
zero_block (none, a) n = (none, a)
zero_block (some p, a) n = (some p, record a { mem = splice a.mem p (replicate n 0) })

unfoldable pub lcalloc : Lalloc → ℕ → ℕ → Option ℕ × Lalloc
unfolding zero_block
lcalloc a req size = zero_block (lmalloc a req size) (mul32 req size)

unfoldable pub lalloc_reset : Lalloc → Lalloc
lalloc_reset a = record a { used = 0 }
