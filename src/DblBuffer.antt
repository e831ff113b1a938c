-- ===== src/DblBuffer.antt =====
-- The double buffer of src/ds/dbl_buffer.c and include/c_specx/ds/dbl_buffer.h, an array of elements
-- that grows: creation, growth and appending. The allocation is a list of bytes, `mem`, of which `size`
-- are one element. The parameter `realloc m old new size` is `i_realloc_right`; `none` is NULL. The
-- pointer that `dblb_append_alloc` returns is the index of its byte. `dblb_ensure_space` returns the code
-- that the error object has, that of success where nothing failed before.
use c_specx.Base.{
  ℕ, ◌+◌, ◌*◌, Bool, true, false, Option, none, some, List, leb, if◌then◌else◌, take, splice, add32,
  mul32,
}
pub mod Append
mod Tests

pub record DblBuffer : Type 0 where
  pub mem : List ℕ
  pub size : ℕ
  pub nelem : ℕ
  pub nelem_cap : ℕ

unfoldable pub dblb_create : Option (List ℕ) → ℕ → ℕ → Option DblBuffer
dblb_create none size initial_cap = none
dblb_create (some mem) size initial_cap =
    some (record { mem = mem; size = size; nelem = 0; nelem_cap = initial_cap })

-- What `dblb_ensure_space` does with the answer of `i_realloc_right`; the flag tells of success.
unfoldable pub grown : Option (List ℕ) → DblBuffer → ℕ → Bool × DblBuffer
grown none d nelem = (false, d)
grown (some newdata) d nelem = (true, record d { mem = newdata; nelem_cap = mul32 2 nelem })

unfoldable pub dblb_ensure_space :
    (List ℕ → ℕ → ℕ → ℕ → Option (List ℕ)) → DblBuffer → ℕ → Bool × DblBuffer
unfolding grown
dblb_ensure_space realloc d nelem =
    if leb d.nelem_cap nelem
    then grown (realloc d.mem d.nelem_cap (mul32 2 nelem) d.size) d nelem
    else (true, d)

unfoldable pub append_in : ℕ → Bool × DblBuffer → Option ℕ × DblBuffer
append_in nelem (false, d) = (none, d)
append_in nelem (true, d) = (some (mul32 d.nelem d.size), record d { nelem = add32 d.nelem nelem })

unfoldable pub dblb_append_alloc :
    (List ℕ → ℕ → ℕ → ℕ → Option (List ℕ)) → DblBuffer → ℕ → Option ℕ × DblBuffer
unfolding append_in
dblb_append_alloc realloc d nelem =
    append_in nelem (dblb_ensure_space realloc d (add32 d.nelem nelem))

-- The `memcpy` of `dblb_append`.
unfoldable pub fill_in : List ℕ → ℕ → Option ℕ × DblBuffer → Bool × DblBuffer
fill_in src nelem (none, d) = (false, d)
fill_in src nelem (some head, d) =
    (true, record d { mem = splice d.mem head (take (mul32 d.size nelem) src) })

unfoldable pub dblb_append :
    (List ℕ → ℕ → ℕ → ℕ → Option (List ℕ)) → DblBuffer → List ℕ → ℕ → Bool × DblBuffer
unfolding fill_in
dblb_append realloc d src nelem = fill_in src nelem (dblb_append_alloc realloc d nelem)

unfoldable pub dblb_free : DblBuffer → DblBuffer
dblb_free d = record d { nelem_cap = 0; nelem = 0 }
