-- ===== src/Memory/MallocPlan.antt =====
-- The two-pass allocation of include/c_specx/memory/malloc_plan.h and src/memory/malloc_plan.c. A
-- client makes its calls once to plan and once more to fill the buffer. The buffer is a list of
-- bytes; `i_malloc` is a parameter, `none` where it returns NULL.
use c_specx.Base.{
  ℕ, ◌+◌, Bool, true, false, Option, none, some, List, [], ◌∷◌, if◌then◌else◌, take, splice, add32,
}
pub mod Laws

pub data Mode : Type 0 where
  mp_planning mp_allocing : Mode

pub record MallocPlan : Type 0 where
  pub size : ℕ
  pub blen : ℕ
  pub buffer : List ℕ
  pub mode : Mode

unfoldable pub malloc_plan_create : MallocPlan
malloc_plan_create = record { size = 0; blen = 0; buffer = []; mode = mp_planning }

-- `none` is NULL, and `some i` is `buffer + i`.
unfoldable pub head_in : Mode → MallocPlan → Option ℕ
head_in mp_planning p = none
head_in mp_allocing p = some p.blen

unfoldable pub malloc_plan_head : MallocPlan → Option ℕ
unfolding head_in
malloc_plan_head p = head_in p.mode p

unfoldable pub memcpy_in : Mode → MallocPlan → List ℕ → ℕ → Option ℕ × MallocPlan
memcpy_in mp_planning p src n = (none, record p { size = add32 p.size n })
memcpy_in mp_allocing p src n = (
  malloc_plan_head p,
  record p { buffer = splice p.buffer p.blen (take n src); blen = add32 p.blen n },
)

unfoldable pub malloc_plan_memcpy : MallocPlan → List ℕ → ℕ → Option ℕ × MallocPlan
unfolding memcpy_in
malloc_plan_memcpy p src n = memcpy_in p.mode p src n

-- What `malloc_plan_alloc` does with the answer of `i_malloc`; the result tells of success.
unfoldable pub alloc_with : Option (List ℕ) → MallocPlan → Bool × MallocPlan
alloc_with none p = (false, record p { buffer = [] })
alloc_with (some mem) p = (true, record p { buffer = mem; mode = mp_allocing })

unfoldable pub malloc_plan_alloc : (ℕ → Option (List ℕ)) → MallocPlan → Bool × MallocPlan
unfolding alloc_with
malloc_plan_alloc i_malloc p = alloc_with (i_malloc p.size) p
