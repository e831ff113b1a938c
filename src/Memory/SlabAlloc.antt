-- ===== src/Memory/SlabAlloc.antt =====
-- The slab allocator of src/memory/slab_alloc.c and include/c_specx/memory/slab_alloc.h. A pointer is an
-- address, `base` that of a slab's `data`, which names the slab. The free list, which runs through the
-- free slots, is a list of their addresses. The list of slabs starts at `head`. The parameter `malloc n`
-- is `i_malloc (1, n)`, `none` for NULL. A call holds the latch from start to end, and is one step.
use c_specx.Base.{
  ℕ, zero, suc, ◌+◌, ◌-◌, ◌*◌, ◌/◌, Bool, true, false, ◌&&◌, ◌||◌, not, Option, none, some, List,
  [], ◌∷◌, ltb, leb, ◌==◌, if◌then◌else◌, add32, sub32, mul32,
}
pub mod Slots
pub mod NewSlab
pub mod SlabStep
pub mod Slabs
pub mod Change
pub mod Search
pub mod Alloc
pub mod Owner
pub mod Free
pub mod Size
pub mod Apart
pub mod Separate
mod Tests

pub record Slab : Type 0 where
  pub base : ℕ
  pub freelist : List ℕ
  pub used : ℕ

pub record SlabAlloc : Type 0 where
  pub slabs : List Slab
  pub current : Option ℕ
  pub size : ℕ
  pub cap_per_slab : ℕ

-- `sizeof (void *)`, and `sizeof (struct slab)`, behind which the data starts.
abbrev pub pointer_size : ℕ
pointer_size = 8

abbrev pub header_size : ℕ
header_size = 32

-- The size of a slot is rounded up to that of a pointer: the mask clears the bits below it.
unfoldable pub slab_alloc_init : ℕ → ℕ → SlabAlloc
slab_alloc_init size cap = record {
  slabs = [];
  current = none;
  size = add32 size (pointer_size - 1) / pointer_size * pointer_size;
  cap_per_slab = cap;
}

unfoldable pub slab_alloc_destroy : SlabAlloc → SlabAlloc
slab_alloc_destroy a = record a { slabs = []; current = none }

-- The free list of a new slab: the slot at `cur`, and `n` more.
unfoldable pub all_slots : ℕ → ℕ → ℕ → List ℕ
all_slots cur size zero = cur ∷ []
all_slots cur size (suc n) = cur ∷ all_slots (cur + size) size n

unfoldable pub new_slab : SlabAlloc → Option ℕ → Option Slab
new_slab a none = none
new_slab a (some block) =
    let base = block + header_size in
    some (record { base = base; freelist = all_slots base a.size (a.cap_per_slab - 1); used = 0 })

unfoldable pub slab_alloc_extend : (ℕ → Option ℕ) → SlabAlloc → Option Slab
unfolding new_slab
slab_alloc_extend malloc a = new_slab a (malloc (add32 (mul32 a.size a.cap_per_slab) header_size))

-- What a pointer to a slab points to.
unfoldable pub find_slab : ℕ → List Slab → Option Slab
find_slab base [] = none
find_slab base (s ∷ rest) =
    let later = find_slab base rest in if s.base == base then some s else later

unfoldable pub update_slab : Slab → List Slab → List Slab
update_slab s [] = []
update_slab s (t ∷ rest) =
    let later = update_slab s rest in if t.base == s.base then s ∷ rest else t ∷ later

unfoldable pub has_space : Slab → Bool
has_space s = elim s.freelist [ [] ↦ false | _ ∷ _ ↦ true ]

-- The cached slab, where it has space.
unfoldable pub with_space : Option Slab → Option Slab
with_space none = none
with_space (some s) = if has_space s then some s else none

unfoldable pub cached : SlabAlloc → Option Slab
cached a = elim a.current [ none ↦ none | some base ↦ find_slab base a.slabs ]

-- The first slab with space.
unfoldable pub search : List Slab → Option Slab
search [] = none
search (s ∷ rest) = let later = search rest in if has_space s then some s else later

-- The first free slot of a slab.
unfoldable pub pop : SlabAlloc → Slab → List ℕ → Option ℕ × SlabAlloc
pop a s [] = (none, a)
pop a s (ret ∷ rest) = (
  some ret,
  record a { slabs = update_slab (record s { freelist = rest; used = add32 s.used 1 }) a.slabs },
)

-- The end of the slow path: from the slab that was found, or from a new one at the head.
unfoldable pub from_new : SlabAlloc → Option Slab → Option ℕ × SlabAlloc
from_new a none = (none, a)
from_new a (some s) = pop (record a { slabs = s ∷ a.slabs; current = some s.base }) s s.freelist

unfoldable pub from_found : (ℕ → Option ℕ) → SlabAlloc → Option Slab → Option ℕ × SlabAlloc
from_found malloc a none = from_new a (slab_alloc_extend malloc a)
from_found malloc a (some s) = pop (record a { current = some s.base }) s s.freelist

unfoldable pub from_cached : (ℕ → Option ℕ) → SlabAlloc → Option Slab → Option ℕ × SlabAlloc
from_cached malloc a none = from_found malloc a (search a.slabs)
from_cached malloc a (some s) = pop a s s.freelist

unfoldable pub slab_alloc_alloc : (ℕ → Option ℕ) → SlabAlloc → Option ℕ × SlabAlloc
slab_alloc_alloc malloc a = from_cached malloc a (with_space (cached a))

unfoldable pub slab_contains : SlabAlloc → Slab → ℕ → Bool
slab_contains a s ptr = leb s.base ptr && ltb ptr (s.base + mul32 a.cap_per_slab a.size)

unfoldable pub search_ptr : SlabAlloc → List Slab → ℕ → Option Slab
search_ptr a [] ptr = none
search_ptr a (s ∷ rest) ptr =
    let later = search_ptr a rest ptr in if slab_contains a s ptr then some s else later

-- `none` where the code is UNREACHABLE.
unfoldable pub from_cache : SlabAlloc → Option Slab → ℕ → Option Slab
from_cache a none ptr = search_ptr a a.slabs ptr
from_cache a (some s) ptr = if slab_contains a s ptr then some s else search_ptr a a.slabs ptr

unfoldable pub slab_from_ptr : SlabAlloc → ℕ → Option Slab
slab_from_ptr a ptr = from_cache a (cached a) ptr

-- The cache after slab `s` has got a free slot.
unfoldable pub recached : SlabAlloc → Slab → Option Slab → Option ℕ
recached a s none = some s.base
recached a s (some c) = if has_space c then a.current else some s.base

unfoldable pub remove_slab : ℕ → List Slab → List Slab
remove_slab base [] = []
remove_slab base (s ∷ rest) =
    let later = remove_slab base rest in if s.base == base then rest else s ∷ later

-- Not the only slab: it has a next or a previous one.
unfoldable pub has_others : List Slab → Bool
has_others [] = false
has_others (s ∷ []) = false
has_others (s ∷ t ∷ rest) = true

unfoldable pub uncached : Option ℕ → ℕ → Option ℕ
uncached none base = none
uncached (some c) base = if c == base then none else some c

-- An empty slab is freed, unless it is the only one.
unfoldable pub drop_empty : SlabAlloc → Slab → SlabAlloc
drop_empty a s =
    if s.used == 0 && has_others a.slabs
    then record a { slabs = remove_slab s.base a.slabs; current = uncached a.current s.base }
    else a

unfoldable pub put_back : SlabAlloc → ℕ → Slab → SlabAlloc
put_back a ptr s =
    let s' = record s { freelist = ptr ∷ s.freelist; used = sub32 s.used 1 } in
    let a' = record a { slabs = update_slab s' a.slabs } in
    drop_empty (record a' { current = recached a' s' (cached a') }) s'

unfoldable pub back : SlabAlloc → ℕ → Option Slab → Option SlabAlloc
back a ptr none = none
back a ptr (some s) = some (put_back a ptr s)

unfoldable pub slab_alloc_free : SlabAlloc → ℕ → Option SlabAlloc
unfolding back
slab_alloc_free a ptr = back a ptr (slab_from_ptr a ptr)
