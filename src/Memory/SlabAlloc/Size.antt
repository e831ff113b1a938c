-- ===== src/Memory/SlabAlloc/Size.antt =====
-- No call changes the size of a slot.
use c_specx.Base.{ℕ, ◌≡◌, refl, inl, inr, Option, none, some, List, [], ◌∷◌, Bool-cases, ◌==◌, ◌&&◌}
use mathlib.Core.Option.{some-injective}
use c_specx.Memory.SlabAlloc.{
  Slab, SlabAlloc, pop, from_new, from_found, from_cached, slab_alloc_alloc, slab_alloc_extend,
  with_space, cached, search, drop_empty, put_back, slab_alloc_free, back, slab_from_ptr,
  has_others,
}

size-pop : (a : SlabAlloc) (s : Slab) (free : List ℕ) → (pop a s free).1.size ≡ a.size
unfolding pop
size-pop a s [] = refl
size-pop a s (p ∷ rest) = refl

size-from_new : (a : SlabAlloc) (s : Option Slab) → (from_new a s).1.size ≡ a.size
unfolding from_new
size-from_new a none = refl
size-from_new a (some s) = size-pop _ s s.freelist

size-from_found :
    (malloc : ℕ → Option ℕ) (a : SlabAlloc) (s : Option Slab)
    → (from_found malloc a s).1.size ≡ a.size
unfolding from_found
size-from_found malloc a none = size-from_new a (slab_alloc_extend malloc a)
size-from_found malloc a (some s) = size-pop _ s s.freelist

size-from_cached :
    (malloc : ℕ → Option ℕ) (a : SlabAlloc) (s : Option Slab)
    → (from_cached malloc a s).1.size ≡ a.size
unfolding from_cached
size-from_cached malloc a none = size-from_found malloc a (search a.slabs)
size-from_cached malloc a (some s) = size-pop a s s.freelist

pub size-slab_alloc_alloc :
    (malloc : ℕ → Option ℕ) (a : SlabAlloc) → (slab_alloc_alloc malloc a).1.size ≡ a.size
unfolding slab_alloc_alloc
size-slab_alloc_alloc malloc a = size-from_cached malloc a (with_space (cached a))

size-drop_empty : (a : SlabAlloc) (s : Slab) → (drop_empty a s).size ≡ a.size
unfolding drop_empty
size-drop_empty a s = elim (Bool-cases (s.used == 0 && has_others a.slabs)) [
  | inl e ↦ rw e refl
  | inr e ↦ rw e refl
]

size-back : (p : ℕ) (a a' : SlabAlloc) (s : Option Slab) → back a p s ≡ some a' → a'.size ≡ a.size
unfolding back put_back
size-back p a a' none e = cc
size-back p a a' (some s) e = rw (← some-injective _ a' e) (size-drop_empty _ _)

pub size-slab_alloc_free :
    (p : ℕ) (a a' : SlabAlloc) → slab_alloc_free a p ≡ some a' → a'.size ≡ a.size
unfolding slab_alloc_free
size-slab_alloc_free p a a' e = size-back p a a' (slab_from_ptr a p) e
