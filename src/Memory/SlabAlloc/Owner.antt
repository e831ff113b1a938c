-- ===== src/Memory/SlabAlloc/Owner.antt =====
-- The slab that `slab_from_ptr` finds for a slot that is handed out.
use c_specx.Base.{
  ℕ, ◌+◌, ◌*◌, ◌≤◌, ◌<◌, ◌≡◌, refl, sym, ap, ◌∙◌, inl, inr, true, ◌&&◌, Option, some, List, [], ◌∷◌,
  ltb, leb, le→leb, lt→ltb, Bool-cases, arith, mul32_small,
}
use c_specx.Memory.SlabAlloc.{Slab, SlabAlloc, slab_contains, search_ptr, from_cache}
use c_specx.Memory.SlabAlloc.Slots.{taken_in, taken_in-range}
use c_specx.Memory.SlabAlloc.Slabs.{IsValid, allocated}
use c_specx.Memory.SlabAlloc.Change.{is_allocated, Split, Split-later}
use c_specx.Memory.SlabAlloc.Search.{Pointed, nowhere, at}

-- The slab that `slab_from_ptr` finds.
pub data Owner (bytes p : ℕ) (slabs : List Slab) : Option Slab → Type 0 where
  owner :
      (s : Slab) → Split slabs s → s.base ≤ p → p < s.base + bytes → Owner bytes p slabs (some s)

pub Owner-later :
    {bytes p : ℕ} {slabs : List Slab} (x : Slab) (r : Option Slab)
    → Owner bytes p slabs r
    → Owner bytes p (x ∷ slabs) r
Owner-later x _ (owner s sp low high) = owner s (Split-later x sp) low high

-- The test, and the bounds that it tells of.
pub contains_lem :
    (a : SlabAlloc) (s : Slab) (p : ℕ)
    → IsValid a
    → slab_contains a s p ≡ (leb s.base p && ltb p (s.base + a.cap_per_slab * a.size))
unfolding slab_contains
contains_lem a s p v =
    ap (λ (k : ℕ). leb s.base p && ltb p (s.base + k))
      (mul32_small a.cap_per_slab a.size (omega (arith, v.small)))

pub contains-bounds :
    (a : SlabAlloc) (s : Slab) (p : ℕ)
    → IsValid a
    → slab_contains a s p ≡ true
    → (s.base ≤ p) × (p < s.base + a.cap_per_slab * a.size)
contains-bounds a s p v h =
    let h' : (leb s.base p && ltb p (s.base + a.cap_per_slab * a.size)) ≡ true =
      sym (contains_lem a s p v) ∙ h in
    (ground arith, ground arith)

pub taken-contains :
    (a : SlabAlloc) (s : Slab) (p : ℕ)
    → IsValid a
    → taken_in a.size a.cap_per_slab s p ≡ true
    → slab_contains a s p ≡ true
taken-contains a s p v h =
    let (low, high) = taken_in-range a.size a.cap_per_slab s p v.some_size h in
    let low' = le→leb s.base p low in
    let high' = lt→ltb p (s.base + a.cap_per_slab * a.size) (omega (arith, v.some_size, high)) in
    contains_lem a s p v ∙ rw (low', high') refl

pub search_ptr-Owner :
    (a : SlabAlloc) (p : ℕ) (slabs : List Slab)
    → IsValid a
    → allocated a.size a.cap_per_slab slabs p ≡ true
    → Owner (a.cap_per_slab * a.size) p slabs (search_ptr a slabs p)
unfolding search_ptr allocated
search_ptr-Owner a p [] v h = absurd (ground arith)
search_ptr-Owner a p (s ∷ rest) v h = elim (Bool-cases (slab_contains a s p)) [
  | inl e ↦
      let (low, high) = contains-bounds a s p v e in
      rw e (owner s (record { before = []; after = rest; eq = refl }) low high)
  | inr e ↦ elim (Bool-cases (taken_in a.size a.cap_per_slab s p)) [
    | inl t ↦ absurd (ground (arith, taken-contains a s p v t))
    | inr t ↦
        rw e (Owner-later s (search_ptr a rest p) (search_ptr-Owner a p rest v (ground arith)))
  ]
]

pub from_cache-Owner :
    (a : SlabAlloc) (p : ℕ) (r : Option Slab)
    → IsValid a
    → is_allocated a p ≡ true
    → Pointed a.slabs r
    → Owner (a.cap_per_slab * a.size) p a.slabs (from_cache a r p)
unfolding from_cache
from_cache-Owner a p _ v h nowhere = search_ptr-Owner a p a.slabs v h
from_cache-Owner a p _ v h (at s sp) = elim (Bool-cases (slab_contains a s p)) [
  | inl e ↦ let (low, high) = contains-bounds a s p v e in rw e (owner s sp low high)
  | inr e ↦ rw e (search_ptr-Owner a p a.slabs v h)
]
