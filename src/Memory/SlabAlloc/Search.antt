-- ===== src/Memory/SlabAlloc/Search.antt =====
-- What the searches for a slab with space find.
use c_specx.Base.{
  ℕ, ◌≡◌, refl, inl, inr, ◌⊎◌, true, false, Option, none, some, List, [], ◌∷◌, ◌==◌, Bool-cases,
}
use c_specx.Memory.SlabAlloc.{Slab, SlabAlloc, find_slab, has_space, with_space, cached, search}
use c_specx.Memory.SlabAlloc.Change.{Split, Split-later}

abbrev pub AllFull : List Slab → Type 0
AllFull [] = Unit
AllFull (s ∷ rest) = (s.freelist ≡ []) × AllFull rest

-- What a search for a slab with space returns, where `Full` tells of what it means to find none.
pub data Sought (slabs : List Slab) (Full : Type 0) : Option Slab → Type 0 where
  full : Full → Sought slabs Full none
  space :
      (s : Slab) (p : ℕ) (rest : List ℕ)
      → Split slabs s
      → s.freelist ≡ p ∷ rest
      → Sought slabs Full (some s)

pub has_space-cases :
    (s : Slab)
    → ((has_space s ≡ false) × (s.freelist ≡ []))
      ⊎ ((has_space s ≡ true) × (p : ℕ) × (rest : List ℕ) × (s.freelist ≡ p ∷ rest))
unfolding has_space
has_space-cases s = by_freelist s.freelist refl
  where
    by_freelist :
        (free : List ℕ)
        → s.freelist ≡ free
        → ((has_space s ≡ false) × (s.freelist ≡ []))
          ⊎ ((has_space s ≡ true) × (p : ℕ) × (rest : List ℕ) × (s.freelist ≡ p ∷ rest))
    by_freelist [] e = inl (rw e refl, e)
    by_freelist (p ∷ rest) e = inr (rw e refl, p, rest, e)

pub Sought-later :
    {slabs : List Slab} (x : Slab) (r : Option Slab)
    → x.freelist ≡ []
    → Sought slabs (AllFull slabs) r
    → Sought (x ∷ slabs) (AllFull (x ∷ slabs)) r
Sought-later x _ e (full f) = full (e, f)
Sought-later x _ e (space s p rest sp h) = space s p rest (Split-later x sp) h

pub search-Sought : (slabs : List Slab) → Sought slabs (AllFull slabs) (search slabs)
unfolding search
search-Sought [] = full tt
search-Sought (s ∷ rest) = elim (has_space-cases s) [
  | inl (e, none_free) ↦ rw e (Sought-later s (search rest) none_free (search-Sought rest))
  | inr (e, p, free, h) ↦ rw e (space s p free (record { before = []; after = rest; eq = refl }) h)
]

-- What a pointer to a slab points to.
pub data Pointed (slabs : List Slab) : Option Slab → Type 0 where
  nowhere : Pointed slabs none
  at : (s : Slab) → Split slabs s → Pointed slabs (some s)

pub Pointed-later :
    {slabs : List Slab} (x : Slab) (r : Option Slab) → Pointed slabs r → Pointed (x ∷ slabs) r
Pointed-later x _ nowhere = nowhere
Pointed-later x _ (at s sp) = at s (Split-later x sp)

pub find_slab-Pointed : (base : ℕ) (slabs : List Slab) → Pointed slabs (find_slab base slabs)
unfolding find_slab
find_slab-Pointed base [] = nowhere
find_slab-Pointed base (x ∷ rest) = elim (Bool-cases (x.base == base)) [
  | inl e ↦ rw e (at x (record { before = []; after = rest; eq = refl }))
  | inr e ↦ rw e (Pointed-later x (find_slab base rest) (find_slab-Pointed base rest))
]

pub cached-Pointed : (a : SlabAlloc) → Pointed a.slabs (cached a)
unfolding cached
cached-Pointed a = by_current a.current
  where
    by_current :
        (c : Option ℕ)
        → Pointed a.slabs
            (elim c as (λ _. Option Slab) [ none ↦ none | some base ↦ find_slab base a.slabs ])
    by_current none = nowhere
    by_current (some c) = find_slab-Pointed c a.slabs

pub with_space-Sought :
    {slabs : List Slab} (r : Option Slab) → Pointed slabs r → Sought slabs Unit (with_space r)
unfolding with_space
with_space-Sought _ nowhere = full tt
with_space-Sought _ (at s sp) = elim (has_space-cases s) [
  | inl (e, none_free) ↦ rw e (full tt)
  | inr (e, p, rest, h) ↦ rw e (space s p rest sp h)
]
