-- ===== src/Memory/SlabAlloc/Alloc.antt =====
-- `slab_alloc_alloc` hands out a slot that is not handed out.
use native.Mathlib.Nat.{mul_comm}
use c_specx.Base.{
  ℕ, zero, suc, ◌+◌, ◌-◌, ◌*◌, ◌≤◌, ◌<◌, ◌≡◌, refl, sym, ap, ◌∙◌, subst, inl, inr, ◌⊎◌, true,
  Option, none, some, List, [], ◌∷◌, ◌==◌, if◌then◌else◌, ==_refl, u32_mod, arith, add32,
  add32_small, mul32, mul32_small,
}
use c_specx.Memory.SlabAlloc.{
  new_slab, Slab, SlabAlloc, header_size, all_slots, slab_alloc_extend, with_space, cached, search,
  pop, from_new, from_found, from_cached, slab_alloc_alloc,
}
use c_specx.Memory.SlabAlloc.Slots.{unused-taken_in}
use c_specx.Memory.SlabAlloc.NewSlab.{new-IsSlab}
use c_specx.Memory.SlabAlloc.Slabs.{IsValid, allocated, has_base, Away, has_base-mid}
use c_specx.Memory.SlabAlloc.Change.{is_allocated, Split, some_bytes, Handed, pop-Handed}
use c_specx.Memory.SlabAlloc.Search.{
  AllFull, Sought, search-Sought, cached-Pointed, with_space-Sought, full, space,
}

-- `n` bytes at `block`, which do not overlap the `bytes` bytes of any slab.
abbrev pub Clear : ℕ → ℕ → ℕ → List Slab → Type 0
Clear block n bytes [] = Unit
Clear block n bytes (s ∷ rest) =
    ((block + n ≤ s.base) ⊎ (s.base + bytes ≤ block)) × Clear block n bytes rest

-- No slot is free and there is no memory, and nothing changes; or a slot is handed out.
pub data Outcome (malloc : ℕ → Option ℕ) (a : SlabAlloc) : Option ℕ × SlabAlloc → Type 0 where
  no_memory :
      AllFull a.slabs
      → malloc (a.cap_per_slab * a.size + header_size) ≡ none
      → Outcome malloc a (none, a)
  hands : (p : ℕ) (a' : SlabAlloc) → Handed a p a' → Outcome malloc a (some p, a')

pub recached-IsValid :
    (s : Slab) {a : SlabAlloc}
    → IsValid a
    → Split a.slabs s
    → IsValid (record a { current = some s.base })
recached-IsValid s {a} v sp = record {
  some_size = v.some_size;
  some_slot = v.some_slot;
  small = v.small;
  slabs_valid = v.slabs_valid;
  apart = v.apart;
  current_in =
      ap (has_base s.base) sp.eq
      ∙ has_base-mid (a.cap_per_slab * a.size) (some_bytes v) s sp.after s.base sp.before
      ∙ rw (==_refl s.base) refl;
}

request_eq :
    (size cap : ℕ)
    → cap * size + header_size < u32_mod
    → add32 (mul32 size cap) header_size ≡ cap * size + header_size
request_eq size cap small =
    let e : size * cap ≡ cap * size = mul_comm size cap in
    ap (λ (k : ℕ). add32 k header_size) (mul32_small size cap (omega (arith, e)) ∙ e)
    ∙ add32_small (cap * size) header_size small

all_slots-cons : (base size n : ℕ) → (rest : List ℕ) × (all_slots base size n ≡ base ∷ rest)
unfolding all_slots
all_slots-cons base size zero = ([], refl)
all_slots-cons base size (suc n) = (all_slots (base + size) size n, refl)

-- A new slab, and the allocator with it at the head.
abbrev empty_slab : SlabAlloc → ℕ → Slab
empty_slab a block = record {
  base = block + header_size;
  freelist = all_slots (block + header_size) a.size (a.cap_per_slab - 1);
  used = 0;
}

abbrev with_new : SlabAlloc → ℕ → SlabAlloc
with_new a block = record a {
  slabs = empty_slab a block ∷ a.slabs;
  current = some (block + header_size);
}

Clear-Away :
    (block n bytes : ℕ) (s : Slab) (slabs : List Slab)
    → s.base ≡ block + header_size
    → n ≡ bytes + header_size
    → Clear block n bytes slabs
    → Away bytes s slabs
Clear-Away block n bytes s [] e m h = tt
Clear-Away block n bytes s (t ∷ rest) e m h = (side h.0, Clear-Away block n bytes s rest e m h.1)
  where
    side :
        (block + n ≤ t.base) ⊎ (t.base + bytes ≤ block)
        → (s.base + bytes ≤ t.base) ⊎ (t.base + bytes ≤ s.base)
    side (inl a) = inl (omega (arith, e, m))
    side (inr b) = inr (omega (arith, e))

added-IsValid :
    {a : SlabAlloc}
    → IsValid a
    → (block : ℕ)
    → Clear block (a.cap_per_slab * a.size + header_size) (a.cap_per_slab * a.size) a.slabs
    → IsValid (with_new a block)
unfolding has_base
added-IsValid {a} v block clear = record {
  some_size = v.some_size;
  some_slot = v.some_slot;
  small = v.small;
  slabs_valid = (
    new-IsSlab (block + header_size) a.size a.cap_per_slab v.some_size v.some_slot,
    v.slabs_valid,
  );
  apart = (
    Clear-Away block _ (a.cap_per_slab * a.size) (empty_slab a block) a.slabs refl refl clear,
    v.apart,
  );
  current_in = rw (==_refl (block + header_size)) refl;
}

added-Handed :
    {a a' : SlabAlloc} → IsValid a → (block p : ℕ) → Handed (with_new a block) p a' → Handed a p a'
unfolding allocated
added-Handed {a} v block p h =
    let ok = new-IsSlab (block + header_size) a.size a.cap_per_slab v.some_size v.some_slot in
    let same : (q : ℕ) → is_allocated (with_new a block) q ≡ is_allocated a q =
      λ q. rw (unused-taken_in a.size a.cap_per_slab (empty_slab a block) q ok refl) refl in
    record {
      valid = h.valid;
      was_free = sym (same p) ∙ h.was_free;
      allocated_eq = λ q. h.allocated_eq q ∙ ap (λ b. if q == p then true else b) (same q);
    }

module _ (malloc : ℕ → Option ℕ) {a : SlabAlloc} (v : IsValid a) where
  pop_of :
      (s : Slab) (p : ℕ) (rest : List ℕ) {a1 : SlabAlloc}
      → IsValid a1
      → Split a1.slabs s
      → s.freelist ≡ p ∷ rest
      → ((a' : SlabAlloc) → Handed a1 p a' → Handed a p a')
      → Outcome malloc a (pop a1 s s.freelist)
  unfolding pop
  pop_of s p rest {a1} ok sp e back =
      subst (λ f. Outcome malloc a (pop a1 s f)) (sym e)
        (hands p _ (back _ (pop-Handed p rest s ok sp e)))

  module _
      (fresh : (block : ℕ)
        → malloc (a.cap_per_slab * a.size + header_size) ≡ some block
        → Clear block
            (a.cap_per_slab * a.size + header_size)
            (a.cap_per_slab * a.size)
            a.slabs) where
    from_block :
        AllFull a.slabs
        → (m : Option ℕ) → malloc (a.cap_per_slab * a.size + header_size) ≡ m
        → Outcome malloc a (from_new a (new_slab a m))
    unfolding from_new new_slab
    from_block f none e = no_memory f e
    from_block f (some block) e =
        let s = empty_slab a block in
        let added = added-IsValid v block (fresh block e) in
        let (rest, h) = all_slots-cons s.base a.size (a.cap_per_slab - 1) in
        pop_of s s.base rest added (record { before = []; after = a.slabs; eq = refl }) h
          (λ a' h. added-Handed v block s.base h)

    from_new-Outcome : AllFull a.slabs → Outcome malloc a (from_new a (slab_alloc_extend malloc a))
    unfolding slab_alloc_extend
    from_new-Outcome f =
        let n = a.cap_per_slab * a.size + header_size in
        let request : add32 (mul32 a.size a.cap_per_slab) header_size ≡ n =
          request_eq a.size a.cap_per_slab v.small in
        subst (λ (k : ℕ). Outcome malloc a (from_new a (new_slab a (malloc k)))) (sym request)
          (from_block f (malloc n) refl)

    from_found-Outcome :
        (r : Option Slab)
        → Sought a.slabs (AllFull a.slabs) r
        → Outcome malloc a (from_found malloc a r)
    unfolding from_found
    from_found-Outcome _ (full f) = from_new-Outcome f
    from_found-Outcome _ (space s p rest sp e) =
        pop_of s p rest (recached-IsValid s v sp) sp e
          (λ a' h. record { valid = h.valid; was_free = h.was_free; allocated_eq = h.allocated_eq })

    from_cached-Outcome :
        (r : Option Slab) → Sought a.slabs Unit r → Outcome malloc a (from_cached malloc a r)
    unfolding from_cached
    from_cached-Outcome _ (full f) = from_found-Outcome (search a.slabs) (search-Sought a.slabs)
    from_cached-Outcome _ (space s p rest sp e) = pop_of s p rest v sp e (λ a' h. h)

-- `slab_alloc_alloc` of a valid allocator hands out a slot that is not handed out, after which it is
-- valid and has handed out this slot and those of before; or every slab is full and `malloc` has no
-- memory, and nothing changes. What `malloc` returns does not overlap the slabs.
pub slab_alloc_alloc_lem :
    (malloc : ℕ → Option ℕ) {a : SlabAlloc}
    → IsValid a
    → ((block : ℕ)
        → malloc (a.cap_per_slab * a.size + header_size) ≡ some block
        → Clear block (a.cap_per_slab * a.size + header_size) (a.cap_per_slab * a.size) a.slabs)
    → Outcome malloc a (slab_alloc_alloc malloc a)
unfolding slab_alloc_alloc
slab_alloc_alloc_lem malloc {a} v fresh =
    from_cached-Outcome malloc v fresh (with_space (cached a))
      (with_space-Sought (cached a) (cached-Pointed a))
