-- ===== src/Memory/SlabAlloc/SlabStep.antt =====
-- What a slab hands out after a slot goes and after it comes back.
use c_specx.Base.{
  ℕ, ◌<◌, ◌≡◌, refl, sym, ap, ◌∙◌, subst, inl, inr, true, false, ◌&&◌, not, List, ◌∷◌, ◌==◌,
  if◌then◌else◌, Bool-cases, ==_refl, u32_mod, add32, sub32, add32_small, sub32_small, arith,
}
use c_specx.Memory.SlabAlloc.{Slab}
use c_specx.Memory.SlabAlloc.Slots.{
  is_slot, mem, taken_in, taken_count, Distinct, AllSlots, IsSlab, and_false, taken_count-le,
  count_more,
}

pub mem-other : (p q : ℕ) (xs : List ℕ) → (q == p) ≡ false → mem q (p ∷ xs) ≡ mem q xs
unfolding mem
mem-other p q xs ne = let ne' : (p == q) ≡ false = ground arith in rw ne' refl

pub mem_self : (p q : ℕ) (xs : List ℕ) → (q == p) ≡ true → mem q (p ∷ xs) ≡ true
unfolding mem
mem_self p q xs e = let e' : (p == q) ≡ true = ground arith in rw e' refl

-- The slots handed out, where the free list is that of `s` less its first slot.
pub handed_out :
    (size cap p q : ℕ) (used : ℕ) (rest : List ℕ) (s : Slab)
    → s.freelist ≡ p ∷ rest
    → is_slot s.base size cap p ≡ true
    → mem p rest ≡ false
    → taken_in size cap (record { base = s.base; freelist = rest; used = used }) q
      ≡ (if q == p then true else taken_in size cap s q)
unfolding taken_in
handed_out size cap p q used rest s e slot out = elim (Bool-cases (q == p)) [
  | inl same ↦
      let here : q ≡ p = ground arith in
      rw
        (
          same,
          ap (λ (x : ℕ). is_slot s.base size cap x) here ∙ slot,
          ap (λ (x : ℕ). mem x rest) here ∙ out,
        )
        refl
  | inr other ↦
      rw other (
        ap (λ b. is_slot s.base size cap q && not b)
          (sym (ap (mem q) e ∙ mem-other p q rest other)))
]

-- What happens to one slab when its first free slot is handed out.
pub record Popped (size cap p : ℕ) (s s' : Slab) : Type 0 where
  pub valid : IsSlab size cap s'
  pub was_free : taken_in size cap s p ≡ false
  pub slot : is_slot s.base size cap p ≡ true
  pub taken_eq : (q : ℕ) → taken_in size cap s' q ≡ (if q == p then true else taken_in size cap s q)

pub pop-Popped :
    (size cap p : ℕ) (rest : List ℕ) (s : Slab)
    → IsSlab size cap s
    → s.freelist ≡ p ∷ rest
    → 0 < size
    → cap < u32_mod
    → Popped size cap p s (record s { freelist = rest; used = add32 s.used 1 })
unfolding taken_in mem
pop-Popped size cap p rest s v e pos small =
    let distinct : Distinct (p ∷ rest) = subst Distinct e v.distinct in
    let slots : AllSlots s.base size cap (p ∷ rest) = subst (AllSlots s.base size cap) e v.slots in
    let more = count_more s.base size cap p rest pos slots.0 distinct.0 in
    let now : s.used ≡ taken_count s.base size (p ∷ rest) cap =
      v.counted ∙ ap (λ f. taken_count s.base size f cap) e in
    let few = taken_count-le s.base size rest cap in
    record {
      valid = record {
        distinct = distinct.1;
        slots = slots.1;
        counted = add32_small s.used 1 (omega (arith, now, more, few)) ∙ omega (arith, now, more);
      };
      was_free = rw (e, slots.0, ==_refl p) refl;
      slot = slots.0;
      taken_eq = λ q. handed_out size cap p q (add32 s.used 1) rest s e slots.0 distinct.0;
    }

-- What happens to one slab when a slot comes back.
pub record Pushed (size cap p : ℕ) (s s' : Slab) : Type 0 where
  pub valid : IsSlab size cap s'
  pub some_used : 0 < s.used
  pub taken_eq :
      (q : ℕ) → taken_in size cap s' q ≡ (if q == p then false else taken_in size cap s q)

pub came_back :
    (size cap p q used : ℕ) (s : Slab)
    → taken_in size cap (record { base = s.base; freelist = p ∷ s.freelist; used = used }) q
      ≡ (if q == p then false else taken_in size cap s q)
unfolding taken_in
came_back size cap p q used s = elim (Bool-cases (q == p)) [
  | inl same ↦ rw (same, mem_self p q s.freelist same) (and_false (is_slot s.base size cap q))
  | inr other ↦ rw (other, mem-other p q s.freelist other) refl
]

pub push-Pushed :
    (size cap p : ℕ) (s : Slab)
    → IsSlab size cap s
    → taken_in size cap s p ≡ true
    → 0 < size
    → cap < u32_mod
    → Pushed size cap p s (record s { freelist = p ∷ s.freelist; used = sub32 s.used 1 })
unfolding taken_in
push-Pushed size cap p s v taken pos small =
    let slot : is_slot s.base size cap p ≡ true = ground arith in
    let out : mem p s.freelist ≡ false = ground arith in
    let more = count_more s.base size cap p s.freelist pos slot out in
    let few = taken_count-le s.base size s.freelist cap in
    record {
      valid = record {
        distinct = (out, v.distinct);
        slots = (slot, v.slots);
        counted =
            sub32_small s.used 1 (omega (arith, v.counted, more)) (omega (arith, v.counted, few))
            ∙ omega (arith, v.counted, more);
      };
      some_used = omega (arith, v.counted, more);
      taken_eq = λ q. came_back size cap p q (sub32 s.used 1) s;
    }
