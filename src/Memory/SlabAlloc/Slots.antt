-- ===== src/Memory/SlabAlloc/Slots.antt =====
-- The slots of a slab, and which of them are handed out.
use c_specx.Base.{
  ℕ, zero, suc, ◌+◌, ◌*◌, ◌≤◌, ◌<◌, ◌≡◌, refl, sym, ap, ◌∙◌, inl, inr, Bool, true, false, ◌&&◌,
  ◌||◌, not, List, [], ◌∷◌, ◌==◌, if◌then◌else◌, Bool-cases, ==_refl, le_or_lt, arith,
}
use c_specx.Memory.SlabAlloc.{Slab}

-- If `p` is the address of one of the first `n` slots from `base` on.
unfoldable pub is_slot : ℕ → ℕ → ℕ → ℕ → Bool
is_slot base size zero p = false
is_slot base size (suc k) p = base + k * size == p || is_slot base size k p

unfoldable pub mem : ℕ → List ℕ → Bool
mem p [] = false
mem p (x ∷ xs) = x == p || mem p xs

-- If `p` is a slot of the slab that is not free.
unfoldable pub taken_in : ℕ → ℕ → Slab → ℕ → Bool
taken_in size cap s p = is_slot s.base size cap p && not (mem p s.freelist)

-- How many of the first `n` slots from `base` on are not in `free`.
unfoldable pub taken_count : ℕ → ℕ → List ℕ → ℕ → ℕ
taken_count base size free zero = 0
taken_count base size free (suc k) =
    taken_count base size free k + (if mem (base + k * size) free then 0 else 1)

abbrev pub Distinct : List ℕ → Type 0
Distinct [] = Unit
Distinct (x ∷ xs) = (mem x xs ≡ false) × Distinct xs

abbrev pub AllSlots : ℕ → ℕ → ℕ → List ℕ → Type 0
AllSlots base size cap [] = Unit
AllSlots base size cap (x ∷ xs) = (is_slot base size cap x ≡ true) × AllSlots base size cap xs

pub record IsSlab (size cap : ℕ) (s : Slab) : Type 0 where
  pub distinct : Distinct s.freelist
  pub slots : AllSlots s.base size cap s.freelist
  pub counted : s.used ≡ taken_count s.base size s.freelist cap

pub is_slot-range :
    (base size n p : ℕ)
    → 0 < size
    → is_slot base size n p ≡ true
    → (base ≤ p) × (p + size ≤ base + n * size)
unfolding is_slot
is_slot-range base size zero p pos h = absurd (ground arith)
is_slot-range base size (suc k) p pos h = elim (Bool-cases (base + k * size == p)) [
  | inl e ↦ let same : base + k * size ≡ p = ground arith in (omega arith, omega arith)
  | inr ne ↦ let (a, b) = is_slot-range base size k p pos (ground arith) in (a, omega (arith, b))
]

-- The count where one slot more is free.

pub is_slot_past :
    (base size n p : ℕ) → 0 < size → base + n * size ≤ p → is_slot base size n p ≡ false
is_slot_past base size n p pos h = elim (Bool-cases (is_slot base size n p)) [
  | inl e ↦ let (a, b) = is_slot-range base size n p pos e in absurd (omega (arith, b))
  | inr e ↦ e
]

pub or_true : (b : Bool) → (b || true) ≡ true
or_true true = refl
or_true false = refl

pub and_false : (b : Bool) → (b && false) ≡ false
and_false true = refl
and_false false = refl

pub is_slot_at : (base size n k : ℕ) → k < n → is_slot base size n (base + k * size) ≡ true
unfolding is_slot
is_slot_at base size zero k h = absurd (omega arith)
is_slot_at base size (suc n) k h = elim (le_or_lt n k) [
  | inl last ↦
      let same : (base + n * size == base + k * size) ≡ true =
        ap (λ (j : ℕ). base + n * size == base + j * size) {x = k} {y = n} (omega arith)
        ∙ ==_refl (base + n * size) in
      rw same refl
  | inr before ↦ rw (is_slot_at base size n k before) (or_true (base + n * size == base + k * size))
]

pub taken_count-le : (base size : ℕ) (free : List ℕ) (n : ℕ) → taken_count base size free n ≤ n
unfolding taken_count
taken_count-le base size free zero = omega arith
taken_count-le base size free (suc k) = ground (arith, taken_count-le base size free k)

-- A slot outside the first `n` does not count.
pub count_same :
    (base size n p : ℕ) (free : List ℕ)
    → is_slot base size n p ≡ false
    → taken_count base size (p ∷ free) n ≡ taken_count base size free n
unfolding taken_count is_slot mem
count_same base size zero p free h = refl
count_same base size (suc k) p free h = ground (arith, count_same base size k p free)

-- A slot that is not free counts.
pub count_more :
    (base size n p : ℕ) (free : List ℕ)
    → 0 < size
    → is_slot base size n p ≡ true
    → mem p free ≡ false
    → taken_count base size free n ≡ suc (taken_count base size (p ∷ free) n)
unfolding taken_count is_slot mem
count_more base size zero p free pos h out = absurd (ground arith)
count_more base size (suc k) p free pos h out = elim (Bool-cases (base + k * size == p)) [
  | inl e ↦
      let same : base + k * size ≡ p = ground arith in
      let here = count_same base size k p free (is_slot_past base size k p pos (omega arith)) in
      rw (same, out, ==_refl p) (omega (arith, here))
  | inr ne ↦ ground (arith, count_more base size k p free pos (ground arith) out)
]

-- Where no slot counts, each is free.
pub none_taken :
    (base size n p : ℕ) (free : List ℕ)
    → taken_count base size free n ≡ 0
    → is_slot base size n p ≡ true
    → mem p free ≡ true
unfolding taken_count is_slot
none_taken base size zero p free z h = absurd (ground arith)
none_taken base size (suc k) p free z h = elim (Bool-cases (base + k * size == p)) [
  | inl e ↦
      let same : base + k * size ≡ p = ground arith in
      elim (Bool-cases (mem p free)) [
        | inl m ↦ m
        | inr m ↦
            let out : mem (base + k * size) free ≡ false = ap (λ (q : ℕ). mem q free) same ∙ m in
            absurd (ground (arith, out))
      ]
  | inr ne ↦ none_taken base size k p free (ground arith) (ground arith)
]

-- A slab of which no slot is used has none handed out.
pub unused-taken_in :
    (size cap : ℕ) (s : Slab) (q : ℕ)
    → IsSlab size cap s
    → s.used ≡ 0
    → taken_in size cap s q ≡ false
unfolding taken_in
unused-taken_in size cap s q v z = elim (Bool-cases (is_slot s.base size cap q)) [
  | inl e ↦ rw (e, none_taken s.base size cap q s.freelist (sym v.counted ∙ z) e) refl
  | inr e ↦ rw e refl
]

pub taken_in-range :
    (size cap : ℕ) (s : Slab) (p : ℕ)
    → 0 < size
    → taken_in size cap s p ≡ true
    → (s.base ≤ p) × (p + size ≤ s.base + cap * size)
unfolding taken_in
taken_in-range size cap s p pos h = is_slot-range s.base size cap p pos (ground arith)
