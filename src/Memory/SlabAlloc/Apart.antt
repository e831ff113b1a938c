-- ===== src/Memory/SlabAlloc/Apart.antt =====
-- Slots that the slabs have handed out do not overlap.
use native.Mathlib.Nat.{mul-le-mul_right}
use c_specx.Base.{
  ℕ, zero, suc, ◌+◌, ◌*◌, ◌≤◌, ◌<◌, ◌≡◌, ◌≢◌, sym, ap, ◌∙◌, inl, inr, ◌⊎◌, true, List, [], ◌∷◌,
  ◌==◌, Bool-cases, le_or_lt, arith,
}
use c_specx.Memory.SlabAlloc.{Slab}
use c_specx.Memory.SlabAlloc.Slots.{is_slot, taken_in, taken_in-range}
use c_specx.Memory.SlabAlloc.Slabs.{allocated, Away, AllApart}

abbrev pub Disjoint : ℕ → ℕ → ℕ → Type 0
Disjoint size p q = (p + size ≤ q) ⊎ (q + size ≤ p)

slot_index : (base size n p : ℕ) → is_slot base size n p ≡ true → (k : ℕ) × (p ≡ base + k * size)
unfolding is_slot
slot_index base size zero p h = absurd (ground arith)
slot_index base size (suc n) p h = elim (Bool-cases (base + n * size == p)) [
  | inl e ↦ (n, ground arith)
  | inr e ↦ slot_index base size n p (ground arith)
]

far : (base size j k : ℕ) → j < k → base + j * size + size ≤ base + k * size
far base size j k h =
    let le : suc j * size ≤ k * size = mul-le-mul_right {m = suc j} {n = k} size h in
    omega (arith, le)

slots-Disjoint :
    (base size n p q : ℕ)
    → is_slot base size n p ≡ true
    → is_slot base size n q ≡ true
    → p ≢ q
    → Disjoint size p q
slots-Disjoint base size n p q hp hq ne =
    let (j, ej) = slot_index base size n p hp in
    let (k, ek) = slot_index base size n q hq in
    elim (le_or_lt j k) [
      | inr more ↦ inr (omega (arith, ej, ek, far base size k j more))
      | inl le ↦ elim (le_or_lt k j) [
        | inl ge ↦
            let same : p ≡ q =
              ej ∙ ap (λ (i : ℕ). base + i * size) {x = j} {y = k} (omega arith) ∙ sym ek in
            absurd (ne same)
        | inr less ↦ inl (omega (arith, ej, ek, far base size j k less))
      ]
    ]

-- What the other slabs have handed out lies outside a slab.
outside :
    (size cap q : ℕ) (s : Slab) (zs : List Slab)
    → 0 < size
    → Away (cap * size) s zs
    → allocated size cap zs q ≡ true
    → (q + size ≤ s.base) ⊎ (s.base + cap * size ≤ q)
unfolding allocated
outside size cap q s [] pos h a = absurd (ground arith)
outside size cap q s (z ∷ zs) pos h a = elim (Bool-cases (taken_in size cap z q)) [
  | inl t ↦ let (low, high) = taken_in-range size cap z q pos t in by_side low high h.0
  | inr t ↦ outside size cap q s zs pos h.1 (ground arith)
]
  where
    by_side :
        z.base ≤ q
        → q + size ≤ z.base + cap * size
        → (s.base + cap * size ≤ z.base) ⊎ (z.base + cap * size ≤ s.base)
        → (q + size ≤ s.base) ⊎ (s.base + cap * size ≤ q)
    by_side low high (inl b) = inr (omega (arith, low, b))
    by_side low high (inr b) = inl (omega (arith, high, b))

in_and_out :
    (size cap p q : ℕ) (s : Slab)
    → 0 < size
    → taken_in size cap s p ≡ true
    → (q + size ≤ s.base) ⊎ (s.base + cap * size ≤ q)
    → Disjoint size p q
in_and_out size cap p q s pos t (inl below) =
    let (low, high) = taken_in-range size cap s p pos t in inr (omega (arith, low, below))
in_and_out size cap p q s pos t (inr above) =
    let (low, high) = taken_in-range size cap s p pos t in inl (omega (arith, high, above))

pub allocated-Disjoint :
    (size cap p q : ℕ) (slabs : List Slab)
    → 0 < size
    → AllApart (cap * size) slabs
    → allocated size cap slabs p ≡ true
    → allocated size cap slabs q ≡ true
    → p ≢ q
    → Disjoint size p q
unfolding allocated taken_in
allocated-Disjoint size cap p q [] pos h hp hq ne = absurd (ground arith)
allocated-Disjoint size cap p q (s ∷ rest) pos h hp hq ne =
    elim (Bool-cases (taken_in size cap s p)) [
      | inl tp ↦ elim (Bool-cases (taken_in size cap s q)) [
        | inl tq ↦ slots-Disjoint s.base size cap p q (ground arith) (ground arith) ne
        | inr tq ↦
            in_and_out size cap p q s pos tp (outside size cap q s rest pos h.0 (ground arith))
      ]
      | inr tp ↦ elim (Bool-cases (taken_in size cap s q)) [
        | inl tq ↦
            turn
              (in_and_out size cap q p s pos tq (outside size cap p s rest pos h.0 (ground arith)))
        | inr tq ↦ allocated-Disjoint size cap p q rest pos h.1 (ground arith) (ground arith) ne
      ]
    ]
  where
    turn : Disjoint size q p → Disjoint size p q
    turn (inl a) = inr a
    turn (inr a) = inl a
