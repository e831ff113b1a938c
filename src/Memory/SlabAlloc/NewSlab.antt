-- ===== src/Memory/SlabAlloc/NewSlab.antt =====
-- The free list of a new slab has each of its slots.
use c_specx.Base.{
  ℕ, zero, suc, ◌+◌, ◌-◌, ◌*◌, ◌≤◌, ◌<◌, ◌≡◌, refl, sym, ap, ◌∙◌, subst, true, false, ◌==◌, ==_refl,
  arith,
}
use c_specx.Memory.SlabAlloc.{all_slots}
use c_specx.Memory.SlabAlloc.Slots.{
  mem, taken_count, Distinct, AllSlots, IsSlab, or_true, is_slot_at,
}

-- The free list of a new slab.
pub mem_below : (cur size n p : ℕ) → p < cur → mem p (all_slots cur size n) ≡ false
unfolding mem all_slots
mem_below cur size zero p h = ground arith
mem_below cur size (suc n) p h = ground (arith, mem_below (cur + size) size n p (omega arith))

pub all_slots-Distinct : (cur size n : ℕ) → 0 < size → Distinct (all_slots cur size n)
unfolding all_slots mem
all_slots-Distinct cur size zero pos = (refl, tt)
all_slots-Distinct cur size (suc n) pos =
    (mem_below (cur + size) size n cur (omega arith), all_slots-Distinct (cur + size) size n pos)

pub all_slots-AllSlots :
    (base size cap i n : ℕ)
    → i + n < cap
    → AllSlots base size cap (all_slots (base + i * size) size n)
unfolding all_slots
all_slots-AllSlots base size cap i zero h = (is_slot_at base size cap i (omega arith), tt)
all_slots-AllSlots base size cap i (suc n) h = (
  is_slot_at base size cap i (omega arith),
  subst (λ (q : ℕ). AllSlots base size cap (all_slots q size n)) {x = base + suc i * size}
      {y = base + i * size + size} (omega arith)
      (all_slots-AllSlots base size cap (suc i) n (omega arith)),
)

pub mem_first : (cur size n : ℕ) → mem cur (all_slots cur size n) ≡ true
unfolding all_slots mem
mem_first cur size zero = rw (==_refl cur) refl
mem_first cur size (suc n) = rw (==_refl cur) refl

pub mem_all_slots : (cur size n k : ℕ) → k ≤ n → mem (cur + k * size) (all_slots cur size n) ≡ true
unfolding all_slots mem
mem_all_slots cur size n zero h =
    ap (λ (q : ℕ). mem q (all_slots cur size n)) {x = cur + 0 * size} {y = cur} (omega arith)
    ∙ mem_first cur size n
mem_all_slots cur size zero (suc k) h = absurd (omega arith)
mem_all_slots cur size (suc n) (suc k) h =
    rw
      (ap (λ (q : ℕ). mem q (all_slots (cur + size) size n)) {x = cur + suc k * size}
          {y = cur + size + k * size} (omega arith)
        ∙ mem_all_slots (cur + size) size n k (omega arith))
      (or_true (cur == cur + suc k * size))

pub all_slots-count :
    (base size m n : ℕ) → n ≤ suc m → taken_count base size (all_slots base size m) n ≡ 0
unfolding taken_count
all_slots-count base size m zero h = refl
all_slots-count base size m (suc n) h =
    rw (mem_all_slots base size m n (omega arith))
      (omega (arith, all_slots-count base size m n (omega arith)))

pub new-IsSlab :
    (base size cap : ℕ)
    → 0 < size
    → 0 < cap
    → IsSlab size cap (record { base = base; freelist = all_slots base size (cap - 1); used = 0 })
new-IsSlab base size cap pos some_slot = record {
  distinct = all_slots-Distinct base size (cap - 1) pos;
  slots =
      subst (λ (q : ℕ). AllSlots base size cap (all_slots q size (cap - 1))) {x = base + 0 * size}
        {y = base} (omega arith) (all_slots-AllSlots base size cap 0 (cap - 1) (omega arith));
  counted = sym (all_slots-count base size (cap - 1) cap (omega arith));
}
