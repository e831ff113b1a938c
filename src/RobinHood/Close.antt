-- ===== src/RobinHood/Close.antt =====
-- The loop of a deletion that closes the hole.
use c_specx.Base.{
  ℕ, zero, suc, ◌+◌, ◌-◌, ◌%◌, ◌≤◌, ◌<◌, ◌≡◌, ◌≢◌, refl, sym, ap, ◌∙◌, subst, inl, inr, Bool, true,
  false, ◌||◌, not, ◌==◌, Bool-cases, arith,
}
use c_specx.RobinHood.{HData, Table, at, shift_loop}
use c_specx.RobinHood.Inv.{IsValid, Holds}
use c_specx.RobinHood.Probe.{same_rest}
use c_specx.RobinHood.Hole.{IsHoled, HoldsBut, emptied, emptied-IsValid, emptied-only, emptied-kept}
use c_specx.RobinHood.Shift.{moved, moved-IsHoled, moved-only, moved-kept, moved-free}

-- The entry at the hole is gone, and nothing else.
pub data Closed (ht : Table) (h : ℕ) : Bool × Table → Type 0 where
  closed :
      (ht' : Table)
      → IsValid ht'
      → ((x : HData) → HoldsBut ht h x → Holds ht' x)
      → ((x : HData) → Holds ht' x → HoldsBut ht h x)
      → Closed ht h (true, ht')

pub all_one : (b n m : ℕ) → (b + 1) % n ≡ b % n → (b + m) % n ≡ b % n
all_one b n zero e = ap (λ (k : ℕ). k % n) {x = b + 0} {y = b} (omega arith)
all_one b n (suc m) e =
    ap (λ (k : ℕ). k % n) {x = b + suc m} {y = b + m + 1} (omega arith)
    ∙ same_rest (b + m) b 1 n (all_one b n m e)
    ∙ e

pub Closed-moved :
    (b : ℕ) {ht : Table} (v : IsHoled ht (b % ht.cap)) (apart : (b + 1) % ht.cap ≢ b % ht.cap)
    (there : (at ht ((b + 1) % ht.cap)).present ≡ true) (away : 0 < (at ht ((b + 1) % ht.cap)).dib)
    (r : Bool × Table)
    → Closed (moved b v apart there away) ((b + 1) % ht.cap) r
    → Closed ht (b % ht.cap) r
Closed-moved b v apart there away _ (closed ht' ok kept only) =
    closed ht' ok (λ x h. kept x (moved-kept b v apart there away x h))
      (λ x h. moved-only b v apart there away x (only x h))

-- The empty slot lies behind the slot behind the hole, where this one is in use.
pub beyond :
    (b m : ℕ) (ht : Table)
    → (at ht ((b + 1) % ht.cap)).present ≡ true
    → (at ht ((b + m) % ht.cap)).present ≡ false
    → 0 < m
    → 1 < m
beyond b zero ht p free pos = absurd (omega arith)
beyond b (suc zero) ht p free pos =
    let same : (at ht ((b + 1) % ht.cap)).present ≡ (at ht ((b + suc zero) % ht.cap)).present =
      refl in
    absurd (ground (arith, same))
beyond b (suc (suc m)) ht p free pos = omega arith

pub shift_loop-Closed :
    (left i m key : ℕ) {ht : Table}
    → IsHoled ht ((key + i) % ht.cap)
    → (at ht ((key + i + m) % ht.cap)).present ≡ false
    → 0 < m
    → m ≤ left
    → Closed ht ((key + i) % ht.cap) (shift_loop left ht key i)
unfolding shift_loop
shift_loop-Closed zero i m key v free pos le = absurd (omega arith)
shift_loop-Closed (suc left) i m key {ht} v free pos le =
    let b = key + i in
    let h' = (b + 1) % ht.cap in
    let apart : h' ≢ b % ht.cap = λ e.
      let full : (at ht ((b + m) % ht.cap)).present ≡ true =
        ap (λ (s : ℕ). (at ht s).present) (all_one b ht.cap m e) ∙ v.filled in
      absurd (ground (arith, full, free)) in
    elim (Bool-cases (not (at ht h').present || (at ht h').dib == 0)) [
      | inl stop ↦
          let still : (at ht h').present ≡ true → (at ht h').dib ≡ 0 = λ p. ground arith in
          rw stop (
            closed (emptied b v still) (emptied-IsValid b v still) (emptied-kept b v still)
              (emptied-only b v still))
      | inr go ↦
          let there : (at ht h').present ≡ true = ground arith in
          let away : 0 < (at ht h').dib = ground arith in
          let later : 1 < m = beyond b m ht there free pos in
          let index : (key + suc i) % ht.cap ≡ h' =
            ap (λ (k : ℕ). k % ht.cap) {x = key + suc i} {y = b + 1} (omega arith) in
          rw go (
            Closed-moved b v apart there away
              (shift_loop left (moved b v apart there away) key (suc i))
              (subst
                (λ (s : ℕ).
                  Closed (moved b v apart there away) s
                    (shift_loop left (moved b v apart there away) key (suc i)))
                index
                (shift_loop-Closed left (suc i) (m - 1) key
                  (subst (IsHoled (moved b v apart there away)) (sym index)
                    (moved-IsHoled b v apart there away))
                  (moved-free b v apart there away ((key + suc i + (m - 1)) % ht.cap) (
                    ap (λ (k : ℕ). (at ht (k % ht.cap)).present) {x = key + suc i + (m - 1)}
                      {y = b + m} (omega (arith, pos))
                    ∙ free))
                  (omega (arith, later)) (omega (arith, later)))))
    ]
