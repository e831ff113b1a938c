-- ===== src/RobinHood/Shift.antt =====
-- The entry behind a hole moves into it, and the hole goes to where it was.
use native.Mathlib.Nat.{mod-lt}
use c_specx.Base.{
  ℕ, suc, ◌+◌, ◌-◌, ◌%◌, ◌<◌, ◌≡◌, ◌≢◌, refl, sym, ap, ◌∙◌, subst, inl, inr, ◌⊎◌, true, false,
  Bool-cases, ◌==◌, length-set, le_or_lt, arith,
}
use c_specx.RobinHood.{HData, HEntry, Table, at, put}
use c_specx.RobinHood.Inv.{Passed, Way}
use c_specx.RobinHood.Hole.{IsHoled, HoldsBut, put-cases, next_slot, through_far, through_last}

module _ {ht : Table} (b : ℕ) (v : IsHoled ht (b % ht.cap)) (apart : (b + 1) % ht.cap ≢ b % ht.cap)
    (there : (at ht ((b + 1) % ht.cap)).present ≡ true)
    (away : 0 < (at ht ((b + 1) % ht.cap)).dib) where
  abbrev pub moved_entry : HEntry
  moved_entry = record (at ht (b % ht.cap)) {
    item = (at ht ((b + 1) % ht.cap)).item;
    dib = (at ht ((b + 1) % ht.cap)).dib - 1;
  }

  abbrev pub moved : Table
  moved = put ht (b % ht.cap) moved_entry

  moved-cases :
      (j : ℕ)
      → ((j ≡ b % ht.cap) × (at moved j ≡ moved_entry))
        ⊎ ((j ≢ b % ht.cap) × (at moved j ≡ at ht j))
  moved-cases j = put-cases ht moved_entry (b % ht.cap) j v.slots v.within

  behind_within : (b + 1) % ht.cap < ht.cap
  behind_within = mod-lt (b + 1) v.some_slot

  -- A probe that passes both slots still passes.
  moved-Passed :
      (j e : ℕ)
      → Passed ht j e
      → (j ≡ b % ht.cap → Passed ht ((b + 1) % ht.cap) (suc e))
      → Passed moved j e
  moved-Passed j e p behind = elim (moved-cases j) [
    | inl (k, now) ↦
        let next = behind k in
        record {
          present = ap (λ x. x.present) now ∙ v.filled;
          near = omega (arith, next.near, ap (λ x. x.dib) now);
        }
    | inr (ne, same) ↦ record {
      present = ap (λ x. x.present) same ∙ p.present;
      near = omega (arith, p.near, ap (λ x. x.dib) same);
    }
  ]

  -- The entry moves down its own probe.
  slot_before :
      ((at ht ((b + 1) % ht.cap)).item.key + ((at ht ((b + 1) % ht.cap)).dib - 1)) % ht.cap
      ≡ b % ht.cap
  slot_before =
      let n = at ht ((b + 1) % ht.cap) in
      next_slot (n.item.key + (n.dib - 1)) b ht.cap
        (ap (λ (k : ℕ). k % ht.cap) {x = n.item.key + (n.dib - 1) + 1} {y = n.item.key + n.dib}
            (omega (arith, away))
          ∙ v.slot_eq ((b + 1) % ht.cap) behind_within apart there)
        v.some_slot

  Way-moved : Way moved (at ht ((b + 1) % ht.cap)).item.key ((at ht ((b + 1) % ht.cap)).dib - 1)
  Way-moved e lt =
      let n = at ht ((b + 1) % ht.cap) in
      moved-Passed ((n.item.key + e) % ht.cap) e
        (v.path ((b + 1) % ht.cap) behind_within apart there e (omega (arith, lt)))
        (λ k. through_far b ((b + 1) % ht.cap) e v behind_within apart there (omega (arith, lt)) k)

  Way-kept :
      (i : ℕ)
      → i < ht.cap
      → i ≢ b % ht.cap
      → i ≢ (b + 1) % ht.cap
      → (at ht i).present ≡ true
      → Way moved (at ht i).item.key (at ht i).dib
  Way-kept i w ne ne' p e lt =
      moved-Passed (((at ht i).item.key + e) % ht.cap) e (v.path i w ne p e lt) (λ k.
        elim (le_or_lt (at ht i).dib (suc e)) [
          | inl last ↦ absurd (ne' (through_last b i e v w ne p (omega (arith, last, lt)) k))
          | inr more ↦ through_far b i e v w ne p more k
        ])

  -- What stands outside the new hole: the entry that has moved, or an entry as before.
  data Stands (i : ℕ) : Type 0 where
    moved_here : i ≡ b % ht.cap → at moved i ≡ moved_entry → Stands i
    as_before : i ≢ b % ht.cap → at moved i ≡ at ht i → Stands i

  stands : (i : ℕ) → Stands i
  stands i = elim (moved-cases i) [
    | inl (k, now) ↦ moved_here k now
    | inr (ne, same) ↦ as_before ne same
  ]

  kept_present :
      (i : ℕ) → at moved i ≡ at ht i → (at moved i).present ≡ true → (at ht i).present ≡ true
  kept_present i same p = ap (λ x. x.present) (sym same) ∙ p

  key_unique :
      (i j : ℕ)
      → i < ht.cap
      → j < ht.cap
      → i ≢ (b + 1) % ht.cap
      → j ≢ (b + 1) % ht.cap
      → (at moved i).present ≡ true
      → (at moved j).present ≡ true
      → (at moved i).item.key ≡ (at moved j).item.key
      → Stands i
      → Stands j
      → i ≡ j
  key_unique i j w w' ni nj p p' h (moved_here k now) (moved_here k' now') = k ∙ sym k'
  key_unique i j w w' ni nj p p' h (moved_here k now) (as_before ne same) = absurd (
      nj (
        v.unique j ((b + 1) % ht.cap) w' behind_within ne apart (kept_present j same p') there
          (ap (λ x. x.item.key) (sym same) ∙ sym h ∙ ap (λ x. x.item.key) now)))
  key_unique i j w w' ni nj p p' h (as_before ne same) (moved_here k now) = absurd (
      ni (
        v.unique i ((b + 1) % ht.cap) w behind_within ne apart (kept_present i same p) there
          (ap (λ x. x.item.key) (sym same) ∙ h ∙ ap (λ x. x.item.key) now)))
  key_unique i j w w' ni nj p p' h (as_before ne same) (as_before ne' same') =
      v.unique i j w w' ne ne' (kept_present i same p) (kept_present j same' p')
        (ap (λ x. x.item.key) (sym same) ∙ h ∙ ap (λ x. x.item.key) same')

  pub moved-IsHoled : IsHoled moved ((b + 1) % ht.cap)
  moved-IsHoled = record {
    some_slot = v.some_slot;
    slots = length-set ht.elems (b % ht.cap) moved_entry ∙ v.slots;
    within = behind_within;
    filled = elim (moved-cases ((b + 1) % ht.cap)) [
      | inl (k, now) ↦ absurd (apart k)
      | inr (ne, same) ↦ ap (λ x. x.present) same ∙ there
    ];
    slot_eq = λ i w ni p. elim (stands i) [
      | moved_here k now ↦ ap (λ x. (x.item.key + x.dib) % ht.cap) now ∙ slot_before ∙ sym k
      | as_before ne same ↦
          ap (λ x. (x.item.key + x.dib) % ht.cap) same ∙ v.slot_eq i w ne (kept_present i same p)
    ];
    path = λ i w ni p. elim (stands i) [
      | moved_here k now ↦ subst (λ x. Way moved x.item.key x.dib) (sym now) Way-moved
      | as_before ne same ↦
          subst (λ x. Way moved x.item.key x.dib) (sym same)
            (Way-kept i w ne ni (kept_present i same p))
    ];
    bound = λ i w ni p. elim (stands i) [
      | moved_here k now ↦
          let d = v.bound ((b + 1) % ht.cap) behind_within apart there in
          subst (λ x. x.dib < ht.cap) (sym now) (omega (arith, d))
      | as_before ne same ↦
          subst (λ x. x.dib < ht.cap) (sym same) (v.bound i w ne (kept_present i same p))
    ];
    unique = λ i j w w' ni nj p p' h. key_unique i j w w' ni nj p p' h (stands i) (stands j);
  }

  pub moved-only : (x : HData) → HoldsBut moved ((b + 1) % ht.cap) x → HoldsBut ht (b % ht.cap) x
  moved-only x h = elim (stands h.index) [
    | moved_here k now ↦ record {
      index = (b + 1) % ht.cap;
      within = behind_within;
      elsewhere = apart;
      present = there;
      item_eq = ap (λ y. y.item) (sym now) ∙ h.item_eq;
    }
    | as_before ne same ↦ record {
      index = h.index;
      within = h.within;
      elsewhere = ne;
      present = kept_present h.index same h.present;
      item_eq = ap (λ y. y.item) (sym same) ∙ h.item_eq;
    }
  ]

  pub moved-kept : (x : HData) → HoldsBut ht (b % ht.cap) x → HoldsBut moved ((b + 1) % ht.cap) x
  moved-kept x h = elim (Bool-cases (h.index == (b + 1) % ht.cap)) [
    | inl same ↦
        let k : h.index ≡ (b + 1) % ht.cap = ground arith in
        by_hole (ap (λ (s : ℕ). (at ht s).item) (sym k) ∙ h.item_eq)
    | inr other ↦ elim (moved-cases h.index) [
      | inl (k, now) ↦ absurd (h.elsewhere k)
      | inr (ne, same) ↦ record {
        index = h.index;
        within = h.within;
        elsewhere = λ k. absurd (ground arith);
        present = ap (λ y. y.present) same ∙ h.present;
        item_eq = ap (λ y. y.item) same ∙ h.item_eq;
      }
    ]
  ]
    where
      by_hole : (at ht ((b + 1) % ht.cap)).item ≡ x → HoldsBut moved ((b + 1) % ht.cap) x
      by_hole e = elim (moved-cases (b % ht.cap)) [
        | inl (k, now) ↦ record {
          index = b % ht.cap;
          within = v.within;
          elsewhere = λ k'. apart (sym k');
          present = ap (λ y. y.present) now ∙ v.filled;
          item_eq = ap (λ y. y.item) now ∙ e;
        }
        | inr (ne, same) ↦ absurd (ne refl)
      ]

  pub moved-free : (j : ℕ) → (at ht j).present ≡ false → (at moved j).present ≡ false
  moved-free j empty = elim (moved-cases j) [
    | inl (k, now) ↦
        let full : (at ht j).present ≡ true = ap (λ (s : ℕ). (at ht s).present) k ∙ v.filled in
        absurd (ground (arith, full, empty))
    | inr (ne, same) ↦ ap (λ x. x.present) same ∙ empty
  ]
