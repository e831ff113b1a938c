-- ===== src/RobinHood/Hole.antt =====
-- A deletion moves a hole to the right, until nothing behind it wants to move.
use native.Mathlib.Nat.{add-mod_right}
use c_specx.Base.{
  ℕ, suc, ◌+◌, ◌-◌, ◌%◌, ◌<◌, ◌≡◌, ◌≢◌, sym, ap, ◌∙◌, subst, inl, inr, ◌⊎◌, true, false, length,
  get_or-set_self, get_or-set_ne, length-set, ◌==◌, Bool-cases, le_or_lt, arith,
}
use c_specx.RobinHood.{HData, HEntry, Table, at, put, no_entry}
use c_specx.RobinHood.Inv.{Passed, Way, IsValid, Holds}
use c_specx.RobinHood.Probe.{same_rest}

-- A table that is valid but for the entry at `h`, which is still there.
pub record IsHoled (ht : Table) (h : ℕ) : Type 0 where
  pub some_slot : 0 < ht.cap
  pub slots : length ht.elems ≡ ht.cap
  pub within : h < ht.cap
  pub filled : (at ht h).present ≡ true
  pub slot_eq :
      (i : ℕ)
      → i < ht.cap
      → i ≢ h
      → (at ht i).present ≡ true
      → ((at ht i).item.key + (at ht i).dib) % ht.cap ≡ i
  pub path :
      (i : ℕ)
      → i < ht.cap
      → i ≢ h
      → (at ht i).present ≡ true
      → Way ht (at ht i).item.key (at ht i).dib
  pub bound : (i : ℕ) → i < ht.cap → i ≢ h → (at ht i).present ≡ true → (at ht i).dib < ht.cap
  pub unique :
      (i j : ℕ)
      → i < ht.cap
      → j < ht.cap
      → i ≢ h
      → j ≢ h
      → (at ht i).present ≡ true
      → (at ht j).present ≡ true
      → (at ht i).item.key ≡ (at ht j).item.key
      → i ≡ j

-- The entry is in the table, and not in the hole.
pub record HoldsBut (ht : Table) (h : ℕ) (item : HData) : Type 0 where
  pub index : ℕ
  pub within : index < ht.cap
  pub elsewhere : index ≢ h
  pub present : (at ht index).present ≡ true
  pub item_eq : (at ht index).item ≡ item

pub put-cases :
    (ht : Table) (e : HEntry) (h j : ℕ)
    → length ht.elems ≡ ht.cap
    → h < ht.cap
    → ((j ≡ h) × (at (put ht h e) j ≡ e)) ⊎ ((j ≢ h) × (at (put ht h e) j ≡ at ht j))
put-cases ht e h j slots within = elim (Bool-cases (h == j)) [
  | inl same ↦
      let k : j ≡ h = ground arith in
      inl (
        k,
        ap (λ (s : ℕ). at (put ht h e) s) k
            ∙ get_or-set_self ht.elems h e no_entry (omega (arith, slots)),
      )
  | inr other ↦
      let ne : h ≢ j = λ k. absurd (ground arith) in
      inr ((λ k. ne (sym k)), get_or-set_ne ht.elems h j e no_entry ne)
]

-- The slot behind `h`, and a probe that comes past both.
pub next_slot : (a b n : ℕ) → (a + 1) % n ≡ (b + 1) % n → 0 < n → a % n ≡ b % n
next_slot a b n e pos =
    sym (add-mod_right a n)
    ∙ ap (λ (k : ℕ). k % n) {x = a + n} {y = a + 1 + (n - 1)} (omega arith)
    ∙ same_rest (a + 1) (b + 1) (n - 1) n e
    ∙ ap (λ (k : ℕ). k % n) {x = b + 1 + (n - 1)} {y = b + n} (omega arith)
    ∙ add-mod_right b n

-- Where a probe passes the hole, it has come to the slot behind it, or passes this too.
pub through_far :
    (b i e : ℕ) {ht : Table}
    → IsHoled ht (b % ht.cap)
    → i < ht.cap
    → i ≢ b % ht.cap
    → (at ht i).present ≡ true
    → suc e < (at ht i).dib
    → ((at ht i).item.key + e) % ht.cap ≡ b % ht.cap
    → Passed ht ((b + 1) % ht.cap) (suc e)
through_far b i e {ht} v w ne p more here =
    let key = (at ht i).item.key in
    let step : (key + suc e) % ht.cap ≡ (b + 1) % ht.cap =
      ap (λ (k : ℕ). k % ht.cap) {x = key + suc e} {y = key + e + 1} (omega arith)
      ∙ same_rest (key + e) b 1 ht.cap here in
    subst (λ (j : ℕ). Passed ht j (suc e)) step (v.path i w ne p (suc e) more)

pub through_last :
    (b i e : ℕ) {ht : Table}
    → IsHoled ht (b % ht.cap)
    → i < ht.cap
    → i ≢ b % ht.cap
    → (at ht i).present ≡ true
    → (at ht i).dib ≡ suc e
    → ((at ht i).item.key + e) % ht.cap ≡ b % ht.cap
    → i ≡ (b + 1) % ht.cap
through_last b i e {ht} v w ne p last here =
    let key = (at ht i).item.key in
    sym (v.slot_eq i w ne p)
    ∙ ap (λ (k : ℕ). k % ht.cap) {x = key + (at ht i).dib} {y = key + e + 1} (omega (arith, last))
    ∙ same_rest (key + e) b 1 ht.cap here

-- The end: the hole becomes an empty slot.
module _ {ht : Table} (b : ℕ) (v : IsHoled ht (b % ht.cap))
    (still : (at ht ((b + 1) % ht.cap)).present ≡ true → (at ht ((b + 1) % ht.cap)).dib ≡ 0) where
  abbrev pub emptied : Table
  emptied = put ht (b % ht.cap) (record (at ht (b % ht.cap)) { present = false })

  emptied-cases :
      (j : ℕ)
      → ((j ≡ b % ht.cap) × (at emptied j ≡ record (at ht (b % ht.cap)) { present = false }))
        ⊎ ((j ≢ b % ht.cap) × (at emptied j ≡ at ht j))
  emptied-cases j =
      put-cases ht (record (at ht (b % ht.cap)) { present = false }) (b % ht.cap) j v.slots v.within

  -- What is present stands elsewhere, as before.
  present-emptied :
      (j : ℕ) → (at emptied j).present ≡ true → (j ≢ b % ht.cap) × (at emptied j ≡ at ht j)
  present-emptied j p = elim (emptied-cases j) [
    | inl (k, now) ↦
        let q : false ≡ true = ap (λ x. x.present) (sym now) ∙ p in absurd (ground arith)
    | inr other ↦ other
  ]

  not_through :
      (i e : ℕ)
      → i < ht.cap
      → i ≢ b % ht.cap
      → (at ht i).present ≡ true
      → e < (at ht i).dib
      → ((at ht i).item.key + e) % ht.cap ≢ b % ht.cap
  not_through i e w ne p lt here = elim (le_or_lt (at ht i).dib (suc e)) [
    | inl last ↦
        let i_eq = through_last b i e v w ne p (omega arith) here in
        let none_left = still (ap (λ (s : ℕ). (at ht s).present) (sym i_eq) ∙ p) in
        let d : (at ht i).dib ≡ 0 = ap (λ (s : ℕ). (at ht s).dib) i_eq ∙ none_left in
        absurd (omega (arith, d))
    | inr more ↦
        let passed = through_far b i e v w ne p more here in
        absurd (omega (arith, passed.near, still passed.present))
  ]

  emptied-Passed : (j e : ℕ) → j ≢ b % ht.cap → Passed ht j e → Passed emptied j e
  emptied-Passed j e ne p = elim (emptied-cases j) [
    | inl (k, now) ↦ absurd (ne k)
    | inr (other, same) ↦ record {
      present = ap (λ x. x.present) same ∙ p.present;
      near = omega (arith, p.near, ap (λ x. x.dib) same);
    }
  ]

  pub emptied-IsValid : IsValid emptied
  emptied-IsValid = record {
    some_slot = v.some_slot;
    slots =
        length-set ht.elems (b % ht.cap) (record (at ht (b % ht.cap)) { present = false })
        ∙ v.slots;
    slot_eq = λ i w p.
        let (ne, same) = present-emptied i p in
        ap (λ x. (x.item.key + x.dib) % ht.cap) same
        ∙ v.slot_eq i w ne (ap (λ x. x.present) (sym same) ∙ p);
    path = λ i w p e lt.
        let (ne, same) = present-emptied i p in
        let p' = ap (λ x. x.present) (sym same) ∙ p in
        let lt' = subst (λ x. e < x.dib) same lt in
        subst (λ x. Passed emptied ((x.item.key + e) % ht.cap) e) (sym same)
          (emptied-Passed (((at ht i).item.key + e) % ht.cap) e (not_through i e w ne p' lt')
            (v.path i w ne p' e lt'));
    bound = λ i w p.
        let (ne, same) = present-emptied i p in
        subst (λ x. x.dib < ht.cap) (sym same)
          (v.bound i w ne (ap (λ x. x.present) (sym same) ∙ p));
    unique = λ i j w w' p p' h.
        let (ne, same) = present-emptied i p in
        let (ne', same') = present-emptied j p' in
        v.unique i j w w' ne ne' (ap (λ x. x.present) (sym same) ∙ p)
          (ap (λ x. x.present) (sym same') ∙ p')
          (ap (λ x. x.item.key) (sym same) ∙ h ∙ ap (λ x. x.item.key) same');
  }

  pub emptied-only : (x : HData) → Holds emptied x → HoldsBut ht (b % ht.cap) x
  emptied-only x h =
      let (ne, same) = present-emptied h.index h.present in
      record {
        index = h.index;
        within = h.within;
        elsewhere = ne;
        present = ap (λ y. y.present) (sym same) ∙ h.present;
        item_eq = ap (λ y. y.item) (sym same) ∙ h.item_eq;
      }

  pub emptied-kept : (x : HData) → HoldsBut ht (b % ht.cap) x → Holds emptied x
  emptied-kept x h = elim (emptied-cases h.index) [
    | inl (k, now) ↦ absurd (h.elsewhere k)
    | inr (ne, same) ↦ record {
      index = h.index;
      within = h.within;
      present = ap (λ y. y.present) same ∙ h.present;
      item_eq = ap (λ y. y.item) same ∙ h.item_eq;
    }
  ]
