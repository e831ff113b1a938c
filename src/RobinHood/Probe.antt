-- ===== src/RobinHood/Probe.antt =====
-- The probe of an insertion, up to an empty slot.
use native.Mathlib.Nat.{mod-lt, mod-add-mod}
use c_specx.Base.{
  ℕ, zero, suc, ◌+◌, ◌-◌, ◌%◌, ◌≤◌, ◌<◌, ◌≡◌, refl, sym, ap, ◌∙◌, subst, inl, inr, ◌⊎◌, true, false,
  ltb, ◌==◌, Bool-cases, le_or_lt, arith,
}
use c_specx.RobinHood.{HtiRes, htir_success, HData, Table, at, put, insert_loop}
use c_specx.RobinHood.Inv.{Passed, Way, IsValid, Holds, Absent}
use c_specx.RobinHood.Store.{
  entry, CanStore, slot-cases, store-Passed, store-IsValid, stored, store-new, store-others,
}

-- A valid table with the new entry and those of before.
pub record Added (ht : Table) (item : HData) (ht' : Table) : Type 0 where
  pub valid : IsValid ht'
  pub new : Holds ht' item
  pub kept : (x : HData) → Holds ht x → Holds ht' x
  pub only : (x : HData) → Holds ht' x → (x ≡ item) ⊎ Holds ht x

pub data Success (ht : Table) (item : HData) : HtiRes × Table → Type 0 where
  success : (ht' : Table) → Added ht item ht' → Success ht item (htir_success, ht')

pub store-Added :
    {ht : Table} {item : HData} {dib i : ℕ}
    → IsValid ht
    → CanStore ht item dib i
    → (at ht i).present ≡ false
    → Added ht item (put ht i (entry item dib))
store-Added {ht} {item} {dib} {i} v can empty = record {
  valid = store-IsValid v can;
  new = store-new v can;
  kept = λ x h. elim (store-others x v can h) [
    | inl h' ↦ h'
    | inr (p, e) ↦ absurd (ground (arith, p, empty))
  ];
  only = λ x h. stored x v can h;
}

-- The entry that was in the way goes on.
pub swap-Added :
    {ht ht' : Table} {item : HData} {dib i : ℕ}
    → IsValid ht
    → CanStore ht item dib i
    → (at ht i).present ≡ true
    → Added (put ht i (entry item dib)) (at ht i).item ht'
    → Added ht item ht'
swap-Added {ht} {ht'} {item} {dib} {i} v can p a = record {
  valid = a.valid;
  new = a.kept item (store-new v can);
  kept = λ x h. elim (store-others x v can h) [
    | inl h' ↦ a.kept x h'
    | inr (q, e) ↦ subst (Holds ht') (sym e) a.new
  ];
  only = λ x h. elim (a.only x h) [
    | inl e ↦ inr (
        subst (Holds ht) (sym e)
          (record { index = i; within = can.within; present = p; item_eq = refl }))
    | inr h' ↦ stored x v can h'
  ];
}

pub Success-swap :
    {ht : Table} {item : HData} {dib i : ℕ} (r : HtiRes × Table)
    → IsValid ht
    → CanStore ht item dib i
    → (at ht i).present ≡ true
    → Success (put ht i (entry item dib)) (at ht i).item r
    → Success ht item r
Success-swap _ v can p (success ht' a) = success ht' (swap-Added v can p a)

pub same_rest : (a b c n : ℕ) → a % n ≡ b % n → (a + c) % n ≡ (b + c) % n
same_rest a b c n e = sym (mod-add-mod a n c) ∙ ap (λ (k : ℕ). (k + c) % n) e ∙ mod-add-mod b n c

-- A probe whose slots all have entries as far as it comes goes one slot on.
pub Way-suc :
    {ht : Table} (key dib : ℕ)
    → Way ht key dib
    → Passed ht ((key + dib) % ht.cap) dib
    → Way ht key (suc dib)
Way-suc {ht} key dib way last e lt = elim (le_or_lt dib e) [
  | inr before ↦ way e before
  | inl here ↦
      subst (λ (k : ℕ). Passed ht ((key + k) % ht.cap) k) {x = dib} {y = e} (omega arith) last
]

-- What the entry in the way needs to go on.
pub record GoesOn (ht : Table) (item : HData) (dib i : ℕ) : Type 0 where
  pub way : Way (put ht i (entry item dib)) (at ht i).item.key (suc (at ht i).dib)
  pub absent : Absent (put ht i (entry item dib)) (at ht i).item.key

pub goes_on :
    {ht : Table} {item : HData} {dib i : ℕ}
    → IsValid ht
    → CanStore ht item dib i
    → (at ht i).present ≡ true
    → GoesOn ht item dib i
goes_on {ht} {item} {dib} {i} v can p =
    let e = at ht i in
    let here = v.slot_eq i can.within p in
    record {
      way = λ f lt. store-Passed ((e.item.key + f) % ht.cap) f v can (
          Way-suc e.item.key e.dib (v.path i can.within p)
            (subst (λ (j : ℕ). Passed ht j e.dib) (sym here)
              (record { present = p; near = omega arith }))
            f lt);
      absent = λ j w q k. elim (slot-cases ht (entry item dib) i j v can.within) [
        | inl (a, now) ↦ absurd (can.absent i can.within p (sym k ∙ ap (λ x. x.item.key) now))
        | inr (ne, same) ↦ absurd (
            ne (
              v.unique i j can.within w p (ap (λ x. x.present) (sym same) ∙ q)
                (sym k ∙ ap (λ x. x.item.key) same)))
      ];
    }

pub farther :
    (k m : ℕ) (ht : Table)
    → (at ht (k % ht.cap)).present ≡ true
    → (at ht ((k + m) % ht.cap)).present ≡ false
    → 0 < m
farther k zero ht p free =
    let same : (at ht (k % ht.cap)).present ≡ (at ht ((k + 0) % ht.cap)).present =
      ap (λ (j : ℕ). (at ht (j % ht.cap)).present) {x = k} {y = k + 0} (omega arith) in
    absurd (ground (arith, same))
farther k (suc m) ht p free = omega arith

-- The slot that is free ahead is ahead of the entry that goes on.
pub still_free :
    {ht : Table} {item : HData} {dib i : ℕ} (k m : ℕ)
    → IsValid ht
    → CanStore ht item dib i
    → (at ht i).present ≡ true
    → 0 < m
    → k % ht.cap ≡ i
    → (at ht ((k + m) % ht.cap)).present ≡ false
    → (at
        (put ht i (entry item dib))
        (((at ht i).item.key + suc (at ht i).dib + (m - 1)) % ht.cap)).present
      ≡ false
still_free {ht} {item} {dib} {i} k m v can p more here free =
    let e = at ht i in
    let j = (k + m) % ht.cap in
    let same : (e.item.key + suc e.dib + (m - 1)) % ht.cap ≡ j =
      ap (λ (n : ℕ). n % ht.cap) {x = e.item.key + suc e.dib + (m - 1)} {y = e.item.key + e.dib + m}
        (omega (arith, more))
      ∙ same_rest (e.item.key + e.dib) k m ht.cap (v.slot_eq i can.within p ∙ sym here) in
    ap (λ (n : ℕ). (at (put ht i (entry item dib)) n).present) same
    ∙ elim (slot-cases ht (entry item dib) i j v can.within) [
      | inl (a, now) ↦
          let q : (at ht j).present ≡ true = ap (λ (n : ℕ). (at ht n).present) a ∙ p in
          absurd (ground (arith, q, free))
      | inr (ne, kept) ↦ ap (λ x. x.present) kept ∙ free
    ]

pub insert_loop-Success :
    (left m : ℕ) (ht : Table) (item : HData) (dib : ℕ)
    → IsValid ht
    → Way ht item.key dib
    → Absent ht item.key
    → dib + left ≤ ht.cap
    → (at ht ((item.key + dib + m) % ht.cap)).present ≡ false
    → m < left
    → Success ht item (insert_loop left ht item dib)
unfolding insert_loop
insert_loop-Success zero m ht item dib v way absent bound free lt = absurd (omega arith)
insert_loop-Success (suc left) m ht item dib v way absent bound free lt =
    let i = (item.key + dib) % ht.cap in
    let within : i < ht.cap = mod-lt (item.key + dib) v.some_slot in
    elim (Bool-cases (at ht i).present) [
      | inr empty ↦
          let can : CanStore ht item dib i = record {
            here = refl;
            within = within;
            near = omega arith;
            way = way;
            absent = absent;
            weaker = λ p. absurd (ground (arith, p, empty));
          } in
          rw empty (success (put ht i (entry item dib)) (store-Added v can empty))
      | inl p ↦
          let some_way : 0 < m = farther (item.key + dib) m ht p free in
          elim (Bool-cases (ltb (at ht i).dib dib)) [
            | inl weak ↦
                let can : CanStore ht item dib i = record {
                  here = refl;
                  within = within;
                  near = omega arith;
                  way = way;
                  absent = absent;
                  weaker = λ q. ground arith;
                } in
                let differ : (item.key == (at ht i).item.key) ≡ false =
                  let ne = absent i within p in ground (arith, ne) in
                rw (p, weak, differ)
                  (Success-swap _ v can p (
                    let on = goes_on v can p in
                    insert_loop-Success left (m - 1) (put ht i (entry item dib)) (at ht i).item
                      (suc (at ht i).dib) (store-IsValid v can) on.way on.absent (ground arith)
                      (still_free (item.key + dib) m v can p some_way refl free)
                      (omega (arith, some_way))))
            | inr strong ↦
                let differ : ((at ht i).item.key == item.key) ≡ false =
                  let ne = absent i within p in ground (arith, ne) in
                let passed : Passed ht i dib = record { present = p; near = ground arith } in
                rw (p, strong, differ)
                  (insert_loop-Success left (m - 1) ht item (suc dib) v
                    (Way-suc item.key dib way passed) absent (omega arith)
                    (ap (λ (k : ℕ). (at ht (k % ht.cap)).present) {x = item.key + suc dib + (m - 1)}
                        {y = item.key + dib + m} (omega (arith, some_way))
                      ∙ free)
                    (omega (arith, some_way)))
          ]
    ]
