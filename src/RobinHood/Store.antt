-- ===== src/RobinHood/Store.antt =====
-- An entry is written to a slot that is empty, or whose entry is nearer to its own first slot.
use c_specx.Base.{
  ℕ, ◌+◌, ◌%◌, ◌≤◌, ◌<◌, ◌≡◌, ◌≢◌, sym, ap, ◌∙◌, subst, inl, inr, ◌⊎◌, true, get_or-set_self,
  get_or-set_ne, length-set, ◌==◌, Bool-cases, arith,
}
use c_specx.RobinHood.{HData, HEntry, Table, at, put, no_entry}
use c_specx.RobinHood.Inv.{Passed, Way, IsValid, Holds, Absent}

abbrev pub entry : HData → ℕ → HEntry
entry item dib = record { item = item; dib = dib; present = true }

-- What it takes to write `item` at distance `dib` to slot `i`.
pub record CanStore (ht : Table) (item : HData) (dib i : ℕ) : Type 0 where
  pub here : (item.key + dib) % ht.cap ≡ i
  pub within : i < ht.cap
  pub near : dib < ht.cap
  pub way : Way ht item.key dib
  pub absent : Absent ht item.key
  pub weaker : (at ht i).present ≡ true → (at ht i).dib ≤ dib

pub slot-cases :
    (ht : Table) (e : HEntry) (i j : ℕ)
    → IsValid ht
    → i < ht.cap
    → ((j ≡ i) × (at (put ht i e) j ≡ e)) ⊎ ((i ≢ j) × (at (put ht i e) j ≡ at ht j))
slot-cases ht e i j v within = elim (Bool-cases (i == j)) [
  | inl same ↦
      let k : j ≡ i = ground arith in
      inl (
        k,
        ap (λ (s : ℕ). at (put ht i e) s) k
            ∙ get_or-set_self ht.elems i e no_entry (omega (arith, v.slots)),
      )
  | inr other ↦
      let ne : i ≢ j = λ k. absurd (ground arith) in
      inr (ne, get_or-set_ne ht.elems i j e no_entry ne)
]

pub store-Passed :
    {ht : Table} {item : HData} {dib i : ℕ} (j e : ℕ)
    → IsValid ht
    → CanStore ht item dib i
    → Passed ht j e
    → Passed (put ht i (entry item dib)) j e
store-Passed {ht} {item} {dib} {i} j e v can p =
    elim (slot-cases ht (entry item dib) i j v can.within) [
      | inr (ne, same) ↦ record {
        present = ap (λ x. x.present) same ∙ p.present;
        near = omega (arith, p.near, ap (λ x. x.dib) same);
      }
      | inl (k, now) ↦
          let there : (at ht i).present ≡ true =
            ap (λ (s : ℕ). (at ht s).present) (sym k) ∙ p.present in
          let far : e ≤ (at ht i).dib = subst (λ (s : ℕ). e ≤ (at ht s).dib) k p.near in
          record {
            present = ap (λ x. x.present) now;
            near = omega (arith, far, can.weaker there, ap (λ x. x.dib) now);
          }
    ]

pub store-IsValid :
    {ht : Table} {item : HData} {dib i : ℕ}
    → IsValid ht
    → CanStore ht item dib i
    → IsValid (put ht i (entry item dib))
store-IsValid {ht} {item} {dib} {i} v can =
    let new = entry item dib in
    let t = put ht i new in
    record {
      some_slot = v.some_slot;
      slots = length-set ht.elems i new ∙ v.slots;
      slot_eq = λ j w p. elim (slot-cases ht new i j v can.within) [
        | inl (k, now) ↦ ap (λ x. (x.item.key + x.dib) % ht.cap) now ∙ can.here ∙ sym k
        | inr (ne, same) ↦
            ap (λ x. (x.item.key + x.dib) % ht.cap) same
            ∙ v.slot_eq j w (ap (λ x. x.present) (sym same) ∙ p)
      ];
      path = λ j w p e lt. elim (slot-cases ht new i j v can.within) [
        | inl (k, now) ↦
            subst (λ x. Passed t ((x.item.key + e) % ht.cap) e) (sym now)
              (store-Passed ((item.key + e) % ht.cap) e v can
                (can.way e (subst (λ x. e < x.dib) now lt)))
        | inr (ne, same) ↦
            subst (λ x. Passed t ((x.item.key + e) % ht.cap) e) (sym same)
              (store-Passed (((at ht j).item.key + e) % ht.cap) e v can (
                v.path j w (ap (λ x. x.present) (sym same) ∙ p) e (subst (λ x. e < x.dib) same lt)))
      ];
      bound = λ j w p. elim (slot-cases ht new i j v can.within) [
        | inl (k, now) ↦ subst (λ x. x.dib < ht.cap) (sym now) can.near
        | inr (ne, same) ↦
            subst (λ x. x.dib < ht.cap) (sym same)
              (v.bound j w (ap (λ x. x.present) (sym same) ∙ p))
      ];
      unique = λ j k w w' p p' h. elim (slot-cases ht new i j v can.within) [
        | inl (a, now) ↦ elim (slot-cases ht new i k v can.within) [
          | inl (b, now') ↦ a ∙ sym b
          | inr (ne, same') ↦ absurd (
              can.absent k w' (ap (λ x. x.present) (sym same') ∙ p')
                (ap (λ x. x.item.key) (sym same') ∙ sym h ∙ ap (λ x. x.item.key) now))
        ]
        | inr (ne, same) ↦ elim (slot-cases ht new i k v can.within) [
          | inl (b, now') ↦ absurd (
              can.absent j w (ap (λ x. x.present) (sym same) ∙ p)
                (ap (λ x. x.item.key) (sym same) ∙ h ∙ ap (λ x. x.item.key) now'))
          | inr (ne', same') ↦
              v.unique j k w w' (ap (λ x. x.present) (sym same) ∙ p)
                (ap (λ x. x.present) (sym same') ∙ p')
                (ap (λ x. x.item.key) (sym same) ∙ h ∙ ap (λ x. x.item.key) same')
        ]
      ];
    }

-- What the table holds afterwards: the entry that was written, and those of the other slots.
pub stored :
    {ht : Table} {item : HData} {dib i : ℕ} (x : HData)
    → IsValid ht
    → CanStore ht item dib i
    → Holds (put ht i (entry item dib)) x
    → (x ≡ item) ⊎ Holds ht x
stored {ht} {item} {dib} {i} x v can h =
    elim (slot-cases ht (entry item dib) i h.index v can.within) [
      | inl (k, now) ↦ inl (sym h.item_eq ∙ ap (λ y. y.item) now)
      | inr (ne, same) ↦ inr (record {
        index = h.index;
        within = h.within;
        present = ap (λ y. y.present) (sym same) ∙ h.present;
        item_eq = ap (λ y. y.item) (sym same) ∙ h.item_eq;
      })
    ]

pub store-new :
    {ht : Table} {item : HData} {dib i : ℕ}
    → IsValid ht
    → CanStore ht item dib i
    → Holds (put ht i (entry item dib)) item
store-new {ht} {item} {dib} {i} v can =
    let self : at (put ht i (entry item dib)) i ≡ entry item dib =
      get_or-set_self ht.elems i (entry item dib) no_entry (omega (arith, v.slots, can.within)) in
    record {
      index = i;
      within = can.within;
      present = ap (λ y. y.present) self;
      item_eq = ap (λ y. y.item) self;
    }

pub store-others :
    {ht : Table} {item : HData} {dib i : ℕ} (x : HData)
    → IsValid ht
    → CanStore ht item dib i
    → Holds ht x
    → Holds (put ht i (entry item dib)) x ⊎ (((at ht i).present ≡ true) × (x ≡ (at ht i).item))
store-others {ht} {item} {dib} {i} x v can h =
    elim (slot-cases ht (entry item dib) i h.index v can.within) [
      | inl (k, now) ↦ inr (
        ap (λ (s : ℕ). (at ht s).present) (sym k) ∙ h.present,
        sym h.item_eq ∙ ap (λ (s : ℕ). (at ht s).item) k,
      )
      | inr (ne, same) ↦ inl (record {
        index = h.index;
        within = h.within;
        present = ap (λ y. y.present) same ∙ h.present;
        item_eq = ap (λ y. y.item) same ∙ h.item_eq;
      })
    ]
