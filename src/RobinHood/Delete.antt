-- ===== src/RobinHood/Delete.antt =====
-- What `ht_delete` does to a valid table with an empty slot.
use native.Mathlib.Nat.{mod-lt, mod-add-mod}
use c_specx.Base.{
  ℕ, zero, suc, ◌+◌, ◌-◌, ◌%◌, ◌≤◌, ◌<◌, ◌≡◌, ◌≢◌, refl, sym, ap, ◌∙◌, subst, inl, inr, ◌⊎◌, Option,
  none, some, Bool, true, false, ◌||◌, not, ltb, ◌==◌, Bool-cases, le_or_lt, arith,
}
use c_specx.RobinHood.{
  HData, Table, at, get_loop, find_loop, shift_loop, deleted, delete_found, ht_get, ht_delete,
}
use c_specx.RobinHood.Inv.{IsValid, Holds, Absent}
use c_specx.RobinHood.Get.{Got, no_such, ht_get_lem}
use c_specx.RobinHood.Insert.{ahead}
use c_specx.RobinHood.Hole.{IsHoled}
use c_specx.RobinHood.Close.{Closed, shift_loop-Closed, closed}

-- The search of a deletion is that of a lookup.
found_item : Option (ℕ × HData) → Option HData
found_item none = none
found_item (some (r, item)) = some item

find_loop-get_loop :
    (left r key : ℕ) (ht : Table) → get_loop left ht key r ≡ found_item (find_loop left ht key r)
unfolding find_loop get_loop found_item
find_loop-get_loop zero r key ht = refl
find_loop-get_loop (suc left) r key ht =
    let e = at ht ((key + r) % ht.cap) in
    elim (Bool-cases (not e.present || ltb e.dib r)) [
      | inl stop ↦ rw stop refl
      | inr go ↦ elim (Bool-cases (e.item.key == key)) [
        | inl hit ↦ rw (go, hit) refl
        | inr miss ↦ rw (go, miss) (find_loop-get_loop left (suc r) key ht)
      ]
    ]

-- Where it finds the entry: every slot of the probe is in use.
data Location (ht : Table) (key : ℕ) : Option (ℕ × HData) → Type 0 where
  located :
      (r : ℕ) (item : HData)
      → ((k : ℕ) → k ≤ r → (at ht ((key + k) % ht.cap)).present ≡ true)
      → (at ht ((key + r) % ht.cap)).item ≡ item
      → item.key ≡ key
      → Location ht key (some (r, item))
  not_found : Location ht key none

in_use_suc :
    (ht : Table) (key r : ℕ)
    → ((k : ℕ) → k < r → (at ht ((key + k) % ht.cap)).present ≡ true)
    → (at ht ((key + r) % ht.cap)).present ≡ true
    → (k : ℕ) → k ≤ r
    → (at ht ((key + k) % ht.cap)).present ≡ true
in_use_suc ht key r before here k le = elim (le_or_lt r k) [
  | inl last ↦
      ap (λ (j : ℕ). (at ht ((key + j) % ht.cap)).present) {x = k} {y = r} (omega arith) ∙ here
  | inr lt ↦ before k lt
]

find_loop-Location :
    (left r key : ℕ) (ht : Table)
    → ((k : ℕ) → k < r → (at ht ((key + k) % ht.cap)).present ≡ true)
    → Location ht key (find_loop left ht key r)
unfolding find_loop
find_loop-Location zero r key ht used = not_found
find_loop-Location (suc left) r key ht used =
    let e = at ht ((key + r) % ht.cap) in
    elim (Bool-cases (not e.present || ltb e.dib r)) [
      | inl stop ↦ rw stop not_found
      | inr go ↦
          let here : e.present ≡ true = ground arith in
          let used' = in_use_suc ht key r used here in
          elim (Bool-cases (e.item.key == key)) [
            | inl hit ↦ rw (go, hit) (located r e.item used' refl (ground arith))
            | inr miss ↦
                rw (go, miss)
                  (find_loop-Location left (suc r) key ht (λ k lt. used' k (omega arith)))
          ]
    ]

-- A valid table, with a hole at the entry of the key.
holed : (h : ℕ) {ht : Table} → IsValid ht → h < ht.cap → (at ht h).present ≡ true → IsHoled ht h
holed h v w p = record {
  some_slot = v.some_slot;
  slots = v.slots;
  within = w;
  filled = p;
  slot_eq = λ i wi ne q. v.slot_eq i wi q;
  path = λ i wi ne q. v.path i wi q;
  bound = λ i wi ne q. v.bound i wi q;
  unique = λ i j wi wj ni nj p q e. v.unique i j wi wj p q e;
}

-- No entry has the key, and nothing changes; or the entry of the key is returned, and the table is valid
-- and holds just the others.
pub data Deletion (ht : Table) (key : ℕ) : Option HData × Table → Type 0 where
  was_absent : Absent ht key → Deletion ht key (none, ht)
  removed :
      (item : HData) (ht' : Table)
      → Holds ht item
      → item.key ≡ key
      → IsValid ht'
      → ((x : HData) → Holds ht x → x.key ≢ key → Holds ht' x)
      → ((x : HData) → Holds ht' x → Holds ht x × (x.key ≢ key))
      → Deletion ht key (some item, ht')

Closed-Deletion :
    (h key : ℕ) (item : HData) {ht : Table} (r : Bool × Table)
    → IsValid ht
    → h < ht.cap
    → (at ht h).present ≡ true
    → (at ht h).item ≡ item
    → item.key ≡ key
    → Closed ht h r
    → Deletion ht key (deleted item r)
unfolding deleted
Closed-Deletion h key item {ht} _ v w p e k (closed ht' ok kept only) =
    removed item ht' (record { index = h; within = w; present = p; item_eq = e }) k ok
      (λ x held ne. kept x (record {
        index = held.index;
        within = held.within;
        elsewhere = λ i. ne (
            ap (λ y. y.key) (sym held.item_eq)
            ∙ ap (λ (s : ℕ). (at ht s).item.key) i
            ∙ ap (λ y. y.key) e
            ∙ k);
        present = held.present;
        item_eq = held.item_eq;
      }))
      (λ x held.
        let but = only x held in
        (
          record {
            index = but.index;
            within = but.within;
            present = but.present;
            item_eq = but.item_eq;
          },
          λ x_key. but.elsewhere (
              v.unique but.index h but.within w but.present p
                (ap (λ y. y.key) but.item_eq ∙ x_key ∙ sym k ∙ ap (λ y. y.key) (sym e))),
        ))

past_used :
    (ht : Table) (key r m : ℕ)
    → ((k : ℕ) → k ≤ r → (at ht ((key + k) % ht.cap)).present ≡ true)
    → (at ht ((key + m) % ht.cap)).present ≡ false
    → (m ≤ r) ⊎ (r < m)
    → r < m
past_used ht key r m used free (inl le) = let p = used m le in absurd (ground (arith, p, free))
past_used ht key r m used free (inr lt) = lt

by_search :
    (key j : ℕ) {ht : Table} (r : Option (ℕ × HData))
    → IsValid ht
    → j < ht.cap
    → (at ht j).present ≡ false
    → Got ht key (found_item r)
    → Location ht key r
    → Deletion ht key (delete_found ht key r)
unfolding delete_found found_item
by_search key j _ v within empty (no_such none_such) not_found = was_absent none_such
by_search key j {ht} _ v within empty g (located r item used e k) =
    let h = (key + r) % ht.cap in
    let (m, few, reach) = ahead (key % ht.cap) j ht.cap (mod-lt key v.some_slot) within in
    let at_j : (key + m) % ht.cap ≡ j = sym (mod-add-mod key ht.cap m) ∙ reach in
    let free : (at ht ((key + m) % ht.cap)).present ≡ false =
      ap (λ (s : ℕ). (at ht s).present) at_j ∙ empty in
    let far : r < m = past_used ht key r m used free (le_or_lt m r) in
    Closed-Deletion h key item (shift_loop (ht.cap - r) ht key r) v (mod-lt (key + r) v.some_slot)
      (used r (omega arith)) e k
      (shift_loop-Closed (ht.cap - r) r (m - r) key
        (holed h v (mod-lt (key + r) v.some_slot) (used r (omega arith)))
        (ap (λ (s : ℕ). (at ht (s % ht.cap)).present) {x = key + r + (m - r)} {y = key + m}
            (omega (arith, far))
          ∙ free)
        (omega (arith, far)) (omega (arith, far, few)))

-- `ht_delete` of a key from a valid table with an empty slot returns its entry, and leaves a valid table
-- that holds just the others; it returns `HTAR_DOESNT_EXIST` only where no entry has the key, and then
-- nothing changes.
pub ht_delete_lem :
    (key j : ℕ) {ht : Table}
    → IsValid ht
    → j < ht.cap
    → (at ht j).present ≡ false
    → Deletion ht key (ht_delete ht key)
unfolding ht_delete ht_get
ht_delete_lem key j {ht} v within empty =
    by_search key j (find_loop ht.cap ht key 0) v within empty
      (subst (Got ht key) (find_loop-get_loop ht.cap 0 key ht) (ht_get_lem key v))
      (find_loop-Location ht.cap 0 key ht (λ k lt. absurd (omega arith)))
