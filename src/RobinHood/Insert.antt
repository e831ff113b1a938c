-- ===== src/RobinHood/Insert.antt =====
-- What `ht_insert` does to a valid table with an empty slot.
use native.Mathlib.Nat.{mod-lt, mod-add-mod, mod-eq_of_lt, add-mod_right}
use c_specx.Base.{
  ℕ, zero, suc, ◌+◌, ◌-◌, ◌%◌, ◌≤◌, ◌<◌, ◌≡◌, refl, sym, ap, ◌∙◌, subst, inl, inr, Option, true,
  false, ◌==◌, Bool-cases, le_or_lt, le→ltb, arith,
}
use c_specx.RobinHood.{HtiRes, htir_success, htir_exists, HData, Table, at, insert_loop, ht_insert}
use c_specx.RobinHood.Inv.{IsValid, Holds, Absent}
use c_specx.RobinHood.Get.{entry-Passed, not_here, Got, got, no_such, ht_get_lem}
use c_specx.RobinHood.Probe.{Added, Success, insert_loop-Success, success}

-- The entry that has the key already.
insert_loop-exists :
    (left i : ℕ) (ht : Table) (item : HData) (dib : ℕ)
    → IsValid ht
    → i < ht.cap
    → (at ht i).present ≡ true
    → (at ht i).item.key ≡ item.key
    → dib ≤ (at ht i).dib
    → dib + left ≡ ht.cap
    → insert_loop left ht item dib ≡ (htir_exists, ht)
unfolding insert_loop
insert_loop-exists zero i ht item dib v within p k far n =
    absurd (omega (arith, v.bound i within p))
insert_loop-exists (suc left) i ht item dib v within p k far n =
    let j = (item.key + dib) % ht.cap in
    let passed = entry-Passed dib i item.key v within p k far in
    let near = le→ltb (at ht j).dib dib passed.near in
    elim (Bool-cases ((at ht j).item.key == item.key)) [
      | inl hit ↦ rw (passed.present, near, hit) refl
      | inr miss ↦
          let before =
            not_here dib i item.key v within p k miss (le_or_lt (suc dib) (at ht i).dib) far in
          rw (passed.present, near, miss)
            (insert_loop-exists left i ht item (suc dib) v within p k before (omega arith))
    ]

pub ahead : (s j cap : ℕ) → s < cap → j < cap → (m : ℕ) × (m < cap) × ((s + m) % cap ≡ j)
ahead s j cap a b = elim (le_or_lt s j) [
  | inl le ↦ (
    j - s,
    omega arith,
    ap (λ (k : ℕ). k % cap) {x = s + (j - s)} {y = j} (omega arith) ∙ mod-eq_of_lt b,
  )
  | inr lt ↦ (
    j + cap - s,
    omega arith,
    ap (λ (k : ℕ). k % cap) {x = s + (j + cap - s)} {y = j + cap} (omega arith)
        ∙ add-mod_right j cap
        ∙ mod-eq_of_lt b,
  )
]

-- The key is there, and nothing changes; or it is not, and the entry is added.
pub data Inserted (ht : Table) (item : HData) : HtiRes × Table → Type 0 where
  there : (old : HData) → Holds ht old → old.key ≡ item.key → Inserted ht item (htir_exists, ht)
  added :
      (ht' : Table) → Absent ht item.key → Added ht item ht' → Inserted ht item (htir_success, ht')

Success-Inserted :
    {ht : Table} {item : HData} (r : HtiRes × Table)
    → Absent ht item.key
    → Success ht item r
    → Inserted ht item r
Success-Inserted _ none_such (success ht' a) = added ht' none_such a

by_get :
    (ht : Table) (item : HData) (j : ℕ) {r : Option HData}
    → IsValid ht
    → j < ht.cap
    → (at ht j).present ≡ false
    → Got ht item.key r
    → Inserted ht item (insert_loop ht.cap ht item 0)
by_get ht item j v within empty (got old h k) =
    let e =
      insert_loop-exists ht.cap h.index ht item 0 v h.within h.present
        (ap (λ x. x.key) h.item_eq ∙ k) (omega arith) (omega arith) in
    subst (Inserted ht item) (sym e) (there old h k)
by_get ht item j v within empty (no_such none_such) =
    let (m, few, reach) = ahead (item.key % ht.cap) j ht.cap (mod-lt item.key v.some_slot) within in
    let free : (at ht ((item.key + 0 + m) % ht.cap)).present ≡ false =
      ap (λ (k : ℕ). (at ht k).present)
        (ap (λ (k : ℕ). (k + m) % ht.cap) {x = item.key + 0} {y = item.key} (omega arith)
          ∙ sym (mod-add-mod item.key ht.cap m)
          ∙ reach)
      ∙ empty in
    Success-Inserted (insert_loop ht.cap ht item 0) none_such (
      insert_loop-Success ht.cap m ht item 0 v (λ e lt. absurd (omega arith)) none_such
        (omega arith) free few)

-- `ht_insert` into a valid table with an empty slot returns `HTIR_EXISTS` and changes nothing where the
-- table has the key; else it returns `HTIR_SUCCESS`, and the table is valid and holds just the new entry
-- and those of before, wherever they have moved.
pub ht_insert_lem :
    (item : HData) (j : ℕ) {ht : Table}
    → IsValid ht
    → j < ht.cap
    → (at ht j).present ≡ false
    → Inserted ht item (ht_insert ht item)
unfolding ht_insert
ht_insert_lem item j {ht} v within empty = by_get ht item j v within empty (ht_get_lem item.key v)
