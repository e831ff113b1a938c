-- ===== src/RobinHood/Map.antt =====
-- The Robin Hood table as a finite map from keys to entries.
use c_specx.Base.{
  ℕ, zero, suc, ◌<◌, ◌≡◌, ◌≢◌, refl, sym, ap, ◌∙◌, inl, inr, Option, none, some, true, false, ◌==◌,
  if◌then◌else◌, Bool-cases, replicate, length-replicate, get_or, arith,
}
use c_specx.RobinHood.{HtiRes, HData, Table, at, no_entry, ht_init, ht_get, ht_insert, ht_delete}
use c_specx.RobinHood.Inv.{IsValid, Holds, Absent}
use c_specx.RobinHood.Get.{Got, got, no_such, ht_get_lem, probe-finds}
use c_specx.RobinHood.Insert.{Inserted, there, added, ht_insert_lem}
use c_specx.RobinHood.Delete.{Deletion, was_absent, removed, ht_delete_lem}

get-Holds : (x : HData) {ht : Table} → IsValid ht → Holds ht x → ht_get ht x.key ≡ some x
unfolding ht_get
get-Holds x {ht} v h =
    probe-finds ht.cap 0 h.index x.key v h.within h.present (ap (λ y. y.key) h.item_eq)
      (omega arith) (omega arith)
    ∙ ap some h.item_eq

Got-none : {ht : Table} {k : ℕ} (r : Option HData) → Absent ht k → Got ht k r → r ≡ none
Got-none _ absent (no_such a) = refl
Got-none _ absent (got item h e) =
    absurd (absent h.index h.within h.present (ap (λ y. y.key) h.item_eq ∙ e))

get-Absent : (k : ℕ) {ht : Table} → IsValid ht → Absent ht k → ht_get ht k ≡ none
get-Absent k {ht} v absent = Got-none (ht_get ht k) absent (ht_get_lem k v)

-- Two tables that hold the same entries of a key.
same_get :
    (k : ℕ) {ht ht' : Table}
    → IsValid ht
    → IsValid ht'
    → ((x : HData) → x.key ≡ k → Holds ht x → Holds ht' x)
    → ((x : HData) → x.key ≡ k → Holds ht' x → Holds ht x)
    → ht_get ht' k ≡ ht_get ht k
same_get k {ht} {ht'} v v' forth back = by_old (ht_get ht k) (ht_get_lem k v)
  where
    by_old : (r : Option HData) → Got ht k r → ht_get ht' k ≡ r
    by_old _ (got item h e) = ap (ht_get ht') (sym e) ∙ get-Holds item v' (forth item e h)
    by_old _ (no_such absent) = get-Absent k v' (λ i w p e.
        let old =
          back (at ht' i).item e (record { index = i; within = w; present = p; item_eq = refl }) in
        absent old.index old.within old.present (ap (λ y. y.key) old.item_eq ∙ e))

-- The entry of a key, or else the new one.
abbrev pub or_new : Option HData → HData → HData
or_new none item = item
or_new (some old) item = old

insert_by :
    (item : HData) (k : ℕ) {ht : Table} (r : HtiRes × Table)
    → IsValid ht
    → Inserted ht item r
    → ht_get r.1 k ≡ (if k == item.key then some (or_new (ht_get ht k) item) else ht_get ht k)
insert_by item k {ht} _ v (there old h e) = elim (Bool-cases (k == item.key)) [
  | inr other ↦ rw other refl
  | inl same ↦
      let here : k ≡ old.key = ground (arith, e) in
      let found : ht_get ht k ≡ some old = ap (ht_get ht) here ∙ get-Holds old v h in
      rw (same, found) refl
]
insert_by item k {ht} _ v (added ht' absent a) = elim (Bool-cases (k == item.key)) [
  | inl same ↦
      let here : k ≡ item.key = ground arith in
      let before : ht_get ht k ≡ none = ap (ht_get ht) here ∙ get-Absent item.key v absent in
      rw (same, before) (ap (ht_get ht') here ∙ get-Holds item a.valid a.new)
  | inr other ↦ rw other (
      same_get k v a.valid (λ x e h. a.kept x h)
        (λ x e h. elim (a.only x h) [
          | inr old ↦ old
          | inl new ↦ let bad : k ≡ item.key = sym e ∙ ap (λ y. y.key) new in absurd (ground arith)
        ]))
]

-- After `ht_insert` into a valid table with an empty slot, `ht_get` of the key returns its entry, the
-- old one where there was one and else the new one, and `ht_get` of another key returns what it did.
pub ht_get-ht_insert :
    (item : HData) (j k : ℕ) {ht : Table}
    → IsValid ht
    → j < ht.cap
    → (at ht j).present ≡ false
    → ht_get (ht_insert ht item).1 k
      ≡ (if k == item.key then some (or_new (ht_get ht k) item) else ht_get ht k)
ht_get-ht_insert item j k {ht} v within empty =
    insert_by item k (ht_insert ht item) v (ht_insert_lem item j v within empty)

delete_by :
    (key k : ℕ) {ht : Table} (r : Option HData × Table)
    → IsValid ht
    → Deletion ht key r
    → ht_get r.1 k ≡ (if k == key then none else ht_get ht k)
delete_by key k {ht} _ v (was_absent absent) = elim (Bool-cases (k == key)) [
  | inr other ↦ rw other refl
  | inl same ↦
      let here : k ≡ key = ground arith in rw same (ap (ht_get ht) here ∙ get-Absent key v absent)
]
delete_by key k {ht} _ v (removed item ht' h e ok kept only) = elim (Bool-cases (k == key)) [
  | inl same ↦
      let here : k ≡ key = ground arith in
      rw same (
        get-Absent k ok (λ i w p ek.
          let (held, ne) =
            only (at ht' i).item (record { index = i; within = w; present = p; item_eq = refl }) in
          ne (ek ∙ here)))
  | inr other ↦ rw other (
      same_get k v ok
        (λ x xk hx. kept x hx (λ bad. let same : k ≡ key = sym xk ∙ bad in absurd (ground arith)))
        (λ x xk hx. (only x hx).0))
]

-- After `ht_delete` of a key from a valid table with an empty slot, `ht_get` of the key returns none, and
-- `ht_get` of another key returns what it did.
pub ht_get-ht_delete :
    (key j k : ℕ) {ht : Table}
    → IsValid ht
    → j < ht.cap
    → (at ht j).present ≡ false
    → ht_get (ht_delete ht key).1 k ≡ (if k == key then none else ht_get ht k)
ht_get-ht_delete key j k {ht} v within empty =
    delete_by key k (ht_delete ht key) v (ht_delete_lem key j v within empty)

get_or-replicate : (n i : ℕ) → get_or (replicate n no_entry) i no_entry ≡ no_entry
get_or-replicate zero i = refl
get_or-replicate (suc n) zero = refl
get_or-replicate (suc n) (suc i) = get_or-replicate n i

pub ht_init-empty : (n i : ℕ) → (at (ht_init n) i).present ≡ false
unfolding ht_init
ht_init-empty n i = ap (λ x. x.present) (get_or-replicate n i)

not_there : (n i : ℕ) → (at (ht_init n) i).present ≢ true
not_there n i p = let e = ht_init-empty n i in absurd (ground (arith, e, p))

pub ht_init-IsValid : (n : ℕ) → 0 < n → IsValid (ht_init n)
unfolding ht_init
ht_init-IsValid n pos = record {
  some_slot = pos;
  slots = length-replicate n no_entry;
  slot_eq = λ i w p. absurd (not_there n i p);
  path = λ i w p e lt. absurd (not_there n i p);
  bound = λ i w p. absurd (not_there n i p);
  unique = λ i j w w' p p' h. absurd (not_there n i p);
}
