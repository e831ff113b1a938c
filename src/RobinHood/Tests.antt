-- ===== src/RobinHood/Tests.antt =====
-- Runs of the Robin Hood table, and the theorems about it where their hypotheses hold.
use c_specx.Base.{ℕ, ◌<◌, ◌≡◌, refl, subst, none, some, false, [], ◌∷◌, arith, ◌==◌, if◌then◌else◌}
use c_specx.RobinHood.{
  HtiRes, htir_full, HData, Table, no_entry, ht_init, ht_insert, insert_loop, ht_get, ht_delete,
  find_loop, delete_found, shift_loop, deleted,
}
use c_specx.RobinHood.Inv.{IsValid}
use c_specx.RobinHood.Get.{Got, ht_get_lem}
use c_specx.RobinHood.Store.{entry}
use c_specx.RobinHood.Insert.{Inserted, there, added, ht_insert_lem}
use c_specx.RobinHood.Delete.{Deletion, ht_delete_lem}
use c_specx.RobinHood.Map.{
  or_new, ht_get-ht_insert, ht_get-ht_delete, ht_init-IsValid, ht_init-empty,
}
use c_specx.RobinHood.Full.{two, entry_at, ht_insert-full_loses}

abbrev pair : ℕ → ℕ → HData
pair k v = record { key = k; value = v }

after_insert-IsValid :
    {ht : Table} {item : HData} (r : HtiRes × Table) → IsValid ht → Inserted ht item r → IsValid r.1
after_insert-IsValid _ v (there old h e) = v
after_insert-IsValid _ v (added ht' absent a) = a.valid

-- Three slots; 4 belongs to slot 1, as 1 does, and slot 0 is empty.
abbrev two_entries : Table
two_entries = record { cap = 3; elems = no_entry ∷ entry (pair 1 10) 0 ∷ entry (pair 4 40) 1 ∷ [] }

abbrev one_entry : Table
one_entry = record { cap = 3; elems = no_entry ∷ entry (pair 1 10) 0 ∷ no_entry ∷ [] }

one_entry_run : (ht_insert (ht_init 3) (pair 1 10)).1 ≡ one_entry
unfolding ht_insert insert_loop ht_init
one_entry_run = refl

two_entries_run : (ht_insert one_entry (pair 4 40)).1 ≡ two_entries
unfolding ht_insert insert_loop
two_entries_run = refl

three_slots : 0 < (ht_init 3).cap
unfolding ht_init
three_slots = omega arith

one_entry-IsValid : IsValid one_entry
one_entry-IsValid = subst IsValid one_entry_run (
    after_insert-IsValid (ht_insert (ht_init 3) (pair 1 10)) (ht_init-IsValid 3 (omega arith)) (
      ht_insert_lem (pair 1 10) 0 (ht_init-IsValid 3 (omega arith)) three_slots
        (ht_init-empty 3 0)))

two_entries-IsValid : IsValid two_entries
two_entries-IsValid = subst IsValid two_entries_run (
    after_insert-IsValid (ht_insert one_entry (pair 4 40)) one_entry-IsValid
      (ht_insert_lem (pair 4 40) 0 one_entry-IsValid (omega arith) refl))

ht_get_lem_example : Got two_entries 4 (ht_get two_entries 4)
ht_get_lem_example = ht_get_lem 4 two_entries-IsValid

ht_insert_lem_example : Inserted two_entries (pair 7 70) (ht_insert two_entries (pair 7 70))
ht_insert_lem_example = ht_insert_lem (pair 7 70) 0 two_entries-IsValid (omega arith) refl

ht_delete_lem_example : Deletion two_entries 1 (ht_delete two_entries 1)
ht_delete_lem_example = ht_delete_lem 1 0 two_entries-IsValid (omega arith) refl

ht_get-ht_insert_example :
    ht_get (ht_insert two_entries (pair 7 70)).1 4
    ≡ (if 4 == 7 then some (or_new (ht_get two_entries 4) (pair 7 70)) else ht_get two_entries 4)
ht_get-ht_insert_example = ht_get-ht_insert (pair 7 70) 0 4 two_entries-IsValid (omega arith) refl

ht_get-ht_delete_example :
    ht_get (ht_delete two_entries 1).1 4 ≡ (if 4 == 1 then none else ht_get two_entries 4)
ht_get-ht_delete_example = ht_get-ht_delete 1 0 4 two_entries-IsValid (omega arith) refl

ht_insert-full_loses_example :
    let ht = two (entry_at (pair 0 5) 0) (entry_at (pair 1 6) 0) in
    let (res, ht') = ht_insert ht (pair 2 7) in
    (res ≡ htir_full) × (ht_get ht 1 ≡ some (pair 1 6)) × (ht_get ht' 1 ≡ none)
ht_insert-full_loses_example =
    ht_insert-full_loses (pair 0 5) (pair 1 6) (pair 2 7) refl refl refl (omega arith)

-- The entry of key 4 moves to its own first slot.
delete_run : ht_delete two_entries 1 ≡ (
  some (pair 1 10),
  record {
    cap = 3;
    elems =
        no_entry ∷ entry (pair 4 40) 0 ∷ record { item = pair 4 40; dib = 1; present = false } ∷ [];
  },
)
unfolding ht_delete find_loop delete_found shift_loop deleted
delete_run = refl
