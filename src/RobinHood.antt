-- ===== src/RobinHood.antt =====
-- The Robin Hood hash table of include/c_specx/ds/robin_hood_ht.h: creation, insertion, lookup,
-- deletion and the count. `KTYPE`, an integer type, holds the sum of a key and the capacity, and a key
-- is not negative. A pointer `dest` for the entry that is found is not NULL.
use c_specx.Base.{
  ℕ, zero, suc, ◌+◌, ◌-◌, ◌%◌, Bool, true, false, ◌||◌, not, Option, none, some, List, [], ◌∷◌, ltb,
  ◌==◌, if◌then◌else◌, length, get_or, set, replicate,
}
pub mod Inv
pub mod Get
pub mod Store
pub mod Probe
pub mod Insert
pub mod Hole
pub mod Shift
pub mod Close
pub mod Delete
pub mod Full
pub mod Map
mod Tests

pub data HtiRes : Type 0 where
  htir_success : HtiRes
  htir_exists : HtiRes
  htir_full : HtiRes

pub record HData : Type 0 where
  pub key : ℕ
  pub value : ℕ

pub record HEntry : Type 0 where
  pub item : HData
  pub dib : ℕ
  pub present : Bool

pub record Table : Type 0 where
  pub cap : ℕ
  pub elems : List HEntry

-- What `memset` makes of an entry.
abbrev pub no_entry : HEntry
no_entry = record { item = record { key = 0; value = 0 }; dib = 0; present = false }

unfoldable pub ht_init : ℕ → Table
ht_init nelem = record { cap = nelem; elems = replicate nelem no_entry }

abbrev pub at : Table → ℕ → HEntry
at ht i = get_or ht.elems i no_entry

abbrev pub put : Table → ℕ → HEntry → Table
put ht i e = record ht { elems = set ht.elems i e }

-- The loop of an insertion, `left` rounds of which are left.
unfoldable pub insert_loop : ℕ → Table → HData → ℕ → HtiRes × Table
insert_loop zero ht item dibn = (htir_full, ht)
insert_loop (suc left) ht item dibn =
    let i = (item.key + dibn) % ht.cap in
    let e = at ht i in
    let new : HEntry = record { item = item; dib = dibn; present = true } in
    let swapped =
      insert_loop left (put ht i (record new { present = e.present })) e.item (suc e.dib) in
    let on = insert_loop left ht item (suc dibn) in
    if not e.present
    then (htir_success, put ht i new)
    else (if ltb e.dib dibn
        then (if item.key == e.item.key
            then (htir_exists, put ht i (record new { present = e.present }))
            else swapped)
        else (if e.item.key == item.key then (htir_exists, ht) else on))

unfoldable pub ht_insert : Table → HData → HtiRes × Table
ht_insert ht item = insert_loop ht.cap ht item 0

-- The loop of a lookup, from round `i` on. `none` is `HTAR_DOESNT_EXIST`.
unfoldable pub get_loop : ℕ → Table → ℕ → ℕ → Option HData
get_loop zero ht key i = none
get_loop (suc left) ht key i =
    let e = at ht ((key + i) % ht.cap) in
    let on = get_loop left ht key (suc i) in
    if not e.present || ltb e.dib i then none else (if e.item.key == key then some e.item else on)

unfoldable pub ht_get : Table → ℕ → Option HData
ht_get ht key = get_loop ht.cap ht key 0

-- The search of a deletion: the round and what it finds.
unfoldable pub find_loop : ℕ → Table → ℕ → ℕ → Option (ℕ × HData)
find_loop zero ht key i = none
find_loop (suc left) ht key i =
    let e = at ht ((key + i) % ht.cap) in
    let on = find_loop left ht key (suc i) in
    if not e.present || ltb e.dib i
    then none
    else (if e.item.key == key then some (i, e.item) else on)

-- The entries behind the hole move one to the left; the flag tells of success.
unfoldable pub shift_loop : ℕ → Table → ℕ → ℕ → Bool × Table
shift_loop zero ht key i = (false, ht)
shift_loop (suc left) ht key i =
    let hole = (key + i) % ht.cap in
    let next = at ht ((key + i + 1) % ht.cap) in
    let gone : Table = put ht hole (record (at ht hole) { present = false }) in
    let on =
      shift_loop left (put ht hole (record (at ht hole) { item = next.item; dib = next.dib - 1 }))
        key (suc i) in
    if not next.present || next.dib == 0 then (true, gone) else on

-- The entry, where the result is `HTAR_SUCCESS`, and the table.
unfoldable pub deleted : HData → Bool × Table → Option HData × Table
deleted item (false, ht) = (none, ht)
deleted item (true, ht) = (some item, ht)

unfoldable pub delete_found : Table → ℕ → Option (ℕ × HData) → Option HData × Table
unfolding deleted
delete_found ht key none = (none, ht)
delete_found ht key (some (i, item)) = deleted item (shift_loop (ht.cap - i) ht key i)

unfoldable pub ht_delete : Table → ℕ → Option HData × Table
unfolding delete_found
ht_delete ht key = delete_found ht key (find_loop ht.cap ht key 0)

unfoldable pub count_present : List HEntry → ℕ
count_present [] = 0
count_present (e ∷ es) = (if e.present then 1 else 0) + count_present es

unfoldable pub ht_count : Table → ℕ
unfolding count_present
ht_count ht = count_present ht.elems
