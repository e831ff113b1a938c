-- ===== src/RobinHood/Inv.antt =====
-- What a valid Robin Hood table is: an entry stands where its distance says, and each slot before it,
-- from its first one on, has an entry as far from its own first.
use c_specx.Base.{ℕ, ◌+◌, ◌%◌, ◌≤◌, ◌<◌, ◌≡◌, ◌≢◌, true, length}
use c_specx.RobinHood.{HData, Table, at}

-- A probe of distance `e` goes on past slot `j`.
pub record Passed (ht : Table) (j e : ℕ) : Type 0 where
  pub present : (at ht j).present ≡ true
  pub near : e ≤ (at ht j).dib

-- The way of a probe for `key` to distance `dib`.
abbrev pub Way : Table → ℕ → ℕ → Type 0
Way ht key dib = (e : ℕ) → e < dib → Passed ht ((key + e) % ht.cap) e

pub record IsValid (ht : Table) : Type 0 where
  pub some_slot : 0 < ht.cap
  pub slots : length ht.elems ≡ ht.cap
  pub slot_eq :
      (i : ℕ)
      → i < ht.cap
      → (at ht i).present ≡ true
      → ((at ht i).item.key + (at ht i).dib) % ht.cap ≡ i
  pub path :
      (i : ℕ) → i < ht.cap → (at ht i).present ≡ true → Way ht (at ht i).item.key (at ht i).dib
  pub bound : (i : ℕ) → i < ht.cap → (at ht i).present ≡ true → (at ht i).dib < ht.cap
  pub unique :
      (i j : ℕ)
      → i < ht.cap
      → j < ht.cap
      → (at ht i).present ≡ true
      → (at ht j).present ≡ true
      → (at ht i).item.key ≡ (at ht j).item.key
      → i ≡ j

-- The entry is in the table.
pub record Holds (ht : Table) (item : HData) : Type 0 where
  pub index : ℕ
  pub within : index < ht.cap
  pub present : (at ht index).present ≡ true
  pub item_eq : (at ht index).item ≡ item

-- No entry of the table has the key.
abbrev pub Absent : Table → ℕ → Type 0
Absent ht key = (i : ℕ) → i < ht.cap → (at ht i).present ≡ true → (at ht i).item.key ≢ key
