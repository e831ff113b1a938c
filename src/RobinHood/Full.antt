-- ===== src/RobinHood/Full.antt =====
-- `ht_insert` into a table without an empty slot.
use c_specx.Base.{
  ℕ, ◌+◌, ◌%◌, ◌≡◌, ◌≢◌, refl, ap, ◌∙◌, none, some, true, false, ◌==◌, [], ◌∷◌, arith,
}
use c_specx.RobinHood.{htir_full, HData, HEntry, Table, insert_loop, ht_insert, get_loop, ht_get}

-- A table of two slots.
abbrev pub two : HEntry → HEntry → Table
two x y = record { cap = 2; elems = x ∷ y ∷ [] }

abbrev pub entry_at : HData → ℕ → HEntry
entry_at item dib = record { item = item; dib = dib; present = true }

insert_swaps :
    (a b c : HData)
    → c.key % 2 ≡ 0
    → a.key ≢ c.key
    → b.key ≢ c.key
    → ht_insert (two (entry_at a 0) (entry_at b 0)) c
      ≡ (htir_full, two (entry_at a 0) (entry_at c 1))
unfolding ht_insert insert_loop
insert_swaps a b c even ne ne' =
    let first : (c.key + 0) % 2 ≡ 0 = omega arith in
    let second : (c.key + 1) % 2 ≡ 1 = omega arith in
    let miss : (a.key == c.key) ≡ false = ground arith in
    let miss' : (c.key == b.key) ≡ false = ground arith in rw (first, miss, second, miss') refl

get_misses :
    (a b c : HData)
    → b.key % 2 ≡ 1
    → b.key ≢ c.key
    → ht_get (two (entry_at a 0) (entry_at c 1)) b.key ≡ none
unfolding ht_get get_loop
get_misses a b c odd ne =
    let first : (b.key + 0) % 2 ≡ 1 = omega arith in
    let second : (b.key + 1) % 2 ≡ 0 = omega arith in
    let miss : (c.key == b.key) ≡ false = ground arith in rw (first, miss, second) refl

-- `ht_insert` into a full table can lose an entry: where the two entries of a table of two slots each
-- stand in their own first slot, and the new key belongs to slot 0, it returns `HTIR_FULL`, and
-- `ht_get` of the key of slot 1, which returned its entry before, returns none.
pub ht_insert-full_loses :
    (a b c : HData)
    → a.key % 2 ≡ 0
    → b.key % 2 ≡ 1
    → c.key % 2 ≡ 0
    → a.key ≢ c.key
    → let ht = two (entry_at a 0) (entry_at b 0) in
      let (res, ht') = ht_insert ht c in
      (res ≡ htir_full) × (ht_get ht b.key ≡ some b) × (ht_get ht' b.key ≡ none)
unfolding ht_get get_loop
ht_insert-full_loses a b c even odd even' ne =
    let ne' : b.key ≢ c.key = λ e. absurd (omega (arith, ap (λ (k : ℕ). k % 2) e)) in
    let e = insert_swaps a b c even' ne ne' in
    let first : (b.key + 0) % 2 ≡ 1 = omega arith in
    let hit : (b.key == b.key) ≡ true = ground arith in
    (ap (λ r. r.0) e, rw (first, hit) refl, ap (λ r. ht_get r.1 b.key) e ∙ get_misses a b c odd ne')
