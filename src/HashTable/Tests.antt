-- ===== src/HashTable/Tests.antt =====
-- Runs of the hash table, and the theorems about it where their hypotheses hold.
use c_specx.Base.{ℕ, [], ◌∷◌, some, Bool, ◌==◌, ◌≡◌, refl, get_elem?, arith}
use c_specx.HashTable.{
  HNode, HTable, From, htable_insert, htable_lookup, htable_delete, htable_random, node_at,
}
use c_specx.HashTable.Inv.{nodes, IsValid}
use c_specx.HashTable.Lookup.{Lookup, htable_lookup_lem}
use c_specx.HashTable.Update.{
  OneMore, htable_insert_lem, htable_delete_lem, htable_lookup-htable_insert,
}
use c_specx.HashTable.Walk.{htable_random_lem}

abbrev node : ℕ → ℕ → HNode
node h i = record { hcode = h; item = i }

-- Three chains; 4 and 1 are in the same.
abbrev three_nodes : HTable
three_nodes = record {
  cap = 3;
  size = 3;
  table = [] ∷ (node 4 40 ∷ node 1 10 ∷ []) ∷ (node 2 20 ∷ []) ∷ [];
}

three_nodes-IsValid : IsValid three_nodes
three_nodes-IsValid = record {
  some_chain = omega arith;
  chains = refl;
  hashed = omega arith;
  counted = refl;
  small = omega arith;
}

abbrev same_item : HNode → HNode → Bool
same_item n m = n.item == m.item

htable_lookup_lem_example :
    Lookup same_item (node 1 10) three_nodes.table (htable_lookup three_nodes (node 1 10) same_item)
htable_lookup_lem_example = htable_lookup_lem same_item (node 1 10) three_nodes-IsValid

htable_insert_lem_example :
    let t' = htable_insert three_nodes (node 7 70) in
    IsValid t' × OneMore (node 7 70) (nodes t'.table) (nodes three_nodes.table)
htable_insert_lem_example = htable_insert_lem (node 7 70) three_nodes-IsValid (omega arith)

abbrev second : From
second = record { pos = 1; index = 1 }

htable_delete_lem_example :
    let (deleted, t') = htable_delete three_nodes second in
    (deleted ≡ some (node 1 10))
    × IsValid t'
    × OneMore (node 1 10) (nodes three_nodes.table) (nodes t'.table)
htable_delete_lem_example = htable_delete_lem second (node 1 10) three_nodes-IsValid refl

htable_lookup-htable_insert_example :
    (from : From) × (htable_lookup (htable_insert three_nodes (node 7 70)) (node 7 70) same_item
      ≡ some from)
    × (node_at (htable_insert three_nodes (node 7 70)).table from ≡ some (node 7 70))
htable_lookup-htable_insert_example =
    htable_lookup-htable_insert same_item (node 7 70) (node 7 70) three_nodes-IsValid refl refl

htable_random_lem_example :
    (from : From) × (htable_random three_nodes 2 ≡ some from)
    × (node_at three_nodes.table from ≡ get_elem? (nodes three_nodes.table) 2)
htable_random_lem_example = htable_random_lem three_nodes 2 (omega arith)
