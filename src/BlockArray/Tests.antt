-- ===== src/BlockArray/Tests.antt =====
-- Runs of the block array, and the theorems about it where their hypotheses hold.
use c_specx.Base.{
  ℕ, List, [], ◌∷◌, Option, some, ◌≡◌, refl, inserted, length, arith, ◌≤◌, mul32, sub32,
}
use c_specx.Stride.{Stride}
use c_specx.BlockArray.{
  BlockArray, block_array_insert, block_array_read, read_blocks, seek, and_read, advance,
  after_element,
}
use c_specx.BlockArray.Inv.{IsValid, bytes}
use c_specx.BlockArray.Insert.{Insertion, block_array_insert_lem}
use c_specx.BlockArray.Read.Wholes.{Reads}
use c_specx.BlockArray.Agree.{block_array_read-ext_array_read}
use c_specx.ExtArray.{ExtArray, ext_array_read}
use c_specx.ExtArray.Insert as Ext

abbrev new_block : ℕ → Option (List ℕ)
new_block k = some (0 ∷ 0 ∷ 0 ∷ [])

-- Blocks of three bytes, of which the first is not full.
abbrev two_blocks : BlockArray
two_blocks = record {
  cap_per_node = 3;
  blocks = record { len = 2; mem = 1 ∷ 2 ∷ 0 ∷ [] } ∷ record { len = 3; mem = 3 ∷ 4 ∷ 5 ∷ [] } ∷ [];
}

two_blocks-IsValid : IsValid two_blocks
two_blocks-IsValid = record {
  some_room = omega arith;
  small = omega arith;
  blocks_valid = (
    record { within = omega arith; storage = omega arith },
    (record { within = omega arith; storage = omega arith }, tt),
  );
}

new_block-cap : (j : ℕ) (mem : List ℕ) → new_block j ≡ some mem → 3 ≤ length mem
new_block-cap j mem h = ground arith

block_array_insert_lem_example :
    Insertion new_block 3
      (inserted (bytes two_blocks.blocks) 3 (7 ∷ 8 ∷ []))
      (block_array_insert new_block two_blocks 3 (7 ∷ 8 ∷ []) 2)
block_array_insert_lem_example =
    block_array_insert_lem new_block two_blocks 3 (7 ∷ 8 ∷ []) two_blocks-IsValid new_block-cap
      (omega arith)

abbrev every_other : Stride
every_other = record { start = 0; stride = 2; nelems = 2 }

abbrev one_array : ExtArray
one_array = record { mem = 1 ∷ 2 ∷ 3 ∷ 4 ∷ 5 ∷ 0 ∷ []; len = 5; cap = 6 }

one_array-IsValid : Ext.IsValid one_array
one_array-IsValid = record { within = omega arith; small = omega arith; storage = omega arith }

block_array_read-ext_array_read_example :
    (es : List (List ℕ)) × (ext_array_read one_array every_other 2 ≡ some es)
    × Reads es (block_array_read two_blocks every_other 2)
block_array_read-ext_array_read_example =
    block_array_read-ext_array_read two_blocks every_other 2 two_blocks-IsValid one_array-IsValid
      refl (omega arith) (omega arith) (omega arith) (omega arith)

-- The third byte is of the element that is not read, and 5 of one that is not whole.
read_run : block_array_read two_blocks every_other 2 ≡ (1, 1 ∷ 2 ∷ 5 ∷ [])
unfolding block_array_read read_blocks seek mul32 and_read advance after_element sub32
read_run = refl
