-- ===== src/BlockArray/Agree.antt =====
-- The block array and the extendable array, two containers of bytes behind one table of functions.
use native.Mathlib.Nat.{mul-le-mul_right}
use c_specx.Base.{inr, some, List, ℕ, ◌≡◌, ◌<◌, ◌*◌, ◌+◌, u32_mod, ap, ◌∙◌, arith}
use c_specx.Stride.{Stride}
use c_specx.BlockArray.{BlockArray, block_array_read}
use c_specx.BlockArray.Inv.{bytes}
use c_specx.BlockArray.Inv as Inv
use c_specx.BlockArray.Read.{block_array_read_lem}
use c_specx.BlockArray.Read.Wholes.{Reads}
use c_specx.ExtArray.{ExtArray, ext_array_read}
use c_specx.ExtArray.Insert.{IsValid, contents}
use c_specx.ExtArray.Strided.{elements, ext_array_read_lem}

-- A block array and an extendable array, both valid, that hold the same bytes read the same elements by
-- the same stride. The size of an element and the stride are not 0, and the byte offsets that the reads
-- compute are less than 2^32.
pub block_array_read-ext_array_read :
    (r : BlockArray) (str : Stride) (size : ℕ) {x : ExtArray}
    → Inv.IsValid r
    → IsValid x
    → contents x ≡ bytes r.blocks
    → 0 < size
    → 0 < str.stride
    → str.start * size + size < u32_mod
    → x.len + (size + str.stride * size) < u32_mod
    → (es : List (List ℕ)) × (ext_array_read x str size ≡ some es)
      × Reads es (block_array_read r str size)
block_array_read-ext_array_read r str size {x} v w same has_bytes pos here wide =
    let moves : 0 < str.stride * size =
      omega (arith, mul-le-mul_right {m = 1} {n = str.stride} size pos) in
    (
      elements (bytes r.blocks) size (str.stride * size) str.nelems (str.start * size),
      ext_array_read_lem str size w here wide (inr (has_bytes, moves))
          ∙ ap (λ t. some (elements t size (str.stride * size) str.nelems (str.start * size))) same,
      block_array_read_lem r str size v has_bytes pos (omega arith) (omega arith),
    )
