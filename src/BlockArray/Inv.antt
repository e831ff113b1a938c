-- ===== src/BlockArray/Inv.antt =====
-- What a valid list of blocks is, and the bytes that it holds.
use c_specx.Base.{
  ℕ, ◌≤◌, ◌<◌, ◌≡◌, refl, sym, ap, ◌∙◌, List, [], ◌∷◌, ◌++◌, length, take, length-take,
  length-append, append_assoc, u32_mod, arith,
}
use c_specx.BlockArray.{Block, BlockArray, total_len}

pub record IsBlock (cap : ℕ) (b : Block) : Type 0 where
  pub within : b.len ≤ cap
  pub storage : cap ≤ length b.mem

abbrev pub AllBlocks : ℕ → List Block → Type 0
AllBlocks cap [] = Unit
AllBlocks cap (b ∷ bs) = IsBlock cap b × AllBlocks cap bs

pub record IsValid (r : BlockArray) : Type 0 where
  pub some_room : 0 < r.cap_per_node
  pub small : r.cap_per_node < u32_mod
  pub blocks_valid : AllBlocks r.cap_per_node r.blocks

abbrev pub live : Block → List ℕ
live b = take b.len b.mem

abbrev pub bytes : List Block → List ℕ
bytes [] = []
bytes (b ∷ bs) = live b ++ bytes bs

pub length-live : {cap : ℕ} (b : Block) → IsBlock cap b → length (live b) ≡ b.len
length-live b v = omega (arith, length-take b.len b.mem, v.within, v.storage)

pub length-bytes : (cap : ℕ) (bs : List Block) → AllBlocks cap bs → length (bytes bs) ≡ total_len bs
unfolding total_len
length-bytes cap [] v = refl
length-bytes cap (b ∷ bs) v =
    omega (arith, length-append (live b) (bytes bs), length-live b v.0, length-bytes cap bs v.1)

pub bytes-append : (xs ys : List Block) → bytes (xs ++ ys) ≡ bytes xs ++ bytes ys
bytes-append [] ys = refl
bytes-append (x ∷ xs) ys =
    ap (λ t. live x ++ t) (bytes-append xs ys) ∙ sym (append_assoc (live x) (bytes xs) (bytes ys))

pub append-AllBlocks :
    (cap : ℕ) (xs ys : List Block) → AllBlocks cap xs → AllBlocks cap ys → AllBlocks cap (xs ++ ys)
append-AllBlocks cap [] ys v w = w
append-AllBlocks cap (x ∷ xs) ys v w = (v.0, append-AllBlocks cap xs ys v.1 w)
