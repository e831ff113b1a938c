-- ===== src/BlockArray/Insert.antt =====
-- `block_array_insert` puts its bytes into the contents.
use c_specx.Base.{
  ℕ, ◌-◌, ◌≤◌, ◌<◌, ◌≡◌, refl, sym, ap, ap₂, ◌∙◌, inl, inr, Option, none, some, List, [], ◌∷◌, ◌++◌,
  length, take, drop, slice, inserted, take-take_of_le, drop-take, u32_mod, append_assoc, le_or_lt,
  lt→ltb, le→ltb, arith, subst, take-append_of_le, drop-append_of_le, length-append,
  take-append_of_ge, drop-append_of_ge,
}
use c_specx.BlockArray.{
  Block, BlockArray, Filled, fill, fill_tail, link, insert_into, insert_at, cons_block, with_head,
  block_alloc_empty, block_array_insert, with_blocks, insert_blocks, head_of,
}
use c_specx.BlockArray.Inv.{
  IsBlock, AllBlocks, IsValid, live, bytes, length-live, bytes-append, append-AllBlocks,
}
use c_specx.BlockArray.Fill as Fill
use c_specx.BlockArray.Fill.{panic, filled, fill-Outcome}

-- A panic, for want of a block, or a list of blocks that hold `xs`.
pub data Outcome (alloc : ℕ → Option (List ℕ)) (cap : ℕ) (xs : List ℕ)
    : Option (List Block) → Type 0 where
  panicked : (j : ℕ) → alloc j ≡ none → Outcome alloc cap xs none
  inserted_in :
      (bs : List Block) → AllBlocks cap bs → bytes bs ≡ xs → Outcome alloc cap xs (some bs)

bytes-link :
    (last : List Block) (f g : Filled) (pre src tail : List ℕ)
    → bytes f.before ++ live f.cur ≡ pre ++ src
    → bytes g.before ++ live g.cur ≡ live f.cur ++ tail
    → bytes (link last f g) ≡ pre ++ (src ++ (tail ++ bytes last))
unfolding link
bytes-link last f g pre src tail e e' =
    bytes-append f.before (g.before ++ (g.cur ∷ last))
    ∙ ap (λ t. bytes f.before ++ t)
        (bytes-append g.before (g.cur ∷ last)
          ∙ sym (append_assoc (bytes g.before) (live g.cur) (bytes last))
          ∙ ap (λ t. t ++ bytes last) e'
          ∙ append_assoc (live f.cur) tail (bytes last))
    ∙ sym (append_assoc (bytes f.before) (live f.cur) (tail ++ bytes last))
    ∙ ap (λ t. t ++ (tail ++ bytes last)) e
    ∙ append_assoc pre src (tail ++ bytes last)

-- The bytes before the cut, the new ones, those behind the cut and the other blocks.
cut_eq :
    {cap : ℕ} (cur : Block) (last : List Block) (ofst : ℕ) (src : List ℕ)
    → IsBlock cap cur
    → ofst ≤ cur.len
    → take ofst cur.mem ++ (src ++ (slice cur.mem ofst (cur.len - ofst) ++ bytes last))
      ≡ inserted (live cur ++ bytes last) ofst src
cut_eq cur last ofst src ok le =
    let n = length-live cur ok in
    ap₂ (λ (a b : List ℕ). a ++ (src ++ b))
      (sym (
        take-append_of_le ofst (live cur) (bytes last) (omega (arith, n))
        ∙ take-take_of_le ofst cur.len cur.mem le))
      (sym (
        drop-append_of_le ofst (live cur) (bytes last) (omega (arith, n))
        ∙ ap (λ t. t ++ bytes last) (drop-take ofst cur.len cur.mem)))

inserted-append :
    (xs ys : List ℕ) (ofst : ℕ) (src : List ℕ)
    → length xs ≤ ofst
    → xs ++ inserted ys (ofst - length xs) src ≡ inserted (xs ++ ys) ofst src
inserted-append xs ys ofst src h =
    sym (append_assoc xs (take (ofst - length xs) ys) (src ++ drop (ofst - length xs) ys))
    ∙ ap₂ (λ (a b : List ℕ). a ++ (src ++ b)) (sym (take-append_of_ge ofst xs ys h))
        (sym (drop-append_of_ge ofst xs ys h))

-- A block before the ones where the bytes went.
cons_block-Outcome :
    {alloc : ℕ → Option (List ℕ)} {cap : ℕ} (b : Block) (xs ys : List ℕ) (r : Option (List Block))
    → IsBlock cap b
    → live b ++ xs ≡ ys
    → Outcome alloc cap xs r
    → Outcome alloc cap ys (cons_block b r)
unfolding cons_block
cons_block-Outcome b xs ys _ ok e (panicked j h) = panicked j h
cons_block-Outcome b xs ys _ ok e (inserted_in bs v e') =
    inserted_in (b ∷ bs) (ok, v) (ap (λ t. live b ++ t) e' ∙ e)

some_rest : (bs : List Block) → 0 < length (bytes bs) → 0 < length bs
some_rest [] h = absurd (omega arith)
some_rest (b ∷ bs) h = omega arith

module _ (alloc : ℕ → Option (List ℕ)) (cap : ℕ)
    (gives : (j : ℕ) (mem : List ℕ) → alloc j ≡ some mem → cap ≤ length mem) (pos : 0 < cap)
    (small : cap < u32_mod) where
  fill_tail-Outcome :
      (tail src : List ℕ) (last : List Block) {cur : Block} (r : Option Filled)
      → AllBlocks cap last
      → Fill.Outcome alloc cap cur src r
      → Outcome alloc cap
          (live cur ++ (src ++ (tail ++ bytes last)))
          (fill_tail alloc cap tail last r)
  unfolding fill_tail link
  fill_tail-Outcome tail src last _ v (panic j h) = panicked j h
  fill_tail-Outcome tail src last {cur} _ v (filled f before ok e) =
      second (fill (length tail) alloc cap f.used f.cur tail (length tail)) (
        fill-Outcome (length tail) alloc cap f.used f.cur tail (length tail) gives pos small ok refl
          (omega arith))
    where
      second :
          (r : Option Filled)
          → Fill.Outcome alloc cap f.cur tail r
          → Outcome alloc cap
              (live cur ++ (src ++ (tail ++ bytes last)))
              (elim r as (λ _. Option (List Block)) [ none ↦ none | some g ↦ some (link last f g) ])
      second _ (panic j h) = panicked j h
      second _ (filled g before' ok' e') =
          inserted_in (link last f g)
            (append-AllBlocks cap f.before (g.before ++ (g.cur ∷ last)) before
              (append-AllBlocks cap g.before (g.cur ∷ last) before' (ok', v)))
            (bytes-link last f g (live cur) src tail e e')

  insert_into-Outcome :
      (k : ℕ) (cur : Block) (last : List Block) (ofst : ℕ) (src : List ℕ)
      → IsBlock cap cur
      → AllBlocks cap last
      → ofst ≤ cur.len
      → Outcome alloc cap
          (inserted (live cur ++ bytes last) ofst src)
          (insert_into alloc cap k cur last ofst src (length src))
  unfolding insert_into
  insert_into-Outcome k cur last ofst src ok v le =
      let cut : Block = record cur { len = ofst } in
      let cut-IsBlock : IsBlock cap cut = record {
        within = omega (arith, ok.within);
        storage = ok.storage;
      } in
      let tail = slice cur.mem ofst (cur.len - ofst) in
      subst (λ xs. Outcome alloc cap xs (insert_into alloc cap k cur last ofst src (length src)))
        (cut_eq cur last ofst src ok le)
        (fill_tail-Outcome tail src last (fill (length src) alloc cap k cut src (length src)) v (
          fill-Outcome (length src) alloc cap k cut src (length src) gives pos small cut-IsBlock
            refl (omega arith)))

  insert_at-Outcome :
      (k : ℕ) (bs : List Block) (ofst : ℕ) (src : List ℕ)
      → AllBlocks cap bs
      → ofst ≤ length (bytes bs)
      → 0 < length bs
      → Outcome alloc cap
          (inserted (bytes bs) ofst src)
          (insert_at alloc cap k bs ofst src (length src))
  unfolding insert_at cons_block
  insert_at-Outcome k [] ofst src v le some_block = absurd (omega arith)
  insert_at-Outcome k (cur ∷ rest) ofst src v le some_block = elim (le_or_lt ofst cur.len) [
    | inl here ↦
        rw (le→ltb cur.len ofst here) (insert_into-Outcome k cur rest ofst src v.0 v.1 here)
    | inr past ↦ rw (lt→ltb cur.len ofst past) (
        let n = length-live cur v.0 in
        let m = length-append (live cur) (bytes rest) in
        cons_block-Outcome cur (inserted (bytes rest) (ofst - cur.len) src)
          (inserted (live cur ++ bytes rest) ofst src)
          (insert_at alloc cap k rest (ofst - cur.len) src (length src)) v.0
          (ap (λ (i : ℕ). live cur ++ inserted (bytes rest) (ofst - i) src) (sym n)
            ∙ inserted-append (live cur) (bytes rest) ofst src (omega (arith, n)))
          (insert_at-Outcome k rest (ofst - cur.len) src v.1 (omega (arith, n, m))
            (some_rest rest (omega (arith, n, m)))))
  ]

-- A panic, for want of a block, or a valid array of the same blocks' size that holds `xs`.
pub data Insertion (alloc : ℕ → Option (List ℕ)) (cap : ℕ) (xs : List ℕ)
    : Option BlockArray → Type 0 where
  no_block : (j : ℕ) → alloc j ≡ none → Insertion alloc cap xs none
  holds :
      (r : BlockArray)
      → IsValid r
      → r.cap_per_node ≡ cap
      → bytes r.blocks ≡ xs
      → Insertion alloc cap xs (some r)

with_blocks-Insertion :
    {alloc : ℕ → Option (List ℕ)} {xs : List ℕ} (r : BlockArray) (res : Option (List Block))
    → IsValid r
    → Outcome alloc r.cap_per_node xs res
    → Insertion alloc r.cap_per_node xs (with_blocks r res)
unfolding with_blocks
with_blocks-Insertion r _ v (panicked j h) = no_block j h
with_blocks-Insertion r _ v (inserted_in bs ok e) =
    holds (record r { blocks = bs })
      (record { some_room = v.some_room; small = v.small; blocks_valid = ok }) refl e

module _ (alloc : ℕ → Option (List ℕ)) (ofst : ℕ) (src : List ℕ) {r : BlockArray} (v : IsValid r)
    (gives : (j : ℕ) (mem : List ℕ) → alloc j ≡ some mem → r.cap_per_node ≤ length mem) where
  into_head-Insertion :
      (le : ofst ≤ 0) (m : Option (List ℕ))
      → alloc 0 ≡ m
      → Insertion alloc r.cap_per_node
          (inserted [] ofst src)
          (insert_blocks alloc r (head_of (block_alloc_empty m)) ofst src (length src))
  unfolding insert_blocks head_of block_alloc_empty
  into_head-Insertion le none e = no_block 0 e
  into_head-Insertion le (some mem) e =
      let b : Block = record { len = 0; mem = mem } in
      with_blocks-Insertion r (insert_at alloc r.cap_per_node 1 (b ∷ []) ofst src (length src)) v (
        insert_at-Outcome alloc r.cap_per_node gives v.some_room v.small 1 (b ∷ []) ofst src
          (record { within = omega arith; storage = gives 0 mem e }, tt) le (omega arith))

  -- The insertion into the blocks that the array has, or into a new one where it has none.
  insert_blocks-Insertion :
      (bs : List Block)
      → AllBlocks r.cap_per_node bs
      → ofst ≤ length (bytes bs)
      → Insertion alloc r.cap_per_node
          (inserted (bytes bs) ofst src)
          (insert_blocks alloc r (with_head alloc bs) ofst src (length src))
  unfolding insert_blocks with_head
  insert_blocks-Insertion [] ok le = into_head-Insertion le (alloc 0) refl
  insert_blocks-Insertion (b ∷ bs) ok le =
      with_blocks-Insertion r (insert_at alloc r.cap_per_node 0 (b ∷ bs) ofst src (length src)) v (
        insert_at-Outcome alloc r.cap_per_node gives v.some_room v.small 0 (b ∷ bs) ofst src ok le
          (omega arith))

-- `block_array_insert` into a valid array, at an offset within it, panics only where the allocator has
-- no block to give, and else leaves a valid array that holds the bytes it held with the source's put in
-- at the offset. The blocks that the allocator gives have the capacity of a block.
pub block_array_insert_lem :
    (alloc : ℕ → Option (List ℕ)) (r : BlockArray) (ofst : ℕ) (src : List ℕ)
    → IsValid r
    → ((j : ℕ) (mem : List ℕ) → alloc j ≡ some mem → r.cap_per_node ≤ length mem)
    → ofst ≤ length (bytes r.blocks)
    → Insertion alloc r.cap_per_node
        (inserted (bytes r.blocks) ofst src)
        (block_array_insert alloc r ofst src (length src))
unfolding block_array_insert
block_array_insert_lem alloc r ofst src v gives le =
    insert_blocks-Insertion alloc ofst src v gives r.blocks v.blocks_valid le
