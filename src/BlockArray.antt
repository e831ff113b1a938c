-- ===== src/BlockArray.antt =====
-- The block array of src/ds/block_array.c and include/c_specx/ds/block_array.h: creation, insertion,
-- reads by stride and the length. The doubly linked list of blocks is a list. A block has `mem`, its
-- `data` as it is in storage, of which the first `len` bytes are in use. The parameter `alloc` stands
-- for the slab allocator: `alloc k` is the storage of the `k`-th new block of a call, `none` for NULL,
-- on which `block_array_insert` panics. The buffer `tail` is a value of the call.
use c_specx.Base.{
  ℕ, zero, suc, ◌+◌, ◌-◌, min, Bool, true, false, Option, none, some, List, [], ◌∷◌, ◌++◌, ltb, leb,
  ◌==◌, if◌then◌else◌, length, take, drop, slice, splice, sub32, mul32, add32,
}
use c_specx.Stride.{Stride}
pub mod Inv
pub mod Fill
pub mod Insert
pub mod Read
pub mod Agree
mod Tests

pub record Block : Type 0 where
  pub len : ℕ
  pub mem : List ℕ

pub record BlockArray : Type 0 where
  pub cap_per_node : ℕ
  pub blocks : List Block

-- The flag tells if `i_malloc` has returned memory.
unfoldable pub block_array_create : Bool → ℕ → Option BlockArray
block_array_create false cap = none
block_array_create true cap = some (record { cap_per_node = cap; blocks = [] })

-- `block_alloc_empty`: the new block stands behind `prev` in the list.
unfoldable pub block_alloc_empty : Option (List ℕ) → Option Block
block_alloc_empty none = none
block_alloc_empty (some mem) = some (record { len = 0; mem = mem })

-- The copy of a round to the end of `cur`: `next_write`, and the block.
unfoldable pub room_for : ℕ → Block → ℕ → ℕ
room_for cap cur left = min (sub32 cap cur.len) left

unfoldable pub append_to : Block → List ℕ → ℕ → Block
append_to cur src n = record { len = add32 cur.len n; mem = splice cur.mem cur.len (take n src) }

-- The blocks written before the current one, the current one, and the number of allocations.
pub record Filled : Type 0 where
  pub before : List Block
  pub cur : Block
  pub used : ℕ

unfoldable pub behind : Block → Option Filled → Option Filled
behind b none = none
behind b (some f) = some (record f { before = b ∷ f.before })

-- The loop that writes `left` bytes of `src`. A round writes one byte at least.
unfoldable pub fill : ℕ → (ℕ → Option (List ℕ)) → ℕ → ℕ → Block → List ℕ → ℕ → Option Filled
fill zero alloc cap k cur src left = some (record { before = []; cur = cur; used = k })
fill (suc fuel) alloc cap k cur src left =
    let n = room_for cap cur left in
    let stay = fill fuel alloc cap k (append_to cur src n) (drop n src) (left - n) in
    let move : Option Filled = elim (block_alloc_empty (alloc k)) [
      | none ↦ none
      | some b ↦
          let m = room_for cap b left in
          behind cur (fill fuel alloc cap (suc k) (append_to b src m) (drop m src) (left - m))
    ] in
    if ltb 0 left
    then (if cur.len == cap then move else stay)
    else some (record { before = []; cur = cur; used = k })

-- The two loops of an insertion into `cur`, the source and then the tail, and the link to `last`.
unfoldable pub link : List Block → Filled → Filled → List Block
link last f g = f.before ++ (g.before ++ (g.cur ∷ last))

unfoldable pub fill_tail :
    (ℕ → Option (List ℕ)) → ℕ → List ℕ → List Block → Option Filled → Option (List Block)
fill_tail alloc cap tail last none = none
fill_tail alloc cap tail last (some f) =
    elim (fill (length tail) alloc cap f.used f.cur tail (length tail)) [
      | none ↦ none
      | some g ↦ some (link last f g)
    ]

unfoldable pub insert_into :
    (ℕ → Option (List ℕ)) → ℕ → ℕ → Block → List Block → ℕ → List ℕ → ℕ → Option (List Block)
unfolding fill_tail
insert_into alloc cap k cur last ofst src slen =
    let tail = slice cur.mem ofst (cur.len - ofst) in
    fill_tail alloc cap tail last (fill slen alloc cap k (record cur { len = ofst }) src slen)

unfoldable pub cons_block : Block → Option (List Block) → Option (List Block)
cons_block b none = none
cons_block b (some bs) = some (b ∷ bs)

-- The search for the block; an offset past the end is not allowed.
unfoldable pub insert_at :
    (ℕ → Option (List ℕ)) → ℕ → ℕ → List Block → ℕ → List ℕ → ℕ → Option (List Block)
insert_at alloc cap k [] ofst src slen = none
insert_at alloc cap k (cur ∷ rest) ofst src slen =
    let later = insert_at alloc cap k rest (ofst - cur.len) src slen in
    if ltb cur.len ofst
    then cons_block cur later
    else insert_into alloc cap k cur rest ofst src slen

-- A head block where there is none, and the number of allocations.
unfoldable pub head_of : Option Block → Option (List Block × ℕ)
head_of none = none
head_of (some b) = some (b ∷ [], 1)

unfoldable pub with_head : (ℕ → Option (List ℕ)) → List Block → Option (List Block × ℕ)
unfolding head_of
with_head alloc [] = head_of (block_alloc_empty (alloc 0))
with_head alloc (b ∷ bs) = some (b ∷ bs, 0)

unfoldable pub with_blocks : BlockArray → Option (List Block) → Option BlockArray
with_blocks r none = none
with_blocks r (some bs) = some (record r { blocks = bs })

unfoldable pub insert_blocks :
    (ℕ → Option (List ℕ))
    → BlockArray
    → Option (List Block × ℕ)
    → ℕ
    → List ℕ
    → ℕ
    → Option BlockArray
insert_blocks alloc r none ofst src slen = none
insert_blocks alloc r (some (bs, k)) ofst src slen =
    with_blocks r (insert_at alloc r.cap_per_node k bs ofst src slen)

-- `block_array_insert`; `none` is a panic.
unfoldable pub block_array_insert :
    (ℕ → Option (List ℕ)) → BlockArray → ℕ → List ℕ → ℕ → Option BlockArray
unfolding insert_blocks
block_array_insert alloc r ofst src slen =
    insert_blocks alloc r (with_head alloc r.blocks) ofst src slen

-- Where the loop of `block_array_read` is: the block, those behind it, and the index in the block.
pub record Place : Type 0 where
  pub cur : Block
  pub rest : List Block
  pub bidx : ℕ

-- The search for the first byte.
unfoldable pub seek : List Block → ℕ → Option Place
seek [] bidx = none
seek (cur ∷ rest) bidx =
    let later = seek rest (bidx - cur.len) in
    if leb cur.len bidx then later else some (record { cur = cur; rest = rest; bidx = bidx })

-- The end of a round: the next block where this one is at its end.
unfoldable pub advance : Block → List Block → ℕ → Option Place
advance cur [] bidx =
    if bidx == cur.len then none else some (record { cur = cur; rest = []; bidx = bidx })
advance cur (b ∷ rest) bidx =
    if bidx == cur.len
    then some (record { cur = b; rest = rest; bidx = 0 })
    else some (record { cur = cur; rest = b ∷ rest; bidx = bidx })

pub record StrideState : Type 0 where
  pub next : ℕ
  pub active : Bool

-- The state behind an element: in the next one, or in what the stride skips.
unfoldable pub after_element : ℕ → ℕ → StrideState
after_element size stride =
    if stride == 1
    then record { next = size; active = true }
    else record { next = mul32 (sub32 stride 1) size; active = false }

unfoldable pub with_next : StrideState → ℕ → StrideState
with_next s next = record s { next = next }

-- What a call reads: the number of whole elements and the bytes written to `dest`.
unfoldable pub and_read : ℕ → List ℕ → ℕ × List ℕ → ℕ × List ℕ
and_read n part (count, out) = (n + count, part ++ out)

-- The loop of `block_array_read`: `left` is `str.nelems - total_read`, and no place is a NULL block. A
-- round reads or skips a byte at least, or leaves a block.
unfoldable pub read_blocks : ℕ → ℕ → ℕ → ℕ → Option Place → StrideState → ℕ × List ℕ
unfolding with_next
read_blocks fuel size stride zero p s = (0, [])
read_blocks fuel size stride (suc left) none s = (0, [])
read_blocks zero size stride (suc left) (some p) s = (0, [])
read_blocks (suc fuel) size stride (suc left) (some p) s =
    let n = min s.next (p.cur.len - p.bidx) in
    let part = slice p.cur.mem p.bidx n in
    let p' = advance p.cur p.rest (p.bidx + n) in
    let skipped =
      read_blocks fuel size stride (suc left) p' (record { next = size; active = true }) in
    let more = read_blocks fuel size stride (suc left) p' (with_next s (s.next - n)) in
    let element = read_blocks fuel size stride left p' (after_element size stride) in
    if s.active
    then (if s.next - n == 0 then and_read 1 part element else and_read 0 part more)
    else (if s.next - n == 0 then skipped else more)

unfoldable pub total_len : List Block → ℕ
total_len [] = 0
total_len (b ∷ bs) = b.len + total_len bs

unfoldable pub block_array_getlen : BlockArray → ℕ
unfolding total_len
block_array_getlen r = total_len r.blocks

unfoldable pub block_array_read : BlockArray → Stride → ℕ → ℕ × List ℕ
unfolding total_len
block_array_read r str size =
    read_blocks (total_len r.blocks + length r.blocks) size str.stride str.nelems
      (seek r.blocks (mul32 str.start size)) (record { next = size; active = true })
