-- ===== src/CBuffer/Element.antt =====
-- The single-element operations of src/ds/cbuffer.c: `cbuffer_get` and its unchecked helper, the
-- two peeks, the two pushes and the two pops. An element is `size` bytes; what a call copies to
-- `dest` is a list, and `none` stands for the result `false`.
use c_specx.Base.{
  ℕ, ◌+◌, ◌%◌, Bool, true, false, not, ◌&&◌, Option, none, some, List, ◌++◌, ltb, leb, ◌==◌,
  if◌then◌else◌, take, drop, slice, splice, add32, sub32, mul32,
}
use c_specx.CBuffer.{CBuffer, len, avail, advance}
pub mod Piece
pub mod Push
pub mod Pop
pub mod Get

-- The `memcpy` of an element out of the ring, in one piece or in two.
unfoldable pub load : CBuffer → ℕ → ℕ → List ℕ
load b offset size =
    if leb (add32 offset size) b.cap
    then slice b.buf offset size
    else (let first = sub32 b.cap offset in
        slice b.buf offset first ++ slice b.buf 0 (sub32 size first))

-- The `memcpy` of an element into the ring, in one piece or in two.
unfoldable pub store : CBuffer → ℕ → List ℕ → ℕ → List ℕ
store b offset src size =
    if leb (add32 offset size) b.cap
    then splice b.buf offset (take size src)
    else (let first = sub32 b.cap offset in
        splice (splice b.buf offset (take first src)) 0 (take (sub32 size first) (drop first src)))

unfoldable pub get_no_check : ℕ → ℕ → CBuffer → List ℕ
unfolding advance load
get_no_check size idx b = load b (advance b b.tail (mul32 idx size)) size

unfoldable pub get : ℕ → ℕ → CBuffer → Option (List ℕ)
get size idx b =
    if not b.isfull && leb (sub32 (add32 b.head b.cap) b.tail % b.cap) idx
    then none
    else some (get_no_check size idx b)

unfoldable pub peek_back : ℕ → CBuffer → Option (List ℕ)
peek_back size b = if not b.isfull && b.head == b.tail then none else get size 0 b

unfoldable pub peek_front : ℕ → CBuffer → Option (List ℕ)
peek_front size b = if not b.isfull && b.head == b.tail then none else get size 0 b

unfoldable pub push_back : List ℕ → ℕ → CBuffer → Bool × CBuffer
push_back src size b =
    let head' = advance b b.head size in
    if ltb (avail b) size then (false, b) else (
      true,
      record b {
        buf = store b b.head src size;
        head = head';
        isfull = if head' == b.tail then true else b.isfull;
      },
    )

unfoldable pub push_front : List ℕ → ℕ → CBuffer → Bool × CBuffer
push_front src size b =
    let new_tail = sub32 (add32 b.tail b.cap) size % b.cap in
    if ltb (avail b) size then (false, b) else (
      true,
      record b {
        buf = store b new_tail src size;
        tail = new_tail;
        isfull = if b.head == new_tail then true else b.isfull;
      },
    )

unfoldable pub pop_back : ℕ → CBuffer → Option (List ℕ × CBuffer)
pop_back size b =
    if not b.isfull && b.head == b.tail
    then none
    else some (load b b.tail size, record b { tail = advance b b.tail size; isfull = false })

unfoldable pub pop_front : ℕ → CBuffer → Option (List ℕ × CBuffer)
pop_front size b =
    if not b.isfull && b.head == b.tail
    then none
    else some (load b b.tail size, record b { tail = advance b b.tail size; isfull = false })
