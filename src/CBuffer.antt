-- ===== src/CBuffer.antt =====
-- The circular buffer of include/c_specx/ds/cbuffer.h and src/ds/cbuffer.c: the handle, its
-- queries, the cursor moves and the bulk reads and writes. The `cbuffer_` prefix is the module.
--
-- The backing array is a list of bytes, and a pointer into it is an index. A function that updates
-- `*b` returns the new buffer; bytes that go out through `dest` are a list. Arithmetic on uint32_t
-- is that of Base/Words. `ASSERT` and `DBG_ASSERT` are no code in a release build: what they check
-- is `CBuffer.Inv.IsValid` and the premises of the theorems.
use c_specx.Base.{
  ℕ, zero, suc, ◌+◌, ◌-◌, ◌/◌, ◌%◌, min, Bool, true, false, not, ◌&&◌, ◌||◌, Option, none, some,
  List, [], ◌∷◌, ◌++◌, ltb, leb, ◌==◌, if◌then◌else◌, take, drop, slice, splice, add32, sub32,
  mul32,
}
pub mod Window
pub mod Inv
pub mod Write
pub mod Read
pub mod Cursor
pub mod Element
pub mod Transfer
pub mod FileIo
mod Tests

pub record CBuffer : Type 0 where
  pub buf : List ℕ  -- the source's `data`
  pub cap : ℕ
  pub head : ℕ
  pub tail : ℕ
  pub isfull : Bool

unfoldable pub create : List ℕ → ℕ → CBuffer
create mem cap = record { buf = mem; cap = cap; head = 0; tail = 0; isfull = false }

unfoldable pub create_with : List ℕ → ℕ → ℕ → CBuffer
create_with mem cap n = record { buf = mem; cap = cap; head = n % cap; tail = 0; isfull = n == cap }

unfoldable pub len : CBuffer → ℕ
len b =
    if b.isfull
    then b.cap
    else (if leb b.tail b.head then sub32 b.head b.tail else sub32 b.cap (sub32 b.tail b.head))

unfoldable pub isempty : CBuffer → Bool
isempty b = not b.isfull && b.head == b.tail

unfoldable pub slen : CBuffer → ℕ → ℕ
unfolding len
slen b size = len b / size

unfoldable pub avail : CBuffer → ℕ
unfolding len
avail b = sub32 b.cap (len b)

unfoldable pub savail : CBuffer → ℕ → ℕ
unfolding len
savail b size = sub32 b.cap (len b) / size

unfoldable pub discard_all : CBuffer → CBuffer
discard_all b = record b { tail = 0; head = 0; isfull = false }

-- `struct bytes` over the backing array: `none` is NULL, `some i` is `&data[i]`.
pub record View : Type 0 where
  pub start : Option ℕ
  pub size : ℕ

unfoldable pub get_next_data_bytes : CBuffer → View
get_next_data_bytes b =
    if b.head == b.tail && not b.isfull
    then record { start = none; size = 0 }
    else (if ltb b.tail b.head
        then record { start = some b.tail; size = sub32 b.head b.tail }
        else record { start = some b.tail; size = sub32 b.cap b.tail })

unfoldable pub get_next_avail_bytes : CBuffer → View
get_next_avail_bytes b =
    if b.isfull
    then record { start = none; size = 0 }
    else (if leb b.tail b.head
        then record { start = some b.head; size = sub32 b.cap b.head }
        else record { start = some b.head; size = sub32 b.tail b.head })

-- `(i + n) % b->cap`
unfoldable pub advance : CBuffer → ℕ → ℕ → ℕ
advance b i n = add32 i n % b.cap

unfoldable pub fakewrite : CBuffer → ℕ → CBuffer
fakewrite b nbytes =
    let head' = advance b b.head nbytes in
    record b { head = head'; isfull = if ltb 0 nbytes && head' == b.tail then true else b.isfull }

unfoldable pub fakeread : CBuffer → ℕ → CBuffer
fakeread b nbytes = record b {
  tail = advance b b.tail nbytes;
  isfull = if ltb 0 nbytes then false else b.isfull;
}

-- `next` of a round of the loop in `cbuffer_read`; `left` is `btoread - bread`.
unfoldable pub read_next : CBuffer → ℕ → ℕ
read_next b left =
    if not b.isfull && ltb b.tail b.head
    then min (sub32 b.head b.tail) left
    else min (sub32 b.cap b.tail) left

-- The rest of the round, behind its `memcpy`.
unfoldable pub read_step : CBuffer → ℕ → CBuffer
read_step b next = record b { tail = advance b b.tail next; isfull = false }

-- The loop `while (bread < btoread)`: the bytes copied and the buffer behind it.
unfoldable pub read_loop : ℕ → CBuffer → ℕ → List ℕ × CBuffer
read_loop zero b left = ([], b)
read_loop (suc fuel) b left =
    let next = read_next b left in
    let rest = read_loop fuel (read_step b next) (left - next) in
    if ltb 0 left then (slice b.buf b.tail next ++ rest.0, rest.1) else ([], b)

-- The number of elements that a call moves.
unfoldable pub least : ℕ → ℕ → ℕ
least n m = if ltb n m then n else m

-- `cbuffer_read`: the count, the bytes that go to `dest`, and the buffer.
unfoldable pub read : ℕ → ℕ → CBuffer → ℕ × List ℕ × CBuffer
unfolding least
read size n b =
    let ntoread = least n (len b / size) in
    let btoread = mul32 ntoread size in
    let (out, b') = read_loop btoread b btoread in (ntoread, out, b')

-- The loop of `cbuffer_copy`, over its local copies of `tail` and `isfull`.
unfoldable pub copy_loop : ℕ → CBuffer → ℕ → Bool → ℕ → List ℕ
copy_loop zero b tail isfull left = []
copy_loop (suc fuel) b tail isfull left =
    let next =
      if not isfull && ltb tail b.head
      then min (sub32 b.head tail) left
      else min (sub32 b.cap tail) left in
    let rest = copy_loop fuel b (advance b tail next) false (left - next) in
    if ltb 0 left then slice b.buf tail next ++ rest else []

-- `cbuffer_copy`: the count and the bytes that go to `dest`.
unfoldable pub copy : ℕ → ℕ → CBuffer → ℕ × List ℕ
unfolding least
copy size n b =
    let ntoread = least n (len b / size) in
    let btoread = mul32 ntoread size in (ntoread, copy_loop btoread b b.tail b.isfull btoread)

-- `next` of a round of the loop in `cbuffer_write`, and `head` where it is to write.
unfoldable pub write_next : CBuffer → ℕ → ℕ × ℕ
write_next b left =
    let room = min (sub32 b.cap b.head) left in
    if leb b.tail b.head
    then (if room == 0 then (0, b.tail) else (b.head, room))
    else (b.head, min (sub32 b.tail b.head) left)

-- A round: `memcpy` of `next` bytes of the input to index `at`.
unfoldable pub write_step : CBuffer → ℕ → ℕ → List ℕ → CBuffer
write_step b at next input =
    let head' = advance b at next in
    record b {
      buf = splice b.buf at (take next input);
      head = head';
      isfull = if head' == b.tail then true else b.isfull;
    }

-- The loop `while (bwrite < btowrite)`; `input` is what is left of `src`.
unfoldable pub write_loop : ℕ → CBuffer → List ℕ → ℕ → CBuffer
write_loop zero b input left = b
write_loop (suc fuel) b input left =
    let (at, next) = write_next b left in
    let rest = write_loop fuel (write_step b at next input) (drop next input) (left - next) in
    if ltb 0 left then rest else b

-- `cbuffer_write`
unfoldable pub write : List ℕ → ℕ → ℕ → CBuffer → ℕ × CBuffer
unfolding least
write src size n b =
    let ntowrite = least n (sub32 b.cap (len b) / size) in
    let btowrite = mul32 ntowrite size in (ntowrite, write_loop btowrite b src btowrite)
