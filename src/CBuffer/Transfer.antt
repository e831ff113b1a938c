-- ===== src/CBuffer/Transfer.antt =====
-- `cbuffer_cbuffer_move` and `cbuffer_cbuffer_copy` of src/ds/cbuffer.c. The two buffers do not
-- share storage: `dest` and `src` are separate values.
use c_specx.Base.{ℕ, ◌/◌, ◌||◌, ltb, leb, ◌==◌, if◌then◌else◌, drop, sub32, mul32, List, false}
use c_specx.CBuffer.{CBuffer, len, avail, advance, least, write}
pub mod Pieces
pub mod Laws

-- The number of elements to transfer.
unfoldable pub transfer_count : CBuffer → ℕ → ℕ → CBuffer → ℕ
unfolding least
transfer_count dest sz cnt src =
    let n = if ltb cnt (len src / sz) then cnt else len src / sz in
    if ltb (avail dest / sz) n then avail dest / sz else n

-- The bytes from `tail` up to the end of the data or of the array, `nbytes` at most.
unfoldable pub first_chunk : CBuffer → ℕ → ℕ
first_chunk src nbytes =
    let first =
      if src.isfull || leb src.head src.tail
      then sub32 src.cap src.tail
      else sub32 src.head src.tail in
    if ltb nbytes first then nbytes else first

-- A `cbuffer_write (src->data + pos, 1, n, dest)`.
unfoldable pub write_from : CBuffer → ℕ → ℕ → CBuffer → CBuffer
write_from src pos n dest = (write (drop pos src.buf) 1 n dest).1

-- The count, `dest` and `src`.
unfoldable pub cbuffer_move : CBuffer → ℕ → ℕ → CBuffer → ℕ × CBuffer × CBuffer
cbuffer_move dest sz cnt src =
    let n = transfer_count dest sz cnt src in
    let nbytes = mul32 n sz in
    let first = first_chunk src nbytes in
    let dest1 = write_from src src.tail first dest in
    let src1 = record src { tail = advance src src.tail first; isfull = false } in
    let left = sub32 nbytes first in
    if n == 0
    then (0, dest, src)
    else (if ltb 0 left
        then (
          n,
          write_from src1 src1.tail left dest1,
          record src1 { tail = advance src1 src1.tail left },
        )
        else (n, dest1, src1))

-- The count and `dest`; `pos` is a local copy of `tail`, and `src` stays as it is.
unfoldable pub cbuffer_copy : CBuffer → ℕ → ℕ → CBuffer → ℕ × CBuffer
cbuffer_copy dest sz cnt src =
    let n = transfer_count dest sz cnt src in
    let nbytes = mul32 n sz in
    let first = first_chunk src nbytes in
    let dest1 = write_from src src.tail first dest in
    let pos = advance src src.tail first in
    let left = sub32 nbytes first in
    if n == 0
    then (0, dest)
    else (if ltb 0 left then (n, write_from src pos left dest1) else (n, dest1))
