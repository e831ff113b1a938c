-- ===== src/CBuffer/FileIo.antt =====
-- The transfers between a buffer and a file, of src/ds/cbuffer.c. A file is not part of this
-- model: `i_readv_all` and `i_writev_all` are parameters. A call of `i_readv_all` has read some
-- bytes into the regions of its vector when it returns, a failing call too; `ok` tells which.
use c_specx.Base.{
  ℕ, zero, suc, ◌-◌, min, Bool, true, false, not, ◌&&◌, Option, none, some, List, [], ◌∷◌, ◌++◌,
  ltb, leb, ◌==◌, if◌then◌else◌, take, drop, slice, splice, sub32, length, u32_mod, ◌%◌, ◌^◌,
}
use c_specx.CBuffer.{CBuffer, len, avail, advance}
pub mod Vector
pub mod ReadFrom
pub mod WriteTo

pub record Reply : Type 0 where
  pub ok : Bool
  pub bytes : List ℕ

-- The vector: a list of regions of the backing array, each an index and a length.
abbrev pub Iov : Type 0
Iov = List (ℕ × ℕ)

-- What a read of `bytes` into the regions of a vector does to the array.
unfoldable pub scatter : List ℕ → Iov → List ℕ → List ℕ
scatter buf [] bytes = buf
scatter buf ((i, n) ∷ iov) bytes = scatter (splice buf i (take n bytes)) iov (drop n bytes)

-- What a write of the regions of a vector hands to the file.
unfoldable pub gather : List ℕ → Iov → List ℕ
gather buf [] = []
gather buf ((i, n) ∷ iov) = slice buf i n ++ gather buf iov

-- A count as the int32_t that is returned: `none` stands for a negative result, as that of an error.
unfoldable pub as_result : ℕ → Option ℕ
as_result n = let w = n % u32_mod in if ltb w (2 ^ 31) then some w else none

-- `next` of a round of the loop in `cbuffer_read_from_file_1`; `left` is `btowrite - bwrite`.
unfoldable pub fill_next : CBuffer → ℕ → ℕ → ℕ
fill_next b newhead left =
    if leb b.tail newhead then min (sub32 b.cap newhead) left else min (sub32 b.tail newhead) left

unfoldable pub fill_iov : ℕ → CBuffer → ℕ → ℕ → Iov
fill_iov zero b newhead left = []
fill_iov (suc fuel) b newhead left =
    let next = fill_next b newhead left in
    let rest = fill_iov fuel b (advance b newhead next) (left - next) in
    if ltb 0 left then (newhead, next) ∷ rest else []

-- `cbuffer_read_from_file_1`: the result, `none` where it is negative, and the array behind the call.
unfoldable pub read_from_file_1 : (ℕ → Reply) → CBuffer → ℕ → Option ℕ × List ℕ
read_from_file_1 readv b n =
    let btowrite = min (avail b) n in
    let reply = readv btowrite in
    let buf' = scatter b.buf (fill_iov btowrite b b.head btowrite) reply.bytes in
    if btowrite == 0
    then (some 0, b.buf)
    else (if reply.ok then (as_result (length reply.bytes), buf') else (none, buf'))

unfoldable pub read_from_file_2 : CBuffer → ℕ → CBuffer
read_from_file_2 b nread =
    let head' = advance b b.head nread in
    record b { head = head'; isfull = if head' == b.tail && ltb 0 nread then true else b.isfull }

-- What `cbuffer_read_from_file` does with the result of the first half.
unfoldable pub commit_read : CBuffer → Option ℕ × List ℕ → Option ℕ × CBuffer
commit_read b (none, buf') = (none, record b { buf = buf' })
commit_read b (some k, buf') = (some k, read_from_file_2 (record b { buf = buf' }) k)

unfoldable pub read_from_file : (ℕ → Reply) → CBuffer → ℕ → Option ℕ × CBuffer
unfolding commit_read
read_from_file readv b n = commit_read b (read_from_file_1 readv b n)

-- `next` of a round of the loop in `cbuffer_write_to_file_1`.
unfoldable pub drain_next : CBuffer → ℕ → ℕ → ℕ
drain_next b newtail left =
    if not b.isfull && ltb newtail b.head
    then min (sub32 b.head newtail) left
    else min (sub32 b.cap newtail) left

unfoldable pub drain_iov : ℕ → CBuffer → ℕ → ℕ → Iov
drain_iov zero b newtail left = []
drain_iov (suc fuel) b newtail left =
    let next = drain_next b newtail left in
    let rest = drain_iov fuel b (advance b newtail next) (left - next) in
    if ltb 0 left then (newtail, next) ∷ rest else []

-- `cbuffer_write_to_file_1`: `writev` tells whether the bytes of the vector were written.
unfoldable pub write_to_file_1 : (List ℕ → Bool) → CBuffer → ℕ → Option ℕ
write_to_file_1 writev b n =
    let btoread = min (len b) n in
    if btoread == 0
    then some 0
    else (if writev (gather b.buf (drain_iov btoread b b.tail btoread))
        then as_result btoread
        else none)

unfoldable pub write_to_file_2 : CBuffer → ℕ → CBuffer
write_to_file_2 b nwritten = record b {
  tail = advance b b.tail nwritten;
  isfull = if ltb 0 nwritten then false else b.isfull;
}

unfoldable pub commit_write : CBuffer → Option ℕ → Option ℕ × CBuffer
commit_write b none = (none, b)
commit_write b (some k) = (some k, write_to_file_2 b k)

unfoldable pub write_to_file : (List ℕ → Bool) → CBuffer → ℕ → Option ℕ × CBuffer
unfolding commit_write
write_to_file writev b n = commit_write b (write_to_file_1 writev b n)
