-- ===== src/CBuffer/Cursor.antt =====
-- The operations that move the cursors without a copy, the views of the next contiguous region,
-- and the initial states.
use c_specx.Base.{
  ℕ, zero, suc, ◌+◌, ◌-◌, ◌≤◌, ◌<◌, ◌≡◌, refl, sym, ap, ap₂, ◌∙◌, List, [], ◌++◌, length, take,
  drop, slice, arith, true, sub32_small, ◌↔◌, drop-length-append, lt→ltb, none, append-nil, ◌⊎◌,
  some, take-length-append,
}
use c_specx.Base.{◌%◌}
use c_specx.CBuffer.{
  CBuffer, create, create_with, len, isempty, avail, discard_all, fakewrite, fakeread,
  get_next_data_bytes, get_next_avail_bytes, advance,
}
use c_specx.CBuffer.Window.{
  ahead, window, window-eq-slice, ahead_zero, window-add, window-zero, length-window,
}
use c_specx.CBuffer.Inv.{
  IsValid, contents, len_lem, len-le-cap, advance_lem, Shrunk, shrink, contents-Shrunk, Grown, grow,
  max_cap, avail_lem, contents-nil, head-eq-ahead, mod-eq-ahead,
}

-- A fresh buffer over `cap` bytes of storage is valid and holds nothing.
pub create-IsValid :
    (mem : List ℕ) (cap : ℕ)
    → 0 < cap
    → cap ≤ max_cap
    → cap ≤ length mem
    → IsValid (create mem cap) × (contents (create mem cap) ≡ [])
unfolding create len
create-IsValid mem cap pos small fits =
    (ground arith, contents-nil (create mem cap) (ground (arith, sub32_small 0 0)))

-- `cbuffer_create_with` takes the first `n` bytes of the storage for the contents, `n ≡ cap` included.
pub create_with-IsValid :
    (mem : List ℕ) (cap n : ℕ)
    → 0 < cap
    → cap ≤ max_cap
    → cap ≤ length mem
    → n ≤ cap
    → IsValid (create_with mem cap n) × (contents (create_with mem cap n) ≡ take n mem)
unfolding create_with
create_with-IsValid mem cap n pos small fits le = (
  valid,
  ap (λ (k : ℕ). window mem cap 0 k) (ground (arith, len_lem valid, wraps))
      ∙ window-eq-slice mem cap 0 n fits (omega arith),
)
  where
    wraps : n % cap ≡ ahead cap 0 n
    wraps = ap (λ (k : ℕ). k % cap) (omega arith) ∙ mod-eq-ahead cap 0 n pos le

    valid : IsValid (create_with mem cap n)
    valid = ground (arith, wraps)

-- The bytes held and the bytes free make up the capacity, and emptiness is having none.
pub avail-add-len :
    {b : CBuffer}
    → IsValid b
    → (avail b + len b ≡ b.cap) × ((isempty b ≡ true) ↔ (len b ≡ 0)) × (len b ≤ b.cap)
unfolding isempty
avail-add-len v = (
  omega (arith, avail_lem v, len-le-cap v),
  (ground (arith, len_lem v), ground (arith, len_lem v)),
  len-le-cap v,
)

-- `cbuffer_discard_all` empties the buffer.
pub discard_all-IsValid :
    {b : CBuffer} → IsValid b → IsValid (discard_all b) × (contents (discard_all b) ≡ [])
unfolding discard_all
discard_all-IsValid {b} v = (valid, contents-nil (discard_all b) (ground (arith, len_lem valid)))
  where
    valid : IsValid (discard_all b)
    valid = ground arith

pub fakewrite-zero : {b : CBuffer} → IsValid b → fakewrite b 0 ≡ b
unfolding fakewrite
fakewrite-zero {b} v =
    rw (advance_lem b b.head 0 v.small v.head_in (omega arith) ∙ ahead_zero b.cap b.head v.head_in)
      refl

pub fakeread-zero : {b : CBuffer} → IsValid b → fakeread b 0 ≡ b
unfolding fakeread
fakeread-zero {b} v =
    rw (advance_lem b b.tail 0 v.small v.tail_in (omega arith) ∙ ahead_zero b.cap b.tail v.tail_in)
      refl

fakewrite-Grown :
    (k : ℕ) {b : CBuffer} → IsValid b → 0 < k → k ≤ b.cap - len b → Grown b (fakewrite b k) k
unfolding fakewrite
fakewrite-Grown k {b} v pos fits =
    grow _ k v pos fits v.storage refl refl (advance_lem b b.head k v.small v.head_in (omega arith))
      (rw (lt→ltb 0 k pos) refl)

pub fakeread-Shrunk :
    (k : ℕ) {b : CBuffer}
    → IsValid b
    → 0 < k
    → k ≤ len b
    → Shrunk b (fakeread b k) k × ((fakeread b k).tail ≡ ahead b.cap b.tail k)
unfolding fakeread
fakeread-Shrunk k {b} v pos fits =
    (shrink _ k v pos fits refl refl refl moved (rw (lt→ltb 0 k pos) refl), moved)
  where
    moved : advance b b.tail k ≡ ahead b.cap b.tail k
    moved = advance_lem b b.tail k v.small v.tail_in (omega (arith, len-le-cap v))

buf-fakewrite : (b : CBuffer) (k : ℕ) → (fakewrite b k).buf ≡ b.buf
unfolding fakewrite
buf-fakewrite b k = refl

-- A longer stretch of the same storage.
contents-Grown :
    {b b' : CBuffer} (k : ℕ)
    → IsValid b
    → Grown b b' k
    → b'.buf ≡ b.buf
    → contents b' ≡ contents b ++ window b.buf b.cap b.head k
contents-Grown {b} {b'} k v g e =
    ap₂ (λ (t n : ℕ). window b'.buf b'.cap t n) g.same_tail g.longer
    ∙ ap₂ (λ (m : List ℕ) (c : ℕ). window m c b.tail (len b + k)) e g.same_cap
    ∙ window-add b.buf b.cap b.tail (len b) k v.tail_in (len-le-cap v)
    ∙ ap (λ (i : ℕ). contents b ++ window b.buf b.cap i k) (sym (head-eq-ahead v))

-- On a valid buffer, `cbuffer_fakewrite` of `k` bytes that fit keeps the buffer valid and adds to
-- the contents the `k` bytes of the storage that stand behind them, at `head` and on.
pub fakewrite_lem :
    (k : ℕ) {b : CBuffer}
    → IsValid b
    → k ≤ avail b
    → let b' = fakewrite b k in
      IsValid b' × (contents b' ≡ contents b ++ window b.buf b.cap b.head k)
fakewrite_lem zero {b} v fits =
    rw (fakewrite-zero v, window-zero b.buf b.cap b.head) (v, sym (append-nil (contents b)))
fakewrite_lem (suc k) {b} v fits =
    let g = fakewrite-Grown (suc k) v (omega arith) (omega (arith, avail_lem v)) in
    (g.valid, contents-Grown (suc k) v g (buf-fakewrite b (suc k)))

-- On a valid buffer, `cbuffer_fakeread` of `k` bytes that are there drops the oldest `k` bytes and
-- keeps the buffer valid.
pub fakeread_lem :
    (k : ℕ) {b : CBuffer}
    → IsValid b
    → k ≤ len b
    → let b' = fakeread b k in IsValid b' × (contents b' ≡ drop k (contents b))
fakeread_lem zero {b} v fits = rw (fakeread-zero v) (v, refl)
fakeread_lem (suc k) {b} v fits =
    let (s, moved) = fakeread-Shrunk (suc k) v (omega arith) fits in
    (
      s.valid,
      sym (
          ap (drop (suc k)) (contents-Shrunk (suc k) v s moved)
          ∙ drop-length-append (window b.buf b.cap b.tail (suc k)) (contents (fakeread b (suc k)))
              (suc k) (sym (length-window b.buf b.cap b.tail (suc k)))),
    )

pub take-contents :
    (k : ℕ) {b : CBuffer}
    → IsValid b
    → k ≤ len b
    → b.tail + k ≤ b.cap
    → take k (contents b) ≡ slice b.buf b.tail k
take-contents k {b} v fits fit =
    ap (λ (n : ℕ). take k (window b.buf b.cap b.tail n)) {y = k + (len b - k)} (omega arith)
    ∙ ap (take k) (window-add b.buf b.cap b.tail k (len b - k) v.tail_in (omega arith))
    ∙ take-length-append (window b.buf b.cap b.tail k) _ k
        (sym (length-window b.buf b.cap b.tail k))
    ∙ window-eq-slice b.buf b.cap b.tail k v.storage fit

-- The view of the next data bytes of a valid buffer is NULL only where the buffer is empty; else
-- it is a region of the storage that is not empty, and its bytes are a prefix of the contents.
pub get_next_data_bytes_lem :
    {b : CBuffer}
    → IsValid b
    → let w = get_next_data_bytes b in
      (((w.start ≡ none) × (w.size ≡ 0) × (len b ≡ 0))
        ⊎ ((w.start ≡ some b.tail)
            × (0 < w.size)
            × (b.tail + w.size ≤ b.cap)
            × (take w.size (contents b) ≡ slice b.buf b.tail w.size)))
unfolding get_next_data_bytes
get_next_data_bytes_lem {b} v = ground (
  arith,
  len_lem v,
  sub32_small b.head b.tail,
  sub32_small b.cap b.tail,
  take-contents (b.head - b.tail) v,
  take-contents (b.cap - b.tail) v,
)

-- The view of the next free bytes: NULL only for a full buffer, else a region at the write cursor
-- that is not empty and in which no byte of the contents lies.
pub get_next_avail_bytes_lem :
    {b : CBuffer}
    → IsValid b
    → let w = get_next_avail_bytes b in
      (((w.start ≡ none) × (w.size ≡ 0) × (avail b ≡ 0))
        ⊎ ((w.start ≡ some b.head) × (0 < w.size) × (w.size ≤ avail b) × (b.head + w.size ≤ b.cap)))
unfolding get_next_avail_bytes
get_next_avail_bytes_lem {b} v =
    ground (arith, avail_lem v, len_lem v, sub32_small b.cap b.head, sub32_small b.tail b.head)
