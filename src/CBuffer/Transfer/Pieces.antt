-- ===== src/CBuffer/Transfer/Pieces.antt =====
-- The pieces of a transfer between two buffers: up to the end of the array, and from its start.
use c_specx.Base.{
  ℕ, ◌+◌, ◌-◌, ◌*◌, ◌/◌, ◌≤◌, ◌<◌, min, ◌≡◌, ap, ◌∙◌, ◌⊎◌, List, ◌++◌, length, arith, take, drop,
  slice, length-append, length-slice, length-drop, sub32_small,
}
use native.Mathlib.Nat.{le_trans, mul-le-mul_right, div-mul-le_self}
use c_specx.CBuffer.{CBuffer, len, read_step, write}
use c_specx.CBuffer.Window.{ahead}
use c_specx.CBuffer.Inv.{IsValid, contents, len_lem, avail_lem}
use c_specx.CBuffer.Write.{Wrote, Wrote-trans, write_lem, length-Wrote}
use c_specx.CBuffer.Read.{Took, Took-trans, read_step-Took, read_step-tail, length-Took}
use c_specx.CBuffer.Transfer.{transfer_count, first_chunk, write_from}

-- What a transfer of `out` does to both ends.
pub record Sent (dest src : CBuffer) (out : List ℕ) (dest' src' : CBuffer) : Type 0 where
  pub put : Wrote dest out dest'
  pub taken : Took src out src'

-- One piece that does not reach past the end of the array.
piece :
    (k : ℕ) {dest src : CBuffer}
    → IsValid dest
    → IsValid src
    → 0 < k
    → k ≤ len src
    → k ≤ dest.cap - len dest
    → src.tail + k ≤ src.cap
    → Sent dest src (slice src.buf src.tail k) (write_from src src.tail k dest) (read_step src k)
unfolding write_from
piece k {dest} {src} vd vs pos there room fit = record {
  put = record {
    same_cap = w.1;
    valid = w.2;
    bytes = w.3 ∙ ap (λ (n : ℕ). contents dest ++ take n (drop src.tail src.buf)) count;
  };
  taken = read_step-Took vs k pos there fit;
}
  where
    enough : k * 1 ≤ length (drop src.tail src.buf)
    enough = omega (arith, length-drop src.tail src.buf, vs.storage)

    w :
        ((write (drop src.tail src.buf) 1 k dest).0 ≡ min k ((dest.cap - len dest) / 1))
        × ((write (drop src.tail src.buf) 1 k dest).1.cap ≡ dest.cap)
        × IsValid (write (drop src.tail src.buf) 1 k dest).1
        × (contents (write (drop src.tail src.buf) 1 k dest).1
            ≡ contents dest
              ++ take ((write (drop src.tail src.buf) 1 k dest).0 * 1) (drop src.tail src.buf))
    w = write_lem (drop src.tail src.buf) 1 k vd enough

    count : (write (drop src.tail src.buf) 1 k dest).0 * 1 ≡ k
    count = omega (arith, w.0)

pub Sent-trans :
    {a b c d e f : CBuffer} (xs ys : List ℕ)
    → Sent a b xs c d
    → Sent c d ys e f
    → Sent a b (xs ++ ys) e f
Sent-trans xs ys p q = record {
  put = Wrote-trans xs ys p.put q.put;
  taken = Took-trans xs ys p.taken q.taken;
}

-- The number of elements: `cnt`, but no more than `src` holds or `dest` has room for.
abbrev pub sendable : CBuffer → ℕ → ℕ → CBuffer → ℕ
sendable dest sz cnt src = min cnt (min (len src / sz) ((dest.cap - len dest) / sz))

pub transfer_count_lem :
    (sz cnt : ℕ) (dest src : CBuffer)
    → IsValid dest
    → transfer_count dest sz cnt src ≡ sendable dest sz cnt src
unfolding transfer_count
transfer_count_lem sz cnt dest src v = ground (arith, avail_lem v)

pub sendable-mul-le :
    (sz cnt : ℕ) (dest src : CBuffer)
    → let n = sendable dest sz cnt src in (n * sz ≤ len src) × (n * sz ≤ dest.cap - len dest)
sendable-mul-le sz cnt dest src = (
  le_trans (mul-le-mul_right {m = sendable dest sz cnt src} {n = len src / sz} sz (omega arith))
      (div-mul-le_self (len src) sz),
  le_trans
      (mul-le-mul_right {m = sendable dest sz cnt src} {n = (dest.cap - len dest) / sz} sz
        (omega arith))
      (div-mul-le_self (dest.cap - len dest) sz),
)

-- The first piece is not empty; where bytes remain, it ends where the array ends.
pub record IsFirst (src : CBuffer) (nbytes first : ℕ) : Type 0 where
  pub some_left : 0 < first
  pub within : first ≤ nbytes
  pub no_wrap : src.tail + first ≤ src.cap
  pub to_end : (first ≡ nbytes) ⊎ (src.tail + first ≡ src.cap)

pub first_chunk-IsFirst :
    (nbytes : ℕ) {src : CBuffer}
    → IsValid src
    → 0 < nbytes
    → nbytes ≤ len src
    → IsFirst src nbytes (first_chunk src nbytes)
unfolding first_chunk
first_chunk-IsFirst nbytes {src} v pos there =
    ground (arith, len_lem v, sub32_small src.cap src.tail, sub32_small src.head src.tail)

-- Two pieces, as `cbuffer_cbuffer_move` makes them.
abbrev pub Moved : CBuffer → CBuffer → ℕ → CBuffer × CBuffer → Type 0
Moved dest src nbytes r = (out : List ℕ) × (length out ≡ nbytes) × Sent dest src out r.0 r.1

module _ (nbytes first : ℕ) {dest src : CBuffer} (vd : IsValid dest) (vs : IsValid src)
    (there : nbytes ≤ len src) (room : nbytes ≤ dest.cap - len dest)
    (p : IsFirst src nbytes first) where
  abbrev pub dest1 : CBuffer
  dest1 = write_from src src.tail first dest

  abbrev pub src1 : CBuffer
  src1 = read_step src first

  abbrev pub part : List ℕ
  part = slice src.buf src.tail first

  pub one : Sent dest src part dest1 src1
  one = piece first vd vs p.some_left (omega (arith, p.within)) (omega (arith, p.within)) p.no_wrap

  pub length-part : length part ≡ first
  length-part = length-slice src.buf src.tail first (omega (arith, p.no_wrap, vs.storage))

  tail-src1 : src1.tail ≡ ahead src.cap src.tail first
  tail-src1 = read_step-tail vs first p.some_left (omega (arith, p.within))

  module _ (more : first < nbytes) where
    abbrev pub part2 : List ℕ
    part2 = slice src1.buf src1.tail (nbytes - first)

    fits2 : src1.tail + (nbytes - first) ≤ src1.cap
    fits2 = ground (arith, tail-src1, p.to_end, one.taken.same_cap, len_lem vs)

    two :
        Sent dest1 src1 part2
          (write_from src1 src1.tail (nbytes - first) dest1)
          (read_step src1 (nbytes - first))
    two =
        piece (nbytes - first) one.put.valid one.taken.valid (omega arith)
          (omega (arith, length-Took part one.taken, length-part))
          (omega (arith, length-Wrote part one.put, length-part, one.put.same_cap)) fits2

    pub both :
        Moved dest src nbytes
          (write_from src1 src1.tail (nbytes - first) dest1, read_step src1 (nbytes - first))
    both = (
      part ++ part2,
      omega (
        arith,
        length-append part part2,
        length-part,
        length-slice src1.buf src1.tail (nbytes - first)
            (omega (arith, fits2, one.taken.valid.storage)),
      ),
      Sent-trans part part2 one two,
    )
